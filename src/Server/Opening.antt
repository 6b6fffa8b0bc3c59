-- ===== src/Server/Opening.antt =====
-- server.go: forward open and forward close, and the registration of a session.
use gologix.Base.{ℕ, suc, ◌*◌, ◌%◌, [], ◌∷◌, ◌++◌, true, false, ◌==◌, if◌then◌else◌}
use gologix.Base.Result.{Result, ok, panic}
use gologix.Wire.{Bytes, put_u16, put_u32, read_full}
use gologix.Item.Payload.{fixed_size, serialize, new_item}
use gologix.Connections.{Connection, Manager, add, close_by_id}
use gologix.Server.Session.{Action, Env, lift, gets, receive, pure, ◌>>=◌}
use gologix.Server.Messages.{
  EipHeader, ForwardOpen, read_forward_open, read_forward_close, read_register, register_bytes,
}
use gologix.Server.Replies.{
  as_response, send, send_items, command_register_session, command_send_rr_data,
}
use gologix.Server.Access.{provider}

-- `fwd_path[:2]` panics on a shorter path.
unfoldable pub route : Bytes → Result Bytes
route (a ∷ b ∷ path) = ok (a ∷ b ∷ [])
route (a ∷ []) = panic
route [] = panic

-- msgEIPForwardOpen_Standard_Reply
unfoldable pub open_reply : ForwardOpen → ℕ → ℕ → Bytes
open_reply m ot to =
    as_response m.service
    ∷ 0
    ∷ 0
    ∷ 0
    ∷ (put_u32 ot
        ++ (put_u32 to
            ++ (put_u16 m.serial
                ++ (put_u16 m.vendor
                    ++ (put_u32 m.originator
                        ++ (put_u32 m.ot_rpi ++ (put_u32 m.to_rpi ++ 0 ∷ 0 ∷ [])))))))

-- serverConnection; the RPI is kept in microseconds.
unfoldable pub new_connection : ForwardOpen → ℕ → ℕ → Bytes → Connection
new_connection m ot to path = record {
  id = m.serial;
  ot = ot;
  to = to;
  rpi = m.to_rpi;
  path = path;
  is_open = true;
}

module _ {W E : Type 0} (env : Env W E) where
  -- rand.Uint32
  unfoldable pub draw : Action W ℕ
  draw s = (ok (env.random s.drawn), record s { drawn = suc s.drawn })

  -- A connection ID of 0 asks for a random one.
  unfoldable pub choose : ℕ → Action W ℕ
  choose v = if v == 0 then draw else pure v

  unfoldable pub set_ids : ℕ → ℕ → Action W (Unit {0})
  set_ids ot to s = (ok tt, record s { ot = ot; to = to })

  -- The two IDs, kept in the handler.
  unfoldable pub choose_ids : ForwardOpen → Action W (ℕ × ℕ)
  choose_ids m = do to ← choose m.to; ot ← choose m.ot; kept ← set_ids ot to; pure (ot, to)

  unfoldable pub add_connection : Connection → Action W (Unit {0})
  add_connection conn s = (ok tt, record s { connections = add conn s.connections })

  -- What forwardOpen and largeForwardOpen share: the reply, then the connection.
  unfoldable pub open_connection : ForwardOpen → Bytes → Action W Connection
  open_connection m path = do
    ids ← choose_ids m
    sent ←
        send_items command_send_rr_data (new_item 0 [])
          (serialize (fixed_size (open_reply m ids.0 ids.1) ∷ []) (new_item 0xB2 []))
    added ← add_connection (new_connection m ids.0 ids.1 path)
    pure (new_connection m ids.0 ids.1 path)

  -- largeForwardOpen. `ConnPathSize*2` is a byte.
  unfoldable pub large_forward_open : Bytes → Action W (Unit {0})
  large_forward_open b = do
    m ← lift (read_forward_open true b)
    fwd_path ← lift (read_full (m.0.path_size * 2 % 256) m.1)
    path ← lift (route fwd_path.0)
    conn ← open_connection m.0 path
    pure tt

  -- forwardOpen. A cyclic connection needs an endpoint; its sending (ioConnection) runs beside the handler.
  unfoldable pub forward_open : Bytes → Action W (Unit {0})
  forward_open b = do
    m ← lift (read_forward_open false b)
    fwd_path ← lift (read_full (m.0.path_size * 2 % 256) m.1)
    path ← lift (route fwd_path.0)
    conn ← open_connection m.0 path
    (if m.0.trigger == 1 then (do p ← provider env path; pure tt) else pure tt)

  unfoldable pub set_connections : Manager → Action W (Unit {0})
  set_connections cm s = (ok tt, record s { connections = cm })

  -- forwardClose
  unfoldable pub forward_close : Bytes → Action W (Unit {0})
  forward_close b = do
    m ← lift (read_forward_close b)
    closing ← gets (λ s. close_by_id m.0.serial s.connections)
    found ← lift closing
    removed ← set_connections found.1
    path ← lift (read_full (m.0.path_size * 2 % 256) m.1)
    pure tt

  unfoldable pub set_handle : ℕ → ℕ → Action W (Unit {0})
  set_handle handle options s = (ok tt, record s { handle = handle; options = options })

  -- registerSession
  unfoldable pub register_session : EipHeader → Action W (Unit {0})
  register_session hdr = do
    m ← receive read_register
    handle ← choose hdr.session_handle
    kept ← set_handle handle hdr.options
    send command_register_session (register_bytes m)
