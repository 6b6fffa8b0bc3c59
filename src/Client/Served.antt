-- ===== src/Client/Served.antt =====
-- A client whose socket ends at the server of the same repository: a message is built and sent
-- (sendreceive.go), the server takes it in one round of its loop (server.go), and the client reads what comes back.
use gologix.Base.{ℕ, ◌<◌, ◌≡◌, refl, List, [], ◌∷◌, ◌++◌, true, length, arith}
use gologix.Base.Result.{Result, ok}
use gologix.Wire.{Bytes}
use gologix.Server.Session.{Session, Env, receive, consumed}
use gologix.Server.Messages.{EipHeader}
use gologix.Server.Replies.{new_eip_header, packet}
use gologix.Server.Serve.{round, dispatch, set_context}
use gologix.Client.{Client, send_msg_build, send_recv_data, recv_data, replied, received}
use gologix.Client
use gologix.Client.Framing.{IsHeader, read_header-bytes, recv_data-bytes}

concat : List Bytes → Bytes
concat [] = []
concat (p ∷ ps) = p ++ concat ps

-- The client's numbers fit their types.
pub record IsClient (c : Client) : Type 0 where
  pub session_handle_fits : c.session_handle < 4294967296
  pub context_fits : c.context < 18446744073709551616

-- The server's peer takes packets, and its numbers fit their types.
pub record IsReady {W : Type 0} (s : Session W) : Type 0 where
  pub takes : s.writable ≡ true
  pub handle_fits : s.handle < 4294967296
  pub options_fits : s.options < 4294967296

module _ {W E : Type 0} (env : Env W E) (s : Session W) where
  -- The server, when just these bytes have arrived.
  abbrev pub arrived : Bytes → Session W
  arrived b = record s { input = b; sent = [] }

  -- What the server sends back in one round.
  unfoldable pub served : Bytes → Result Bytes
  unfolding concat
  served b = ok (concat (round env (arrived b)).1.sent)

  abbrev pub at_dispatch : Client → Bytes → Session W
  at_dispatch c msg = record s { input = msg; sent = []; context = c.context }

  abbrev pub header : ℕ → Bytes → Client → EipHeader
  header cmd msg c = (Client.new_eip_header cmd (length msg) c).0

  pub round-send_msg_build :
      (cmd : ℕ) (msg : Bytes) (c : Client)
      → cmd < 65536
      → IsClient c
      → round env (arrived (send_msg_build cmd msg c).0)
        ≡ dispatch env (header cmd msg c) (at_dispatch c msg)
  unfolding round receive consumed set_context send_msg_build Client.new_eip_header
  round-send_msg_build cmd msg c h f =
      let fits : IsHeader (header cmd msg c) = record {
        command_fits = h;
        length_fits = omega arith;
        session_handle_fits = f.session_handle_fits;
        status_fits = omega arith;
        context_fits = f.context_fits;
        options_fits = omega arith;
      } in
      rw (read_header-bytes (header cmd msg c) msg fits) refl

module _ {W : Type 0} where
  recv_data-packet :
      (cmd : ℕ) (msg : Bytes) (t : Session W)
      → cmd < 65536
      → length msg < 65536
      → IsReady t
      → t.context < 18446744073709551616
      → recv_data (concat (packet cmd msg t ∷ []))
        ≡ ok ((new_eip_header cmd (length msg) t, msg), [])
  unfolding concat packet new_eip_header
  recv_data-packet cmd msg t h l f g =
      let fits : IsHeader (new_eip_header cmd (length msg) t) = record {
        command_fits = h;
        length_fits = omega arith;
        session_handle_fits = f.handle_fits;
        status_fits = omega arith;
        context_fits = g;
        options_fits = f.options_fits;
      } in
      recv_data-bytes (new_eip_header cmd (length msg) t) msg [] fits (omega arith)

module _ {W E : Type 0} (env : Env W E) (s : Session W) (disconnect : Client → Client) where
  -- A message whose round sends one packet is answered by that packet.
  pub send_recv_data-packet :
      (cmd : ℕ) (msg : Bytes) (c : Client) (code : ℕ) (reply : Bytes) (t : Session W)
      → (round env (arrived env s (send_msg_build cmd msg c).0)).1.sent ≡ packet code reply t ∷ []
      → code < 65536
      → length reply < 65536
      → IsReady t
      → t.context < 18446744073709551616
      → send_recv_data (served env s) disconnect cmd msg c
        ≡ (ok (new_eip_header code (length reply) t, reply), (send_msg_build cmd msg c).1)
  unfolding send_recv_data replied received served
  send_recv_data-packet cmd msg c code reply t e h l f g =
      rw (e, recv_data-packet code reply t h l f g) refl
