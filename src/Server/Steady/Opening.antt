-- ===== src/Server/Steady/Opening.antt =====
-- The opening and the closing of a connection, and the registration of a session, are steady.
use gologix.Base.{ℕ, refl}
use gologix.Wire.{Bytes}
use gologix.Wire.Shrinks.{Shrinks, shrinks_rules}
use gologix.Connections.{Connection, Manager}
use gologix.Server.Session.{Env, receive}
use gologix.Server.Messages.{EipHeader, ForwardOpen, read_register}
use gologix.Server.Opening.{
  draw, choose, set_ids, choose_ids, add_connection, open_connection, large_forward_open,
  forward_open, set_connections, forward_close, set_handle, register_session,
}
use gologix.Server.Steady.{
  Follows-same, IsSteady, IsSteady-send, IsSteady-send_items, IsSteady-receive, steady_rules,
}
use gologix.Server.Steady.Replies.{IsSteady-provider}

ruleset handler_rules = (steady_rules, IsSteady-provider, IsSteady-send, IsSteady-send_items)

module _ {W E : Type 0} (env : Env W E) where
  IsSteady-draw : IsSteady (draw env)
  unfolding draw
  IsSteady-draw = record { at = λ s. Follows-same s _ refl refl refl refl }

  IsSteady-choose : (v : ℕ) → IsSteady (choose env v)
  unfolding choose
  IsSteady-choose v = search (handler_rules, IsSteady-draw)

  IsSteady-set_ids : (ot to : ℕ) → IsSteady (set_ids env ot to)
  unfolding set_ids
  IsSteady-set_ids ot to = record { at = λ s. Follows-same s _ refl refl refl refl }

  IsSteady-choose_ids : (m : ForwardOpen) → IsSteady (choose_ids env m)
  unfolding choose_ids
  IsSteady-choose_ids m = search (handler_rules, IsSteady-choose, IsSteady-set_ids)

  IsSteady-add_connection : (conn : Connection) → IsSteady (add_connection env conn)
  unfolding add_connection
  IsSteady-add_connection conn = record { at = λ s. Follows-same s _ refl refl refl refl }

  IsSteady-open_connection :
      (m : ForwardOpen) (path : Bytes) → IsSteady (open_connection env m path)
  unfolding open_connection
  IsSteady-open_connection m path =
      search (handler_rules, IsSteady-choose_ids, IsSteady-add_connection) depth 60

  pub IsSteady-large_forward_open : (b : Bytes) → IsSteady (large_forward_open env b)
  unfolding large_forward_open
  IsSteady-large_forward_open b = search (handler_rules, IsSteady-open_connection) depth 60

  pub IsSteady-forward_open : (b : Bytes) → IsSteady (forward_open env b)
  unfolding forward_open
  IsSteady-forward_open b = search (handler_rules, IsSteady-open_connection) depth 60

  IsSteady-set_connections : (cm : Manager) → IsSteady (set_connections env cm)
  unfolding set_connections
  IsSteady-set_connections cm = record { at = λ s. Follows-same s _ refl refl refl refl }

  pub IsSteady-forward_close : (b : Bytes) → IsSteady (forward_close env b)
  unfolding forward_close
  IsSteady-forward_close b = search (handler_rules, IsSteady-set_connections) depth 60

  Shrinks-read_register : Shrinks read_register
  unfolding read_register
  Shrinks-read_register = search shrinks_rules depth 60

  IsSteady-read_register : IsSteady (receive {W = W} read_register)
  IsSteady-read_register = IsSteady-receive read_register Shrinks-read_register

  IsSteady-set_handle : (handle options : ℕ) → IsSteady (set_handle env handle options)
  unfolding set_handle
  IsSteady-set_handle handle options = record { at = λ s. Follows-same s _ refl refl refl refl }

  pub IsSteady-register_session : (hdr : EipHeader) → IsSteady (register_session env hdr)
  unfolding register_session
  IsSteady-register_session hdr =
      search (handler_rules, IsSteady-read_register, IsSteady-choose, IsSteady-set_handle) depth 60
