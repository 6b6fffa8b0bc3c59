-- ===== src/Server/Steady/Replies.antt =====
-- The replies, and the access to connections, endpoints and tags, are steady.
use gologix.Base.{ℕ, refl, List, [], ◌∷◌, length, ltb, ◌%◌}
use gologix.Base.Result.{panic}
use gologix.Wire.{Bytes}
use gologix.Item.Payload.{Payload}
use gologix.Server.Session.{Session, Env, Datum, Element}
use gologix.Server.Replies.{
  send_connected_reply, send_connected_error, send_unit_data_reply, send_unit_data_error_reply,
  send_unit_data_reply_with_payload, send_unconnected_rr_data_reply, send_unconnected_error_reply,
  unit_data_reply,
}
use gologix.Server.Access.{connection, read_tag, write_tag, write_values, provider, first_value}
use gologix.Server.Steady.{
  Follows, Follows-refl, Follows-same, IsSteady, IsSteady-send_items, IsSteady-if, IsSteady-lift,
}

module _ {W : Type 0} where
  pub IsSteady-send_connected_reply :
      (service seq conn_id : ℕ) (ps : List Payload)
      → IsSteady (send_connected_reply {W = W} service seq conn_id ps)
  unfolding send_connected_reply
  IsSteady-send_connected_reply service seq conn_id ps = IsSteady-send_items _ _ _

  pub IsSteady-send_connected_error :
      (service seq conn_id status extended : ℕ)
      → IsSteady (send_connected_error {W = W} service seq conn_id status extended)
  unfolding send_connected_error
  IsSteady-send_connected_error service seq conn_id status extended = IsSteady-send_items _ _ _

  IsSteady-unit_data_reply :
      (service status : ℕ) (ps : List Payload)
      → IsSteady (unit_data_reply {W = W} service status ps)
  unfolding unit_data_reply
  IsSteady-unit_data_reply service status ps = record { at = λ s. (IsSteady-send_items _ _ _).at s }

  pub IsSteady-send_unit_data_reply :
      (service : ℕ) → IsSteady (send_unit_data_reply {W = W} service)
  unfolding send_unit_data_reply
  IsSteady-send_unit_data_reply service = IsSteady-unit_data_reply service 0 []

  pub IsSteady-send_unit_data_reply_with_payload :
      (service : ℕ) (b : Bytes) → IsSteady (send_unit_data_reply_with_payload {W = W} service b)
  unfolding send_unit_data_reply_with_payload
  IsSteady-send_unit_data_reply_with_payload service b = IsSteady-unit_data_reply service 0 _

  pub IsSteady-send_unit_data_error_reply :
      (service status : ℕ) → IsSteady (send_unit_data_error_reply {W = W} service status)
  unfolding send_unit_data_error_reply
  IsSteady-send_unit_data_error_reply service status = IsSteady-unit_data_reply service status []

  pub IsSteady-send_unconnected_rr_data_reply :
      (service : ℕ) (ps : List Payload)
      → IsSteady (send_unconnected_rr_data_reply {W = W} service ps)
  unfolding send_unconnected_rr_data_reply
  IsSteady-send_unconnected_rr_data_reply service ps = IsSteady-send_items _ _ _

  pub IsSteady-send_unconnected_error_reply :
      (service status : ℕ) → IsSteady (send_unconnected_error_reply {W = W} service status)
  unfolding send_unconnected_error_reply
  IsSteady-send_unconnected_error_reply service status = IsSteady-send_items _ _ _

module _ {W : Type 0} where
  pub Follows-world : (s : Session W) (w : W) → Follows s (record s { world = w })
  Follows-world s w = Follows-same s _ refl refl refl refl

module _ {W E : Type 0} (env : Env W E) where
  pub IsSteady-connection : (conn_id : ℕ) → IsSteady (connection env conn_id)
  unfolding connection
  IsSteady-connection conn_id = record { at = λ s. Follows-refl s }

  pub IsSteady-provider : (path : Bytes) → IsSteady (provider env path)
  unfolding provider
  IsSteady-provider path = IsSteady-lift _

  pub IsSteady-read_tag : (p : E) (tag : Bytes) (qty : ℕ) → IsSteady (read_tag env p tag qty)
  unfolding read_tag
  IsSteady-read_tag p tag qty = record { at = λ s. Follows-world s _ }

  pub IsSteady-write_tag : (p : E) (tag : Bytes) (d : Datum) → IsSteady (write_tag env p tag d)
  unfolding write_tag
  IsSteady-write_tag p tag d = record { at = λ s. Follows-world s _ }

  IsSteady-first_value :
      (p : E) (tag : Bytes) (vs : List Element) → IsSteady (first_value env p tag vs)
  unfolding first_value
  IsSteady-first_value p tag [] = IsSteady-lift panic
  IsSteady-first_value p tag (v ∷ vs) = IsSteady-write_tag p tag _

  pub IsSteady-write_values :
      (p : E) (tag : Bytes) (vs : List Element) → IsSteady (write_values env p tag vs)
  unfolding write_values
  IsSteady-write_values p tag vs =
      IsSteady-if (ltb 1 (length vs % 65536)) _ _ (IsSteady-write_tag p tag _)
        (IsSteady-first_value p tag vs)
