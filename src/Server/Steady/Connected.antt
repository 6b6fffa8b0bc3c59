-- ===== src/Server/Steady/Connected.antt =====
-- The handlers of requests on an open connection are steady.
use gologix.Base.{ℕ, List, [], ◌∷◌, Option, none, some}
use gologix.Base.Int.{ℤ}
use gologix.Base.Result.{Result, ok, err, panic}
use gologix.Wire.{Bytes}
use gologix.Item.{CipItem}
use gologix.Connections.{Connection}
use gologix.Server.Session.{Env, Datum}
use gologix.Server.Connected.{
  read_reply, string_reply, attribute_reply, path_answer, symbol_reply, connected_read,
  cip_connected_write, get_attr_single, connected_get_attr, attribute_all_answer,
  connected_get_attribute_all, connected_symbol_list,
}
use gologix.Server.Multi.{one_service, service_at, services, gather, connected_multi}
use gologix.Server.Steady.{IsSteady, IsSteady-bind, IsSteady-pure, steady_rules}
use gologix.Item.Payload.{Payload}
use gologix.Identity.{AttributeValue}
use gologix.Server.Session.{TagInfo, pure, ◌>>=◌}
use gologix.Server.Steady.Replies.{
  IsSteady-send_connected_reply, IsSteady-send_connected_error, IsSteady-send_unit_data_reply,
  IsSteady-send_unit_data_reply_with_payload, IsSteady-send_unit_data_error_reply,
  IsSteady-connection, IsSteady-provider, IsSteady-read_tag, IsSteady-write_values,
}

ruleset handler_rules = (
  steady_rules, IsSteady-send_connected_reply, IsSteady-send_connected_error,
  IsSteady-send_unit_data_reply, IsSteady-send_unit_data_reply_with_payload,
  IsSteady-send_unit_data_error_reply, IsSteady-connection, IsSteady-provider, IsSteady-read_tag,
  IsSteady-write_values,
)

module _ {W E : Type 0} (env : Env W E) where
  pub IsSteady-cip_connected_write :
      (item0 : CipItem) (b : Bytes) → IsSteady (cip_connected_write env item0 b)
  unfolding cip_connected_write
  IsSteady-cip_connected_write item0 b = search handler_rules depth 60

  IsSteady-one_service : (p : E) (service : ℕ) (b : Bytes) → IsSteady (one_service env p service b)
  unfolding one_service
  IsSteady-one_service p service b = search handler_rules depth 60

  IsSteady-service_at : (p : E) (content : Bytes) (o : ℤ) → IsSteady (service_at env p content o)
  unfolding service_at
  IsSteady-service_at p content o = search (handler_rules, IsSteady-one_service) depth 60

  IsSteady-services : (p : E) (content : Bytes) (os : List ℤ) → IsSteady (services env p content os)
  unfolding services
  IsSteady-services p content [] = IsSteady-pure _
  IsSteady-services p content (o ∷ os) =
      IsSteady-bind (service_at env p content o)
        (λ r. services env p content os >>= λ rs. pure (r ∷ rs)) (IsSteady-service_at p content o)
        (λ r.
          IsSteady-bind (services env p content os) (λ rs. pure (r ∷ rs))
            (IsSteady-services p content os) (λ rs. IsSteady-pure _))

  IsSteady-gather :
      (p : E) (seq to : ℕ) (content : Bytes) (qty : ℕ) (b : Bytes)
      → IsSteady (gather env p seq to content qty b)
  unfolding gather
  IsSteady-gather p seq to content qty b = search (handler_rules, IsSteady-services) depth 60

  pub IsSteady-connected_multi :
      (item0 item1 : CipItem) → IsSteady (connected_multi env item0 item1)
  unfolding connected_multi
  IsSteady-connected_multi item0 item1 = search (handler_rules, IsSteady-gather) depth 60

  IsSteady-string_reply :
      (service seq to : ℕ) (o : Option (List Payload))
      → IsSteady (string_reply env service seq to o)
  unfolding string_reply
  IsSteady-string_reply service seq to none = search handler_rules depth 60
  IsSteady-string_reply service seq to (some ps) = search handler_rules depth 60

  IsSteady-read_reply :
      (service seq to : ℕ) (d : Datum) → IsSteady (read_reply env service seq to d)
  unfolding read_reply
  IsSteady-read_reply service seq to d = search (handler_rules, IsSteady-string_reply) depth 60

  pub IsSteady-connected_read :
      (service : ℕ) (item0 item1 : CipItem) → IsSteady (connected_read env service item0 item1)
  unfolding connected_read
  IsSteady-connected_read service item0 item1 = search (handler_rules, IsSteady-read_reply) depth 60

  IsSteady-attribute_reply :
      (seq to attr : ℕ) (o : Option AttributeValue) → IsSteady (attribute_reply env seq to attr o)
  unfolding attribute_reply
  IsSteady-attribute_reply seq to attr none = search handler_rules
  IsSteady-attribute_reply seq to attr (some v) = search handler_rules

  IsSteady-get_attr_single : (conn : Connection) (b : Bytes) → IsSteady (get_attr_single env conn b)
  unfolding get_attr_single
  IsSteady-get_attr_single conn b = search (handler_rules, IsSteady-attribute_reply) depth 60

  pub IsSteady-connected_get_attr :
      (item0 item1 : CipItem) → IsSteady (connected_get_attr env item0 item1)
  unfolding connected_get_attr
  IsSteady-connected_get_attr item0 item1 =
      search (handler_rules, IsSteady-get_attr_single) depth 60

  IsSteady-attribute_all_answer : (path : ℕ × ℕ) → IsSteady (attribute_all_answer env path)
  unfolding attribute_all_answer
  IsSteady-attribute_all_answer path = search handler_rules depth 60

  IsSteady-path_answer : (r : Result ((ℕ × ℕ) × Bytes)) → IsSteady (path_answer env r)
  unfolding path_answer
  IsSteady-path_answer (ok found) = IsSteady-attribute_all_answer found.0
  IsSteady-path_answer (err e) = search handler_rules
  IsSteady-path_answer panic = search handler_rules

  pub IsSteady-connected_get_attribute_all :
      (item1 : CipItem) → IsSteady (connected_get_attribute_all env item1)
  unfolding connected_get_attribute_all
  IsSteady-connected_get_attribute_all item1 = search (handler_rules, IsSteady-path_answer) depth 60

  IsSteady-symbol_reply : (o : Option (List TagInfo)) → IsSteady (symbol_reply env o)
  unfolding symbol_reply
  IsSteady-symbol_reply none = search handler_rules
  IsSteady-symbol_reply (some tags) = search handler_rules

  pub IsSteady-connected_symbol_list :
      (item0 : CipItem) → IsSteady (connected_symbol_list env item0)
  unfolding connected_symbol_list
  IsSteady-connected_symbol_list item0 = search (handler_rules, IsSteady-symbol_reply) depth 60
