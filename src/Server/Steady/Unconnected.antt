-- ===== src/Server/Steady/Unconnected.antt =====
-- The handlers of requests outside a connection, and of the opening and closing of one, are steady.
use gologix.Base.{ℕ, List, [], ◌∷◌, Option, none, some}
use gologix.Base.Result.{Result, ok, err, panic}
use gologix.Wire.{Bytes}
use gologix.Identity.{AttributeValue}
use gologix.Server.Session.{Env, Datum, Element}
use gologix.Server.Unconnected.{
  unconnected_service_write, unconnected_service_read, attribute_all_answer, path_answer,
  unconnected_get_attribute_all, answered, local_tag, tag_attribute, get_tag_attribute,
  identity_reply, get_identity_attribute, unconnected_service_get_attr_single, written,
  set_local_tag, set_tag, set_named_tag, set_tag_attribute, unconnected_service_set_attr_single,
}
use gologix.Server.Steady.{IsSteady, steady_rules}
use gologix.Server.Steady.Replies.{
  IsSteady-send_unconnected_rr_data_reply, IsSteady-send_unconnected_error_reply, IsSteady-provider,
  IsSteady-read_tag, IsSteady-write_tag, IsSteady-write_values,
}

ruleset handler_rules = (
  steady_rules, IsSteady-send_unconnected_rr_data_reply, IsSteady-send_unconnected_error_reply,
  IsSteady-provider, IsSteady-read_tag, IsSteady-write_tag, IsSteady-write_values,
  IsSteady-provider,
)

module _ {W E : Type 0} (env : Env W E) where
  pub IsSteady-unconnected_service_write : (b : Bytes) → IsSteady (unconnected_service_write env b)
  unfolding unconnected_service_write
  IsSteady-unconnected_service_write b = search handler_rules depth 60

  pub IsSteady-unconnected_service_read : (b : Bytes) → IsSteady (unconnected_service_read env b)
  unfolding unconnected_service_read
  IsSteady-unconnected_service_read b = search handler_rules depth 60

  IsSteady-attribute_all_answer : (path : ℕ × ℕ) → IsSteady (attribute_all_answer env path)
  unfolding attribute_all_answer
  IsSteady-attribute_all_answer path = search handler_rules depth 60

  IsSteady-path_answer : (r : Result ((ℕ × ℕ) × Bytes)) → IsSteady (path_answer env r)
  unfolding path_answer
  IsSteady-path_answer (ok found) = IsSteady-attribute_all_answer found.0
  IsSteady-path_answer (err e) = search handler_rules
  IsSteady-path_answer panic = search handler_rules

  pub IsSteady-unconnected_get_attribute_all :
      (b : Bytes) → IsSteady (unconnected_get_attribute_all env b)
  unfolding unconnected_get_attribute_all
  IsSteady-unconnected_get_attribute_all b = search (handler_rules, IsSteady-path_answer) depth 60

  IsSteady-answered : (r : Result Datum) → IsSteady (answered env r)
  unfolding answered
  IsSteady-answered (ok val) = search handler_rules
  IsSteady-answered (err e) = search handler_rules
  IsSteady-answered panic = search handler_rules

  IsSteady-local_tag : (tag : Bytes) (r : Result E) → IsSteady (local_tag env tag r)
  unfolding local_tag
  IsSteady-local_tag tag (ok p) = search (handler_rules, IsSteady-answered)
  IsSteady-local_tag tag (err e) = search handler_rules
  IsSteady-local_tag tag panic = search handler_rules

  IsSteady-tag_attribute : (attr : ℕ) (o : Option Bytes) → IsSteady (tag_attribute env attr o)
  unfolding tag_attribute
  IsSteady-tag_attribute attr none = search handler_rules
  IsSteady-tag_attribute attr (some tag) = search (handler_rules, IsSteady-local_tag)

  IsSteady-get_tag_attribute : (inst attr : ℕ) → IsSteady (get_tag_attribute env inst attr)
  unfolding get_tag_attribute
  IsSteady-get_tag_attribute inst attr = search (handler_rules, IsSteady-tag_attribute)

  IsSteady-identity_reply :
      (attr : ℕ) (o : Option AttributeValue) → IsSteady (identity_reply env attr o)
  unfolding identity_reply
  IsSteady-identity_reply attr none = search handler_rules
  IsSteady-identity_reply attr (some v) = search handler_rules

  IsSteady-get_identity_attribute :
      (cls inst attr : ℕ) → IsSteady (get_identity_attribute env cls inst attr)
  unfolding get_identity_attribute
  IsSteady-get_identity_attribute cls inst attr = search (handler_rules, IsSteady-identity_reply)

  pub IsSteady-unconnected_service_get_attr_single :
      (b : Bytes) → IsSteady (unconnected_service_get_attr_single env b)
  unfolding unconnected_service_get_attr_single
  IsSteady-unconnected_service_get_attr_single b =
      search (handler_rules, IsSteady-get_tag_attribute, IsSteady-get_identity_attribute) depth 60

  IsSteady-written : (r : Result (Unit {0})) → IsSteady (written env r)
  unfolding written
  IsSteady-written (ok u) = search handler_rules
  IsSteady-written (err e) = search handler_rules
  IsSteady-written panic = search handler_rules

  IsSteady-set_local_tag :
      (tag : Bytes) (v : Element) (r : Result E) → IsSteady (set_local_tag env tag v r)
  unfolding set_local_tag
  IsSteady-set_local_tag tag v (ok p) = search (handler_rules, IsSteady-written)
  IsSteady-set_local_tag tag v (err e) = search handler_rules
  IsSteady-set_local_tag tag v panic = search handler_rules

  IsSteady-set_tag : (tag : Bytes) (vs : List Element) → IsSteady (set_tag env tag vs)
  unfolding set_tag
  IsSteady-set_tag tag [] = search handler_rules
  IsSteady-set_tag tag (v ∷ vs) = IsSteady-set_local_tag tag v _

  IsSteady-set_named_tag : (b : Bytes) (o : Option Bytes) → IsSteady (set_named_tag env b o)
  unfolding set_named_tag
  IsSteady-set_named_tag b none = search handler_rules
  IsSteady-set_named_tag b (some tag) = search (handler_rules, IsSteady-set_tag)

  IsSteady-set_tag_attribute : (inst : ℕ) (b : Bytes) → IsSteady (set_tag_attribute env inst b)
  unfolding set_tag_attribute
  IsSteady-set_tag_attribute inst b = search (handler_rules, IsSteady-set_named_tag)

  pub IsSteady-unconnected_service_set_attr_single :
      (b : Bytes) → IsSteady (unconnected_service_set_attr_single env b)
  unfolding unconnected_service_set_attr_single
  IsSteady-unconnected_service_set_attr_single b =
      search (handler_rules, IsSteady-set_tag_attribute) depth 60
