-- ===== src/Server/Unconnected.antt =====
-- server_unconnected.go: the requests outside a connection, on tags and attributes.
use gologix.Base.{ℕ, ◌*◌, ◌%◌, List, [], ◌∷◌, ◌&&◌, Option, none, some, ◌==◌, if◌then◌else◌}
use gologix.Base.Result.{Result, ok, err, panic}
use gologix.Wire.{Bytes, read_u8, read_u16, read_full}
use gologix.Item.Payload.{Payload, fixed_size}
use gologix.Segment.{parse_class_instance_path}
use gologix.Segment.Class
use gologix.Segment.Instance
use gologix.Segment.Attribute
use gologix.Ioi.Decode.{get_tag_from_path}
use gologix.TagMap.{resolve}
use gologix.Identity.{AttributeValue}
use gologix.Server.Session.{
  Action, Env, Datum, Element, one, many, strings, numbers, other, lift, gets, tried, item_byte,
  payload, ◌>>=◌,
}
use gologix.Server.Writes.{parse_write_values}
use gologix.Server.Replies.{send_unconnected_rr_data_reply, send_unconnected_error_reply}
use gologix.Server.Attributes.{
  build_identity_get_attributes_all_response, build_program_object_get_attributes_all_response,
  tag_of_instance,
}
use gologix.Server.Access.{
  type_of, attribute_datum, string_payload, string_payloads, read_tag, write_tag, write_values,
  provider,
}

-- defaultLocalPath
abbrev default_local_path : Bytes
default_local_path = 1 ∷ 0 ∷ []

-- The type, a zero byte and the value.
unfoldable pub typed_payloads : Datum → List Payload
typed_payloads d = fixed_size (type_of d ∷ []) ∷ fixed_size (0 ∷ []) ∷ payload d ∷ []

-- The tag data of a reply to a read; a value of type STRING that is no string falls through.
unfoldable pub tag_payloads : Datum → List Payload
unfolding typed_payloads
tag_payloads d =
    if type_of d == 0xFF
    then elim (string_payloads d) [ some ps ↦ ps | none ↦ typed_payloads d ]
    else typed_payloads d

-- The same for one tag of class 0xC8, which has no case for a []string.
unfoldable pub single_payloads : Datum → List Payload
unfolding typed_payloads
single_payloads (one (Element.string x)) = string_payload x ∷ []
single_payloads (strings ss) = typed_payloads (strings ss)
single_payloads (one (Element.plain v)) = typed_payloads (one (Element.plain v))
single_payloads (numbers n vs) = typed_payloads (numbers n vs)
single_payloads (many vs) = typed_payloads (many vs)
single_payloads (other g p) = typed_payloads (other g p)

module _ {W E : Type 0} (env : Env W E) where
  -- unconnectedServiceWrite. `2*path_size` is a uint16.
  unfoldable pub unconnected_service_write : Bytes → Action W (Unit {0})
  unconnected_service_write b = do
    reserved ← lift (read_u8 b)
    tag ← lift (get_tag_from_path reserved.1)
    results ← lift (parse_write_values tag.1)
    path_size ← lift (read_u16 results.1)
    path ← lift (read_full (2 * path_size.0 % 65536) path_size.1)
    p ← provider env path.0
    written ← write_values env p tag.0 results.0
    send_unconnected_rr_data_reply 0x4D []

  -- unconnectedServiceRead
  unfoldable pub unconnected_service_read : Bytes → Action W (Unit {0})
  unconnected_service_read b = do
    reserved ← lift (read_u8 b)
    tag ← lift (get_tag_from_path reserved.1)
    qty ← lift (read_u16 tag.1)
    path_size ← lift (read_u16 qty.1)
    path ← lift (read_full (2 * path_size.0 % 65536) path_size.1)
    p ← provider env path.0
    result ← read_tag env p tag.0 qty.0
    send_unconnected_rr_data_reply 0x4C (tag_payloads result)

  -- resolveSymbolicTagFromCustomClass
  unfoldable pub resolve_symbolic_tag : ℕ → W → Option Bytes
  resolve_symbolic_tag instance_id w = elim (resolve default_local_path env.router) [
    | ok p ↦ elim (env.tag_list p w) [ some tags ↦ tag_of_instance instance_id tags | none ↦ none ]
    | err e ↦ none
    | panic ↦ none
  ]

  -- The answer by the class and the instance of the path.
  unfoldable pub attribute_all_answer : ℕ × ℕ → Action W (Unit {0})
  attribute_all_answer path =
      if path.0 == 1
      then (if path.1 == 1
          then (do
            dat ← lift (build_identity_get_attributes_all_response env.attributes)
            send_unconnected_rr_data_reply 1 (fixed_size dat ∷ []))
          else send_unconnected_error_reply 1 0x05)
      else if path.0 == 0x64
      then (if path.1 == 1
          then (do
            dat ← lift (build_program_object_get_attributes_all_response env.attributes)
            send_unconnected_rr_data_reply 1 (fixed_size dat ∷ []))
          else send_unconnected_error_reply 1 0x05)
      else send_unconnected_error_reply 1 0x05

  unfoldable pub path_answer : Result ((ℕ × ℕ) × Bytes) → Action W (Unit {0})
  path_answer (ok found) = attribute_all_answer found.0
  path_answer (err e) = send_unconnected_error_reply 1 0x04
  path_answer panic = lift panic

  -- unconnectedGetAttributeAll
  unfoldable pub unconnected_get_attribute_all : Bytes → Action W (Unit {0})
  unconnected_get_attribute_all b = do
    path_size ← lift (read_u8 b)
    path_bytes ← lift (read_full (path_size.0 * 2) path_size.1)
    path_answer (parse_class_instance_path path_bytes.0)

  -- An error of the provider is answered, and the answer's own error is returned.
  unfoldable pub answered : Result Datum → Action W (Unit {0})
  answered (ok val) = send_unconnected_rr_data_reply 0x0E (single_payloads val)
  answered (err e) = send_unconnected_error_reply 0x0E 0x16
  answered panic = lift panic

  unfoldable pub local_tag : Bytes → Result E → Action W (Unit {0})
  local_tag tag_name (ok p) = tried (read_tag env p tag_name 1) >>= answered
  local_tag tag_name (err e) = send_unconnected_error_reply 0x0E 0x05
  local_tag tag_name panic = lift panic

  unfoldable pub tag_attribute : ℕ → Option Bytes → Action W (Unit {0})
  tag_attribute attr none = send_unconnected_error_reply 0x0E 0x05
  tag_attribute attr (some tag_name) =
      if attr == 1
      then local_tag tag_name (resolve default_local_path env.router)
      else send_unconnected_error_reply 0x0E 0x14

  -- Get_Attribute_Single of class 0xC8, the tags by their instances.
  unfoldable pub get_tag_attribute : ℕ → ℕ → Action W (Unit {0})
  get_tag_attribute inst attr = do
    tag_name ← gets (λ s. resolve_symbolic_tag (inst % 65536) s.world)
    tag_attribute attr tag_name

  unfoldable pub identity_reply : ℕ → Option AttributeValue → Action W (Unit {0})
  identity_reply attr none = send_unconnected_error_reply 0x0E 0x14
  identity_reply attr (some v) =
      send_unconnected_rr_data_reply 0x0E
        (typed_payloads (attribute_datum env.other_attribute attr v))

  -- Get_Attribute_Single of another class: the Identity is the only one.
  unfoldable pub get_identity_attribute : ℕ → ℕ → ℕ → Action W (Unit {0})
  get_identity_attribute cls inst attr =
      if cls == 1 && inst == 1
      then identity_reply attr (env.attributes attr)
      else send_unconnected_error_reply 0x0E 0x05

  -- unconnectedServiceGetAttrSingle
  unfoldable pub unconnected_service_get_attr_single : Bytes → Action W (Unit {0})
  unconnected_service_get_attr_single b = do
    path_size ← lift (item_byte b)
    (if path_size.0 == 3
        then (do
          cls ← lift (Class.read path_size.1)
          inst ← lift (Instance.read cls.1)
          attr ← lift (Attribute.read inst.1)
          (if cls.0 == 0xC8
              then get_tag_attribute inst.0 attr.0
              else get_identity_attribute cls.0 inst.0 attr.0))
        else send_unconnected_error_reply 0x0E 0x04)

  unfoldable pub written : Result (Unit {0}) → Action W (Unit {0})
  written (ok u) = send_unconnected_rr_data_reply 0x10 []
  written (err e) = send_unconnected_error_reply 0x10 0x09
  written panic = lift panic

  unfoldable pub set_local_tag : Bytes → Element → Result E → Action W (Unit {0})
  set_local_tag tag_name v (ok p) = tried (write_tag env p tag_name (one v)) >>= written
  set_local_tag tag_name v (err e) = send_unconnected_error_reply 0x10 0x05
  set_local_tag tag_name v panic = lift panic

  -- The write of the first value, where there is one.
  unfoldable pub set_tag : Bytes → List Element → Action W (Unit {0})
  set_tag tag_name [] = send_unconnected_error_reply 0x10 0x13
  set_tag tag_name (v ∷ vs) = set_local_tag tag_name v (resolve default_local_path env.router)

  unfoldable pub set_named_tag : Bytes → Option Bytes → Action W (Unit {0})
  set_named_tag b none = send_unconnected_error_reply 0x10 0x05
  set_named_tag b (some tag_name) = do
    results ← lift (parse_write_values b)
    set_tag tag_name results.0

  unfoldable pub set_tag_attribute : ℕ → Bytes → Action W (Unit {0})
  set_tag_attribute inst b = do
    tag_name ← gets (λ s. resolve_symbolic_tag (inst % 65536) s.world)
    set_named_tag b tag_name

  -- unconnectedServiceSetAttrSingle
  unfoldable pub unconnected_service_set_attr_single : Bytes → Action W (Unit {0})
  unconnected_service_set_attr_single b = do
    path_size ← lift (item_byte b)
    (if path_size.0 == 3
        then (do
          cls ← lift (Class.read path_size.1)
          inst ← lift (Instance.read cls.1)
          attr ← lift (Attribute.read inst.1)
          (if cls.0 == 0xC8
              then (if attr.0 == 1
                  then set_tag_attribute inst.0 attr.1
                  else send_unconnected_error_reply 0x10 0x14)
              else send_unconnected_error_reply 0x10 0x05))
        else send_unconnected_error_reply 0x10 0x04)
