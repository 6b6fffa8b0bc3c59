-- ===== src/Server/Connected.antt =====
-- server_connected.go and server.go: the requests on an open connection.
use gologix.Base.{ℕ, ◌*◌, List, [], ◌∷◌, ◌&&◌, Option, none, some, ◌==◌, if◌then◌else◌}
use gologix.Base.Result.{Result, ok, err, panic, wrong_type, bad_segment, not_found}
use gologix.Wire.{Bytes, read_u8, read_u16, read_u32, read_full}
use gologix.Item.{CipItem}
use gologix.Item.Payload.{Payload, fixed_size}
use gologix.Segment.{parse_class_instance_path}
use gologix.Segment.Class
use gologix.Segment.Instance
use gologix.Segment.Attribute
use gologix.Ioi.Decode.{get_tag_from_path}
use gologix.Connections.{Connection}
use gologix.Identity.{AttributeValue}
use gologix.Server.Session.{
  Action, Env, Datum, TagInfo, lift, fail, gets, or_reply, item_byte, item_uint16, payload, ◌>>=◌,
}
use gologix.Server.Writes.{parse_write_values}
use gologix.Server.Replies.{
  send_connected_reply, send_connected_error, send_unit_data_reply, send_unit_data_error_reply,
  send_unit_data_reply_with_payload,
}
use gologix.Server.Attributes.{
  build_identity_get_attributes_all_response, build_program_object_get_attributes_all_response,
  build_symbol_object_instance_list_response,
}
use gologix.Server.Access.{
  type_of, attribute_datum, string_payloads, connection, read_tag, write_values, provider,
}

module _ {W E : Type 0} (env : Env W E) where
  unfoldable pub string_reply : ℕ → ℕ → ℕ → Option (List Payload) → Action W (Unit {0})
  string_reply service seq to (some ps) = send_connected_reply service seq to ps
  string_reply service seq to none =
      or_reply (fail {A = Unit {0}} wrong_type) (send_connected_error service seq to 0x09 0)
        (λ u. fail wrong_type)

  -- The reply of connectedRead, by the value that was read.
  unfoldable pub read_reply : ℕ → ℕ → ℕ → Datum → Action W (Unit {0})
  read_reply service seq to d =
      if type_of d == 0xFF
      then string_reply service seq to (string_payloads d)
      else send_connected_reply service seq to
          (fixed_size (type_of d ∷ []) ∷ fixed_size (0 ∷ []) ∷ payload d ∷ [])

  -- connectedRead
  unfoldable pub connected_read : ℕ → CipItem → CipItem → Action W (Unit {0})
  connected_read service item0 item1 =
      or_reply (lift (read_u32 item0.content)) (send_connected_error service 0 0 0x20 0) λ conn_id.
        or_reply (connection env conn_id.0) (send_connected_error service 0 0 0x07 0) λ conn.
          or_reply (lift (read_u16 item1.content)) (send_connected_error service 0 conn.to 0x20 0)
            λ seq.
              or_reply (lift (read_u16 seq.1)) (send_connected_error service seq.0 conn.to 0x20 0)
                λ pathlen.
                  or_reply (lift (get_tag_from_path pathlen.1))
                    (send_connected_error service seq.0 conn.to 0x20 0)
                    λ tag.
                      or_reply (lift (read_u16 tag.1))
                        (send_connected_error service seq.0 conn.to 0x20 0)
                        λ qty.
                          or_reply (provider env conn.path)
                            (send_connected_error service seq.0 conn.to 0x05 0)
                            λ p.
                              or_reply (read_tag env p tag.0 qty.0)
                                (send_connected_error service seq.0 conn.to 0x28 0)
                                λ result. read_reply service seq.0 conn.to result

  -- cipConnectedWrite, from the bytes of the second item behind the sequence number and the service.
  unfoldable pub cip_connected_write : CipItem → Bytes → Action W (Unit {0})
  cip_connected_write item0 b = do
    l ← lift (read_u8 b)
    tag ← lift (get_tag_from_path l.1)
    results ← lift (parse_write_values tag.1)
    id ← (if item0.id == 0xA1 then lift (ok tt) else fail {A = Unit {0}} wrong_type)
    conn_id ← lift (read_u32 item0.content)
    conn ← connection env conn_id.0
    p ← provider env conn.path
    written ← write_values env p tag.0 results.0
    send_unit_data_reply 0x4D

  unfoldable pub attribute_reply : ℕ → ℕ → ℕ → Option AttributeValue → Action W (Unit {0})
  attribute_reply seq to attr none = fail not_found
  attribute_reply seq to attr (some v) =
      send_connected_reply 0x52 seq to (payload (attribute_datum env.other_attribute attr v) ∷ [])

  -- getAttrSingle
  unfoldable pub get_attr_single : Connection → Bytes → Action W (Unit {0})
  get_attr_single conn b = do
    seq ← lift (read_u16 b)
    cmd ← lift (item_byte seq.1)
    path_size ← lift (item_byte cmd.1)
    three ← (if path_size.0 == 3 then lift (ok tt) else fail {A = Unit {0}} bad_segment)
    cls ← lift (Class.read path_size.1)
    inst ← lift (Instance.read cls.1)
    identity ← (if cls.0 == 1 && inst.0 == 1 then lift (ok tt) else fail {A = Unit {0}} bad_segment)
    attr ← lift (Attribute.read inst.1)
    attribute_reply seq.0 conn.to attr.0 (env.attributes attr.0)

  -- connectedGetAttr
  unfoldable pub connected_get_attr : CipItem → CipItem → Action W (Unit {0})
  connected_get_attr item0 item1 = do
    conn_id ← lift (read_u32 item0.content)
    conn ← connection env conn_id.0
    get_attr_single conn item1.content

  -- The answer by the class and the instance of the path.
  unfoldable pub attribute_all_answer : ℕ × ℕ → Action W (Unit {0})
  attribute_all_answer path =
      if path.0 == 1
      then (if path.1 == 1
          then (do
            dat ← lift (build_identity_get_attributes_all_response env.attributes)
            send_unit_data_reply_with_payload 1 dat)
          else send_unit_data_error_reply 1 0x05)
      else if path.0 == 0x64
      then (if path.1 == 1
          then (do
            dat ← lift (build_program_object_get_attributes_all_response env.attributes)
            send_unit_data_reply_with_payload 1 dat)
          else send_unit_data_error_reply 1 0x05)
      else send_unit_data_error_reply 1 0x05

  unfoldable pub path_answer : Result ((ℕ × ℕ) × Bytes) → Action W (Unit {0})
  path_answer (ok found) = attribute_all_answer found.0
  path_answer (err e) = send_unit_data_error_reply 1 0x04
  path_answer panic = lift panic

  -- connectedGetAttributeAll
  unfoldable pub connected_get_attribute_all : CipItem → Action W (Unit {0})
  connected_get_attribute_all item1 = do
    seq ← lift (item_uint16 item1.content)
    service ← lift (item_byte seq.1)
    path_size ← lift (item_byte service.1)
    path_bytes ← lift (read_full (path_size.0 * 2) path_size.1)
    path_answer (parse_class_instance_path path_bytes.0)

  unfoldable pub symbol_reply : Option (List TagInfo) → Action W (Unit {0})
  symbol_reply none = send_unit_data_reply_with_payload 0x55 []
  symbol_reply (some tags) =
      send_unit_data_reply_with_payload 0x55 (build_symbol_object_instance_list_response tags 0)

  -- connectedSymbolList
  unfoldable pub connected_symbol_list : CipItem → Action W (Unit {0})
  connected_symbol_list item0 = do
    conn_id ← lift (read_u32 item0.content)
    conn ← connection env conn_id.0
    p ← provider env conn.path
    tags ← gets (λ s. env.tag_list p s.world)
    symbol_reply tags
