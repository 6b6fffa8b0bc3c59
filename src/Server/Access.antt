-- ===== src/Server/Access.antt =====
-- server_connected.go, server_unconnected.go: how the handlers reach a connection, an endpoint and a tag, and
-- how they put values into a reply.
use gologix.Base.{ℕ, ◌%◌, List, [], ◌∷◌, ◌++◌, Option, none, some, length, map, ltb}
use gologix.Base.{if◌then◌else◌}
use gologix.Base.Int.{signed}
use gologix.Base.Result.{Result, ok, err, panic, wrong_type, no_item}
use gologix.Wire.{Bytes, put_u32}
use gologix.Item.{CipItem}
use gologix.Item.Payload.{Payload, text, texts, serializable, fixed_size, refused, slot}
use gologix.Types.Values.{NumType, num, go_var_to_cip_type}
use gologix.Identity.{AttributeValue, int16, uint32, string, other_value}
use gologix.Connections.{Connection, get_by_ot}
use gologix.TagMap.{resolve}
use gologix.Server.Session.{
  Action, Env, Datum, Element, one, many, strings, numbers, other, lift, go_var,
}
use gologix.Server.Writes.{cip_string_packer}

-- `len(items) != 2`
unfoldable pub two_items : List CipItem → Result (CipItem × CipItem)
two_items (a ∷ b ∷ []) = ok (a, b)
two_items (a ∷ b ∷ c ∷ items) = err no_item
two_items (a ∷ []) = err no_item
two_items [] = err no_item

-- The type of GoVarToCIPType.
unfoldable pub type_of : Datum → ℕ
type_of d = (go_var_to_cip_type (go_var d)).0

-- An attribute as a value.
unfoldable pub attribute_datum : (ℕ → Datum) → ℕ → AttributeValue → Datum
attribute_datum others attr (int16 v) = one (Element.plain (num NumType.int16 v))
attribute_datum others attr (uint32 v) = one (Element.plain (num NumType.uint32 v))
attribute_datum others attr (string s) = one (Element.string s)
attribute_datum others attr other_value = others attr

-- Serialize of pack.go, which has no case for a []string.
unfoldable pub pack_serialize : Payload → Result Bytes
pack_serialize (text x) = ok (put_u32 (length x % 4294967296) ++ slot 82 x)
pack_serialize (texts x) = err wrong_type
pack_serialize (serializable b) = ok b
pack_serialize (fixed_size b) = ok b
pack_serialize refused = err wrong_type

abbrev pub string_payload : Bytes → Payload
string_payload s = serializable (cip_string_packer s)

-- The payload of a datum that is a string or a []string, one block for each.
unfoldable pub string_payloads : Datum → Option (List Payload)
string_payloads (one (Element.string x)) = some (string_payload x ∷ [])
string_payloads (strings ss) = some (map string_payload ss)
string_payloads (one (Element.plain v)) = none
string_payloads (numbers n vs) = none
string_payloads (many vs) = none
string_payloads (other g p) = none

module _ {W E : Type 0} (env : Env W E) where
  -- ConnMgr.GetByOT
  unfoldable pub connection : ℕ → Action W Connection
  connection conn_id s = (get_by_ot conn_id s.connections, s)

  unfoldable pub read_tag : E → Bytes → ℕ → Action W Datum
  read_tag p tag qty s =
      let (r, w) = env.tag_read p tag (signed 16 qty) s.world in (r, record s { world = w })

  unfoldable pub write_tag : E → Bytes → Datum → Action W (Unit {0})
  write_tag p tag d s = let (r, w) = env.tag_write p tag d s.world in (r, record s { world = w })

  -- `results[0]` panics where there is none.
  unfoldable pub first_value : E → Bytes → List Element → Action W (Unit {0})
  unfolding write_tag
  first_value p tag [] = lift panic
  first_value p tag (v ∷ vs) = write_tag p tag (one v)

  unfoldable pub write_values : E → Bytes → List Element → Action W (Unit {0})
  unfolding first_value write_tag
  write_values p tag results =
      if ltb 1 (length results % 65536)
      then write_tag p tag (many results)
      else first_value p tag results

  unfoldable pub provider : Bytes → Action W E
  provider path = lift (resolve path env.router)
