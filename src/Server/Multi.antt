-- ===== src/Server/Multi.antt =====
-- server_connected.go: connectedMulti, several services in one request.
use gologix.Base.{
  ℕ, zero, suc, ◌+◌, ◌-◌, ◌*◌, ◌%◌, List, [], ◌∷◌, ◌++◌, ◌||◌, map, drop, ltb, ◌==◌, if◌then◌else◌,
}
use gologix.Base.Int.{ℤ, pos, negsuc, signed}
use gologix.Base.Result.{Result, ok, err, panic, wrong_type, out_of_data}
use gologix.Wire.{Bytes, put_u16, of_u16, read_u8, read_u16, read_u32, read_full}
use gologix.Item.{CipItem}
use gologix.Item.Payload.{fixed_size}
use gologix.Ioi.Decode.{get_tag_from_path}
use gologix.MultiReply.{jump_table, words}
use gologix.Server.Session.{
  Action, Env, Datum, Element, one, many, strings, numbers, other, lift, item_byte, item_uint16,
  payload, ◌>>=◌, pure,
}
use gologix.Server.Writes.{read_plain, cip_string_packer}
use gologix.Server.Replies.{as_response, send_connected_reply}
use gologix.Server.Access.{type_of, pack_serialize, connection, read_tag, write_values, provider}

-- The bytes of a result of type STRING: it must be one string.
unfoldable pub string_bytes : Datum → Result Bytes
string_bytes (one (Element.string x)) = ok (cip_string_packer x)
string_bytes (one (Element.plain v)) = err wrong_type
string_bytes (strings ss) = err wrong_type
string_bytes (numbers n vs) = err wrong_type
string_bytes (many vs) = err wrong_type
string_bytes (other g p) = err wrong_type

-- A result that is no string: its type and its value behind the header.
framed : ℕ → Bytes → Result Bytes → Result Bytes
framed service types (ok dat) = ok (as_response service ∷ 0 ∷ 0 ∷ 0 ∷ (types ++ dat))
framed service types (err e) = err e
framed service types panic = panic

-- `b.Truncate(4)` takes the type header off again where a string follows.
unfoldable pub read_result : ℕ → Datum → Result Bytes
unfolding string_bytes framed
read_result service d =
    if type_of d == 0xFF
    then framed service [] (string_bytes d)
    else framed service (type_of d ∷ 0 ∷ []) (pack_serialize (payload d))

-- `item.Pos = int(offset) + 8`: the bytes from there on. A read at a negative position panics.
unfoldable pub seek : Bytes → ℤ → Result Bytes
seek content (pos n) = ok (drop (n + 8) content)
seek content (negsuc k) = if ltb k 8 then ok (drop (7 - k) content) else panic

unfoldable pub cons_offset : ℤ → Result (List ℤ × Bytes) → Result (List ℤ × Bytes)
cons_offset o (ok (os, r)) = ok (o ∷ os, r)
cons_offset o (err e) = err e
cons_offset o panic = panic

-- The loop that reads the offsets.
unfoldable pub read_offsets : ℕ → Bytes → Result (List ℤ × Bytes)
unfolding cons_offset
read_offsets zero b = ok ([], b)
read_offsets (suc n) (x ∷ y ∷ b) = cons_offset (signed 16 (of_u16 x y)) (read_offsets n b)
read_offsets (suc n) (x ∷ []) = err out_of_data
read_offsets (suc n) [] = err out_of_data

module _ {W E : Type 0} (env : Env W E) where
  -- One service, by its code, from the bytes behind its code and size. An unknown one leaves no result.
  unfoldable pub one_service : E → ℕ → Bytes → Action W Bytes
  one_service p service b =
      if service == 0x52 || service == 0x4C
      then (do
        tag ← lift (get_tag_from_path b)
        qty ← lift (item_uint16 tag.1)
        result ← read_tag env p tag.0 qty.0
        lift (read_result service result))
      else if service == 0x4D || service == 0x53
      then (do
        tag ← lift (get_tag_from_path b)
        typ ← lift (read_u8 tag.1)
        reserved ← lift (read_u8 typ.1)
        qty ← lift (read_u16 reserved.1)
        results ← lift (read_plain typ.0 qty.0 qty.1)
        written ← write_values env p tag.0 results.0
        pure (as_response service ∷ 0 ∷ 0 ∷ 0 ∷ []))
      else pure []

  -- The service at an offset.
  unfoldable pub service_at : E → Bytes → ℤ → Action W Bytes
  service_at p content offset = do
    b ← lift (seek content offset)
    service ← lift (read_u8 b)
    size ← lift (item_byte service.1)
    one_service p service.0 size.1

  -- The loop over the services. What they wrote stays written when a later one fails.
  unfoldable pub services : E → Bytes → List ℤ → Action W (List Bytes)
  services p content [] = pure []
  services p content (o ∷ os) = do
    r ← service_at p content o
    rs ← services p content os
    pure (r ∷ rs)

  -- The offsets, the services and the reply.
  unfoldable pub gather : E → ℕ → ℕ → Bytes → ℕ → Bytes → Action W (Unit {0})
  gather p seq to content qty b = do
    offsets ← lift (read_offsets qty b)
    results ← services p content offsets.0
    send_connected_reply 0x0A seq to (
        fixed_size (put_u16 qty)
        ∷ fixed_size (words (jump_table ((qty + 1) * 2) results))
        ∷ map fixed_size results)

  -- connectedMulti. `pathlen*2` is a byte.
  unfoldable pub connected_multi : CipItem → CipItem → Action W (Unit {0})
  connected_multi item0 item1 = do
    conn_id ← lift (read_u32 item0.content)
    conn ← connection env conn_id.0
    p ← provider env conn.path
    seq ← lift (read_u16 item1.content)
    service ← lift (read_u8 seq.1)
    pathlen ← lift (read_u8 service.1)
    path ← lift (read_full (pathlen.0 * 2 % 256) pathlen.1)
    qty ← lift (item_uint16 path.1)
    gather p seq.0 conn.to item1.content qty.0 qty.1
