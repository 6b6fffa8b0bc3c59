-- ===== src/Item/Framing.antt =====
-- The header's length follows the content (items.go).
use gologix.Base.{ℕ, ◌≤◌, ◌<◌, List, [], ◌∷◌, length, length-append, arith}
use gologix.Wire.{Bytes}
use gologix.Item.{CipItem, write}
use gologix.Item.Payload.{
  Payload, serialize, new_item, refused, text, texts, serializable, fixed_size,
}
use gologix.Item.ListRoundTrip.{IsFramed}
use native.Mathlib.Nat.{mod-eq_of_lt, le_trans}

length-write : (b : Bytes) (item : CipItem) → length item.content ≤ length (write b item).content
unfolding write
length-write b item = rw length-append (omega arith)

write-IsFramed :
    (b : Bytes) (item : CipItem)
    → item.id < 65536
    → length (write b item).content < 65536
    → IsFramed (write b item)
unfolding write
write-IsFramed b item hi h = record {
  id_fits = hi;
  length_fits = omega arith;
  length_matches = mod-eq_of_lt h;
}

serialize_grows :
    (strs : List Payload) (item : CipItem)
    → length item.content ≤ length (serialize strs item).1.content
unfolding serialize
serialize_grows [] item = omega arith
serialize_grows (refused ∷ strs) item = omega arith
serialize_grows (text x ∷ strs) item =
    le_trans (length-write _ item) (serialize_grows strs (write _ item))
serialize_grows (texts x ∷ strs) item =
    le_trans (length-write _ item) (serialize_grows strs (write _ item))
serialize_grows (serializable b ∷ strs) item =
    le_trans (length-write b item) (serialize_grows strs (write b item))
serialize_grows (fixed_size b ∷ strs) item =
    le_trans (length-write b item) (serialize_grows strs (write b item))

serialize-IsFramed :
    (strs : List Payload) (item : CipItem)
    → IsFramed item
    → length (serialize strs item).1.content < 65536
    → IsFramed (serialize strs item).1
unfolding serialize
serialize-IsFramed [] item h l = h
serialize-IsFramed (refused ∷ strs) item h l = h
serialize-IsFramed (text x ∷ strs) item h l =
    serialize-IsFramed strs (write _ item)
      (write-IsFramed _ item h.id_fits (omega (arith, serialize_grows strs (write _ item)))) l
serialize-IsFramed (texts x ∷ strs) item h l =
    serialize-IsFramed strs (write _ item)
      (write-IsFramed _ item h.id_fits (omega (arith, serialize_grows strs (write _ item)))) l
serialize-IsFramed (serializable b ∷ strs) item h l =
    serialize-IsFramed strs (write b item)
      (write-IsFramed b item h.id_fits (omega (arith, serialize_grows strs (write b item)))) l
serialize-IsFramed (fixed_size b ∷ strs) item h l =
    serialize-IsFramed strs (write b item)
      (write-IsFramed b item h.id_fits (omega (arith, serialize_grows strs (write b item)))) l

-- As long as the content stays below 2^16 bytes, an item that newItem makes with a uint16 id has a
-- header that says how long its content is.
pub new_item-IsFramed :
    (item_id : ℕ) (strs : List Payload)
    → item_id < 65536
    → length (new_item item_id strs).content < 65536
    → IsFramed (new_item item_id strs)
unfolding new_item
new_item-IsFramed item_id strs hi h = serialize-IsFramed strs _ (omega arith) h
