-- ===== src/Item/ListRoundTrip.antt =====
-- A list of items survives serializeItems and readItems (items.go).
use gologix.Base.{◌<◌, ◌≡◌, refl, List, [], ◌∷◌, ◌++◌, length, drop, arith, All}
use gologix.Base.{append_assoc, ◌%◌, map}
use gologix.Base.Result.{ok}
use gologix.Wire.{Bytes}
use gologix.Wire.RoundTrip.{read_u16-put, read_full-append}
use native.Mathlib.Nat.{mod-eq_of_lt}
use gologix.Item.{
  CipItem, bytes, bytes_all, serialize_items, read_item, read_items_loop, read_items, reset,
}

-- The header says how long the content is, and both numbers fit their uint16.
pub record IsFramed (item : CipItem) : Type 0 where
  pub id_fits : item.id < 65536
  pub length_fits : item.header_length < 65536
  pub length_matches : item.header_length ≡ length item.content

read_item-bytes :
    (item : CipItem) (more : Bytes)
    → IsFramed item
    → read_item (bytes item ++ more) ≡ ok (reset item, more)
unfolding read_item bytes reset
read_item-bytes item more h = rw (
  read_u16-put item.id _ h.id_fits,
  read_u16-put item.header_length _ h.length_fits,
  read_full-append item.header_length item.content more h.length_matches,
)

read_items_loop-bytes_all :
    (items : List CipItem) (more : Bytes)
    → All IsFramed items
    → read_items_loop (length items) (bytes_all items ++ more) ≡ ok (map reset items, more)
unfolding read_items_loop bytes_all
read_items_loop-bytes_all [] more h = refl
read_items_loop-bytes_all (item ∷ items) more (h, hs) = rw (
  append_assoc,
  read_item-bytes item (bytes_all items ++ more) h,
  read_items_loop-bytes_all items more hs,
)

-- Fewer than 2^16 framed items that serializeItems wrote are what readItems returns, with their
-- positions at 0, when it starts at the count, behind the six bytes of handle and sequence counter;
-- what follows the items is left.
pub read_items-serialize_items :
    (items : List CipItem) (more : Bytes)
    → length items < 65536
    → All IsFramed items
    → read_items (drop 6 (serialize_items items) ++ more) ≡ ok (map reset items, more)
unfolding read_items serialize_items
read_items-serialize_items items more hn h =
    rw (read_u16-put (length items % 65536) (bytes_all items ++ more) (omega arith))
      (rw (mod-eq_of_lt hn) (read_items_loop-bytes_all items more h))
