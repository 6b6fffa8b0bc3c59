-- ===== src/Item/Payload.antt =====
-- items.go: CIPItem.Serialize and newItem.
pub mod Slots
use gologix.Base.{
  ℕ, ◌+◌, ◌-◌, ◌%◌, List, [], ◌∷◌, ◌++◌, length, take, replicate, ltb, if◌then◌else◌,
}
use gologix.Base.Result.{Result, ok, err, panic, wrong_type}
use gologix.Wire.{Bytes, put_u32}
use gologix.Item.{CipItem, write}

-- What Serialize is given: a string, a []string, a Serializable (its Bytes()), a value that
-- binary.Write turns into these bytes, or one that it refuses.
pub data Payload : Type 0 where
  text : Bytes → Payload
  texts : List Bytes → Payload
  serializable : Bytes → Payload
  fixed_size : Bytes → Payload
  refused : Payload

-- `b := make([]byte, n); copy(b, x)`
abbrev pub slot : ℕ → Bytes → Bytes
slot n x = take n x ++ replicate (n - length x) 0

-- A STRING element: the length, clamped to 84, and 84 bytes.
unfoldable pub string_element : Bytes → Bytes
string_element s = put_u32 (if ltb 84 (length s) then 84 else length s) ++ slot 84 s

unfoldable pub string_elements : List Bytes → Bytes
unfolding string_element
string_elements [] = []
string_elements (s ∷ ss) = string_element s ++ string_elements ss

-- One argument of Serialize. A single string keeps its own length in the header.
unfoldable pub encode : Payload → Result Bytes
unfolding string_elements
encode (text x) = ok (put_u32 (length x % 4294967296) ++ slot 84 x)
encode (texts x) = ok (string_elements x)
encode (serializable b) = ok b
encode (fixed_size b) = ok b
encode refused = err wrong_type

-- An error ends the loop over the arguments; what was written before it stays.
unfoldable pub serialize : List Payload → CipItem → Result (Unit {0}) × CipItem
unfolding encode write
serialize [] item = (ok tt, item)
serialize (str ∷ strs) item = elim (encode str) [
  | ok b ↦ serialize strs (write b item)
  | err e ↦ (err e, item)
  | panic ↦ (panic, item)
]

abbrev empty_item : ℕ → CipItem
empty_item item_id = record { id = item_id; header_length = 0; content = []; position = 0 }

-- newItem drops the error of Serialize. (A nil payload is the empty list.)
unfoldable pub new_item : ℕ → List Payload → CipItem
unfolding serialize
new_item item_id strs = (serialize strs (empty_item item_id)).1
