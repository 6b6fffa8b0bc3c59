-- ===== src/Ioi.antt =====
-- ioi.go: a tag name as the CIP path of symbolic and element segments.
pub mod Parse
pub mod Decode
pub mod Names
pub mod Encode
pub mod Steps
pub mod Named
pub mod Panics
mod Tests
pub mod RoundTrip
use gologix.Base.{ℕ, zero, suc, ◌+◌, ◌/◌, ◌%◌, List, [], ◌∷◌, ◌++◌, Bool, true, false, ◌&&◌, length}
use gologix.Base.{ltb, leb, ◌==◌, if◌then◌else◌}
use gologix.Base.Int.{ℤ, pos, negsuc}
use gologix.Base.Result.{Result, ok, err, panic, ◌>>=◌}
use gologix.Wire.{Bytes, put_u16, put_u32}
use gologix.Text.{atoi, ends_with, take_until, split}
use Parse.{TagPart, parse_tag}

-- tagIOI. `type_code` is the CIPType.
pub record TagIoi : Type 0 where
  pub path : Bytes
  pub type_code : ℕ
  pub bit_access : Bool
  pub bit_position : ℤ
  pub buffer : Bytes

abbrev pub cip_type_bool : ℕ
cip_type_bool = 0xC1

-- tagIOI.Write
abbrev pub write : Bytes → TagIoi → TagIoi
write p ioi = record ioi { buffer = ioi.buffer ++ p }

unfoldable pub bytes : TagIoi → Bytes
bytes ioi = ioi.buffer

unfoldable pub len : TagIoi → ℕ
len ioi = length ioi.buffer

-- The symbolic segment of a name: 0x91, its length, its characters, and a zero if that is odd.
pub symbolic : Bytes → Bytes
symbolic name =
    0x91 ∷ (length name % 256) ∷ (if length name % 2 == 1 then name ++ (0 ∷ []) else name)

-- marshalIOIPart
unfoldable pub marshal_ioi_part : Bytes → Result Bytes
unfolding symbolic
marshal_ioi_part tagpath = do t ← parse_tag tagpath; ok (symbolic t.base_path)

-- One round of the loop over Array_Order.
unfoldable pub index_part : ℕ → Bytes
index_part order_size =
    if ltb order_size 256
    then 0x28 ∷ order_size ∷ []
    else if ltb order_size 65536
    then put_u16 0x29 ++ put_u16 order_size
    else put_u16 0x2A ++ put_u32 (order_size % 4294967296)

unfoldable pub index_parts : List ℕ → Bytes
unfolding index_part
index_parts [] = []
index_parts (order_size ∷ order) = index_part order_size ++ index_parts order

-- For a BOOL array the last index counts bits: the index of the 32-bit word, and the bit in it.
unfoldable pub word_index : List ℕ → List ℕ × ℕ
word_index [] = ([], 0)
word_index (i ∷ []) = ((i / 32) ∷ [], i % 32)
word_index (i ∷ j ∷ order) = let (order', bit) = word_index (j ∷ order) in (i ∷ order', bit)

abbrev add_indices : TagPart → TagIoi → TagIoi
add_indices t ioi =
    if ioi.type_code == cip_type_bool && ltb 0 (length t.array_order)
    then (let (order, bit) = word_index t.array_order in
        record ioi {
          buffer = ioi.buffer ++ index_parts order;
          bit_access = true;
          bit_position = pos bit;
        })
    else write (index_parts t.array_order) ioi

-- A name in front of the bracket is written first.
abbrev add_name : Bytes → TagIoi → Result TagIoi
add_name [] ioi = ok ioi
add_name (c ∷ name) ioi = do part ← marshal_ioi_part (c ∷ name); ok (write part ioi)

add_indexed : Bytes → TagIoi → Result TagIoi
add_indexed tag_part ioi = do
  ioi' ← add_name (take_until b'[' tag_part) ioi
  t ← parse_tag tag_part
  ok (add_indices t ioi')

-- `bitAccess <= 31`
abbrev at_most_31 : ℤ → Bool
at_most_31 (pos n) = leb n 31
at_most_31 (negsuc n) = true

abbrev add_member : Bytes → TagIoi → Result TagIoi
add_member tag_part ioi = do part ← marshal_ioi_part tag_part; ok (write part ioi)

-- A part that is a number up to 31 selects a bit; any other is a name.
add_plain : Result ℤ → Bytes → TagIoi → Result TagIoi
add_plain (ok bit) tag_part ioi =
    if at_most_31 bit
    then ok (record ioi { bit_access = true; bit_position = bit })
    else add_member tag_part ioi
add_plain (err e) tag_part ioi = add_member tag_part ioi
add_plain panic tag_part ioi = panic

-- appendIOIPart
unfoldable pub append_ioi_part : Bytes → TagIoi → Result TagIoi
unfolding add_indexed add_plain
append_ioi_part [] ioi = ok ioi
append_ioi_part (c ∷ tag_part) ioi =
    if ends_with b']' (c ∷ tag_part)
    then add_indexed (c ∷ tag_part) ioi
    else add_plain (atoi (c ∷ tag_part)) (c ∷ tag_part) ioi

append_parts : List Bytes → TagIoi → Result TagIoi
append_parts [] ioi = ok ioi
append_parts (part ∷ parts) ioi = do ioi' ← append_ioi_part part ioi; append_parts parts ioi'

-- newSymbolicIOI
unfoldable pub new_symbolic_ioi : Bytes → ℕ → Result TagIoi
unfolding append_parts
new_symbolic_ioi tagpath datatype = append_parts (split b'.' tagpath) (record {
  path = tagpath;
  type_code = datatype;
  bit_access = false;
  bit_position = pos 0;
  buffer = [];
})
