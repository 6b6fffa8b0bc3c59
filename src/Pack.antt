-- ===== src/Pack.antt =====
-- pack.go: the layout of Go structures in a controller: cipPack.Align and Pack; Unpack in the child.
pub mod Unpack
pub mod Counts
pub mod Simple
pub mod Moves
pub mod Leaves
pub mod RoundTrip
pub mod Lost
mod Tests
use Prim.Native.Nat.{◌^◌, bit_or}
use gologix.Base.{
  ℕ, ◌+◌, ◌-◌, ◌*◌, ◌%◌, List, [], ◌∷◌, ◌++◌, Bool, true, false, Option, none, some, length, take,
  replicate, ltb, leb, ◌==◌, if◌then◌else◌, map,
}
use gologix.Base.Result.{Result, ok, err, panic, wrong_type, not_implemented, ◌>>=◌}
use gologix.Wire.{Bytes, put_u32}
use gologix.Types.Values.{NumType, width, put_num}

-- The tags of a field: `pack:"nopack"` and `byteIndex`.
pub record Tag : Type 0 where
  pub no_pack : Bool
  pub byte_index : Option ℕ

abbrev pub no_tag : Tag
no_tag = record { no_pack = false; byte_index = none }

-- A Go value of the kinds that Pack tells apart: a bool, a number, a string, a structure, and an array
-- of each (of structures, one at least). Values with methods of their own are not among them.
mutual
  pub data Go : Type 0 where
    bool : Bool → Go
    bools : List Bool → Go
    num : NumType → ℕ → Go
    nums : NumType → List ℕ → Go
    str : Bytes → Go
    strs : List Bytes → Go
    struct : Fields → Go
    structs : Fields → Structs → Go

  pub data Fields : Type 0 where
    end : Fields
    field : Tag → Go → Fields → Fields

  pub data Structs : Type 0 where
    no_more : Structs
    more : Fields → Structs → Structs

-- The greater one, as the loop of Align keeps it.
abbrev pub greater : ℕ → ℕ → ℕ
greater a b = if ltb a b then b else a

unfoldable mutual
  unfolding width

  -- cipPack.Align, of the value's type, on a 64-bit platform.
  pub align : Go → ℕ
  align (bool b) = 1
  align (bools bs) = 1
  align (num n v) = width n
  align (nums n vs) = width n
  align (str s) = 4
  align (strs ss) = 4
  align (struct fs) = greater (align_fields fs) 4
  align (structs fs rest) = greater (align_fields fs) 4

  -- The greatest alignment of the fields, from 1 on.
  pub align_fields : Fields → ℕ
  align_fields end = 1
  align_fields (field tag v fs) = greater (align v) (align_fields fs)

-- The variables of Pack, with the bytes that it has written.
pub record PackState : Type 0 where
  pub out : Bytes
  pub pos : ℕ
  pub bitpos : ℕ
  pub bitpack : ℕ
  pub last_a : ℕ

abbrev pub start : PackState
start = record { out = []; pos = 0; bitpos = 0; bitpack = 0; last_a = 1 }

-- A write that is counted.
unfoldable pub write : Bytes → PackState → PackState
write b st = record st { out = st.out ++ b; pos = st.pos + length b }

-- Zeros up to a multiple of `a`.
unfoldable pub pad_to : ℕ → PackState → PackState
unfolding write
pad_to a st = let rem = a - st.pos % a in if ltb rem a then write (replicate rem 0) st else st

-- What stands before a field: zeros up to its byte index, or its alignment where that is greater than
-- the last field's.
unfoldable pub skip_to : Tag → ℕ → PackState → PackState
unfolding write pad_to
skip_to tag a st = elim tag.byte_index [
  | some i ↦ if ltb st.pos i then write (replicate (i - st.pos) 0) st else st
  | none ↦ if ltb st.last_a a then pad_to a st else st
]

unfoldable pub enter : Tag → ℕ → PackState → PackState
unfolding skip_to
enter tag a st = record (skip_to tag a st) { last_a = a }

abbrev pub bit_value : Bool → ℕ
bit_value true = 1
bit_value false = 0

-- A bool goes into the next bit; a full byte is written.
unfoldable pub push_bit : Bool → PackState → PackState
unfolding write
push_bit b st =
    let bits = bit_or st.bitpack (bit_value b * 2 ^ st.bitpos) in
    if leb 8 (st.bitpos + 1)
    then record (write (bits ∷ []) st) { bitpos = 0; bitpack = 0 }
    else record st { bitpos = st.bitpos + 1; bitpack = bits }

unfoldable pub push_bits : List Bool → PackState → PackState
push_bits [] st = st
push_bits (b ∷ bs) st = push_bits bs (push_bit b st)

-- The pending bits, if there are any.
unfoldable pub flush : PackState → PackState
unfolding write
flush st =
    if ltb 0 st.bitpos then record (write (st.bitpack ∷ []) st) { bitpos = 0; bitpack = 0 } else st

-- The pending bits are forgotten, and stay in `bitpack`.
abbrev pub drop_bits : PackState → PackState
drop_bits st = record st { bitpos = 0 }

-- A string: its length and 82 bytes.
unfoldable pub text_bytes : Bytes → Bytes
text_bytes s = put_u32 (length s % 4294967296) ++ (take 82 s ++ replicate (82 - length s) 0)

unfoldable pub texts_bytes : List Bytes → Bytes
texts_bytes [] = []
texts_bytes (s ∷ ss) = text_bytes s ++ texts_bytes ss

unfoldable pub nums_bytes : NumType → List ℕ → Bytes
nums_bytes n [] = []
nums_bytes n (v ∷ vs) = put_num n v ++ nums_bytes n vs

-- The field's own alignment, unless it has a byte index.
unfoldable pub settle : Tag → ℕ → PackState → PackState
unfolding pad_to
settle tag a st = elim tag.byte_index [ none ↦ pad_to a st | some i ↦ st ]

-- The end of a field's round: pending bits, alignment, and the bytes that binary.Write gives.
unfoldable pub plain : Tag → ℕ → Bytes → PackState → PackState
unfolding settle flush write
plain tag a b st = write b (settle tag a (flush st))

-- What is written and how far Pack counts, of a structure inside another.
unfoldable pub nest : PackState → PackState → PackState
nest sub st = record st { out = st.out ++ sub.out; pos = st.pos + sub.pos }

unfoldable mutual
  unfolding flush

  -- The loop of Pack.
  pub pack_fields : Fields → PackState → Result PackState
  pack_fields end st = ok st
  pack_fields (field tag v fs) st = do
    st' ← pack_go tag v (enter tag (align v) st)
    pack_fields fs st'

  -- A round, behind what stands before the field. An array of structures with `nopack`, which binary.Write
  -- would lay out by itself, is not modelled.
  pub pack_go : Tag → Go → PackState → Result PackState
  pack_go tag (bool b) st =
      ok (if tag.no_pack then plain tag 1 (bit_value b ∷ []) st else push_bit b st)
  pack_go tag (bools bs) st =
      ok (if tag.no_pack then plain tag 1 (map bit_value bs) st else push_bits bs st)
  pack_go tag (num n v) st = ok (plain tag (width n) (put_num n v) st)
  pack_go tag (nums n vs) st =
      ok (plain tag (width n) (nums_bytes n vs) (if tag.no_pack then st else drop_bits st))
  pack_go tag (str s) st =
      if tag.no_pack then err wrong_type else ok (drop_bits (write (text_bytes s) st))
  pack_go tag (strs ss) st =
      if tag.no_pack then err wrong_type else ok (drop_bits (write (texts_bytes ss) st))
  pack_go tag (struct fs) st = do
    sub ← pack_fields fs start
    ok (
        settle tag (align (struct fs))
          (nest (flush sub) (settle tag (align (struct fs)) (flush st))))
  pack_go tag (structs fs rest) st = do
    sub ← pack_fields fs start
    st' ← pack_structs rest (nest (flush sub) st)
    if tag.no_pack then err not_implemented else ok (drop_bits st')

  -- The elements of an array of structures.
  pub pack_structs : Structs → PackState → Result PackState
  pack_structs no_more st = ok st
  pack_structs (more fs rest) st = do
    sub ← pack_fields fs start
    pack_structs rest (nest (flush sub) st)

-- Pack: what it writes, and how many bytes it says that it has written.
unfoldable pub pack : Fields → Result (Bytes × ℕ)
unfolding flush
pack fs = do st ← pack_fields fs start; ok ((flush st).out, (flush st).pos)
