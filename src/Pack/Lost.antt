-- ===== src/Pack/Lost.antt =====
-- pack.go: bits that are pending where a string or a number of greater alignment follows them.
use Prim.Native.Nat.{bit_or, ◌^◌}
use gologix.Base.{
  ℕ, ◌+◌, ◌-◌, ◌*◌, ◌/◌, ◌%◌, ◌≤◌, ◌<◌, ◌≡◌, refl, ap, List, [], ◌∷◌, ◌++◌, Bool, true, false, not,
  length, replicate, take, leb, ◌==◌, arith, leb→le, Bool-cases, inl, inr, lt→ltb, length-append,
  length-replicate, take_all,
}
use gologix.Base.Result.{ok, err, out_of_data}
use gologix.Wire.{Bytes, read_u8, read_u32, put_u32}
use gologix.Types.Values.{uint8, int32, width, put_num, read_num}
use gologix.Pack.{
  num, bool, bools, str, Fields, end, field, no_tag, align, PackState, start, write, pad_to, enter,
  skip_to, bit_value, push_bit, push_bits, plain, settle, flush, text_bytes, pack_fields, pack_go,
  pack,
}
use gologix.Pack.Unpack
use gologix.Pack.Unpack.{
  UnpackState, read_some, skip, skip_to_multiple, fill, next_bit, read_bit, read_bits, read_text,
  unpack_fields, unpack_go, unpack,
}
use gologix.Pack.Moves.{read_some-append}
use gologix.Pack.Simple.{length-text_bytes}

-- Fewer than eight bits are kept back.
record Kept (st st' : PackState) : Type 0 where
  out_eq : st'.out ≡ st.out
  pos_eq : st'.pos ≡ st.pos
  last_eq : st'.last_a ≡ st.last_a

push_bits-Kept :
    (bs : List Bool) (st : PackState) → st.bitpos + length bs < 8 → Kept st (push_bits bs st)
unfolding push_bits push_bit
push_bits-Kept [] st h = record { out_eq = refl; pos_eq = refl; last_eq = refl }
push_bits-Kept (b ∷ bs) st h = elim (Bool-cases (leb 8 (st.bitpos + 1))) [
  | inl e ↦ absurd (omega (arith, leb→le 8 (st.bitpos + 1) e))
  | inr e ↦
      let bits = bit_or st.bitpack (bit_value b * 2 ^ st.bitpos) in
      let k =
        push_bits-Kept bs (record st { bitpos = st.bitpos + 1; bitpack = bits }) (omega arith) in
      rw e record { out_eq = k.out_eq; pos_eq = k.pos_eq; last_eq = k.last_eq }
]

-- Of bits behind the first one, fewer than eight of them, no further byte is read.
read_bits-ahead :
    (bs : List Bool) (u : UnpackState) (b : Bytes)
    → 0 < u.bitpos
    → u.bitpos + length bs < 8
    → (xs : List Bool) × (u' : UnpackState) × (read_bits bs u b ≡ ok ((xs, u'), b))
      × (u'.n ≡ u.n)
      × (u'.last_a ≡ u.last_a)
unfolding read_bits read_bit fill next_bit
read_bits-ahead [] u b p h = ([], u, refl, refl, refl)
read_bits-ahead (x ∷ bs) u b p h = elim (Bool-cases (leb 8 (u.bitpos + 1))) [
  | inl e ↦ absurd (omega (arith, leb→le 8 (u.bitpos + 1) e))
  | inr e ↦
      let first : Bool = not (u.bitpack / 2 ^ u.bitpos % 2 == 0) in
      let (xs, u', r, n, l) =
        read_bits-ahead bs (record u { bitpos = u.bitpos + 1 }) b (omega arith) (omega arith) in
      let busy : (u.bitpos == 0) ≡ false = ground arith in
      (first ∷ xs, u', rw (busy, e, r) refl, n, l)
]

-- A structure with a packed array of bools and a string behind it.
abbrev pub bits_and_text : List Bool → Bytes → Fields
bits_and_text bs s = field no_tag (bools bs) (field no_tag (str s) end)

bits_lost :
    (bs : List Bool) (s : Bytes)
    → length s ≤ 82
    → length bs < 8
    → pack (bits_and_text bs s) ≡ ok (text_bytes s, 86)
unfolding pack pack_fields pack_go enter skip_to pad_to write align flush
bits_lost bs s l h =
    let k = push_bits-Kept bs start (omega arith) in
    rw (k.out_eq, k.pos_eq, k.last_eq, length-text_bytes s l) refl

short_text : (b : Bytes) → length b < 86 → read_text b ≡ err out_of_data
unfolding read_text
short_text b h = rw (lt→ltb (length b) 86 h) refl

-- The bits are read from the first byte and three bytes are passed over: 86 more are wanted.
misread :
    (x : Bool) (olds : List Bool) (old : Bytes) (a c d e : ℕ) (rest : Bytes)
    → length olds < 7
    → length rest < 86
    → unpack (bits_and_text (x ∷ olds) old) (a ∷ c ∷ d ∷ e ∷ rest) ≡ err out_of_data
unfolding unpack unpack_fields unpack_go Unpack.enter skip_to_multiple skip align read_bits read_bit
    fill next_bit read_u8
misread x olds old a c d e rest h k =
    let start' : UnpackState = record { n = 1; bitpos = 1; bitpack = a; last_a = 1 } in
    let (xs, u', r, n, l) =
      read_bits-ahead olds start' (c ∷ d ∷ e ∷ rest) (omega arith) (omega arith) in
    rw (r, l, n, read_some-append (c ∷ d ∷ e ∷ []) rest, short_text rest k) refl

-- Of a structure of exactly two untagged fields, an array of one to seven bools and a string of at most 82 bytes,
-- Pack writes the string alone and counts 86 bytes, whatever the bools are, and Unpack into a structure
-- with as many bools finds too few bytes in what was written.
pub pack-bits_lost :
    (bs olds : List Bool) (s old : Bytes)
    → length s ≤ 82
    → length olds ≡ length bs
    → 0 < length bs
    → length bs < 8
    → (pack (bits_and_text bs s) ≡ ok (text_bytes s, 86))
      × (unpack (bits_and_text olds old) (text_bytes s) ≡ err out_of_data)
unfolding text_bytes
pack-bits_lost bs [] s old l e p h = absurd (omega arith)
pack-bits_lost bs (x ∷ olds) s old l e p h =
    let n : length (take 82 s ++ replicate (82 - length s) 0) < 86 = omega (
      arith,
      length-append (take 82 s) (replicate (82 - length s) 0),
      length-replicate {A = ℕ} (82 - length s) 0,
      ap length (take_all 82 s l),
    ) in
    (
      bits_lost bs s l h,
      misread x olds old _ _ _ _ (take 82 s ++ replicate (82 - length s) 0) (omega arith) n,
    )

-- A number, a bool and a number on multiples of four.
abbrev pub bit_between : ℕ → Bool → ℕ → Fields
bit_between v b w =
    field no_tag (num uint8 v) (field no_tag (bool b) (field no_tag (num int32 w) end))

-- Of a structure of a uint8, a bool and an int32, Pack writes three zeros before the bool's byte and three
-- behind it, and Unpack, which looks for the bool in the first zero, returns false for the bool and the
-- bool's bit for the int32, and leaves the int32's bytes unread.
pub pack-bit_misplaced :
    (v w : ℕ) (b : Bool)
    → v < 256
    → (pack (bit_between v b w) ≡ ok (v ∷ 0 ∷ 0 ∷ 0 ∷ bit_value b ∷ 0 ∷ 0 ∷ 0 ∷ put_u32 w, 12))
      × (unpack (bit_between 0 false 0) (v ∷ 0 ∷ 0 ∷ 0 ∷ bit_value b ∷ 0 ∷ 0 ∷ 0 ∷ put_u32 w)
          ≡ ok ((bit_between v false (bit_value b), 8), put_u32 w))
unfolding pack pack_fields pack_go enter skip_to pad_to write align flush push_bit plain settle
    width put_num unpack unpack_fields unpack_go Unpack.enter skip_to_multiple skip read_bit fill
    next_bit read_u8 Unpack.plain Unpack.settle read_num read_some read_u32
pack-bit_misplaced v w true h =
    let same : v % 256 ≡ v = omega arith in
    (ap (λ a. ok (a ∷ 0 ∷ 0 ∷ 0 ∷ 1 ∷ 0 ∷ 0 ∷ 0 ∷ put_u32 w, 12)) same, refl)
pack-bit_misplaced v w false h =
    let same : v % 256 ≡ v = omega arith in
    (ap (λ a. ok (a ∷ 0 ∷ 0 ∷ 0 ∷ 0 ∷ 0 ∷ 0 ∷ 0 ∷ put_u32 w, 12)) same, refl)
