-- ===== src/Pack/Counts.antt =====
-- Pack (pack.go) says how many bytes it has written.
use gologix.Base.{
  ℕ, ◌+◌, ◌-◌, ◌%◌, ◌≡◌, refl, List, [], ◌∷◌, Bool, true, false, Option, none, some, length,
  replicate, ltb, leb, if◌then◌else◌, map, length-append, arith, Bool-cases, inl, inr,
}
use gologix.Base.Result.{Error, Result, ok, err, panic, ◌>>=◌}
use gologix.Wire.{Bytes}
use gologix.Types.Values.{width, put_num}
use gologix.Pack.{
  Tag, Go, bool, bools, num, nums, str, strs, struct, structs, Fields, end, field, Structs, no_more,
  more, align, PackState, start, write, pad_to, enter, skip_to, bit_value, push_bit, push_bits,
  flush, drop_bits, text_bytes, texts_bytes, nums_bytes, settle, plain, nest, pack_fields, pack_go,
  pack_structs, pack,
}

-- The count is the number of bytes.
abbrev IsCounted : PackState → Type 0
IsCounted st = st.pos ≡ length st.out

write-IsCounted : (b : Bytes) (st : PackState) → IsCounted st → IsCounted (write b st)
unfolding write
write-IsCounted b st h = omega (arith, length-append st.out b)

nest-IsCounted : (sub st : PackState) → IsCounted sub → IsCounted st → IsCounted (nest sub st)
unfolding nest
nest-IsCounted sub st h k = omega (arith, length-append st.out sub.out)

pad_to-IsCounted : (a : ℕ) (st : PackState) → IsCounted st → IsCounted (pad_to a st)
unfolding pad_to
pad_to-IsCounted a st h = ground (arith, write-IsCounted (replicate (a - st.pos % a) 0) st)

skip_to-IsCounted :
    (tag : Tag) (a : ℕ) (st : PackState) → IsCounted st → IsCounted (skip_to tag a st)
unfolding skip_to
skip_to-IsCounted tag a st h = go tag.byte_index
  where
    go :
        (i : Option ℕ)
        → IsCounted (elim i [
          | some i ↦ if ltb st.pos i then write (replicate (i - st.pos) 0) st else st
          | none ↦ if ltb st.last_a a then pad_to a st else st
        ])
    go none = ground (arith, pad_to-IsCounted a st)
    go (some i) = ground (arith, write-IsCounted (replicate (i - st.pos) 0) st)

enter-IsCounted : (tag : Tag) (a : ℕ) (st : PackState) → IsCounted st → IsCounted (enter tag a st)
unfolding enter
enter-IsCounted tag a st h = skip_to-IsCounted tag a st h

flush-IsCounted : (st : PackState) → IsCounted st → IsCounted (flush st)
unfolding flush
flush-IsCounted st h = ground (arith, write-IsCounted (st.bitpack ∷ []) st)

push_bit-IsCounted : (b : Bool) (st : PackState) → IsCounted st → IsCounted (push_bit b st)
unfolding push_bit
push_bit-IsCounted b st h = elim (Bool-cases (leb 8 (st.bitpos + 1))) [
  | inl e ↦ rw e (write-IsCounted (_ ∷ []) st h)
  | inr e ↦ rw e h
]

push_bits-IsCounted : (bs : List Bool) (st : PackState) → IsCounted st → IsCounted (push_bits bs st)
unfolding push_bits
push_bits-IsCounted [] st h = h
push_bits-IsCounted (b ∷ bs) st h =
    push_bits-IsCounted bs (push_bit b st) (push_bit-IsCounted b st h)

settle-IsCounted : (tag : Tag) (a : ℕ) (st : PackState) → IsCounted st → IsCounted (settle tag a st)
unfolding settle
settle-IsCounted tag a st h = go tag.byte_index
  where
    go : (i : Option ℕ) → IsCounted (elim i [ none ↦ pad_to a st | some i ↦ st ])
    go none = pad_to-IsCounted a st h
    go (some i) = h

plain-IsCounted :
    (tag : Tag) (a : ℕ) (b : Bytes) (st : PackState) → IsCounted st → IsCounted (plain tag a b st)
unfolding plain
plain-IsCounted tag a b st h =
    write-IsCounted b (settle tag a (flush st))
      (settle-IsCounted tag a (flush st) (flush-IsCounted st h))

-- What a run returns, if it returns, is counted.
abbrev ReturnsCounted : Result PackState → Type 0
ReturnsCounted (ok st) = IsCounted st
ReturnsCounted (err e) = Unit {0}
ReturnsCounted panic = Unit {0}

bind-ReturnsCounted :
    (r : Result PackState) (f : PackState → Result PackState)
    → ReturnsCounted r
    → ((st : PackState) → IsCounted st → ReturnsCounted (f st))
    → ReturnsCounted (r >>= f)
bind-ReturnsCounted (ok st) f h k = k st h
bind-ReturnsCounted (err e) f h k = tt
bind-ReturnsCounted panic f h k = tt

if-IsCounted :
    (t : Bool) (st st' : PackState)
    → IsCounted st
    → IsCounted st'
    → IsCounted (if t then st else st')
if-IsCounted true st st' h k = h
if-IsCounted false st st' h k = k

refused_or :
    (t : Bool) (e : Error) (r : Result PackState)
    → ReturnsCounted r
    → ReturnsCounted (if t then err e else r)
refused_or true e r h = tt
refused_or false e r h = h

mutual
  unfolding pack_fields pack_go pack_structs

  pack_fields-ReturnsCounted :
      (fs : Fields) (st : PackState) → IsCounted st → ReturnsCounted (pack_fields fs st)
  pack_fields-ReturnsCounted end st h = h
  pack_fields-ReturnsCounted (field tag v fs) st h =
      bind-ReturnsCounted (pack_go tag v (enter tag (align v) st)) (pack_fields fs)
        (pack_go-ReturnsCounted tag v (enter tag (align v) st) (enter-IsCounted tag (align v) st h))
        (pack_fields-ReturnsCounted fs)

  pack_go-ReturnsCounted :
      (tag : Tag) (v : Go) (st : PackState) → IsCounted st → ReturnsCounted (pack_go tag v st)
  pack_go-ReturnsCounted tag (bool b) st h =
      if-IsCounted tag.no_pack _ _ (plain-IsCounted tag 1 (bit_value b ∷ []) st h)
        (push_bit-IsCounted b st h)
  pack_go-ReturnsCounted tag (bools bs) st h =
      if-IsCounted tag.no_pack _ _ (plain-IsCounted tag 1 (map bit_value bs) st h)
        (push_bits-IsCounted bs st h)
  pack_go-ReturnsCounted tag (num n v) st h = plain-IsCounted tag (width n) (put_num n v) st h
  pack_go-ReturnsCounted tag (nums n vs) st h =
      plain-IsCounted tag (width n) (nums_bytes n vs) (if tag.no_pack then st else drop_bits st)
        (if-IsCounted tag.no_pack st (drop_bits st) h h)
  pack_go-ReturnsCounted tag (str s) st h =
      refused_or tag.no_pack _ _ (write-IsCounted (text_bytes s) st h)
  pack_go-ReturnsCounted tag (strs ss) st h =
      refused_or tag.no_pack _ _ (write-IsCounted (texts_bytes ss) st h)
  pack_go-ReturnsCounted tag (struct fs) st h =
      bind-ReturnsCounted (pack_fields fs start) _ (pack_fields-ReturnsCounted fs start refl)
        (λ sub k. settle-IsCounted tag _ _ (
          nest-IsCounted (flush sub) _ (flush-IsCounted sub k)
            (settle-IsCounted tag _ _ (flush-IsCounted st h))))
  pack_go-ReturnsCounted tag (structs fs rest) st h =
      bind-ReturnsCounted (pack_fields fs start) _ (pack_fields-ReturnsCounted fs start refl)
        (λ sub k.
          bind-ReturnsCounted (pack_structs rest (nest (flush sub) st)) _
            (pack_structs-ReturnsCounted rest _
              (nest-IsCounted (flush sub) st (flush-IsCounted sub k) h))
            (λ st' k'. refused_or tag.no_pack _ (ok (drop_bits st')) k'))

  pack_structs-ReturnsCounted :
      (fss : Structs) (st : PackState) → IsCounted st → ReturnsCounted (pack_structs fss st)
  pack_structs-ReturnsCounted no_more st h = h
  pack_structs-ReturnsCounted (more fs rest) st h =
      bind-ReturnsCounted (pack_fields fs start) _ (pack_fields-ReturnsCounted fs start refl)
        (λ sub k.
          pack_structs-ReturnsCounted rest (nest (flush sub) st)
            (nest-IsCounted (flush sub) st (flush-IsCounted sub k) h))

counted_end :
    (r : Result PackState) (b : Bytes) (n : ℕ)
    → ReturnsCounted r
    → ◌>>=◌ {B = Bytes × ℕ} r (λ st. ok ((flush st).out, (flush st).pos)) ≡ ok (b, n)
    → n ≡ length b
counted_end (ok st) b n h e = rw (← pos_of, ← out_of) (flush-IsCounted st h)
  where
    out_of : (flush st).out ≡ b
    out_of = cc

    pos_of : (flush st).pos ≡ n
    pos_of = cc
counted_end (err w) b n h e = cc
counted_end panic b n h e = cc

-- The number that Pack returns is the number of bytes that it has written, whatever the tags, the
-- nesting and the bits that are pending.
pub pack_counts : (fs : Fields) (b : Bytes) (n : ℕ) → pack fs ≡ ok (b, n) → n ≡ length b
unfolding pack
pack_counts fs b n e =
    counted_end (pack_fields fs start) b n (pack_fields-ReturnsCounted fs start refl) e
