-- ===== src/Pack/Leaves.antt =====
-- pack.go: the Go values without packed bools, and what Unpack reads of one field of them that Pack
-- has written.
use Prim.Native.Nat.{◌^◌}
use gologix.Base.{
  ℕ, ◌*◌, ◌≤◌, ◌<◌, ◌≡◌, refl, sym, ap, ◌∙◌, List, [], ◌++◌, Bool, true, false, length,
  if◌then◌else◌, map, append_assoc, All,
}
use gologix.Base.Result.{Result, ok}
use gologix.Wire.{Bytes, Reader, read_u8}
use gologix.Types.Values.{NumType, width, put_num}
use gologix.Types.Reading.{read_num-put}
use gologix.Pack.Simple.{
  length-map, read_bools-put, read_nums-put, length-put_num, length-nums_bytes, read_text-put,
  length-text_bytes, read_texts-put, length-texts_bytes,
}
use gologix.Pack.{
  Tag, Go, bool, bools, num, nums, str, strs, struct, structs, Fields, end, field, Structs, no_more,
  more, align, align_fields, greater, PackState, write, bit_value, flush, drop_bits, text_bytes,
  texts_bytes, nums_bytes, settle, plain, pack_fields, pack_go,
}
use gologix.Pack.Unpack
use gologix.Pack.Unpack.{
  UnpackState, read_some, skip, skip_to_multiple, unpack_fields, unpack_go, unpack_structs, unpack,
}
use gologix.Pack.Moves.{at, settle-Moves}

-- The Go value of the same type that is zero everywhere.
unfoldable mutual
  pub blank : Go → Go
  blank (bool b) = bool false
  blank (bools bs) = bools (map (λ _. false) bs)
  blank (num n v) = num n 0
  blank (nums n vs) = nums n (map (λ _. 0) vs)
  blank (str s) = str []
  blank (strs ss) = strs (map (λ _. []) ss)
  blank (struct fs) = struct (blank_fields fs)
  blank (structs fs rest) = structs (blank_fields fs) (blank_structs rest)

  pub blank_fields : Fields → Fields
  blank_fields end = end
  blank_fields (field tag v fs) = field tag (blank v) (blank_fields fs)

  pub blank_structs : Structs → Structs
  blank_structs no_more = no_more
  blank_structs (more fs rest) = more (blank_fields fs) (blank_structs rest)

-- No bool is packed into a bit, no string and no array of structures has the tag `nopack`, numbers fit
-- their types, and strings have 82 bytes at most.
unfoldable mutual
  pub IsPlain : Tag → Go → Type 0
  IsPlain tag (bool b) = tag.no_pack ≡ true
  IsPlain tag (bools bs) = tag.no_pack ≡ true
  IsPlain tag (num n v) = v < 256 ^ width n
  IsPlain tag (nums n vs) = All (λ v. v < 256 ^ width n) vs
  IsPlain tag (str s) = (tag.no_pack ≡ false) × (length s ≤ 82)
  IsPlain tag (strs ss) = (tag.no_pack ≡ false) × All (λ s. length s ≤ 82) ss
  IsPlain tag (struct fs) = ArePlain fs
  IsPlain tag (structs fs rest) = (tag.no_pack ≡ false) × ArePlain fs × AllArePlain rest

  pub ArePlain : Fields → Type 0
  ArePlain end = Unit {0}
  ArePlain (field tag v fs) = IsPlain tag v × ArePlain fs

  pub AllArePlain : Structs → Type 0
  AllArePlain no_more = Unit {0}
  AllArePlain (more fs rest) = ArePlain fs × AllArePlain rest

mutual
  unfolding align align_fields blank blank_fields

  pub align-blank : (v : Go) → align (blank v) ≡ align v
  align-blank (bool b) = refl
  align-blank (bools bs) = refl
  align-blank (num n v) = refl
  align-blank (nums n vs) = refl
  align-blank (str s) = refl
  align-blank (strs ss) = refl
  align-blank (struct fs) = ap (λ a. greater a 4) (align_fields-blank fs)
  align-blank (structs fs rest) = ap (λ a. greater a 4) (align_fields-blank fs)

  pub align_fields-blank : (fs : Fields) → align_fields (blank_fields fs) ≡ align_fields fs
  align_fields-blank end = refl
  align_fields-blank (field tag v fs) = rw (align-blank v, align_fields-blank fs) refl

-- Behind `out` the packing succeeds, and what `m` reads of the bytes that it adds is `a`.
pub record Packs {A : Type 0} (r : Result PackState) (m : ℕ → Reader (A × UnpackState)) (a : A)
    (out : Bytes) : Type 0 where
  pub after : PackState
  pub p : Bytes
  pub is_ok : r ≡ ok after
  pub quiet : after.bitpos ≡ 0
  pub out_eq : after.out ≡ out ++ p
  pub reads : (k : ℕ) (rest : Bytes) → m k (p ++ rest) ≡ ok ((a, at after k), rest)

pub flush_quiet : (st : PackState) → st.bitpos ≡ 0 → flush st ≡ st
unfolding flush
flush_quiet st q = rw q refl

pub plain-Packs :
    {A : Type 0} (tag : Tag) (a : ℕ) (b : Bytes) (k : ℕ) (f : A → Go) (m : Reader A) (x : A)
    (st : PackState)
    → st.bitpos ≡ 0
    → ((rest : Bytes) → m (b ++ rest) ≡ ok (x, rest))
    → length b ≡ k
    → Packs (ok (plain tag a b st)) (λ j. Unpack.plain tag a k f m (at st j)) (f x) st.out
unfolding plain write Unpack.plain
plain-Packs tag a b k f m x st q h l =
    let s = settle-Moves tag a st in
    record {
      after = write b (settle tag a st);
      p = s.p ++ b;
      is_ok = rw (flush_quiet st q) refl;
      quiet = s.quiet ∙ q;
      out_eq = rw (s.out_eq) (append_assoc st.out s.p b);
      reads = λ j rest. rw (append_assoc s.p b rest, s.reads j (b ++ rest), h rest, l) refl;
    }

-- The packing of a field by itself, in the writer's state `st`.
abbrev pub PacksGo : Tag → Go → PackState → Type 0
PacksGo tag v st = Packs (pack_go tag v st) (λ k. unpack_go tag (blank v) (at st k)) v st.out

abbrev pub PacksFields : Fields → PackState → Type 0
PacksFields fs st =
    Packs (pack_fields fs st) (λ k. unpack_fields (blank_fields fs) (at st k)) fs st.out

pub bool-Packs :
    (tag : Tag) (b : Bool) (st : PackState)
    → st.bitpos ≡ 0
    → tag.no_pack ≡ true
    → PacksGo tag (bool b) st
unfolding pack_go unpack_go blank read_u8 plain Unpack.plain
bool-Packs tag true st q h = rw h (plain-Packs tag 1 _ 1 _ read_u8 1 st q (λ rest. refl) refl)
bool-Packs tag false st q h = rw h (plain-Packs tag 1 _ 1 _ read_u8 0 st q (λ rest. refl) refl)

pub bools-Packs :
    (tag : Tag) (bs : List Bool) (st : PackState)
    → st.bitpos ≡ 0
    → tag.no_pack ≡ true
    → PacksGo tag (bools bs) st
unfolding pack_go unpack_go blank plain Unpack.plain
bools-Packs tag bs st q h = rw h (
    plain-Packs tag 1 (map bit_value bs) (length (map (λ (b : Bool). false) bs)) bools _ bs st q
      (read_bools-put bs) (length-map bit_value bs ∙ sym (length-map (λ _. false) bs)))

pub num-Packs :
    (tag : Tag) (n : NumType) (v : ℕ) (st : PackState)
    → st.bitpos ≡ 0
    → v < 256 ^ width n
    → PacksGo tag (num n v) st
unfolding pack_go unpack_go blank
num-Packs tag n v st q h =
    plain-Packs tag (width n) (put_num n v) (width n) (num n) _ v st q
      (λ rest. read_num-put n v rest h) (length-put_num n v)

same_quiet : (t : Bool) (st : PackState) → st.bitpos ≡ 0 → (if t then st else drop_bits st) ≡ st
same_quiet true st q = refl
same_quiet false st q = ap (λ k. record st { bitpos = k }) (sym q)

pub nums-Packs :
    (tag : Tag) (n : NumType) (vs : List ℕ) (st : PackState)
    → st.bitpos ≡ 0
    → All (λ v. v < 256 ^ width n) vs
    → PacksGo tag (nums n vs) st
unfolding pack_go unpack_go blank
nums-Packs tag n vs st q h = rw (same_quiet tag.no_pack st q) (
    plain-Packs tag (width n) (nums_bytes n vs) (width n * length (map (λ (v : ℕ). 0) vs)) (nums n)
      _ vs st q (λ rest. read_nums-put n vs rest h)
      (length-nums_bytes n vs ∙ ap (λ k. width n * k) (sym (length-map (λ _. 0) vs))))

pub str-Packs :
    (tag : Tag) (s : Bytes) (st : PackState)
    → st.bitpos ≡ 0
    → tag.no_pack ≡ false
    → length s ≤ 82
    → PacksGo tag (str s) st
unfolding pack_go unpack_go blank write
str-Packs tag s st q h l = rw h record {
  after = drop_bits (write (text_bytes s) st);
  p = text_bytes s;
  is_ok = refl;
  quiet = refl;
  out_eq = refl;
  reads = λ k rest. rw (read_text-put s rest l, length-text_bytes s l) refl;
}

pub strs-Packs :
    (tag : Tag) (ss : List Bytes) (st : PackState)
    → st.bitpos ≡ 0
    → tag.no_pack ≡ false
    → All (λ s. length s ≤ 82) ss
    → PacksGo tag (strs ss) st
unfolding pack_go unpack_go blank write
strs-Packs tag ss st q h l = rw h record {
  after = drop_bits (write (texts_bytes ss) st);
  p = texts_bytes ss;
  is_ok = refl;
  quiet = refl;
  out_eq = refl;
  reads = λ k rest.
      rw (read_texts-put ss rest l, length-texts_bytes ss l, length-map {A = Bytes} (λ _. []) ss)
        refl;
}
