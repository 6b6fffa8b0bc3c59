-- ===== src/Ioi/Panics.antt =====
-- The paths on which getTagFromPath panics (ioi.go).
use gologix.Base.{
  ℕ, zero, suc, ◌≤◌, ◌≡◌, ◌≢◌, ◌↔◌, inl, inr, refl, sym, ◌∙◌, [], ◌∷◌, length, arith, ◌==◌, ==_iff,
  Bool-cases,
}
use gologix.Base.Result.{Result, ok, err, panic}
use gologix.Wire.{Bytes, pure, ◌>>=◌, read_u8, read_u16, read_full}
use gologix.Ioi.Decode.{
  get_tag_from_path, path_loop, Round, done, more, continued, round, byte_index, word_index,
  ascii_part, add_index, add_name, get_ascii_tag_part,
}
use gologix.Ioi.Named.{IsPart, IsNamed, round-IsNamed, get_ascii_tag_part-IsPart}

-- A path whose first part, after any number of names without characters, is an index of one or of two bytes.
pub data StartsWithIndex : Bytes → Type 0 where
  short : (i : ℕ) (rest : Bytes) → StartsWithIndex (0x28 ∷ i ∷ rest)
  long : (pad a b : ℕ) (rest : Bytes) → StartsWithIndex (0x29 ∷ pad ∷ a ∷ b ∷ rest)
  no_name : {rest : Bytes} → StartsWithIndex rest → StartsWithIndex (0x91 ∷ 0 ∷ rest)

-- The loop behind a round.
after : ℕ → Bytes → Result Round → Result (Bytes × Bytes)
after fuel tag (ok (done left)) = ok (tag, left)
after fuel tag (ok (more name left)) = path_loop fuel name left
after fuel tag (err e) = err e
after fuel tag panic = panic

path_loop-after :
    (fuel : ℕ) (tag b : Bytes) → path_loop (suc fuel) tag b ≡ after fuel tag (round tag b)
unfolding path_loop after
path_loop-after fuel tag b =
    elim (round tag b)
      as (λ r.
        (elim r as (λ x. Result (Bytes × Bytes)) [
          | ok (done left) ↦ ok (tag, left)
          | ok (more name left) ↦ path_loop fuel name left
          | err e ↦ err e
          | panic ↦ panic
        ])
        ≡ after fuel tag r) [
          | ok (done left) ↦ refl
          | ok (more name left) ↦ refl
          | err e ↦ refl
          | panic ↦ refl
        ]

after_named :
    (fuel : ℕ) (tag : Bytes) (r : Result Round)
    → ((c : ℕ) (name b : Bytes) → path_loop fuel (c ∷ name) b ≢ panic)
    → IsNamed r
    → after fuel tag r ≢ panic
unfolding IsNamed after
after_named fuel tag (ok (done left)) k h = λ e. cc
after_named fuel tag (ok (more [] left)) k h = absurd h
after_named fuel tag (ok (more (d ∷ name) left)) k h = k d name left
after_named fuel tag (err w) k h = λ e. cc
after_named fuel tag panic k h = absurd h

-- Once the name has characters, nothing panics.
named_returns : (fuel c : ℕ) (tag b : Bytes) → path_loop fuel (c ∷ tag) b ≢ panic
named_returns zero c tag b = unfold path_loop in λ e. cc
named_returns (suc fuel) c tag b = λ e.
    after_named fuel (c ∷ tag) (round (c ∷ tag) b) (named_returns fuel) (round-IsNamed c tag b)
      (sym (path_loop-after fuel (c ∷ tag) b) ∙ e)

index_panics :
    {b : Bytes} (fuel : ℕ) → StartsWithIndex b → length b ≤ fuel → path_loop fuel [] b ≡ panic
unfolding path_loop round continued byte_index word_index ascii_part get_ascii_tag_part add_index
    add_name read_u8 read_u16 read_full
index_panics zero (StartsWithIndex.short i rest) l = absurd (omega arith)
index_panics zero (StartsWithIndex.long pad a b rest) l = absurd (omega arith)
index_panics zero (StartsWithIndex.no_name d) l = absurd (omega arith)
index_panics (suc fuel) (StartsWithIndex.short i rest) l = refl
index_panics (suc fuel) (StartsWithIndex.long pad a b rest) l = refl
index_panics (suc fuel) (StartsWithIndex.no_name d) l = index_panics fuel d (omega arith)

-- The first part is a name: the loop goes on with it.
from_name :
    (fuel : ℕ) (b : Bytes) (r : Result (Bytes × Bytes))
    → ((rest : Bytes) → path_loop fuel [] rest ≡ panic → StartsWithIndex rest)
    → IsPart b r
    → after fuel [] (continued (((λ x. r) >>= λ s. pure (add_name [] s)) b)) ≡ panic
    → StartsWithIndex (0x91 ∷ b)
unfolding after continued add_name
from_name fuel b (ok ([], rest)) k h e = rw (h refl) (StartsWithIndex.no_name (k rest e))
from_name fuel b (ok (c ∷ s, rest)) k h e = absurd (named_returns fuel c s rest e)
from_name fuel b (err w) k h e = cc
from_name fuel b panic k h e = absurd h

from_byte :
    (fuel : ℕ) (b : Bytes)
    → after fuel [] (continued (byte_index [] b)) ≡ panic
    → StartsWithIndex (0x28 ∷ b)
unfolding after continued byte_index read_u8
from_byte fuel [] e = cc
from_byte fuel (i ∷ b) e = StartsWithIndex.short i b

from_word :
    (fuel : ℕ) (b : Bytes)
    → after fuel [] (continued (word_index [] b)) ≡ panic
    → StartsWithIndex (0x29 ∷ b)
unfolding after continued word_index read_u8 read_u16
from_word fuel [] e = cc
from_word fuel (pad ∷ []) e = cc
from_word fuel (pad ∷ x ∷ []) e = cc
from_word fuel (pad ∷ x ∷ y ∷ b) e = StartsWithIndex.long pad x y b

panics_in_round :
    (fuel : ℕ) (b : Bytes)
    → ((rest : Bytes) → path_loop fuel [] rest ≡ panic → StartsWithIndex rest)
    → after fuel [] (round [] b) ≡ panic
    → StartsWithIndex b
unfolding after round ascii_part
panics_in_round fuel [] k e = cc
panics_in_round fuel (t ∷ b) k e = elim (Bool-cases (t == 0x28)) [
  | inl p ↦ let same : t ≡ 0x28 = (==_iff t 0x28).0 p in rw same (from_byte fuel b (rw p at e))
  | inr p ↦ elim (Bool-cases (t == 0x29)) [
    | inl q ↦
        let same : t ≡ 0x29 = (==_iff t 0x29).0 q in rw same (from_word fuel b (rw (p, q) at e))
    | inr q ↦ elim (Bool-cases (t == 0x91)) [
      | inl r ↦
          let same : t ≡ 0x91 = (==_iff t 0x91).0 r in
          rw same (
            from_name fuel b (get_ascii_tag_part b) k (get_ascii_tag_part-IsPart b)
              (rw (p, q, r) at e))
      | inr r ↦
          let x : ◌≡◌ {A = Result (Bytes × Bytes)} (ok ([], t ∷ b)) panic = rw (p, q, r) at e in cc
    ]
  ]
]

panics_from : (fuel : ℕ) (b : Bytes) → path_loop fuel [] b ≡ panic → StartsWithIndex b
unfolding after
panics_from zero b e = absurd (unfold path_loop in cc)
panics_from (suc fuel) b e =
    panics_in_round fuel b (panics_from fuel) (sym (path_loop-after fuel [] b) ∙ e)

-- getTagFromPath panics exactly on the paths that begin with an index, before any character of a name: the segment of
-- an 8-bit index, or of a 16-bit index with its padding, whose index is there, behind any number of names
-- without characters.
pub get_tag_from_path_panics_iff : (b : Bytes) → (get_tag_from_path b ≡ panic) ↔ StartsWithIndex b
unfolding get_tag_from_path
get_tag_from_path_panics_iff b =
    (panics_from (length b) b, λ d. index_panics (length b) d (omega arith))
