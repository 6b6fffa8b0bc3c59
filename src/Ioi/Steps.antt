-- ===== src/Ioi/Steps.antt =====
-- The rounds of getTagFromPath over the segments that newSymbolicIOI writes.
use gologix.Base.{
  ℕ, ◌<◌, ◌≡◌, ◌≢◌, refl, ap, [], ◌∷◌, ◌++◌, false, arith, length, ◌==◌, Bool-cases, ltb, lt→ltb,
  inl, inr, append_assoc, if◌then◌else◌, ◌%◌,
}
use gologix.Base.Result.{Result, ok}
use gologix.Wire.{Bytes, read_u8}
use gologix.Wire.RoundTrip.{read_full-append, read_u16-put}
use gologix.Text.{decimal, ends_with}
use gologix.Text.Find.{ends_with-append}
use gologix.Ioi.{symbolic, index_part}
use gologix.Ioi.Decode.{
  done, more, round, path_loop, add_index, add_name, byte_index, word_index, ascii_part,
  get_ascii_tag_part, init,
}
use gologix.Ioi.Decode.Fuel.{path_loop_fuel, round_takes}
use native.Mathlib.Nat.{mod-eq_of_lt}

-- getTagFromPath from a name that is already there.
abbrev pub resume : Bytes → Bytes → Result (Bytes × Bytes)
resume tag b = path_loop (length b) tag b

pub resume_more :
    (tag b tag' left : Bytes) → round tag b ≡ ok (more tag' left) → resume tag b ≡ resume tag' left
unfolding path_loop
resume_more tag [] tag' left e = unfold round in cc e
resume_more tag (t ∷ rest) tag' left e =
    rw (e, path_loop)
      (path_loop_fuel (length rest) (length left) tag' left (round_takes tag t rest tag' left e)
        (omega arith))

pub resume_done :
    (tag b left : Bytes) → round tag b ≡ ok (done left) → resume tag b ≡ ok (tag, left)
unfolding path_loop
resume_done tag [] left e = unfold round in ground (arith, e)
resume_done tag (t ∷ rest) left e = rw (e, path_loop)

get_ascii_tag_part-name :
    (name rest : Bytes)
    → length name < 256
    → get_ascii_tag_part
        ((length name % 256) ∷ ((if length name % 2 == 1 then name ++ (0 ∷ []) else name) ++ rest))
      ≡ ok (name, rest)
unfolding get_ascii_tag_part read_u8
get_ascii_tag_part-name name rest h = elim (Bool-cases (length name % 2 == 1)) [
  | inl odd ↦ rw (
    mod-eq_of_lt h,
    odd,
    append_assoc name (0 ∷ []) rest,
    read_full-append (length name) name (0 ∷ rest) refl,
  )
  | inr even ↦ rw (mod-eq_of_lt h, even, read_full-append (length name) name rest refl)
]

round-symbolic :
    (tag name rest : Bytes)
    → length name < 256
    → round tag (symbolic name ++ rest) ≡ ok (more (add_name tag name) rest)
unfolding round symbolic ascii_part
round-symbolic tag name rest h = rw (get_ascii_tag_part-name name rest h)

pub resume-symbolic :
    (tag name rest : Bytes)
    → length name < 256
    → resume tag (symbolic name ++ rest) ≡ resume (add_name tag name) rest
resume-symbolic tag name rest h = resume_more tag _ _ _ (round-symbolic tag name rest h)

-- One element segment, by what its index does to the name.
round-index_part :
    (tag tag' rest : Bytes) (i : ℕ)
    → i < 65536
    → add_index tag i rest ≡ ok (tag', rest)
    → round tag (index_part i ++ rest) ≡ ok (more tag' rest)
unfolding index_part
round-index_part tag tag' rest i h e = elim (Bool-cases (ltb i 256)) [
  | inl small ↦ rw small (unfold round byte_index read_u8 in rw e)
  | inr large ↦
      rw (large, lt→ltb i 65536 h)
        (unfold round word_index read_u8 in rw (read_u16-put i rest h, e))
]

pub resume-index_part :
    (tag tag' rest : Bytes) (i : ℕ)
    → i < 65536
    → add_index tag i rest ≡ ok (tag', rest)
    → resume tag (index_part i ++ rest) ≡ resume tag' rest
resume-index_part tag tag' rest i h e = resume_more tag _ _ _ (round-index_part tag tag' rest i h e)

-- The first index opens a bracket.
pub add_index-open :
    (tag rest : Bytes) (i : ℕ)
    → tag ≢ []
    → ends_with b']' tag ≡ false
    → add_index tag i rest ≡ ok (tag ++ (b'[' ∷ (decimal i ++ (b']' ∷ []))), rest)
unfolding add_index
add_index-open [] rest i h k = absurd (h refl)
add_index-open (c ∷ tag) rest i h k = rw k

init-append : (s : Bytes) (x : ℕ) → init (s ++ (x ∷ [])) ≡ s
unfolding init
init-append [] x = refl
init-append (y ∷ []) x = refl
init-append (y ∷ z ∷ s) x = ap (λ r. y ∷ r) (init-append (z ∷ s) x)

-- Another index goes before the closing bracket.
pub add_index-close :
    (s rest : Bytes) (i : ℕ)
    → add_index (s ++ (b']' ∷ [])) i rest ≡ ok (s ++ (b',' ∷ (decimal i ++ (b']' ∷ []))), rest)
unfolding add_index
add_index-close [] rest i = unfold ends_with init in refl
add_index-close (c ∷ s) rest i = rw (ends_with-append b']' (c ∷ s), init-append (c ∷ s) b']')
