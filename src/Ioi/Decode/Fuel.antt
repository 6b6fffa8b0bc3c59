-- ===== src/Ioi/Decode/Fuel.antt =====
-- Each round of getTagFromPath takes a byte, so the rounds never run out.
use gologix.Base.{ℕ, zero, suc, ◌≤◌, ◌≡◌, refl, [], ◌∷◌, length, arith, ◌==◌, Bool-cases, inl, inr}
use gologix.Base.Result.{Result, ok, err, panic}
use gologix.Wire.{Bytes}
use gologix.Wire.Shrinks.{Shrinks, shrinks_rules}
use gologix.Ioi.Decode.{
  add_index, byte_index, word_index, ascii_part, get_ascii_tag_part, continued, round, path_loop,
  Round, done, more,
}
use native.Mathlib.Nat.{le_trans}

Shrinks-add_index : (tag : Bytes) (index : ℕ) → Shrinks (add_index tag index)
unfolding add_index
Shrinks-add_index [] index = record { at = λ b a r e. cc }
Shrinks-add_index (c ∷ tag) index = search shrinks_rules

Shrinks-get_ascii_tag_part : Shrinks get_ascii_tag_part
unfolding get_ascii_tag_part
Shrinks-get_ascii_tag_part = search shrinks_rules

Shrinks-byte_index : (tag : Bytes) → Shrinks (byte_index tag)
unfolding byte_index
Shrinks-byte_index tag = search (shrinks_rules, Shrinks-add_index)

Shrinks-word_index : (tag : Bytes) → Shrinks (word_index tag)
unfolding word_index
Shrinks-word_index tag = search (shrinks_rules, Shrinks-add_index)

Shrinks-ascii_part : (tag : Bytes) → Shrinks (ascii_part tag)
unfolding ascii_part
Shrinks-ascii_part tag = search (shrinks_rules, Shrinks-get_ascii_tag_part)

continued-eq :
    (x : Result (Bytes × Bytes)) (tag left : Bytes)
    → continued x ≡ ok (more tag left)
    → x ≡ ok (tag, left)
unfolding continued
continued-eq (ok (a, b)) tag left e = ground arith
continued-eq (err w) tag left e = cc
continued-eq panic tag left e = cc

pub round_takes :
    (tag : Bytes) (t : ℕ) (rest tag' left : Bytes)
    → round tag (t ∷ rest) ≡ ok (more tag' left)
    → length left ≤ length rest
unfolding round
round_takes tag t rest tag' left e = elim (Bool-cases (t == 0x28)) [
  | inl a ↦ (Shrinks-byte_index tag).at rest tag' left (continued-eq _ _ _ (rw a at e))
  | inr na ↦ elim (Bool-cases (t == 0x29)) [
    | inl b ↦ (Shrinks-word_index tag).at rest tag' left (continued-eq _ _ _ (rw (na, b) at e))
    | inr nb ↦ elim (Bool-cases (t == 0x91)) [
      | inl c ↦
          (Shrinks-ascii_part tag).at rest tag' left (continued-eq _ _ _ (rw (na, nb, c) at e))
      | inr nc ↦ cc (rw (na, nb, nc) at e)
    ]
  ]
]

-- One round on both sides, by what it answers.
path_step :
    (f g : ℕ) (tag : Bytes) (t : ℕ) (rest : Bytes)
    → ((tag' left : Bytes)
        → round tag (t ∷ rest) ≡ ok (more tag' left)
        → path_loop f tag' left ≡ path_loop g tag' left)
    → path_loop (suc f) tag (t ∷ rest) ≡ path_loop (suc g) tag (t ∷ rest)
unfolding path_loop
path_step f g tag t rest same = go (round tag (t ∷ rest)) refl
  where
    go :
        (x : Result Round)
        → round tag (t ∷ rest) ≡ x
        → path_loop (suc f) tag (t ∷ rest) ≡ path_loop (suc g) tag (t ∷ rest)
    go (ok (done left)) e = rw (e, path_loop)
    go (ok (more tag' left)) e = rw (e, path_loop) (same tag' left e)
    go (err w) e = rw (e, path_loop)
    go panic e = rw (e, path_loop)

-- From as much fuel as there are bytes on, getTagFromPath's loop gives one and the same answer.
pub path_loop_fuel :
    (f g : ℕ) (tag r : Bytes) → length r ≤ f → length r ≤ g → path_loop f tag r ≡ path_loop g tag r
unfolding path_loop round
path_loop_fuel zero zero tag r h k = refl
path_loop_fuel zero (suc g) tag [] h k = refl
path_loop_fuel zero (suc g) tag (t ∷ rest) h k = absurd (omega arith)
path_loop_fuel (suc f) zero tag [] h k = refl
path_loop_fuel (suc f) zero tag (t ∷ rest) h k = absurd (omega arith)
path_loop_fuel (suc f) (suc g) tag [] h k = refl
path_loop_fuel (suc f) (suc g) tag (t ∷ rest) h k = path_step f g tag t rest (λ tag' left e.
    path_loop_fuel f g tag' left (le_trans (round_takes tag t rest tag' left e) (omega arith))
      (le_trans (round_takes tag t rest tag' left e) (omega arith)))
