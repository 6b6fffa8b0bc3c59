-- ===== src/TagMap/Lookup.antt =====
-- Go maps with strings for keys, as server_router.go uses them.
use gologix.Base.{
  ◌≡◌, refl, sym, ap, ◌∙◌, List, [], ◌∷◌, Bool, true, false, some, ◌==◌, ==_iff, if◌then◌else◌,
  arith, Bool-cases, inl, inr,
}
use gologix.Wire.{Bytes}
use gologix.TagMap.{same_text, lookup, insert}

pub same_text_refl : (s : Bytes) → same_text s s ≡ true
unfolding same_text
same_text_refl [] = refl
same_text_refl (x ∷ s) = ground (arith, same_text_refl s)

pub same_text_sound : (s t : Bytes) → same_text s t ≡ true → s ≡ t
unfolding same_text
same_text_sound [] [] h = refl
same_text_sound [] (y ∷ t) h = cc
same_text_sound (x ∷ s) [] h = cc
same_text_sound (x ∷ s) (y ∷ t) h = elim (Bool-cases (x == y)) [
  | inl e ↦
      let heads : x ≡ y = (==_iff x y).0 e in
      let tails : s ≡ t = same_text_sound s t (rw e at h) in cc
  | inr e ↦ let k : ◌≡◌ {A = Bool} false true = rw e at h in cc
]

-- What an insertion leaves under each key.
pub lookup-insert {ℓ} :
    {A : Type ℓ} (j k : Bytes) (a : A) (m : List (Bytes × A))
    → lookup j (insert k a m) ≡ (if same_text k j then some a else lookup j m)
unfolding lookup insert
lookup-insert j k a [] = refl
lookup-insert j k a ((i, b) ∷ m) = elim (Bool-cases (same_text i k)) [
  | inl e ↦ elim (Bool-cases (same_text k j)) [
    | inl f ↦ rw (e, same_text_sound i k e, f) refl
    | inr f ↦ rw (e, same_text_sound i k e, f) refl
  ]
  | inr e ↦ elim (Bool-cases (same_text i j)) [
    | inl f ↦ elim (Bool-cases (same_text k j)) [
      | inl g ↦
          let one : i ≡ k = same_text_sound i j f ∙ sym (same_text_sound k j g) in
          let both : same_text i k ≡ true = ap (same_text i) (sym one) ∙ same_text_refl i in cc
      | inr g ↦ rw (e, f, g) refl
    ]
    | inr f ↦ rw (e, f) (lookup-insert j k a m)
  ]
]
