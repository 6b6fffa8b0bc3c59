-- ===== src/TagMap/Quantity.antt =====
-- The number of elements that a TagRead (server_router.go) asks for. The server takes it from the request as
-- a uint16 and converts it to an int16.
use gologix.Base.{
  ℕ, zero, suc, ◌+◌, ◌-◌, ◌^◌, ◌≤◌, ◌<◌, ◌≡◌, ◌≢◌, ◌↔◌, refl, List, [], ◌∷◌, Bool, true, Option,
  none, some, length, take, drop, get_elem?, ltb, leb, ◌==◌, lt→ltb, arith, Bool-cases, inl, inr,
  ltb→lt,
}
use gologix.Base.Int.{ℤ, pos, negsuc, signed}
use gologix.Base.Result.{Result, ok, err, panic, out_of_range}
use gologix.Wire.{Bytes}
use gologix.TagMap.{
  lookup, Stored, scalar, slice, address, read_stored, read_element, read_slice, found, tag_read,
}

-- The index of a tag, if it has one, is that of an element.
abbrev pub IsInside : {V : Type 0} → Option ℤ → List V → Type 0
IsInside none vs = Unit {0}
IsInside (some (pos i)) vs = i < length vs
IsInside (some (negsuc i)) vs = ⊥

get_elem?-ne-none :
    {A : Type 0} (xs : List A) (i : ℕ) → i < length xs → (x : A) × (get_elem? xs i ≡ some x)
get_elem?-ne-none [] i h = absurd (omega arith)
get_elem?-ne-none (x ∷ xs) zero h = (x, refl)
get_elem?-ne-none (x ∷ xs) (suc i) h = get_elem?-ne-none xs i (omega arith)

module _ {V T : Type 0} (convert : Stored V T → T → Result V) (is_interface : T → Bool)
    (to_lower : Bytes → Bytes) where
  negative_panics :
      (t : T) (vs : List V) (ix : Option ℤ) (q : ℕ)
      → IsInside ix vs
      → read_stored convert is_interface to_lower (slice t vs) ix (negsuc q) ≡ panic
  unfolding read_stored read_element read_slice
  negative_panics t vs none q h = refl
  negative_panics t vs (some (pos i)) q h = rw (lt→ltb i (length vs) h) refl
  negative_panics t vs (some (negsuc i)) q h = absurd h

  positive_returns :
      (t : T) (vs : List V) (ix : Option ℤ) (q : ℕ)
      → IsInside ix vs
      → read_stored convert is_interface to_lower (slice t vs) ix (pos q) ≢ panic
  unfolding read_stored read_element read_slice
  positive_returns t vs none q h e = elim (Bool-cases (leb q (length vs))) [
    | inl f ↦
        let k : ◌≡◌ {A = Result (Stored V T)} (ok (slice t (take q vs))) panic = rw f at e in cc
    | inr f ↦ let k : ◌≡◌ {A = Result (Stored V T)} (err out_of_range) panic = rw f at e in cc
  ]
  positive_returns t vs (some (pos i)) q h e =
      let below : ltb i (length vs) ≡ true = lt→ltb i (length vs) h in
      let (x, g) = get_elem?-ne-none vs i h in
      elim (Bool-cases (ltb (length vs) (i + q))) [
        | inl f ↦
            let k : ◌≡◌ {A = Result (Stored V T)} (err out_of_range) panic = rw (below, f) at e in
            cc
        | inr f ↦ elim (Bool-cases (q == 1)) [
          | inl o ↦
              let k : ◌≡◌ {A = Result (Stored V T)} (ok (scalar x)) panic =
                rw (below, f, o, g) at e in
              cc
          | inr o ↦
              let k : ◌≡◌ {A = Result (Stored V T)} (ok (slice t (take q (drop i vs)))) panic =
                rw (below, f, o) at e in
              cc
        ]
      ]
  positive_returns t vs (some (negsuc i)) q h e = absurd h

  -- A TagRead of a slice, with an index of the slice or without one, panics exactly where the number of elements
  -- that the request asks for is 32768 or more, since the server hands it on as an int16.
  pub tag_read_panics_iff :
      (tag : Bytes) (n : ℕ) (t : T) (vs : List V) (m : List (Bytes × Stored V T))
      → n < 65536
      → lookup (address convert is_interface to_lower (to_lower tag)).0 m ≡ some (slice t vs)
      → IsInside (address convert is_interface to_lower (to_lower tag)).1 vs
      → (tag_read convert is_interface to_lower tag (signed 16 n) m ≡ panic) ↔ (32768 ≤ n)
  unfolding tag_read found
  tag_read_panics_iff tag n t vs m h l inside = elim (Bool-cases (ltb n 32768)) [
    | inl e ↦ (
      λ k. absurd (
          positive_returns t vs (address convert is_interface to_lower (to_lower tag)).1 n inside
            (rw (l, e) at k)),
      λ k. absurd (omega (arith, ltb→lt n 32768 e)),
    )
    | inr e ↦ (
      λ k. ground arith,
      λ k.
          rw (l, e)
            (negative_panics t vs (address convert is_interface to_lower (to_lower tag)).1
              (2 ^ 16 - n - 1) inside),
    )
  ]
