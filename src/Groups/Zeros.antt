-- ===== src/Groups/Zeros.antt =====
-- The type that GoVarToCIPType (types.go) finds in the zero value of a tag group's definition (taggroup.go).
use gologix.Base.{
  ℕ, zero, suc, ◌<◌, ◌≡◌, ◌≢◌, ◌↔◌, refl, sym, ap, ◌∙◌, Bool, true, false, ◌||◌, ◌==◌, ==_iff,
  arith, lt→ltb,
}
use gologix.Base.Int.{pos}
use gologix.Types.Values.{cip_type_of, go_var_to_cip_type, find}
use gologix.Types.Reading.{all_below, all_below_sound}
use gologix.Groups.{
  TagDef, ZeroKind, bools, numbers, strings, slice_kind, make_slice, zero_value_for_tag_def,
}

-- The types of tags whose arrays are read as the type that was asked for.
abbrev pub own_array : ℕ → Bool
own_array t =
    t == 0xC2
    || t == 0xC3
    || t == 0xC4
    || t == 0xC5
    || t == 0xC7
    || t == 0xC8
    || t == 0xCA
    || t == 0xCB
    || t == 0xD1
    || t == 0xD4
    || t == 0xFF

-- The type of a kind.
kind_code : ZeroKind → ℕ
kind_code bools = 0
kind_code (numbers n) = cip_type_of n
kind_code strings = 0xFF

agrees : Bool → Bool → Bool
agrees true true = true
agrees true false = false
agrees false true = false
agrees false false = true

agrees_sound : (a b : Bool) → agrees a b ≡ true → a ≡ b
unfolding agrees
agrees_sound true true h = refl
agrees_sound true false h = cc
agrees_sound false true h = cc
agrees_sound false false h = refl

slices_agree : all_below 256 (λ t. agrees (kind_code (slice_kind t) == t) (own_array t)) ≡ true
unfolding all_below agrees kind_code slice_kind find cip_type_of
slices_agree = refl

slice_code : (t : ℕ) → t < 256 → (kind_code (slice_kind t) == t) ≡ own_array t
slice_code t h = agrees_sound (kind_code (slice_kind t) == t) (own_array t) (
    all_below_sound 256 (λ t. agrees (kind_code (slice_kind t) == t) (own_array t)) t slices_agree
      h)

-- What is found in a slice of bools, and in every other slice.
found_type : (k : ZeroKind) (n : ℕ) → (go_var_to_cip_type (make_slice k n)).0 ≡ kind_code k
unfolding go_var_to_cip_type make_slice kind_code
found_type bools n = refl
found_type (numbers k) n = refl
found_type strings n = refl

found_count :
    (k : ZeroKind) (n : ℕ)
    → kind_code k ≢ 0
    → go_var_to_cip_type (make_slice k n) ≡ (kind_code k, n)
unfolding go_var_to_cip_type make_slice kind_code
found_count bools n h = absurd (h refl)
found_count (numbers k) n h = refl
found_count strings n h = refl

own_array-ne-zero : (t : ℕ) → own_array t ≡ true → t ≢ 0
own_array-ne-zero zero h e = cc
own_array-ne-zero (suc t) h e = omega (arith, e)

array_zero :
    (def : TagDef) (n : ℕ)
    → def.elements ≡ pos n
    → 1 < n
    → zero_value_for_tag_def def ≡ make_slice (slice_kind def.type_code) n
unfolding zero_value_for_tag_def
array_zero def n e l = rw (e, lt→ltb 1 n l) refl

-- Of a definition of two elements or more, GoVarToCIPType finds the definition's type and its number of
-- elements in the value that the group reads into, exactly where the type is SINT, INT, DINT, LINT, UINT,
-- UDINT, REAL, LREAL, BYTE, LWORD or STRING; an array of BOOL, USINT, ULINT, WORD or DWORD is none of them.
pub zero_value-own_array :
    (def : TagDef) (n : ℕ)
    → def.type_code < 256
    → def.elements ≡ pos n
    → 1 < n
    → (go_var_to_cip_type (zero_value_for_tag_def def) ≡ (def.type_code, n))
      ↔ (own_array def.type_code ≡ true)
zero_value-own_array def n h e l =
    let zero_is = array_zero def n e l in
    (
      λ same.
          sym (slice_code def.type_code h)
          ∙ (==_iff (kind_code (slice_kind def.type_code)) def.type_code).1 (
              sym (found_type (slice_kind def.type_code) n)
              ∙ ap (λ v. (go_var_to_cip_type v).0) (sym zero_is)
              ∙ ap (λ p. p.0) same),
      λ own.
          let code : kind_code (slice_kind def.type_code) ≡ def.type_code =
            (==_iff (kind_code (slice_kind def.type_code)) def.type_code).0
              (slice_code def.type_code h ∙ own) in
          ap go_var_to_cip_type zero_is
          ∙ found_count (slice_kind def.type_code) n
              (λ z. own_array-ne-zero def.type_code own (sym code ∙ z))
          ∙ ap (λ c. (c, n)) code,
    )
