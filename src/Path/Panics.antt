-- ===== src/Path/Panics.antt =====
-- When ParsePath panics, and that its result is bytes.
use Prim.Native.Nat.{bit_or}
use gologix.Base.{
  ℕ, ◌≡◌, ◌≢◌, ◌↔◌, ◌⊎◌, inl, inr, refl, List, [], ◌∷◌, ◌++◌, true, false, Bool, Bool-cases, length,
  ltb, ◌%◌,
}
use gologix.Base.Result.{Result, Error, ok, err, panic, out_of_range, ◌>>=◌}
use gologix.Base.Int.{ℤ, pos, negsuc}
use gologix.Wire.{Bytes}
use gologix.Text.Decimal.{atoi-ne-panic}
use gologix.Text.{contains, split, atoi}
use gologix.Path.{mark_last, add_part, add_number, add_address, parse_parts, strip, parse_path}

mark_last_some : (x : ℕ) (b : Bytes) → (y : ℕ) × (r : Bytes) × (mark_last (x ∷ b) ≡ ok (y ∷ r))
unfolding mark_last
mark_last_some x [] = (bit_or x 16, [], refl)
mark_last_some x (y ∷ b) = let (z, r, e) = mark_last_some y b in (x, z ∷ r, rw e)

-- An answer that is an error or a path that is not empty.
abbrev Goes : Result Bytes → Type 0
Goes r = ((e : Error) × (r ≡ err e)) ⊎ ((x : ℕ) × (b : Bytes) × (r ≡ ok (x ∷ b)))

append_some : (b : Bytes) (v : ℕ) → (x : ℕ) × (r : Bytes) × (b ++ (v ∷ []) ≡ x ∷ r)
append_some [] v = (v, [], refl)
append_some (y ∷ b) v = (y, b ++ (v ∷ []), refl)

add_number-Goes : (z : ℤ) (b : Bytes) → Goes (add_number z b)
unfolding add_number
add_number-Goes (negsuc n) b = inl (out_of_range, refl)
add_number-Goes (pos v) b =
    let (x, r, e) = append_some b v in
    elim (Bool-cases (ltb 255 v)) [
      | inl big ↦ inl (out_of_range, rw big)
      | inr fits ↦ inr (x, r, rw (fits, e))
    ]

atoi-Goes : (r : Result ℤ) (b : Bytes) → r ≢ panic → Goes (r >>= λ z. add_number z b)
atoi-Goes (ok z) b h = add_number-Goes z b
atoi-Goes (err e) b h = inl (e, refl)
atoi-Goes panic b h = absurd (h refl)

add_part_number-Goes : (part b : Bytes) → contains b'.' part ≡ false → Goes (add_part part b)
unfolding add_part
add_part_number-Goes part b h = rw h (atoi-Goes (atoi part) b (atoi-ne-panic part))

add_part-Goes : (part : Bytes) (x : ℕ) (b : Bytes) → Goes (add_part part (x ∷ b))
add_part-Goes part x b = elim (Bool-cases (contains b'.' part)) [
  | inl dotted ↦ address dotted
  | inr plain ↦ add_part_number-Goes part (x ∷ b) plain
]
  where
    address : contains b'.' part ≡ true → Goes (add_part part (x ∷ b))
    address dotted =
        let (y, r, e) = mark_last_some x b in
        inr (y, r ++ ((length part % 256) ∷ part), unfold add_part add_address in rw (dotted, e))

-- Once a part is in, no later part panics.
parse_parts-ne-panic : (parts : List Bytes) (x : ℕ) (b : Bytes) → parse_parts parts (x ∷ b) ≢ panic
unfolding parse_parts
parse_parts-ne-panic [] x b e = cc
parse_parts-ne-panic (part ∷ parts) x b e = elim (add_part-Goes part x b) [
  | inl (w, p) ↦ cc (rw p at e)
  | inr (y, r, p) ↦ parse_parts-ne-panic parts y r (rw p at e)
]

abbrev head_dotted : List Bytes → Bool
head_dotted [] = false
head_dotted (part ∷ parts) = contains b'.' part

parse_parts_panics :
    (parts : List Bytes) → (parse_parts parts [] ≡ panic) ↔ (head_dotted parts ≡ true)
unfolding parse_parts
parse_parts_panics [] = (λ e. cc, λ e. cc)
parse_parts_panics (part ∷ parts) = elim (Bool-cases (contains b'.' part)) [
  | inl dotted ↦ (λ e. dotted, λ e. unfold add_part add_address mark_last in rw dotted)
  | inr plain ↦ elim (add_part_number-Goes part [] plain) [
    | inl (w, p) ↦ (λ e. cc (rw p at e), λ e. cc (plain, e))
    | inr (y, r, p) ↦ (λ e. absurd (parse_parts-ne-panic parts y r (rw p at e)), λ e. cc (plain, e))
  ]
]

-- Whether the text is not empty and its first part, spaces and brackets taken out, has a dot.
unfoldable pub starts_with_address : Bytes → Bool
unfolding strip
starts_with_address [] = false
starts_with_address (c ∷ path) = head_dotted (split b',' (strip (c ∷ path)))

-- ParsePath panics exactly on a text whose first part, with spaces and brackets taken out, has a
-- dot; on every other text it returns bytes or an error.
pub parse_path_panics_iff :
    (path : Bytes) → (parse_path path ≡ panic) ↔ (starts_with_address path ≡ true)
unfolding parse_path starts_with_address
parse_path_panics_iff [] = (λ e. cc, λ e. cc)
parse_path_panics_iff (c ∷ path) = parse_parts_panics (split b',' (strip (c ∷ path)))
