-- ===== src/Text/Decimal.antt =====
-- %d against strconv.Atoi.
use gologix.Base.{
  ℕ, zero, suc, ◌+◌, ◌-◌, ◌*◌, ◌/◌, ◌%◌, ◌^◌, ◌<◌, ◌≡◌, ◌≢◌, refl, [], ◌∷◌, ◌++◌, true, false, some,
  arith, ltb, append_assoc, ap, ◌∙◌, inl, inr, Bool-cases, ltb→lt, append-nil,
}
use gologix.Base.Int.{pos}
use gologix.Base.Result.{ok, panic}
use gologix.Wire.{Bytes}
use gologix.Text.Split.{contains-append}
use gologix.Text.{contains, parse_digits, atoi, digits, decimal, is_digit}

digit_back : (acc d : ℕ) → acc * 10 + (48 + d - 48) ≡ acc * 10 + d
digit_back acc d = omega arith

one_digit :
    (acc d : ℕ) (t : Bytes)
    → d < 10
    → parse_digits acc ((48 + d) ∷ t) ≡ parse_digits (acc * 10 + d) t
unfolding parse_digits
one_digit acc d t h = ground (arith, ap (λ (k : ℕ). parse_digits k t) (digit_back acc d))

pow_ten : (f : ℕ) → 10 ^ suc f ≡ 10 * 10 ^ f
pow_ten f = omega arith

parse_digits-digits :
    (f n : ℕ) (t : Bytes) → n < 10 ^ f → parse_digits 0 (digits f n ++ t) ≡ parse_digits n t
unfolding digits
parse_digits-digits zero n t h = ap (λ k. parse_digits k t) (omega arith)
parse_digits-digits (suc f) n t h = elim (Bool-cases (ltb n 10)) [
  | inl small ↦
      rw small (one_digit 0 n t (ltb→lt n 10 small) ∙ ap (λ k. parse_digits k t) (omega arith))
  | inr large ↦
      rw (large, append_assoc)
        (parse_digits-digits f (n / 10) ((48 + n % 10) ∷ t) (omega (arith, pow_ten f))
          ∙ one_digit (n / 10) (n % 10) t (omega arith)
          ∙ ap (λ k. parse_digits k t) (omega arith))
]

-- The first byte of a decimal number is a digit.
digits_head : (f n : ℕ) → (d : ℕ) × (r : Bytes) × (digits (suc f) n ≡ d ∷ r) × (is_digit d ≡ true)
unfolding digits
digits_head zero n = elim (Bool-cases (ltb n 10)) [
  | inl small ↦ (48 + n, [], rw small, ground arith)
  | inr large ↦ (48 + n % 10, [], rw large, ground arith)
]
digits_head (suc f) n =
    let (d, r, e, h) = digits_head f (n / 10) in
    elim (Bool-cases (ltb n 10)) [
      | inl small ↦ (48 + n, [], rw small, ground arith)
      | inr large ↦ (d, r ++ ((48 + n % 10) ∷ []), rw (large, digits, e), h)
    ]

-- A character that is no digit does not stand in a decimal number.
contains-digits : (c f n : ℕ) → is_digit c ≡ false → contains c (digits f n) ≡ false
unfolding contains digits
contains-digits c zero n h = refl
contains-digits c (suc f) n h = ground (
  arith,
  contains-digits c f (n / 10) h,
  contains-append c (digits f (n / 10)) ((48 + n % 10) ∷ []),
)

parse_digits-decimal : (n : ℕ) → n < 2 ^ 63 → parse_digits 0 (decimal n) ≡ some n
unfolding decimal
parse_digits-decimal n h =
    rw (← append-nil (digits 20 n)) (parse_digits-digits 20 n [] (omega arith) ∙ parse_digits-nil n)
  where
    parse_digits-nil : (n : ℕ) → parse_digits n [] ≡ some n
    parse_digits-nil n = unfold parse_digits in refl

atoi-digits :
    (d : ℕ) (r : Bytes) (n : ℕ)
    → is_digit d ≡ true
    → n < 2 ^ 63
    → parse_digits 0 (d ∷ r) ≡ some n
    → atoi (d ∷ r) ≡ ok (pos n)
unfolding atoi
atoi-digits d r n h b e = ground arith

-- A 63-bit number is read back from its decimal digits.
pub atoi-decimal : (n : ℕ) → n < 2 ^ 63 → atoi (decimal n) ≡ ok (pos n)
unfolding decimal
atoi-decimal n h =
    let (d, r, e, g) = digits_head 19 n in
    rw e (atoi-digits d r n g h (rw e at (parse_digits-decimal n h)))

pub contains-decimal : (c n : ℕ) → is_digit c ≡ false → contains c (decimal n) ≡ false
unfolding decimal
contains-decimal c n h = contains-digits c 20 n h

pub decimal-ne-nil : (n : ℕ) → decimal n ≢ []
unfolding decimal
decimal-ne-nil n e = let (d, r, p, g) = digits_head 19 n in cc

pub atoi-ne-panic : (s : Bytes) → atoi s ≢ panic
unfolding atoi
atoi-ne-panic [] e = cc
atoi-ne-panic (c ∷ s) e = ground arith
