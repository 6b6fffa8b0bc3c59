-- ===== src/Text/Find.antt =====
-- Suffixes, prefixes up to a character, and the characters of decimal numbers.
use gologix.Base.{
  ℕ, zero, suc, ◌/◌, ◌≡◌, refl, List, [], ◌∷◌, ◌++◌, true, false, arith, All, ltb, Bool-cases, inl,
  inr,
}
use gologix.Wire.{Bytes}
use gologix.Text.{contains, ends_with, take_until, digits, decimal, is_digit}
use gologix.Text.Split.{Lacks}

pub All-append {ℓ κ} :
    {A : Type ℓ} (P : A → Type κ) (xs ys : List A) → All P xs → All P ys → All P (xs ++ ys)
All-append P [] ys hx hy = hy
All-append P (x ∷ xs) ys (h, hx) hy = (h, All-append P xs ys hx hy)

pub contains_separator : (c : ℕ) (p s : Bytes) → contains c (p ++ (c ∷ s)) ≡ true
unfolding contains
contains_separator c [] s = ground arith
contains_separator c (x ∷ p) s = ground (arith, contains_separator c p s)

pub ends_with-append : (c : ℕ) (s : Bytes) → ends_with c (s ++ (c ∷ [])) ≡ true
unfolding ends_with
ends_with-append c [] = ground arith
ends_with-append c (x ∷ []) = ground arith
ends_with-append c (x ∷ y ∷ s) = ends_with-append c (y ∷ s)

pub ends_with-Lacks : (c : ℕ) (s : Bytes) → Lacks c s → ends_with c s ≡ false
unfolding ends_with contains
ends_with-Lacks c [] h = refl
ends_with-Lacks c (x ∷ []) h = ground arith
ends_with-Lacks c (x ∷ y ∷ s) h = ends_with-Lacks c (y ∷ s) (ground arith)

pub take_until-append : (c : ℕ) (s t : Bytes) → Lacks c s → take_until c (s ++ (c ∷ t)) ≡ s
unfolding take_until contains
take_until-append c [] t h = ground arith
take_until-append c (x ∷ s) t h = ground (arith, take_until-append c s t)

abbrev pub IsDigit : ℕ → Type 0
IsDigit d = is_digit d ≡ true

digits-IsDigit : (f n : ℕ) → All IsDigit (digits f n)
unfolding digits
digits-IsDigit zero n = tt
digits-IsDigit (suc f) n = elim (Bool-cases (ltb n 10)) [
  | inl small ↦ rw small (ground arith, tt)
  | inr large ↦
      rw large
        (All-append IsDigit (digits f (n / 10)) _ (digits-IsDigit f (n / 10)) (ground arith, tt))
]

pub decimal-IsDigit : (n : ℕ) → All IsDigit (decimal n)
unfolding decimal
decimal-IsDigit n = digits-IsDigit 20 n
