-- ===== src/Types/Bits.antt =====
-- getBit (types.go) of a value that readValue returned.
use Prim.Native.Nat.{◌^◌}
use gologix.Base.{
  ℕ, ◌*◌, ◌/◌, ◌%◌, ◌<◌, ◌≡◌, ◌≢◌, refl, sym, ap, ◌∙◌, Option, none, some, Bool, true, false, not,
  ◌||◌, ◌==◌, arith, ==_iff, Option-cases, Bool-cases, inl, inr, lt→ltb,
}
use gologix.Base.Int.{pos}
use gologix.Base.Result.{Result, ok, err, wrong_type}
use gologix.Wire.{Bytes, read_u8, read_full, pure}
use gologix.Wire.Bind.{bind-eq-ok}
use gologix.Types.Values.{
  NumType, int8, float32, float64, cip_type_of, same, Value, num, truth, block, width, Kind,
  boolean, number, text_block, kind_of, read_value, read_kind, read_num, mask_type, mask_bit,
  get_bit,
}
use gologix.Types.Reading.{
  all_below, all_below_sound, read_value-some, read_value-none, kind_of-cip_type_of,
}

unfoldable pub is_integer : NumType → Bool
is_integer float32 = false
is_integer float64 = false
is_integer _ = true

abbrev pub sint : ℕ
sint = 0xC2

same_sound : (m n : NumType) → same m n ≡ true → m ≡ n
unfolding same
same_sound m n h = number_injective m n (
    sym (kind_of-cip_type_of m)
    ∙ ap kind_of ((==_iff (cip_type_of m) (cip_type_of n)).0 h)
    ∙ kind_of-cip_type_of n)
  where
    number_injective :
        (m n : NumType) → ◌≡◌ {A = Option Kind} (some (number m)) (some (number n)) → m ≡ n
    number_injective m n e = cc

mask_is : Option NumType → NumType → Bool
mask_is none n = false
mask_is (some m) n = same m n

mask_agrees : ℕ → Option Kind → Bool
mask_agrees t (some (number n)) = (t == sint) || (not (is_integer n) || mask_is (mask_type t) n)
mask_agrees t _ = true

masks_agree : all_below 256 (λ t. mask_agrees t (kind_of t)) ≡ true
unfolding all_below mask_agrees kind_of mask_type mask_is is_integer same
masks_agree = refl

mask_is_sound : (o : Option NumType) (n : NumType) → mask_is o n ≡ true → o ≡ some n
unfolding mask_is
mask_is_sound none n h = cc
mask_is_sound (some m) n h = ap (λ a. some a) (same_sound m n h)

agrees_integer :
    (t : ℕ) (n : NumType)
    → t ≢ sint
    → is_integer n ≡ true
    → mask_agrees t (some (number n)) ≡ true
    → mask_is (mask_type t) n ≡ true
unfolding mask_agrees
agrees_integer t n not_sint int h = ground arith

mask_type-lem :
    (t : ℕ) (n : NumType)
    → t < 256
    → t ≢ sint
    → is_integer n ≡ true
    → kind_of t ≡ some (number n)
    → mask_type t ≡ some n
mask_type-lem t n h not_sint int e = mask_is_sound (mask_type t) n (
    agrees_integer t n not_sint int (
      ap (mask_agrees t) (sym e)
      ∙ all_below_sound 256 (λ c. mask_agrees c (kind_of c)) t masks_agree h))

read_kind_num :
    (k : Kind) (b : Bytes) (n : NumType) (x : ℕ) (rest : Bytes)
    → read_kind k b ≡ ok (num n x, rest)
    → k ≡ number n
unfolding read_kind
read_kind_num boolean b n x rest h =
    let (a, r, p, q) = bind-eq-ok (read_u8 b) (λ a. pure (truth (not (a == 0)))) h in cc
read_kind_num (number m) b n x rest h =
    let (a, r, p, q) = bind-eq-ok (read_num m b) (λ v. pure (num m v)) h in cc
read_kind_num text_block b n x rest h =
    let (a, r, p, q) = bind-eq-ok (read_full 86 b) (λ a. pure (block a)) h in cc

kind_of_num :
    (t : ℕ) (b : Bytes) (n : NumType) (x : ℕ) (rest : Bytes)
    → read_value t b ≡ ok (num n x, rest)
    → kind_of t ≡ some (number n)
kind_of_num t b n x rest h = elim (Option-cases (kind_of t)) [
  | inl e ↦ cc (read_value-none t b e)
  | inr (k, e) ↦
      e ∙ ap (λ a. some a) (read_kind_num k b n x rest (sym (read_value-some t b k e) ∙ h))
]

not_bool : (t : ℕ) (n : NumType) → kind_of t ≡ some (number n) → (t == 0xC1) ≡ false
not_bool t n h = elim (Bool-cases (t == 0xC1)) [
  | inl e ↦ absurd (no_number n (ap kind_of (sym ((==_iff t 0xC1).0 e)) ∙ h))
  | inr e ↦ e
]
  where
    no_number : (n : NumType) → kind_of 0xC1 ≡ some (number n) → ⊥
    no_number n e = unfold kind_of in cc

same_self : (n : NumType) → same n n ≡ true
unfolding same
same_self n = (==_iff (cip_type_of n) (cip_type_of n)).1 refl

-- The bit `k` of a pattern.
abbrev pub bit_of : ℕ → ℕ → Bool
bit_of x k = x / 2 ^ k % 2 == 1

-- A number that readValue returned for a type other than SINT and the two floats: getBit with that type
-- gives each of its bits, and no error.
pub get_bit-read_value :
    (t : ℕ) (b : Bytes) (n : NumType) (x : ℕ) (rest : Bytes) (k : ℕ)
    → t < 256
    → t ≢ sint
    → is_integer n ≡ true
    → read_value t b ≡ ok (num n x, rest)
    → k < 8 * width n
    → get_bit t (num n x) (pos k) ≡ ok (bit_of x k)
unfolding get_bit mask_bit
get_bit-read_value t b n x rest k h not_sint int e hk =
    let kind = kind_of_num t b n x rest e in
    rw (
      get_bit,
      not_bool t n kind,
      mask_type-lem t n h not_sint int kind,
      mask_bit,
      lt→ltb k _ hk,
      same_self n,
    )

sint_bit : (x k : ℕ) → k < 8 → get_bit sint (num int8 x) (pos k) ≡ err wrong_type
unfolding get_bit mask_type mask_bit same
sint_bit x k h = rw (lt→ltb k 8 h)

sint_kind : kind_of sint ≡ some (number int8)
unfolding kind_of
sint_kind = refl

-- What readValue returns for a SINT is an int8, and getBit wants a byte: it has no bit of it.
pub get_bit-read_sint :
    (b : Bytes) (v : Value) (rest : Bytes) (k : ℕ)
    → read_value sint b ≡ ok (v, rest)
    → k < 8
    → get_bit sint v (pos k) ≡ err wrong_type
unfolding read_kind
get_bit-read_sint b v rest k e h =
    let (x, r, p, q) =
      bind-eq-ok (read_num int8 b) (λ a. pure (num int8 a))
        (sym (read_value-some sint b (number int8) sint_kind) ∙ e) in
    rw (← value x r q) (sint_bit x k h)
  where
    value :
        (x : ℕ) (r : Bytes)
        → ◌≡◌ {A = Result (Value × Bytes)} (ok (num int8 x, r)) (ok (v, rest))
        → num int8 x ≡ v
    value x r q = cc
