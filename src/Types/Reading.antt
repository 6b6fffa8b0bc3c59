-- ===== src/Types/Reading.antt =====
-- What readValue (types.go) reads: what was written, and how many bytes of it.
use Prim.Native.Nat.{◌^◌}
use gologix.Base.{
  ℕ, zero, suc, ◌+◌, ◌<◌, ◌≡◌, refl, sym, ap, ◌∙◌, [], ◌∷◌, ◌++◌, Option, none, some, Bool, true,
  ◌&&◌, length, ◌==◌, if◌then◌else◌, arith, ==_iff, Option-cases, inl, inr, not, length-drop,
}
use gologix.Base.Result.{Error, Result, ok, err, wrong_type}
use gologix.Wire.{Bytes, Reader, read_u8, read_u16, read_u32, read_u64, read_full, pure, ◌>>=◌}
use gologix.Wire.Bind.{bind-eq-ok}
use gologix.Wire.RoundTrip.{read_u8-put, read_u16-put, read_u32-put, read_u64-put}
use gologix.Types.{size}
use gologix.Types.Values.{
  NumType, uint8, int8, uint16, int16, uint32, int32, uint64, int64, float32, float64, Value, num,
  cip_type_of, go_var_to_cip_type, num_var, width, put_num, read_num, Kind, boolean, number,
  text_block, kind_of, read_kind, read_value, truth, block,
}

pub read_num-put :
    (n : NumType) (v : ℕ) (rest : Bytes)
    → v < 256 ^ width n
    → read_num n (put_num n v ++ rest) ≡ ok (v, rest)
unfolding read_num put_num width
read_num-put uint8 v rest h = read_u8-put v rest h
read_num-put int8 v rest h = read_u8-put v rest h
read_num-put uint16 v rest h = read_u16-put v rest h
read_num-put int16 v rest h = read_u16-put v rest h
read_num-put uint32 v rest h = read_u32-put v rest h
read_num-put int32 v rest h = read_u32-put v rest h
read_num-put uint64 v rest h = read_u64-put v rest h
read_num-put int64 v rest h = read_u64-put v rest h
read_num-put float32 v rest h = read_u32-put v rest h
read_num-put float64 v rest h = read_u64-put v rest h

pub kind_of-cip_type_of : (n : NumType) → kind_of (cip_type_of n) ≡ some (number n)
unfolding kind_of cip_type_of
kind_of-cip_type_of uint8 = refl
kind_of-cip_type_of int8 = refl
kind_of-cip_type_of uint16 = refl
kind_of-cip_type_of int16 = refl
kind_of-cip_type_of uint32 = refl
kind_of-cip_type_of int32 = refl
kind_of-cip_type_of uint64 = refl
kind_of-cip_type_of int64 = refl
kind_of-cip_type_of float32 = refl
kind_of-cip_type_of float64 = refl

-- A number of any of Go's ten types is read back, by the type that GoVarToCIPType gives for a variable
-- of that type, with its bits, and what follows it is left.
pub read_value-put_num :
    (n : NumType) (v : ℕ) (rest : Bytes)
    → v < 256 ^ width n
    → read_value (go_var_to_cip_type (num_var n)).0 (put_num n v ++ rest) ≡ ok (num n v, rest)
unfolding read_value go_var_to_cip_type
read_value-put_num n v rest h =
    rw (read_value, kind_of-cip_type_of n, read_kind, read_num-put n v rest h)

-- The bytes that a kind takes.
unfoldable pub kind_width : Kind → ℕ
kind_width boolean = 1
kind_width (number n) = width n
kind_width text_block = 86

unfoldable pub all_below : ℕ → (ℕ → Bool) → Bool
all_below zero p = true
all_below (suc n) p = p n && all_below n p

pub all_below_sound : (n : ℕ) (p : ℕ → Bool) (x : ℕ) → all_below n p ≡ true → x < n → p x ≡ true
unfolding all_below
all_below_sound zero p x h l = absurd (omega arith)
all_below_sound (suc n) p x h l = ground (arith, all_below_sound n p x)

-- The bytes that readValue takes of a type, by CIPType.Size but for STRING.
abbrev pub value_width : ℕ → ℕ
value_width t = if t == 0xFF then 86 else size t

width_agrees : ℕ → Option Kind → Bool
width_agrees t none = true
width_agrees t (some k) = kind_width k == value_width t

widths_agree : all_below 256 (λ t. width_agrees t (kind_of t)) ≡ true
unfolding all_below width_agrees kind_width width size kind_of
widths_agree = refl

kind_width-lem : (t : ℕ) (k : Kind) → t < 256 → kind_of t ≡ some k → kind_width k ≡ value_width t
unfolding width_agrees
kind_width-lem t k h e = (==_iff (kind_width k) (value_width t)).0 (
    ap (width_agrees t) (sym e)
    ∙ all_below_sound 256 (λ t. width_agrees t (kind_of t)) t widths_agree h)

-- A reader that takes `n` bytes where it succeeds.
abbrev Takes : {A : Type 0} → ℕ → Reader A → Type 0
Takes {A} n m = (b : Bytes) (v : A) (rest : Bytes) → m b ≡ ok (v, rest) → length b ≡ n + length rest

read_u8-Takes : Takes 1 read_u8
unfolding read_u8
read_u8-Takes [] v rest h = cc
read_u8-Takes (a ∷ b) v rest h = ground arith

read_u16-Takes : Takes 2 read_u16
unfolding read_u16
read_u16-Takes [] v rest h = cc
read_u16-Takes (a ∷ []) v rest h = cc
read_u16-Takes (a ∷ c ∷ b) v rest h = ground arith

read_u32-Takes : Takes 4 read_u32
unfolding read_u32
read_u32-Takes [] v rest h = cc
read_u32-Takes (a ∷ []) v rest h = cc
read_u32-Takes (a ∷ c ∷ []) v rest h = cc
read_u32-Takes (a ∷ c ∷ d ∷ []) v rest h = cc
read_u32-Takes (a ∷ c ∷ d ∷ e ∷ b) v rest h = ground arith

read_u64-Takes : Takes 8 read_u64
unfolding read_u64
read_u64-Takes [] v rest h = cc
read_u64-Takes (a ∷ []) v rest h = cc
read_u64-Takes (a ∷ c ∷ []) v rest h = cc
read_u64-Takes (a ∷ c ∷ d ∷ []) v rest h = cc
read_u64-Takes (a ∷ c ∷ d ∷ e ∷ []) v rest h = cc
read_u64-Takes (a ∷ c ∷ d ∷ e ∷ f ∷ []) v rest h = cc
read_u64-Takes (a ∷ c ∷ d ∷ e ∷ f ∷ g ∷ []) v rest h = cc
read_u64-Takes (a ∷ c ∷ d ∷ e ∷ f ∷ g ∷ i ∷ []) v rest h = cc
read_u64-Takes (a ∷ c ∷ d ∷ e ∷ f ∷ g ∷ i ∷ j ∷ b) v rest h = ground arith

read_full-Takes : (n : ℕ) → Takes n (read_full n)
unfolding read_full
read_full-Takes n b v rest h = ground (arith, length-drop n b)

read_num-Takes : (n : NumType) → Takes (width n) (read_num n)
unfolding read_num width
read_num-Takes uint8 = read_u8-Takes
read_num-Takes int8 = read_u8-Takes
read_num-Takes uint16 = read_u16-Takes
read_num-Takes int16 = read_u16-Takes
read_num-Takes uint32 = read_u32-Takes
read_num-Takes int32 = read_u32-Takes
read_num-Takes uint64 = read_u64-Takes
read_num-Takes int64 = read_u64-Takes
read_num-Takes float32 = read_u32-Takes
read_num-Takes float64 = read_u64-Takes

map-Takes :
    {A B : Type 0} (n : ℕ) (m : Reader A) (f : A → B) → Takes n m → Takes n (m >>= λ a. pure (f a))
map-Takes n m f t b v rest h =
    let (a, r, p, q) = bind-eq-ok (m b) (λ a. pure (f a)) h in ground (arith, t b a r p)

read_kind-Takes : (k : Kind) → Takes (kind_width k) (read_kind k)
unfolding read_kind kind_width
read_kind-Takes boolean = map-Takes 1 read_u8 (λ b. truth (not (b == 0))) read_u8-Takes
read_kind-Takes (number n) = map-Takes (width n) (read_num n) (λ v. num n v) (read_num-Takes n)
read_kind-Takes text_block = map-Takes 86 (read_full 86) (λ b. block b) (read_full-Takes 86)

ok-ne-err : {A : Type 0} {a : A} {w : Error} → ◌≡◌ {A = Result A} (ok a) (err w) → ⊥
ok-ne-err h = cc

pub read_value-some :
    (t : ℕ) (b : Bytes) (k : Kind) → kind_of t ≡ some k → read_value t b ≡ read_kind k b
unfolding read_value
read_value-some t b k e = rw (read_value, e)

pub read_value-none : (t : ℕ) (b : Bytes) → kind_of t ≡ none → read_value t b ≡ err wrong_type
unfolding read_value
read_value-none t b e = rw (read_value, e)

-- Where readValue returns a value of a type, it has taken as many bytes as CIPType.Size says, but of a
-- STRING 86, where Size says 90.
pub read_value_takes :
    (t : ℕ) (b : Bytes) (v : Value) (rest : Bytes)
    → t < 256
    → read_value t b ≡ ok (v, rest)
    → length b ≡ value_width t + length rest
read_value_takes t b v rest h e = elim (Option-cases (kind_of t)) [
  | inl none_e ↦ absurd (ok-ne-err (sym e ∙ read_value-none t b none_e))
  | inr (k, some_e) ↦
      read_kind-Takes k b v rest (sym (read_value-some t b k some_e) ∙ e)
      ∙ ap (λ n. n + length rest) (kind_width-lem t k h some_e)
]
