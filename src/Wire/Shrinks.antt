-- ===== src/Wire/Shrinks.antt =====
-- A reader leaves no more than it was given: one rule for each way to build a reader.
use gologix.Base.{
  ℕ, ◌≤◌, ◌≡◌, [], ◌∷◌, length, arith, length-drop, Bool, true, false, if◌then◌else◌,
}
use gologix.Base.Result.{ok}
use gologix.Wire.{Bytes, Reader, read_u8, read_u16, read_u32, read_u64, read_full, pure, ◌>>=◌}
use gologix.Wire.Bind.{bind-eq-ok}
use native.Mathlib.Nat.{le_trans}

pub record Shrinks {A : Type 0} (m : Reader A) : Type 0 where
  pub at : (b : Bytes) (a : A) (r : Bytes) → m b ≡ ok (a, r) → length r ≤ length b

pub Shrinks-bind :
    {A B : Type 0} (m : Reader A) (f : A → Reader B)
    → Shrinks m
    → ((a : A) → Shrinks (f a))
    → Shrinks (m >>= f)
Shrinks-bind m f hm hf = record {
  at = λ b z r e.
      let (a, r', p, q) = bind-eq-ok (m b) f e in le_trans ((hf a).at r' z r q) (hm.at b a r' p);
}

pub Shrinks-pure : {A : Type 0} (a : A) → Shrinks (pure a)
Shrinks-pure a = record { at = λ b z r e. ground arith }

pub Shrinks-if :
    {A : Type 0} (t : Bool) (m n : Reader A) → Shrinks m → Shrinks n → Shrinks (if t then m else n)
Shrinks-if true m n hm hn = hm
Shrinks-if false m n hm hn = hn

read_u8-le : (b : Bytes) (v : ℕ) (r : Bytes) → read_u8 b ≡ ok (v, r) → length r ≤ length b
unfolding read_u8
read_u8-le [] v r e = cc
read_u8-le (a ∷ b) v r e = ground arith

read_u16-le : (b : Bytes) (v : ℕ) (r : Bytes) → read_u16 b ≡ ok (v, r) → length r ≤ length b
unfolding read_u16
read_u16-le [] v r e = cc
read_u16-le (a ∷ []) v r e = cc
read_u16-le (a ∷ c ∷ b) v r e = ground arith

read_full-le : (n : ℕ) (b v r : Bytes) → read_full n b ≡ ok (v, r) → length r ≤ length b
unfolding read_full
read_full-le n b v r e = ground (arith, length-drop n b)

pub Shrinks-read_u8 : Shrinks read_u8
Shrinks-read_u8 = record { at = read_u8-le }

pub Shrinks-read_u16 : Shrinks read_u16
Shrinks-read_u16 = record { at = read_u16-le }

pub Shrinks-read_full : (n : ℕ) → Shrinks (read_full n)
Shrinks-read_full n = record { at = read_full-le n }

read_u32-le : (b : Bytes) (v : ℕ) (r : Bytes) → read_u32 b ≡ ok (v, r) → length r ≤ length b
unfolding read_u32
read_u32-le [] v r e = cc
read_u32-le (x ∷ []) v r e = cc
read_u32-le (x ∷ y ∷ []) v r e = cc
read_u32-le (x ∷ y ∷ z ∷ []) v r e = cc
read_u32-le (x ∷ y ∷ z ∷ w ∷ b) v r e = ground arith

pub Shrinks-read_u32 : Shrinks read_u32
Shrinks-read_u32 = record { at = read_u32-le }

read_u64-le : (b : Bytes) (v : ℕ) (r : Bytes) → read_u64 b ≡ ok (v, r) → length r ≤ length b
unfolding read_u64
read_u64-le [] v r e = cc
read_u64-le (a ∷ []) v r e = cc
read_u64-le (a ∷ b ∷ []) v r e = cc
read_u64-le (a ∷ b ∷ c ∷ []) v r e = cc
read_u64-le (a ∷ b ∷ c ∷ d ∷ []) v r e = cc
read_u64-le (a ∷ b ∷ c ∷ d ∷ f ∷ []) v r e = cc
read_u64-le (a ∷ b ∷ c ∷ d ∷ f ∷ g ∷ []) v r e = cc
read_u64-le (a ∷ b ∷ c ∷ d ∷ f ∷ g ∷ h ∷ []) v r e = cc
read_u64-le (a ∷ b ∷ c ∷ d ∷ f ∷ g ∷ h ∷ i ∷ t) v r e = ground arith

pub Shrinks-read_u64 : Shrinks read_u64
Shrinks-read_u64 = record { at = read_u64-le }

pub ruleset shrinks_rules = (
  Shrinks-bind, Shrinks-pure, Shrinks-if, Shrinks-read_u8, Shrinks-read_u16, Shrinks-read_u32,
  Shrinks-read_u64, Shrinks-read_full,
)
