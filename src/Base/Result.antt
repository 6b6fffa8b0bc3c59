-- ===== src/Base/Result.antt =====
-- Go's pair of a value and an error, as one value; `panic` stands for a run-time panic.
use mathlib.Core.Path.{◌≡◌, refl}

-- The errors that the modelled functions return, by the message or the sentinel that they carry.
pub data Error : Type 0 where
  eof : Error
  unexpected_eof : Error
  out_of_data : Error
  bad_segment : Error
  bad_number : Error
  out_of_range : Error
  not_found : Error
  wrong_type : Error
  bad_status : Error
  too_many_rounds : Error
  not_implemented : Error
  too_long : Error
  broken_connection : Error
  no_item : Error

pub data Result {ℓ} (A : Type ℓ) : Type ℓ where
  ok : A → Result A
  err : Error → Result A
  panic : Result A

infixl 5 ◌>>=◌
abbrev pub ◌>>=◌ {ℓ κ} : {A : Type ℓ} {B : Type κ} → Result A → (A → Result B) → Result B
ok a >>= f = f a
err e >>= f = err e
panic >>= f = panic

-- Where a chain succeeds, its first step did, and its second one did on the value of the first.
module _ {ℓ κ} {A : Type ℓ} {B : Type κ} where
  pub >>=-eq-ok :
      (first : Result A) (second : A → Result B) {y : B}
      → (first >>= second) ≡ ok y
      → (x : A) × (first ≡ ok x) × (second x ≡ ok y)
  >>=-eq-ok panic second e = cc
  >>=-eq-ok (err why) second e = cc
  >>=-eq-ok (ok x) second e = (x, refl, e)
