-- ===== src/Base/Int.antt =====
-- Signed machine integers: the integer that a bit pattern of w bits stands for.
use gologix.Base.{ℕ, ◌-◌, ◌^◌, ltb, if◌then◌else◌}

-- `negsuc n` is -(n + 1).
pub data ℤ : Type 0 where
  pos : ℕ → ℤ
  negsuc : ℕ → ℤ

-- `int16(v)`, `int32(v)`, `int64(v)` of an unsigned value of the same width.
abbrev pub signed : ℕ → ℕ → ℤ
signed w v = if ltb v (2 ^ (w - 1)) then pos v else negsuc (2 ^ w - v - 1)
