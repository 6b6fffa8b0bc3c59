-- ===== src/Types.antt =====
-- types.go: the CIP types, by their codes.
pub mod Values
pub mod Bits
pub mod Reading
mod Tests
use gologix.Base.{ℕ, List, [], ◌∷◌, ◌==◌, if◌then◌else◌}

abbrev pub cip_type_struct : ℕ
cip_type_struct = 0xA0

find_size : ℕ → List (ℕ × ℕ) → ℕ
find_size c [] = 0
find_size c ((d, n) ∷ table) = if c == d then n else find_size c table

-- CIPType.Size: the cases of the switch, in its order; every other code has size 0.
unfoldable pub size : ℕ → ℕ
unfolding find_size
size c = find_size c (
    (0x00, 0)
    ∷ (cip_type_struct, 88)
    ∷ (0xC0, 8)
    ∷ (0xC1, 1)
    ∷ (0xD1, 1)
    ∷ (0xC2, 1)
    ∷ (0xC3, 2)
    ∷ (0xC4, 4)
    ∷ (0xC5, 8)
    ∷ (0xC6, 1)
    ∷ (0xC7, 2)
    ∷ (0xC8, 4)
    ∷ (0xC9, 8)
    ∷ (0xD4, 8)
    ∷ (0xCA, 4)
    ∷ (0xCB, 8)
    ∷ (0xD2, 2)
    ∷ (0xD3, 4)
    ∷ (0xCD, 2)
    ∷ (0xCE, 6)
    ∷ (0xCF, 0)
    ∷ (0xFF, 90)
    ∷ [])
