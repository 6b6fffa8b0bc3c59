-- ===== src/Types/Tests.antt =====
-- Runs of the value reader, and the theorems at concrete inputs.
use gologix.Base.{◌≡◌, refl, [], ◌∷◌}
use gologix.Base.Result.{ok}
use gologix.Wire.{Bytes, read_u8, read_u16}
use gologix.Types.Values.{int8, uint16, num, read_value, kind_of, read_num, find, read_kind}
use gologix.Types.Bits.{sint}

-- The INT 0x0102 with a byte behind it, and an INT of which half is there.
abbrev word : Bytes
word = 2 ∷ 1 ∷ 9 ∷ []

read_uint : read_value 0xC7 word ≡ ok (num uint16 258, 9 ∷ [])
unfolding read_value kind_of find read_num read_kind read_u16
read_uint = refl

read_sint : read_value sint word ≡ ok (num int8 2, 1 ∷ 9 ∷ [])
unfolding read_value kind_of find read_num read_kind read_u8
read_sint = refl
