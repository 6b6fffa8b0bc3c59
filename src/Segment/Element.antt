-- ===== src/Segment/Element.antt =====
-- cip_definitions.go: CIPElement, a uint32, the index into an array.
use gologix.Base.{ℕ, ◌∷◌, ltb, if◌then◌else◌}
use gologix.Wire.{Bytes, put_u8, put_u16, put_u32}

abbrev pub size_8bit : ℕ
size_8bit = 0x28

abbrev pub size_16bit : ℕ
size_16bit = 0x29

abbrev pub size_32bit : ℕ
size_32bit = 0x2A

-- The long form carries the 16-bit size too, as the source writes it.
unfoldable pub bytes : ℕ → Bytes
bytes p =
    if ltb p 256
    then size_8bit ∷ put_u8 p
    else if ltb p 65536
    then size_16bit ∷ 0 ∷ put_u16 p
    else size_16bit ∷ 0 ∷ put_u32 p

unfoldable pub len : ℕ → ℕ
len p = if ltb p 256 then 2 else if ltb p 65535 then 4 else 6
