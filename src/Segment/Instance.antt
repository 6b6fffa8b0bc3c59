-- ===== src/Segment/Instance.antt =====
-- cip_definitions.go: CIPInstance, a uint32.
use gologix.Base.{ℕ, ◌∷◌, ltb, leb, ◌==◌, if◌then◌else◌}
use gologix.Base.Result.{err, bad_segment}
use gologix.Wire.{Bytes, Reader, put_u8, put_u16, put_u32, read_u8, read_u16, read_u32, ◌>>=◌, ◌>>◌}

abbrev pub size_8bit : ℕ
size_8bit = 0x24

abbrev pub size_16bit : ℕ
size_16bit = 0x25

abbrev pub size_32bit : ℕ
size_32bit = 0x26

unfoldable pub bytes : ℕ → Bytes
bytes p =
    if ltb p 256
    then size_8bit ∷ put_u8 p
    else if leb p 0xFFFF
    then size_16bit ∷ 0 ∷ put_u16 p
    else size_32bit ∷ 0 ∷ put_u32 p

read_value : ℕ → Reader ℕ
unfolding read_u8 read_u16 read_u32
read_value size b =
    if size == size_8bit
    then read_u8 b
    else if size == size_16bit
    then (read_u8 >> read_u16) b
    else if size == size_32bit
    then (read_u8 >> read_u32) b
    else err bad_segment

unfoldable pub read : Reader ℕ
unfolding read_value read_u8
read = read_u8 >>= read_value

unfoldable pub len : ℕ → ℕ
len p = if ltb p 256 then 2 else if leb p 0xFFFF then 4 else 6
