-- ===== src/Segment/Class.antt =====
-- cip_definitions.go: CIPClass, a uint16.
use gologix.Base.{ℕ, ◌∷◌, ltb, ◌==◌, if◌then◌else◌}
use gologix.Base.Result.{err, bad_segment}
use gologix.Wire.{Bytes, Reader, put_u8, put_u16, read_u8, read_u16, ◌>>=◌, ◌>>◌}

abbrev pub size_8bit : ℕ
size_8bit = 0x20

abbrev pub size_16bit : ℕ
size_16bit = 0x21

-- The second byte of the long form is the zero that `make` left there.
unfoldable pub bytes : ℕ → Bytes
bytes p = if ltb p 256 then size_8bit ∷ put_u8 p else size_16bit ∷ 0 ∷ put_u16 p

read_value : ℕ → Reader ℕ
unfolding read_u8 read_u16
read_value size b =
    if size == size_8bit
    then read_u8 b
    else if size == size_16bit
    then (read_u8 >> read_u16) b
    else err bad_segment

unfoldable pub read : Reader ℕ
unfolding read_value read_u8
read = read_u8 >>= read_value

unfoldable pub len : ℕ → ℕ
len p = if ltb p 256 then 2 else 4
