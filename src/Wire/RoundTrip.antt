-- ===== src/Wire/RoundTrip.antt =====
-- What was written is read back, and what follows it is left.
use gologix.Base.{ℕ, ◌<◌, ◌≡◌, ◌++◌, length, arith}
use gologix.Base.{All, take-append, drop-append, length-append}
use gologix.Base.Result.{ok}
use gologix.Wire.{
  Bytes, IsByte, put_u8, put_u16, put_u32, put_u64, put_u16_be, put_u32_be, read_full, read_u8,
  read_u16, read_u32, read_u64, read_u16_be, read_u32_be,
}

module _ (v : ℕ) (rest : Bytes) where
  pub read_u8-put : v < 256 → read_u8 (put_u8 v ++ rest) ≡ ok (v, rest)
  unfolding read_u8
  read_u8-put h = ground arith

  pub read_u16-put : v < 65536 → read_u16 (put_u16 v ++ rest) ≡ ok (v, rest)
  unfolding read_u16
  read_u16-put h = ground arith

  pub read_u32-put : v < 4294967296 → read_u32 (put_u32 v ++ rest) ≡ ok (v, rest)
  unfolding read_u32
  read_u32-put h = ground arith

  pub read_u64-put : v < 18446744073709551616 → read_u64 (put_u64 v ++ rest) ≡ ok (v, rest)
  unfolding read_u64
  read_u64-put h = ground arith

  pub read_u32_be-put : v < 4294967296 → read_u32_be (put_u32_be v ++ rest) ≡ ok (v, rest)
  unfolding read_u32_be
  read_u32_be-put h = ground arith

  pub read_u16_be-put : v < 65536 → read_u16_be (put_u16_be v ++ rest) ≡ ok (v, rest)
  unfolding read_u16_be
  read_u16_be-put h = ground arith

  pub put_u16-IsByte : All IsByte (put_u16 v)
  put_u16-IsByte = omega arith

  pub put_u32-IsByte : All IsByte (put_u32 v)
  put_u32-IsByte = omega arith

-- `io.ReadFull` of as many bytes as stand in front.
pub read_full-append :
    (n : ℕ) (xs rest : Bytes) → n ≡ length xs → read_full n (xs ++ rest) ≡ ok (xs, rest)
unfolding read_full
read_full-append n xs rest h =
    ground (arith, length-append xs rest, take-append xs rest, drop-append xs rest)
