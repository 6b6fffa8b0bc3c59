-- ===== src/Wire.antt =====
-- The wire format: `binary.Write` and `binary.Read` of fixed-size numbers in little-endian order
-- (encoding/binary), and readers that take bytes from the front of a `bytes.Buffer`.
pub mod RoundTrip
pub mod Bind
pub mod Shrinks
use gologix.Base.{ℕ, ◌+◌, ◌*◌, ◌/◌, ◌%◌, ◌<◌, List, [], ◌∷◌, take, drop, length, ltb}
use gologix.Base.{◌==◌, if◌then◌else◌}
use gologix.Base.Result.{Error, Result, ok, err, panic, eof, unexpected_eof}

abbrev pub Bytes : Type 0
Bytes = List ℕ

abbrev pub IsByte : ℕ → Type 0
IsByte b = b < 256

-- `byte(v)` keeps the low eight bits.
abbrev pub put_u8 : ℕ → Bytes
put_u8 v = (v % 256) ∷ []

abbrev pub put_u16 : ℕ → Bytes
put_u16 v = (v % 256) ∷ (v / 256 % 256) ∷ []

abbrev pub put_u32 : ℕ → Bytes
put_u32 v = (v % 256) ∷ (v / 256 % 256) ∷ (v / 65536 % 256) ∷ (v / 16777216 % 256) ∷ []

abbrev pub put_u64 : ℕ → Bytes
put_u64 v =
    (v % 256)
    ∷ (v / 256 % 256)
    ∷ (v / 65536 % 256)
    ∷ (v / 16777216 % 256)
    ∷ (v / 4294967296 % 256)
    ∷ (v / 1099511627776 % 256)
    ∷ (v / 281474976710656 % 256)
    ∷ (v / 72057594037927936 % 256)
    ∷ []

-- Network order.
abbrev pub put_u32_be : ℕ → Bytes
put_u32_be v = (v / 16777216 % 256) ∷ (v / 65536 % 256) ∷ (v / 256 % 256) ∷ (v % 256) ∷ []

abbrev pub put_u16_be : ℕ → Bytes
put_u16_be v = (v / 256 % 256) ∷ (v % 256) ∷ []

-- A reader takes bytes from the front of a buffer. What an error leaves in the buffer is not
-- kept: the callers give the buffer up.
abbrev pub Reader : Type 0 → Type 0
Reader A = Bytes → Result (A × Bytes)

abbrev continue : {A B : Type 0} → Result (A × Bytes) → (A → Reader B) → Result (B × Bytes)
continue (ok (a, rest)) f = f a rest
continue (err e) f = err e
continue panic f = panic

infixl 5 ◌>>=◌ ◌>>◌
abbrev pub ◌>>=◌ : {A B : Type 0} → Reader A → (A → Reader B) → Reader B
◌>>=◌ m f b = continue (m b) f

abbrev pub ◌>>◌ : {A B : Type 0} → Reader A → Reader B → Reader B
m >> n = m >>= λ _. n

abbrev pub pure : {A : Type 0} → A → Reader A
pure a b = ok (a, b)

abbrev pub fail : {A : Type 0} → Error → Reader A
fail e b = err e

-- `io.ReadFull`: nothing is wanted, nothing is there, too little is there, or enough is.
unfoldable pub read_full : ℕ → Reader Bytes
read_full n b =
    if n == 0
    then ok ([], b)
    else if length b == 0
    then err eof
    else if ltb (length b) n
    then err unexpected_eof
    else ok (take n b, drop n b)

unfoldable pub read_u8 : Reader ℕ
read_u8 [] = err eof
read_u8 (a ∷ r) = ok (a, r)

abbrev pub of_u16 : ℕ → ℕ → ℕ
of_u16 a b = a + 256 * b

abbrev pub of_u32 : ℕ → ℕ → ℕ → ℕ → ℕ
of_u32 a b c d = a + 256 * b + 65536 * c + 16777216 * d

unfoldable pub read_u16 : Reader ℕ
read_u16 [] = err eof
read_u16 (a ∷ b ∷ r) = ok (of_u16 a b, r)
read_u16 _ = err unexpected_eof

unfoldable pub read_u32 : Reader ℕ
read_u32 [] = err eof
read_u32 (a ∷ b ∷ c ∷ d ∷ r) = ok (of_u32 a b c d, r)
read_u32 _ = err unexpected_eof

-- The low half stands first.
unfoldable pub read_u64 : Reader ℕ
read_u64 (a ∷ b ∷ c ∷ d ∷ e ∷ f ∷ g ∷ h ∷ r) = ok (of_u32 a b c d + 4294967296 * of_u32 e f g h, r)
read_u64 [] = err eof
read_u64 _ = err unexpected_eof

unfoldable pub read_u16_be : Reader ℕ
read_u16_be [] = err eof
read_u16_be (a ∷ b ∷ r) = ok (of_u16 b a, r)
read_u16_be _ = err unexpected_eof

unfoldable pub read_u32_be : Reader ℕ
read_u32_be [] = err eof
read_u32_be (a ∷ b ∷ c ∷ d ∷ r) = ok (of_u32 d c b a, r)
read_u32_be _ = err unexpected_eof
