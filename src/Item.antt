-- ===== src/Item.antt =====
-- items.go: the CIP item, a byte buffer with a header and a read position, and lists of items.
pub mod Payload
pub mod Cursor
pub mod Framing
pub mod ListRoundTrip
pub mod Shorter
mod Tests
use gologix.Base.{ℕ, zero, suc, ◌+◌, ◌*◌, ◌%◌, List, [], ◌∷◌, ◌++◌, length, take, drop, replicate}
use gologix.Base.{Bool, ltb, leb, ◌==◌, if◌then◌else◌, Option, none, some}
use gologix.Base.Result.{Result, ok, err, panic, eof, unexpected_eof, out_of_data, Error}
use gologix.Base.Int.{ℤ, signed}
use gologix.Wire.{Bytes, Reader, put_u16, put_u32, of_u16, of_u32, read_u16, read_full, pure, ◌>>=◌}

-- CIPItem with its cipItemHeader: `id` and `header_length` are uint16, `content` is Data.
pub record CipItem : Type 0 where
  pub id : ℕ
  pub header_length : ℕ
  pub content : Bytes
  pub position : ℕ

-- Read: the bytes from the position on, as many as fit into a slice of `n`.
unfoldable pub read : ℕ → CipItem → Result Bytes × CipItem
read n item =
    if leb (length item.content) item.position
    then (err eof, item)
    else (let got = take n (drop item.position item.content) in
        (ok got, record item { position = item.position + length got }))

-- Write appends, and the header's length is the uint16 of what is there then.
unfoldable pub write : Bytes → CipItem → CipItem
write p item = record item {
  content = item.content ++ p;
  header_length = length (item.content ++ p) % 65536;
}

-- Rest is `Data[Pos:]`, a slice expression.
unfoldable pub rest : CipItem → Result Bytes
rest item =
    if ltb (length item.content) item.position then panic else ok (drop item.position item.content)

-- Reset
unfoldable pub reset : CipItem → CipItem
reset item = record item { position = 0 }

-- The bytes that binary.LittleEndian.Uint16, Uint32 and Uint64 read; they panic on too few.
abbrev pub le_u8 : Bytes → Result ℕ
le_u8 (a ∷ _) = ok a
le_u8 [] = panic

abbrev pub le_u16 : Bytes → Result ℕ
le_u16 (a ∷ b ∷ _) = ok (of_u16 a b)
le_u16 _ = panic

abbrev le_u32 : Bytes → Result ℕ
le_u32 (a ∷ b ∷ c ∷ d ∷ _) = ok (of_u32 a b c d)
le_u32 _ = panic

abbrev le_u64 : Bytes → Result ℕ
le_u64 (a ∷ b ∷ c ∷ d ∷ e ∷ f ∷ g ∷ h ∷ _) = ok (of_u32 a b c d + 4294967296 * of_u32 e f g h)
le_u64 _ = panic

-- The number at the position, of `suc k` bytes: an error that moves nothing, or a step over it.
unfoldable pub next : ℕ → (Bytes → Result ℕ) → CipItem → Result ℕ × CipItem
next k decode item =
    if leb (length item.content) (item.position + k) then (err out_of_data, item) else (
      decode (drop item.position item.content),
      record item { position = item.position + suc k },
    )

unfoldable pub byte : CipItem → Result ℕ × CipItem
unfolding next
byte = next 0 le_u8

unfoldable pub uint16 : CipItem → Result ℕ × CipItem
unfolding next
uint16 = next 1 le_u16

unfoldable pub uint32 : CipItem → Result ℕ × CipItem
unfolding next
uint32 = next 3 le_u32

unfoldable pub uint64 : CipItem → Result ℕ × CipItem
unfolding next
uint64 = next 7 le_u64

as_signed : ℕ → Result ℕ → Result ℤ
as_signed w (ok v) = ok (signed w v)
as_signed w (err e) = err e
as_signed w panic = panic

unfoldable pub int16 : CipItem → Result ℤ × CipItem
unfolding uint16 as_signed
int16 item = let (r, item') = uint16 item in (as_signed 16 r, item')

unfoldable pub int32 : CipItem → Result ℤ × CipItem
unfolding uint32 as_signed
int32 item = let (r, item') = uint32 item in (as_signed 32 r, item')

unfoldable pub int64 : CipItem → Result ℤ × CipItem
unfolding uint64 as_signed
int64 item = let (r, item') = uint64 item in (as_signed 64 r, item')

-- io.ReadFull asks Read again until it has `n` bytes: after a short first answer the second is
-- io.EOF, which it reports as io.ErrUnexpectedEOF. What was taken stays taken.
filled : ℕ → Result Bytes × CipItem → Result Bytes × CipItem
filled n (ok got, item') = if length got == n then (ok got, item') else (err unexpected_eof, item')
filled n (err e, item') = (err e, item')
filled n (panic, item') = (panic, item')

-- DeSerialize into a value of `n` bytes: binary.Read over the item.
unfoldable pub deserialize : ℕ → CipItem → Result Bytes × CipItem
unfolding read filled
deserialize n item = if n == 0 then (ok [], item) else filled n (read n item)

pub decoded : (Bytes → Result ℕ) → Result Bytes → Result ℕ
decoded f (ok b) = f b
decoded f (err e) = err e
decoded f panic = panic

-- Float32 and Float64 check the length and go through binary.Read. The float is kept as its bits.
unfoldable pub float32 : CipItem → Result ℕ × CipItem
float32 item =
    if leb (length item.content) (item.position + 3)
    then (err out_of_data, item)
    else (let (r, item') = deserialize 4 item in (decoded le_u32 r, item'))

unfoldable pub float64 : CipItem → Result ℕ × CipItem
float64 item =
    if leb (length item.content) (item.position + 7)
    then (err out_of_data, item)
    else (let (r, item') = deserialize 8 item in (decoded le_u64 r, item'))

-- CIPItem.Bytes: the header, then the data.
unfoldable pub bytes : CipItem → Bytes
bytes item = put_u16 item.id ++ (put_u16 item.header_length ++ item.content)

unfoldable pub bytes_all : List CipItem → Bytes
bytes_all [] = []
bytes_all (item ∷ items) = bytes item ++ bytes_all items

-- serializeItems: interface handle, sequence counter and count, then the items.
unfoldable pub serialize_items : List CipItem → Bytes
unfolding bytes bytes_all
serialize_items items =
    put_u32 0 ++ (put_u16 0 ++ (put_u16 (length items % 65536) ++ bytes_all items))

unfoldable pub read_item : Reader CipItem
read_item = do
  item_id ← read_u16
  len ← read_u16
  content ← read_full len
  pure (record { id = item_id; header_length = len; content = content; position = 0 })

-- The loop of readItems over the items that are left.
unfoldable pub read_items_loop : ℕ → Reader (List CipItem)
read_items_loop zero = pure []
read_items_loop (suc n) = do item ← read_item; items ← read_items_loop n; pure (item ∷ items)

unfoldable pub read_items : Reader (List CipItem)
unfolding read_items_loop
read_items = read_u16 >>= read_items_loop
