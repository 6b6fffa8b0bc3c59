-- ===== src/Server/Writes.antt =====
-- server_connected.go: the values of a write request (parseWriteValues), and a STRING on the wire
-- (cipStringPacker).
use gologix.Base.{ℕ, zero, suc, List, [], ◌∷◌, ◌++◌, length, take, ltb, ◌==◌, if◌then◌else◌}
use gologix.Base.Result.{wrong_type}
use gologix.Wire.{
  Bytes, Reader, put_u16, put_u32, of_u16, read_u8, read_u16, read_u32, read_full, pure, fail,
  ◌>>=◌,
}
use gologix.Item.Payload.{slot}
use gologix.Types.{cip_type_struct}
use gologix.Types.Values.{read_value}
use gologix.Server.Session.{Element, plain, string}

abbrev pub cip_string_struct_crc : ℕ
cip_string_struct_crc = 0x0FCE

abbrev pub cip_string_data_len : ℕ
cip_string_data_len = 82

-- `if l > cipStringDataLen { l = cipStringDataLen }`
abbrev pub clamp : ℕ → ℕ
clamp l = if ltb cip_string_data_len l then cip_string_data_len else l

-- cipStringPacker.Bytes: the type, the length, the data and two bytes of padding.
unfoldable pub cip_string_packer : Bytes → Bytes
cip_string_packer c =
    0xA0
    ∷ 0x02
    ∷ (put_u16 cip_string_struct_crc
        ++ (put_u32 (clamp (length c)) ++ (slot cip_string_data_len c ++ 0 ∷ 0 ∷ [])))

-- `structCRC`
unfoldable pub struct_crc : ℕ → Bytes → ℕ
struct_crc typ (a ∷ b ∷ info) = if typ == cip_type_struct then of_u16 a b else 0
struct_crc typ (a ∷ []) = 0
struct_crc typ [] = 0

unfoldable pub read_string : Reader Element
read_string = do
  slen ← read_u32
  content ← read_full cip_string_data_len
  pure (string (take (clamp slen) content))

unfoldable pub read_strings : ℕ → Reader (List Element)
unfolding read_string
read_strings zero = pure []
read_strings (suc qty) = do s ← read_string; ss ← read_strings qty; pure (s ∷ ss)

unfoldable pub read_plain : ℕ → ℕ → Reader (List Element)
read_plain typ zero = pure []
read_plain typ (suc qty) = do v ← read_value typ; vs ← read_plain typ qty; pure (plain v ∷ vs)

-- parseWriteValues. Where the segment has no type information, DeSerialize reads nothing.
unfoldable pub parse_write_values : Reader (List Element)
unfolding struct_crc read_strings read_plain
parse_write_values = do
  typ ← read_u8
  type_info_len ← read_u8
  type_info ← read_full type_info_len
  qty ← read_u16
  (if typ == cip_type_struct
      then (if struct_crc typ type_info == cip_string_struct_crc
          then read_strings qty
          else fail wrong_type)
      else read_plain typ qty)
