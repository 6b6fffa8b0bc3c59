-- ===== src/Identity.antt =====
-- server_listidentity.go: what the server answers to List Identity. The child Client reads it.
pub mod Client
pub mod Answer
use gologix.Base.{
  ℕ, ◌%◌, List, [], ◌∷◌, ◌++◌, Bool, Option, none, some, length, take, replicate, ltb,
  if◌then◌else◌,
}
use gologix.Base.Result.{Result, ok, err, wrong_type, ◌>>=◌}
use gologix.Wire.{Bytes, put_u8, put_u16, put_u16_be, put_u32}

-- A value in the server's map of attributes, by its Go type. Signed numbers are their bit patterns.
pub data AttributeValue : Type 0 where
  int16 : ℕ → AttributeValue
  uint32 : ℕ → AttributeValue
  string : Bytes → AttributeValue
  other_value : AttributeValue

abbrev pub as_int16 : Option AttributeValue → Result ℕ
as_int16 (some (int16 v)) = ok v
as_int16 (some (uint32 v)) = err wrong_type
as_int16 (some (string v)) = err wrong_type
as_int16 (some other_value) = err wrong_type
as_int16 none = err wrong_type

abbrev pub as_uint32 : Option AttributeValue → Result ℕ
as_uint32 (some (uint32 v)) = ok v
as_uint32 (some (int16 v)) = err wrong_type
as_uint32 (some (string v)) = err wrong_type
as_uint32 (some other_value) = err wrong_type
as_uint32 none = err wrong_type

abbrev pub as_string : Option AttributeValue → Result Bytes
as_string (some (string v)) = ok v
as_string (some (int16 v)) = err wrong_type
as_string (some (uint32 v)) = err wrong_type
as_string (some other_value) = err wrong_type
as_string none = err wrong_type

-- The four bytes of an IPv4 address.
pub record Ip4 : Type 0 where
  pub a : ℕ
  pub b : ℕ
  pub c : ℕ
  pub d : ℕ

-- What net.IP.To4 gives; an address of another kind leaves zeros.
abbrev pub addr_bytes : Option Ip4 → Bytes
addr_bytes none = 0 ∷ 0 ∷ 0 ∷ 0 ∷ []
addr_bytes (some ip) = ip.a ∷ ip.b ∷ ip.c ∷ ip.d ∷ []

abbrev pub short_name : Bytes → Bytes
short_name name = if ltb 255 (length name) then take 255 name else name

-- The bytes of the body, for attributes that have been found.
unfoldable pub body_bytes : ℕ → ℕ → ℕ → ℕ → ℕ → ℕ → Bytes → Option Ip4 → ℕ → Bytes
body_bytes vendor device_type product_code revision status serial name ip port =
    put_u16 1
    ++ (put_u16_be 2
        ++ (put_u16_be port
            ++ (addr_bytes ip
                ++ (replicate 8 0
                    ++ (put_u16 vendor
                        ++ (put_u16 device_type
                            ++ (put_u16 product_code
                                ++ (put_u16 revision
                                    ++ (put_u16 status
                                        ++ (put_u32 serial
                                            ++ (put_u8 (length name)
                                                ++ (name ++ (0xFF ∷ [])))))))))))))

-- buildListIdentityItemBody
unfoldable pub build_list_identity_item_body :
    (ℕ → Option AttributeValue) → Option Ip4 → ℕ → Result Bytes
unfolding body_bytes
build_list_identity_item_body attrs local_ip local_port = do
  vendor ← as_int16 (attrs 1)
  device_type ← as_int16 (attrs 2)
  product_code ← as_int16 (attrs 3)
  revision ← as_int16 (attrs 4)
  status ← as_int16 (attrs 5)
  serial ← as_uint32 (attrs 6)
  name ← as_string (attrs 7)
  ok (
      body_bytes vendor device_type product_code revision status serial (short_name name) local_ip
        local_port)

-- frameListIdentityResponse
unfoldable pub frame_list_identity_response : Bytes → Bytes
frame_list_identity_response item_body =
    put_u16 1 ++ (put_u16 0x000C ++ (put_u16 (length item_body % 65536) ++ item_body))
