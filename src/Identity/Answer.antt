-- ===== src/Identity/Answer.antt =====
-- The server's answer to List Identity (server_listidentity.go), read by the client (listidentity.go).
use gologix.Base.{
  ℕ, ◌+◌, ◌%◌, ◌<◌, ◌≡◌, refl, sym, ap, ◌∙◌, [], ◌∷◌, ◌++◌, Option, none, some, length, drop,
  replicate, ltb, arith, append-nil, length-append, length-take, Bool-cases, inl, inr,
}
use gologix.Base.Result.{ok}
use gologix.Wire.{Bytes, put_u16_be, of_u32, read_u8, read_u32_be}
use gologix.Wire.RoundTrip.{
  read_u8-put, read_u16-put, read_u16_be-put, read_u32-put, read_full-append,
}
use gologix.Item.{CipItem, read_items, serialize_items, bytes, bytes_all, reset}
use gologix.Item.ListRoundTrip.{IsFramed, read_items-serialize_items}
use gologix.Identity.{
  AttributeValue, int16, uint32, string, Ip4, addr_bytes, short_name, body_bytes,
  build_list_identity_item_body, frame_list_identity_response,
}
use gologix.Identity.Client.{
  ListIdentityResponse, read_socket_address, parse_from_bytes, list_identity, first_item, parsed,
}

-- The numbers of the Identity object, and its name.
pub record Identity : Type 0 where
  pub vendor : ℕ
  pub device_type : ℕ
  pub product_code : ℕ
  pub revision : ℕ
  pub status : ℕ
  pub serial_number : ℕ
  pub product_name : Bytes

-- The numbers fit their types.
pub record IsIdentity (x : Identity) : Type 0 where
  pub vendor_fits : x.vendor < 65536
  pub device_type_fits : x.device_type < 65536
  pub product_code_fits : x.product_code < 65536
  pub revision_fits : x.revision < 65536
  pub status_fits : x.status < 65536
  pub serial_number_fits : x.serial_number < 4294967296

-- The map has the attributes under their numbers.
pub record Holds (attrs : ℕ → Option AttributeValue) (x : Identity) : Type 0 where
  pub attr_1 : attrs 1 ≡ some (int16 x.vendor)
  pub attr_2 : attrs 2 ≡ some (int16 x.device_type)
  pub attr_3 : attrs 3 ≡ some (int16 x.product_code)
  pub attr_4 : attrs 4 ≡ some (int16 x.revision)
  pub attr_5 : attrs 5 ≡ some (int16 x.status)
  pub attr_6 : attrs 6 ≡ some (uint32 x.serial_number)
  pub attr_7 : attrs 7 ≡ some (string x.product_name)

abbrev pub body : Identity → Option Ip4 → ℕ → Bytes
body x ip port =
    body_bytes x.vendor x.device_type x.product_code x.revision x.status x.serial_number
      (short_name x.product_name) ip port

abbrev pub address : Option Ip4 → ℕ
address none = 0
address (some ip) = of_u32 ip.d ip.c ip.b ip.a

-- What a client should learn.
abbrev pub answer : Identity → Option Ip4 → ℕ → ListIdentityResponse
answer x ip port = record {
  encap_protocol_version = 1;
  socket_address = record { family = 2; port = port; address = address ip; zero0 = 0; zero1 = 0 };
  vendor = x.vendor;
  device_type = x.device_type;
  product_code = x.product_code;
  revision = x.revision;
  status = x.status;
  serial_number = x.serial_number;
  product_name = short_name x.product_name;
  state = 0xFF;
}

pub built :
    (attrs : ℕ → Option AttributeValue) (x : Identity) (ip : Option Ip4) (port : ℕ)
    → Holds attrs x
    → build_list_identity_item_body attrs ip port ≡ ok (body x ip port)
unfolding build_list_identity_item_body
built attrs x ip port h =
    rw (h.attr_1, h.attr_2, h.attr_3, h.attr_4, h.attr_5, h.attr_6, h.attr_7) refl

short_name_fits : (name : Bytes) → length (short_name name) < 256
short_name_fits name = elim (Bool-cases (ltb 255 (length name))) [
  | inl e ↦ rw e (omega (arith, length-take 255 name))
  | inr e ↦ rw e (ground arith)
]

socket_read :
    (ip : Option Ip4) (port : ℕ) (more : Bytes)
    → port < 65536
    → read_socket_address
        (put_u16_be 2 ++ (put_u16_be port ++ (addr_bytes ip ++ (replicate 8 0 ++ more))))
      ≡ ok (record { family = 2; port = port; address = address ip; zero0 = 0; zero1 = 0 }, more)
unfolding read_socket_address read_u32_be
socket_read none port more h = rw (read_u16_be-put 2 _ (omega arith), read_u16_be-put port _ h) refl
socket_read (some ip) port more h =
    rw (read_u16_be-put 2 _ (omega arith), read_u16_be-put port _ h) refl

last_byte : read_u8 (0xFF ∷ []) ≡ ok (0xFF, [])
unfolding read_u8
last_byte = refl

pub body_parsed :
    (x : Identity) (ip : Option Ip4) (port : ℕ)
    → IsIdentity x
    → port < 65536
    → parse_from_bytes (body x ip port) ≡ ok (answer x ip port, [])
unfolding parse_from_bytes body_bytes
body_parsed x ip port h p =
    rw
      (
        read_u16-put 1 _ (omega arith),
        socket_read ip port _ p,
        read_u16-put x.vendor _ h.vendor_fits,
        read_u16-put x.device_type _ h.device_type_fits,
        read_u16-put x.product_code _ h.product_code_fits,
        read_u16-put x.revision _ h.revision_fits,
        read_u16-put x.status _ h.status_fits,
        read_u32-put x.serial_number _ h.serial_number_fits,
        read_u8-put (length (short_name x.product_name)) _ (short_name_fits x.product_name),
        read_full-append (length (short_name x.product_name)) (short_name x.product_name)
            (0xFF ∷ []) refl,
        last_byte,
      )
      refl

pub body_fits : (x : Identity) (ip : Option Ip4) (port : ℕ) → length (body x ip port) < 400
unfolding body_bytes
body_fits x none port =
    omega
      (arith, length-append (short_name x.product_name) (0xFF ∷ []), short_name_fits x.product_name)
body_fits x (some ip) port =
    omega
      (arith, length-append (short_name x.product_name) (0xFF ∷ []), short_name_fits x.product_name)

abbrev item_of : Bytes → CipItem
item_of b = record { id = 12; header_length = length b; content = b; position = 0 }

pub frame_length : (b : Bytes) → length (frame_list_identity_response b) ≡ length b + 6
unfolding frame_list_identity_response
frame_length b = omega arith

pub frame_read :
    (b : Bytes)
    → length b < 65536
    → read_items (frame_list_identity_response b) ≡ ok (item_of b ∷ [], [])
unfolding frame_list_identity_response serialize_items bytes bytes_all reset
frame_read b h =
    let fits : length b % 65536 ≡ length b = omega arith in
    let framed : IsFramed (item_of b) = record {
      id_fits = omega arith;
      length_fits = h;
      length_matches = refl;
    } in
    let same : drop 6 (serialize_items (item_of b ∷ [])) ++ [] ≡ frame_list_identity_response b =
      rw fits (simp append-nil) in
    ap read_items (sym same)
    ∙ read_items-serialize_items (item_of b ∷ []) [] (omega arith) (framed, tt)

-- Where the server's map holds the seven attributes of the Identity object, each under its number, with
-- its type and within its range, the server builds a body, and what the client's ListIdentity returns of the framed
-- body is the server's address and port, protocol version 1, each of the attributes, the name cut to
-- 255 bytes, and state 0xFF.
pub list_identity-build :
    (attrs : ℕ → Option AttributeValue) (x : Identity) (ip : Option Ip4) (port : ℕ)
    → Holds attrs x
    → IsIdentity x
    → port < 65536
    → (b : Bytes) × (build_list_identity_item_body attrs ip port ≡ ok b)
      × (list_identity (frame_list_identity_response b) ≡ ok (answer x ip port))
unfolding list_identity first_item parsed
list_identity-build attrs x ip port g h p = (
  body x ip port,
  built attrs x ip port g,
  rw (frame_read (body x ip port) (omega (arith, body_fits x ip port)), body_parsed x ip port h p)
      refl,
)
