-- ===== src/Identity/Client.antt =====
-- listidentity.go: what the client reads of an answer to List Identity.
use gologix.Base.{ℕ, List, [], ◌∷◌}
use gologix.Base.Result.{Result, ok, err, panic, out_of_range}
use gologix.Wire.{
  Bytes, Reader, read_u8, read_u16, read_u16_be, read_u32, read_u32_be, read_full, pure, ◌>>=◌,
}
use gologix.Item.{CipItem, read_items}

-- listIdentitySocketAddress
pub record SocketAddress : Type 0 where
  pub family : ℕ
  pub port : ℕ
  pub address : ℕ
  pub zero0 : ℕ
  pub zero1 : ℕ

-- listIdentityResponeBody
pub record ListIdentityResponse : Type 0 where
  pub encap_protocol_version : ℕ
  pub socket_address : SocketAddress
  pub vendor : ℕ
  pub device_type : ℕ
  pub product_code : ℕ
  pub revision : ℕ
  pub status : ℕ
  pub serial_number : ℕ
  pub product_name : Bytes
  pub state : ℕ

-- The socket address is read in network order.
unfoldable pub read_socket_address : Reader SocketAddress
read_socket_address = do
  family ← read_u16_be
  port ← read_u16_be
  address ← read_u32_be
  zero0 ← read_u32_be
  zero1 ← read_u32_be
  pure (record { family = family; port = port; address = address; zero0 = zero0; zero1 = zero1 })

-- ParseFromBytes
unfoldable pub parse_from_bytes : Reader ListIdentityResponse
unfolding read_socket_address
parse_from_bytes = do
  version ← read_u16
  socket ← read_socket_address
  vendor ← read_u16
  device_type ← read_u16
  product_code ← read_u16
  revision ← read_u16
  status ← read_u16
  serial ← read_u32
  len ← read_u8
  name ← read_full len
  state ← read_u8
  pure (record {
    encap_protocol_version = version;
    socket_address = socket;
    vendor = vendor;
    device_type = device_type;
    product_code = product_code;
    revision = revision;
    status = status;
    serial_number = serial;
    product_name = name;
    state = state;
  })

unfoldable pub parsed : Result (ListIdentityResponse × Bytes) → Result ListIdentityResponse
parsed (ok (response, rest)) = ok response
parsed (err e) = err e
parsed panic = panic

unfoldable pub first_item : Result (List CipItem × Bytes) → Result ListIdentityResponse
unfolding parsed
first_item (ok (item ∷ items, rest)) = parsed (parse_from_bytes item.content)
first_item (ok ([], rest)) = err out_of_range
first_item (err e) = err e
first_item panic = panic

-- ListIdentity, of the reply's bytes: the first item is the one that is parsed.
unfoldable pub list_identity : Bytes → Result ListIdentityResponse
unfolding first_item
list_identity reply = first_item (read_items reply)
