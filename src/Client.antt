-- ===== src/Client.antt =====
-- sendreceive.go, connect.go, listservices.go and listidentity.go: the session of the client, and the commands
-- that need no connection.
pub mod Framing
pub mod Served
pub mod Handshake
pub mod Opening
pub mod Opened
pub mod Connecting
pub mod Discovery
mod Tests
use gologix.Base.{ℕ, suc, ◌%◌, List, [], ◌∷◌, ◌++◌, length, ◌==◌, if◌then◌else◌}
use gologix.Base.Result.{Result, ok, err, panic}
use gologix.Wire.{Bytes, Reader, read_u16, read_full, pure, ◌>>=◌}
use gologix.Item.{CipItem, read_items}
use gologix.Identity.Client.{ListIdentityResponse, list_identity}
use gologix.Server.Messages.{EipHeader, header_bytes, read_header, register_bytes}

-- The fields of Client that a session uses, with those of its Controller and the counter of connection serial
-- numbers, which all clients share. The RPI is in microseconds.
pub record Client : Type 0 where
  pub session_handle : ℕ
  pub ot_network_connection_id : ℕ
  pub header_sequence_counter : ℕ
  pub connection_size : ℕ
  pub connection_serial_number : ℕ
  pub context : ℕ
  pub sequence_number : ℕ
  pub connection_serial_value : ℕ
  pub path : Bytes
  pub vendor_id : ℕ
  pub serial_number : ℕ
  pub rpi : ℕ

-- newEIPHeader
unfoldable pub new_eip_header : ℕ → ℕ → Client → EipHeader × Client
new_eip_header cmd size c = (
  record {
    command = cmd;
    length = size % 65536;
    session_handle = c.session_handle;
    status = 0;
    context = c.context;
    options = 0;
  },
  record c { header_sequence_counter = suc c.header_sequence_counter % 65536 },
)

-- sendMsgBuild, of the bytes of the messages.
unfoldable pub send_msg_build : ℕ → Bytes → Client → Bytes × Client
unfolding new_eip_header
send_msg_build cmd msg c =
    let (hdr, counted) = new_eip_header cmd (length msg) c in (header_bytes hdr ++ msg, counted)

-- recvData, of the bytes that arrive: the header, and as many bytes as it counts.
unfoldable pub recv_data : Reader (EipHeader × Bytes)
recv_data = do hdr ← read_header; content ← read_full hdr.length; pure (hdr, content)

-- The socket gives what arrives after a message is written, or an error. An error of either disconnects.
module _ (exchange : Bytes → Result Bytes) (disconnect : Client → Client) where
  unfoldable pub received :
      Result ((EipHeader × Bytes) × Bytes) → Client → Result (EipHeader × Bytes) × Client
  received (ok (reply, rest)) c = (ok reply, c)
  received (err e) c = (err e, disconnect c)
  received panic c = (panic, c)

  unfoldable pub replied : Result Bytes → Client → Result (EipHeader × Bytes) × Client
  unfolding received
  replied (ok b) c = received (recv_data b) c
  replied (err e) c = (err e, disconnect c)
  replied panic c = (panic, c)

  -- send_recv_data
  unfoldable pub send_recv_data : ℕ → Bytes → Client → Result (EipHeader × Bytes) × Client
  unfolding replied
  send_recv_data cmd msg c =
      let (b, counted) = send_msg_build cmd msg c in replied (exchange b) counted

  unfoldable pub with_handle : Result (EipHeader × Bytes) × Client → Result (Unit {0}) × Client
  with_handle (ok (hdr, b), c) = (ok tt, record c { session_handle = hdr.session_handle })
  with_handle (err e, c) = (err e, c)
  with_handle (panic, c) = (panic, c)

  -- registerSession
  unfoldable pub register_session : Client → Result (Unit {0}) × Client
  unfolding with_handle
  register_session c =
      with_handle
        (send_recv_data 0x65 (register_bytes (record { protocol_version = 1; option_flag = 0 })) c)

-- Removing the zero bytes at the end, as `bytes.TrimRight` does.
unfoldable pub trim_right : Bytes → Bytes
trim_right [] = []
trim_right (b ∷ bs) = trimmed b (trim_right bs)
  where
    trimmed : ℕ → Bytes → Bytes
    trimmed b [] = if b == 0 then [] else b ∷ []
    trimmed b (x ∷ xs) = b ∷ x ∷ xs

-- CIPListService
pub record CipListService : Type 0 where
  pub encap_protocol_version : ℕ
  pub capabilities : ℕ
  pub name : Bytes

-- ParseFromBytes
unfoldable pub parse_from_bytes : Reader CipListService
unfolding trim_right
parse_from_bytes = do
  version ← read_u16
  capabilities ← read_u16
  name ← read_full 16
  pure (record {
    encap_protocol_version = version;
    capabilities = capabilities;
    name = trim_right name;
  })

-- The loop of ListServices over the items.
unfoldable pub parse_services : List CipItem → Result (List CipListService)
parse_services [] = ok []
parse_services (item ∷ items) =
    let rest = parse_services items in
    elim (parse_from_bytes item.content) [
      | ok parsed ↦ elim rest [
        | ok services ↦ ok (parsed.0 ∷ services)
        | err e ↦ err e
        | panic ↦ panic
      ]
      | err e ↦ err e
      | panic ↦ panic
    ]

unfoldable pub items_services : Result (List CipItem × Bytes) → Result (List CipListService)
items_services (ok (items, rest)) = parse_services items
items_services (err e) = err e
items_services panic = panic

unfoldable pub and_parse :
    {A : Type 0} → (Bytes → Result A) → Result (EipHeader × Bytes) × Client → Result A × Client
and_parse parse (ok (hdr, reply), c) = (parse reply, c)
and_parse parse (err e, c) = (err e, c)
and_parse parse (panic, c) = (panic, c)

module _ (exchange : Bytes → Result Bytes) (disconnect : Client → Client) where
  -- ListServices
  unfoldable pub list_services : Client → Result (List CipListService) × Client
  unfolding and_parse items_services
  list_services c =
      and_parse (λ reply. items_services (read_items reply))
        (send_recv_data exchange disconnect 0x04 [] c)

  -- ListIdentity
  unfoldable pub request_identity : Client → Result ListIdentityResponse × Client
  unfolding and_parse
  request_identity c = and_parse list_identity (send_recv_data exchange disconnect 0x63 [] c)
