-- ===== src/Client/Opening.antt =====
-- connect.go and client.go: how the client opens its connection.
use gologix.Base.{
  ℕ, zero, suc, ◌+◌, ◌/◌, ◌*◌, ◌%◌, List, [], ◌∷◌, ◌++◌, length, ltb, ◌==◌, if◌then◌else◌,
}
use gologix.Base.Result.{Result, ok, err, panic, bad_status, no_item}
use gologix.Wire.{
  Bytes, Reader, put_u8, put_u16, put_u32, read_u8, read_u16, read_u32, read_full, pure, fail,
  ◌>>=◌,
}
use gologix.Item.{CipItem, serialize_items}
use gologix.Item.Payload.{fixed_size, new_item}
use gologix.Segment.Class
use gologix.Segment.Instance
use gologix.Server.Messages.{EipHeader, read_command_data}
use gologix.Client.{Client, send_recv_data}

-- The loop of nextConnectionSerialNumber over the shared counter: a serial number, and the counter. Two rounds
-- are enough, since the number behind 0 is 1.
unfoldable pub serial_loop : ℕ → ℕ → ℕ × ℕ
serial_loop zero value = (0, value)
serial_loop (suc fuel) value =
    let counted = suc value % 4294967296 in
    let again = serial_loop fuel counted in
    if counted % 65536 == 0 then again else (counted % 65536, counted)

unfoldable pub next_connection_serial_number : ℕ → ℕ × ℕ
unfolding serial_loop
next_connection_serial_number value = serial_loop 2 value

-- The fields of cipForwardOpen that differ between messages; both directions have the same interval and
-- parameters.
pub record OpenRequest : Type 0 where
  pub service : ℕ
  pub priority : ℕ
  pub timeout_ticks : ℕ
  pub ot : ℕ
  pub to : ℕ
  pub serial : ℕ
  pub vendor : ℕ
  pub originator : ℕ
  pub multiplier : ℕ
  pub rpi : ℕ
  pub params : ℕ
  pub path_size : ℕ

-- The width of the parameters is that of the type argument of cipForwardOpen.
unfoldable pub open_bytes : (ℕ → Bytes) → OpenRequest → Bytes
open_bytes put_params m =
    m.service
    ∷ 2
    ∷ 0x20
    ∷ 6
    ∷ 0x24
    ∷ 1
    ∷ m.priority
    ∷ m.timeout_ticks
    ∷ (put_u32 m.ot
        ++ (put_u32 m.to
            ++ (put_u16 m.serial
                ++ (put_u16 m.vendor
                    ++ (put_u32 m.originator
                        ++ (put_u32 m.multiplier
                            ++ (put_u32 m.rpi
                                ++ (put_params m.params
                                    ++ (put_u32 m.rpi
                                        ++ (put_params m.params
                                            ++ 0xA3 ∷ put_u8 m.path_size))))))))))

-- The path of the connection: the one to the controller, and its message router.
unfoldable pub connection_path : Client → Bytes
connection_path c = c.path ++ (Class.bytes 2 ++ Instance.bytes 1)

abbrev pub next : ℕ → ℕ
next sequence_number = suc sequence_number % 4294967296

-- The request with the next IDs and serial number.
unfoldable pub open_request : ℕ → ℕ → ℕ → ℕ → ℕ → Client → OpenRequest
open_request service priority timeout_ticks multiplier params c = record {
  service = service;
  priority = priority;
  timeout_ticks = timeout_ticks;
  ot = next c.sequence_number;
  to = next (next c.sequence_number);
  serial = (next_connection_serial_number c.connection_serial_value).0;
  vendor = c.vendor_id;
  originator = c.serial_number;
  multiplier = multiplier;
  rpi = c.rpi % 4294967296;
  params = params;
  path_size = length (connection_path c) / 2 % 256;
}

-- The client behind the building of a request.
unfoldable pub numbered : Client → Client
unfolding next_connection_serial_number
numbered c =
    let (serial, value) = next_connection_serial_number c.connection_serial_value in
    record c {
      connection_serial_number = serial;
      connection_serial_value = value;
      sequence_number = next (next c.sequence_number);
    }

unfoldable pub with_size : ℕ → Client → Client
with_size default c = if c.connection_size == 0 then record c { connection_size = default } else c

-- newForwardOpenLarge. The flags of the parameters stand above the 16 bits of the size.
unfoldable pub new_forward_open_large : Client → CipItem × Client
unfolding numbered open_request
new_forward_open_large c0 =
    let c = with_size 4000 c0 in
    (
      new_item 0xB2 (
          fixed_size
            (open_bytes put_u32 (open_request 0x5B 0x0A 0x0E 3 (0x42000000 + c.connection_size) c))
          ∷ fixed_size (connection_path c)
          ∷ []),
      numbered c,
    )

-- `connSizeStandardMax`
unfoldable pub at_most_standard : Client → Client
at_most_standard c = if ltb 511 c.connection_size then record c { connection_size = 511 } else c

-- newForwardOpenStandard. The flags of the parameters stand above the 9 bits of the size.
unfoldable pub new_forward_open_standard : Client → CipItem × Client
unfolding numbered open_request at_most_standard
new_forward_open_standard c0 =
    let c = at_most_standard (with_size 511 c0) in
    (
      new_item 0xB2 (
          fixed_size
            (open_bytes put_u16 (open_request 0x54 0x07 0xE9 0 (0x4200 + c.connection_size) c))
          ∷ fixed_size (connection_path c)
          ∷ []),
      numbered c,
    )

unfoldable pub second_item : List CipItem → Result CipItem
second_item (a ∷ b ∷ items) = ok b
second_item (a ∷ []) = err no_item
second_item [] = err no_item

-- The header of a router's response in an item; a status that is not 0 is an error.
unfoldable pub read_router_response : Reader (Unit {0})
read_router_response = do
  service ← read_u8
  reserved ← read_u8
  status ← read_u8
  status_len ← read_u8
  extended_status ← read_full (2 * status_len)
  if status == 0 then pure tt else fail bad_status

unfoldable pub router_response : Result CipItem → Result Bytes
unfolding read_router_response
router_response (ok item) = elim (read_router_response item.content) [
  | ok answered ↦ ok answered.1
  | err e ↦ err e
  | panic ↦ panic
]
router_response (err e) = err e
router_response panic = panic

unfoldable pub response_items : Result (List CipItem × Bytes) → Result Bytes
unfolding router_response second_item
response_items (ok (items, rest)) = router_response (second_item items)
response_items (err e) = err e
response_items panic = panic

-- parseResponse: what the second item has behind its header.
unfoldable pub parse_response : EipHeader → Bytes → Result Bytes
unfolding response_items
parse_response header reply =
    if header.status == 0 then response_items (read_command_data reply) else err bad_status

-- msgCipForwardOpenReply, of which the O->T ID is used.
unfoldable pub read_open_reply : Reader ℕ
read_open_reply = do
  ot ← read_u32
  to ← read_u32
  serial ← read_u16
  vendor ← read_u16
  originator ← read_u32
  ot_api ← read_u32
  to_api ← read_u32
  application_reply ← read_u8
  reserved ← read_u8
  pure ot

unfoldable pub read_ot : Result Bytes → Result (ℕ × Bytes)
read_ot (ok b) = read_open_reply b
read_ot (err e) = err e
read_ot panic = panic

unfoldable pub set_ot : Result (ℕ × Bytes) → Client → Result (Unit {0}) × Client
set_ot (ok (ot, rest)) c = (ok tt, record c { ot_network_connection_id = ot })
set_ot (err e) c = (err e, c)
set_ot panic c = (panic, c)

unfoldable pub opened : Result (EipHeader × Bytes) × Client → Result (Unit {0}) × Client
unfolding set_ot read_ot
opened (ok (header, reply), c) = set_ot (read_ot (parse_response header reply)) c
opened (err e, c) = (err e, c)
opened (panic, c) = (panic, c)

module _ (exchange : Bytes → Result Bytes) (disconnect : Client → Client) where
  -- forwardOpen
  unfoldable pub forward_open : CipItem → Client → Result (Unit {0}) × Client
  unfolding opened
  forward_open forward_open_msg c = opened (
      send_recv_data exchange disconnect 0x6F
        (serialize_items (new_item 0 [] ∷ forward_open_msg ∷ [])) c)

  unfoldable pub open_standard : Client → Result (Unit {0}) × Client
  unfolding forward_open
  open_standard c = let (item, numbered) = new_forward_open_standard c in forward_open item numbered

  -- Where the large one fails, the size of the standard one is taken.
  unfoldable pub or_standard : Result (Unit {0}) × Client → Result (Unit {0}) × Client
  unfolding open_standard
  or_standard (err e, c) = open_standard (record c { connection_size = 511 })
  or_standard (panic, c) = (panic, c)
  or_standard (ok u, c) = if ltb 511 c.connection_size then (ok u, c) else open_standard c

  -- The part of Connect that opens the connection.
  unfoldable pub open_connection : Client → Result (Unit {0}) × Client
  unfolding or_standard open_standard forward_open
  open_connection c =
      if ltb 511 c.connection_size
      then (let (item, numbered) = new_forward_open_large c in
          or_standard (forward_open item numbered))
      else open_standard c
