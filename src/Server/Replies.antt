-- ===== src/Server/Replies.antt =====
-- server.go, server_connected.go, server_unconnected.go: the packets that a handler sends.
use gologix.Base.{ℕ, ◌+◌, ◌%◌, List, [], ◌∷◌, ◌++◌, length, ltb, if◌then◌else◌}
use gologix.Base.Result.{Result, ok, err, panic, broken_connection}
use gologix.Wire.{Bytes, put_u16, put_u32}
use gologix.Item.{CipItem, serialize_items}
use gologix.Item.Payload.{Payload, fixed_size, serialize, new_item}
use gologix.Server.Session.{Session, Action, lift}
use gologix.Server.Messages.{EipHeader, header_bytes}

abbrev pub command_register_session : ℕ
command_register_session = 0x65

abbrev pub command_send_rr_data : ℕ
command_send_rr_data = 0x6F

abbrev pub command_send_unit_data : ℕ
command_send_unit_data = 0x70

-- `s | 0b10000000` of a byte.
unfoldable pub as_response : ℕ → ℕ
as_response s = if ltb s 128 then s + 128 else s

module _ {W : Type 0} where
  -- newEIPHeader
  unfoldable pub new_eip_header : ℕ → ℕ → Session W → EipHeader
  new_eip_header cmd size s = record {
    command = cmd;
    length = size % 65536;
    session_handle = s.handle;
    status = 0;
    context = s.context;
    options = s.options;
  }

  -- The packet that `send` writes.
  unfoldable pub packet : ℕ → Bytes → Session W → Bytes
  unfolding new_eip_header header_bytes
  packet cmd msg s = header_bytes (new_eip_header cmd (length msg) s) ++ msg

  -- send: the loop of writes ends with the whole packet written, or with an error of the connection.
  unfoldable pub send : ℕ → Bytes → Action W (Unit {0})
  send cmd msg s =
      if s.writable
      then (ok tt, record s { sent = s.sent ++ packet cmd msg s ∷ [] })
      else (err broken_connection, s)

  -- What the builders of replies do behind the serializing of the second item.
  unfoldable pub send_items : ℕ → CipItem → Result (Unit {0}) × CipItem → Action W (Unit {0})
  send_items cmd item0 (ok u, item1) = send cmd (serialize_items (item0 ∷ item1 ∷ []))
  send_items cmd item0 (err e, item1) = lift (err e)
  send_items cmd item0 (panic, item1) = lift panic

  -- sendConnectedReply. msgUnconnWriteResultHeader is the service, a reserved byte and the status.
  unfoldable pub send_connected_reply : ℕ → ℕ → ℕ → List Payload → Action W (Unit {0})
  unfolding send_items
  send_connected_reply service seq conn_id payload =
      send_items command_send_unit_data (new_item 0xA1 (fixed_size (put_u32 conn_id) ∷ [])) (
        serialize (fixed_size (as_response service ∷ 0 ∷ 0 ∷ 0 ∷ []) ∷ payload)
          (new_item 0xB1 (fixed_size (put_u16 seq) ∷ [])))

  -- sendConnectedError
  unfoldable pub send_connected_error : ℕ → ℕ → ℕ → ℕ → ℕ → Action W (Unit {0})
  unfolding send_items
  send_connected_error service seq conn_id status extended =
      send_items command_send_unit_data (new_item 0xA1 (fixed_size (put_u32 conn_id) ∷ [])) (
        serialize (fixed_size (as_response service ∷ 0 ∷ status ∷ extended ∷ []) ∷ [])
          (new_item 0xB1 (fixed_size (put_u16 seq) ∷ [])))

  -- The items of the replies on the handler's own connection; msgWriteResultHeader begins with the sequence
  -- number.
  unfoldable pub unit_data_reply : ℕ → ℕ → List Payload → Action W (Unit {0})
  unfolding send_items
  unit_data_reply service status payload s =
      send_items command_send_unit_data (new_item 0xA1 (fixed_size (put_u32 s.to) ∷ []))
        (serialize
          (fixed_size (put_u16 s.sequencer ++ as_response service ∷ 0 ∷ status ∷ 0 ∷ []) ∷ payload)
          (new_item 0xB1 []))
        s

  -- sendUnitDataReply
  unfoldable pub send_unit_data_reply : ℕ → Action W (Unit {0})
  unfolding unit_data_reply
  send_unit_data_reply service = unit_data_reply service 0 []

  -- sendUnitDataReplyWithPayload
  unfoldable pub send_unit_data_reply_with_payload : ℕ → Bytes → Action W (Unit {0})
  unfolding unit_data_reply
  send_unit_data_reply_with_payload service payload =
      unit_data_reply service 0 (fixed_size payload ∷ [])

  -- sendUnitDataErrorReply
  unfoldable pub send_unit_data_error_reply : ℕ → ℕ → Action W (Unit {0})
  unfolding unit_data_reply
  send_unit_data_error_reply service status = unit_data_reply service status []

  -- sendUnconnectedRRDataReply
  unfoldable pub send_unconnected_rr_data_reply : ℕ → List Payload → Action W (Unit {0})
  unfolding send_items
  send_unconnected_rr_data_reply service payload =
      send_items command_send_rr_data (new_item 0 [])
        (serialize (fixed_size (as_response service ∷ 0 ∷ 0 ∷ 0 ∷ []) ∷ payload) (new_item 0xB2 []))

  -- sendUnconnectedErrorReply
  unfoldable pub send_unconnected_error_reply : ℕ → ℕ → Action W (Unit {0})
  unfolding send_items
  send_unconnected_error_reply service status =
      send_items command_send_rr_data (new_item 0 [])
        (serialize (fixed_size (as_response service ∷ 0 ∷ status ∷ 0 ∷ []) ∷ []) (new_item 0xB2 []))
