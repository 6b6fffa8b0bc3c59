-- ===== src/Server/Serve.antt =====
-- server.go, server_unconnected.go, server_listidentity.go: which handler a request goes to, and the loop of a
-- connection.
use gologix.Base.{ℕ, zero, suc, ◌*◌, ◌%◌, ◌++◌, Option, none, some, ◌==◌, if◌then◌else◌}
use gologix.Base.Result.{Result, ok, err, panic, wrong_type}
use gologix.Wire.{Bytes, put_u16, read_u8, read_u16, read_u32, read_full}
use gologix.Text.{codes}
use gologix.Item.{CipItem}
use gologix.Identity.{build_list_identity_item_body, frame_list_identity_response}
use gologix.Server.Session.{Session, Action, Env, lift, fail, receive, pure, ◌>>=◌}
use gologix.Server.Messages.{EipHeader, read_header, read_command_data}
use gologix.Server.Replies.{
  send, send_unit_data_error_reply, send_unconnected_error_reply, command_register_session,
  command_send_rr_data, command_send_unit_data,
}
use gologix.Server.Access.{two_items}
use gologix.Server.Connected.{
  connected_read, cip_connected_write, connected_get_attr, connected_get_attribute_all,
  connected_symbol_list,
}
use gologix.Server.Multi.{connected_multi}
use gologix.Server.Unconnected.{
  unconnected_service_write, unconnected_service_read, unconnected_get_attribute_all,
  unconnected_service_get_attr_single, unconnected_service_set_attr_single,
}
use gologix.Server.Opening.{forward_open, large_forward_open, forward_close, register_session}

abbrev command_list_services : ℕ
command_list_services = 0x04

abbrev command_list_identity : ℕ
command_list_identity = 0x63

-- listServicesReply: one service, with its type, length, version, flags and name.
unfoldable pub list_services_reply : Bytes
list_services_reply =
    put_u16 1
    ++ (put_u16 0x0100
        ++ (put_u16 10 ++ (put_u16 1 ++ (put_u16 0x0120 ++ codes "Communications  "))))

-- What serve returns, and the session that it leaves.
abbrev pub Outcome : Type 0 → Type 0
Outcome W = Option (Result (Unit {0}) × Session W)

-- A round without an error is followed by the next one; an error or a panic is what serve ends with.
unfoldable pub next_round :
    {W : Type 0} → (Session W → Outcome W) → Result (Unit {0}) × Session W → Outcome W
next_round again (ok u, s) = again s
next_round again (err e, s) = some (err e, s)
next_round again (panic, s) = some (panic, s)

module _ {W E : Type 0} (env : Env W E) where
  -- The handler of a service on an open connection; an unknown service is answered with an error.
  unfoldable pub unit_data_service : ℕ → CipItem → CipItem → Bytes → Action W (Unit {0})
  unit_data_service service item0 item1 b =
      if service == 0x4D
      then cip_connected_write env item0 b
      else if service == 0x52
      then connected_read env 0x52 item0 item1
      else if service == 0x4C
      then connected_read env 0x4C item0 item1
      else if service == 0x0A
      then connected_multi env item0 item1
      else if service == 0x0E
      then connected_get_attr env item0 item1
      else if service == 0x01
      then connected_get_attribute_all env item1
      else if service == 0x55
      then connected_symbol_list env item0
      else send_unit_data_error_reply service 0x08

  unfoldable pub set_sequencer : ℕ → Action W (Unit {0})
  set_sequencer seq s = (ok tt, record s { sequencer = seq })

  -- sendUnitData
  unfoldable pub send_unit_data : Action W (Unit {0})
  send_unit_data = do
    items ← receive read_command_data
    pair ← lift (two_items items)
    address ← (if pair.0.id == 0xA1 then lift (ok tt) else fail {A = Unit {0}} wrong_type)
    conn_id ← lift (read_u32 pair.0.content)
    seq ← lift (read_u16 pair.1.content)
    kept ← set_sequencer seq.0
    service ← lift (read_u8 seq.1)
    unit_data_service service.0 pair.0 pair.1 service.1

  -- The service inside an Unconnected Send.
  unfoldable pub embedded_service : ℕ → Bytes → Action W (Unit {0})
  embedded_service service b =
      if service == 0x4D
      then unconnected_service_write env b
      else if service == 0x4C
      then unconnected_service_read env b
      else if service == 0x0E
      then unconnected_service_get_attr_single env b
      else if service == 0x10
      then unconnected_service_set_attr_single env b
      else if service == 0x01
      then unconnected_get_attribute_all env b
      else send_unconnected_error_reply service 0x08

  -- Unconnected Send, behind its service. `pathsize*2` is a byte.
  unfoldable pub unconnected_send : Bytes → Action W (Unit {0})
  unconnected_send b = do
    pathsize ← lift (read_u8 b)
    path ← lift (read_full (pathsize.0 * 2 % 256) pathsize.1)
    timeout ← lift (read_u16 path.1)
    embedded_size ← lift (read_u16 timeout.1)
    service ← lift (read_u8 embedded_size.1)
    embedded_service service.0 service.1

  -- unconnectedData: the service's code, and the data behind it or, for the connections, with it.
  unfoldable pub unconnected_service : ℕ → Bytes → Bytes → Action W (Unit {0})
  unconnected_service service whole b =
      if service == 0x54
      then forward_open env whole
      else if service == 0x5B
      then large_forward_open env whole
      else if service == 0x4E
      then forward_close env whole
      else if service == 0x01
      then unconnected_get_attribute_all env b
      else if service == 0x0E
      then unconnected_service_get_attr_single env b
      else if service == 0x10
      then unconnected_service_set_attr_single env b
      else if service == 0x52
      then unconnected_send b
      else send_unconnected_error_reply service 0x08

  unfoldable pub unconnected_data : Bytes → Action W (Unit {0})
  unconnected_data whole = do
    service ← lift (read_u8 whole)
    unconnected_service service.0 whole service.1

  -- The kind of the second item decides; one of another kind is passed over.
  unfoldable pub rr_data_item : CipItem → CipItem → Action W (Unit {0})
  rr_data_item item0 item1 =
      if item1.id == 0xB1
      then (do service ← lift (read_u8 item1.content); connected_read env service.0 item0 item1)
      else if item1.id == 0xB2
      then unconnected_data item1.content
      else pure tt

  -- sendRRData
  unfoldable pub send_rr_data : Action W (Unit {0})
  send_rr_data = do
    items ← receive read_command_data
    pair ← lift (two_items items)
    rr_data_item pair.0 pair.1

  -- sendListIdentityReply
  unfoldable pub send_list_identity_reply : Action W (Unit {0})
  send_list_identity_reply = do
    body ← lift (build_list_identity_item_body env.attributes env.local_ip env.local_port)
    send command_list_identity (frame_list_identity_response body)

  -- sendListServicesData
  unfoldable pub send_list_services_data : Action W (Unit {0})
  send_list_services_data = send command_send_rr_data list_services_reply

  -- The switch over the command of a header; another command is passed over.
  unfoldable pub dispatch : EipHeader → Action W (Unit {0})
  dispatch hdr =
      if hdr.command == command_register_session
      then register_session env hdr
      else if hdr.command == command_send_rr_data
      then send_rr_data
      else if hdr.command == command_send_unit_data
      then send_unit_data
      else if hdr.command == command_list_services
      then send_list_services_data
      else if hdr.command == command_list_identity
      then send_list_identity_reply
      else pure tt

  unfoldable pub set_context : ℕ → Action W (Unit {0})
  set_context c s = (ok tt, record s { context = c })

  -- One round of the loop.
  unfoldable pub round : Action W (Unit {0})
  round = do hdr ← receive read_header; kept ← set_context hdr.context; dispatch hdr

  -- The loop of `serve`, with fuel for its rounds: there is no outcome where the fuel does not last.
  unfoldable pub rounds : ℕ → Session W → Outcome W
  unfolding next_round
  rounds zero s = none
  rounds (suc fuel) s = next_round (rounds fuel) (round s)
