-- ===== src/Server/Tests.antt =====
-- The server on small requests.
use gologix.Base.{
  ℕ, ◌+◌, ◌<◌, ◌≡◌, ◌≢◌, ◌↔◌, ◌⊎◌, refl, List, [], ◌∷◌, ◌++◌, true, none, some, length, All, arith,
}
use gologix.Base.Result.{Result, ok, panic}
use gologix.Wire.{Bytes, put_u16, put_u32, read_u8, read_u16, read_u32, read_u64, read_full}
use gologix.Text.{codes}
use gologix.Item.{CipItem}
use gologix.Item.Payload.{serialize, string_elements, slot}
use gologix.Ioi.Decode.{get_tag_from_path, round, ascii_part, get_ascii_tag_part}
use gologix.Types.Values.{num, int32, go_var_to_cip_type}
use gologix.Connections.{Connection, get_by_ot, get_by_id, get_by, get_in}
use gologix.TagMap.{resolve, lookup, same_text}
use gologix.Server.Session.{
  Session, Env, string, plain, one, TagInfo, payload, go_var, item_byte, item_uint16,
}
use gologix.Server.Messages.{
  EipHeader, ForwardOpen, header_bytes, read_header, read_forward_open, read_forward_close,
}
use gologix.Server.Writes.{parse_write_values}
use gologix.Server.Replies.{send, send_connected_reply}
use gologix.Server.Access.{connection, provider, read_tag, type_of, pack_serialize}
use gologix.Server.Multi.{
  connected_multi, gather, services, service_at, one_service, read_offsets, seek, read_result,
}
use gologix.Server.Opening.{large_forward_open, forward_close, new_connection}
use gologix.Server.Connected.{connected_read}
use gologix.Server.Serve
use gologix.Server.Serve.{rounds}
use gologix.Server.Steady.{IsAnswer}
use gologix.Server.Ends.{round_answers, rounds_end}
use gologix.Server.SendsOne.{Sent}
use gologix.Server.Answers.{connected_read_answers}
use gologix.Server.Strings.{
  elements_bytes, write_header, parse_write_values-elements, parse_write_values-string_elements,
}
use gologix.Server.Opened.{
  open_packet, large_forward_open_opens, forward_close-large_forward_open,
  large_forward_open_panics_iff,
}
use gologix.Server.Gathered.{IsAnswered, connected_multi-multi_reply}

-- One endpoint, whose tags all hold the number that it keeps.
abbrev demo : Env ℕ (Unit {0})
demo = record {
  tag_read = λ p tag qty w. (ok (one (plain (num int32 w))), w);
  tag_write = λ p tag d w. (ok tt, w + 1);
  tag_list = λ p w. none;
  router = (1 ∷ 0 ∷ [], tt) ∷ [];
  attributes = λ n. none;
  other_attribute = λ n. one (string []);
  local_ip = none;
  local_port = 44818;
  random = λ n. n + 1000;
}

abbrev local : Connection
local = record { id = 3; ot = 21; to = 22; rpi = 1000; path = 1 ∷ 0 ∷ []; is_open = true }

abbrev started : Bytes → Session ℕ
started input = record {
  input = input;
  sent = [];
  writable = true;
  handle = 5;
  options = 0;
  context = 0;
  ot = 0;
  to = 0;
  sequencer = 0;
  drawn = 0;
  connections = record { connections = local ∷ [] };
  world = 42;
}

abbrev list_services : EipHeader
list_services = record {
  command = 4;
  length = 0;
  session_handle = 5;
  status = 0;
  context = 77;
  options = 0;
}

round_answers_example :
    (added : List Bytes) × ((Serve.round demo (started (header_bytes list_services))).1.sent
      ≡ [] ++ added)
    × All (IsAnswer 77) added
    × (length (Serve.round demo (started (header_bytes list_services))).1.input
        < length (header_bytes list_services))
unfolding read_header read_u16 read_u32 read_u64 header_bytes
round_answers_example =
    round_answers demo (started (header_bytes list_services)) list_services [] refl

rounds_end_example :
    (r : Result (Unit {0})) × (t : Session ℕ) × (rounds demo 25
        (started (header_bytes list_services))
      ≡ some (r, t))
    × ((u : Unit {0}) → r ≢ ok u)
    × ((g : ℕ)
        → length (header_bytes list_services) < g
        → rounds demo g (started (header_bytes list_services)) ≡ some (r, t))
unfolding header_bytes
rounds_end_example = rounds_end demo 25 (started (header_bytes list_services)) (omega arith)

abbrev address : CipItem
address = record { id = 0xA1; header_length = 4; content = put_u32 21; position = 0 }

-- The sequence number 9, the service and the size of the path, the tag "ab", and the number of elements.
abbrev read_request : CipItem
read_request = record {
  id = 0xB1;
  header_length = 10;
  content = put_u16 9 ++ 0x4C ∷ 2 ∷ 0x91 ∷ 2 ∷ b'a' ∷ b'b' ∷ put_u16 1;
  position = 0;
}

connected_read_answers_example :
    Sent 0x4C (started []) (connected_read demo 0x4C address read_request (started []))
unfolding payload
connected_read_answers_example =
    connected_read_answers demo (λ p tag qty w. tt) 0x4C address read_request (started []) refl

parse_write_values-elements_example :
    parse_write_values
      (write_header 2 ++ (elements_bytes (codes "on" ∷ codes "off" ∷ []) ++ 7 ∷ []))
    ≡ ok (string (codes "on") ∷ string (codes "off") ∷ [], 7 ∷ [])
parse_write_values-elements_example =
    parse_write_values-elements (codes "on" ∷ codes "off" ∷ []) (7 ∷ []) (omega arith)
      (omega arith, (omega arith, tt))

parse_write_values-string_elements_example :
    parse_write_values (write_header 2 ++ (string_elements (codes "on" ∷ codes "off" ∷ []) ++ []))
    ≡ ok (string (codes "on") ∷ string (0 ∷ 0 ∷ slot 80 (codes "off")) ∷ [], 0 ∷ 0 ∷ 0 ∷ 0 ∷ [])
parse_write_values-string_elements_example =
    parse_write_values-string_elements (codes "on") (codes "off") [] (omega arith) (omega arith)
      (omega arith)

abbrev tags : List TagInfo
tags =
    record { name = codes "speed"; type = 0xCA } ∷ record { name = codes "mode"; type = 0xC4 } ∷ []

abbrev tags_again : List TagInfo
tags_again =
    record { name = codes "mode"; type = 0xC4 } ∷ record { name = codes "speed"; type = 0xCA } ∷ []

-- A large forward open with the serial number 8, a random O->T ID and the T->O ID 23; its path has one word.
abbrev opening : ForwardOpen
opening = record {
  service = 0x5B;
  ot = 0;
  to = 23;
  serial = 8;
  vendor = 1;
  originator = 2;
  ot_rpi = 4;
  to_rpi = 5;
  trigger = 0xA3;
  path_size = 1;
}

abbrev opening_bytes : ℕ → Bytes
opening_bytes size =
    0x5B
    ∷ 2
    ∷ 0x20
    ∷ 6
    ∷ 0x24
    ∷ 1
    ∷ 0
    ∷ 0
    ∷ (put_u32 0
        ++ (put_u32 23
            ++ (put_u16 8
                ++ (put_u16 1
                    ++ (put_u32 2
                        ++ (put_u32 3
                            ++ (put_u32 4
                                ++ (put_u32 0
                                    ++ (put_u32 5
                                        ++ (put_u32 0 ++ 0xA3 ∷ size ∷ 1 ∷ 0 ∷ []))))))))))

abbrev closing : Bytes
closing =
    0x4E ∷ 2 ∷ 0x20 ∷ 6 ∷ 0x24 ∷ 1 ∷ 0 ∷ 0 ∷ 8 ∷ 0 ∷ 1 ∷ 0 ∷ 2 ∷ 0 ∷ 0 ∷ 0 ∷ 1 ∷ 0 ∷ 1 ∷ 0 ∷ 0 ∷ []

large_forward_open_opens_example :
    ((large_forward_open demo (opening_bytes 1) (started [])).0 ≡ ok tt)
    × ((large_forward_open demo (opening_bytes 1) (started [])).1.sent
        ≡ [] ++ open_packet demo opening (started []) ∷ [])
    × (get_by_ot 1000 (large_forward_open demo (opening_bytes 1) (started [])).1.connections
        ≡ ok (new_connection opening 1000 23 (1 ∷ 0 ∷ [])))
    × ((large_forward_open demo (opening_bytes 1) (started [])).1.ot ≡ 1000)
    × ((large_forward_open demo (opening_bytes 1) (started [])).1.to ≡ 23)
unfolding read_forward_open read_u8 read_u16 read_u32 read_full get_by_ot get_by get_in
large_forward_open_opens_example =
    large_forward_open_opens demo (opening_bytes 1) (1 ∷ 0 ∷ []) [] opening 1 0 [] (started []) refl
      refl refl refl

forward_close-large_forward_open_example :
    ((forward_close demo closing (large_forward_open demo (opening_bytes 1) (started [])).1).0
      ≡ ok tt)
    × ((forward_close demo closing
          (large_forward_open demo (opening_bytes 1) (started [])).1).1.connections
        ≡ record { connections = local ∷ [] })
    × ((forward_close demo closing
          (large_forward_open demo (opening_bytes 1) (started [])).1).1.sent
        ≡ (large_forward_open demo (opening_bytes 1) (started [])).1.sent)
unfolding read_forward_open read_forward_close read_u8 read_u16 read_u32 read_full get_by_id get_by
    get_in
forward_close-large_forward_open_example =
    forward_close-large_forward_open demo (opening_bytes 1) (1 ∷ 0 ∷ []) [] opening 1 0 []
      (started []) closing (0 ∷ 1 ∷ 0 ∷ 0 ∷ []) (0 ∷ 1 ∷ 0 ∷ 0 ∷ []) []
      (record { path_size = 2; serial = 8 }) refl refl refl refl refl refl refl

large_forward_open_panics_iff_example :
    ((large_forward_open demo (opening_bytes 128) (started [])).0 ≡ panic)
    ↔ ((◌≡◌ {A = ℕ} 128 0) ⊎ (◌≡◌ {A = ℕ} 128 128))
unfolding read_forward_open read_u8 read_u16 read_u32 read_full
large_forward_open_panics_iff_example =
    large_forward_open_panics_iff demo (opening_bytes 128) (1 ∷ 0 ∷ [])
      (record opening { path_size = 128 }) (started []) refl (omega arith) (omega arith)

-- A request of one service, a read of the tag "ab".
abbrev multi_request : CipItem
multi_request = record {
  id = 0xB1;
  header_length = 20;
  content =
      put_u16 9
      ++ (0x0A
          ∷ 2
          ∷ 0x20
          ∷ 2
          ∷ 0x24
          ∷ 1
          ∷ (put_u16 1 ++ (put_u16 4 ++ 0x4C ∷ 2 ∷ 0x91 ∷ 2 ∷ b'a' ∷ b'b' ∷ put_u16 1)));
  position = 0;
}

answered :
    connected_multi demo address multi_request (started [])
    ≡ (ok tt, (connected_multi demo address multi_request (started [])).1)
unfolding connected_multi read_u32 connection get_by_ot get_by get_in provider resolve lookup
    same_text read_u16 read_u8 read_full item_uint16 gather read_offsets services service_at
    one_service seek item_byte get_tag_from_path round ascii_part get_ascii_tag_part read_tag
    read_result type_of go_var_to_cip_type go_var pack_serialize payload send_connected_reply
    serialize send
answered = refl

abbrev behind_multi : Session ℕ
behind_multi = (connected_multi demo address multi_request (started [])).1

connected_multi-multi_reply_example :
    (connected_multi demo address multi_request (started []) ≡ (ok tt, behind_multi))
    ↔ IsAnswered demo address multi_request (started []) behind_multi
connected_multi-multi_reply_example =
    connected_multi-multi_reply demo address multi_request (started []) behind_multi
