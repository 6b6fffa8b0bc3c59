-- ===== src/Client/Opened.antt =====
-- forwardOpen of the client (connect.go), answered by largeForwardOpen of the server (server.go).
use gologix.Base.{
  ℕ, suc, ◌+◌, ◌*◌, ◌%◌, ◌<◌, ◌≡◌, ◌≢◌, refl, sym, ap, ◌∙◌, List, [], ◌∷◌, ◌++◌, true, false,
  length, drop, map, All, arith, append-nil, length-append, ◌==◌,
}
use gologix.Base.Result.{ok}
use gologix.Wire.{Bytes, put_u32, read_u8, read_u16, read_u32, read_full}
use gologix.Wire.RoundTrip.{read_u16-put, read_u32-put, read_full-append}
use gologix.Item.{CipItem, serialize_items, read_items, reset, write}
use gologix.Item.Payload.{fixed_size, new_item, serialize, encode}
use gologix.Item.ListRoundTrip.{IsFramed, read_items-serialize_items}
use gologix.Item.Framing.{new_item-IsFramed}
use gologix.Segment.Class
use gologix.Segment.Instance
use gologix.Server.Session.{Session, Env, receive, consumed}
use gologix.Server.Messages.{ForwardOpen, read_forward_open, read_command_data}
use gologix.Server.Access.{two_items}
use gologix.Server.Opening.{open_reply, large_forward_open}
use gologix.Server.Serve.{
  round, dispatch, send_rr_data, rr_data_item, unconnected_data, unconnected_service,
}
use gologix.Client.{Client, send_msg_build, send_recv_data}
use gologix.Client
use gologix.Client.Opening.{
  OpenRequest, open_bytes, connection_path, next, open_request, numbered, with_size,
  new_forward_open_large, next_connection_serial_number, serial_loop, parse_response,
  response_items, router_response, read_router_response, second_item, read_open_reply, read_ot,
}
use native.Mathlib.Nat.{mod-eq_of_lt}
use gologix.Client.Served.{IsClient, arrived, at_dispatch, round-send_msg_build}

-- nextConnectionSerialNumber never gives 0, and gives a number of 16 bits.
next_connection_serial_number-nonzero :
    (value : ℕ)
    → ((next_connection_serial_number value).0 ≢ 0)
      × ((next_connection_serial_number value).0 < 65536)
unfolding next_connection_serial_number serial_loop
next_connection_serial_number-nonzero value = (ground arith, ground arith)

-- The handle, the sequence counter and two items of a request or reply, read back.
read_command_data-serialize_items :
    (items : List CipItem)
    → length items < 65536
    → All IsFramed items
    → read_command_data (serialize_items items) ≡ ok (map reset items, [])
unfolding read_command_data read_u32 read_u16 serialize_items
read_command_data-serialize_items items h f =
    ap read_items (sym (append-nil (drop 6 (serialize_items items))))
    ∙ read_items-serialize_items items [] h f

-- The numbers of a request fit their types.
pub record IsRequest (m : OpenRequest) : Type 0 where
  pub ot_fits : m.ot < 4294967296
  pub to_fits : m.to < 4294967296
  pub serial_fits : m.serial < 65536
  pub vendor_fits : m.vendor < 65536
  pub originator_fits : m.originator < 4294967296
  pub multiplier_fits : m.multiplier < 4294967296
  pub rpi_fits : m.rpi < 4294967296
  pub params_fits : m.params < 4294967296
  pub path_size_fits : m.path_size < 256

-- What the server learns of a request.
abbrev pub understood : OpenRequest → ForwardOpen
understood m = record {
  service = m.service;
  ot = m.ot;
  to = m.to;
  serial = m.serial;
  vendor = m.vendor;
  originator = m.originator;
  ot_rpi = m.rpi;
  to_rpi = m.rpi;
  trigger = 0xA3;
  path_size = m.path_size;
}

pub read_forward_open-open_bytes :
    (m : OpenRequest) (more : Bytes)
    → IsRequest m
    → read_forward_open true (open_bytes put_u32 m ++ more) ≡ ok (understood m, more)
unfolding read_forward_open open_bytes read_u8
read_forward_open-open_bytes m more f =
    rw
      (
        read_full-append 5 (2 ∷ 0x20 ∷ 6 ∷ 0x24 ∷ 1 ∷ []) _ refl,
        read_u32-put m.ot _ f.ot_fits,
        read_u32-put m.to _ f.to_fits,
        read_u16-put m.serial _ f.serial_fits,
        read_u16-put m.vendor _ f.vendor_fits,
        read_u32-put m.originator _ f.originator_fits,
        read_u32-put m.multiplier _ f.multiplier_fits,
        read_u32-put m.rpi _ f.rpi_fits,
        read_u32-put m.params _ f.params_fits,
        read_u32-put m.rpi _ f.rpi_fits,
        read_u32-put m.params _ f.params_fits,
        mod-eq_of_lt f.path_size_fits,
      )
      refl

-- The reply, read by the client.
pub read_open_reply-open_reply :
    (m : ForwardOpen) (ot to : ℕ)
    → ot < 4294967296
    → (header : Client.EipHeader) → header.status ≡ 0
    → read_ot (
        parse_response header (
          serialize_items
            (new_item 0 [] ∷ new_item 0xB2 (fixed_size (open_reply m ot to) ∷ []) ∷ [])))
      ≡ ok (ot, [])
unfolding parse_response response_items router_response read_router_response second_item read_ot
    read_open_reply read_u8 read_u16 read_u32 read_full open_reply new_item serialize encode write
    reset
read_open_reply-open_reply m ot to h header e =
    let items : List CipItem =
      new_item 0 [] ∷ new_item 0xB2 (fixed_size (open_reply m ot to) ∷ []) ∷ [] in
    let framed : All IsFramed items = (
      new_item-IsFramed 0 [] (omega arith) (omega arith),
      (
        new_item-IsFramed 0xB2 (fixed_size (open_reply m ot to) ∷ []) (omega arith) (omega arith),
        tt,
      ),
    ) in
    rw (e, read_command_data-serialize_items items (omega arith) framed, read_u32-put ot _ h) refl

module _ {W E : Type 0} (env : Env W E) (s : Session W) where
  abbrev pub request_items : OpenRequest → Bytes → List CipItem
  request_items m path =
      new_item 0 [] ∷ new_item 0xB2 (fixed_size (open_bytes put_u32 m) ∷ fixed_size path ∷ []) ∷ []

  -- The round on a request is the handler on its bytes.
  pub round-request :
      (m : OpenRequest) (path : Bytes) (c : Client)
      → m.service ≡ 0x5B
      → length path < 1000
      → IsClient c
      → round env (arrived env s (send_msg_build 0x6F (serialize_items (request_items m path)) c).0)
        ≡ large_forward_open env (open_bytes put_u32 m ++ path) (at_dispatch env s c [])
  unfolding dispatch send_rr_data rr_data_item unconnected_data unconnected_service two_items
      receive consumed Client.new_eip_header open_bytes read_u8 new_item serialize encode write
      reset
  round-request m path c e l f =
      let framed : All IsFramed (request_items m path) = (
        new_item-IsFramed 0 [] (omega arith) (omega arith),
        (
          new_item-IsFramed 0xB2 (fixed_size (open_bytes put_u32 m) ∷ fixed_size path ∷ [])
              (omega arith) (omega arith),
          tt,
        ),
      ) in
      rw
        (
          round-send_msg_build env s 0x6F (serialize_items (request_items m path)) c (omega arith)
              f,
          read_command_data-serialize_items (request_items m path) (omega arith) framed,
          e,
        )
        refl

-- The client's numbers fit their types, it asks for a large connection, its next IDs do not wrap around, and
-- its path is of at most 250 bytes, in words.
pub record IsOriginator (c : Client) : Type 0 where
  pub client : IsClient c
  pub is_large : 511 < c.connection_size
  pub size_fits : c.connection_size < 65536
  pub vendor_fits : c.vendor_id < 65536
  pub serial_fits : c.serial_number < 4294967296
  pub rpi_fits : c.rpi < 4294967296
  pub ids_fit : c.sequence_number + 2 < 4294967296
  pub words : ℕ
  pub words_fit : words < 126
  pub path_words : length c.path ≡ words * 2

-- The request of newForwardOpenLarge.
abbrev pub large_request : Client → OpenRequest
large_request c = open_request 0x5B 0x0A 0x0E 3 (0x42000000 + c.connection_size) c

module _ (c : Client) (f : IsOriginator c) where
  pub new_forward_open_large_lem : new_forward_open_large c ≡ (
    new_item 0xB2
        (fixed_size (open_bytes put_u32 (large_request c)) ∷ fixed_size (connection_path c) ∷ []),
    numbered c,
  )
  unfolding new_forward_open_large with_size
  new_forward_open_large_lem =
      let e : (c.connection_size == 0) ≡ false = let l = f.is_large in ground arith in rw e refl

  pub path_length : length (connection_path c) ≡ f.words * 2 + 4
  unfolding connection_path Class.bytes Instance.bytes
  path_length = omega (arith, length-append c.path (0x20 ∷ 2 ∷ 0x24 ∷ 1 ∷ []), f.path_words)

  pub ot_lem : next c.sequence_number ≡ suc c.sequence_number
  ot_lem = let l = f.ids_fit in omega arith

  pub to_lem : next (next c.sequence_number) ≡ suc (suc c.sequence_number)
  to_lem = let l = f.ids_fit in omega arith

  pub large_request-IsRequest : IsRequest (large_request c)
  unfolding open_request
  large_request-IsRequest = record {
    ot_fits = omega arith;
    to_fits = omega arith;
    serial_fits = (next_connection_serial_number-nonzero c.connection_serial_value).1;
    vendor_fits = f.vendor_fits;
    originator_fits = f.serial_fits;
    multiplier_fits = omega arith;
    rpi_fits = omega arith;
    params_fits = omega (arith, f.size_fits);
    path_size_fits = omega arith;
  }

  -- Twice the number of words is the length of the path again.
  pub path_size_lem : (large_request c).path_size * 2 % 256 ≡ length (connection_path c)
  unfolding open_request
  path_size_lem = let l = f.words_fit in rw path_length (omega arith)
