-- ===== src/Client/Connecting.antt =====
-- Connect of the client (connect.go) and largeForwardOpen of the server (server.go): both sides agree on the
-- connection.
use gologix.Base.{
  ℕ, suc, ◌*◌, ◌%◌, ◌<◌, ◌≡◌, refl, sym, ap, ◌∙◌, [], ◌∷◌, ◌++◌, true, length, ltb, arith,
  append-nil,
}
use gologix.Base.Result.{ok, err, not_found}
use gologix.Wire.{Bytes, put_u32, read_full}
use gologix.Wire.RoundTrip.{read_full-append}
use gologix.Segment.Class
use gologix.Segment.Instance
use gologix.Item.{serialize_items, bytes, bytes_all, write}
use gologix.Item.Payload.{fixed_size, new_item, serialize, encode}
use gologix.Connections.{get_by_ot}
use gologix.Server.Session.{Session, Env}
use gologix.Server.Messages.{ForwardOpen}
use gologix.Server.Replies
use gologix.Server.Opening.{open_reply, new_connection, large_forward_open}
use gologix.Server.Opened.{chosen_ot, chosen_to, open_packet, large_forward_open_opens}
use gologix.Server.Serve.{round}
use gologix.Client.{Client, send_msg_build, send_recv_data}
use gologix.Client
use gologix.Client.Opening.{
  open_bytes, connection_path, next_connection_serial_number, numbered, new_forward_open_large,
  set_ot, opened, forward_open, or_standard, open_connection, open_request,
}
use gologix.Client.Opened.{
  IsOriginator, large_request, understood, request_items, new_forward_open_large_lem, path_length,
  ot_lem, to_lem, large_request-IsRequest, path_size_lem, read_forward_open-open_bytes,
  read_open_reply-open_reply, round-request,
}
use gologix.Client.Served.{IsClient, IsReady, arrived, served, at_dispatch, send_recv_data-packet}

reply_short :
    (m : ForwardOpen) (ot to : ℕ)
    → length (
        serialize_items (new_item 0 [] ∷ new_item 0xB2 (fixed_size (open_reply m ot to) ∷ []) ∷ []))
      < 65536
unfolding serialize_items new_item serialize encode write open_reply bytes bytes_all
reply_short m ot to = omega arith

module _ {W E : Type 0} (env : Env W E) (s : Session W) (disconnect : Client → Client) (c : Client)
    (f : IsOriginator c) (g : IsReady s) (x y : ℕ) (more : Bytes) (p : c.path ≡ x ∷ y ∷ more) where
  -- The message that the client sends.
  abbrev pub message : Bytes
  message =
      (send_msg_build 0x6F (serialize_items (new_item 0 [] ∷ (new_forward_open_large c).0 ∷ []))
        (numbered c)).0

  abbrev before : Session W
  before = at_dispatch env s (numbered c) []

  abbrev rest : Bytes
  rest = more ++ (Class.bytes 2 ++ Instance.bytes 1)

  path_starts : connection_path c ≡ x ∷ y ∷ rest
  unfolding connection_path
  path_starts = rw p refl

  path_read :
      read_full ((understood (large_request c)).path_size * 2 % 256) (connection_path c)
      ≡ ok (x ∷ y ∷ rest, [])
  path_read =
      ap (read_full _) (sym (append-nil (connection_path c)))
      ∙ read_full-append _ (connection_path c) [] (path_size_lem c f)
      ∙ ap (λ b. ok (b, [])) path_starts

  ot_kept : chosen_ot env (understood (large_request c)) before ≡ suc c.sequence_number
  unfolding open_request
  ot_kept = rw (ot_lem c f) (ground arith)

  to_kept : chosen_to env (understood (large_request c)) before ≡ suc (suc c.sequence_number)
  unfolding open_request
  to_kept = rw (to_lem c f) (ground arith)

  numbered-IsClient : IsClient (numbered c)
  unfolding numbered
  numbered-IsClient = record {
    session_handle_fits = f.client.session_handle_fits;
    context_fits = f.client.context_fits;
  }

  items_lem :
      new_item 0 [] ∷ (new_forward_open_large c).0 ∷ []
      ≡ request_items env s (large_request c) (connection_path c)
  items_lem = ap (λ r. new_item 0 [] ∷ r.0 ∷ []) (new_forward_open_large_lem c f)

  delivered :
      round env (arrived env s message)
      ≡ large_forward_open env (open_bytes put_u32 (large_request c) ++ connection_path c) before
  unfolding open_request
  delivered =
      let l : length (connection_path c) < 1000 =
        let w = f.words_fit in rw (path_length c f) (omega arith) in
      ap
        (λ items.
          round env (arrived env s (send_msg_build 0x6F (serialize_items items) (numbered c)).0))
        items_lem
      ∙ round-request env s (large_request c) (connection_path c) (numbered c) refl l
          numbered-IsClient

  -- What the handler does with the request.
  handled :
      get_by_ot (suc c.sequence_number) s.connections ≡ err not_found
      → ((round env (arrived env s message)).1.sent
          ≡ open_packet env (understood (large_request c)) before ∷ [])
        × (get_by_ot (suc c.sequence_number) (round env (arrived env s message)).1.connections
            ≡ ok (
                new_connection
                  (understood (large_request c))
                  (suc c.sequence_number)
                  (suc (suc c.sequence_number))
                  (x ∷ y ∷ [])))
  handled h =
      let (returns, sent, found, ot, to) =
        large_forward_open_opens env (open_bytes put_u32 (large_request c) ++ connection_path c)
          (connection_path c) [] (understood (large_request c)) x y rest before
          (read_forward_open-open_bytes (large_request c) (connection_path c)
            (large_request-IsRequest c f))
          path_read g.takes (rw ot_kept h) in
      (
        ap (λ r. r.1.sent) delivered ∙ sent,
        ap (λ r. get_by_ot (suc c.sequence_number) r.1.connections) delivered
            ∙ (rw (ot_kept, to_kept) at found),
      )

  large_opened :
      get_by_ot (suc c.sequence_number) s.connections ≡ err not_found
      → forward_open (served env s) disconnect (new_forward_open_large c).0 (numbered c) ≡ (
        ok tt,
        record (send_msg_build 0x6F [] (numbered c)).1 {
          ot_network_connection_id = suc c.sequence_number;
        },
      )
  unfolding forward_open opened set_ot Replies.new_eip_header send_msg_build Client.new_eip_header
  large_opened h =
      let m : ForwardOpen = understood (large_request c) in
      let fits : chosen_ot env m before < 4294967296 =
        let l = f.ids_fit in rw ot_kept (omega arith) in
      let (sent, found) = handled h in
      let reply : Bytes = serialize_items (
        new_item 0 []
        ∷ new_item 0xB2
            (fixed_size (open_reply m (chosen_ot env m before) (chosen_to env m before)) ∷ [])
        ∷ []) in
      let answered =
        send_recv_data-packet env s disconnect 0x6F
          (serialize_items (new_item 0 [] ∷ (new_forward_open_large c).0 ∷ [])) (numbered c) 0x6F
          reply before sent (omega arith)
          (reply_short m (chosen_ot env m before) (chosen_to env m before))
          (record { takes = g.takes; handle_fits = g.handle_fits; options_fits = g.options_fits })
          numbered-IsClient.context_fits in
      rw
        (
          answered,
          read_open_reply-open_reply m (chosen_ot env m before) (chosen_to env m before) fits
              (Replies.new_eip_header 0x6F (length reply) before) refl,
          ot_kept,
        )
        refl

  -- The part of Connect that opens the connection, for a client that asks for a large one, answered by one round of
  -- the server's loop on the request, succeeds: the client keeps the O->T ID, its next sequence number, which the server does not have yet, and
  -- under that ID the server has a connection with the client's serial number and interval, the next
  -- sequence number as its T->O ID, and the first two bytes of the client's path, which has an even number
  -- of bytes, from 2 to 250. The client's numbers fit their types, and the server's peer takes packets.
  pub open_connection-served :
      get_by_ot (suc c.sequence_number) s.connections ≡ err not_found
      → ((open_connection (served env s) disconnect c).0 ≡ ok tt)
        × ((open_connection (served env s) disconnect c).1.ot_network_connection_id
            ≡ suc c.sequence_number)
        × (get_by_ot (suc c.sequence_number) (round env (arrived env s message)).1.connections
            ≡ ok (record {
              id = (next_connection_serial_number c.connection_serial_value).0;
              ot = suc c.sequence_number;
              to = suc (suc c.sequence_number);
              rpi = c.rpi;
              path = x ∷ y ∷ [];
              is_open = true;
            }))
  unfolding open_connection or_standard numbered send_msg_build Client.new_eip_header new_connection
      open_request
  open_connection-served h =
      let large : ltb 511 c.connection_size ≡ true = let l = f.is_large in ground arith in
      let (sent, found) = handled h in
      let rpi_kept : c.rpi % 4294967296 ≡ c.rpi = let l = f.rpi_fits in omega arith in
      let counted : (new_forward_open_large c).1 ≡ numbered c =
        ap (λ r. r.1) (new_forward_open_large_lem c f) in
      let o = large_opened h in
      (rw (large, counted, o, large) refl, rw (large, counted, o, large) refl, rw rpi_kept at found)
