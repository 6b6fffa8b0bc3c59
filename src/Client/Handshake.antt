-- ===== src/Client/Handshake.antt =====
-- registerSession of the client (connect.go), answered by registerSession of the server (server.go).
use gologix.Base.{
  ℕ, suc, ◌<◌, ◌≡◌, refl, ap, [], ◌∷◌, ◌==◌, if◌then◌else◌, Bool-cases, inl, inr, arith,
}
use gologix.Base.Result.{ok}
use gologix.Wire.{Bytes, read_u16}
use gologix.Server.Session.{Session, Env, receive, consumed}
use gologix.Server.Messages.{register_bytes, read_register}
use gologix.Server.Replies.{packet, send, new_eip_header}
use gologix.Server.Opening.{set_handle, choose, draw}
use gologix.Server.Opening
use gologix.Server.Serve.{round, dispatch}
use gologix.Client
use gologix.Client.{Client, send_msg_build, send_recv_data, register_session, with_handle}
use gologix.Client.Served.{
  IsClient, IsReady, arrived, served, round-send_msg_build, send_recv_data-packet,
}

abbrev pub registration : Bytes
registration = register_bytes (record { protocol_version = 1; option_flag = 0 })

module _ {W E : Type 0} (env : Env W E) (s : Session W) (disconnect : Client → Client) where
  -- The handle that the server gives: the one that is asked for, or a random one.
  abbrev pub given : Client → ℕ
  given c = if c.session_handle == 0 then env.random s.drawn else c.session_handle

  -- The server before and behind the answer.
  abbrev accepting : Client → Session W
  accepting c = record s {
    input = [];
    sent = [];
    context = c.context;
    handle = given c;
    options = 0;
    drawn = if c.session_handle == 0 then suc s.drawn else s.drawn;
  }

  register_round :
      (c : Client)
      → IsClient c
      → IsReady s
      → round env (arrived env s (send_msg_build 0x65 registration c).0)
        ≡ (ok tt, record (accepting c) { sent = packet 0x65 registration (accepting c) ∷ [] })
  unfolding dispatch Opening.register_session choose draw set_handle send receive consumed
      read_register register_bytes packet new_eip_header Client.new_eip_header read_u16
  register_round c f g =
      rw (round-send_msg_build env s 0x65 registration c (omega arith) f)
        (elim (Bool-cases (c.session_handle == 0)) [
          | inl e ↦ rw (e, g.takes) refl
          | inr e ↦ rw (e, g.takes) refl
        ])

  given_fits : (c : Client) → IsClient c → env.random s.drawn < 4294967296 → given c < 4294967296
  given_fits c f h = elim (Bool-cases (c.session_handle == 0)) [
    | inl e ↦ rw e h
    | inr e ↦ rw e f.session_handle_fits
  ]

  -- The client's registerSession, answered by one round of the server's loop on the request, succeeds, and both
  -- sides have the same session handle behind it: the client's own, or where that is 0 the random number of the
  -- server. The server has read the whole request.
  pub register_session-served :
      (c : Client)
      → IsClient c
      → IsReady s
      → env.random s.drawn < 4294967296
      → ((register_session (served env s) disconnect c).0 ≡ ok tt)
        × ((register_session (served env s) disconnect c).1.session_handle ≡ given c)
        × ((round env (arrived env s (send_msg_build 0x65 registration c).0)).1.handle ≡ given c)
        × ((round env (arrived env s (send_msg_build 0x65 registration c).0)).1.input ≡ [])
  unfolding register_session with_handle new_eip_header
  register_session-served c f g h =
      let e : round env (arrived env s (send_msg_build 0x65 registration c).0)
          ≡ (ok tt, record (accepting c) { sent = packet 0x65 registration (accepting c) ∷ [] }) =
        register_round c f g in
      let answered =
        send_recv_data-packet env s disconnect 0x65 registration c 0x65 registration (accepting c)
          (ap (λ r. r.1.sent) e) (omega arith) (unfold register_bytes in omega arith)
          (record { takes = g.takes; handle_fits = given_fits c f h; options_fits = omega arith })
          f.context_fits in
      (rw answered refl, rw answered refl, rw e refl, rw e refl)
