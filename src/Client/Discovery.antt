-- ===== src/Client/Discovery.antt =====
-- ListServices and ListIdentity of the client (listservices.go, listidentity.go), answered by the server of the
-- same repository.
use gologix.Base.{◌<◌, ◌≡◌, refl, [], ◌∷◌, length, arith}
use gologix.Base.Result.{ok, err, unexpected_eof}
use gologix.Wire.{Bytes, read_u16, read_full}
use gologix.Item.{read_items, read_items_loop, read_item}
use gologix.Identity.{frame_list_identity_response}
use gologix.Identity.Answer.{
  Identity, IsIdentity, Holds, answer, body, built, body_fits, body_parsed, frame_read,
  frame_length,
}
use gologix.Identity.Client.{list_identity, first_item, parsed}
use gologix.Server.Session.{Session, Env}
use gologix.Server.Replies.{packet, send}
use gologix.Server.Serve.{
  round, dispatch, send_list_services_data, send_list_identity_reply, list_services_reply,
}
use gologix.Client
use gologix.Client.{
  Client, send_msg_build, send_recv_data, list_services, request_identity, and_parse,
  items_services, parse_services, parse_from_bytes,
}
use gologix.Client.Served.{
  IsClient, IsReady, arrived, served, at_dispatch, round-send_msg_build, send_recv_data-packet,
}

services_refused : items_services (read_items list_services_reply) ≡ err unexpected_eof
unfolding items_services read_items read_items_loop read_item list_services_reply parse_services
    parse_from_bytes read_full read_u16
services_refused = refl

module _ {W E : Type 0} (env : Env W E) (s : Session W) (disconnect : Client → Client) where
  services_sent :
      (c : Client)
      → IsClient c
      → IsReady s
      → (round env (arrived env s (send_msg_build 0x04 [] c).0)).1.sent
        ≡ packet 0x6F list_services_reply (at_dispatch env s c []) ∷ []
  unfolding dispatch send_list_services_data send Client.new_eip_header
  services_sent c f g = rw (round-send_msg_build env s 0x04 [] c (omega arith) f, g.takes) refl

  -- The answer to a List Services request by the server of this repository, with one round of its loop on the
  -- request, makes the client's ListServices fail: the service is announced with 10 bytes, and the
  -- client needs 20. The client stays as it is but for its counter.
  pub list_services-served :
      (c : Client)
      → IsClient c
      → IsReady s
      → list_services (served env s) disconnect c
        ≡ (err unexpected_eof, (send_msg_build 0x04 [] c).1)
  unfolding list_services and_parse list_services_reply
  list_services-served c f g =
      rw
        (
          send_recv_data-packet env s disconnect 0x04 [] c 0x6F list_services_reply
              (at_dispatch env s c []) (services_sent c f g) (omega arith) (omega arith)
              (record {
                takes = g.takes;
                handle_fits = g.handle_fits;
                options_fits = g.options_fits;
              })
              f.context_fits,
          services_refused,
        )
        refl

  identity_sent :
      (x : Identity) (c : Client)
      → Holds env.attributes x
      → IsClient c
      → IsReady s
      → (round env (arrived env s (send_msg_build 0x63 [] c).0)).1.sent
        ≡ packet 0x63
            (frame_list_identity_response (body x env.local_ip env.local_port))
            (at_dispatch env s c [])
          ∷ []
  unfolding dispatch send_list_identity_reply send Client.new_eip_header
  identity_sent x c h f g =
      rw
        (
          round-send_msg_build env s 0x63 [] c (omega arith) f,
          built env.attributes x env.local_ip env.local_port h,
          g.takes,
        )
        refl

  -- The client's ListIdentity, answered by one round of the server's loop on the request, returns the identity of
  -- the server: where the server's attributes hold the numbers and the name of an identity, the client
  -- gets each of them, the name cut to 255 bytes, with the server's address and port.
  pub request_identity-served :
      (x : Identity) (c : Client)
      → Holds env.attributes x
      → IsIdentity x
      → env.local_port < 65536
      → IsClient c
      → IsReady s
      → (request_identity (served env s) disconnect c).0 ≡ ok (answer x env.local_ip env.local_port)
  unfolding request_identity and_parse list_identity first_item parsed
  request_identity-served x c h i p f g =
      let b : Bytes = body x env.local_ip env.local_port in
      let short : length b < 400 = body_fits x env.local_ip env.local_port in
      rw
        (
          send_recv_data-packet env s disconnect 0x63 [] c 0x63 (frame_list_identity_response b)
              (at_dispatch env s c []) (identity_sent x c h f g) (omega arith)
              (omega (arith, frame_length b))
              (record {
                takes = g.takes;
                handle_fits = g.handle_fits;
                options_fits = g.options_fits;
              })
              f.context_fits,
          frame_read b (omega arith),
          body_parsed x env.local_ip env.local_port i p,
        )
        refl
