-- ===== src/Client/Tests.antt =====
-- A client that is answered by a server with the attributes that NewServer starts with.
use gologix.Base.{ℕ, ◌+◌, ◌≡◌, refl, [], ◌∷◌, Option, true, none, some, ◌==◌, if◌then◌else◌, arith}
use gologix.Base.Result.{ok, err, panic, unexpected_eof}
use gologix.Text.{codes}
use gologix.Identity.{AttributeValue, int16, uint32, string}
use gologix.Identity.Answer.{Identity, answer}
use gologix.Server.Session.{Session, Env, one}
use gologix.Server.Session
use gologix.Server.Serve.{round}
use gologix.Client.{Client, send_msg_build, register_session, list_services, request_identity}
use gologix.Client.Served.{IsClient, IsReady, arrived, served}
use gologix.Client.Handshake.{registration, register_session-served}
use gologix.Connections.{get_by_ot, get_by, get_in}
use gologix.Client.Opening.{open_connection, next_connection_serial_number, serial_loop}
use gologix.Client.Opened.{IsOriginator}
use gologix.Client.Connecting.{message, open_connection-served}
use gologix.Client.Discovery.{list_services-served, request_identity-served}

abbrev attributes : ℕ → Option AttributeValue
attributes k =
    if k == 1
    then some (int16 0x1776)
    else if k == 2
    then some (int16 0x000E)
    else if k == 3
    then some (int16 0x0001)
    else if k == 4
    then some (int16 0x1412)
    else if k == 5
    then some (int16 0x3060)
    else if k == 6
    then some (uint32 305419896)
    else if k == 7
    then some (string (codes "Gologix"))
    else none

abbrev product : Identity
product = record {
  vendor = 0x1776;
  device_type = 0x000E;
  product_code = 0x0001;
  revision = 0x1412;
  status = 0x3060;
  serial_number = 305419896;
  product_name = codes "Gologix";
}

abbrev server : Env ℕ (Unit {0})
server = record {
  tag_read = λ p tag qty w. (panic, w);
  tag_write = λ p tag d w. (panic, w);
  tag_list = λ p w. none;
  router = (1 ∷ 0 ∷ [], tt) ∷ [];
  attributes = attributes;
  other_attribute = λ n. one (Session.Element.string []);
  local_ip = none;
  local_port = 44818;
  random = λ n. n + 1000;
}

abbrev session : Session ℕ
session = record {
  input = [];
  sent = [];
  writable = true;
  handle = 0;
  options = 0;
  context = 0;
  ot = 0;
  to = 0;
  sequencer = 0;
  drawn = 3;
  connections = record { connections = [] };
  world = 42;
}

abbrev client : Client
client = record {
  session_handle = 0;
  ot_network_connection_id = 0;
  header_sequence_counter = 65535;
  connection_size = 4000;
  connection_serial_number = 0;
  context = 123456789;
  sequence_number = 41;
  connection_serial_value = 65535;
  path = 1 ∷ 0 ∷ [];
  vendor_id = 0x9999;
  serial_number = 42;
  rpi = 2500000;
}

client-IsClient : IsClient client
client-IsClient = record { session_handle_fits = omega arith; context_fits = omega arith }

session-IsReady : IsReady session
session-IsReady = record { takes = refl; handle_fits = omega arith; options_fits = omega arith }

abbrev disconnect : Client → Client
disconnect c = c

register_session-served_example :
    ((register_session (served server session) disconnect client).0 ≡ ok tt)
    × ((register_session (served server session) disconnect client).1.session_handle ≡ 1003)
    × ((round server (arrived server session (send_msg_build 0x65 registration client).0)).1.handle
        ≡ 1003)
    × ((round server (arrived server session (send_msg_build 0x65 registration client).0)).1.input
        ≡ [])
register_session-served_example =
    register_session-served server session disconnect client client-IsClient session-IsReady
      (omega arith)

list_services-served_example :
    list_services (served server session) disconnect client
    ≡ (err unexpected_eof, (send_msg_build 0x04 [] client).1)
list_services-served_example =
    list_services-served server session disconnect client client-IsClient session-IsReady

request_identity-served_example :
    (request_identity (served server session) disconnect client).0 ≡ ok (answer product none 44818)
request_identity-served_example =
    request_identity-served server session disconnect product client
      (record {
        attr_1 = refl;
        attr_2 = refl;
        attr_3 = refl;
        attr_4 = refl;
        attr_5 = refl;
        attr_6 = refl;
        attr_7 = refl;
      })
      (record {
        vendor_fits = omega arith;
        device_type_fits = omega arith;
        product_code_fits = omega arith;
        revision_fits = omega arith;
        status_fits = omega arith;
        serial_number_fits = omega arith;
      })
      (omega arith) client-IsClient session-IsReady

-- The counter of serial numbers stands before one whose low 16 bits are 0.
serial_over_zero : next_connection_serial_number 65535 ≡ (1, 65537)
unfolding next_connection_serial_number serial_loop
serial_over_zero = refl

client-IsOriginator : IsOriginator client
client-IsOriginator = record {
  client = client-IsClient;
  is_large = omega arith;
  size_fits = omega arith;
  vendor_fits = omega arith;
  serial_fits = omega arith;
  rpi_fits = omega arith;
  ids_fit = omega arith;
  words = 1;
  words_fit = omega arith;
  path_words = refl;
}

abbrev delivered : Session ℕ
delivered =
    (round server (
      arrived server session (
        message server session disconnect client client-IsOriginator session-IsReady 1 0 []
          refl))).1

open_connection-served_example :
    ((open_connection (served server session) disconnect client).0 ≡ ok tt)
    × ((open_connection (served server session) disconnect client).1.ot_network_connection_id ≡ 42)
    × (get_by_ot 42 delivered.connections
        ≡ ok (record {
          id = (next_connection_serial_number 65535).0;
          ot = 42;
          to = 43;
          rpi = 2500000;
          path = 1 ∷ 0 ∷ [];
          is_open = true;
        }))
unfolding get_by_ot get_by get_in
open_connection-served_example =
    open_connection-served server session disconnect client client-IsOriginator session-IsReady 1 0
      [] refl refl
