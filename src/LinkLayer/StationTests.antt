-- ===== src/LinkLayer/StationTests.antt =====
-- Stations of the link layer at concrete states. The application layer is a counter of the
-- messages that it takes or gives.
use lib.Prelude.{ℕ, ◌+◌, ◌≡◌, ◌≢◌, refl, true, false, Option, some, List, [], ◌∷◌, arith, inl}
use lib.LinkLayer.Frame.{
  LinkLayerParameters, available, send, control_field, address_field, checksum_from,
  variable_length_frame,
}
use lib.LinkLayer.Parser.{Request}
use lib.LinkLayer.SecondaryUnbalanced.{in_buffer}
use lib.LinkLayer.SecondaryUnbalanced
use lib.LinkLayer.SecondaryUnbalanced.Repeat.{user_data_repeated}
use lib.LinkLayer.SecondaryUnbalanced.Poll.{poll_repeated}
use lib.LinkLayer.SecondaryBalanced
use lib.LinkLayer.SecondaryBalanced.Repeat.{handle_message_repeated}
use lib.LinkLayer.Codec.{request_at}
use lib.LinkLayer.PrimaryBalanced.{
  execute_request_status_of_link, execute_service_send_confirm, link_layers_available,
  secondary_link_layer_busy,
}
use lib.LinkLayer.PrimaryBalanced
use lib.LinkLayer.PrimaryBalanced.Run.{run_state_machine}
use lib.LinkLayer.PrimaryBalanced.Repeat.{repeat_identical}
use lib.LinkLayer.PrimaryBalanced.Reconnect.{reconnected, reconnect_message_ignored}
use lib.LinkLayer.Stations.{Station, run, receive}
use lib.LinkLayer.Exchange.{confirmed_data_exchanged}
use lib.LinkLayer.PrimaryBalanced.Stuck.{refused_message_stops, run_at}

abbrev parameters : LinkLayerParameters
parameters = record {
  address_length = 1;
  timeout_for_ack = 200;
  timeout_repeat = 1000;
  use_single_char_ack = true;
  timeout_link_state = 5000;
}

abbrev outstation : SecondaryUnbalanced.Application ℕ
outstation = record {
  is_class_1_data_available = λ a. false;
  get_class_1_data = λ a buffer. (in_buffer 2, 7 ∷ 8 ∷ [], a + 1);
  get_class_2_data = λ a buffer. (in_buffer 2, 7 ∷ 9 ∷ [], a + 1);
  handle_received_data = λ a msg broadcast start size. a + 1;
  reset_cu_received = λ a only_fcb. a;
  state_changed = λ a state. a;
}

abbrev station : SecondaryUnbalanced.Secondary ℕ
station = record {
  state = available;
  expected_fcb = true;
  parameters = parameters;
  address = 5;
  last_received_msg = 0;
  idle_timeout = 500;
  user_data_buffer = [];
  user_data_size = 0;
  app = 0;
  sent = [];
}

abbrev request_with : ℕ → ℕ → Request
request_with fc size = record {
  fc = fc;
  is_broadcast = false;
  fcb = true;
  fcv = true;
  user_data_start = 6;
  user_data_length = size;
}

abbrev handle : Request → SecondaryUnbalanced.Secondary ℕ → SecondaryUnbalanced.Secondary ℕ
handle r s = SecondaryUnbalanced.handle_message outstation r [] s

user_data_repeated_example :
    (m : List ℕ) × ((handle (request_with 3 4) station).sent ≡ m ∷ [])
    × (handle (request_with 3 4) (handle (request_with 3 4) station)
        ≡ record (handle (request_with 3 4) station) { sent = m ∷ m ∷ [] })
user_data_repeated_example = user_data_repeated outstation (request_with 3 4) [] station refl refl

poll_repeated_example :
    (m : Option (List ℕ)) × ((handle (request_with 10 0) station).sent ≡ send m [])
    × (handle (request_with 10 0) (handle (request_with 10 0) station)
        ≡ record (handle (request_with 10 0) station) { sent = send m (send m []) })
poll_repeated_example =
    poll_repeated outstation (request_with 10 0) [] 2 (7 ∷ 8 ∷ []) 1 station (inl refl) refl refl
      refl refl (omega arith) (omega arith)

abbrev half : SecondaryBalanced.Secondary ℕ
half = record {
  expected_fcb = true;
  parameters = parameters;
  address = 5;
  dir = false;
  app = 0;
  sent = [];
}

abbrev count : SecondaryBalanced.Handler ℕ
count a msg broadcast start size = (true, a + 1)

handle_message_repeated_example :
    SecondaryBalanced.handle_message count
      (request_with 3 4)
      []
      (SecondaryBalanced.handle_message count (request_with 3 4) [] half)
    ≡ SecondaryBalanced.handle_message count (request_with 3 4) [] half
handle_message_repeated_example =
    handle_message_repeated count (request_with 3 4) [] half refl (omega arith)

abbrev source : PrimaryBalanced.Application ℕ
source = record {
  get_user_data = λ a buffer. (PrimaryBalanced.in_buffer 2, 7 ∷ 8 ∷ [], a + 1);
  state_changed = λ a state. a;
}

abbrev primary : PrimaryBalanced.Primary ℕ
primary = record {
  state = available;
  primary_state = link_layers_available;
  waiting_for_response = false;
  last_send_time = 0;
  original_send_time = 0;
  send_link_layer_test_function = false;
  next_fcb = true;
  other_station_address = 5;
  last_send_size = 0;
  user_data_buffer = [];
  last_received_msg = 900;
  idle_timeout = 5000;
  parameters = parameters;
  dir = true;
  app = 0;
  sent = [];
}

in_buffer≢own : (bytes : List ℕ) → PrimaryBalanced.in_buffer 2 ≢ PrimaryBalanced.own bytes
in_buffer≢own bytes e = cc

sends : (run_state_machine source 1000 primary).primary_state ≡ execute_service_send_confirm
unfolding run_state_machine
sends = refl

repeat_identical_example :
    (m : Option (List ℕ)) × ((run_state_machine source 1000 primary).sent ≡ send m [])
    × ((run_state_machine source 1300 (run_state_machine source 1000 primary)).sent
        ≡ send m (send m []))
repeat_identical_example =
    repeat_identical source 1000 1300 primary refl in_buffer≢own sends (omega arith) (omega arith)

refused_message_stops_example :
    let p = record primary { primary_state = execute_service_send_confirm } in
    run_at source (1000 ∷ 9000 ∷ []) (PrimaryBalanced.handle_message source 950 1 false p)
    ≡ PrimaryBalanced.handle_message source 950 1 false p
refused_message_stops_example =
    refused_message_stops source (1000 ∷ 9000 ∷ []) 950 1 false
      (record primary { primary_state = execute_service_send_confirm }) refl (inl refl)

-- A fresh peer expects a set frame count bit; both sides count what their applications get.
abbrev left : Station ℕ
left = record { primary = primary; expected_fcb = true; address = 3 }

abbrev right : Station ℕ
right = record {
  primary = record primary { dir = false; other_station_address = 3 };
  expected_fcb = true;
  address = 5;
}

abbrev data_message : List ℕ
data_message = 0x68 ∷ 4 ∷ 4 ∷ 0x68 ∷ 0xf3 ∷ 5 ∷ 7 ∷ 8 ∷ 7 ∷ 0x16 ∷ []

data_message_octets :
    variable_length_frame 1 3 5 true true true true (7 ∷ 8 ∷ []) ≡ some data_message
unfolding variable_length_frame control_field address_field checksum_from
data_message_octets = refl

confirmed_data_exchanged_example :
    let a1 = run source count 1000 left in
    let b1 = receive source count 1050 data_message 10 right in
    let a2 = receive source count 1100 (0xe5 ∷ []) 1 a1 in
    (a1.primary.sent ≡ data_message ∷ [])
    × (b1.primary.sent ≡ (0xe5 ∷ []) ∷ [])
    × (b1.primary.app ≡ 1)
    × (a2.primary.primary_state ≡ link_layers_available)
    × (a2.primary.waiting_for_response ≡ false)
    × (b1.expected_fcb ≡ a2.primary.next_fcb)
confirmed_data_exchanged_example =
    confirmed_data_exchanged source source count count 1000 1050 1100 2 (7 ∷ 8 ∷ []) data_message 1
      1 left right refl refl (omega arith) refl (omega arith) data_message_octets refl (omega arith)
      (omega arith) refl refl

-- The link of a station that has sent an odd number of messages is set up again.
abbrev restarted : PrimaryBalanced.Primary ℕ
restarted = record primary { primary_state = execute_request_status_of_link; next_fcb = false }

reconnect_message_ignored_example :
    let q = reconnected source 1000 1010 restarted in
    ((run_state_machine source 1020 q).sent
      ≡ send (variable_length_frame 1 3 5 true true false true (7 ∷ 8 ∷ [])) q.sent)
    × (SecondaryBalanced.handle_message count
          (request_at 6 2 3 false true)
          data_message
          (SecondaryBalanced.handle_message count (request_at 0 0 0 false false) [] half)
        ≡ SecondaryBalanced.handle_message count (request_at 0 0 0 false false) [] half)
unfolding PrimaryBalanced.handle_message
reconnect_message_ignored_example =
    reconnect_message_ignored source count 1000 1010 1020 2 6 2 (7 ∷ 8 ∷ []) [] data_message 1
      restarted half refl refl refl (omega arith) refl
