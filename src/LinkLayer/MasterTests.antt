-- ===== src/LinkLayer/MasterTests.antt =====
-- The unbalanced master of the link layer at concrete states. The application layer counts what it
-- gets.
use lib.Prelude.{ℕ, ◌+◌, ◌≡◌, refl, true, false, none, some, [], ◌∷◌, arith}
use lib.LinkLayer.Frame.{LinkLayerParameters, fixed_frame}
use lib.LinkLayer.PrimaryBalanced.{
  PrimaryState, execute_service_send_confirm, link_layers_available,
}
use lib.LinkLayer.PrimaryUnbalanced.SlaveConnection.{Slave, Application, Link, Answer}
use lib.LinkLayer.PrimaryUnbalanced.Run.{run_slave}
use lib.LinkLayer.PrimaryUnbalanced.{
  Master, new_slave, nth_slave, add_slave_connection, run_state_machine, schedule, send_broadcast,
  handle_message, sender,
}
use lib.LinkLayer.PrimaryUnbalanced.Turns.{here, next, add, run, one_slave_waits}
use lib.LinkLayer.PrimaryUnbalanced.Blocked.{run_at, busy_answer_blocks}
use lib.LinkLayer.PrimaryUnbalanced.Stuck.{
  class_1_not_repeated, test_function_never_ends, test_rounds, test_frames,
}

abbrev parameters : LinkLayerParameters
parameters = record {
  address_length = 1;
  timeout_for_ack = 200;
  timeout_repeat = 1000;
  use_single_char_ack = true;
  timeout_link_state = 5000;
}

abbrev counter : Application ℕ
counter = record {
  user_data = λ a address msg start size. a + 1;
  access_demand = λ a address. a;
  state_changed = λ a address state. a;
}

abbrev empty_master : Master ℕ
empty_master = record {
  current_slave = none;
  current_slave_index = 0;
  has_next_broadcast_to_send = false;
  next_broadcast_message = [];
  parameters = parameters;
  slaves = [];
  app = 0;
  sent = [];
}

abbrev polled : Master ℕ
polled = run_state_machine counter 10 (add_slave_connection 5 empty_master)

polled_slave : Slave
polled_slave = record (new_slave 5) {
  primary_state = PrimaryState.execute_request_status_of_link;
  last_send_time = 10;
  waiting_for_response = true;
}

polled_at : nth_slave polled.slaves 0 ≡ some polled_slave
unfolding run_state_machine schedule send_broadcast add_slave_connection run_slave polled_slave
polled_at = refl

one_slave_waits_example : polled.current_slave ≡ some 0
unfolding polled_slave
one_slave_waits_example =
    one_slave_waits counter 0 polled_slave refl
      (next (next here (add 5 empty_master)) (run 10 (add_slave_connection 5 empty_master)))
      polled_at refl

-- Station 5 was sent a message, and answers that it is busy; station 6 is never polled.
abbrev sending : Slave
sending = record (new_slave 5) {
  primary_state = execute_service_send_confirm;
  has_message_to_send = true;
  waiting_for_response = true;
}

abbrev two_stations : Master ℕ
two_stations = record empty_master {
  current_slave = some 0;
  current_slave_index = 1;
  slaves = sending ∷ new_slave 6 ∷ [];
}

abbrev busy_answer : Answer
busy_answer = record {
  fc = 0;
  acd = false;
  dfc = true;
  address = some 5;
  msg = [];
  user_data_start = 0;
  user_data_length = 0;
}

busy_answer_blocks_example :
    run_at counter (100 ∷ 90000 ∷ []) (handle_message counter 50 busy_answer two_stations)
    ≡ handle_message counter 50 busy_answer two_stations
unfolding sender
busy_answer_blocks_example =
    busy_answer_blocks counter (100 ∷ 90000 ∷ []) 50 0 busy_answer sending two_stations refl refl
      refl refl refl refl refl

abbrev ready : Link ℕ
ready = record {
  slave = record (new_slave 5) { primary_state = link_layers_available };
  parameters = parameters;
  app = 0;
  sent = [];
}

class_1_not_repeated_example :
    let l = record ready { slave = record ready.slave { request_class_1_data = true } } in
    (run_slave counter 300 (run_slave counter 50 l)).sent
    ≡ fixed_frame 1 11 5 true false true true ∷ fixed_frame 1 10 5 true false true true ∷ []
class_1_not_repeated_example =
    class_1_not_repeated counter 50 300
      (record ready { slave = record ready.slave { request_class_1_data = true } }) refl refl refl
      refl (omega arith) (omega arith)

test_function_never_ends_example :
    let l = record ready {
      slave = record ready.slave {
        send_link_layer_test_function = true;
        has_message_to_send = true;
      };
    } in
    let r = test_rounds counter ((1, 2) ∷ (3, 4) ∷ []) l in
    (r.slave.send_link_layer_test_function ≡ true)
    × (r.slave.has_message_to_send ≡ true)
    × (r.sent ≡ test_frames 1 5 ((1, 2) ∷ (3, 4) ∷ []) true [])
test_function_never_ends_example =
    test_function_never_ends counter ((1, 2) ∷ (3, 4) ∷ [])
      (record ready {
        slave = record ready.slave {
          send_link_layer_test_function = true;
          has_message_to_send = true;
        };
      })
      refl refl
