-- ===== src/LinkLayer/PrimaryBalanced/Run.antt =====
-- `LinkLayerPrimaryBalanced_runStateMachine` of link_layer.c.
use lib.Prelude.{
  ℕ, ◌+◌, ◌-◌, Bool, true, false, not, ◌||◌, Option, none, some, List, take, ltb, if◌then◌else◌,
}
use lib.LinkLayer.Frame.{fc_reset_remote_link, fc_test_function_for_link, fc_request_link_status}
use lib.LinkLayer.Frame
use lib.LinkLayer.PrimaryBalanced.{
  PrimaryState, Application, Primary, user_data_bytes, buffer_size, set_new_state, send_fixed,
  send_user_data, idle, execute_request_status_of_link, execute_reset_remote_link,
  link_layers_available, execute_service_send_confirm,
}

module _ {A : Type 0} (application : Application A) where
  open application use {get_user_data}

  -- "last sent time not plausible"
  abbrev pub plausible_send_time : ℕ → Primary A → Primary A
  plausible_send_time now p = record p {
    last_send_time = if ltb now p.last_send_time then now else p.last_send_time;
  }

  abbrev pub ack_timeout : ℕ → Primary A → Bool
  ack_timeout now p = ltb (p.last_send_time + p.parameters.timeout_for_ack) now

  unfoldable pub run_idle : ℕ → Primary A → Primary A
  unfolding send_fixed
  run_idle now p = record (send_fixed application fc_request_link_status false false p) {
    original_send_time = 0;
    send_link_layer_test_function = false;
    last_send_time = now;
    waiting_for_response = true;
    primary_state = execute_request_status_of_link;
  }

  unfoldable pub run_request_status : ℕ → Primary A → Primary A
  unfolding send_fixed
  run_request_status now p =
      let q = plausible_send_time now p in
      if p.waiting_for_response
      then (if ack_timeout now q then record q { primary_state = idle } else q)
      else record (send_fixed application fc_reset_remote_link false false p) {
        last_send_time = now;
        waiting_for_response = true;
        primary_state = execute_reset_remote_link;
      }

  unfoldable pub run_reset : ℕ → Primary A → Primary A
  unfolding set_new_state
  run_reset now p =
      let q = plausible_send_time now p in
      if p.waiting_for_response
      then (if ack_timeout now q
          then set_new_state application Frame.error
              (record q { waiting_for_response = false; primary_state = idle })
          else q)
      else set_new_state application Frame.available
          (record p { primary_state = link_layers_available })

  -- A frame with FCV was sent for the first time: the next one has the other FCB.
  abbrev pub sent_first : ℕ → Primary A → Primary A
  sent_first now p = record p {
    next_fcb = not p.next_fcb;
    last_send_time = now;
    original_send_time = now;
    primary_state = execute_service_send_confirm;
  }

  abbrev pub send_first : ℕ → Option (List ℕ) → Primary A → Primary A
  send_first now none p = p
  send_first now (some bytes) p =
      record (sent_first now (send_user_data application p.next_fcb bytes p)) {
        waiting_for_response = true;
      }

  unfoldable pub run_available : ℕ → Primary A → Primary A
  unfolding send_fixed send_user_data
  run_available now p0 =
      let received = if ltb now p0.last_received_msg then now else p0.last_received_msg in
      let p = record p0 {
        last_received_msg = received;
        send_link_layer_test_function =
            ltb p0.idle_timeout (now - received) || p0.send_link_layer_test_function;
      } in
      let (reply, buffer, app) = get_user_data p.app p.user_data_buffer in
      if p.send_link_layer_test_function
      then sent_first now (send_fixed application fc_test_function_for_link p.next_fcb true p)
      else send_first now (user_data_bytes reply buffer)
          (record p { user_data_buffer = buffer; last_send_size = buffer_size reply; app = app })

  -- The last frame again, with the FCB that it had.
  unfoldable pub repeat : Primary A → Primary A
  unfolding send_fixed send_user_data
  repeat p =
      if p.send_link_layer_test_function
      then send_fixed application fc_test_function_for_link (not p.next_fcb) true p
      else send_user_data application (not p.next_fcb) (take p.last_send_size p.user_data_buffer) p

  unfoldable pub run_send_confirm : ℕ → Primary A → Primary A
  unfolding set_new_state repeat
  run_send_confirm now p =
      let q = plausible_send_time now p in
      if ack_timeout now q
      then (if ltb (q.original_send_time + q.parameters.timeout_repeat) now
          then set_new_state application Frame.error (record q { primary_state = idle })
          else record (repeat q) { last_send_time = now })
      else q

  unfoldable pub run_in : PrimaryState → ℕ → Primary A → Primary A
  unfolding run_idle run_request_status run_reset run_available run_send_confirm
  run_in idle now p = run_idle now p
  run_in execute_request_status_of_link now p = run_request_status now p
  run_in execute_reset_remote_link now p = run_reset now p
  run_in link_layers_available now p = run_available now p
  run_in execute_service_send_confirm now p = run_send_confirm now p
  run_in _ now p = p

  -- `LinkLayerPrimaryBalanced_runStateMachine`
  unfoldable pub run_state_machine : ℕ → Primary A → Primary A
  unfolding run_in
  run_state_machine now p = run_in p.primary_state now p
