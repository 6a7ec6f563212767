-- ===== src/LinkLayer/PrimaryUnbalanced/Run.antt =====
-- `LinkLayerSlaveConnection_runStateMachine` of link_layer.c.
use lib.Prelude.{ℕ, ◌+◌, Bool, true, false, not, ◌||◌, ltb, if◌then◌else◌}
use lib.LinkLayer.Frame.{
  fc_reset_remote_link, fc_test_function_for_link, fc_request_link_status,
  fc_request_user_data_class_1, fc_request_user_data_class_2,
}
use lib.LinkLayer.Frame
use lib.LinkLayer.PrimaryBalanced.{
  PrimaryState, idle, execute_request_status_of_link, execute_reset_remote_link,
  link_layers_available, execute_service_send_confirm, execute_service_request_respond,
  secondary_link_layer_busy, timeout,
}
use lib.LinkLayer.PrimaryUnbalanced.SlaveConnection.{
  Slave, Application, Link, send_fixed, send_user_data, set_state, goto,
}

-- "last sent time not plausible"
abbrev pub plausible : ℕ → Slave → Slave
plausible now s = record s {
  last_send_time = if ltb now s.last_send_time then now else s.last_send_time;
}

-- A frame was sent for the first time at `now`, and the slave's answer to it is waited for in `next`.
abbrev pub waiting : ℕ → PrimaryState → Slave → Slave
waiting now next s = record s {
  next_fcb = not s.next_fcb;
  last_send_time = now;
  original_send_time = now;
  waiting_for_response = true;
  primary_state = next;
}

-- The slave does not answer.
abbrev pub timed_out : ℕ → Slave → Slave
timed_out now s = record s {
  waiting_for_response = false;
  last_send_time = now;
  primary_state = timeout;
}

module _ {A : Type 0} where
  abbrev pub ack_timeout : ℕ → Link A → Bool
  ack_timeout now l = ltb (l.slave.last_send_time + l.parameters.timeout_for_ack) now

  abbrev pub repeat_timeout : ℕ → Link A → Bool
  repeat_timeout now l = ltb (l.slave.original_send_time + l.parameters.timeout_repeat) now

  abbrev pub on_slave : (Slave → Slave) → Link A → Link A
  on_slave f l = record l { slave = f l.slave }

  unfoldable pub run_timeout : ℕ → Link A → Link A
  run_timeout now l0 =
      let l = on_slave (plausible now) l0 in
      if ltb (l.slave.last_send_time + l.parameters.timeout_link_state) now then goto idle l else l

  unfoldable pub run_idle : ℕ → Link A → Link A
  unfolding send_fixed
  run_idle now l =
      on_slave
        (λ s. record s {
          original_send_time = 0;
          send_link_layer_test_function = false;
          last_send_time = now;
          waiting_for_response = true;
          primary_state = execute_request_status_of_link;
        })
        (send_fixed fc_request_link_status false false l)

  unfoldable pub run_request_status : ℕ → Link A → Link A
  unfolding send_fixed
  run_request_status now l =
      let p = on_slave (plausible now) l in
      let reset =
        on_slave
          (λ s. record s {
            last_send_time = now;
            waiting_for_response = true;
            next_fcb = true;
            primary_state = execute_reset_remote_link;
          })
          (send_fixed fc_reset_remote_link false false l) in
      if l.slave.waiting_for_response
      then (if ack_timeout now p then on_slave (timed_out now) p else p)
      else reset

  unfoldable pub send_test : ℕ → Link A → Link A
  unfolding send_fixed
  send_test now l =
      on_slave (waiting now execute_service_request_respond)
        (send_fixed fc_test_function_for_link l.slave.next_fcb true l)

  unfoldable pub send_message : ℕ → Link A → Link A
  unfolding send_user_data
  send_message now l =
      on_slave (waiting now execute_service_send_confirm) (send_user_data l.slave.next_fcb l)

  unfoldable pub send_request : ℕ → Link A → Link A
  unfolding send_fixed
  send_request now l =
      let class_1 =
        on_slave (λ s. record s { request_class_1_data = false })
          (send_fixed fc_request_user_data_class_1 l.slave.next_fcb true l) in
      let class_2 =
        on_slave (λ s. record s { request_class_2_data = false })
          (send_fixed fc_request_user_data_class_2 l.slave.next_fcb true l) in
      on_slave (waiting now execute_service_request_respond)
        (if l.slave.request_class_1_data then class_1 else class_2)

  unfoldable pub run_available : ℕ → Link A → Link A
  unfolding send_test send_message send_request
  run_available now l =
      if l.slave.send_link_layer_test_function
      then send_test now l
      else if l.slave.has_message_to_send
      then send_message now l
      else if l.slave.request_class_1_data || l.slave.request_class_2_data
      then send_request now l
      else l

  -- The last message again, with the FCB that it had.
  unfoldable pub repeat_message : Link A → Link A
  unfolding send_fixed send_user_data
  repeat_message l =
      if l.slave.send_link_layer_test_function
      then send_fixed fc_test_function_for_link (not l.slave.next_fcb) true l
      else send_user_data (not l.slave.next_fcb) l

  unfoldable pub repeat_request : Link A → Link A
  unfolding send_fixed
  repeat_request l =
      if l.slave.request_class_1_data
      then send_fixed fc_request_user_data_class_1 (not l.slave.next_fcb) true l
      else send_fixed fc_request_user_data_class_2 (not l.slave.next_fcb) true l

module _ {A : Type 0} (application : Application A) where
  unfoldable pub run_reset : ℕ → Link A → Link A
  unfolding set_state
  run_reset now l =
      let p = on_slave (plausible now) l in
      if l.slave.waiting_for_response
      then (if ack_timeout now p
          then set_state application Frame.error (on_slave (timed_out now) p)
          else p)
      else set_state application Frame.available (goto link_layers_available l)

  unfoldable pub run_send_confirm : ℕ → Link A → Link A
  unfolding set_state repeat_message
  run_send_confirm now l =
      let p = on_slave (plausible now) l in
      if ack_timeout now p
      then (if repeat_timeout now p
          then set_state application Frame.error (on_slave (timed_out now) p)
          else on_slave (λ s. record s { last_send_time = now }) (repeat_message p))
      else p

  unfoldable pub run_request_respond : ℕ → Link A → Link A
  unfolding set_state repeat_request
  run_request_respond now l =
      let p = on_slave (plausible now) l in
      let given_up = λ (s : Slave). record s {
        request_class_1_data = false;
        request_class_2_data = false;
        primary_state = idle;
      } in
      if ack_timeout now p
      then (if repeat_timeout now p
          then set_state application Frame.error (on_slave given_up p)
          else on_slave (λ s. record s { last_send_time = now }) (repeat_request p))
      else p

  unfoldable pub run_in : PrimaryState → ℕ → Link A → Link A
  unfolding run_timeout run_idle run_request_status run_reset run_available run_send_confirm
      run_request_respond
  run_in timeout now l = run_timeout now l
  run_in idle now l = run_idle now l
  run_in execute_request_status_of_link now l = run_request_status now l
  run_in execute_reset_remote_link now l = run_reset now l
  run_in link_layers_available now l = run_available now l
  run_in execute_service_send_confirm now l = run_send_confirm now l
  run_in execute_service_request_respond now l = run_request_respond now l
  run_in secondary_link_layer_busy now l = l

  unfoldable pub run_slave : ℕ → Link A → Link A
  unfolding run_in
  run_slave now l = run_in l.slave.primary_state now l
