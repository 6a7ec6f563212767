-- ===== src/LinkLayer/PrimaryBalanced/Repeat.antt =====
-- Repetition of an unacknowledged message: `PLL_EXECUTE_SERVICE_SEND_CONFIRM` of
-- `LinkLayerPrimaryBalanced_runStateMachine`.
use lib.Prelude.{
  ℕ, ◌+◌, ◌-◌, ◌≤◌, ◌<◌, true, false, not, ◌||◌, Option, some, List, ◌≡◌, refl, ◌∙◌, ap, sym, subst,
  ltb, arith, ◌≢◌, if◌then◌else◌, take, if_cases,
}
use lib.LinkLayer.Frame.{
  LinkLayerParameters, send, fc_test_function_for_link, fc_user_data_confirmed, fixed_frame,
  variable_length_frame,
}
use lib.LinkLayer.PrimaryBalanced.{
  PrimaryState, UserData, Application, Primary, execute_service_send_confirm, link_layers_available,
  own, in_buffer, no_data, buffer_size, user_data_bytes, send_fixed, send_user_data,
}
use lib.LinkLayer.PrimaryBalanced.Run.{
  run_in, run_state_machine, run_available, sent_first, send_first, run_send_confirm, repeat,
}

module _ {A : Type 0} (application : Application A) where
  available≢confirm : link_layers_available ≢ execute_service_send_confirm
  available≢confirm = λ e. ground arith

  pub run_state_machine-in :
      (now : ℕ) (p : Primary A) (state : PrimaryState)
      → p.primary_state ≡ state
      → run_state_machine application now p ≡ run_in application state now p
  unfolding run_state_machine
  run_state_machine-in now p state h = ap (λ state. run_in application state now p) h

  -- The message of a repetition.
  abbrev pub repeated : Primary A → Option (List ℕ)
  repeated p =
      let n = p.parameters.address_length in
      if p.send_link_layer_test_function
      then some (
          fixed_frame n fc_test_function_for_link p.other_station_address true p.dir
            (not p.next_fcb) true)
      else variable_length_frame n fc_user_data_confirmed p.other_station_address true p.dir
          (not p.next_fcb) true (take p.last_send_size p.user_data_buffer)

  repeat-sent : (p : Primary A) → (repeat application p).sent ≡ send (repeated p) p.sent
  unfolding repeat send_fixed send_user_data
  repeat-sent p = ground arith

  run_send_confirm-due :
      (now : ℕ) (p : Primary A)
      → p.last_send_time + p.parameters.timeout_for_ack < now
      → now ≤ p.original_send_time + p.parameters.timeout_repeat
      → run_send_confirm application now p
        ≡ record (repeat application (record p { last_send_time = p.last_send_time })) {
          last_send_time = now;
        }
  unfolding run_send_confirm
  run_send_confirm-due now p due last = ground arith

  -- A message whose acknowledgement is overdue is sent again.
  pub run_state_machine-due :
      (now : ℕ) (p : Primary A)
      → p.primary_state ≡ execute_service_send_confirm
      → p.last_send_time + p.parameters.timeout_for_ack < now
      → now ≤ p.original_send_time + p.parameters.timeout_repeat
      → (run_state_machine application now p).sent ≡ send (repeated p) p.sent
  unfolding run_in
  run_state_machine-due now p h due last =
      ap (λ q. q.sent)
        (run_state_machine-in now p execute_service_send_confirm h
          ∙ run_send_confirm-due now p due last)
      ∙ repeat-sent p

  -- A station that has just sent a message for the first time.
  record JustSent (now : ℕ) (earlier : List (List ℕ)) (parameters : LinkLayerParameters)
      (q : Primary A) : Type 0 where
    message_sent : q.sent ≡ send (repeated q) earlier
    state : q.primary_state ≡ execute_service_send_confirm
    at : q.last_send_time ≡ now
    first_at : q.original_send_time ≡ now
    same_parameters : q.parameters ≡ parameters

  test_function-JustSent :
      (now : ℕ) (q : Primary A)
      → q.send_link_layer_test_function ≡ true
      → JustSent now q.sent q.parameters (
          sent_first application now
            (send_fixed application fc_test_function_for_link q.next_fcb true q))
  unfolding send_fixed
  test_function-JustSent now q ht = record {
    message_sent = ground arith;
    state = refl;
    at = refl;
    first_at = refl;
    same_parameters = refl;
  }

  send_first-JustSent :
      (now : ℕ) (bytes : List ℕ) (q : Primary A)
      → q.send_link_layer_test_function ≡ false
      → bytes ≡ take q.last_send_size q.user_data_buffer
      → JustSent now q.sent q.parameters (send_first application now (some bytes) q)
  unfolding send_user_data
  send_first-JustSent now bytes q ht hb = record {
    message_sent = ground arith;
    state = refl;
    at = refl;
    first_at = refl;
    same_parameters = refl;
  }

  -- The bytes are in the buffer that is sent again, unless the frame is the application's own.
  user_data-JustSent :
      (now : ℕ) (reply : UserData) (q : Primary A)
      → q.send_link_layer_test_function ≡ false
      → q.last_send_size ≡ buffer_size reply
      → ((bytes : List ℕ) → reply ≢ own bytes)
      → q.primary_state ≡ link_layers_available
      → (send_first application now (user_data_bytes reply q.user_data_buffer) q).primary_state
        ≡ execute_service_send_confirm
      → JustSent now q.sent q.parameters
          (send_first application now (user_data_bytes reply q.user_data_buffer) q)
  user_data-JustSent now no_data q ht hn not_own ha hs = absurd (available≢confirm (sym ha ∙ hs))
  user_data-JustSent now (in_buffer n) q ht hn not_own ha hs =
      send_first-JustSent now (take n q.user_data_buffer) q ht
        (ap (λ m. take m q.user_data_buffer) (sym hn))
  user_data-JustSent now (own bytes) q ht hn not_own ha hs = absurd (not_own bytes refl)

  run_available-JustSent :
      (now : ℕ) (p : Primary A)
      → ((bytes : List ℕ) → (application.get_user_data p.app p.user_data_buffer).0 ≢ own bytes)
      → p.primary_state ≡ link_layers_available
      → (run_available application now p).primary_state ≡ execute_service_send_confirm
      → JustSent now p.sent p.parameters (run_available application now p)
  unfolding run_available
  run_available-JustSent now p not_own ha =
      let received = if ltb now p.last_received_msg then now else p.last_received_msg in
      let test = ltb p.idle_timeout (now - received) || p.send_link_layer_test_function in
      let q = record p { last_received_msg = received; send_link_layer_test_function = test } in
      let (reply, buffer, app) = application.get_user_data p.app p.user_data_buffer in
      if_cases
        (λ r. r.primary_state ≡ execute_service_send_confirm → JustSent now p.sent p.parameters r)
        test (λ ht hs. test_function-JustSent now q ht)
        (λ ht hs.
          user_data-JustSent now reply
            (record q { user_data_buffer = buffer; last_send_size = buffer_size reply; app = app })
            ht refl not_own ha hs)

  first_transmission :
      (now : ℕ) (p : Primary A)
      → p.primary_state ≡ link_layers_available
      → ((bytes : List ℕ) → (application.get_user_data p.app p.user_data_buffer).0 ≢ own bytes)
      → (run_state_machine application now p).primary_state ≡ execute_service_send_confirm
      → JustSent now p.sent p.parameters (run_state_machine application now p)
  unfolding run_in
  first_transmission now p ha not_own hs =
      let e = run_state_machine-in now p link_layers_available ha in
      subst (JustSent now p.sent p.parameters) (sym e)
        (run_available-JustSent now p not_own ha (ap (λ q. q.primary_state) (sym e) ∙ hs))

  -- If the state machine of a primary station with a ready link starts to send a confirmed message
  -- that it encoded in its own buffer, or a test frame, and is next called between the
  -- acknowledgement timeout and the repetition timeout, it sends the same octets again: same frame
  -- count bit and same content. (A message too long for a frame is sent neither time.)
  pub repeat_identical :
      (t0 t1 : ℕ) (p : Primary A)
      → p.primary_state ≡ link_layers_available
      → ((bytes : List ℕ) → (application.get_user_data p.app p.user_data_buffer).0 ≢ own bytes)
      → (run_state_machine application t0 p).primary_state ≡ execute_service_send_confirm
      → t0 + p.parameters.timeout_for_ack < t1
      → t1 ≤ t0 + p.parameters.timeout_repeat
      → (m : Option (List ℕ)) × ((run_state_machine application t0 p).sent ≡ send m p.sent)
        × ((run_state_machine application t1 (run_state_machine application t0 p)).sent
            ≡ send m (send m p.sent))
  repeat_identical t0 t1 p ha not_own hs due last =
      let q = run_state_machine application t0 p in
      let j = first_transmission t0 p ha not_own hs in
      (
        repeated q,
        j.message_sent,
        run_state_machine-due t1 q j.state
              (rw (j.at, ap (λ x. x.timeout_for_ack) j.same_parameters) due)
              (rw (j.first_at, ap (λ x. x.timeout_repeat) j.same_parameters) last)
            ∙ ap (send (repeated q)) j.message_sent,
      )
