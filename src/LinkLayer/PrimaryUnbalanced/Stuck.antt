-- ===== src/LinkLayer/PrimaryUnbalanced/Stuck.antt =====
-- Ways in which the unbalanced master of link_layer.c does not do what it means to.
use lib.Prelude.{
  ℕ, ◌+◌, ◌≤◌, ◌<◌, ◌≡◌, refl, sym, ap, subst, ◌∙◌, Bool, true, false, not, Option, some, List, [],
  ◌∷◌, arith,
}
use lib.LinkLayer.Frame.{
  fixed_frame, fc_test_function_for_link, fc_request_user_data_class_1,
  fc_request_user_data_class_2, fc_ack,
}
use lib.LinkLayer.PrimaryBalanced.{
  PrimaryState, link_layers_available, execute_service_request_respond,
}
use lib.LinkLayer.PrimaryUnbalanced.SlaveConnection.{
  Link, Answer, Application, send_fixed, handle_answer,
}
use lib.LinkLayer.PrimaryUnbalanced.Run.{run_slave, run_in, run_request_respond}

not-not : (b : Bool) → not (not b) ≡ b
not-not b = ground arith

-- The messages sent, the latest first, if every round sends a test frame, with alternating frame
-- count bits.
abbrev pub test_frames : ℕ → ℕ → List (ℕ × ℕ) → Bool → List (List ℕ) → List (List ℕ)
test_frames address_length address [] fcb sent = sent
test_frames address_length address (t ∷ times) fcb sent =
    test_frames address_length address times (not fcb)
      (fixed_frame address_length fc_test_function_for_link address true false fcb true ∷ sent)

module _ {A : Type 0} (application : Application A) where
  run_slave-in :
      (now : ℕ) (l : Link A) (state : PrimaryState)
      → l.slave.primary_state ≡ state
      → run_slave application now l ≡ run_in application state now l
  unfolding run_slave
  run_slave-in now l state h = ap (λ state. run_in application state now l) h

  -- The octets of a request to the slave.
  abbrev pub request_frame : ℕ → Bool → Link A → List ℕ
  request_frame fc fcb l =
      fixed_frame l.parameters.address_length fc l.slave.address true false fcb true

  -- The slave after a request of function `fc`.
  abbrev asked : ℕ → ℕ → Link A → Link A
  asked fc now l = record l {
    slave = record l.slave {
      next_fcb = not l.slave.next_fcb;
      last_send_time = now;
      original_send_time = now;
      waiting_for_response = true;
      primary_state = execute_service_request_respond;
    };
    sent = request_frame fc l.slave.next_fcb l ∷ l.sent;
  }

  abbrev class_1_asked : ℕ → Link A → Link A
  class_1_asked now l =
      let q = asked fc_request_user_data_class_1 now l in
      record q { slave = record q.slave { request_class_1_data = false } }

  polled :
      (now : ℕ) (l : Link A)
      → l.slave.primary_state ≡ link_layers_available
      → l.slave.send_link_layer_test_function ≡ false
      → l.slave.has_message_to_send ≡ false
      → l.slave.request_class_1_data ≡ true
      → run_slave application now l ≡ class_1_asked now l
  unfolding run_in
  polled now l ha ht hm hr = run_slave-in now l link_layers_available ha ∙ rw (ht, hm, hr) refl

  -- Once the answer to a request is overdue, and before the master gives up.
  respond_due :
      (now : ℕ) (l : Link A)
      → l.slave.request_class_1_data ≡ false
      → l.slave.last_send_time + l.parameters.timeout_for_ack < now
      → now ≤ l.slave.original_send_time + l.parameters.timeout_repeat
      → (run_request_respond application now l).sent
        ≡ request_frame fc_request_user_data_class_2 (not l.slave.next_fcb) l ∷ l.sent
  unfolding run_request_respond send_fixed
  respond_due now l hr due last = ground arith

  -- If the request for class 1 data of a slave without other tasks is not answered in time, the
  -- master does not repeat it: it sends a request for class 2 data, with the same frame count bit.
  pub class_1_not_repeated :
      (t0 t1 : ℕ) (l : Link A)
      → l.slave.primary_state ≡ link_layers_available
      → l.slave.send_link_layer_test_function ≡ false
      → l.slave.has_message_to_send ≡ false
      → l.slave.request_class_1_data ≡ true
      → t0 + l.parameters.timeout_for_ack < t1
      → t1 ≤ t0 + l.parameters.timeout_repeat
      → (run_slave application t1 (run_slave application t0 l)).sent
        ≡ request_frame fc_request_user_data_class_2 l.slave.next_fcb l
          ∷ request_frame fc_request_user_data_class_1 l.slave.next_fcb l
          ∷ l.sent
  unfolding run_in
  class_1_not_repeated t0 t1 l ha ht hm hr due last =
      let q = class_1_asked t0 l in
      ap (λ x. (run_slave application t1 x).sent) (polled t0 l ha ht hm hr)
      ∙ ap (λ x. x.sent) (run_slave-in t1 q execute_service_request_respond refl)
      ∙ respond_due t1 q refl due last
      ∙ ap (λ b. request_frame fc_request_user_data_class_2 b l ∷ q.sent) (not-not l.slave.next_fcb)

  test_sent :
      (now : ℕ) (l : Link A)
      → l.slave.primary_state ≡ link_layers_available
      → l.slave.send_link_layer_test_function ≡ true
      → run_slave application now l ≡ asked fc_test_function_for_link now l
  unfolding run_in
  test_sent now l ha ht = run_slave-in now l link_layers_available ha ∙ rw (ht) refl

  -- The acknowledgement of a test frame, by a slave that has no data and is not busy.
  abbrev acknowledgement : Option ℕ → Answer
  acknowledgement address = record {
    fc = fc_ack;
    acd = false;
    dfc = false;
    address = address;
    msg = [];
    user_data_start = 0;
    user_data_length = 0;
  }

  -- The master runs at the first time, and gets the acknowledgement at the second one.
  abbrev pub test_round : ℕ × ℕ → Link A → Link A
  test_round (t0, t1) l =
      handle_answer application t1 (acknowledgement (some l.slave.address))
        (run_slave application t0 l)

  abbrev pub test_rounds : List (ℕ × ℕ) → Link A → Link A
  test_rounds [] l = l
  test_rounds (t ∷ times) l = test_rounds times (test_round t l)

  record Testing (l r : Link A) : Type 0 where
    available : r.slave.primary_state ≡ link_layers_available
    still_testing : r.slave.send_link_layer_test_function ≡ true
    message_waits : r.slave.has_message_to_send ≡ l.slave.has_message_to_send
    other_fcb : r.slave.next_fcb ≡ not l.slave.next_fcb
    same_address : r.slave.address ≡ l.slave.address
    same_length : r.parameters.address_length ≡ l.parameters.address_length
    test_frame : r.sent ≡ request_frame fc_test_function_for_link l.slave.next_fcb l ∷ l.sent

  acknowledged-Testing :
      (t0 t1 : ℕ) (l : Link A)
      → l.slave.send_link_layer_test_function ≡ true
      → Testing l (
          handle_answer application t1
            (acknowledgement (some l.slave.address))
            (asked fc_test_function_for_link t0 l))
  unfolding handle_answer
  acknowledged-Testing t0 t1 l ht = ground arith

  test_round-Testing :
      (t : ℕ × ℕ) (l : Link A)
      → l.slave.primary_state ≡ link_layers_available
      → l.slave.send_link_layer_test_function ≡ true
      → Testing l (test_round t l)
  test_round-Testing (t0, t1) l ha ht =
      subst
        (λ x. Testing l (handle_answer application t1 (acknowledgement (some l.slave.address)) x))
        (sym (test_sent t0 l ha ht)) (acknowledged-Testing t0 t1 l ht)

  -- Once a test of the link is asked for at an available slave, the master sends a test frame in every
  -- turn of the slave, however often they are acknowledged: the flag stays set, and a message of the
  -- application for the slave still waits.
  pub test_function_never_ends :
      (times : List (ℕ × ℕ)) (l : Link A)
      → l.slave.primary_state ≡ link_layers_available
      → l.slave.send_link_layer_test_function ≡ true
      → let r = test_rounds times l in
        (r.slave.send_link_layer_test_function ≡ true)
        × (r.slave.has_message_to_send ≡ l.slave.has_message_to_send)
        × (r.sent
            ≡ test_frames l.parameters.address_length l.slave.address times l.slave.next_fcb l.sent)
  test_function_never_ends [] l ha ht = (ht, refl, refl)
  test_function_never_ends (t ∷ times) l ha ht =
      let r = test_round t l in
      let j = test_round-Testing t l ha ht in
      let (still, waits, frames) = test_function_never_ends times r j.available j.still_testing in
      (
        still,
        waits ∙ j.message_waits,
        frames ∙ rw (j.same_length, j.same_address, j.other_fcb, j.test_frame) refl,
      )
