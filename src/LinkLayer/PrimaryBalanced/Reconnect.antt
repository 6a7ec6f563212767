-- ===== src/LinkLayer/PrimaryBalanced/Reconnect.antt =====
-- The frame count bit after the link was reset, on both sides of a balanced link.
use lib.Prelude.{
  ℕ, ◌-◌, ◌≤◌, ◌≡◌, refl, ap, ◌∙◌, true, false, ◌||◌, List, take, ltb, arith, if◌then◌else◌,
}
use lib.LinkLayer.Frame.{variable_length_frame, send, fc_reset_remote_link, fc_user_data_confirmed}
use lib.LinkLayer.Codec.{request_at}
use lib.LinkLayer.PrimaryBalanced.{
  Application, Primary, in_buffer, execute_request_status_of_link, link_layers_available,
  handle_message,
}
use lib.LinkLayer.PrimaryBalanced.Run.{run_in, run_state_machine}
use lib.LinkLayer.PrimaryBalanced.Repeat.{run_state_machine-in}
use lib.LinkLayer.SecondaryBalanced.{Secondary, Handler}
use lib.LinkLayer.SecondaryBalanced

module _ {A : Type 0} (application : Application A) where
  -- The status of the link and the acknowledgement of the reset arrive.
  abbrev pub reconnected : ℕ → ℕ → Primary A → Primary A
  reconnected t0 t1 p =
      handle_message application t1 0 false (handle_message application t0 11 false p)

  record Ready (t1 : ℕ) (p q : Primary A) : Type 0 where
    available : q.primary_state ≡ link_layers_available
    same_fcb : q.next_fcb ≡ p.next_fcb
    no_test : q.send_link_layer_test_function ≡ p.send_link_layer_test_function
    received : q.last_received_msg ≡ t1
    same_timeout : q.idle_timeout ≡ p.idle_timeout

  reconnected-Ready :
      (t0 t1 : ℕ) (p : Primary A)
      → p.primary_state ≡ execute_request_status_of_link
      → Ready t1 p (reconnected t0 t1 p)
  unfolding handle_message
  reconnected-Ready t0 t1 p h = ground arith

  pub no_test :
      (t1 t2 : ℕ) (q : Primary A)
      → q.send_link_layer_test_function ≡ false
      → q.last_received_msg ≡ t1
      → t2 - t1 ≤ q.idle_timeout
      → (ltb q.idle_timeout (t2 - (if ltb t2 q.last_received_msg then t2 else q.last_received_msg))
          || q.send_link_layer_test_function)
        ≡ false
  no_test t1 t2 q ht hr hi = ground arith

  run_available-sends :
      (t1 t2 n : ℕ) (buffer : List ℕ) (app : A) (q : Primary A)
      → application.get_user_data q.app q.user_data_buffer ≡ (in_buffer n, buffer, app)
      → q.primary_state ≡ link_layers_available
      → q.send_link_layer_test_function ≡ false
      → q.last_received_msg ≡ t1
      → t2 - t1 ≤ q.idle_timeout
      → (run_state_machine application t2 q).sent
        ≡ send
            (variable_length_frame q.parameters.address_length fc_user_data_confirmed
              q.other_station_address true q.dir q.next_fcb true
              (take n buffer))
            q.sent
  unfolding run_in
  run_available-sends t1 t2 n buffer app q hg ha ht hr hi =
      ap (λ x. x.sent) (run_state_machine-in application t2 q link_layers_available ha)
      ∙ rw (no_test t1 t2 q ht hr hi, hg) refl

module _ {B : Type 0} (handle_received_data : Handler B) where
  -- Confirmed user data with a clear frame count bit, after a reset of the link.
  ignored_after_reset :
      (start size : ℕ) (reset data_msg : List ℕ) (s : Secondary B)
      → SecondaryBalanced.handle_message handle_received_data
          (request_at start size fc_user_data_confirmed false true)
          data_msg
          (SecondaryBalanced.handle_message handle_received_data
            (request_at 0 0 fc_reset_remote_link false false)
            reset
            s)
        ≡ SecondaryBalanced.handle_message handle_received_data
            (request_at 0 0 fc_reset_remote_link false false)
            reset
            s
  unfolding SecondaryBalanced.handle_message
  ignored_after_reset start size reset data_msg s = ground arith

-- When the primary layer of a balanced station whose next frame count bit is clear (an odd number of
-- messages was sent on the old link) sets up the link again, by the status of the link and the
-- acknowledgement of its reset, and the application then gives it a message before the idle
-- timeout, it sends that message with the frame count bit clear, or nothing, if the message is too
-- long for a frame; the secondary layer of its peer, which expects the bit set after the reset,
-- ignores such a message: it neither indicates nor acknowledges it.
pub reconnect_message_ignored :
    {A B : Type 0} (application : Application A) (peer : Handler B) (t0 t1 t2 n start size : ℕ)
    (buffer reset data_msg : List ℕ) (app : A) (p : Primary A) (s : Secondary B)
    → p.primary_state ≡ execute_request_status_of_link
    → p.next_fcb ≡ false
    → p.send_link_layer_test_function ≡ false
    → t2 - t1 ≤ p.idle_timeout
    → application.get_user_data
        (reconnected application t0 t1 p).app
        (reconnected application t0 t1 p).user_data_buffer
      ≡ (in_buffer n, buffer, app)
    → let q = reconnected application t0 t1 p in
      ((run_state_machine application t2 q).sent
        ≡ send
            (variable_length_frame q.parameters.address_length fc_user_data_confirmed
              q.other_station_address true q.dir false true
              (take n buffer))
            q.sent)
      × (SecondaryBalanced.handle_message peer
            (request_at start size fc_user_data_confirmed false true)
            data_msg
            (SecondaryBalanced.handle_message peer
              (request_at 0 0 fc_reset_remote_link false false)
              reset
              s)
          ≡ SecondaryBalanced.handle_message peer
              (request_at 0 0 fc_reset_remote_link false false)
              reset
              s)
reconnect_message_ignored application peer t0 t1 t2 n start size buffer reset data_msg app p s hp hf
      ht hi hg =
    let q = reconnected application t0 t1 p in
    let r = reconnected-Ready application t0 t1 p hp in
    (
      run_available-sends application t1 t2 n buffer app q hg r.available (r.no_test ∙ ht)
            r.received (rw r.same_timeout hi)
          ∙ ap
              (λ fcb.
                send
                  (variable_length_frame q.parameters.address_length fc_user_data_confirmed
                    q.other_station_address true q.dir fcb true (take n buffer))
                  q.sent)
              (r.same_fcb ∙ hf),
      ignored_after_reset peer start size reset data_msg s,
    )
