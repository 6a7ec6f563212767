-- ===== src/LinkLayer/Exchange.antt =====
-- Confirmed user data from one balanced station of link_layer.c to its peer, and the acknowledgement back.
use lib.Prelude.{
  ℕ, ◌+◌, ◌-◌, ◌<◌, ◌≤◌, ◌≡◌, refl, sym, ap, subst, ◌∙◌, Bool, true, false, not, some, List, ◌∷◌,
  take, length, arith, if_both, ltb, if◌then◌else◌,
}
use lib.LinkLayer.Frame.{
  single_char, fixed_frame, variable_length_frame, send, fc_ack, fc_user_data_confirmed,
}
use lib.LinkLayer.Parser.{to_secondary, single_char_ack, parse_balanced}
use lib.LinkLayer.Codec.{
  request_at, IsAddress, fixed_frame_exchanged, variable_length_frame_understood,
}
use lib.LinkLayer.PrimaryBalanced.{
  Primary, Application, in_buffer, link_layers_available, execute_service_send_confirm,
}
use lib.LinkLayer.PrimaryBalanced
use lib.LinkLayer.PrimaryBalanced.Run.{send_first, run_in, run_state_machine}
use lib.LinkLayer.PrimaryBalanced.Repeat.{run_state_machine-in}
use lib.LinkLayer.PrimaryBalanced.Reconnect.{no_test}
use lib.LinkLayer.SecondaryBalanced.{Handler, Secondary}
use lib.LinkLayer.SecondaryBalanced
use lib.LinkLayer.Stations.{Station, receive, run, take_message, secondary_of}

module _ {A : Type 0} (handle_received_data : Handler A) where
  -- The acknowledgement of a balanced station.
  abbrev pub ack_frame : Secondary A → List ℕ
  ack_frame s =
      if s.parameters.use_single_char_ack
      then single_char
      else fixed_frame s.parameters.address_length fc_ack s.address false s.dir false false

  handle_message-taken :
      (start size : ℕ) (fcb : Bool) (msg : List ℕ) (app : A) (s : Secondary A)
      → s.expected_fcb ≡ fcb
      → 0 < size
      → handle_received_data s.app msg false start size ≡ (true, app)
      → SecondaryBalanced.handle_message handle_received_data
          (request_at start size fc_user_data_confirmed fcb true)
          msg
          s
        ≡ record s { expected_fcb = not fcb; app = app; sent = ack_frame s ∷ s.sent }
  unfolding SecondaryBalanced.handle_message
  handle_message-taken start size fcb msg app s hf hs ht = ground arith

module _ {A : Type 0} (application : Application A) where
  -- A station with a ready link after it sent user data from its buffer.
  abbrev pub after_sending : ℕ → ℕ → List ℕ → A → Primary A → Primary A
  after_sending now n buffer app p = send_first application now (some (take n buffer)) (record p {
    last_received_msg = if ltb now p.last_received_msg then now else p.last_received_msg;
    send_link_layer_test_function = false;
    user_data_buffer = buffer;
    last_send_size = n;
    app = app;
  })

  run-after_sending :
      (now n : ℕ) (buffer : List ℕ) (app : A) (p : Primary A)
      → application.get_user_data p.app p.user_data_buffer ≡ (in_buffer n, buffer, app)
      → p.primary_state ≡ link_layers_available
      → p.send_link_layer_test_function ≡ false
      → now - p.last_received_msg ≤ p.idle_timeout
      → run_state_machine application now p ≡ after_sending now n buffer app p
  unfolding run_in
  run-after_sending now n buffer app p hg ha ht hi =
      run_state_machine-in application now p link_layers_available ha
      ∙ rw (no_test application p.last_received_msg now p ht refl hi, hg) refl

  record Acknowledged (p q : Primary A) : Type 0 where
    available : q.primary_state ≡ link_layers_available
    not_waiting : q.waiting_for_response ≡ false
    same_fcb : q.next_fcb ≡ p.next_fcb

  handle_ack :
      (now : ℕ) (p : Primary A)
      → p.primary_state ≡ execute_service_send_confirm
      → Acknowledged p (PrimaryBalanced.handle_message application now fc_ack false p)
  unfolding PrimaryBalanced.handle_message
  handle_ack now p h = ground arith

  parse-single_char : (al n : ℕ) → parse_balanced al single_char n ≡ single_char_ack
  unfolding parse_balanced
  parse-single_char al n = refl

  receive-fixed_ack :
      (take_data : Handler A) (now al address n : ℕ) (dir : Bool) (s : Station A)
      → al ≡ s.primary.parameters.address_length
      → IsAddress al address
      → (receive application take_data now
          (fixed_frame al fc_ack address false dir false false)
          n
          s).primary
        ≡ PrimaryBalanced.handle_message application now fc_ack false s.primary
  unfolding receive
  receive-fixed_ack take_data now al address n dir s hl ha =
      let frame = fixed_frame al fc_ack address false dir false false in
      subst
        (λ l.
          (take_message application take_data now frame (parse_balanced l frame n) s).primary
          ≡ PrimaryBalanced.handle_message application now fc_ack false s.primary)
        hl
        (ap (λ b. (take_message application take_data now frame b s).primary)
          (fixed_frame_exchanged al address fc_ack n dir false false ha (omega arith)).1)

  receive-single_ack :
      (take_data : Handler A) (now n : ℕ) (s : Station A)
      → (receive application take_data now single_char n s).primary
        ≡ PrimaryBalanced.handle_message application now fc_ack false s.primary
  unfolding receive
  receive-single_ack take_data now n s =
      ap (λ b. (take_message application take_data now single_char b s).primary)
        (parse-single_char s.primary.parameters.address_length n)

  -- Either form of an acknowledgement reaches the half that waits for it.
  receive-ack :
      {B : Type 0} (take_data : Handler A) (peer : Handler B) (now : ℕ) (t : Secondary B)
      (s : Station A)
      → t.parameters.address_length ≡ s.primary.parameters.address_length
      → IsAddress t.parameters.address_length t.address
      → (receive application take_data now (ack_frame peer t) (length (ack_frame peer t)) s).primary
        ≡ PrimaryBalanced.handle_message application now fc_ack false s.primary
  receive-ack take_data peer now t s hl ha =
      if_both
        (λ ack.
          (receive application take_data now ack (length ack) s).primary
          ≡ PrimaryBalanced.handle_message application now fc_ack false s.primary)
        t.parameters.use_single_char_ack (receive-single_ack take_data now (length single_char) s)
        (receive-fixed_ack take_data now t.parameters.address_length t.address _ t.dir s hl ha)

module _ {A B : Type 0} (source : Application A) (target : Application B) (source_data : Handler A)
    (target_data : Handler B) where
  receive-data :
      (now al start : ℕ) (fcb : Bool) (bytes m : List ℕ) (app : B) (s : Station B)
      → al ≡ s.primary.parameters.address_length
      → parse_balanced al m (length m)
        ≡ to_secondary (request_at start (length bytes) fc_user_data_confirmed fcb true)
      → s.expected_fcb ≡ fcb
      → 0 < length bytes
      → target_data s.primary.app m false start (length bytes) ≡ (true, app)
      → let r = receive target target_data now m (length m) s in
        (r.primary.sent ≡ ack_frame target_data (secondary_of s) ∷ s.primary.sent)
        × (r.primary.app ≡ app)
        × (r.expected_fcb ≡ not fcb)
  unfolding receive
  receive-data now al start fcb bytes m app s hl hp hf hn ht =
      let r = request_at start (length bytes) fc_user_data_confirmed fcb true in
      let e : receive target target_data now m (length m) s
          ≡ take_message target target_data now m (to_secondary r) s =
        ap (λ b. take_message target target_data now m b s)
          (ap (λ l. parse_balanced l m (length m)) (sym hl) ∙ hp) in
      let h =
        handle_message-taken target_data start (length bytes) fcb m app (secondary_of s) hf hn ht in
      (
        ap (λ x. x.primary.sent) e ∙ ap (λ x. x.sent) h,
        ap (λ x. x.primary.app) e ∙ ap (λ x. x.app) h,
        ap (λ x. x.expected_fcb) e ∙ ap (λ x. x.expected_fcb) h,
      )

  -- A balanced station with a ready link, no test frame due and user data of at least one octet in
  -- its buffer that fit into a frame, and a peer with the same address length that expects the frame
  -- count bit that the station uses next and whose application takes the data: the station sends
  -- one frame; when the peer receives it, its application gets the data and it sends one
  -- acknowledgement (of either form); when the station receives that, its link is ready again, it
  -- waits for nothing, and the peer expects the frame count bit that it uses next.
  pub confirmed_data_exchanged :
      (t0 t1 t2 n : ℕ) (buffer m : List ℕ) (app : A) (app' : B) (a : Station A) (b : Station B)
      → a.primary.primary_state ≡ link_layers_available
      → a.primary.send_link_layer_test_function ≡ false
      → t0 - a.primary.last_received_msg ≤ a.primary.idle_timeout
      → source.get_user_data a.primary.app a.primary.user_data_buffer ≡ (in_buffer n, buffer, app)
      → 0 < length (take n buffer)
      → variable_length_frame a.primary.parameters.address_length fc_user_data_confirmed
          a.primary.other_station_address true a.primary.dir a.primary.next_fcb true
          (take n buffer)
        ≡ some m
      → b.primary.parameters.address_length ≡ a.primary.parameters.address_length
      → IsAddress a.primary.parameters.address_length a.primary.other_station_address
      → IsAddress b.primary.parameters.address_length b.address
      → b.expected_fcb ≡ a.primary.next_fcb
      → target_data b.primary.app m false
          (5 + a.primary.parameters.address_length)
          (length (take n buffer))
        ≡ (true, app')
      → let a1 = run source source_data t0 a in
        let b1 = receive target target_data t1 m (length m) b in
        let ack = ack_frame target_data (secondary_of b) in
        let a2 = receive source source_data t2 ack (length ack) a1 in
        (a1.primary.sent ≡ m ∷ a.primary.sent)
        × (b1.primary.sent ≡ ack ∷ b.primary.sent)
        × (b1.primary.app ≡ app')
        × (a2.primary.primary_state ≡ link_layers_available)
        × (a2.primary.waiting_for_response ≡ false)
        × (b1.expected_fcb ≡ a2.primary.next_fcb)
  unfolding run run_state_machine
  confirmed_data_exchanged t0 t1 t2 n buffer m app app' a b ha ht hi hg hn hm hl hoa hba hf htake =
      let p = a.primary in
      let al = p.parameters.address_length in
      let q = after_sending source t0 n buffer app p in
      let e : run_state_machine source t0 p ≡ q =
        run-after_sending source t0 n buffer app p hg ha ht hi in
      let parsed =
        (variable_length_frame_understood al p.other_station_address fc_user_data_confirmed p.dir
          p.next_fcb true (take n buffer) m hoa (omega arith) hm).1 in
      let (sent, took, fcb) =
        receive-data t1 al (5 + al) p.next_fcb (take n buffer) m app' b (sym hl) parsed hf hn
          htake in
      let a1 : Station A = record a { primary = run_state_machine source t0 p } in
      let got =
        receive-ack source source_data target_data t2 (secondary_of b) a1
          (hl ∙ ap (λ x. x.parameters.address_length) (sym e)) hba in
      let done =
        handle_ack source t2 (run_state_machine source t0 p) (ap (λ x. x.primary_state) e) in
      (
        ap (λ x. x.sent) e ∙ ap (λ o. send o p.sent) hm,
        sent,
        took,
        ap (λ x. x.primary_state) got ∙ done.available,
        ap (λ x. x.waiting_for_response) got ∙ done.not_waiting,
        fcb ∙ sym (ap (λ x. x.next_fcb) got ∙ done.same_fcb ∙ ap (λ x. x.next_fcb) e),
      )
