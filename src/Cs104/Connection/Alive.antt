-- ===== src/Cs104/Connection/Alive.antt =====
-- The supervision of a connection by its timeouts.
use lib.Prelude.{
  ℕ, suc, ◌+◌, ◌*◌, ◌/◌, take, ◌≤◌, ◌<◌, ◌≡◌, refl, Bool, true, false, List, [], ◌∷◌, leb, ◌==◌,
  ltb, if◌then◌else◌, length, arith, ◌&&◌, none, some, not, ◌!=◌, ◌-◌, get_or-set_self,
}
use lib.Cs104.SystemTime.{SystemTime}
use lib.Cs104.KBuffer.{store_sent, no_asdu, is_sent_buffer_full}
use lib.Cs104.Frame.{T104Frame}
use lib.Cs104.Connection.{
  Connection, send_s_message, s_message, send_asdu_internal, confirm_outstanding_messages, is_idle,
  testfr_act_msg, write_to_socket, reset_t3_timeout,
}
use lib.Cs104.Connection.Receive.{byte}
use lib.Cs104.Connection.Wire.{s_message-seq_no}
use lib.Cs104.Connection.Timeouts.{
  Clock, handle_t2, handle_t3, handle_timeouts, check_confirm_timeout, check_t1, i_message_timeout,
}

-- How many test frames (`TESTFR_ACT`) were written.
abbrev pub test_frames : List (List ℕ) → ℕ
test_frames [] = 0
test_frames (m ∷ ms) = if byte m 2 == 0x43 then suc (test_frames ms) else test_frames ms

module _ {A : Type 0} where
  -- Received I frames are unconfirmed, and T2 has run for `t2` seconds or more.
  abbrev pub is_confirmation_due : ℕ → Connection A → Bool
  is_confirmation_due current c =
      leb 1 c.unconfirmed_received_i_messages
      && (ltb c.last_confirmation_time current
          && leb (c.last_confirmation_time + c.parameters.t2 * 1000) current)

  -- What the T3 timeout of a call that keeps the connection writes.
  abbrev after_t3 : ℕ → Connection A → List (List ℕ)
  after_t3 current c = if ltb c.next_t3_timeout current then testfr_act_msg ∷ c.log else c.log

  confirms :
      (now : Clock) (c : Connection A)
      → (handle_timeouts now c).0 ≡ true
      → c.socket ≡ true
      → is_idle c.con_state ≡ false
      → let c' = (handle_timeouts now c).1 in
        let due = is_confirmation_due now.current c in
        (c'.log ≡ (
          if due
          then s_message c.receive_count ∷ after_t3 now.current c
          else after_t3 now.current c))
        × (c'.unconfirmed_received_i_messages
            ≡ (if due then 0 else c.unconfirmed_received_i_messages))
        × (c'.timeout_t2_trigger ≡ (if due then false else c.timeout_t2_trigger))
        × (c'.last_confirmation_time ≡ (if due then now.confirm else c.last_confirmation_time))
  unfolding handle_timeouts handle_t2 handle_t3 check_confirm_timeout confirm_outstanding_messages
      send_s_message write_to_socket reset_t3_timeout
  confirms now c ok open_socket busy = ground arith

  -- A call of handleTimeouts that keeps a connection with an open socket writes a frame after
  -- the test frame of T3, if there is one, exactly when received I frames are unconfirmed and
  -- t2 seconds or more have passed since the start of T2; the frame has the control octets of
  -- an S frame and the receive counter, below 32768, as its N(R). Then no received I frame is
  -- unconfirmed and T2 is stopped and set to the time of the confirmation; otherwise these stay.
  pub handle_timeouts-confirms :
      (now : Clock) (c : Connection A)
      → (handle_timeouts now c).0 ≡ true
      → c.socket ≡ true
      → is_idle c.con_state ≡ false
      → c.receive_count < 32768
      → let c' = (handle_timeouts now c).1 in
        let due = is_confirmation_due now.current c in
        (m : List ℕ) × (c'.log
          ≡ (if due then m ∷ after_t3 now.current c else after_t3 now.current c))
        × (take 4 m ≡ 0x68 ∷ 0x04 ∷ 0x01 ∷ 0x00 ∷ [])
        × (length m ≡ 6)
        × ((byte m 4 + byte m 5 * 0x100) / 2 ≡ c.receive_count)
        × (c'.unconfirmed_received_i_messages
            ≡ (if due then 0 else c.unconfirmed_received_i_messages))
        × (c'.timeout_t2_trigger ≡ (if due then false else c.timeout_t2_trigger))
        × (c'.last_confirmation_time ≡ (if due then now.confirm else c.last_confirmation_time))
  unfolding s_message
  handle_timeouts-confirms now c ok open_socket busy count =
      let (l, u, t, v) = confirms now c ok open_socket busy in
      (
        s_message c.receive_count,
        l,
        refl,
        refl,
        (s_message-seq_no c.receive_count count).1,
        u,
        t,
        v,
      )

  -- One call after the other, until one says that the connection is to be closed.
  abbrev pub supervise : List Clock → Connection A → Bool × Connection A
  supervise [] c = (true, c)
  supervise (now ∷ later) c =
      let rest = supervise later (handle_timeouts now c).1 in
      if (handle_timeouts now c).0 then rest else (false, (handle_timeouts now c).1)

  test_frames-handle_timeouts :
      (now : Clock) (c : Connection A)
      → c.outstanding_test_fr_con_messages ≤ 3
      → let c' = (handle_timeouts now c).1 in
        (c'.outstanding_test_fr_con_messages ≤ 3)
        × (test_frames c'.log + c.outstanding_test_fr_con_messages
            ≤ test_frames c.log + c'.outstanding_test_fr_con_messages)
  unfolding handle_timeouts handle_t2 handle_t3 check_confirm_timeout confirm_outstanding_messages
      send_s_message s_message write_to_socket reset_t3_timeout
  test_frames-handle_timeouts now c h = ground arith

  -- When at most three test frames are unanswered, however often the timeouts are handled
  -- with nothing received, the test frames written and those unanswered before are at most
  -- three together.
  pub test_frames-supervise :
      (clocks : List Clock) (c : Connection A)
      → c.outstanding_test_fr_con_messages ≤ 3
      → test_frames (supervise clocks c).1.log + c.outstanding_test_fr_con_messages
        ≤ test_frames c.log + 3
  test_frames-supervise [] c h = omega arith
  test_frames-supervise (now ∷ later) c h =
      let (bound, step) = test_frames-handle_timeouts now c h in
      ground (arith, test_frames-supervise later (handle_timeouts now c).1)

  -- T1 of an I frame sent into an empty k-buffer counts from the time that was stored.
  i_message_timeout-sent :
      (t : SystemTime) (current t1 : ℕ) (c : Connection A) (f : T104Frame)
      → c.k_buffer.oldest_sent_asdu ≡ none
      → 0 < length c.k_buffer.sent_asdus
      → c.running ≡ true
      → ((send_asdu_internal t c f).1.k_buffer.oldest_sent_asdu ≡ some 0)
        × (i_message_timeout current t1 (send_asdu_internal t c f).1.k_buffer
            ≡ (ltb t.time_in_ms current && leb (t1 * 1000) (current - t.time_in_ms)))
  unfolding i_message_timeout send_asdu_internal is_sent_buffer_full store_sent
  i_message_timeout-sent t current t1 c f empty room run =
      rw (run, empty) (refl, rw (get_or-set_self c.k_buffer.sent_asdus 0 _ no_asdu room) refl)

  handle_timeouts-k_buffer :
      (now : Clock) (c : Connection A) → (handle_timeouts now c).1.k_buffer ≡ c.k_buffer
  unfolding handle_timeouts handle_t3 handle_t2 confirm_outstanding_messages send_s_message
      write_to_socket reset_t3_timeout
  handle_timeouts-k_buffer now c = ground arith

  supervise-k_buffer :
      (later : List Clock) (c : Connection A) → (supervise later c).1.k_buffer ≡ c.k_buffer
  supervise-k_buffer [] c = refl
  supervise-k_buffer (now ∷ later) c =
      ground
        (arith, handle_timeouts-k_buffer now c, supervise-k_buffer later (handle_timeouts now c).1)

  without_i_message_timeout :
      (now : Clock) (c : Connection A)
      → i_message_timeout now.current c.parameters.t1 c.k_buffer ≡ false
      → let u = (handle_timeouts now c).1.u_message_timeout in
        (handle_timeouts now c).0 ≡ (handle_t3 now c).0 && not (u != 0 && ltb u now.current)
  unfolding handle_timeouts handle_t3 handle_t2 check_t1 check_confirm_timeout
      confirm_outstanding_messages send_s_message write_to_socket reset_t3_timeout
  without_i_message_timeout now c e = ground arith

  -- After a running connection with an empty k-buffer sends an I frame, and after any calls of
  -- handleTimeouts with no confirmation received, the frame is still pending, and whether
  -- handleTimeouts keeps the connection depends on T3 and the U frames alone, as long as the
  -- monotonic clock is not past the wall clock at the sending: however many seconds over t1
  -- have passed since the frame was sent, it is not timed out.
  pub i_message_timeout_never :
      (t : SystemTime) (later : List Clock) (now : Clock) (c : Connection A) (f : T104Frame)
      → c.k_buffer.oldest_sent_asdu ≡ none
      → 0 < length c.k_buffer.sent_asdus
      → c.running ≡ true
      → now.current ≤ t.time_in_ms
      → let d = (supervise later (send_asdu_internal t c f).1).1 in
        let u = (handle_timeouts now d).1.u_message_timeout in
        (d.k_buffer.oldest_sent_asdu ≡ some 0)
        × ((handle_timeouts now d).0 ≡ (handle_t3 now d).0 && not (u != 0 && ltb u now.current))
  i_message_timeout_never t later now c f empty room run before =
      let d : Connection A = (supervise later (send_asdu_internal t c f).1).1 in
      let same = supervise-k_buffer later (send_asdu_internal t c f).1 in
      let (oldest, e) = i_message_timeout-sent t now.current d.parameters.t1 c f empty room run in
      (rw same oldest, without_i_message_timeout now d (rw (same, e) (ground arith)))
