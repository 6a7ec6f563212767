-- ===== src/Cs104/Connection/Timeouts.antt =====
-- `handleTimeouts` of cs104_connection.c, and the confirmations of the connection's main loop.
use lib.Prelude.{
  ℕ, ◌+◌, ◌-◌, ◌*◌, Bool, true, false, none, some, ltb, leb, ◌!=◌, not, ◌&&◌, ◌||◌, if◌then◌else◌,
}
use lib.Cs104.KBuffer.{KBuffer, entry_at}
use lib.Cs104.Connection.{
  Connection, ConState, waiting_for_stopdt_con, write_to_socket, reset_t3_timeout, u64,
  confirm_outstanding_messages, testfr_act_msg,
}

-- The readings of the monotonic clock in one call: at its start, for T3 and for a confirmation.
pub record Clock : Type 0 where
  pub current : ℕ
  pub t3 : ℕ
  pub confirm : ℕ

abbrev pub is_waiting_for_stopdt_con : ConState → Bool
is_waiting_for_stopdt_con waiting_for_stopdt_con = true
is_waiting_for_stopdt_con _ = false

-- Whether the oldest unconfirmed frame is `t1` seconds old.
unfoldable pub i_message_timeout : ℕ → ℕ → KBuffer → Bool
i_message_timeout current t1 b = elim b.oldest_sent_asdu [
  | none ↦ false
  | some oldest ↦
      ltb (entry_at b oldest).sent_time current
      && leb (t1 * 1000) (current - (entry_at b oldest).sent_time)
]

module _ {A : Type 0} where
  -- `checkConfirmTimeout`
  unfoldable pub check_confirm_timeout : ℕ → Connection A → Bool
  check_confirm_timeout current c =
      ltb c.last_confirmation_time current
      && leb (c.parameters.t2 * 1000) (current - c.last_confirmation_time)

  -- The T3 timeout: a test frame, unless three of them are unanswered; `false` closes.
  unfoldable pub handle_t3 : Clock → Connection A → Bool × Connection A
  unfolding write_to_socket reset_t3_timeout
  handle_t3 now c =
      if ltb c.next_t3_timeout now.current
      then (if ltb 2 c.outstanding_test_fr_con_messages then (false, c) else (
        true,
        reset_t3_timeout now.t3 (record (write_to_socket c testfr_act_msg) {
          u_message_timeout = u64 (now.current + c.parameters.t1 * 1000);
          outstanding_test_fr_con_messages = c.outstanding_test_fr_con_messages + 1;
        }),
      ))
      else (true, c)

  -- The T2 timeout: confirm what was received.
  unfoldable pub handle_t2 : Clock → Connection A → Connection A
  unfolding check_confirm_timeout confirm_outstanding_messages
  handle_t2 now c =
      if ltb 0 c.unconfirmed_received_i_messages && check_confirm_timeout now.current c
      then confirm_outstanding_messages now.confirm c
      else c

  -- The T1 timeouts, of a U frame and of the oldest unconfirmed I frame.
  unfoldable pub check_t1 : Clock → Connection A → Bool
  unfolding i_message_timeout
  check_t1 now c =
      not (c.u_message_timeout != 0 && ltb c.u_message_timeout now.current)
      && not (i_message_timeout now.current c.parameters.t1 c.k_buffer)

  unfoldable pub handle_timeouts : Clock → Connection A → Bool × Connection A
  unfolding handle_t3 handle_t2 check_t1
  handle_timeouts now c =
      let step = handle_t3 now c in
      let c' = handle_t2 now step.1 in if step.0 then (check_t1 now c', c') else (false, c)

  -- The confirmation that `CS104_Connection_run` and `handleConnection` make after receiving.
  unfoldable pub confirm_when_due : ℕ → Connection A → Connection A
  unfolding confirm_outstanding_messages
  confirm_when_due now c =
      if leb c.parameters.w c.unconfirmed_received_i_messages
        || (is_waiting_for_stopdt_con c.con_state && ltb 0 c.unconfirmed_received_i_messages)
      then confirm_outstanding_messages now c
      else c
