-- ===== src/Cs104/Connection/Receive.antt =====
-- Receiving: `checkMessage` of cs104_connection.c with what it calls. An outer `none` would mean
-- that the loop of `checkSequenceNumber` did not end.
use lib.Prelude.{
  ℕ, ◌+◌, ◌-◌, ◌*◌, ◌/◌, ◌%◌, Bool, true, false, Option, none, some, List, [], ◌∷◌, ltb, ◌==◌, ◌!=◌,
  if◌then◌else◌, get_or, drop, bit_and,
}
use lib.Cs101.Asdu.{Asdu, create_from_buffer}
use lib.Cs104.Plugin.{Plugin}
use lib.Cs104.Connection.Peer.{run_script}
use lib.Cs104.KBuffer.{KBuffer}
use lib.Cs104.KBuffer
use lib.Cs104.Connection.{
  Connection, active, inactive, write_to_socket, reset_t3_timeout, testfr_con_msg, startdt_con_msg,
}

-- The sequence numbers of an I frame, from its two octets.
abbrev pub frame_seq_no : ℕ → ℕ → ℕ
frame_seq_no low high = (high * 0x100 + bit_and low 0xfe) / 2

abbrev pub byte : List ℕ → ℕ → ℕ
byte buffer i = get_or buffer i 0

module _ {A : Type 0} where
  -- The loop of `callPluginsToHandleAsdu`: the plugins are asked in order, until one handles it.
  -- Each acts on the connection that the one before leaves.
  unfoldable pub call_plugins : List (Plugin A) → Connection A → Asdu → Bool × Connection A
  unfolding run_script
  call_plugins [] c asdu = (false, c)
  call_plugins (p ∷ ps) c asdu =
      let asked = run_script c (p c.app asdu) in
      let rest = call_plugins ps asked.1 asdu in if asked.0 then asked else rest

  abbrev pub call_handler : Option (A → Asdu → A) → Asdu → A → A
  call_handler none asdu a = a
  call_handler (some h) asdu a = h a asdu

  -- The plugins, and the user's handler, which is given no connection, for what none of them handles.
  unfoldable pub deliver : Connection A → Asdu → Connection A
  unfolding call_plugins
  deliver c asdu =
      let handled = call_plugins c.plugins c asdu in
      if handled.0
      then handled.1
      else record handled.1 { app = call_handler c.received_handler asdu handled.1.app }

  abbrev pub with_k_buffer : Connection A → Option (Bool × KBuffer) → Option (Bool × Connection A)
  with_k_buffer c none = none
  with_k_buffer c (some (ok, b)) = some (ok, record c { k_buffer = b })

  -- `checkSequenceNumber` on the connection.
  unfoldable pub check_sequence_number : Connection A → ℕ → Option (Bool × Connection A)
  check_sequence_number c seq_no =
      with_k_buffer c (KBuffer.check_sequence_number c.send_count c.k_buffer seq_no)

  -- `timeoutT2Trigger`: the first I frame since the last confirmation starts T2.
  unfoldable pub start_t2 : ℕ → Connection A → Connection A
  start_t2 now c =
      if c.timeout_t2_trigger
      then c
      else record c { timeout_t2_trigger = true; last_confirmation_time = now }

  -- The ASDU of an I frame whose numbers were accepted.
  unfoldable pub accept_i_frame : Connection A → List ℕ → ℕ → Bool × Connection A
  unfolding deliver
  accept_i_frame c buffer msg_size =
      let c' = record c {
        receive_count = (c.receive_count + 1) % 32768;
        unconfirmed_received_i_messages = c.unconfirmed_received_i_messages + 1;
      } in
      elim (create_from_buffer c.al_parameters (drop 6 buffer) (msg_size - 6)) [
        | none ↦ (false, c')
        | some asdu ↦ (true, deliver c' asdu)
      ]

  abbrev pub after_check : List ℕ → ℕ → Option (Bool × Connection A) → Option (Bool × Connection A)
  after_check buffer msg_size none = none
  after_check buffer msg_size (some (true, c)) = some (accept_i_frame c buffer msg_size)
  after_check buffer msg_size (some (false, c)) = some (false, c)

  unfoldable pub check_i_frame : ℕ → Connection A → List ℕ → ℕ → Option (Bool × Connection A)
  check_i_frame now c0 buffer msg_size =
      let c = start_t2 now c0 in
      if ltb msg_size 7
      then some (false, c)
      else if frame_seq_no (byte buffer 2) (byte buffer 3) != c.receive_count
      then some (false, c)
      else after_check buffer msg_size
          (check_sequence_number c (frame_seq_no (byte buffer 4) (byte buffer 5)))

  -- A U frame, by its first control octet.
  unfoldable pub check_u_frame : Connection A → ℕ → Connection A
  unfolding write_to_socket
  check_u_frame c0 control =
      let c = record c0 { u_message_timeout = 0 } in
      if control == 0x43
      then write_to_socket c testfr_con_msg
      else if control == 0x83
      then record c { outstanding_test_fr_con_messages = 0 }
      else if control == 0x07
      then record (write_to_socket c startdt_con_msg) { con_state = active }
      else if control == 0x0b
      then record c { con_state = active }
      else if control == 0x23
      then record c { con_state = inactive }
      else c

  abbrev pub finish : ℕ → Option (Bool × Connection A) → Option (Bool × Connection A)
  finish now none = none
  finish now (some (true, c)) = some (true, reset_t3_timeout now c)
  finish now (some (false, c)) = some (false, c)

  -- `checkMessage`. The clock is read for T2, at `now`, and for T3, at `t3_now`.
  unfoldable pub check_message : ℕ → ℕ → Connection A → List ℕ → ℕ → Option (Bool × Connection A)
  check_message now t3_now c buffer msg_size =
      let control = byte buffer 2 in
      if bit_and control 1 == 0
      then finish t3_now (check_i_frame now c buffer msg_size)
      else if bit_and control 3 == 3
      then finish t3_now (some (true, check_u_frame c control))
      else if control == 1
      then finish t3_now (check_sequence_number c ((byte buffer 4 + byte buffer 5 * 0x100) / 2))
      else finish t3_now (some (true, c))
