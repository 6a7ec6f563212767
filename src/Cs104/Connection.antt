-- ===== src/Cs104/Connection.antt =====
-- `CS104_Connection` of cs104_connection.c: the state of a client's connection, and sending.
-- Receiving, timing out, opening and the plugins' calls are in the children. `A` is the state of the application that the
-- callbacks share. The log holds what the socket was given, the latest first.
pub mod Receive
pub mod Timeouts
pub mod Wire
pub mod Window
pub mod Peer
pub mod Sending
pub mod Establish
pub mod Accept
pub mod Exchange
pub mod Alive
pub mod Reach
use lib.Prelude.{
  ℕ, ◌+◌, ◌*◌, ◌/◌, ◌%◌, ◌^◌, Bool, true, false, Option, none, some, List, [], ◌∷◌, ◌||◌, ltb, not,
  if◌then◌else◌, replicate, ◌-◌,
}
use lib.Prelude.Bytes.{u8}
use lib.Cs101.Asdu.{AppLayerParameters, Asdu}
use lib.Cs104.KBuffer.{KBuffer, is_sent_buffer_full, store_sent, no_asdu}
use lib.Cs104.SystemTime.{SystemTime}
use lib.Cs104.Plugin.{Plugin}
use lib.Cs104.Frame.{T104Frame, prepare_to_send, message}

-- `struct sCS104_APCIParameters`
pub record ApciParameters : Type 0 where
  pub k : ℕ
  pub w : ℕ
  pub t0 : ℕ
  pub t1 : ℕ
  pub t2 : ℕ
  pub t3 : ℕ

-- `CS104_ConState`
pub data ConState : Type 0 where
  idle inactive active waiting_for_startdt_con waiting_for_stopdt_con : ConState

abbrev pub is_idle : ConState → Bool
is_idle idle = true
is_idle _ = false

pub record Connection (A : Type 0) : Type 0 where
  pub parameters : ApciParameters
  pub al_parameters : AppLayerParameters
  pub connect_timeout_in_ms : ℕ
  pub recv_buf_pos : ℕ
  pub k_buffer : KBuffer
  pub receive_count : ℕ
  pub send_count : ℕ
  pub unconfirmed_received_i_messages : ℕ
  pub timeout_t2_trigger : Bool
  pub last_confirmation_time : ℕ
  pub next_t3_timeout : ℕ
  pub outstanding_test_fr_con_messages : ℕ
  pub u_message_timeout : ℕ
  pub socket : Bool
  pub running : Bool
  pub failure : Bool
  pub close : Bool
  pub con_state : ConState
  pub plugins : List (Plugin A)
  pub received_handler : Option (A → Asdu → A)
  pub app : A
  pub log : List (List ℕ)

-- `uint64_t`
abbrev pub u64 : ℕ → ℕ
u64 n = n % 2 ^ 64

abbrev pub startdt_act_msg : List ℕ
startdt_act_msg = 0x68 ∷ 0x04 ∷ 0x07 ∷ 0x00 ∷ 0x00 ∷ 0x00 ∷ []

abbrev pub testfr_act_msg : List ℕ
testfr_act_msg = 0x68 ∷ 0x04 ∷ 0x43 ∷ 0x00 ∷ 0x00 ∷ 0x00 ∷ []

abbrev pub testfr_con_msg : List ℕ
testfr_con_msg = 0x68 ∷ 0x04 ∷ 0x83 ∷ 0x00 ∷ 0x00 ∷ 0x00 ∷ []

abbrev pub stopdt_act_msg : List ℕ
stopdt_act_msg = 0x68 ∷ 0x04 ∷ 0x13 ∷ 0x00 ∷ 0x00 ∷ 0x00 ∷ []

abbrev pub startdt_con_msg : List ℕ
startdt_con_msg = 0x68 ∷ 0x04 ∷ 0x0b ∷ 0x00 ∷ 0x00 ∷ 0x00 ∷ []

-- The message of `prepareSMessage` with the number that `sendSMessage` puts into it.
unfoldable pub s_message : ℕ → List ℕ
s_message receive_count =
    0x68 ∷ 0x04 ∷ 0x01 ∷ 0x00 ∷ u8 (receive_count % 128 * 2) ∷ u8 (receive_count / 128) ∷ []

-- The k-buffer that `resetConnection` leaves: allocated at the first call (`[]` is `NULL`).
unfoldable pub reset_k_buffer : ℕ → KBuffer → KBuffer
reset_k_buffer k b = elim b.sent_asdus [
  | [] ↦ record {
    sent_asdus = replicate k no_asdu;
    max_sent_asdus = k;
    oldest_sent_asdu = none;
    newest_sent_asdu = none;
  }
  | x ∷ xs ↦ record b { oldest_sent_asdu = none; newest_sent_asdu = none }
]

module _ {A : Type 0} where
  unfoldable pub write_to_socket : Connection A → List ℕ → Connection A
  write_to_socket c msg =
      if not c.socket || is_idle c.con_state then c else record c { log = msg ∷ c.log }

  unfoldable pub send_s_message : Connection A → Connection A
  unfolding write_to_socket s_message
  send_s_message c = write_to_socket c (s_message c.receive_count)

  -- `sendIMessage`; the new send counter is `send_count` of the result.
  unfoldable pub send_i_message : Connection A → T104Frame → Connection A
  unfolding write_to_socket
  send_i_message c frame =
      let c' = write_to_socket c (message (prepare_to_send frame c.send_count c.receive_count)) in
      record c' {
        send_count = (c.send_count + 1) % 32768;
        unconfirmed_received_i_messages = 0;
        timeout_t2_trigger = false;
      }

  -- The time that is stored is that of `Hal_getTimeInMs`.
  unfoldable pub send_i_message_and_update_sent_asdus :
      SystemTime → Connection A → T104Frame → Connection A
  unfolding send_i_message
  send_i_message_and_update_sent_asdus now c frame =
      let c' = send_i_message c frame in
      record c' {
        k_buffer =
            store_sent c.k_buffer (record { sent_time = now.time_in_ms; seq_no = c'.send_count });
      }

  -- `sendASDUInternal`, and `sendASDUInternalNoLock`, which does the same for a caller that holds the
  -- lock.
  unfoldable pub send_asdu_internal : SystemTime → Connection A → T104Frame → Bool × Connection A
  unfolding send_i_message_and_update_sent_asdus
  send_asdu_internal now c frame =
      if not c.running || is_sent_buffer_full c.k_buffer
      then (false, c)
      else (true, send_i_message_and_update_sent_asdus now c frame)

  -- `resetT3Timeout`
  unfoldable pub reset_t3_timeout : ℕ → Connection A → Connection A
  reset_t3_timeout now c = record c { next_t3_timeout = u64 (now + c.parameters.t3 * 1000) }

  -- `confirmOutstandingMessages`
  unfoldable pub confirm_outstanding_messages : ℕ → Connection A → Connection A
  unfolding send_s_message
  confirm_outstanding_messages now c = send_s_message (record c {
    last_confirmation_time = now;
    unconfirmed_received_i_messages = 0;
    timeout_t2_trigger = false;
  })

  -- `CS104_Connection_sendStartDT`
  unfoldable pub send_start_dt : ℕ → Connection A → Connection A
  unfolding write_to_socket
  send_start_dt now c =
      if c.socket
      then write_to_socket
          (record c {
            con_state = waiting_for_startdt_con;
            u_message_timeout = u64 (now + c.parameters.t1 * 1000);
          })
          startdt_act_msg
      else c

  -- `CS104_Connection_sendStopDT`
  unfoldable pub send_stop_dt : ℕ → Connection A → Connection A
  unfolding write_to_socket confirm_outstanding_messages
  send_stop_dt now c =
      let c' =
        if ltb 0 c.unconfirmed_received_i_messages then confirm_outstanding_messages now c else c in
      if c.socket
      then write_to_socket
          (record c' {
            con_state = waiting_for_stopdt_con;
            u_message_timeout = u64 (now + c.parameters.t1 * 1000);
          })
          stopdt_act_msg
      else c

  -- `resetConnection`
  unfoldable pub reset_connection : ℕ → Connection A → Connection A
  unfolding reset_t3_timeout reset_k_buffer
  reset_connection now c = reset_t3_timeout now (record c {
    connect_timeout_in_ms = c.parameters.t0 * 1000;
    recv_buf_pos = 0;
    running = false;
    failure = false;
    close = false;
    receive_count = 0;
    send_count = 0;
    unconfirmed_received_i_messages = 0;
    last_confirmation_time = 2 ^ 64 - 1;
    timeout_t2_trigger = false;
    k_buffer = reset_k_buffer c.parameters.k c.k_buffer;
    outstanding_test_fr_con_messages = 0;
    u_message_timeout = 0;
    con_state = idle;
  })
