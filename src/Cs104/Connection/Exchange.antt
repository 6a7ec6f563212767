-- ===== src/Cs104/Connection/Exchange.antt =====
-- Sending, and two connections that stay in step.
use lib.Prelude.{
  ℕ, ◌+◌, ◌%◌, ◌≤◌, ◌<◌, ◌≡◌, refl, Bool, true, false, Option, none, some, List, ◌∷◌, length,
  bit_and, arith, sym, ◌∙◌, ap, subst,
}
use lib.Cs104.Window.{behind, confirm_frames}
use lib.Cs104.KBuffer.{KBuffer, is_sent_buffer_full}
use lib.Cs104.KBuffer.Tracks.{Tracks}
use lib.Cs104.SystemTime.{SystemTime}
use lib.Cs104.Frame.{T104Frame, prepare_to_send, message}
use lib.Cs104.Connection.{
  Connection, is_idle, send_asdu_internal, write_to_socket, reset_t3_timeout,
}
use lib.Cs104.Connection.Receive.{byte, frame_seq_no, check_i_frame, check_message, finish}
use lib.Cs104.Connection.Sending.{HasPending}
use lib.Cs104.Connection.Wire.{Apci, prepare_to_send-Apci, frame_seq_no-octets, bit_and-octet}
use lib.Cs104.Connection.Accept.{
  seen, is_in_order, is_some, asdu_in, app_after, at_delivery, check_i_frame_lem,
}

module _ {A : Type 0} where
  -- What a running, open connection with room writes.
  send_asdu_internal-log :
      (now : SystemTime) (c : Connection A) (f : T104Frame)
      → c.running ≡ true
      → c.socket ≡ true
      → is_idle c.con_state ≡ false
      → is_sent_buffer_full c.k_buffer ≡ false
      → (send_asdu_internal now c f).1.log
        ≡ message (prepare_to_send f c.send_count c.receive_count) ∷ c.log
  unfolding send_asdu_internal write_to_socket
  send_asdu_internal-log now c f run open_socket busy room = rw (run, room, open_socket, busy) refl

  send_asdu_internal-count :
      (now : SystemTime) (c : Connection A) (f : T104Frame)
      → c.running ≡ true
      → is_sent_buffer_full c.k_buffer ≡ false
      → (send_asdu_internal now c f).1.send_count ≡ (c.send_count + 1) % 32768
  unfolding send_asdu_internal
  send_asdu_internal-count now c f run room = rw (run, room) refl

  -- An I frame goes to `check_i_frame`, and the T3 timer is not part of what is seen.
  seen-check_message :
      (now t3_now : ℕ) (c : Connection A) (buffer : List ℕ) (size : ℕ)
      → bit_and (byte buffer 2) 1 ≡ 0
      → seen (check_message now t3_now c buffer size) ≡ seen (check_i_frame now c buffer size)
  unfolding check_message reset_t3_timeout
  seen-check_message now t3_now c buffer size e =
      rw e (seen-finish (check_i_frame now c buffer size))
    where
      seen-finish : (out : Option (Bool × Connection A)) → seen (finish t3_now out) ≡ seen out
      seen-finish none = refl
      seen-finish (some (true, d)) = refl
      seen-finish (some (false, d)) = refl

  -- Two connections in step: the receiver's counter is the sender's, and the sender's confirms no
  -- more than the receiver has pending.
  pub record InStep (k n : ℕ) (s r : Connection A) : Type 0 where
    pub pending : HasPending k r n
    pub counted : r.receive_count ≡ s.send_count
    pub in_range : s.send_count < 32768
    pub confirms : s.receive_count < 32768
    pub no_more : behind r.send_count s.receive_count ≤ n

  -- When the receiver counts what the sender has sent and the sender confirms no more than
  -- the receiver has pending, the I frame that a running, open sender with room writes makes
  -- checkMessage of the receiver succeed exactly if it holds an ASDU; the application gets
  -- that ASDU, at a k-buffer that stands for the receiver's window after the confirmation, and
  -- the receive counter is the new send counter of the sender.
  pub exchange_accepted :
      (k n : ℕ) (now : SystemTime) (t2_now t3_now : ℕ) (s r : Connection A) (f : T104Frame)
      → InStep k n s r
      → s.running ≡ true
      → s.socket ≡ true
      → is_idle s.con_state ≡ false
      → is_sent_buffer_full s.k_buffer ≡ false
      → 7 ≤ f.msg_size
      → 6 ≤ length f.buffer
      → let s' = (send_asdu_internal now s f).1 in
        (m : List ℕ) × (b : KBuffer) × (s'.log ≡ m ∷ s.log)
        × Tracks k b
            (confirm_frames (record { send_count = r.send_count; pending = n }) s.receive_count).1
        × (seen (check_message t2_now t3_now r m f.msg_size)
            ≡ some (
              is_some (asdu_in r m f.msg_size),
              s'.send_count,
              app_after (at_delivery t2_now r b) (asdu_in r m f.msg_size),
            ))
  exchange_accepted k n now t2_now t3_now s r f v run open_socket busy room large buffer =
      let (b, t, e) =
        check_i_frame_lem t2_now k r n m f.msg_size v.pending (rw apci.receive_low (omega arith))
          (rw apci.receive_high (omega arith)) in
      (
        m,
        b,
        send_asdu_internal-log now s f run open_socket busy room,
        subst
            (λ (q : ℕ).
              Tracks k b (confirm_frames (record { send_count = r.send_count; pending = n }) q).1)
            nr t,
        seen-check_message t2_now t3_now r m f.msg_size even
            ∙ e
            ∙ rw in_order (
                ap
                  (λ q. some (
                    is_some (asdu_in r m f.msg_size),
                    q,
                    app_after (at_delivery t2_now r b) (asdu_in r m f.msg_size),
                  ))
                  counter),
      )
    where
      m : List ℕ
      m = message (prepare_to_send f s.send_count s.receive_count)

      apci : Apci (prepare_to_send f s.send_count s.receive_count) s.send_count s.receive_count
      apci = prepare_to_send-Apci f s.send_count s.receive_count (omega arith) buffer

      even : bit_and (byte m 2) 1 ≡ 0
      even = rw apci.send_low (bit_and-octet s.send_count)

      ns : frame_seq_no (byte m 2) (byte m 3) ≡ s.send_count
      ns = rw (apci.send_low, apci.send_high) (frame_seq_no-octets s.send_count v.in_range)

      nr : frame_seq_no (byte m 4) (byte m 5) ≡ s.receive_count
      nr = rw (apci.receive_low, apci.receive_high) (frame_seq_no-octets s.receive_count v.confirms)

      in_order : is_in_order r n m f.msg_size ≡ true
      in_order = rw (ns, nr) (ground (arith, v.counted, v.no_more))

      counter : (r.receive_count + 1) % 32768 ≡ (send_asdu_internal now s f).1.send_count
      counter = rw v.counted (sym (send_asdu_internal-count now s f run room))
