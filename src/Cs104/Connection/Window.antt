-- ===== src/Cs104/Connection/Window.antt =====
-- What received messages do to the window of a connection.
use lib.Prelude.{
  ℕ, ◌+◌, ◌-◌, ◌*◌, ◌/◌, ◌%◌, ◌≤◌, ◌<◌, ◌≡◌, refl, Bool, true, false, Option, none, some, List,
  if_both, ◌==◌, ◌!=◌, ltb, bit_and, drop, arith, subst,
}
use lib.Prelude.Bytes.{AllBytes, get_or-byte, bit_and-0xfe}
use lib.Cs101.Asdu.{Asdu, create_from_buffer}
use lib.Cs104.Window
use lib.Cs104.Window.{behind, confirm_frames}
use lib.Cs104.KBuffer.Tracks.{Tracks}
use lib.Cs104.KBuffer.Refine.{check_sequence_number_refines}
use lib.Cs104.Connection.Sending.{
  HasPending, SameWindow, SameWindow-refl, SameWindow-HasPending, Delivers, SameWindow-Delivers,
  Delivers-trans, Delivers-after, deliver-Delivers,
}
use lib.Cs104.Connection.{Connection, write_to_socket, reset_t3_timeout}
use lib.Cs104.Connection.Receive.{
  frame_seq_no, byte, check_sequence_number, start_t2, accept_i_frame, check_i_frame, check_u_frame,
  finish, after_check, check_message, deliver,
}

confirmed :
    (w : Window.Window) (r : ℕ)
    → ((confirm_frames w r).1 ≡ record w { pending = (confirm_frames w r).1.pending })
      × ((confirm_frames w r).1.pending ≤ w.pending)
unfolding confirm_frames
confirmed w r = ground arith

pub frame_seq_no_lt : (low high : ℕ) → low < 256 → high < 256 → frame_seq_no low high < 32768
frame_seq_no_lt low high hl hh = omega (arith, bit_and-0xfe low hl)

module _ {A : Type 0} where
  start_t2-SameWindow : (now : ℕ) (c : Connection A) → SameWindow c (start_t2 now c)
  unfolding start_t2
  start_t2-SameWindow now c = ground arith

  check_u_frame-SameWindow :
      (c : Connection A) (control : ℕ) → SameWindow c (check_u_frame c control)
  unfolding check_u_frame write_to_socket
  check_u_frame-SameWindow c control = ground arith

  reset_t3_timeout-SameWindow : (now : ℕ) (c : Connection A) → SameWindow c (reset_t3_timeout now c)
  unfolding reset_t3_timeout
  reset_t3_timeout-SameWindow now c = ground arith

  -- The connection that the plugins find, and what is made of an ASDU that may not be one.
  abbrev pub count_frame : Connection A → Connection A
  count_frame c = record c {
    receive_count = (c.receive_count + 1) % 32768;
    unconfirmed_received_i_messages = c.unconfirmed_received_i_messages + 1;
  }

  abbrev pub accepted : Connection A → Option Asdu → Bool × Connection A
  accepted c o = elim o [
    | none ↦ (false, count_frame c)
    | some asdu ↦ (true, deliver (count_frame c) asdu)
  ]

module _ {A : Type 0} (k : ℕ) where
  -- What a call leaves of a connection with `n` pending frames: `confirmed` of them are not
  -- pending any more, and the frames that plugins sent meanwhile are pending too.
  pub record Kept (c : Connection A) (n : ℕ) (c' : Connection A) : Type 0 where
    pub confirmed : ℕ
    pub at_most : confirmed ≤ n
    pub delivers : Delivers k c (n - confirmed) c.plugins c'

  -- The call ends, and keeps the window.
  abbrev pub Ends : Connection A → ℕ → Option (Bool × Connection A) → Type 0
  Ends c n none = ⊥
  Ends c n (some (ok, d)) = Kept c n d

  Kept-Delivers :
      {c d e : Connection A} {n : ℕ} (h : Kept c n d)
      → Delivers k d (n - h.confirmed + h.delivers.sends.sent) d.plugins e
      → Kept c n e
  Kept-Delivers {c} {d} {e} {n} h s = record {
    confirmed = h.confirmed;
    at_most = h.at_most;
    delivers = Delivers-trans k h.delivers s;
  }

  SameWindow-Kept : {c d e : Connection A} {n : ℕ} → Kept c n d → SameWindow d e → Kept c n e
  SameWindow-Kept {c} {d} {e} {n} h s =
      Kept-Delivers h (SameWindow-Delivers k d.plugins s h.delivers.sends.tracks)

  Kept-SameWindow : {c d : Connection A} {n : ℕ} → HasPending k c n → SameWindow c d → Kept c n d
  Kept-SameWindow {c} {d} {n} h s = record {
    confirmed = 0;
    at_most = omega arith;
    delivers =
        SameWindow-Delivers k c.plugins s (subst (λ (m : ℕ). HasPending k c m) (omega arith) h);
  }

  Kept-first : {c d e : Connection A} {n : ℕ} → SameWindow c d → Kept d n e → Kept c n e
  Kept-first {c} {d} {e} {n} s h = record {
    confirmed = h.confirmed;
    at_most = h.at_most;
    delivers = Delivers-after k s.same_count s.same_plugins s.same_parameters h.delivers;
  }

  check_sequence_number-Ends :
      (c : Connection A) (n r : ℕ)
      → HasPending k c n
      → r < 32768
      → Ends c n (check_sequence_number c r)
  unfolding check_sequence_number
  check_sequence_number-Ends c n r h hr =
      let w : Window.Window = record { send_count = c.send_count; pending = n } in
      let (b, e, t) = check_sequence_number_refines r h hr in
      let (s, p) = confirmed w r in
      let left : ℕ = (confirm_frames w r).1.pending in
      let d : Connection A = record c { k_buffer = b } in
      let now : HasPending k d (n - (n - left)) =
        subst (λ (m : ℕ). HasPending k d m) (omega arith) (subst (Tracks k b) s t) in
      rw e (record {
        confirmed = n - left;
        at_most = omega arith;
        delivers =
            Delivers-after k refl refl refl
              (SameWindow-Delivers k d.plugins (SameWindow-refl d) now);
      })

  accept_i_frame-Kept :
      (c d : Connection A) (n : ℕ) (buffer : List ℕ) (size : ℕ)
      → Kept c n d
      → Kept c n (accept_i_frame d buffer size).1
  unfolding accept_i_frame
  accept_i_frame-Kept c d n buffer size h =
      elim (create_from_buffer d.al_parameters (drop 6 buffer) (size - 6))
        as (λ o. Kept c n (accepted d o).1) [
          | none ↦ counted
          | some asdu ↦
              Kept-Delivers counted
                (deliver-Delivers k (count_frame d) _ asdu counted.delivers.sends.tracks)
        ]
    where
      counted : Kept c n (count_frame d)
      counted = SameWindow-Kept h (record {
        same_buffer = refl;
        same_count = refl;
        same_plugins = refl;
        same_parameters = refl;
      })

  after_check-Ends :
      (c : Connection A) (n : ℕ) (buffer : List ℕ) (size : ℕ) (out : Option (Bool × Connection A))
      → Ends c n out
      → Ends c n (after_check buffer size out)
  after_check-Ends c n buffer size (some (true, d)) e = accept_i_frame-Kept c d n buffer size e
  after_check-Ends c n buffer size (some (false, d)) e = e
  after_check-Ends c n buffer size none e = e

  finish-Ends :
      (c : Connection A) (n now : ℕ) (out : Option (Bool × Connection A))
      → Ends c n out
      → Ends c n (finish now out)
  finish-Ends c n now (some (true, d)) e = SameWindow-Kept e (reset_t3_timeout-SameWindow now d)
  finish-Ends c n now (some (false, d)) e = e
  finish-Ends c n now none e = e

  Ends-first :
      {c d : Connection A} (n : ℕ) (out : Option (Bool × Connection A))
      → SameWindow c d
      → Ends d n out
      → Ends c n out
  Ends-first n (some (ok, e)) s h = Kept-first s h
  Ends-first n none s h = h

  check_i_frame-Ends :
      (now : ℕ) (c : Connection A) (n : ℕ) (buffer : List ℕ) (size : ℕ)
      → HasPending k c n
      → AllBytes buffer
      → Ends c n (check_i_frame now c buffer size)
  unfolding check_i_frame
  check_i_frame-Ends now c n buffer size h bytes = if_both (Ends c n) (ltb size 7) kept (
      if_both (Ends c n)
        (frame_seq_no (byte buffer 2) (byte buffer 3) != (start_t2 now c).receive_count) kept
        (after_check-Ends c n buffer size _ (Ends-first n _ same checked)))
    where
      same : SameWindow c (start_t2 now c)
      same = start_t2-SameWindow now c

      kept : Kept c n (start_t2 now c)
      kept = Kept-SameWindow h same

      checked :
          Ends
            (start_t2 now c)
            n
            (check_sequence_number (start_t2 now c) (frame_seq_no (byte buffer 4) (byte buffer 5)))
      checked = check_sequence_number-Ends (start_t2 now c) n _ (SameWindow-HasPending k n same h) (
          frame_seq_no_lt (byte buffer 4) (byte buffer 5) (get_or-byte buffer 4 bytes)
            (get_or-byte buffer 5 bytes))

  -- CheckMessage ends on every message of bytes at a connection whose k-buffer stands for a
  -- window, whatever the plugins do through the connection: a part of the pending frames is
  -- confirmed, the frames that plugins sent are pending too, the send counter has gone on by
  -- their number modulo 32768, and without plugins none is sent.
  pub check_message-Ends :
      (now t3_now : ℕ) (c : Connection A) (n : ℕ) (buffer : List ℕ) (size : ℕ)
      → HasPending k c n
      → AllBytes buffer
      → Ends c n (check_message now t3_now c buffer size)
  unfolding check_message
  check_message-Ends now t3_now c n buffer size h bytes =
      if_both (Ends c n) (bit_and (byte buffer 2) 1 == 0)
        (finish-Ends c n t3_now _ (check_i_frame-Ends now c n buffer size h bytes))
        (if_both (Ends c n) (bit_and (byte buffer 2) 3 == 3)
          (finish-Ends c n t3_now (some (true, check_u_frame c (byte buffer 2))) u_frame)
          (if_both (Ends c n) (byte buffer 2 == 1)
            (finish-Ends c n t3_now _ (
              check_sequence_number-Ends c n ((byte buffer 4 + byte buffer 5 * 0x100) / 2) h
                s_number))
            (finish-Ends c n t3_now (some (true, c)) (Kept-SameWindow h (SameWindow-refl c)))))
    where
      u_frame : Kept c n (check_u_frame c (byte buffer 2))
      u_frame = Kept-SameWindow h (check_u_frame-SameWindow c (byte buffer 2))

      s_number : (byte buffer 4 + byte buffer 5 * 0x100) / 2 < 32768
      s_number = omega (arith, get_or-byte buffer 4 bytes, get_or-byte buffer 5 bytes)
