-- ===== src/Cs104/Connection/Reach.antt =====
-- Everything that can happen to a connection after it is opened, in any order.
use lib.Prelude.{
  ℕ, ◌+◌, ◌<◌, ◌⊎◌, inr, ◌∷◌, ◌≡◌, refl, Bool, Option, some, List, [], length, length-replicate,
  arith, inl, subst, sym, ap, ◌∙◌,
}
use lib.Prelude.Bytes.{AllBytes}
use lib.Cs104.SystemTime.{SystemTime}
use lib.Cs104.Plugin.{Script}
use lib.Cs104.KBuffer.{KBuffer, SentAsdu}
use lib.Cs104.KBuffer.Tracks.{Tracks}
use lib.Cs104.Frame.{T104Frame}
use lib.Cs104.Connection.{
  Connection, reset_connection, reset_k_buffer, reset_t3_timeout, send_asdu_internal, send_start_dt,
  send_stop_dt, confirm_outstanding_messages, send_s_message, write_to_socket,
}
use lib.Cs104.Connection.Peer.{run_script}
use lib.Cs104.Connection.Establish.{
  Network, establish_socket, start_threadless, open_connection, stop_threadless,
}
use lib.Cs104.Connection.Receive.{check_message}
use lib.Cs104.Connection.Timeouts.{Clock, handle_timeouts, handle_t2, handle_t3, confirm_when_due}
use lib.Cs104.Connection.Sending.{
  HasPending, SameWindow, SameWindow-HasPending, Sends, send-Sends, run_script-Sends,
}
use lib.Cs104.Connection.Window.{Kept, Ends, check_message-Ends}

new-Tracks :
    (k : ℕ) (b : KBuffer)
    → 0 < k
    → k < 32768
    → b.sent_asdus ≡ []
    → Tracks k (reset_k_buffer k b) (record { send_count = 0; pending = 0 })
unfolding reset_k_buffer
new-Tracks k b h0 hk e = rw e (record {
  size = refl;
  room = length-replicate k _;
  k_positive = h0;
  k_small = hk;
  fits = omega arith;
  count_small = omega arith;
  layout = inl (refl, refl);
})

used-Tracks :
    (k : ℕ) (b : KBuffer) (x : SentAsdu) (xs : List SentAsdu)
    → 0 < k
    → k < 32768
    → b.sent_asdus ≡ x ∷ xs
    → length b.sent_asdus ≡ k
    → b.max_sent_asdus ≡ k
    → Tracks k (reset_k_buffer k b) (record { send_count = 0; pending = 0 })
unfolding reset_k_buffer
used-Tracks k b x xs h0 hk e room size = rw e (record {
  size = size;
  room = sym (ap length e) ∙ room;
  k_positive = h0;
  k_small = hk;
  fits = omega arith;
  count_small = omega arith;
  layout = inl (refl, refl);
})

-- `resetConnection` leaves an empty window, if the k-buffer is new or has room for `k`.
reset_k_buffer-Tracks :
    (k : ℕ) (b : KBuffer) (l : List SentAsdu)
    → 0 < k
    → k < 32768
    → b.sent_asdus ≡ l
    → (l ≡ []) ⊎ (length b.sent_asdus ≡ k) × (b.max_sent_asdus ≡ k)
    → Tracks k (reset_k_buffer k b) (record { send_count = 0; pending = 0 })
reset_k_buffer-Tracks k b [] h0 hk e h = new-Tracks k b h0 hk e
reset_k_buffer-Tracks k b (x ∷ xs) h0 hk e (inl new) = absurd (cc)
reset_k_buffer-Tracks k b (x ∷ xs) h0 hk e (inr (room, size)) =
    used-Tracks k b x xs h0 hk e room size

module _ {A : Type 0} where
  -- One call: of the user, of a plugin's task, on a message, or of the main loop. A connection may
  -- be opened again at any time.
  pub data Step : Connection A → Connection A → Type 0 where
    start : (net : Network) (now : ℕ) (c : Connection A) → Step c (start_threadless net now c).1
    send :
        (now : SystemTime) (c : Connection A) (f : T104Frame)
        → Step c (send_asdu_internal now c f).1
    receive :
        (now t3_now : ℕ) (c : Connection A) (m : List ℕ) (size : ℕ) {ok : Bool} {d : Connection A}
        → AllBytes m
        → check_message now t3_now c m size ≡ some (ok, d)
        → Step c d
    task : (c : Connection A) (s : Script A) → Step c (run_script c s).1
    timeouts : (now : Clock) (c : Connection A) → Step c (handle_timeouts now c).1
    confirm : (now : ℕ) (c : Connection A) → Step c (confirm_when_due now c)
    start_dt : (now : ℕ) (c : Connection A) → Step c (send_start_dt now c)
    stop_dt : (now : ℕ) (c : Connection A) → Step c (send_stop_dt now c)
    stop : (now : ℕ) (c : Connection A) → Step c (stop_threadless now c)

  pub data Reach (c : Connection A) : Connection A → Type 0 where
    here : Reach c c
    next : {d e : Connection A} → Reach c d → Step d e → Reach c e

  -- There is a number of pending frames, and the parameter k is the size of the window.
  pub record Tracked (k : ℕ) (c : Connection A) : Type 0 where
    pub pending : ℕ
    pub tracks : HasPending k c pending
    pub same_k : c.parameters.k ≡ k

  timeouts-SameWindow : (now : Clock) (c : Connection A) → SameWindow c (handle_timeouts now c).1
  unfolding handle_timeouts handle_t2 handle_t3 confirm_outstanding_messages send_s_message
      write_to_socket reset_t3_timeout
  timeouts-SameWindow now c = ground arith

  confirm-SameWindow : (now : ℕ) (c : Connection A) → SameWindow c (confirm_when_due now c)
  unfolding confirm_when_due confirm_outstanding_messages send_s_message write_to_socket
  confirm-SameWindow now c = ground arith

  start_dt-SameWindow : (now : ℕ) (c : Connection A) → SameWindow c (send_start_dt now c)
  unfolding send_start_dt write_to_socket
  start_dt-SameWindow now c = ground arith

  stop_dt-SameWindow : (now : ℕ) (c : Connection A) → SameWindow c (send_stop_dt now c)
  unfolding send_stop_dt confirm_outstanding_messages send_s_message write_to_socket
  stop_dt-SameWindow now c = ground arith

  stop-SameWindow : (now : ℕ) (c : Connection A) → SameWindow c (stop_threadless now c)
  unfolding stop_threadless confirm_outstanding_messages send_s_message write_to_socket
  stop-SameWindow now c = ground arith

  -- After the reset an attempt to connect leaves the window alone, whatever the network answers.
  start-SameWindow :
      (net : Network) (now : ℕ) (c : Connection A)
      → SameWindow (reset_connection now c) (start_threadless net now c).1
  unfolding start_threadless establish_socket open_connection
  start-SameWindow net now c = ground arith

  same-Tracked : {k : ℕ} {c d : Connection A} → SameWindow c d → Tracked k c → Tracked k d
  same-Tracked {k} {c} {d} s t = record {
    pending = t.pending;
    tracks = SameWindow-HasPending k t.pending s t.tracks;
    same_k = ground (arith, s.same_parameters, t.same_k);
  }

  Sends-Tracked : {k m : ℕ} {c d : Connection A} → Sends k c m d → c.parameters.k ≡ k → Tracked k d
  Sends-Tracked {k} {m} {c} {d} s e = record {
    pending = m + s.sent;
    tracks = s.tracks;
    same_k = ground (arith, s.same_parameters, e);
  }

  receive-Tracked :
      (k : ℕ) (c : Connection A) (n : ℕ) (out : Option (Bool × Connection A)) {ok : Bool}
      {d : Connection A}
      → Ends k c n out
      → c.parameters.k ≡ k
      → out ≡ some (ok, d)
      → Tracked k d
  receive-Tracked k c n out {ok} {d} h same e =
      let kept : Kept k c n d = subst (Ends k c n) e h in Sends-Tracked kept.delivers.sends same

  reset_connection-Tracked :
      (k now : ℕ) (c : Connection A)
      → c.parameters.k ≡ k
      → Tracks k (reset_k_buffer k c.k_buffer) (record { send_count = 0; pending = 0 })
      → Tracked k (reset_connection now c)
  unfolding reset_connection reset_t3_timeout
  reset_connection-Tracked k now c e t = record { pending = 0; tracks = rw e t; same_k = e }

  Step-Tracked : {k : ℕ} {c d : Connection A} → Step c d → Tracked k c → Tracked k d
  Step-Tracked {k} (start net now c) t = same-Tracked (start-SameWindow net now c) (
      reset_connection-Tracked k now c t.same_k (
        reset_k_buffer-Tracks k c.k_buffer _ t.tracks.k_positive t.tracks.k_small refl
          (inr (t.tracks.room, t.tracks.size))))
  Step-Tracked {k} (send now c f) t =
      Sends-Tracked (send-Sends k now c t.pending f t.tracks) t.same_k
  Step-Tracked {k} (receive now t3_now c m size bytes e) t =
      receive-Tracked k c t.pending _
        (check_message-Ends k now t3_now c t.pending m size t.tracks bytes) t.same_k e
  Step-Tracked {k} (task c s) t = Sends-Tracked (run_script-Sends k c t.pending s t.tracks) t.same_k
  Step-Tracked (timeouts now c) t = same-Tracked (timeouts-SameWindow now c) t
  Step-Tracked (confirm now c) t = same-Tracked (confirm-SameWindow now c) t
  Step-Tracked (start_dt now c) t = same-Tracked (start_dt-SameWindow now c) t
  Step-Tracked (stop_dt now c) t = same-Tracked (stop_dt-SameWindow now c) t
  Step-Tracked (stop now c) t = same-Tracked (stop-SameWindow now c) t

  -- From the first opening of a connection with an unallocated k-buffer and 0 < k < 32768, after
  -- any sequence of sends, received messages of bytes, calls that plugins make, timeouts,
  -- confirmations, STARTDT, STOPDT, closings and further openings, the k-buffer stands for a
  -- window of at most k pending frames whose consecutive numbers end in the send counter.
  pub Reach-Tracked :
      (net : Network) (now : ℕ) (c : Connection A) {d : Connection A}
      → 0 < c.parameters.k
      → c.parameters.k < 32768
      → c.k_buffer.sent_asdus ≡ []
      → Reach (start_threadless net now c).1 d
      → Tracked c.parameters.k d
  Reach-Tracked net now c h0 hk e here = same-Tracked (start-SameWindow net now c) (
      reset_connection-Tracked c.parameters.k now c refl
        (reset_k_buffer-Tracks c.parameters.k c.k_buffer _ h0 hk refl (inl e)))
  Reach-Tracked net now c h0 hk e (next r s) = Step-Tracked s (Reach-Tracked net now c h0 hk e r)
