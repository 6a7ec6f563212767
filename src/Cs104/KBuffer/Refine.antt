-- ===== src/Cs104/KBuffer/Refine.antt =====
-- The k-buffer implements the window.
use lib.Prelude.{
  ℕ, ◌+◌, ◌-◌, ◌%◌, ◌≤◌, ◌<◌, ◌≡◌, refl, true, false, not, Option, none, some, inl, inr, leb, ◌==◌,
  if◌then◌else◌, arith, ap, eq→==, ◌∙◌, ℕ_discrete, ne→==, sym, Bool-cases,
}
use lib.Cs104.Window.{Window, behind, confirm_frames}
use lib.Cs104.KBuffer.{
  KBuffer, entry_at, check_sequence_number, release_loop, oldest_valid_seq_no, is_sent_buffer_full,
}
use lib.Cs104.KBuffer.Ring.{mod_cases, mod_steps, mod_in_ring, ahead_none}
use lib.Cs104.KBuffer.Tracks.{Filled, Tracks, numbered}
use lib.Cs104.KBuffer.Release.{seq_no_is_valid_iff, release_loop-finds, release_loop-stays}

-- What is left of a filled ring after all but the newest `p` entries are released.
Filled-drop :
    {b : KBuffer} {s n : ℕ} (f : Filled b s n) (p : ℕ)
    → 0 < p
    → p ≤ n
    → n ≤ b.max_sent_asdus
    → s < 32768
    → n < 32768
    → Filled (record b { oldest_sent_asdu = some ((f.oldest + (n - p)) % b.max_sent_asdus) }) s p
Filled-drop {b} {s} {n} f p h0 hp hk hs hn = record {
  oldest = (f.oldest + (n - p)) % b.max_sent_asdus;
  starts = refl;
  in_ring = mod_in_ring _ _ _ f.in_ring (omega arith);
  some_pending = h0;
  ends = f.ends ∙ ap some (sym (mod_steps _ f.oldest (n - p) (p - 1) (n - 1) (omega arith)));
  entries = λ j hj.
      rw (mod_steps b.max_sent_asdus f.oldest (n - p) j (n - p + j) refl)
        (f.entries (n - p + j) (omega arith) ∙ omega arith);
}

newest_of :
    {b : KBuffer} {s n : ℕ} (f : Filled b s n)
    → n ≤ b.max_sent_asdus
    → s < 32768
    → n < 32768
    → (entry_at b ((f.oldest + (n - 1)) % b.max_sent_asdus)).seq_no ≡ s
newest_of {b} {s} {n} f hk hs hn = f.entries (n - 1) (omega arith) ∙ omega arith

oldest_of :
    {b : KBuffer} {s n : ℕ} (f : Filled b s n) → (entry_at b f.oldest).seq_no ≡ numbered s n 0
oldest_of {b} f =
    rw (ahead_none b.max_sent_asdus f.oldest 0 f.in_ring refl) at (f.entries 0 f.some_pending)

-- The check at a filled ring, with the loop's outcome as a hypothesis.
check_invalid :
    {b : KBuffer} {s n : ℕ} (r : ℕ) (f : Filled b s n)
    → n ≤ b.max_sent_asdus
    → s < 32768
    → n < 32768
    → r < 32768
    → leb (behind s r) n ≡ false
    → check_sequence_number s b r ≡ some (false, b)
unfolding check_sequence_number
check_invalid {b} {s} {n} r f hk hs hn hr bad = rw f.starts (
    rw f.ends (
      rw (
        oldest_of f,
        newest_of f hk hs hn,
        seq_no_is_valid_iff s n r hs hr f.some_pending hn,
        bad,
      )))

check_valid :
    {b : KBuffer} {s n : ℕ} (r : ℕ) (o : Option ℕ) (f : Filled b s n)
    → n ≤ b.max_sent_asdus
    → s < 32768
    → n < 32768
    → r < 32768
    → leb (behind s r) n ≡ true
    → release_loop b.max_sent_asdus b
        (not (leb (numbered s n 0) s))
        (oldest_valid_seq_no (numbered s n 0))
        r
        f.oldest
      ≡ some o
    → check_sequence_number s b r ≡ some (true, record b { oldest_sent_asdu = o })
unfolding check_sequence_number
check_valid {b} {s} {n} r o f hk hs hn hr ok out =
    ground
      (arith, oldest_of f, newest_of f hk hs hn, seq_no_is_valid_iff s n r hs hr f.some_pending hn)

-- The loop's outcome: where the ring of the frames still pending starts.
abbrev start_after : {b : KBuffer} {s n : ℕ} → ℕ → Filled b s n → Option ℕ
start_after {b} {s} {n} r f =
    if behind s r == 0 then none else some ((f.oldest + (n - behind s r)) % b.max_sent_asdus)

release_loop-from_oldest :
    {b : KBuffer} {s n : ℕ} (r : ℕ) (f : Filled b s n)
    → n ≤ b.max_sent_asdus
    → s < 32768
    → n < 32768
    → r < 32768
    → behind s r ≤ n
    → release_loop b.max_sent_asdus b
        (not (leb (numbered s n 0) s))
        (oldest_valid_seq_no (numbered s n 0))
        r
        f.oldest
      ≡ some (start_after r f)
release_loop-from_oldest {b} {s} {n} r f hk hs hn hr hp = elim (ℕ_discrete (behind s r) n) [
  | yes e ↦
      release_loop-stays s n r b b.max_sent_asdus f.oldest (omega arith) f.some_pending hn hs hr e
        (oldest_of f)
      ∙ ground (arith, ahead_none b.max_sent_asdus f.oldest (n - behind s r) f.in_ring)
  | no e ↦
      release_loop-finds s n r b b.max_sent_asdus f.oldest n hk f.in_ring hk (omega arith) hn hs hr
        (omega arith) f.ends f.entries
]

-- The ring after the loop stands for the frames that `r` does not confirm.
released-Tracks :
    {k : ℕ} {b : KBuffer} {w : Window} (r : ℕ)
    → Tracks k b w
    → (f : Filled b w.send_count w.pending) → behind w.send_count r ≤ w.pending
    → Tracks k
        (record b { oldest_sent_asdu = start_after r f })
        (record w { pending = behind w.send_count r })
released-Tracks {k} {b} {w} r t f hp = elim (ℕ_discrete (behind w.send_count r) 0) [
  | yes e ↦ rw (eq→== _ _ e) (record {
    size = t.size;
    room = t.room;
    k_positive = t.k_positive;
    k_small = t.k_small;
    fits = omega arith;
    count_small = t.count_small;
    layout = inl (e, refl);
  })
  | no e ↦ rw (ne→== _ _ e) (record {
    size = t.size;
    room = t.room;
    k_positive = t.k_positive;
    k_small = t.k_small;
    fits = omega arith;
    count_small = t.count_small;
    layout = inr (
        Filled-drop f (behind w.send_count r) (omega arith) hp (omega arith) t.count_small
          (omega arith));
  })
]

-- Nothing pending: the counter itself is the one number that is accepted, and nothing changes.
check_empty :
    {b : KBuffer} (w : Window) (r : ℕ)
    → b.oldest_sent_asdu ≡ none
    → w.pending ≡ 0
    → w.send_count < 32768
    → r < 32768
    → check_sequence_number w.send_count b r ≡ some ((confirm_frames w r).0, b)
unfolding check_sequence_number confirm_frames
check_empty {b} w r e z hs hr = ground arith

confirm_empty : (w : Window) (r : ℕ) → w.pending ≡ 0 → (confirm_frames w r).1 ≡ w
unfolding confirm_frames
confirm_empty w r z = ground arith

-- For a k-buffer that stands for a window of at most 32767 pending frames and a received
-- number below 32768, checkSequenceNumber ends, accepts the number exactly when it confirms
-- none, some or all of the pending frames (also across the wrap of the counter), and leaves a
-- k-buffer that stands for the window without the confirmed frames.
pub check_sequence_number_refines :
    {k : ℕ} {b : KBuffer} {w : Window} (r : ℕ)
    → Tracks k b w
    → r < 32768
    → let (ok, w') = confirm_frames w r in
      (b' : KBuffer) × (check_sequence_number w.send_count b r ≡ some (ok, b')) × Tracks k b' w'
unfolding confirm_frames
check_sequence_number_refines {k} {b} {w} r t hr = elim t.layout [
  | inl e ↦ (b, check_empty w r e.1 e.0 t.count_small hr, rw (confirm_empty w r e.0) t)
  | inr f ↦ elim (Bool-cases (leb (behind w.send_count r) w.pending)) [
    | inl ok ↦
        let hp : behind w.send_count r ≤ w.pending = ground arith in
        rw ok (
          record b { oldest_sent_asdu = start_after r f },
          check_valid r (start_after r f) f (omega arith) t.count_small (omega arith) hr ok
              (release_loop-from_oldest r f (omega arith) t.count_small (omega arith) hr hp),
          released-Tracks r t f hp,
        )
    | inr bad ↦ rw bad (b, check_invalid r f (omega arith) t.count_small (omega arith) hr bad, t)
  ]
]

-- `isSentBufferFull` says whether the window is full.
pub is_sent_buffer_full_refines :
    {k : ℕ} {b : KBuffer} {w : Window} → Tracks k b w → is_sent_buffer_full b ≡ (w.pending == k)
unfolding is_sent_buffer_full
is_sent_buffer_full_refines {k} {b} {w} t = elim t.layout [
  | inl e ↦ ground arith
  | inr f ↦
      ground
        (arith, mod_steps k f.oldest (w.pending - 1) 1 w.pending, mod_cases k f.oldest w.pending)
]
