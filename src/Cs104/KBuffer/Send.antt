-- ===== src/Cs104/KBuffer/Send.antt =====
-- Sending: the k-buffer takes the entry of the frame just sent.
use lib.Prelude.{
  ◌⊎◌, ℕ, ◌+◌, ◌-◌, ◌%◌, ◌<◌, ◌≡◌, refl, none, some, inl, inr, arith, ap, ◌∙◌, ℕ_discrete, sym,
  get_or, set, length, get_or-set_self, get_or-set_ne, length-set, List,
}
use lib.Cs104.Window.{Window}
use lib.Cs104.KBuffer.{SentAsdu, KBuffer, store_sent, next_index, no_asdu}
use lib.Cs104.KBuffer.Ring.{mod_steps, mod_in_ring, ahead_none, slots-ne}
use lib.Cs104.KBuffer.Tracks.{Filled, Tracks}

stored :
    (l : List SentAsdu) (i j : ℕ) (e : SentAsdu)
    → i < length l
    → j ≡ i
    → get_or (set l i e) j no_asdu ≡ e
stored l i j e h p = rw p (get_or-set_self l i e no_asdu h)

-- Writing the entry of the frame just sent into a ring with room.
store-Filled_first :
    {k : ℕ} {b : KBuffer} {w : Window} (e : SentAsdu)
    → Tracks k b w
    → w.pending ≡ 0
    → b.oldest_sent_asdu ≡ none
    → e.seq_no ≡ (w.send_count + 1) % 32768
    → Filled (store_sent b e) ((w.send_count + 1) % 32768) 1
unfolding store_sent
store-Filled_first {k} {b} {w} e t z o q = rw o (record {
  oldest = 0;
  starts = refl;
  in_ring = omega arith;
  some_pending = omega arith;
  ends = ap some (sym (ahead_none b.max_sent_asdus 0 0 (omega arith) refl));
  entries = λ j hj.
      ap (λ x. x.seq_no)
        (stored b.sent_asdus 0 _ e (omega arith)
          (ahead_none b.max_sent_asdus 0 j (omega arith) (omega arith)))
      ∙ q
      ∙ omega arith;
})

store-Filled_next :
    {k : ℕ} {b : KBuffer} {w : Window} (e : SentAsdu)
    → Tracks k b w
    → (f : Filled b w.send_count w.pending) → w.pending < k
    → e.seq_no ≡ (w.send_count + 1) % 32768
    → Filled (store_sent b e) ((w.send_count + 1) % 32768) (w.pending + 1)
unfolding store_sent
store-Filled_next {k} {b} {w} e t f room q = rw f.starts (
    rw f.ends (record {
      oldest = f.oldest;
      starts = refl;
      in_ring = f.in_ring;
      some_pending = omega arith;
      ends = ap some slot;
      entries = λ j hj. elim (ℕ_discrete j w.pending) [
        | yes last ↦
            ap (λ x. x.seq_no)
              (stored b.sent_asdus _ _ e (omega (arith, here))
                (ap (λ d. (f.oldest + d) % size) (last ∙ omega arith) ∙ sym slot))
            ∙ q
            ∙ omega arith
        | no older ↦
            ap (λ x. x.seq_no)
              (get_or-set_ne b.sent_asdus _ _ e no_asdu (
                rw slot (
                  slots-ne size f.oldest j (w.pending + 1 - 1) f.in_ring (omega arith)
                    (omega arith))))
            ∙ f.entries j (omega arith)
            ∙ omega arith
      ];
    }))
  where
    size : ℕ
    size = b.max_sent_asdus

    slot :
        ((f.oldest + (w.pending - 1)) % size + 1) % size ≡ (f.oldest + (w.pending + 1 - 1)) % size
    slot = mod_steps size f.oldest (w.pending - 1) 1 (w.pending + 1 - 1) (omega arith)

    here : ((f.oldest + (w.pending - 1)) % size + 1) % size < size
    here = rw slot (mod_in_ring size f.oldest (w.pending + 1 - 1) f.in_ring (omega arith))

max_sent_asdus-store :
    (b : KBuffer) (e : SentAsdu) → (store_sent b e).max_sent_asdus ≡ b.max_sent_asdus
unfolding store_sent
max_sent_asdus-store b e = ground arith

length-store :
    (b : KBuffer) (e : SentAsdu) → length (store_sent b e).sent_asdus ≡ length b.sent_asdus
unfolding store_sent
length-store b e = ground (
  arith,
  length-set b.sent_asdus 0 e,
  length-set b.sent_asdus (next_index b b.newest_sent_asdu) e,
)

-- A k-buffer with room stands for the window with one more frame once the entry is written.
pub store_sent_refines :
    {k : ℕ} {b : KBuffer} {w : Window} (e : SentAsdu)
    → Tracks k b w
    → w.pending < k
    → e.seq_no ≡ (w.send_count + 1) % 32768
    → Tracks k
        (store_sent b e)
        (record { send_count = (w.send_count + 1) % 32768; pending = w.pending + 1 })
store_sent_refines {k} {b} {w} e t room q = record {
  size = max_sent_asdus-store b e ∙ t.size;
  room = length-store b e ∙ t.room;
  k_positive = t.k_positive;
  k_small = t.k_small;
  fits = omega arith;
  count_small = omega arith;
  layout = inr (filled t.layout);
}
  where
    filled :
        (w.pending ≡ 0) × (b.oldest_sent_asdu ≡ none) ⊎ Filled b w.send_count w.pending
        → Filled (store_sent b e) ((w.send_count + 1) % 32768) (w.pending + 1)
    filled (inl (z, o)) = rw z (store-Filled_first e t z o q)
    filled (inr f) = store-Filled_next e t f room q
