-- ===== src/Cs104/Slave/HighPriorityQueue/Overrun.antt =====
-- What `HighPriorityASDUQueue_enqueue` does when the entries already stand around the end of the
-- buffer, and the new one fits neither after the newest entry nor at the end of the buffer.
use lib.Prelude.{
  ℕ, ◌+◌, ◌≤◌, ◌<◌, ◌≡◌, refl, ap, subst, ◌∙◌, inl, inr, true, some, List, length, arith,
}
use lib.Cs104.Slave.HighPriorityQueue.{
  HighPriorityQueue, offset, next_msg, wrapped, insert, enqueue,
}
use lib.Cs104.Slave.HighPriorityQueue.Chain.{Chain-le}
use lib.Cs104.Slave.HighPriorityQueue.Fifo.{Wrapped, Holds, enqueue-insert_at, insert_behind}

-- A queue with its newest entry at the start, the oldest one further on and the end before it.
tangled :
    (q : HighPriorityQueue) (f l : ℕ) (rest : List (List ℕ))
    → q.first_entry ≡ some f
    → q.last_entry ≡ some 0
    → q.last_in_buffer_entry ≡ some l
    → 0 < q.entry_counter
    → l < f
    → ¬ Holds q rest
tangled q f l rest ef el eb c lt (inl (z, e)) = omega arith
tangled q f l rest ef el eb c lt (inr (inl h)) =
    let first : h.first ≡ f = cc in
    let limit : h.last ≡ l = cc in omega (arith, Chain-le q.buffer h.first h.init h.last h.chain)
tangled q f l rest ef el eb c lt (inr (inr h)) =
    let first : h.first ≡ f = cc in
    let limit : h.limit ≡ l = cc in omega (arith, Chain-le q.buffer h.first h.older h.limit h.chain)

module _ (x : List ℕ) (q : HighPriorityQueue) (asdus : List (List ℕ)) (h : Wrapped q asdus) where
  overrun :
      length x ≤ 250
      → q.size < next_msg q + (2 + length x)
      → 2 + length x ≤ offset q.first_entry
      → enqueue x q ≡ (true, insert 0 x (wrapped q))
  overrun short past room =
      let c : 0 < q.entry_counter = omega (arith, h.count) in
      enqueue-insert_at x q short c
      ∙ ground arith
      ∙ insert_behind x (wrapped q) 0 h.first c h.starts (omega (arith, ap offset h.starts))

  -- The entries of a queue stand around the end of its buffer, and an ASDU of at most 250 bytes fits
  -- neither in the buffer after the newest one, nor anywhere but before the oldest entry at the end
  -- of the buffer, where the newer entries stand: it is accepted, and the queue then holds no list
  -- of ASDUs, since its oldest entry stands behind the end of its entries.
  pub enqueue-overruns :
      length x ≤ 250
      → q.size < next_msg q + (2 + length x)
      → 2 + length x ≤ offset q.first_entry
      → ((enqueue x q).0 ≡ true) × ((rest : List (List ℕ)) → ¬ Holds (enqueue x q).1 rest)
  enqueue-overruns short past room =
      let e = overrun short past room in
      (
        ap (λ r. r.0) e,
        λ rest holds.
            tangled (insert 0 x (wrapped q)) h.first h.last rest h.starts refl h.ends (omega arith)
              (omega (arith, h.below)) (subst (λ r. Holds r.1 rest) e holds),
      )
