-- ===== src/Cs104/Slave/HighPriorityQueue/Full.antt =====
-- What `HighPriorityASDUQueue_isFull` promises to a sender.
use lib.Prelude.{
  ℕ, ◌+◌, ◌≤◌, ◌<◌, ◌≡◌, ap, ◌∙◌, ◌⊎◌, inl, inr, true, false, List, length, ltb, arith,
  if◌then◌else◌,
}
use lib.Cs104.Slave.HighPriorityQueue.{
  HighPriorityQueue, offset, position, insert_at, wrapped, next_msg, enqueue, is_full,
}
use lib.Cs104.Slave.HighPriorityQueue.Chain.{Chain-le, size_at-Entry}
use lib.Cs104.Slave.HighPriorityQueue.Fifo.{Linear, Wrapped, enqueue-insert_at}

module _ (x : List ℕ) (q : HighPriorityQueue) (short : length x ≤ 250) where
  accepted_empty : 252 ≤ q.size → q.entry_counter ≡ 0 → (enqueue x q).0 ≡ true
  unfolding enqueue
  accepted_empty room c = ground arith

  -- The newest entry ends behind the oldest one.
  accepted_ahead :
      0 < q.entry_counter
      → offset q.first_entry < next_msg q
      → is_full q ≡ false
      → (if ltb q.size (position q + (2 + length x))
          then insert_at 0 x (wrapped q)
          else insert_at (position q) x q).0
        ≡ true
  unfolding is_full
  accepted_ahead c lt free = ground arith

  -- The newest entry ends before the oldest one.
  accepted_behind :
      0 < q.entry_counter
      → next_msg q ≤ offset q.first_entry
      → next_msg q + 252 ≤ q.size
      → is_full q ≡ false
      → (if ltb q.size (position q + (2 + length x))
          then insert_at 0 x (wrapped q)
          else insert_at (position q) x q).0
        ≡ true
  unfolding is_full
  accepted_behind c le room free = ground arith

  -- An ASDU of at most 250 bytes is taken by a queue with room for one or more that is not full by
  -- `HighPriorityASDUQueue_isFull`: one that holds nothing, one whose entries stand one after
  -- another, and one whose entries stand around the end of the buffer, if the largest entry fits in
  -- the buffer after the newest one.
  pub enqueue-accepts :
      (asdus : List (List ℕ))
      → 252 ≤ q.size
      → ((q.entry_counter ≡ 0) ⊎ (Linear q asdus ⊎ (Wrapped q asdus × (next_msg q + 252 ≤ q.size))))
      → is_full q ≡ false
      → (enqueue x q).0 ≡ true
  enqueue-accepts asdus room (inl c) free = accepted_empty room c
  enqueue-accepts asdus room (inr (inl h)) free =
      let c : 0 < q.entry_counter = omega (arith, h.count) in
      let next : next_msg q ≡ h.last + 2 + length h.newest =
        ground (arith, h.ends, size_at-Entry q.buffer h.last h.newest h.entry) in
      ap (λ r. r.0) (enqueue-insert_at x q short c)
      ∙ accepted_ahead c
          (omega (arith, next, ap offset h.starts, Chain-le q.buffer h.first h.init h.last h.chain))
          free
  enqueue-accepts asdus room (inr (inr (h, fits))) free =
      let c : 0 < q.entry_counter = omega (arith, h.count) in
      let next : next_msg q ≡ h.last + 2 + length h.newest =
        ground (arith, h.ends, size_at-Entry q.buffer h.last h.newest h.entry_at_start) in
      ap (λ r. r.0) (enqueue-insert_at x q short c)
      ∙ accepted_behind c (omega (arith, next, ap offset h.starts, h.below)) fits free
