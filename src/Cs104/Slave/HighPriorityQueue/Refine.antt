-- ===== src/Cs104/Slave/HighPriorityQueue/Refine.antt =====
-- The high priority queue is a queue: what is taken comes out in the same order.
use lib.Prelude.{
  ℕ, ◌+◌, ◌≤◌, ◌<◌, ◌≡◌, refl, sym, ap, subst, ◌∙◌, inl, inr, true, some, List, [], ◌∷◌, ◌++◌,
  length, arith, dec_lt, dec_le,
}
use lib.Prelude.Memory.{Memory}
use lib.Cs104.Slave.HighPriorityQueue.{
  HighPriorityQueue, position, wrapped, insert, insert_at, enqueue,
}
use lib.Cs104.Slave.HighPriorityQueue.Chain.{Chain, Entry-write, Chain-le}
use lib.Cs104.Slave.HighPriorityQueue.Fifo.{
  Linear, Wrapped, Holds, Outcome, enqueue-insert_at, insert_behind, insert_refused, insert_ahead,
  position-at, append-Linear, append-Wrapped, refuse-Linear, append_between,
}

-- An ASDU that is no longer than the oldest one in the queue, if there is one.
abbrev pub NoLonger : List ℕ → List (List ℕ) → Type 0
NoLonger asdu [] = Unit {0}
NoLonger asdu (oldest ∷ asdus) = length asdu ≤ length oldest

oldest-fits :
    (m : Memory) (size first limit : ℕ) (x end : List ℕ) (older rest asdus : List (List ℕ))
    → asdus ≡ older ++ (end ∷ rest)
    → Chain m first older limit
    → limit + 2 + length end ≤ size
    → NoLonger x asdus
    → first + 2 + length x ≤ size
oldest-fits m size first limit x end [] rest asdus e h fits le =
    let le' : length x ≤ length end = subst (NoLonger x) e le in omega arith
oldest-fits m size first limit x end (o ∷ older) rest asdus e h fits le =
    let le' : length x ≤ length o = subst (NoLonger x) e le in
    omega (arith, Chain-le m (first + 2 + length o) older limit h.1)

module _ (x : List ℕ) (q : HighPriorityQueue) (asdus : List (List ℕ)) (short : length x ≤ 250) where
  -- The first ASDU of an empty queue.
  enqueue_empty :
      252 ≤ q.size
      → q.entry_counter ≡ 0
      → enqueue x q
        ≡ (true, insert 0 x (record q { first_entry = some 0; last_in_buffer_entry = some 0 }))
  unfolding enqueue
  enqueue_empty room c = ground arith

  enqueue-Empty : 252 ≤ q.size → q.entry_counter ≡ 0 → asdus ≡ [] → Outcome asdus x (enqueue x q)
  enqueue-Empty room c e = subst (Outcome asdus x) (sym (enqueue_empty room c)) (
      inr (
        inl (record {
          init = [];
          newest = x;
          content = ap (λ l. l ++ (x ∷ [])) e;
          first = 0;
          last = 0;
          starts = refl;
          ends = refl;
          limit = refl;
          chain = refl;
          entry = Entry-write q.buffer 0 x;
          fits = omega arith;
          count = omega (arith, c);
        })))

  enqueue_wraps :
      0 < q.entry_counter
      → q.size < position q + (2 + length x)
      → enqueue x q ≡ insert_at 0 x (wrapped q)
  enqueue_wraps c w = enqueue-insert_at x q short c ∙ ground arith

  enqueue_stays :
      0 < q.entry_counter
      → position q + (2 + length x) ≤ q.size
      → enqueue x q ≡ insert_at (position q) x q
  enqueue_stays c w = enqueue-insert_at x q short c ∙ ground arith

  module _ (h : Linear q asdus) where
    linear_position : position q ≡ h.last + 2 + length h.newest
    linear_position = position-at x q h.last h.newest (omega (arith, h.count)) h.ends h.entry

    linear_wraps : q.size < position q + (2 + length x) → Outcome asdus x (enqueue x q)
    linear_wraps w =
        let c : 0 < q.entry_counter = omega (arith, h.count) in
        elim (dec_le (0 + (2 + length x)) h.first) [
          | yes room ↦
              subst (Outcome asdus x)
                (sym (enqueue_wraps c w ∙ insert_behind x (wrapped q) 0 h.first c h.starts room))
                (inr (inr (append-Wrapped x q asdus h (omega arith))))
          | no full ↦
              subst (Outcome asdus x)
                (sym (
                  enqueue_wraps c w
                  ∙ insert_refused x (wrapped q) 0 h.first c h.starts (omega arith) (omega arith)))
                (inr (inl (refuse-Linear x q asdus h)))
        ]

    enqueue-Linear : Outcome asdus x (enqueue x q)
    enqueue-Linear = elim (dec_lt q.size (position q + (2 + length x))) [
      | yes w ↦ linear_wraps w
      | no fits ↦
          let c : 0 < q.entry_counter = omega (arith, h.count) in
          let p = h.last + 2 + length h.newest in
          let le = Chain-le q.buffer h.first h.init h.last h.chain in
          let e : enqueue x q ≡ insert_at p x q =
            enqueue_stays c (omega arith) ∙ ap (λ i. insert_at i x q) linear_position in
          let room : p + (2 + length x) ≤ q.size = omega (arith, linear_position) in
          subst (Outcome asdus x) (sym (e ∙ insert_ahead x q p h.first c h.starts (omega arith)))
            (inr (inl (append-Linear x q asdus h room)))
    ]

  enqueue-Wrapped : Wrapped q asdus → NoLonger x asdus → Outcome asdus x (enqueue x q)
  enqueue-Wrapped h le =
      let c : 0 < q.entry_counter = omega (arith, h.count) in
      let p = h.last + 2 + length h.newest in
      let at = position-at x q h.last h.newest c h.ends h.entry_at_start in
      let room =
        oldest-fits q.buffer q.size h.first h.limit x h.end h.older (h.newer ++ (h.newest ∷ []))
          asdus h.content h.chain h.fits le in
      let e : enqueue x q ≡ insert_at p x q =
        enqueue_stays c (omega arith) ∙ ap (λ i. insert_at i x q) at in
      elim (dec_le (p + (2 + length x)) h.first) [
        | yes free ↦
            subst (Outcome asdus x) (sym (e ∙ insert_behind x q p h.first c h.starts free))
              (inr (inr (append_between x q asdus h free)))
        | no full ↦
            subst (Outcome asdus x)
              (sym (e ∙ insert_refused x q p h.first c h.starts h.below (omega arith)))
              (inr (inr h))
      ]

  -- An ASDU of at most 250 bytes, and no longer than the oldest one in the queue if there is one,
  -- is sent through a queue with room for one or more, which holds some ASDUs: if it is accepted,
  -- the queue holds them and it as the newest one; if it is refused, the queue holds what it held.
  pub enqueue-Holds :
      252 ≤ q.size → Holds q asdus → NoLonger x asdus → Outcome asdus x (enqueue x q)
  enqueue-Holds room (inl (c, e)) le = enqueue-Empty room c e
  enqueue-Holds room (inr (inl h)) le = enqueue-Linear h
  enqueue-Holds room (inr (inr h)) le = enqueue-Wrapped h le
