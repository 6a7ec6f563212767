-- ===== src/Cs104/Slave/HighPriorityQueue/Fifo.antt =====
-- What a high priority queue holds.
use lib.Prelude.{
  ℕ, ◌+◌, ◌≤◌, ◌<◌, ◌≡◌, refl, ap, ◌∙◌, ◌⊎◌, inl, inr, Bool, true, false, some, List, [], ◌∷◌, ◌++◌,
  append_assoc, length, length-append, ltb, arith, if◌then◌else◌,
}
use lib.Cs104.Slave.HighPriorityQueue.{
  HighPriorityQueue, encode, position, wrapped, insert, insert_at, enqueue,
}
use lib.Cs104.Slave.HighPriorityQueue.Chain.{
  Entry, Chain, size_at-Entry, Entry-write, Chain-le, Chain-write_other, Entry-write_other,
  Chain-snoc,
}

-- The entries stand one after another.
pub record Linear (q : HighPriorityQueue) (asdus : List (List ℕ)) : Type 0 where
  pub init : List (List ℕ)
  pub newest : List ℕ
  pub content : asdus ≡ init ++ (newest ∷ [])
  pub first : ℕ
  pub last : ℕ
  pub starts : q.first_entry ≡ some first
  pub ends : q.last_entry ≡ some last
  pub limit : q.last_in_buffer_entry ≡ some last
  pub chain : Chain q.buffer first init last
  pub entry : Entry q.buffer last newest
  pub fits : last + 2 + length newest ≤ q.size
  pub count : q.entry_counter ≡ length init + 1

-- The older entries stand up to the end of the buffer, and the newer ones at its start.
pub record Wrapped (q : HighPriorityQueue) (asdus : List (List ℕ)) : Type 0 where
  pub older : List (List ℕ)
  pub end : List ℕ
  pub newer : List (List ℕ)
  pub newest : List ℕ
  pub content : asdus ≡ older ++ (end ∷ (newer ++ (newest ∷ [])))
  pub first : ℕ
  pub limit : ℕ
  pub last : ℕ
  pub starts : q.first_entry ≡ some first
  pub ends : q.last_entry ≡ some last
  pub limits : q.last_in_buffer_entry ≡ some limit
  pub chain : Chain q.buffer first older limit
  pub entry : Entry q.buffer limit end
  pub fits : limit + 2 + length end ≤ q.size
  pub chain_at_start : Chain q.buffer 0 newer last
  pub entry_at_start : Entry q.buffer last newest
  pub below : last + 2 + length newest ≤ first
  pub count : q.entry_counter ≡ length older + 1 + length newer + 1

abbrev pub Holds : HighPriorityQueue → List (List ℕ) → Type 0
Holds q asdus = ((q.entry_counter ≡ 0) × (asdus ≡ [])) ⊎ (Linear q asdus ⊎ Wrapped q asdus)

-- The queue after an ASDU was taken or refused.
abbrev pub Outcome : List (List ℕ) → List ℕ → Bool × HighPriorityQueue → Type 0
Outcome asdus asdu (true, q) = Holds q (asdus ++ (asdu ∷ []))
Outcome asdus asdu (false, q) = Holds q asdus

module _ (x : List ℕ) (q : HighPriorityQueue) where
  pub enqueue-insert_at :
      length x ≤ 250
      → 0 < q.entry_counter
      → enqueue x q ≡ (
          if ltb q.size (position q + (2 + length x))
          then insert_at 0 x (wrapped q)
          else insert_at (position q) x q)
  unfolding enqueue
  enqueue-insert_at h c = ground arith

  pub insert_behind :
      (i f : ℕ)
      → 0 < q.entry_counter
      → q.first_entry ≡ some f
      → i + (2 + length x) ≤ f
      → insert_at i x q ≡ (true, insert i x q)
  insert_behind i f c e h = ground arith

  pub insert_refused :
      (i f : ℕ)
      → 0 < q.entry_counter
      → q.first_entry ≡ some f
      → i ≤ f
      → f < i + (2 + length x)
      → insert_at i x q ≡ (false, q)
  insert_refused i f c e h g = ground arith

  pub insert_ahead :
      (i f : ℕ)
      → 0 < q.entry_counter
      → q.first_entry ≡ some f
      → f < i
      → insert_at i x q ≡ (true, insert i x (record q { last_in_buffer_entry = some i }))
  insert_ahead i f c e h = ground arith

  pub position-at :
      (l : ℕ) (y : List ℕ)
      → 0 < q.entry_counter
      → q.last_entry ≡ some l
      → Entry q.buffer l y
      → position q ≡ l + 2 + length y
  position-at l y c e h = ground (arith, size_at-Entry q.buffer l y h)

module _ (x : List ℕ) (q : HighPriorityQueue) (asdus : List (List ℕ)) where
  -- A new entry after the newest one.
  pub append-Linear :
      (h : Linear q asdus)
      → h.last + 2 + length h.newest + (2 + length x) ≤ q.size
      → Linear
          (insert
            (h.last + 2 + length h.newest)
            x
            (record q { last_in_buffer_entry = some (h.last + 2 + length h.newest) }))
          (asdus ++ (x ∷ []))
  append-Linear h room =
      let p = h.last + 2 + length h.newest in
      let le = Chain-le q.buffer h.first h.init h.last h.chain in
      record {
        init = h.init ++ (h.newest ∷ []);
        newest = x;
        content = ap (λ l. l ++ (x ∷ [])) h.content;
        first = h.first;
        last = p;
        starts = h.starts;
        ends = refl;
        limit = refl;
        chain =
            Chain-write_other q.buffer p (encode x) h.first (h.init ++ (h.newest ∷ [])) p
              (Chain-snoc q.buffer h.first h.init h.last h.newest h.chain h.entry)
              (inl (omega arith));
        entry = Entry-write q.buffer p x;
        fits = omega arith;
        count = omega (arith, h.count, length-append h.init (h.newest ∷ []));
      }

  -- A new entry at the start of the buffer.
  pub append-Wrapped :
      (h : Linear q asdus)
      → 2 + length x ≤ h.first
      → Wrapped (insert 0 x (wrapped q)) (asdus ++ (x ∷ []))
  append-Wrapped h room =
      let le = Chain-le q.buffer h.first h.init h.last h.chain in
      record {
        older = h.init;
        end = h.newest;
        newer = [];
        newest = x;
        content = ap (λ l. l ++ (x ∷ [])) h.content ∙ append_assoc h.init (h.newest ∷ []) (x ∷ []);
        first = h.first;
        limit = h.last;
        last = 0;
        starts = h.starts;
        ends = refl;
        limits = h.ends;
        chain =
            Chain-write_other q.buffer 0 (encode x) h.first h.init h.last h.chain
              (inr (omega arith));
        entry = Entry-write_other q.buffer 0 (encode x) h.last h.newest h.entry (inr (omega arith));
        fits = h.fits;
        chain_at_start = refl;
        entry_at_start = Entry-write q.buffer 0 x;
        below = omega arith;
        count = omega (arith, h.count);
      }

  -- The pointer that the refused entry leaves behind is the one that was there.
  pub refuse-Linear : Linear q asdus → Linear (wrapped q) asdus
  refuse-Linear h = record {
    init = h.init;
    newest = h.newest;
    content = h.content;
    first = h.first;
    last = h.last;
    starts = h.starts;
    ends = h.ends;
    limit = h.ends;
    chain = h.chain;
    entry = h.entry;
    fits = h.fits;
    count = h.count;
  }

  -- A new entry after the newest one, before the oldest one.
  pub append_between :
      (h : Wrapped q asdus)
      → h.last + 2 + length h.newest + (2 + length x) ≤ h.first
      → Wrapped (insert (h.last + 2 + length h.newest) x q) (asdus ++ (x ∷ []))
  append_between h room =
      let p = h.last + 2 + length h.newest in
      let le = Chain-le q.buffer h.first h.older h.limit h.chain in
      record {
        older = h.older;
        end = h.end;
        newer = h.newer ++ (h.newest ∷ []);
        newest = x;
        content =
            ap (λ l. l ++ (x ∷ [])) h.content
            ∙ append_assoc h.older (h.end ∷ (h.newer ++ (h.newest ∷ []))) (x ∷ []);
        first = h.first;
        limit = h.limit;
        last = p;
        starts = h.starts;
        ends = refl;
        limits = h.limits;
        chain =
            Chain-write_other q.buffer p (encode x) h.first h.older h.limit h.chain
              (inr (omega arith));
        entry = Entry-write_other q.buffer p (encode x) h.limit h.end h.entry (inr (omega arith));
        fits = h.fits;
        chain_at_start =
            Chain-write_other q.buffer p (encode x) 0 (h.newer ++ (h.newest ∷ [])) p
              (Chain-snoc q.buffer 0 h.newer h.last h.newest h.chain_at_start h.entry_at_start)
              (inl (omega arith));
        entry_at_start = Entry-write q.buffer p x;
        below = omega arith;
        count = omega (arith, h.count, length-append h.newer (h.newest ∷ []));
      }
