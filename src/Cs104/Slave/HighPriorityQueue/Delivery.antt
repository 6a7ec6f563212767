-- ===== src/Cs104/Slave/HighPriorityQueue/Delivery.antt =====
-- What `HighPriorityASDUQueue_getNextASDU` hands out, and the queue after it.
use lib.Prelude.{
  ℕ, ◌+◌, ◌-◌, ◌<◌, ◌≡◌, refl, sym, ap, subst, ◌∙◌, ◌⊎◌, inl, inr, none, some, List, [], ◌∷◌, ◌++◌,
  length, length-append, arith,
}
use lib.Cs104.Slave.HighPriorityQueue.{HighPriorityQueue, get_next_asdu}
use lib.Cs104.Slave.HighPriorityQueue.Chain.{Entry, Chain, size_at-Entry, read-Entry, Chain-le}
use lib.Cs104.Slave.HighPriorityQueue.Fifo.{Linear, Wrapped, Holds}

-- The queue hands out the ASDU and then holds the others.
abbrev pub Delivers : HighPriorityQueue → List ℕ → List (List ℕ) → Type 0
Delivers q asdu asdus = ((get_next_asdu q).0 ≡ some asdu) × Holds (get_next_asdu q).1 asdus

module _ (q : HighPriorityQueue) (x : List ℕ) (f : ℕ) (starts : q.first_entry ≡ some f)
    (entry : Entry q.buffer f x) where
  out : 0 < q.entry_counter → (get_next_asdu q).0 ≡ some x
  unfolding get_next_asdu
  out c = ground (arith, starts, size_at-Entry q.buffer f x entry, read-Entry q.buffer f x entry)

  last_one : q.entry_counter ≡ 1 → (get_next_asdu q).1 ≡ record q { entry_counter = 0 }
  unfolding get_next_asdu
  last_one c = ground (arith, starts, size_at-Entry q.buffer f x entry)

  next_one :
      (l b : ℕ)
      → 1 < q.entry_counter
      → q.last_entry ≡ some l
      → q.last_in_buffer_entry ≡ some b
      → f < l ⊎ l < f
      → f < b ⊎ b < f
      → (get_next_asdu q).1
        ≡ record q { entry_counter = q.entry_counter - 1; first_entry = some (f + 2 + length x) }
  unfolding get_next_asdu
  next_one l b c e g d d' = ground (arith, starts, size_at-Entry q.buffer f x entry)

  to_start :
      (l : ℕ)
      → 1 < q.entry_counter
      → q.last_entry ≡ some l
      → q.last_in_buffer_entry ≡ some f
      → l < f
      → (get_next_asdu q).1 ≡ record q {
        entry_counter = q.entry_counter - 1;
        first_entry = some 0;
        last_in_buffer_entry = some l;
      }
  unfolding get_next_asdu
  to_start l c e g d = ground (arith, starts)

module _ (q : HighPriorityQueue) (x : List ℕ) (xs : List (List ℕ)) where
  Linear-Delivers :
      (h : Linear q (x ∷ xs)) → (init : List (List ℕ)) → h.init ≡ init → Delivers q x xs
  Linear-Delivers h [] e =
      let c : q.entry_counter ≡ 1 = omega (arith, h.count, ap length e) in
      let same : x ∷ xs ≡ h.newest ∷ [] = h.content ∙ ap (λ l. l ++ (h.newest ∷ [])) e in
      let is : h.newest ≡ x = cc in
      let rest : xs ≡ [] = cc in
      let at : h.last ≡ h.first = sym (subst (λ l. Chain q.buffer h.first l h.last) e h.chain) in
      let entry = subst (λ i. Entry q.buffer i x) at (subst (Entry q.buffer h.last) is h.entry) in
      (
        out q x h.first h.starts entry (omega (arith, c)),
        inl (
          ap (λ (q : HighPriorityQueue). q.entry_counter) (last_one q x h.first h.starts entry c),
          rest,
        ),
      )
  Linear-Delivers h (y ∷ init) e =
      let c : q.entry_counter ≡ length init + 1 + 1 = omega (arith, h.count, ap length e) in
      let same : x ∷ xs ≡ y ∷ (init ++ (h.newest ∷ [])) =
        h.content ∙ ap (λ l. l ++ (h.newest ∷ [])) e in
      let is : y ≡ x = cc in
      let rest : xs ≡ init ++ (h.newest ∷ []) = cc in
      let chain : Chain q.buffer h.first (x ∷ init) h.last =
        subst (λ y. Chain q.buffer h.first (y ∷ init) h.last) is
          (subst (λ l. Chain q.buffer h.first l h.last) e h.chain) in
      let le = Chain-le q.buffer (h.first + 2 + length x) init h.last chain.1 in
      (
        out q x h.first h.starts chain.0 (omega (arith, c)),
        subst (λ q'. Holds q' xs)
            (sym (
              next_one q x h.first h.starts chain.0 h.last h.last (omega (arith, c)) h.ends h.limit
                (inl (omega arith)) (inl (omega arith))))
            (inr (
              inl (record {
                init = init;
                newest = h.newest;
                content = rest;
                first = h.first + 2 + length x;
                last = h.last;
                starts = refl;
                ends = h.ends;
                limit = h.limit;
                chain = chain.1;
                entry = h.entry;
                fits = h.fits;
                count = omega (arith, c);
              }))),
      )

  Wrapped-Delivers :
      (h : Wrapped q (x ∷ xs)) → (older : List (List ℕ)) → h.older ≡ older → Delivers q x xs
  Wrapped-Delivers h [] e =
      let rest = h.newer ++ (h.newest ∷ []) in
      let same : x ∷ xs ≡ h.end ∷ rest = h.content ∙ ap (λ l. l ++ (h.end ∷ rest)) e in
      let is : h.end ≡ x = cc in
      let at : h.limit ≡ h.first = sym (subst (λ l. Chain q.buffer h.first l h.limit) e h.chain) in
      let entry = subst (λ i. Entry q.buffer i x) at (subst (Entry q.buffer h.limit) is h.entry) in
      (
        out q x h.first h.starts entry (omega (arith, h.count)),
        subst (λ q'. Holds q' xs)
            (sym (
              to_start q x h.first h.starts entry h.last (omega (arith, h.count)) h.ends
                (h.limits ∙ ap some at) (omega (arith, h.below))))
            (inr (
              inl (record {
                init = h.newer;
                newest = h.newest;
                content = cc;
                first = 0;
                last = h.last;
                starts = refl;
                ends = h.ends;
                limit = refl;
                chain = h.chain_at_start;
                entry = h.entry_at_start;
                fits = omega (arith, h.below, h.fits, at);
                count = omega (arith, h.count, ap length e);
              }))),
      )
  Wrapped-Delivers h (y ∷ older) e =
      let rest = older ++ (h.end ∷ (h.newer ++ (h.newest ∷ []))) in
      let same : x ∷ xs ≡ y ∷ rest =
        h.content ∙ ap (λ l. l ++ (h.end ∷ (h.newer ++ (h.newest ∷ [])))) e in
      let is : y ≡ x = cc in
      let chain : Chain q.buffer h.first (x ∷ older) h.limit =
        subst (λ y. Chain q.buffer h.first (y ∷ older) h.limit) is
          (subst (λ l. Chain q.buffer h.first l h.limit) e h.chain) in
      let le = Chain-le q.buffer (h.first + 2 + length x) older h.limit chain.1 in
      (
        out q x h.first h.starts chain.0 (omega (arith, h.count)),
        subst (λ q'. Holds q' xs)
            (sym (
              next_one q x h.first h.starts chain.0 h.last h.limit (omega (arith, h.count)) h.ends
                h.limits (inr (omega (arith, h.below))) (inl (omega arith))))
            (inr (
              inr (record {
                older = older;
                end = h.end;
                newer = h.newer;
                newest = h.newest;
                content = cc;
                first = h.first + 2 + length x;
                limit = h.limit;
                last = h.last;
                starts = refl;
                ends = h.ends;
                limits = h.limits;
                chain = chain.1;
                entry = h.entry;
                fits = h.fits;
                chain_at_start = h.chain_at_start;
                entry_at_start = h.entry_at_start;
                below = omega (arith, h.below);
                count = omega (arith, h.count, ap length e);
              }))),
      )

  -- A queue that holds one or more ASDUs hands out the oldest one, all its bytes, and then holds the
  -- others in the same order.
  pub get_next_asdu-Holds : Holds q (x ∷ xs) → Delivers q x xs
  get_next_asdu-Holds (inl (c, e)) = cc
  get_next_asdu-Holds (inr (inl h)) = Linear-Delivers h h.init refl
  get_next_asdu-Holds (inr (inr h)) = Wrapped-Delivers h h.older refl

-- What a queue that holds nothing hands out.
pub get_next_asdu-Empty : (q : HighPriorityQueue) → Holds q [] → get_next_asdu q ≡ (none, q)
unfolding get_next_asdu
get_next_asdu-Empty q (inl (c, e)) = ground (arith, c)
get_next_asdu-Empty q (inr (inl h)) =
    absurd (omega (arith, ap length h.content, length-append h.init (h.newest ∷ [])))
get_next_asdu-Empty q (inr (inr h)) = absurd (
    omega
      (arith, ap length h.content, length-append h.older (h.end ∷ (h.newer ++ (h.newest ∷ [])))))
