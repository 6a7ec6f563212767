-- ===== src/Cs104/Slave/HighPriorityQueue/Run.antt =====
-- Runs of the high priority queue: what was accepted is handed out in the same order.
use lib.Prelude.{
  ℕ, ◌≤◌, ◌≡◌, refl, sym, ap, subst, ◌∙◌, inl, Bool, true, false, Option, none, some, List, [], ◌∷◌,
  ◌++◌, append_assoc, append-nil, length, arith, if◌then◌else◌,
}
use lib.Cs104.Slave.HighPriorityQueue.{HighPriorityQueue, create, enqueue, get_next_asdu}
use lib.Cs104.Slave.HighPriorityQueue.Fifo.{Holds, Outcome}
use lib.Cs104.Slave.HighPriorityQueue.Refine.{NoLonger, enqueue-Holds}
use lib.Cs104.Slave.HighPriorityQueue.Delivery.{get_next_asdu-Holds, get_next_asdu-Empty}

-- The application sends an ASDU, or the connection asks for the next one.
pub data Call : Type 0 where
  put : List ℕ → Call
  get : Call

-- The ASDUs that were accepted, those that were handed out, and the queue in the end.
pub record Trace : Type 0 where
  pub accepted : List (List ℕ)
  pub delivered : List (List ℕ)
  pub queue : HighPriorityQueue

abbrev pub accept : Bool → List ℕ → Trace → Trace
accept b asdu t = if b then record t { accepted = asdu ∷ t.accepted } else t

abbrev pub deliver : Option (List ℕ) → Trace → Trace
deliver none t = t
deliver (some asdu) t = record t { delivered = asdu ∷ t.delivered }

abbrev pub run : List Call → HighPriorityQueue → Trace
run [] q = record { accepted = []; delivered = []; queue = q }
run (put asdu ∷ calls) q = let r = enqueue asdu q in accept r.0 asdu (run calls r.1)
run (get ∷ calls) q = let r = get_next_asdu q in deliver r.0 (run calls r.1)

-- Every ASDU that is sent has the length.
abbrev pub OfLength : ℕ → List Call → Type 0
OfLength n [] = Unit {0}
OfLength n (put asdu ∷ calls) = (length asdu ≡ n) × OfLength n calls
OfLength n (get ∷ calls) = OfLength n calls

abbrev EachOf : ℕ → List (List ℕ) → Type 0
EachOf n [] = Unit {0}
EachOf n (asdu ∷ asdus) = (length asdu ≡ n) × EachOf n asdus

EachOf-snoc :
    (n : ℕ) (asdus : List (List ℕ)) (asdu : List ℕ)
    → EachOf n asdus
    → length asdu ≡ n
    → EachOf n (asdus ++ (asdu ∷ []))
EachOf-snoc n [] asdu h e = (e, tt)
EachOf-snoc n (x ∷ asdus) asdu h e = (h.0, EachOf-snoc n asdus asdu h.1 e)

EachOf-NoLonger :
    (n : ℕ) (asdus : List (List ℕ)) (asdu : List ℕ)
    → EachOf n asdus
    → length asdu ≡ n
    → NoLonger asdu asdus
EachOf-NoLonger n [] asdu h e = tt
EachOf-NoLonger n (x ∷ asdus) asdu h e = omega (arith, h.0)

-- What the queue held and what it accepted is what it handed out and what it holds now.
abbrev InOrder : List (List ℕ) → Trace → Type 0
InOrder asdus t =
    (rest : List (List ℕ)) × (asdus ++ t.accepted ≡ t.delivered ++ rest) × Holds t.queue rest

size-enqueue : (asdu : List ℕ) (q : HighPriorityQueue) → (enqueue asdu q).1.size ≡ q.size
unfolding enqueue
size-enqueue asdu q = ground arith

size-get_next_asdu : (q : HighPriorityQueue) → (get_next_asdu q).1.size ≡ q.size
unfolding get_next_asdu
size-get_next_asdu q = ground arith

put-InOrder :
    (n : ℕ) (asdu : List ℕ) (asdus : List (List ℕ)) (r : Bool × HighPriorityQueue) (t : Trace)
    → length asdu ≡ n
    → Outcome asdus asdu r
    → EachOf n asdus
    → ((held : List (List ℕ)) → Holds r.1 held → EachOf n held → InOrder held t)
    → InOrder asdus (accept r.0 asdu t)
put-InOrder n asdu asdus (true, q) t l h each next =
    let (rest, e, holds) = next (asdus ++ (asdu ∷ [])) h (EachOf-snoc n asdus asdu each l) in
    (rest, sym (append_assoc asdus (asdu ∷ []) t.accepted) ∙ e, holds)
put-InOrder n asdu asdus (false, q) t l h each next = next asdus h each

module _ (n : ℕ) (le : n ≤ 250) where
  run-InOrder :
      (calls : List Call) (q : HighPriorityQueue) (asdus : List (List ℕ))
      → OfLength n calls
      → 252 ≤ q.size
      → Holds q asdus
      → EachOf n asdus
      → InOrder asdus (run calls q)
  run-InOrder [] q asdus o room h each = (asdus, append-nil asdus, h)
  run-InOrder (put asdu ∷ calls) q asdus o room h each =
      let room' : 252 ≤ (enqueue asdu q).1.size = omega (arith, size-enqueue asdu q) in
      put-InOrder n asdu asdus (enqueue asdu q) (run calls (enqueue asdu q).1) o.0
        (enqueue-Holds asdu q asdus (omega (arith, o.0)) room h
          (EachOf-NoLonger n asdus asdu each o.0))
        each (λ held. run-InOrder calls (enqueue asdu q).1 held o.1 room')
  run-InOrder (get ∷ calls) q [] o room h each =
      let e = get_next_asdu-Empty q h in
      subst (λ r. InOrder [] (deliver r.0 (run calls r.1))) (sym e)
        (run-InOrder calls q [] o room h each)
  run-InOrder (get ∷ calls) q (x ∷ xs) o room h each =
      let d = get_next_asdu-Holds q x xs h in
      let (rest, e, holds) =
        run-InOrder calls (get_next_asdu q).1 xs o (omega (arith, size-get_next_asdu q)) d.1
          each.1 in
      subst (λ out. InOrder (x ∷ xs) (deliver out (run calls (get_next_asdu q).1))) (sym d.0)
        (rest, ap (λ l. x ∷ l) e, holds)

  -- Of ASDUs of one length, no more than 250 bytes, that are sent through a new queue with room for
  -- one or more, interleaved with any requests for the next one: those accepted are those handed
  -- out, in the same order, followed by others that the queue still holds.
  pub run-create :
      (max_queue_size : ℕ) (calls : List Call)
      → 1 ≤ max_queue_size
      → OfLength n calls
      → (rest : List (List ℕ)) × ((run calls (create max_queue_size)).accepted
          ≡ (run calls (create max_queue_size)).delivered ++ rest)
        × Holds (run calls (create max_queue_size)).queue rest
  run-create max_queue_size calls some_room o =
      run-InOrder calls (create max_queue_size) [] o (omega arith) (inl (refl, refl)) tt
