-- ===== src/Cs101/Queue/Run.antt =====
-- Runs of the CS 101 queue, next to those of a list.
use lib.Prelude.{
  ℕ, ◌≤◌, ◌<◌, ◌≡◌, refl, sym, ap, ap₂, subst, ◌∙◌, Bool, Option, none, some, List, [], ◌∷◌, ◌++◌,
  length, get_or, ◌==◌, if_both, arith,
}
use lib.Cs101.Queue.{
  Queue, Element, BufferFrame, append_bytes, queue_size, initialize, enqueue, dequeue,
  has_waiting_asdu, is_full, is_empty, flush,
}
use lib.Cs101.Queue.Ring.{slot}
use lib.Cs101.Queue.Refine.{
  Holds, push, Each, enqueue-Holds-push, dequeue-empty, dequeue-oldest, oldest_gone,
}

pub data Call : Type 0 where
  put : List ℕ → Call
  get : Option BufferFrame → Call
  peek full empty clear : Call

pub data Answer : Type 0 where
  frame : Option BufferFrame → Answer
  type_id : Option ℕ → Answer
  flag : Bool → Answer

-- The answers of the queue.
abbrev pub run : List Call → Queue → List Answer
run [] q = []
run (put asdu ∷ calls) q = run calls (enqueue asdu q)
run (get f ∷ calls) q = frame (dequeue f q).0 ∷ run calls (dequeue f q).1
run (peek ∷ calls) q = type_id (has_waiting_asdu q) ∷ run calls q
run (full ∷ calls) q = flag (is_full q) ∷ run calls q
run (empty ∷ calls) q = flag (is_empty q) ∷ run calls q
run (clear ∷ calls) q = run calls (flush q)

-- The answers of a list of at most `size` ASDUs.
abbrev pub first_asdu : Option BufferFrame → List (List ℕ) → Option BufferFrame × List (List ℕ)
first_asdu none asdus = (none, asdus)
first_asdu (some f) [] = (none, [])
first_asdu (some f) (asdu ∷ asdus) = (some (append_bytes f asdu), asdus)

abbrev pub first_type_id : List (List ℕ) → Option ℕ
first_type_id [] = none
first_type_id (asdu ∷ asdus) = some (get_or asdu 0 0)

abbrev pub run_list : ℕ → List Call → List (List ℕ) → List Answer
run_list size [] asdus = []
run_list size (put asdu ∷ calls) asdus = run_list size calls (push size asdu asdus)
run_list size (get f ∷ calls) asdus =
    frame (first_asdu f asdus).0 ∷ run_list size calls (first_asdu f asdus).1
run_list size (peek ∷ calls) asdus = type_id (first_type_id asdus) ∷ run_list size calls asdus
run_list size (full ∷ calls) asdus = flag (length asdus == size) ∷ run_list size calls asdus
run_list size (empty ∷ calls) asdus = flag (length asdus == 0) ∷ run_list size calls asdus
run_list size (clear ∷ calls) asdus = run_list size calls []

-- Every ASDU that is put into the queue has at most 255 bytes.
abbrev pub Storable : List Call → Type 0
Storable [] = Unit {0}
Storable (put asdu ∷ calls) = (length asdu ≤ 255) × Storable calls
Storable (get f ∷ calls) = Storable calls
Storable (peek ∷ calls) = Storable calls
Storable (full ∷ calls) = Storable calls
Storable (empty ∷ calls) = Storable calls
Storable (clear ∷ calls) = Storable calls

Short : List ℕ → Type 0
Short asdu = length asdu ≤ 255

snoc-Short :
    (asdu : List ℕ) (asdus : List (List ℕ))
    → Short asdu
    → Each Short asdus
    → Each Short (asdus ++ (asdu ∷ []))
snoc-Short asdu [] h each = (h, tt)
snoc-Short asdu (x ∷ xs) h each = (each.0, snoc-Short asdu xs h each.1)

push-Short :
    (size : ℕ) (asdu : List ℕ) (asdus : List (List ℕ))
    → Short asdu
    → Each Short asdus
    → Each Short (push size asdu asdus)
push-Short size asdu [] h each =
    if_both (λ (l : List (List ℕ)). Each Short (l ++ (asdu ∷ []))) (0 == size) (h, tt) (h, tt)
push-Short size asdu (x ∷ xs) h each =
    if_both (λ (l : List (List ℕ)). Each Short (l ++ (asdu ∷ []))) (length (x ∷ xs) == size)
      (snoc-Short asdu xs h each.1) (snoc-Short asdu (x ∷ xs) h each)

size-enqueue : (asdu : List ℕ) (q : Queue) → (enqueue asdu q).size ≡ q.size
unfolding enqueue
size-enqueue asdu q = ground arith

flush-Holds : (q : Queue) (asdus : List (List ℕ)) → Holds q asdus → Holds (flush q) []
unfolding flush
flush-Holds q asdus h = record {
  first = omega (arith, h.first);
  bound = omega arith;
  count = refl;
  last = λ pos. omega arith;
  ring = tt;
}

has_waiting_asdu-first :
    (q : Queue) (asdus : List (List ℕ)) → Holds q asdus → has_waiting_asdu q ≡ first_type_id asdus
unfolding has_waiting_asdu
has_waiting_asdu-first q [] h = ground (arith, h.count)
has_waiting_asdu-first q (x ∷ xs) h =
    let at : slot q.size q.first_msg_index 0 ≡ q.first_msg_index = ground (arith, h.first) in
    let stored = ap (λ (e : Element). get_or e.buffer 0 0) (ap q.elements (sym at) ∙ h.ring.0) in
    ground (arith, h.count, stored)

module _ (size : ℕ) where
  -- A queue that holds some ASDUs answers as the list of them does.
  run-Holds :
      (calls : List Call) (q : Queue) (asdus : List (List ℕ))
      → Storable calls
      → q.size ≡ size
      → Holds q asdus
      → Each Short asdus
      → run calls q ≡ run_list size calls asdus
  unfolding Short dequeue is_full is_empty flush
  run-Holds [] q asdus s e h each = refl
  run-Holds (put asdu ∷ calls) q asdus s e h each =
      run-Holds calls (enqueue asdu q) (push size asdu asdus) s.1 (size-enqueue asdu q ∙ e)
        (subst (λ n. Holds (enqueue asdu q) (push n asdu asdus)) e
          (enqueue-Holds-push asdu q asdus h))
        (push-Short size asdu asdus s.0 each)
  run-Holds (get none ∷ calls) q asdus s e h each =
      ap (λ l. frame none ∷ l) (run-Holds calls q asdus s e h each)
  run-Holds (get (some f) ∷ calls) q [] s e h each =
      ap (λ r. frame r.0 ∷ run calls r.1) (dequeue-empty f q h)
      ∙ ap (λ l. frame none ∷ l) (run-Holds calls q [] s e h each)
  run-Holds (get (some f) ∷ calls) q (x ∷ xs) s e h each =
      ap (λ r. frame r.0 ∷ run calls r.1) (dequeue-oldest f q x xs each.0 h)
      ∙ ap (λ l. frame (some (append_bytes f x)) ∷ l)
          (run-Holds calls
            (record q {
              first_msg_index = slot q.size q.first_msg_index 1;
              entry_counter = length xs;
            })
            xs s e (oldest_gone f q x xs h) each.1)
  run-Holds (peek ∷ calls) q asdus s e h each =
      ap₂ (λ t l. type_id t ∷ l) (has_waiting_asdu-first q asdus h)
        (run-Holds calls q asdus s e h each)
  run-Holds (full ∷ calls) q asdus s e h each =
      ap₂ (λ b l. flag b ∷ l) (ap₂ (λ m n. m == n) h.count e) (run-Holds calls q asdus s e h each)
  run-Holds (empty ∷ calls) q asdus s e h each =
      ap₂ (λ b l. flag b ∷ l) (ap (λ m. m == 0) h.count) (run-Holds calls q asdus s e h each)
  run-Holds (clear ∷ calls) q asdus s e h each =
      run-Holds calls (flush q) [] s e (flush-Holds q asdus h) tt

-- Any sequence of calls on a new queue of one or more elements, in which no ASDU has more than 255
-- bytes, gets the answers of a list of ASDUs that drops its oldest one for a new one when it has as
-- many as the queue has elements.
pub run_agrees :
    (configured max_queue_size : Option ℕ) (calls : List Call)
    → 0 < queue_size configured max_queue_size
    → Storable calls
    → run calls (initialize configured max_queue_size)
      ≡ run_list (queue_size configured max_queue_size) calls []
run_agrees configured max_queue_size calls pos s =
    run-Holds (queue_size configured max_queue_size) calls (initialize configured max_queue_size) []
      s refl
      (record {
        first = pos;
        bound = omega arith;
        count = refl;
        last = λ p. omega arith;
        ring = tt;
      })
      tt
