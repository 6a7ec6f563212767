-- ===== src/Cs104/Slave/HighPriorityQueue/Tests.antt =====
-- The high priority queue in a buffer of 26 bytes, and one for two ASDUs of the largest size.
use lib.Prelude.{ℕ, zero, suc, ◌≡◌, refl, true, List, [], ◌∷◌, ◌++◌, arith, inl, inr}
use lib.Cs104.Slave.HighPriorityQueue.{HighPriorityQueue, create, enqueue, get_next_asdu, is_full}
use lib.Cs104.Slave.HighPriorityQueue.Fifo.{Linear, Wrapped, Holds, Outcome}
use lib.Cs104.Slave.HighPriorityQueue.Refine.{enqueue-Holds}
use lib.Cs104.Slave.HighPriorityQueue.Delivery.{Delivers, get_next_asdu-Holds}
use lib.Cs104.Slave.HighPriorityQueue.Full.{enqueue-accepts}
use lib.Cs104.Slave.HighPriorityQueue.Run.{Call, put, get, run, run-create}
use lib.Cs104.Slave.HighPriorityQueue.Overrun.{enqueue-overruns}

abbrev bytes : ℕ → ℕ → List ℕ
bytes zero b = []
bytes (suc n) b = b ∷ bytes n b

abbrev small_queue : HighPriorityQueue
small_queue = record (create 1) { size = 26 }

-- Twelve bytes are handed out, so that the next two ASDUs stand at the start of the buffer.
abbrev calls : List Call
calls =
    put (bytes 12 1)
    ∷ put (bytes 4 2)
    ∷ put (bytes 4 3)
    ∷ get
    ∷ put (bytes 8 4)
    ∷ put (bytes 2 5)
    ∷ []

abbrev full_queue : HighPriorityQueue
full_queue = (run calls small_queue).queue

-- The next ASDU is taken, although no byte of the buffer is free.
calls_accepted :
    (run (calls ++ (put (bytes 12 6) ∷ [])) small_queue).accepted
    ≡ bytes 12 1 ∷ bytes 4 2 ∷ bytes 4 3 ∷ bytes 8 4 ∷ bytes 2 5 ∷ bytes 12 6 ∷ []
unfolding enqueue get_next_asdu
calls_accepted = refl

-- It stands where two others stood, and what comes after the end of the entries is handed out.
calls_delivered :
    (run (calls ++ (put (bytes 12 6) ∷ get ∷ get ∷ get ∷ get ∷ [])) small_queue).delivered
    ≡ bytes 12 1 ∷ bytes 4 2 ∷ bytes 4 3 ∷ [] ∷ [] ∷ []
unfolding enqueue get_next_asdu
calls_delivered = refl

full_queue-Wrapped : Wrapped full_queue (bytes 4 2 ∷ bytes 4 3 ∷ bytes 8 4 ∷ bytes 2 5 ∷ [])
unfolding enqueue get_next_asdu
full_queue-Wrapped = record {
  older = bytes 4 2 ∷ [];
  end = bytes 4 3;
  newer = bytes 8 4 ∷ [];
  newest = bytes 2 5;
  content = refl;
  first = 14;
  limit = 20;
  last = 10;
  starts = refl;
  ends = refl;
  limits = refl;
  chain = (refl, refl);
  entry = refl;
  fits = omega arith;
  chain_at_start = (refl, refl);
  entry_at_start = refl;
  below = omega arith;
  count = refl;
}

abbrev same_length : List Call
same_length =
    put (bytes 3 1)
    ∷ put (bytes 3 2)
    ∷ get
    ∷ put (bytes 3 3)
    ∷ get
    ∷ get
    ∷ get
    ∷ put (bytes 3 4)
    ∷ []

run-create_example :
    (rest : List (List ℕ)) × ((run same_length (create 2)).accepted
      ≡ (run same_length (create 2)).delivered ++ rest)
    × Holds (run same_length (create 2)).queue rest
run-create_example =
    run-create 3 (omega arith) 2 same_length (omega arith) (refl, (refl, (refl, (refl, tt))))

abbrev one_queue : HighPriorityQueue
one_queue = (run (put (bytes 3 1) ∷ []) (create 1)).queue

one_queue-Linear : Linear one_queue (bytes 3 1 ∷ [])
unfolding enqueue
one_queue-Linear = record {
  init = [];
  newest = bytes 3 1;
  content = refl;
  first = 0;
  last = 0;
  starts = refl;
  ends = refl;
  limit = refl;
  chain = refl;
  entry = refl;
  fits = omega arith;
  count = refl;
}

enqueue-Holds_example : Outcome (bytes 3 1 ∷ []) (bytes 2 6) (enqueue (bytes 2 6) one_queue)
unfolding enqueue
enqueue-Holds_example =
    enqueue-Holds (bytes 2 6) one_queue (bytes 3 1 ∷ []) (omega arith) (omega arith)
      (inr (inl one_queue-Linear)) (omega arith)

enqueue-accepts_example : (enqueue (bytes 9 6) one_queue).0 ≡ true
unfolding enqueue is_full
enqueue-accepts_example =
    enqueue-accepts (bytes 9 6) one_queue (omega arith) (bytes 3 1 ∷ []) (omega arith)
      (inr (inl one_queue-Linear)) refl

get_next_asdu-Holds_example :
    Delivers full_queue (bytes 4 2) (bytes 4 3 ∷ bytes 8 4 ∷ bytes 2 5 ∷ [])
get_next_asdu-Holds_example =
    get_next_asdu-Holds full_queue (bytes 4 2) (bytes 4 3 ∷ bytes 8 4 ∷ bytes 2 5 ∷ [])
      (inr (inr full_queue-Wrapped))

-- ASDUs of different lengths stand around the end of a buffer for two of the largest.
abbrev long_calls : List Call
long_calls =
    put (bytes 240 1)
    ∷ put (bytes 40 2)
    ∷ put (bytes 200 3)
    ∷ put (bytes 10 4)
    ∷ get
    ∷ get
    ∷ put (bytes 150 5)
    ∷ put (bytes 120 6)
    ∷ []

abbrev long_queue : HighPriorityQueue
long_queue = (run long_calls (create 2)).queue

long_queue-Wrapped : Wrapped long_queue (bytes 200 3 ∷ bytes 10 4 ∷ bytes 150 5 ∷ bytes 120 6 ∷ [])
unfolding enqueue get_next_asdu
long_queue-Wrapped = record {
  older = bytes 200 3 ∷ [];
  end = bytes 10 4;
  newer = bytes 150 5 ∷ [];
  newest = bytes 120 6;
  content = refl;
  first = 284;
  limit = 486;
  last = 152;
  starts = refl;
  ends = refl;
  limits = refl;
  chain = (refl, refl);
  entry = refl;
  fits = omega arith;
  chain_at_start = (refl, refl);
  entry_at_start = refl;
  below = omega arith;
  count = refl;
}

enqueue-overruns_example :
    ((enqueue (bytes 245 7) long_queue).0 ≡ true)
    × ((rest : List (List ℕ)) → ¬ Holds (enqueue (bytes 245 7) long_queue).1 rest)
unfolding enqueue get_next_asdu
enqueue-overruns_example =
    enqueue-overruns (bytes 245 7) long_queue
      (bytes 200 3 ∷ bytes 10 4 ∷ bytes 150 5 ∷ bytes 120 6 ∷ []) long_queue-Wrapped (omega arith)
      (omega arith) (omega arith)
