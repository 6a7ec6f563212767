-- ===== src/Cs101/Queue/Tests.antt =====
-- A CS 101 queue of three elements.
use lib.Prelude.{◌≡◌, refl, true, none, some, List, [], ◌∷◌, arith}
use lib.Cs101.Queue.{
  BufferFrame, initialize, enqueue, dequeue, has_waiting_asdu, is_full, is_empty, flush,
}
use lib.Cs101.Queue.Run.{
  Call, put, get, peek, full, empty, clear, frame, type_id, flag, run, run_list, run_agrees,
}

abbrev free : BufferFrame
free = record { capacity = 256; bytes = [] }

abbrev calls : List Call
calls =
    get (some free)
    ∷ put (1 ∷ [])
    ∷ put (2 ∷ 7 ∷ [])
    ∷ put (3 ∷ [])
    ∷ full
    ∷ put (4 ∷ [])
    ∷ peek
    ∷ get none
    ∷ get (some free)
    ∷ get (some free)
    ∷ put (5 ∷ [])
    ∷ get (some free)
    ∷ clear
    ∷ empty
    ∷ []

-- The first ASDU is dropped for the fourth one.
calls_answered :
    run calls (initialize none (some 3))
    ≡ frame none
      ∷ flag true
      ∷ type_id (some 2)
      ∷ frame none
      ∷ frame (some (record free { bytes = 2 ∷ 7 ∷ [] }))
      ∷ frame (some (record free { bytes = 3 ∷ [] }))
      ∷ frame (some (record free { bytes = 4 ∷ [] }))
      ∷ flag true
      ∷ []
unfolding enqueue dequeue has_waiting_asdu is_full is_empty flush
calls_answered = refl

run_agrees_example : run calls (initialize none (some 3)) ≡ run_list 3 calls []
run_agrees_example =
    run_agrees none (some 3) calls (omega arith)
      (omega arith, (omega arith, (omega arith, (omega arith, (omega arith, tt)))))
