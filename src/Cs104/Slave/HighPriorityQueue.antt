-- ===== src/Cs104/Slave/HighPriorityQueue.antt =====
-- `HighPriorityASDUQueue` of cs104_slave.c: the ASDUs that the server sends before its events, in a
-- buffer of bytes. Pointers are offsets in the buffer, and `none` is NULL. An ASDU is the list of
-- its encoded bytes; an entry is the size of an ASDU as a `uint16_t`, least octet first, and the ASDU.

pub mod Chain
pub mod Fifo
pub mod Refine
pub mod Delivery
pub mod Run
pub mod Full
pub mod Overrun
pub mod Tests
use lib.Prelude.{
  ℕ, ◌+◌, ◌-◌, ◌*◌, ◌/◌, ◌%◌, Bool, true, false, not, Option, none, some, List, [], ◌∷◌, length,
  ltb, leb, ◌==◌, if◌then◌else◌,
}
use lib.Prelude.Memory.{Memory, read, write}

pub record HighPriorityQueue : Type 0 where
  pub size : ℕ
  pub entry_counter : ℕ
  pub first_entry : Option ℕ
  pub last_entry : Option ℕ
  pub last_in_buffer_entry : Option ℕ
  pub buffer : Memory

-- NULL is read nowhere.
abbrev pub offset : Option ℕ → ℕ
offset none = 0
offset (some i) = i

-- `HighPriorityASDUQueue_create` and `HighPriorityASDUQueue_initialize`
abbrev pub create : ℕ → HighPriorityQueue
create max_queue_size = record {
  size = max_queue_size * 258;
  entry_counter = 0;
  first_entry = none;
  last_entry = none;
  last_in_buffer_entry = none;
  buffer = λ i. 0;
}

abbrev pub encode : List ℕ → List ℕ
encode asdu = (length asdu % 256) ∷ (length asdu / 256) ∷ asdu

abbrev pub size_at : Memory → ℕ → ℕ
size_at m i = m i + 256 * m (i + 1)

-- The end of the last entry.
abbrev pub next_msg : HighPriorityQueue → ℕ
next_msg q = offset q.last_entry + 2 + size_at q.buffer (offset q.last_entry)

-- Where a new entry is put.
abbrev pub position : HighPriorityQueue → ℕ
position q = if q.entry_counter == 0 then 0 else next_msg q

-- The pointers for an entry at the position: an empty queue starts over.
abbrev pub started : HighPriorityQueue → HighPriorityQueue
started q =
    if q.entry_counter == 0
    then record q { first_entry = some 0; last_in_buffer_entry = some 0 }
    else q

-- The entry does not fit at the end of the buffer.
abbrev pub wrapped : HighPriorityQueue → HighPriorityQueue
wrapped q = record q { last_in_buffer_entry = q.last_entry }

abbrev pub insert : ℕ → List ℕ → HighPriorityQueue → HighPriorityQueue
insert i asdu q = record q {
  last_entry = some i;
  entry_counter = q.entry_counter + 1;
  buffer = write q.buffer i (encode asdu);
}

-- The last test of `HighPriorityASDUQueue_enqueue`, and the entry.
abbrev pub insert_at : ℕ → List ℕ → HighPriorityQueue → Bool × HighPriorityQueue
insert_at i asdu q =
    if ltb 0 q.entry_counter
    then (if leb i (offset q.first_entry)
        then (if ltb (offset q.first_entry) (i + (2 + length asdu))
            then (false, q)
            else (true, insert i asdu q))
        else (true, insert i asdu (record q { last_in_buffer_entry = some i })))
    else (true, insert i asdu q)

-- `HighPriorityASDUQueue_enqueue`
unfoldable pub enqueue : List ℕ → HighPriorityQueue → Bool × HighPriorityQueue
enqueue asdu q =
    if ltb 250 (length asdu)
    then (false, q)
    else if ltb q.size (position q + (2 + length asdu))
    then insert_at 0 asdu (wrapped (started q))
    else insert_at (position q) asdu (started q)

-- The pointers of `HighPriorityASDUQueue_getNextASDU` after an entry that is not the only one.
abbrev pub advance : ℕ → HighPriorityQueue → HighPriorityQueue
advance msg_size q =
    if offset q.first_entry == offset q.last_entry
    then record q { first_entry = none; last_entry = none; last_in_buffer_entry = none }
    else if offset q.first_entry == offset q.last_in_buffer_entry
    then record q { first_entry = some 0; last_in_buffer_entry = q.last_entry }
    else record q { first_entry = some (offset q.first_entry + 2 + msg_size) }

-- `HighPriorityASDUQueue_getNextASDU`: the bytes that the pointer and the size in it describe.
unfoldable pub get_next_asdu : HighPriorityQueue → Option (List ℕ) × HighPriorityQueue
get_next_asdu q =
    let first = offset q.first_entry in
    let msg_size = size_at q.buffer first in
    let q' = record q { entry_counter = q.entry_counter - 1 } in
    if ltb 0 q.entry_counter
    then (
      some (read q.buffer (first + 2) msg_size),
      if ltb 0 (q.entry_counter - 1) then advance msg_size q' else q',
    )
    else (none, q)

-- `HighPriorityASDUQueue_isAsduAvailable`
unfoldable pub is_asdu_available : HighPriorityQueue → Bool
is_asdu_available q = ltb 0 q.entry_counter

-- `HighPriorityASDUQueue_isFull`, for an ASDU of the largest size.
unfoldable pub is_full : HighPriorityQueue → Bool
is_full q =
    let i = if ltb q.size (next_msg q + 252) then 0 else next_msg q in
    if ltb 0 q.entry_counter
    then (if leb i (offset q.first_entry) then ltb (offset q.first_entry) (i + 252) else false)
    else false

-- `HighPriorityASDUQueue_resetConnectionQueue`
unfoldable pub reset_connection_queue : HighPriorityQueue → HighPriorityQueue
reset_connection_queue q = record q {
  first_entry = none;
  last_entry = none;
  last_in_buffer_entry = none;
  entry_counter = 0;
}
