-- ===== src/Cs101/Queue.antt =====
-- `CS101_Queue` of cs101_queue.c: the ASDUs that wait for the link layer, in a ring of elements. A
-- new ASDU takes the place of the oldest one when the ring is full. An ASDU is the list of its
-- encoded bytes.
pub mod Ring
pub mod Refine
pub mod Run
pub mod Tests
use lib.Prelude.{
  ℕ, ◌+◌, ◌-◌, ◌%◌, Bool, true, false, not, Option, none, some, List, [], ◌∷◌, ◌++◌, length, take,
  get_or, ◌==◌, ◌!=◌, ltb, leb, ◌&&◌, if◌then◌else◌,
}

-- `struct sCS101_QueueElement`: the size is a `uint8_t`. The bytes of the buffer behind the last
-- message put into it are left out.
pub record Element : Type 0 where
  pub size : ℕ
  pub buffer : List ℕ

pub record Queue : Type 0 where
  pub size : ℕ
  pub entry_counter : ℕ
  pub last_msg_index : ℕ
  pub first_msg_index : ℕ
  pub elements : ℕ → Element

-- The size from `CS101_MAX_QUEUE_SIZE` and the argument of `CS101_Queue_initialize`; `none` is -1.
abbrev pub queue_size : Option ℕ → Option ℕ → ℕ
queue_size (some configured) max_queue_size = configured
queue_size none (some max_queue_size) = max_queue_size
queue_size none none = 100

abbrev pub initialize : Option ℕ → Option ℕ → Queue
initialize configured max_queue_size = record {
  size = queue_size configured max_queue_size;
  entry_counter = 0;
  last_msg_index = 0;
  first_msg_index = 0;
  elements = λ i. record { size = 0; buffer = [] };
}

abbrev pub element : List ℕ → Element
element asdu = record { size = length asdu % 256; buffer = asdu }

abbrev pub store : (ℕ → Element) → ℕ → List ℕ → ℕ → Element
store elements i asdu j = if j == i then element asdu else elements j

-- Where a new ASDU is put.
abbrev pub next_index : Queue → ℕ
next_index q =
    let i = if q.entry_counter == 0 then 0 else q.last_msg_index + 1 in if i == q.size then 0 else i

-- The indices for a new ASDU at `next`; those of a full ring drop its oldest one.
abbrev pub add_entry : ℕ → Queue → Queue
add_entry next q = record q { last_msg_index = next; entry_counter = q.entry_counter + 1 }

abbrev pub remove_entry : ℕ → Queue → Queue
remove_entry next q = record q {
  last_msg_index = next;
  first_msg_index = if next + 1 == q.size then 0 else next + 1;
}

-- An empty ring starts over.
abbrev pub start_over : Queue → Queue
start_over q = if q.entry_counter == 0 then record q { first_msg_index = 0 } else q

-- `CS101_Queue_enqueue`
unfoldable pub enqueue : List ℕ → Queue → Queue
enqueue asdu q =
    let next = next_index q in
    let q' =
      if q.entry_counter == q.size
      then remove_entry next (start_over q)
      else add_entry next (start_over q) in
    record q' { elements = store q.elements next asdu }

-- `struct sBufferFrame`, with the bytes of its message
pub record BufferFrame : Type 0 where
  pub capacity : ℕ
  pub bytes : List ℕ

-- `BufferFrame_appendBytes`
abbrev pub append_bytes : BufferFrame → List ℕ → BufferFrame
append_bytes f bytes =
    if ltb 0 (length bytes) && leb (length f.bytes + length bytes) f.capacity
    then record f { bytes = f.bytes ++ bytes }
    else f

-- `CS101_Queue_dequeue`: the frame for the ASDU may be NULL.
unfoldable pub dequeue : Option BufferFrame → Queue → Option BufferFrame × Queue
dequeue none q = (none, q)
dequeue (some frame) q =
    let e = q.elements q.first_msg_index in
    if q.entry_counter != 0
    then (
      some (append_bytes frame (take e.size e.buffer)),
      record q {
        first_msg_index = (q.first_msg_index + 1) % q.size;
        entry_counter = q.entry_counter - 1;
      },
    )
    else (none, q)

-- `CS101_Queue_hasWaitingAsdu` with a place for the type: the first octet of the oldest ASDU.
unfoldable pub has_waiting_asdu : Queue → Option ℕ
has_waiting_asdu q =
    if q.entry_counter != 0 then some (get_or (q.elements q.first_msg_index).buffer 0 0) else none

unfoldable pub is_full : Queue → Bool
is_full q = q.entry_counter == q.size

unfoldable pub is_empty : Queue → Bool
is_empty q = q.entry_counter == 0

-- `CS101_Queue_flush`
unfoldable pub flush : Queue → Queue
flush q = record q { entry_counter = 0; first_msg_index = 0; last_msg_index = 0 }
