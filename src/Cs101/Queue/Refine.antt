-- ===== src/Cs101/Queue/Refine.antt =====
-- The CS 101 queue is a list of at most `size` ASDUs.
use lib.Prelude.{
  ℕ, ◌+◌, ◌-◌, ◌%◌, ◌≤◌, ◌<◌, ◌≡◌, refl, sym, ap, subst, ◌∙◌, inl, inr, Bool, none, some, List, [],
  ◌∷◌, ◌++◌, length, length-append, take, take-append, append-nil, ◌==◌, if◌then◌else◌, arith,
  dec_lt, ne→==, eq→==,
}
use native.Mathlib.Nat.{mod-eq_of_lt, mod_self}
use lib.Cs101.Queue.{Queue, Element, BufferFrame, append_bytes, store, enqueue, dequeue}
use lib.Cs101.Queue.Ring.{slot, Ring, Ring-store, Ring-snoc, Ring-shift, store_same, slot-shift}

-- The ring holds the ASDUs, the oldest one first.
pub record Holds (q : Queue) (asdus : List (List ℕ)) : Type 0 where
  pub first : q.first_msg_index < q.size
  pub bound : length asdus ≤ q.size
  pub count : q.entry_counter ≡ length asdus
  pub last : 0 < length asdus → q.last_msg_index ≡ slot q.size q.first_msg_index (length asdus - 1)
  pub ring : Ring q.elements q.size q.first_msg_index 0 asdus

-- The list with a new ASDU; at most `size` stay.
abbrev pub drop_oldest : List (List ℕ) → List (List ℕ)
drop_oldest [] = []
drop_oldest (asdu ∷ asdus) = asdus

abbrev pub push : ℕ → List ℕ → List (List ℕ) → List (List ℕ)
push size asdu asdus = (if length asdus == size then drop_oldest asdus else asdus) ++ (asdu ∷ [])

module _ (asdu : List ℕ) (q : Queue) where
  stored_empty :
      0 < q.size
      → q.entry_counter ≡ 0
      → enqueue asdu q ≡ record q {
        last_msg_index = 0;
        first_msg_index = 0;
        entry_counter = 1;
        elements = store q.elements 0 asdu;
      }
  unfolding enqueue
  stored_empty h c = ground arith

  stored_room :
      (n : ℕ)
      → q.entry_counter ≡ n
      → 0 < n
      → n < q.size
      → q.first_msg_index < q.size
      → q.last_msg_index ≡ slot q.size q.first_msg_index (n - 1)
      → enqueue asdu q ≡ record q {
        last_msg_index = slot q.size q.first_msg_index n;
        entry_counter = n + 1;
        elements = store q.elements (slot q.size q.first_msg_index n) asdu;
      }
  unfolding enqueue
  stored_room n c pos lt f l = ground arith

  stored_full :
      q.entry_counter ≡ q.size
      → q.first_msg_index < q.size
      → q.last_msg_index ≡ slot q.size q.first_msg_index (q.size - 1)
      → enqueue asdu q ≡ record q {
        last_msg_index = slot q.size q.first_msg_index 0;
        first_msg_index = slot q.size q.first_msg_index 1;
        elements = store q.elements (slot q.size q.first_msg_index 0) asdu;
      }
  unfolding enqueue
  stored_full c f l = ground arith

  enqueue-room :
      (asdus : List (List ℕ))
      → Holds q asdus
      → length asdus < q.size
      → Holds (enqueue asdu q) (asdus ++ (asdu ∷ []))
  enqueue-room [] h lt =
      subst (λ q'. Holds q' (asdu ∷ [])) (sym (stored_empty lt h.count))
        (record {
          first = lt;
          bound = omega arith;
          count = refl;
          last = λ pos. ground arith;
          ring = (ground arith, tt);
        })
  enqueue-room (x ∷ xs) h lt =
      let n = length (x ∷ xs) in
      let f = q.first_msg_index in
      subst (λ q'. Holds q' ((x ∷ xs) ++ (asdu ∷ [])))
        (sym (stored_room n h.count (omega arith) lt h.first (h.last (omega arith))))
        (record {
          first = h.first;
          bound = omega (arith, length-append (x ∷ xs) (asdu ∷ []));
          count = omega (arith, length-append (x ∷ xs) (asdu ∷ []));
          last = λ pos. ap (slot q.size f) (omega (arith, length-append (x ∷ xs) (asdu ∷ [])));
          ring =
              Ring-snoc (store q.elements (slot q.size f n) asdu) q.size f 0 asdu (x ∷ xs)
                (ap (λ i. store q.elements (slot q.size f n) asdu (slot q.size f i)) (omega arith)
                  ∙ store_same q.elements (slot q.size f n) asdu)
                (Ring-store q.elements q.size f 0 n asdu (x ∷ xs) h.first lt (omega arith)
                  (inr (omega arith)) h.ring);
        })

  enqueue-full :
      (x : List ℕ) (xs : List (List ℕ))
      → Holds q (x ∷ xs)
      → q.size ≡ length xs + 1
      → Holds (enqueue asdu q) (xs ++ (asdu ∷ []))
  enqueue-full x xs h full =
      let f = q.first_msg_index in
      let f' = slot q.size f 1 in
      let l : q.last_msg_index ≡ slot q.size f (q.size - 1) =
        h.last (omega arith) ∙ ap (slot q.size f) (omega arith) in
      let back : slot q.size f' (0 + length xs) ≡ slot q.size f 0 = ground arith in
      let els = store q.elements (slot q.size f 0) asdu in
      subst (λ q'. Holds q' (xs ++ (asdu ∷ [])))
        (sym (stored_full (omega (arith, h.count)) h.first l))
        (record {
          first = ground arith;
          bound = omega (arith, length-append xs (asdu ∷ []));
          count = omega (arith, h.count, length-append xs (asdu ∷ []));
          last =
              λ pos. sym back ∙ ap (slot q.size f') (omega (arith, length-append xs (asdu ∷ [])));
          ring =
              Ring-snoc els q.size f' 0 asdu xs
                (ap els back ∙ store_same q.elements (slot q.size f 0) asdu)
                (Ring-shift els q.size f 0 xs h.first (omega arith) (
                  Ring-store q.elements q.size f 1 0 asdu xs h.first (omega arith) (omega arith)
                    (inl (omega arith)) h.ring.1));
        })

  -- An ASDU is put into a queue of one or more elements: the queue then holds it as the newest one,
  -- after what it held, or after all but the oldest one if it was full.
  pub enqueue-Holds-push :
      (asdus : List (List ℕ)) → Holds q asdus → Holds (enqueue asdu q) (push q.size asdu asdus)
  enqueue-Holds-push [] h =
      subst (λ b. Holds (enqueue asdu q) ((if b then [] else []) ++ (asdu ∷ [])))
        (sym (ne→== 0 q.size (omega (arith, h.first)))) (enqueue-room [] h (omega (arith, h.first)))
  enqueue-Holds-push (x ∷ xs) h =
      let held : Bool → Type 0 =
        λ b. Holds (enqueue asdu q) ((if b then xs else (x ∷ xs)) ++ (asdu ∷ [])) in
      elim (dec_lt (length (x ∷ xs)) q.size) [
        | yes lt ↦
            subst held (sym (ne→== (length (x ∷ xs)) q.size (omega arith)))
              (enqueue-room (x ∷ xs) h lt)
        | no full ↦
            subst held (sym (eq→== (length (x ∷ xs)) q.size (omega (arith, h.bound))))
              (enqueue-full x xs h (omega (arith, h.bound)))
      ]

abbrev pub Each : (List ℕ → Type 0) → List (List ℕ) → Type 0
Each P [] = Unit {0}
Each P (x ∷ xs) = P x × Each P xs

-- What a queue that holds ASDUs hands out.
take_all : (asdu : List ℕ) → length asdu ≤ 255 → take (length asdu % 256) asdu ≡ asdu
take_all asdu h =
    let small : length asdu % 256 ≡ length asdu = mod-eq_of_lt (omega arith) in
    ap (λ n. take n asdu) small
    ∙ ap (take (length asdu)) (sym (append-nil asdu))
    ∙ take-append asdu []

next_slot : (size first : ℕ) → first < size → (first + 1) % size ≡ slot size first 1
next_slot size first h = elim (dec_lt (first + 1) size) [
  | yes lt ↦ mod-eq_of_lt lt ∙ ground arith
  | no full ↦
      let at : first + 1 ≡ size = omega arith in
      ap (λ n. n % size) at ∙ mod_self size ∙ ground arith
]

module _ (frame : BufferFrame) (q : Queue) where
  pub dequeue-empty : Holds q [] → dequeue (some frame) q ≡ (none, q)
  unfolding dequeue
  dequeue-empty h = ground (arith, h.count)

  pub dequeue-oldest :
      (x : List ℕ) (xs : List (List ℕ))
      → length x ≤ 255
      → Holds q (x ∷ xs)
      → dequeue (some frame) q ≡ (
        some (append_bytes frame x),
        record q { first_msg_index = slot q.size q.first_msg_index 1; entry_counter = length xs },
      )
  unfolding dequeue
  dequeue-oldest x xs le h =
      let f = q.first_msg_index in
      let at : slot q.size f 0 ≡ f = ground (arith, h.first) in
      let stored = ap q.elements (sym at) ∙ h.ring.0 in
      let bytes : take (q.elements f).size (q.elements f).buffer ≡ x =
        ap (λ (e : Element). take e.size e.buffer) stored ∙ take_all x le in
      let next : (f + 1) % q.size ≡ slot q.size f 1 = next_slot q.size f h.first in
      ground (arith, h.count, bytes, next)

  pub oldest_gone :
      (x : List ℕ) (xs : List (List ℕ))
      → Holds q (x ∷ xs)
      → Holds
          (record q {
            first_msg_index = slot q.size q.first_msg_index 1;
            entry_counter = length xs;
          })
          xs
  oldest_gone x xs h = record {
    first = ground (arith, h.first);
    bound = omega (arith, h.bound);
    count = refl;
    last = λ pos.
        h.last (omega arith)
        ∙ sym (
            slot-shift q.size q.first_msg_index (length xs - 1) h.first (omega (arith, h.bound))
            ∙ ap (slot q.size q.first_msg_index) (omega arith));
    ring =
        Ring-shift q.elements q.size q.first_msg_index 0 xs h.first (omega (arith, h.bound))
          h.ring.1;
  }
