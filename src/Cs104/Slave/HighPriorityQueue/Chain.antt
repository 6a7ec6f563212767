-- ===== src/Cs104/Slave/HighPriorityQueue/Chain.antt =====
-- Entries that follow one another in the buffer of a high priority queue.
use lib.Prelude.{
  ℕ, ◌+◌, ◌≤◌, ◌≡◌, refl, sym, ap, subst, ◌∙◌, ◌⊎◌, inl, inr, List, [], ◌∷◌, ◌++◌, length, arith,
  get_or,
}
use lib.Prelude.Memory.{Memory, read, write, read-write_other, read-write_same}
use lib.Cs104.Slave.HighPriorityQueue.{encode, size_at}

-- The ASDU is stored at an offset.
abbrev pub Entry : Memory → ℕ → List ℕ → Type 0
Entry m i asdu = read m i (2 + length asdu) ≡ encode asdu

-- The ASDUs are stored from an offset up to another.
abbrev pub Chain : Memory → ℕ → List (List ℕ) → ℕ → Type 0
Chain m i [] stop = i ≡ stop
Chain m i (asdu ∷ asdus) stop = Entry m i asdu × Chain m (i + 2 + length asdu) asdus stop

two_more : (n : ℕ) → 2 + n ≡ ℕ.suc (ℕ.suc n)
two_more n = omega arith

read_two : (m : Memory) (i n : ℕ) → read m i (2 + n) ≡ m i ∷ m (i + 1) ∷ read m (i + 1 + 1) n
read_two m i n = ap (read m i) (two_more n)

pub size_at-Entry :
    (m : Memory) (i : ℕ) (asdu : List ℕ) → Entry m i asdu → size_at m i ≡ length asdu
size_at-Entry m i asdu e =
    let h = sym (read_two m i (length asdu)) ∙ e in
    let lo = ap (λ xs. get_or xs 0 0) h in let hi = ap (λ xs. get_or xs 1 0) h in omega arith

pub read-Entry :
    (m : Memory) (i : ℕ) (asdu : List ℕ) → Entry m i asdu → read m (i + 2) (length asdu) ≡ asdu
read-Entry m i asdu e =
    let at : i + 2 ≡ i + 1 + 1 = omega arith in
    ap (λ j. read m j (length asdu)) at
    ∙ ap
        (λ (xs : List ℕ). elim xs as (λ x. List ℕ) [
          | [] ↦ []
          | x ∷ r ↦ elim r as (λ x. List ℕ) [ [] ↦ [] | y ∷ s ↦ s ]
        ])
        (sym (read_two m i (length asdu)) ∙ e)

pub Entry-write : (m : Memory) (i : ℕ) (asdu : List ℕ) → Entry (write m i (encode asdu)) i asdu
Entry-write m i asdu =
    ap (read (write m i (encode asdu)) i) (two_more (length asdu))
    ∙ read-write_same m i (encode asdu)

pub Chain-le :
    (m : Memory) (i : ℕ) (asdus : List (List ℕ)) (stop : ℕ) → Chain m i asdus stop → i ≤ stop
Chain-le m i [] stop h = omega arith
Chain-le m i (asdu ∷ asdus) stop h = omega (arith, Chain-le m (i + 2 + length asdu) asdus stop h.1)

-- An entry beside the chain leaves it as it is.
pub Chain-write_other :
    (m : Memory) (at : ℕ) (bytes : List ℕ) (i : ℕ) (asdus : List (List ℕ)) (stop : ℕ)
    → Chain m i asdus stop
    → (stop ≤ at) ⊎ (at + length bytes ≤ i)
    → Chain (write m at bytes) i asdus stop
Chain-write_other m at bytes i [] stop h side = h
Chain-write_other m at bytes i (asdu ∷ asdus) stop h (inl before) =
    let le = Chain-le m (i + 2 + length asdu) asdus stop h.1 in
    (
      read-write_other m at bytes i (2 + length asdu) (inl (omega arith)) ∙ h.0,
      Chain-write_other m at bytes (i + 2 + length asdu) asdus stop h.1 (inl before),
    )
Chain-write_other m at bytes i (asdu ∷ asdus) stop h (inr after) = (
  read-write_other m at bytes i (2 + length asdu) (inr after) ∙ h.0,
  Chain-write_other m at bytes (i + 2 + length asdu) asdus stop h.1 (inr (omega arith)),
)

pub Entry-write_other :
    (m : Memory) (at : ℕ) (bytes : List ℕ) (i : ℕ) (asdu : List ℕ)
    → Entry m i asdu
    → (i + 2 + length asdu ≤ at) ⊎ (at + length bytes ≤ i)
    → Entry (write m at bytes) i asdu
Entry-write_other m at bytes i asdu e side =
    (Chain-write_other m at bytes i (asdu ∷ []) (i + 2 + length asdu) (e, refl) side).0

-- One more entry at the end.
pub Chain-snoc :
    (m : Memory) (i : ℕ) (asdus : List (List ℕ)) (stop : ℕ) (asdu : List ℕ)
    → Chain m i asdus stop
    → Entry m stop asdu
    → Chain m i (asdus ++ (asdu ∷ [])) (stop + 2 + length asdu)
Chain-snoc m i [] stop asdu h e =
    (subst (λ j. Entry m j asdu) (sym h) e, ap (λ j. j + 2 + length asdu) h)
Chain-snoc m i (x ∷ asdus) stop asdu h e =
    (h.0, Chain-snoc m (i + 2 + length x) asdus stop asdu h.1 e)
