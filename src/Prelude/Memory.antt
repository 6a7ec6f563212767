-- ===== src/Prelude/Memory.antt =====
-- A buffer as a function from offsets to bytes, with runs of bytes read from it and written to it.
use Prim.Native.Nat.{ℕ, zero, suc, ◌+◌, ◌≤◌, ◌<◌}
use mathlib.Core.Path.{◌≡◌, refl, ap₂, ◌∙◌}
use mathlib.Core.Logic.{◌⊎◌, inl, inr}
use mathlib.Core.List.{List, [], ◌∷◌}
use native.Mathlib.Omega.{arith}
use lib.Prelude.Tests.{◌==◌, if◌then◌else◌, ne→==, eq→==}
use lib.Prelude.Lists.{length}

abbrev pub Memory : Type 0
Memory = ℕ → ℕ

abbrev pub read : Memory → ℕ → ℕ → List ℕ
read m offset zero = []
read m offset (suc n) = m offset ∷ read m (offset + 1) n

abbrev pub write : Memory → ℕ → List ℕ → Memory
write m offset [] i = m i
write m offset (b ∷ bytes) i = if i == offset then b else write m (offset + 1) bytes i

pub write_below :
    (m : Memory) (offset : ℕ) (bytes : List ℕ) (i : ℕ) → i < offset → write m offset bytes i ≡ m i
write_below m offset [] i h = refl
write_below m offset (b ∷ bytes) i h =
    rw (ne→== i offset (omega arith)) (write_below m (offset + 1) bytes i (omega arith))

pub write_above :
    (m : Memory) (offset : ℕ) (bytes : List ℕ) (i : ℕ)
    → offset + length bytes ≤ i
    → write m offset bytes i ≡ m i
write_above m offset [] i h = refl
write_above m offset (b ∷ bytes) i h =
    rw (ne→== i offset (omega arith)) (write_above m (offset + 1) bytes i (omega arith))

-- Bytes beside the written ones are as before.
pub read-write_other :
    (m : Memory) (offset : ℕ) (bytes : List ℕ) (i n : ℕ)
    → (i + n ≤ offset) ⊎ (offset + length bytes ≤ i)
    → read (write m offset bytes) i n ≡ read m i n
read-write_other m offset bytes i zero h = refl
read-write_other m offset bytes i (suc n) (inl h) =
    ap₂ (λ x xs. x ∷ xs) (write_below m offset bytes i (omega arith))
      (read-write_other m offset bytes (i + 1) n (inl (omega arith)))
read-write_other m offset bytes i (suc n) (inr h) =
    ap₂ (λ x xs. x ∷ xs) (write_above m offset bytes i h)
      (read-write_other m offset bytes (i + 1) n (inr (omega arith)))

read_agree : (m k : Memory) (i n : ℕ) → ((j : ℕ) → i ≤ j → m j ≡ k j) → read m i n ≡ read k i n
read_agree m k i zero h = refl
read_agree m k i (suc n) h =
    ap₂ (λ x xs. x ∷ xs) (h i (omega arith)) (read_agree m k (i + 1) n (λ j le. h j (omega arith)))

pub read-write_same :
    (m : Memory) (offset : ℕ) (bytes : List ℕ)
    → read (write m offset bytes) offset (length bytes) ≡ bytes
read-write_same m offset [] = refl
read-write_same m offset (b ∷ bytes) =
    ap₂ (λ x xs. x ∷ xs) (rw (eq→== offset offset refl) refl)
      (read_agree (write m offset (b ∷ bytes)) (write m (offset + 1) bytes) (offset + 1)
          (length bytes) (λ j le. rw (ne→== j offset (omega arith)) refl)
        ∙ read-write_same m (offset + 1) bytes)
