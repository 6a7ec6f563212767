-- ===== src/Cs101/Queue/Ring.antt =====
-- The ASDUs in the ring of a CS 101 queue.
use lib.Prelude.{
  ℕ, ◌+◌, ◌-◌, ◌≤◌, ◌<◌, ◌≡◌, ◌≢◌, refl, ap, subst, ◌∙◌, ◌⊎◌, List, [], ◌∷◌, ◌++◌, length, ltb,
  ne→==, eq→==, if◌then◌else◌, arith,
}
use lib.Cs101.Queue.{Element, element, store}

-- The index `j` places behind `first` in a ring.
abbrev pub slot : ℕ → ℕ → ℕ → ℕ
slot size first j = if ltb (first + j) size then first + j else first + j - size

pub slot-injective :
    (size first i j : ℕ)
    → first < size
    → i < size
    → j < size
    → slot size first i ≡ slot size first j
    → i ≡ j
slot-injective size first i j h hi hj e = ground arith

pub slot-shift :
    (size first j : ℕ)
    → first < size
    → j + 1 < size
    → slot size (slot size first 1) j ≡ slot size first (j + 1)
slot-shift size first j h hj = ground arith

-- The ASDUs stand from `j` places behind `first` on.
abbrev pub Ring : (ℕ → Element) → ℕ → ℕ → ℕ → List (List ℕ) → Type 0
Ring elements size first j [] = Unit {0}
Ring elements size first j (asdu ∷ asdus) =
    (elements (slot size first j) ≡ element asdu) × Ring elements size first (j + 1) asdus

pub store_same :
    (elements : ℕ → Element) (i : ℕ) (asdu : List ℕ) → store elements i asdu i ≡ element asdu
store_same elements i asdu = rw (eq→== i i refl) refl

pub store_other :
    (elements : ℕ → Element) (i : ℕ) (asdu : List ℕ) (j : ℕ)
    → j ≢ i
    → store elements i asdu j ≡ elements j
store_other elements i asdu j h = rw (ne→== j i h) refl

-- An ASDU in another place.
pub Ring-store :
    (elements : ℕ → Element) (size first j k : ℕ) (asdu : List ℕ) (asdus : List (List ℕ))
    → first < size
    → k < size
    → j + length asdus ≤ size
    → (k < j) ⊎ (j + length asdus ≤ k)
    → Ring elements size first j asdus
    → Ring (store elements (slot size first k) asdu) size first j asdus
Ring-store elements size first j k asdu [] h hk le side r = tt
Ring-store elements size first j k asdu (x ∷ xs) h hk le side r = (
  store_other elements (slot size first k) asdu (slot size first j)
        (λ e. omega (arith, slot-injective size first j k h (omega arith) hk e))
      ∙ r.0,
  Ring-store elements size first (j + 1) k asdu xs h hk (omega arith) (grind arith) r.1,
)

-- One more ASDU.
pub Ring-snoc :
    (elements : ℕ → Element) (size first j : ℕ) (asdu : List ℕ) (asdus : List (List ℕ))
    → elements (slot size first (j + length asdus)) ≡ element asdu
    → Ring elements size first j asdus
    → Ring elements size first j (asdus ++ (asdu ∷ []))
Ring-snoc elements size first j asdu [] e r =
    (subst (λ i. elements (slot size first i) ≡ element asdu) (omega arith) e, tt)
Ring-snoc elements size first j asdu (x ∷ xs) e r = (
  r.0,
  Ring-snoc elements size first (j + 1) asdu xs
      (subst (λ i. elements (slot size first i) ≡ element asdu) (omega arith) e) r.1,
)

-- The ring from the second ASDU on.
pub Ring-shift :
    (elements : ℕ → Element) (size first j : ℕ) (asdus : List (List ℕ))
    → first < size
    → j + 1 + length asdus ≤ size
    → Ring elements size first (j + 1) asdus
    → Ring elements size (slot size first 1) j asdus
Ring-shift elements size first j [] h le r = tt
Ring-shift elements size first j (x ∷ xs) h le r = (
  ap elements (slot-shift size first j h (omega arith)) ∙ r.0,
  Ring-shift elements size first (j + 1) xs h (omega arith) r.1,
)
