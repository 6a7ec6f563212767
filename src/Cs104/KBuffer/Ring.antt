-- ===== src/Cs104/KBuffer/Ring.antt =====
-- Steps round a ring of `k` slots.
use lib.Prelude.{ℕ, ◌+◌, ◌-◌, ◌%◌, ◌≤◌, ◌<◌, ◌≡◌, ◌∙◌, ap, ◌⊎◌, ◌≢◌, inl, inr, arith, dec_lt}
use native.Mathlib.Nat.{mod-add-mod, mod-eq_of_lt, mod-eq-sub-mod}

-- Fewer than a round ahead: not past the end, or past it once.
pub mod_cases :
    (k i d : ℕ)
    → i < k
    → d ≤ k
    → ((i + d) % k ≡ i + d) × (i + d < k) ⊎ ((i + d) % k ≡ i + d - k) × (k ≤ i + d)
mod_cases k i d hi hd = elim (dec_lt (i + d) k) [
  | yes p ↦ inl (mod-eq_of_lt p, p)
  | no p ↦ inr (
    omega (
      arith,
      mod-eq-sub-mod {n = i + d} {m = k} (omega arith),
      mod-eq_of_lt {n = i + d - k} {m = k} (omega arith),
    ),
    omega arith,
  )
]

-- A step first and `d` steps then are `e` steps, where `e` is one more.
pub mod_step : (k i d e : ℕ) → d + 1 ≡ e → ((i + 1) % k + d) % k ≡ (i + e) % k
mod_step k i d e h = mod-add-mod (i + 1) k d ∙ ap (λ t. t % k) (omega arith)

-- Less than a round ahead is elsewhere, and so are the slots after.
pub ahead-ne : (k i d : ℕ) → i < k → 0 < d → d < k → (i + d) % k ≢ i
ahead-ne k i d hi h0 hd = omega (arith, mod_cases k i d hi (omega arith))

pub next-ne : (k i d : ℕ) → i < k → 0 < d → d < k → ((i + d) % k + 1) % k ≢ (i + 1) % k
next-ne k i d hi h0 hd = omega (
  arith,
  mod_cases k i d hi (omega arith),
  mod_cases k i 1 hi (omega arith),
  mod_cases k ((i + d) % k) 1 (omega arith) (omega arith),
)

pub ahead_none : (k i d : ℕ) → i < k → d ≡ 0 → (i + d) % k ≡ i
ahead_none k i d hi e = omega (arith, mod_cases k i d hi (omega arith))

pub mod_in_ring : (k i d : ℕ) → i < k → d ≤ k → (i + d) % k < k
mod_in_ring k i d hi hd = omega (arith, mod_cases k i d hi hd)

-- `c` steps and `d` steps are `e` steps, where `e` is their sum.
pub mod_steps : (k i c d e : ℕ) → c + d ≡ e → ((i + c) % k + d) % k ≡ (i + e) % k
mod_steps k i c d e h = mod-add-mod (i + c) k d ∙ ap (λ t. t % k) (omega arith)

pub slots-ne : (k i c d : ℕ) → i < k → c < d → d < k → (i + d) % k ≢ (i + c) % k
slots-ne k i c d hi hc hd =
    omega (arith, mod_cases k i c hi (omega arith), mod_cases k i d hi (omega arith))
