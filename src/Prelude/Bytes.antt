-- ===== src/Prelude/Bytes.antt =====
-- C's unsigned bytes: the bits that the sources test and mask with `&` and `|`, read as
-- quotients and remainders that `omega` knows. Every fact is checked for all 256 bytes.
use Prim.Native.Nat.{ℕ, zero, suc, ◌*◌, ◌/◌, ◌%◌, ◌<◌, bit_and}
use mathlib.Core.Path.{◌≡◌, refl}
use mathlib.Core.Bool.{Bool, true, ◌&&◌}
use native.Mathlib.Omega.{arith}
use mathlib.Core.List.{List, [], ◌∷◌}
use lib.Prelude.Tests.{◌==◌, ==→eq}
use lib.Prelude.Lists.{get_or}

-- `(uint8_t) n`
abbrev pub u8 : ℕ → ℕ
u8 n = n % 256

-- `p` holds of every number below `n`.
unfoldable pub all_below : ℕ → (ℕ → Bool) → Bool
all_below zero p = true
all_below (suc n) p = p n && all_below n p

pub all_below-IsSound : (n : ℕ) (p : ℕ → Bool) (x : ℕ) → all_below n p ≡ true → x < n → p x ≡ true
unfolding all_below
all_below-IsSound zero p x h lt = absurd (omega arith)
all_below-IsSound (suc n) p x h lt = ground (arith, all_below-IsSound n p x)

-- Two functions that agree on all bytes when evaluated are equal at a byte.
pub agree_on_bytes :
    (f g : ℕ → ℕ) (x : ℕ) → all_below 256 (λ b. f b == g b) ≡ true → x < 256 → f x ≡ g x
agree_on_bytes f g x h lt = ==→eq _ _ (all_below-IsSound 256 (λ b. f b == g b) x h lt)

pub bit_and-1 : (x : ℕ) → x < 256 → bit_and x 1 ≡ x % 2
unfolding all_below
bit_and-1 x = agree_on_bytes (λ b. bit_and b 1) (λ b. b % 2) x refl

pub bit_and-3 : (x : ℕ) → x < 256 → bit_and x 3 ≡ x % 4
unfolding all_below
bit_and-3 x = agree_on_bytes (λ b. bit_and b 3) (λ b. b % 4) x refl

pub bit_and-0xfe : (x : ℕ) → x < 256 → bit_and x 0xfe ≡ x / 2 * 2
unfolding all_below
bit_and-0xfe x = agree_on_bytes (λ b. bit_and b 0xfe) (λ b. b / 2 * 2) x refl

pub bit_and-0x0f : (x : ℕ) → x < 256 → bit_and x 0x0f ≡ x % 16
unfolding all_below
bit_and-0x0f x = agree_on_bytes (λ b. bit_and b 0x0f) (λ b. b % 16) x refl

pub bit_and-0x10 : (x : ℕ) → x < 256 → bit_and x 0x10 ≡ x / 16 % 2 * 16
unfolding all_below
bit_and-0x10 x = agree_on_bytes (λ b. bit_and b 0x10) (λ b. b / 16 % 2 * 16) x refl

pub bit_and-0x20 : (x : ℕ) → x < 256 → bit_and x 0x20 ≡ x / 32 % 2 * 32
unfolding all_below
bit_and-0x20 x = agree_on_bytes (λ b. bit_and b 0x20) (λ b. b / 32 % 2 * 32) x refl

pub bit_and-0x40 : (x : ℕ) → x < 256 → bit_and x 0x40 ≡ x / 64 % 2 * 64
unfolding all_below
bit_and-0x40 x = agree_on_bytes (λ b. bit_and b 0x40) (λ b. b / 64 % 2 * 64) x refl

pub bit_and-0x7f : (x : ℕ) → x < 256 → bit_and x 0x7f ≡ x % 128
unfolding all_below
bit_and-0x7f x = agree_on_bytes (λ b. bit_and b 0x7f) (λ b. b % 128) x refl

pub bit_and-0x80 : (x : ℕ) → x < 256 → bit_and x 0x80 ≡ x / 128 * 128
unfolding all_below
bit_and-0x80 x = agree_on_bytes (λ b. bit_and b 0x80) (λ b. b / 128 * 128) x refl

-- Every element is a byte.
abbrev pub AllBytes : List ℕ → Type 0
AllBytes [] = Unit
AllBytes (x ∷ xs) = (x < 256) × AllBytes xs

pub get_or-byte : (xs : List ℕ) (i : ℕ) → AllBytes xs → get_or xs i 0 < 256
get_or-byte [] i h = omega arith
get_or-byte (x ∷ xs) zero h = h.0
get_or-byte (x ∷ xs) (suc i) h = get_or-byte xs i h.1
