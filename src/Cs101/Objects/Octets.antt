-- ===== src/Cs101/Objects/Octets.antt =====
-- The parts that the information objects consist of: time stamps and other fields of several octets,
-- numbers with the least octet first, and values that share an octet with their quality.
use lib.Prelude.{
  ℕ, ◌+◌, ◌*◌, ◌/◌, ◌%◌, ◌<◌, ◌≡◌, refl, Bool, true, false, List, [], ◌∷◌, get_or, ◌==◌,
  if◌then◌else◌, bit_and, arith,
}
use lib.Prelude.Bytes.{u8, all_below, agree_on_bytes, bit_and-1, bit_and-3}
use lib.Cs101.BinaryCounterReading.{BinaryCounterReading}
use lib.Apl.Time.{Cp56Time2a}

-- `encodedValue` of a measured value or of a `CP16Time2a`
pub record TwoOctets : Type 0 where
  pub octet_0 : ℕ
  pub octet_1 : ℕ

abbrev pub two_octets : TwoOctets → List ℕ
two_octets v = v.octet_0 ∷ v.octet_1 ∷ []

-- `CP16Time2a_getFromBuffer`, and the same for a value
abbrev pub two_octets_at : List ℕ → ℕ → TwoOctets
two_octets_at l i = record { octet_0 = get_or l i 0; octet_1 = get_or l (i + 1) 0 }

-- The octets of a `float` in memory, the least first, or those of a status and status change detection.
pub record FourOctets : Type 0 where
  pub octet_0 : ℕ
  pub octet_1 : ℕ
  pub octet_2 : ℕ
  pub octet_3 : ℕ

abbrev pub four_octets : FourOctets → List ℕ
four_octets v = v.octet_0 ∷ v.octet_1 ∷ v.octet_2 ∷ v.octet_3 ∷ []

abbrev pub four_octets_at : List ℕ → ℕ → FourOctets
four_octets_at l i = record {
  octet_0 = get_or l i 0;
  octet_1 = get_or l (i + 1) 0;
  octet_2 = get_or l (i + 2) 0;
  octet_3 = get_or l (i + 3) 0;
}

-- `struct sCP24Time2a`
pub record Cp24Time2a : Type 0 where
  pub octet_0 : ℕ
  pub octet_1 : ℕ
  pub octet_2 : ℕ

abbrev pub cp24_octets : Cp24Time2a → List ℕ
cp24_octets t = t.octet_0 ∷ t.octet_1 ∷ t.octet_2 ∷ []

-- `CP24Time2a_getFromBuffer`
abbrev pub cp24_at : List ℕ → ℕ → Cp24Time2a
cp24_at l i = record {
  octet_0 = get_or l i 0;
  octet_1 = get_or l (i + 1) 0;
  octet_2 = get_or l (i + 2) 0;
}

abbrev pub cp56_octets : Cp56Time2a → List ℕ
cp56_octets t =
    t.octet_0 ∷ t.octet_1 ∷ t.octet_2 ∷ t.octet_3 ∷ t.octet_4 ∷ t.octet_5 ∷ t.octet_6 ∷ []

-- `CP56Time2a_getFromBuffer`
abbrev pub cp56_at : List ℕ → ℕ → Cp56Time2a
cp56_at l i = record {
  octet_0 = get_or l i 0;
  octet_1 = get_or l (i + 1) 0;
  octet_2 = get_or l (i + 2) 0;
  octet_3 = get_or l (i + 3) 0;
  octet_4 = get_or l (i + 4) 0;
  octet_5 = get_or l (i + 5) 0;
  octet_6 = get_or l (i + 6) 0;
}

abbrev pub bcr_octets : BinaryCounterReading → List ℕ
bcr_octets r = r.octet_0 ∷ r.octet_1 ∷ r.octet_2 ∷ r.octet_3 ∷ r.octet_4 ∷ []

abbrev pub bcr_at : List ℕ → ℕ → BinaryCounterReading
bcr_at l i = record {
  octet_0 = get_or l i 0;
  octet_1 = get_or l (i + 1) 0;
  octet_2 = get_or l (i + 2) 0;
  octet_3 = get_or l (i + 3) 0;
  octet_4 = get_or l (i + 4) 0;
}

abbrev pub u16_octets : ℕ → List ℕ
u16_octets n = u8 n ∷ u8 (n / 0x100) ∷ []

abbrev pub u16_at : List ℕ → ℕ → ℕ
u16_at l i = get_or l i 0 + get_or l (i + 1) 0 * 0x100

pub u16_lem : (n : ℕ) → n < 0x10000 → u8 n + u8 (n / 0x100) * 0x100 ≡ n
u16_lem n h = omega arith

abbrev pub u24_octets : ℕ → List ℕ
u24_octets n = u8 n ∷ u8 (n / 0x100) ∷ u8 (n / 0x10000) ∷ []

abbrev pub u24_at : List ℕ → ℕ → ℕ
u24_at l i = get_or l i 0 + get_or l (i + 1) 0 * 0x100 + get_or l (i + 2) 0 * 0x10000

pub u24_lem :
    (n : ℕ) → n < 0x1000000 → u8 n + u8 (n / 0x100) * 0x100 + u8 (n / 0x10000) * 0x10000 ≡ n
u24_lem n h = omega arith

abbrev pub u32_octets : ℕ → List ℕ
u32_octets n = u8 n ∷ u8 (n / 0x100) ∷ u8 (n / 0x10000) ∷ u8 (n / 0x1000000) ∷ []

abbrev pub u32_at : List ℕ → ℕ → ℕ
u32_at l i =
    get_or l i 0
    + get_or l (i + 1) 0 * 0x100
    + get_or l (i + 2) 0 * 0x10000
    + get_or l (i + 3) 0 * 0x1000000

pub u32_lem :
    (n : ℕ)
    → n < 0x100000000
    → u8 n + u8 (n / 0x100) * 0x100 + u8 (n / 0x10000) * 0x10000 + u8 (n / 0x1000000) * 0x1000000
      ≡ n
u32_lem n h = omega arith

-- A quality descriptor as the create functions keep it: the four low bits are zero.
abbrev pub IsQuality : ℕ → Type 0
IsQuality quality = (quality < 256) × (quality % 16 ≡ 0)

-- Single point information with quality
abbrev pub siq : Bool → ℕ → ℕ
siq value quality = u8 (bit_and quality 0xf0 + (if value then 1 else 0))

-- Double point information with quality
abbrev pub diq : ℕ → ℕ → ℕ
diq value quality = u8 (bit_and quality 0xf0 + value)

bit_and-0xf0 : (x : ℕ) → x < 256 → bit_and x 0xf0 ≡ x / 16 * 16
unfolding all_below
bit_and-0xf0 x = agree_on_bytes (λ b. bit_and b 0xf0) (λ b. b / 16 * 16) x refl

module _ (value quality : ℕ) (h : value < 4) (q : IsQuality quality) where
  pub diq_value : bit_and (diq value quality) 3 ≡ value
  diq_value = omega (arith, bit_and-3 (diq value quality), bit_and-0xf0 quality)

  pub diq_quality : bit_and (diq value quality) 0xf0 ≡ quality
  diq_quality = omega (arith, bit_and-0xf0 (diq value quality), bit_and-0xf0 quality)

pub siq_value :
    (value : Bool) (quality : ℕ) → IsQuality quality → (bit_and (siq value quality) 1 == 1) ≡ value
siq_value true quality q = ground (arith, bit_and-1 (siq true quality), bit_and-0xf0 quality)
siq_value false quality q = ground (arith, bit_and-1 (siq false quality), bit_and-0xf0 quality)

pub siq_quality :
    (value : Bool) (quality : ℕ) → IsQuality quality → bit_and (siq value quality) 0xf0 ≡ quality
siq_quality true quality q = omega (arith, bit_and-0xf0 (siq true quality), bit_and-0xf0 quality)
siq_quality false quality q = omega (arith, bit_and-0xf0 (siq false quality), bit_and-0xf0 quality)
