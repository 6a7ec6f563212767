-- ===== src/Cs101/BinaryCounterReading.antt =====
-- `BinaryCounterReading` of cs101_bcr.c: a counter of 32 bits with its sequence number and three
-- flags, in five octets. An `int32_t` is its representation as a number below 2 ^ 32.
pub mod Fields
pub mod Tests
use lib.Prelude.{ℕ, ◌+◌, ◌*◌, ◌/◌, ◌%◌, Bool, ◌==◌, if◌then◌else◌, bit_and, bit_or}
use lib.Prelude.Bytes.{u8}

-- `encodedValue`
pub record BinaryCounterReading : Type 0 where
  pub octet_0 : ℕ
  pub octet_1 : ℕ
  pub octet_2 : ℕ
  pub octet_3 : ℕ
  pub octet_4 : ℕ

-- The least octet is the first, in either order of the octets of a machine.
unfoldable pub get_value : BinaryCounterReading → ℕ
get_value r = r.octet_0 + r.octet_1 * 0x100 + r.octet_2 * 0x10000 + r.octet_3 * 0x1000000

unfoldable pub set_value : ℕ → BinaryCounterReading → BinaryCounterReading
set_value value r = record r {
  octet_0 = u8 value;
  octet_1 = u8 (value / 0x100);
  octet_2 = u8 (value / 0x10000);
  octet_3 = u8 (value / 0x1000000);
}

unfoldable pub get_sequence_number : BinaryCounterReading → ℕ
get_sequence_number r = bit_and r.octet_4 0x1f

unfoldable pub set_sequence_number : ℕ → BinaryCounterReading → BinaryCounterReading
set_sequence_number value r = record r {
  octet_4 = bit_or (bit_and r.octet_4 0xe0) (bit_and value 0x1f);
}

unfoldable pub has_carry : BinaryCounterReading → Bool
has_carry r = bit_and r.octet_4 0x20 == 0x20

-- The new last octet of `BinaryCounterReading_setCarry`, `_setAdjusted` and `_setInvalid`
abbrev pub with_carry : Bool → ℕ → ℕ
with_carry value octet = if value then bit_or octet 0x20 else bit_and octet 0xdf

abbrev pub with_adjusted : Bool → ℕ → ℕ
with_adjusted value octet = if value then bit_or octet 0x40 else bit_and octet 0xbf

abbrev pub with_invalid : Bool → ℕ → ℕ
with_invalid value octet = if value then bit_or octet 0x80 else bit_and octet 0x7f

unfoldable pub set_carry : Bool → BinaryCounterReading → BinaryCounterReading
set_carry value r = record r { octet_4 = with_carry value r.octet_4 }

unfoldable pub is_adjusted : BinaryCounterReading → Bool
is_adjusted r = bit_and r.octet_4 0x40 == 0x40

unfoldable pub set_adjusted : Bool → BinaryCounterReading → BinaryCounterReading
set_adjusted value r = record r { octet_4 = with_adjusted value r.octet_4 }

unfoldable pub is_invalid : BinaryCounterReading → Bool
is_invalid r = bit_and r.octet_4 0x80 == 0x80

unfoldable pub set_invalid : Bool → BinaryCounterReading → BinaryCounterReading
set_invalid value r = record r { octet_4 = with_invalid value r.octet_4 }

-- `BinaryCounterReading_create` in a place with any octets
unfoldable pub create : BinaryCounterReading → ℕ → ℕ → Bool → Bool → Bool → BinaryCounterReading
unfolding set_value set_sequence_number set_carry set_adjusted set_invalid
create r value seq_number carry adjusted invalid =
    set_invalid invalid
      (set_adjusted adjusted (set_carry carry (set_sequence_number seq_number (set_value value r))))
