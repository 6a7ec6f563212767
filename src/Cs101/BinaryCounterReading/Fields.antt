-- ===== src/Cs101/BinaryCounterReading/Fields.antt =====
-- What the functions of cs101_bcr.c read from a reading that they made.
use lib.Prelude.{
  ℕ, ◌+◌, ◌*◌, ◌/◌, ◌%◌, ◌^◌, ◌<◌, ◌≡◌, refl, ap, ap₂, ◌∙◌, Bool, true, false, ◌==◌, if◌then◌else◌,
  arith, bit_and, bit_or,
}
use lib.Prelude.Bytes.{all_below, agree_on_bytes, bit_and-0x20, bit_and-0x40, bit_and-0x80}
use lib.Cs101.BinaryCounterReading.{
  BinaryCounterReading, get_value, set_value, get_sequence_number, set_sequence_number, has_carry,
  with_carry, set_carry, is_adjusted, with_adjusted, set_adjusted, is_invalid, with_invalid,
  set_invalid, create,
}

abbrev bit : Bool → ℕ
bit b = if b then 1 else 0

high_bits : (x : ℕ) → x < 256 → bit_and x 0xe0 ≡ x / 32 * 32
unfolding all_below
high_bits x = agree_on_bytes (λ b. bit_and b 0xe0) (λ b. b / 32 * 32) x refl

low_bits : (x : ℕ) → x < 256 → bit_and x 0x1f ≡ x % 32
unfolding all_below
low_bits x = agree_on_bytes (λ b. bit_and b 0x1f) (λ b. b % 32) x refl

both_bits : (x : ℕ) → x < 256 → bit_or (x / 32 * 32) (x % 32) ≡ x
unfolding all_below
both_bits x = agree_on_bytes (λ b. bit_or (b / 32 * 32) (b % 32)) (λ b. b) x refl

-- The last octet after the sequence number was put into it.
numbered :
    (octet number : ℕ)
    → octet < 256
    → number < 256
    → bit_or (bit_and octet 0xe0) (bit_and number 0x1f) ≡ octet / 32 * 32 + number % 32
numbered octet number h h' =
    let x = octet / 32 * 32 + number % 32 in
    ap₂ bit_or (high_bits octet h ∙ omega arith) (low_bits number h' ∙ omega arith)
    ∙ both_bits x (omega arith)

-- The last octet after the three flags were put into it.
flagged :
    (carry adjusted invalid : Bool) (x : ℕ)
    → x < 256
    → with_invalid invalid (with_adjusted adjusted (with_carry carry x))
      ≡ bit invalid * 128 + bit adjusted * 64 + bit carry * 32 + x % 32
unfolding all_below
flagged carry adjusted invalid x h =
    agree_on_bytes (λ b. with_invalid invalid (with_adjusted adjusted (with_carry carry b)))
      (λ b. bit invalid * 128 + bit adjusted * 64 + bit carry * 32 + b % 32) x
      (all_flags carry adjusted invalid) h
  where
    all_flags :
        (carry adjusted invalid : Bool)
        → all_below 256 (λ b.
          with_invalid invalid (with_adjusted adjusted (with_carry carry b))
          == (bit invalid * 128 + bit adjusted * 64 + bit carry * 32 + b % 32))
          ≡ true
    all_flags true true true = refl
    all_flags true true false = refl
    all_flags true false true = refl
    all_flags true false false = refl
    all_flags false true true = refl
    all_flags false true false = refl
    all_flags false false true = refl
    all_flags false false false = refl

module _ (r : BinaryCounterReading) (value number : ℕ) (carry adjusted invalid : Bool)
    (octet : r.octet_4 < 256) (fits : value < 2 ^ 32) (small : number < 32) where
  abbrev made : BinaryCounterReading
  made = create r value number carry adjusted invalid

  abbrev last : ℕ
  last = bit invalid * 128 + bit adjusted * 64 + bit carry * 32 + number

  last-octet : made.octet_4 ≡ last
  unfolding create set_value set_sequence_number set_carry set_adjusted set_invalid
  last-octet =
      let x = r.octet_4 / 32 * 32 + number % 32 in
      ap (λ b. with_invalid invalid (with_adjusted adjusted (with_carry carry b)))
        (numbered r.octet_4 number octet (omega arith))
      ∙ flagged carry adjusted invalid x (omega arith)
      ∙ omega arith

  last-byte : last < 256
  last-byte = ground arith

  value-made : get_value made ≡ value
  unfolding get_value create set_value set_sequence_number set_carry set_adjusted set_invalid
  value-made = omega arith

  -- A reading that BinaryCounterReading_create makes from a value of 32 bits, a sequence number
  -- below 32 and three flags, in a place with any octets, has that value, number and flags.
  pub create-fields :
      (get_value made ≡ value)
      × (get_sequence_number made ≡ number)
      × (has_carry made ≡ carry)
      × (is_adjusted made ≡ adjusted)
      × (is_invalid made ≡ invalid)
  unfolding get_sequence_number has_carry is_adjusted is_invalid
  create-fields = (
    value-made,
    ap (λ b. bit_and b 0x1f) last-octet ∙ low_bits last last-byte ∙ omega arith,
    ap (λ b. bit_and b 0x20 == 0x20) last-octet
        ∙ ap (λ n. n == 0x20) (bit_and-0x20 last last-byte)
        ∙ ground arith,
    ap (λ b. bit_and b 0x40 == 0x40) last-octet
        ∙ ap (λ n. n == 0x40) (bit_and-0x40 last last-byte)
        ∙ ground arith,
    ap (λ b. bit_and b 0x80 == 0x80) last-octet
        ∙ ap (λ n. n == 0x80) (bit_and-0x80 last last-byte)
        ∙ ground arith,
  )
