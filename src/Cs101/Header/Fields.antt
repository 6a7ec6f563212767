-- ===== src/Cs101/Header/Fields.antt =====
-- What the accessors give of the header of a new ASDU.
use lib.Prelude.{
  ℕ, ◌%◌, ◌^◌, ◌≤◌, ◌<◌, ◌≡◌, ◌⊎◌, inl, inr, refl, ap, Bool, true, false, none, some, ltb, ◌==◌,
  ◌&&◌, bool_eq, bool_eq→eq, &&-true, if◌then◌else◌, bit_and, arith,
}
use lib.Prelude.Bytes.{all_below, all_below-IsSound}
use lib.Cs101.Asdu.{AppLayerParameters}
use lib.Cs101.Objects.Roundtrip.{IsEmpty}
use lib.Cs101.Objects.Wire.{HasHeader}
use lib.Cs101.Header.{cause, initialize_static, is_test, is_negative, get_oa, get_cot, get_ca}

-- The sizes that the standard allows for the cause of transmission and for the common address.
pub record HasSizes (p : AppLayerParameters) : Type 0 where
  pub cot : (1 ≤ p.size_of_cot) × (p.size_of_cot ≤ 2)
  pub ca : (1 ≤ p.size_of_ca) × (p.size_of_ca ≤ 2)

abbrev cause_right : Bool → Bool → ℕ → Bool
cause_right test negative cot =
    let octet = cause cot test negative in
    bit_and octet 0x3f == cot % 64
    && (bool_eq (bit_and octet 0x80 == 0x80) test && bool_eq (bit_and octet 0x40 == 0x40) negative)

cause_table : (test negative : Bool) → all_below 256 (cause_right test negative) ≡ true
unfolding all_below
cause_table true true = refl
cause_table true false = refl
cause_table false true = refl
cause_table false false = refl

cause_fields :
    (cot : ℕ) (test negative : Bool)
    → cot < 256
    → (bit_and (cause cot test negative) 0x3f ≡ cot % 64)
      × ((bit_and (cause cot test negative) 0x80 == 0x80) ≡ test)
      × ((bit_and (cause cot test negative) 0x40 == 0x40) ≡ negative)
cause_fields cot test negative h =
    let octet = cause cot test negative in
    let all =
      &&-true (bit_and octet 0x3f == cot % 64) _
        (all_below-IsSound 256 (cause_right test negative) cot (cause_table test negative) h) in
    let flags =
      &&-true (bool_eq (bit_and octet 0x80 == 0x80) test)
        (bool_eq (bit_and octet 0x40 == 0x40) negative) all.1 in
    (ground (arith, all.0), bool_eq→eq _ _ flags.0, bool_eq→eq _ _ flags.1)

pub two_sizes : (n : ℕ) → 1 ≤ n → n ≤ 2 → (n ≡ 1) ⊎ (n ≡ 2)
two_sizes n h h' = ground arith

module _ (p : AppLayerParameters) (sizes : HasSizes p) (sequence : Bool) (cot oa ca : ℕ)
    (test negative : Bool) where
  pub initialize_static-IsEmpty :
      IsEmpty sequence (initialize_static p sequence cot oa ca test negative)
  unfolding initialize_static
  initialize_static-IsEmpty = record { vsq = refl; payload = refl }

  pub initialize_static-HasHeader : HasHeader (initialize_static p sequence cot oa ca test negative)
  unfolding initialize_static
  initialize_static-HasHeader = ground (arith, sizes.cot, sizes.ca)

  pub get_oa-initialize_static :
      oa < 256
      → get_oa (initialize_static p sequence cot oa ca test negative)
        ≡ (if ltb p.size_of_cot 2 then none else some oa)
  unfolding get_oa initialize_static
  get_oa-initialize_static h = ground (arith, sizes.cot)

  pub get_ca-initialize_static :
      ca < 256 ^ p.size_of_ca → get_ca (initialize_static p sequence cot oa ca test negative) ≡ ca
  unfolding get_ca initialize_static
  get_ca-initialize_static h = elim (two_sizes p.size_of_ca sizes.ca.0 sizes.ca.1) [
    | inl e ↦
        let small : ca < 256 = omega (arith, h, ap (λ n. 256 ^ n) e) in ground (arith, e, sizes.cot)
    | inr e ↦
        let small : ca < 65536 = omega (arith, h, ap (λ n. 256 ^ n) e) in
        ground (arith, e, sizes.cot)
  ]

  pub cause-initialize_static :
      cot < 256
      → (get_cot (initialize_static p sequence cot oa ca test negative) ≡ cot % 64)
        × (is_test (initialize_static p sequence cot oa ca test negative) ≡ test)
        × (is_negative (initialize_static p sequence cot oa ca test negative) ≡ negative)
  unfolding initialize_static get_cot is_test is_negative
  cause-initialize_static h = cause_fields cot test negative h
