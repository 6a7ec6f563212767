-- ===== src/Cs101/Header/Clone.antt =====
-- A clone of an ASDU is equal to it.
use lib.Prelude.{
  ℕ, ◌+◌, ◌≤◌, ◌<◌, ◌≡◌, refl, List, [], ◌∷◌, length, ◌==◌, ◌!=◌, if◌then◌else◌, bit_and, bit_or,
  arith,
}
use lib.Prelude.Bytes.{u8, all_below, agree_on_bytes, AllBytes}
use lib.Cs101.Asdu.{header_length}
use lib.Cs101.Objects.{AsduBuffer, is_sequence}
use lib.Cs101.Header.{
  cause, originator, initialize_static, is_test, is_negative, get_oa, get_cot, get_ca, set_type_id,
  set_number_of_elements, add_payload, clone,
}
use lib.Cs101.Header.Fields.{HasSizes}

-- The octets of an ASDU are octets, there are as many in the header as the parameters say, and all have
-- room in the buffer of an ASDU.
pub record IsAsdu (a : AsduBuffer) : Type 0 where
  pub sizes : HasSizes a.parameters
  pub type_id : a.type_id < 256
  pub vsq : a.vsq < 256
  pub header : length a.header_rest ≡ a.parameters.size_of_cot + a.parameters.size_of_ca
  pub octets : AllBytes a.header_rest
  pub room : length a.payload + header_length a.parameters ≤ 256

cause-same :
    (x : ℕ) → x < 256 → cause (bit_and x 0x3f) (bit_and x 0x80 == 0x80) (bit_and x 0x40 == 0x40) ≡ x
unfolding all_below
cause-same x h =
    agree_on_bytes (λ b. cause (bit_and b 0x3f) (bit_and b 0x80 == 0x80) (bit_and b 0x40 == 0x40))
      (λ b. b) x refl h

vsq-same :
    (x : ℕ)
    → x < 256
    → bit_or
        (bit_and (if bit_and x 0x80 != 0 then 0x80 else 0) 0x80)
        (bit_and (u8 (bit_and x 0x7f)) 0x7f)
      ≡ x
unfolding all_below
vsq-same x h =
    agree_on_bytes
      (λ b.
        bit_or (bit_and (if bit_and b 0x80 != 0 then 0x80 else 0) 0x80)
          (bit_and (u8 (bit_and b 0x7f)) 0x7f))
      (λ b. b) x refl h

-- The octets of the header from the third on are made again of what the accessors give.
header-same :
    (a : AsduBuffer) (rest : List ℕ)
    → a.header_rest ≡ rest
    → HasSizes a.parameters
    → length rest ≡ a.parameters.size_of_cot + a.parameters.size_of_ca
    → AllBytes rest
    → (initialize_static a.parameters
        (is_sequence a)
        (get_cot a)
        (originator (get_oa a))
        (get_ca a)
        (is_test a)
        (is_negative a)).header_rest
      ≡ rest
unfolding initialize_static get_cot get_oa get_ca is_test is_negative
header-same a [] e sizes n all = absurd (omega (arith, sizes.cot))
header-same a (x ∷ []) e sizes n all = absurd (omega (arith, sizes.cot, sizes.ca))
header-same a (x ∷ y ∷ []) e sizes n all = ground (arith, e, cause-same x, sizes.cot, sizes.ca)
header-same a (x ∷ y ∷ z ∷ []) e sizes n all = ground (arith, e, cause-same x, sizes.cot, sizes.ca)
header-same a (x ∷ y ∷ z ∷ w ∷ []) e sizes n all =
    ground (arith, e, cause-same x, sizes.cot, sizes.ca)
header-same a (x ∷ y ∷ z ∷ w ∷ v ∷ rest) e sizes n all = absurd (omega (arith, sizes.cot, sizes.ca))

-- The clone of an ASDU is equal to it, with its header, its type identification, its variable structure
-- qualifier and its payload, if its octets are octets and at most 256, and the cause of transmission and
-- the common address have one or two octets each.
pub clone_lem : (a : AsduBuffer) → IsAsdu a → clone a ≡ a
unfolding clone initialize_static set_type_id set_number_of_elements add_payload
clone_lem a is =
    let header = header-same a a.header_rest refl is.sizes is.header is.octets in
    ground (arith, header, vsq-same a.vsq is.vsq)
