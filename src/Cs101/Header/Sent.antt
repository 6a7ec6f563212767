-- ===== src/Cs101/Header/Sent.antt =====
-- An ASDU from its creation at one station to its parts at the other.
use lib.Prelude.{
  ℕ, ◌%◌, ◌^◌, ◌≤◌, ◌<◌, ◌≡◌, ◌∙◌, Bool, Option, none, some, List, length, get_elem?, ltb,
  if◌then◌else◌,
}
use lib.Cs101.Asdu.{AppLayerParameters, Asdu, create_from_buffer}
use lib.Cs101.Objects.{
  Codec, InformationObject, AsduBuffer, sized, is_single_information_object_type, get_element,
}
use lib.Cs101.Objects.Adding.{add_all}
use lib.Cs101.Objects.Roundtrip.{Agrees}
use lib.Cs101.Objects.Room.{room}
use lib.Cs101.Objects.Accepting.{IsAddable}
use lib.Cs101.Objects.Table.{IsSound}
use lib.Cs101.Objects.Received.{received}
use lib.Cs101.Objects.Wire.{octets, objects-received}
use lib.Cs101.Header.{initialize_static, is_test, is_negative, get_oa, get_cot, get_ca}
use lib.Cs101.Header.Fields.{
  HasSizes, initialize_static-IsEmpty, initialize_static-HasHeader, get_oa-initialize_static,
  get_ca-initialize_static, cause-initialize_static,
}

-- The accessors of the header see the parameters and the octets of the header only.
module _ (a b : AsduBuffer) (p : a.parameters ≡ b.parameters)
    (h : a.header_rest ≡ b.header_rest) where
  get_cot-same : get_cot a ≡ get_cot b
  unfolding get_cot
  get_cot-same = cc

  get_oa-same : get_oa a ≡ get_oa b
  unfolding get_oa
  get_oa-same = cc

  get_ca-same : get_ca a ≡ get_ca b
  unfolding get_ca
  get_ca-same = cc

  is_test-same : is_test a ≡ is_test b
  unfolding is_test
  is_test-same = cc

  is_negative-same : is_negative a ≡ is_negative b
  unfolding is_negative
  is_negative-same = cc

-- The header that an ASDU was created with.
pub record HasFields (a : AsduBuffer) (cot : ℕ) (oa : Option ℕ) (ca : ℕ) (test negative : Bool)
    : Type 0 where
  pub cot_given : get_cot a ≡ cot
  pub oa_given : get_oa a ≡ oa
  pub ca_given : get_ca a ≡ ca
  pub test_given : is_test a ≡ test
  pub negative_given : is_negative a ≡ negative

module _ (p : AppLayerParameters) (sequence : Bool) (cot oa ca : ℕ) (test negative : Bool) where
  abbrev fresh : AsduBuffer
  fresh = initialize_static p sequence cot oa ca test negative

  -- An ASDU is created with a cause and an originator address below 256 and a common address that its
  -- size holds, objects of one type are added, and its octets are sent. The type is a sound one whose
  -- encode function asks for k octets, no fewer than it puts, and which is read where it is put; there is
  -- an object, at most 127, and only one of a type that is to be alone; they have addresses and values of
  -- their sizes, in a sequence consecutive addresses; and the largest size has room for k octets of each.
  -- Then all are accepted; the receiver accepts the octets as a message, and its ASDU has the cause of
  -- transmission (modulo 64), the originator address (none if the cause has one octet), the common address
  -- and both flags that the ASDU was created with, at each index the object that was added there, with its
  -- address and its value, and no object behind the last.
  pub asdu-received :
      (c : Codec) (is : IsSound c) (k : ℕ) (os : List (InformationObject c))
      → HasSizes p
      → cot < 256
      → oa < 256
      → ca < 256 ^ p.size_of_ca
      → c.required ≡ sized k
      → c.element_size ≤ k
      → Agrees c.layout (is_single_information_object_type c.type_id) sequence
      → IsAddable p c sequence os
      → 0 < length os
      → room p sequence (length os) k ≤ p.max_size_of_asdu
      → (b : AsduBuffer) × (r : Asdu) × (add_all c os
            (initialize_static p sequence cot oa ca test negative)
          ≡ some b)
        × (create_from_buffer p (octets b) (length (octets b)) ≡ some r)
        × HasFields
            (received r)
            (cot % 64)
            (if ltb p.size_of_cot 2 then none else some oa)
            ca
            test
            negative
        × ((i : ℕ) → get_element c (received r) i ≡ get_elem? os i)
  unfolding initialize_static
  asdu-received c is k os sizes cot_octet oa_octet ca_small asked le agrees can some_objects
        enough =
      let (b, r, added, accepted, (parameters, header), elements) =
        objects-received c is k sequence os fresh asked le agrees
          (initialize_static-IsEmpty p sizes sequence cot oa ca test negative)
          (initialize_static-HasHeader p sizes sequence cot oa ca test negative) can some_objects
          enough in
      let (cot_given, test_given, negative_given) =
        cause-initialize_static p sizes sequence cot oa ca test negative cot_octet in
      (
        b,
        r,
        added,
        accepted,
        record {
          cot_given = get_cot-same (received r) fresh parameters header ∙ cot_given;
          oa_given =
              get_oa-same (received r) fresh parameters header
              ∙ get_oa-initialize_static p sizes sequence cot oa ca test negative oa_octet;
          ca_given =
              get_ca-same (received r) fresh parameters header
              ∙ get_ca-initialize_static p sizes sequence cot oa ca test negative ca_small;
          test_given = is_test-same (received r) fresh parameters header ∙ test_given;
          negative_given = is_negative-same (received r) fresh parameters header ∙ negative_given;
        },
        elements,
      )
