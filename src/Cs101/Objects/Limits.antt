-- ===== src/Cs101/Objects/Limits.antt =====
-- The size of an ASDU to which objects are added.
use lib.Prelude.{
  ℕ, ◌+◌, ◌≤◌, ◌<◌, ◌≡◌, ◌≢◌, ◌⊎◌, inl, inr, sym, ap, subst, Bool, Bool-cases, true, false, List,
  [], ◌++◌, length, length-append, ◌==◌, if◌then◌else◌, bit_and, arith,
}
use lib.Prelude.Bytes.{u8, bit_and-0x7f}
use lib.Cs101.Asdu.{AppLayerParameters, header_length}
use lib.Cs101.Objects.{
  Codec, InformationObject, AsduBuffer, encode_base, is_sequence, number_of_elements,
  is_single_information_object_type, encode, counted, add_information_object,
}
use lib.Cs101.Objects.Adding.{with_object, add_first, add_next}
use lib.Cs101.Objects.Table.{IsSound, AsksEnough, IsAlone}

-- The sizes of addresses, and an ASDU in which any one object has room.
pub record HasRoom (p : AppLayerParameters) : Type 0 where
  pub size_of_ioa : (1 ≤ p.size_of_ioa) × (p.size_of_ioa ≤ 3)
  pub one_object : header_length p + p.size_of_ioa + 9 ≤ p.max_size_of_asdu

-- The ASDU is not too long, and has no octets in its payload if it has no elements.
pub record IsWithinLimit (a : AsduBuffer) : Type 0 where
  pub size : length a.payload + header_length a.parameters ≤ a.parameters.max_size_of_asdu
  pub vsq : a.vsq < 256
  pub empty : number_of_elements a ≡ 0 → a.payload ≡ []

length-encode_base-le :
    (p : AppLayerParameters) (sequence : Bool) (address : ℕ)
    → 1 ≤ p.size_of_ioa
    → length (encode_base p sequence address) ≤ (if sequence then 0 else p.size_of_ioa)
unfolding encode_base
length-encode_base-le p sequence address h = ground arith

module _ (c : Codec) (is : IsSound c) where
  -- What an object adds to the payload.
  abbrev put : AsduBuffer → Bool → InformationObject c → List ℕ
  put a sequence o =
      a.payload ++ (encode_base a.parameters sequence o.object_address ++ c.bytes o.value)

  length-put :
      (a : AsduBuffer) (sequence : Bool) (o : InformationObject c)
      → 1 ≤ a.parameters.size_of_ioa
      → length (put a sequence o)
        ≤ length a.payload + (c.element_size + (if sequence then 0 else a.parameters.size_of_ioa))
  length-put a sequence o h =
      let base = encode_base a.parameters sequence o.object_address in
      omega (
        arith,
        length-append a.payload (base ++ c.bytes o.value),
        length-append base (c.bytes o.value),
        is.lawful.length-bytes o.value,
        length-encode_base-le a.parameters sequence o.object_address h,
      )

  -- An object for which enough room is asked.
  encode-asking :
      (a : AsduBuffer) (sequence : Bool) (o : InformationObject c)
      → AsksEnough c
      → 1 ≤ a.parameters.size_of_ioa
      → (encode c sequence o a).0 ≡ true
      → length (put a sequence o) + header_length a.parameters ≤ a.parameters.max_size_of_asdu
  unfolding encode
  encode-asking a sequence o (required, e, enough) h accepted =
      ground (arith, e, enough sequence a.parameters.size_of_ioa, length-put a sequence o h)

  -- The object was encoded, alone or behind others.
  add-encoded :
      (o : InformationObject c) (a : AsduBuffer)
      → (add_information_object c o a).0 ≡ true
      → ((number_of_elements a ≡ 0)
          × ((encode c false o (record a { type_id = u8 c.type_id })).0 ≡ true))
        ⊎ ((0 < number_of_elements a) × ((encode c (is_sequence a) o a).0 ≡ true))
  unfolding add_information_object
  add-encoded o a h = elim (Bool-cases (number_of_elements a == 0)) [
    | inl first ↦ inl (ground arith, ground arith)
    | inr next ↦ inr (ground arith, ground arith)
  ]

  encode-refused :
      (sequence : Bool) (o : InformationObject c) (a : AsduBuffer)
      → (counted c (encode c sequence o a)).0 ≡ false
      → (counted c (encode c sequence o a)).1 ≡ a
  unfolding encode
  encode-refused sequence o a h = ground arith

  -- An object that is refused leaves everything but the type identification of an empty ASDU.
  refused_first :
      (o : InformationObject c) (a : AsduBuffer)
      → number_of_elements a ≡ 0
      → (add_information_object c o a).0 ≡ false
      → (add_information_object c o a).1 ≡ record a { type_id = u8 c.type_id }
  unfolding add_information_object
  refused_first o a e h =
      ground (arith, encode-refused false o (record a { type_id = u8 c.type_id }))

  refused_next :
      (o : InformationObject c) (a : AsduBuffer)
      → 0 < number_of_elements a
      → (add_information_object c o a).0 ≡ false
      → (add_information_object c o a).1 ≡ a
  unfolding add_information_object
  refused_next o a lt h = ground (arith, encode-refused false o a, encode-refused true o a)

  -- An object of a type that an ASDU has once stands alone.
  put-alone :
      (a : AsduBuffer) (o : InformationObject c)
      → IsAlone c
      → HasRoom a.parameters
      → a.payload ≡ []
      → length (put a false o) + header_length a.parameters ≤ a.parameters.max_size_of_asdu
  put-alone a o (single, small) room empty =
      omega (arith, length-put a false o room.size_of_ioa.0, ap length empty, room.one_object)

  fits_first :
      (o : InformationObject c) (a : AsduBuffer)
      → HasRoom a.parameters
      → a.payload ≡ []
      → (encode c false o (record a { type_id = u8 c.type_id })).0 ≡ true
      → length (put a false o) + header_length a.parameters ≤ a.parameters.max_size_of_asdu
  fits_first o a room empty accepted = elim is.room [
    | inl enough ↦
        encode-asking (record a { type_id = u8 c.type_id }) false o enough room.size_of_ioa.0
          accepted
    | inr once ↦ put-alone a o once room empty
  ]

  fits_next :
      (o : InformationObject c) (a : AsduBuffer)
      → HasRoom a.parameters
      → 0 < number_of_elements a
      → (add_information_object c o a).0 ≡ true
      → (encode c (is_sequence a) o a).0 ≡ true
      → length (put a (is_sequence a) o) + header_length a.parameters
        ≤ a.parameters.max_size_of_asdu
  fits_next o a room several added accepted = elim is.room [
    | inl enough ↦ encode-asking a (is_sequence a) o enough room.size_of_ioa.0 accepted
    | inr once ↦
        let (after, many, few, type_id, follows) = add_next a.parameters c o a several added in
        let same : a.type_id ≡ c.type_id = omega (arith, type_id, is.octet) in
        absurd (cc (many, once.0, ap is_single_information_object_type same))
  ]

  -- One element more is counted than before.
  counted_more : (vsq : ℕ) → vsq < 256 → bit_and vsq 0x7f < 127 → bit_and (u8 (vsq + 1)) 0x7f ≢ 0
  counted_more vsq h lt = λ e.
      let before = bit_and-0x7f vsq h in
      let after = bit_and-0x7f (u8 (vsq + 1)) (omega arith) in
      absurd (omega (arith, before, after, e))

  with_object-IsWithinLimit :
      (sequence : Bool) (o : InformationObject c) (a : AsduBuffer)
      → a.vsq < 256
      → number_of_elements a < 127
      → length (put a sequence o) + header_length a.parameters ≤ a.parameters.max_size_of_asdu
      → IsWithinLimit (with_object a.parameters c sequence o a)
  with_object-IsWithinLimit sequence o a octet few size = record {
    size = size;
    vsq = omega arith;
    empty = λ e. absurd (counted_more a.vsq octet few e);
  }

  accepted-IsWithinLimit :
      (o : InformationObject c) (a : AsduBuffer)
      → HasRoom a.parameters
      → IsWithinLimit a
      → (add_information_object c o a).0 ≡ true
      → IsWithinLimit (add_information_object c o a).1
  accepted-IsWithinLimit o a room h added = elim (add-encoded o a added) [
    | inl (first, encoded) ↦
        let b = record a { type_id = u8 c.type_id } in
        subst IsWithinLimit (sym (add_first a.parameters c o a first added)) (
          with_object-IsWithinLimit false o b h.vsq (omega (arith, first))
            (fits_first o a room (h.empty first) encoded))
    | inr (several, encoded) ↦
        let (after, many, few, type_id, follows) = add_next a.parameters c o a several added in
        subst IsWithinLimit (sym after) (
          with_object-IsWithinLimit (is_sequence a) o a h.vsq few
            (fits_next o a room several added encoded))
  ]

  refused-IsWithinLimit :
      (o : InformationObject c) (a : AsduBuffer)
      → IsWithinLimit a
      → (add_information_object c o a).0 ≡ false
      → IsWithinLimit (add_information_object c o a).1
  refused-IsWithinLimit o a h refused = elim (Bool-cases (number_of_elements a == 0)) [
    | inl first ↦
        subst IsWithinLimit (sym (refused_first o a (ground arith) refused))
          (record { size = h.size; vsq = h.vsq; empty = h.empty })
    | inr next ↦ subst IsWithinLimit (sym (refused_next o a (ground arith) refused)) h
  ]

  -- Adding an object of a sound type, whether it is accepted or not, keeps an ASDU within its largest size,
  -- with no octets in the payload as long as it has no elements, if addresses have one to three octets and
  -- one object of nine octets with its address has room in an empty ASDU.
  pub add-IsWithinLimit :
      (o : InformationObject c) (a : AsduBuffer)
      → HasRoom a.parameters
      → IsWithinLimit a
      → IsWithinLimit (add_information_object c o a).1
  add-IsWithinLimit o a room h = elim (Bool-cases (add_information_object c o a).0) [
    | inl added ↦ accepted-IsWithinLimit o a room h added
    | inr refused ↦ refused-IsWithinLimit o a h refused
  ]
