-- ===== src/Cs101/Objects/Wire.antt =====
-- From the objects of one station to those of the other: an ASDU is filled, its octets are the message,
-- and the receiver takes the objects out.
use lib.Prelude.{
  refl, ℕ, suc, ◌+◌, ◌-◌, ◌≤◌, ◌<◌, ◌≡◌, sym, ap, ◌∙◌, Bool, true, false, some, List, [], ◌∷◌, ◌++◌,
  length, length-append, get_elem?, take, drop, take-append, drop-append, arith,
}
use lib.Prelude.Bytes.{u8}
use lib.Cs101.Asdu.{
  AppLayerParameters, Asdu, create_from_buffer, get_element_data_size, payload_too_small,
  expected_min_payload, header_length,
}
use lib.Cs101.Objects.{
  Codec, InformationObject, AsduBuffer, sized, encode_base, is_sequence, number_of_elements,
  is_single_information_object_type, encode, counted, add_information_object, get_element,
}
use lib.Cs101.Objects.Address.{length-encode_base}
use lib.Cs101.Objects.Elements.{AllObjects, laid_out, values}
use lib.Cs101.Objects.Adding.{Holds, Holds-add_all, add_all, add_all-cons, counts}
use lib.Cs101.Objects.Roundtrip.{Agrees, IsEmpty, Holds-empty, get_element-add_all}
use lib.Cs101.Objects.Room.{room, length-values, length-addressed}
use lib.Cs101.Objects.Accepting.{IsAddable, accepts_all}
use lib.Cs101.Objects.Table.{IsSound}
use lib.Cs101.Objects.Received.{received, whole}

-- The octets of an ASDU, which `asduFrame` sends.
abbrev pub octets : AsduBuffer → List ℕ
octets b = b.type_id ∷ b.vsq ∷ (b.header_rest ++ b.payload)

-- The header is as long as the parameters say.
abbrev pub HasHeader : AsduBuffer → Type 0
HasHeader b = header_length b.parameters ≡ 2 + length b.header_rest

encode-header_rest :
    (c : Codec) (sequence : Bool) (o : InformationObject c) (a : AsduBuffer)
    → (counted c (encode c sequence o a)).1.header_rest ≡ a.header_rest
unfolding encode
encode-header_rest c sequence o a = ground arith

add-header_rest :
    (c : Codec) (o : InformationObject c) (a : AsduBuffer)
    → (add_information_object c o a).1.header_rest ≡ a.header_rest
unfolding add_information_object
add-header_rest c o a = ground (
  arith,
  encode-header_rest c false o (record a { type_id = u8 c.type_id }),
  encode-header_rest c true o a,
  encode-header_rest c false o a,
)

add_all-header_rest :
    (p : AppLayerParameters) (c : Codec) (byte : c.type_id < 256) (os : List (InformationObject c))
    (a b : AsduBuffer)
    → add_all c os a ≡ some b
    → b.header_rest ≡ a.header_rest
unfolding add_all
add_all-header_rest p c byte [] a b e = let same : a ≡ b = cc in ap (λ x. x.header_rest) (sym same)
add_all-header_rest p c byte (o ∷ os) a b e =
    let (added, rest) = add_all-cons p c true byte o os a e in
    add_all-header_rest p c byte os (add_information_object c o a).1 b rest ∙ add-header_rest c o a

-- The receiver's ASDU is the sender's.
received-octets : (b : AsduBuffer) → HasHeader b → received (whole b.parameters (octets b)) ≡ b
received-octets b h =
    let n : header_length b.parameters ≡ suc (suc (length b.header_rest)) = omega (arith, h) in
    let rest : take (header_length b.parameters - 2) (b.header_rest ++ b.payload) ≡ b.header_rest =
      ap (λ m. take m (b.header_rest ++ b.payload)) (omega (arith, h))
      ∙ take-append b.header_rest b.payload in
    let payload : drop (header_length b.parameters) (octets b) ≡ b.payload =
      ap (λ m. drop m (octets b)) n ∙ drop-append b.header_rest b.payload in
    ground (arith, rest, payload)

module _ (p : AppLayerParameters) (c : Codec) (is : IsSound c) where
  -- The payload is as long as the check of received messages wants.
  long_enough :
      (sequence : Bool) (os : List (InformationObject c))
      → AllObjects p c os
      → 0 < length os
      → expected_min_payload p sequence (length os) c.element_size
        ≤ length (laid_out p c sequence os)
  long_enough false os all some_objects = omega (arith, length-addressed p c is.lawful os all)
  long_enough true [] all some_objects = absurd (omega arith)
  long_enough true (o ∷ os) all some_objects = omega (
    arith,
    length-append (encode_base p false o.object_address) (values p c (o ∷ os)),
    length-encode_base p o.object_address all.0.0,
    length-values p c is.lawful (o ∷ os),
  )

  payload-IsEnough :
      (sequence : Bool) (os : List (InformationObject c)) (b : AsduBuffer)
      → AllObjects p c os
      → 0 < length os
      → Holds p c sequence os b
      → payload_too_small p
          (length b.payload)
          (is_sequence b)
          (number_of_elements b)
          (get_element_data_size b.type_id)
        ≡ false
  payload-IsEnough sequence os b all some_objects h =
      let known = ap get_element_data_size (h.type_id some_objects) ∙ is.size in
      let (n, in_sequence) = counts p c sequence os h in
      let enough : payload_too_small p (length b.payload) sequence (length os) (some c.element_size)
          ≡ false =
        ground (arith, long_enough sequence os all some_objects, ap length h.payload) in
      cc (known, n, in_sequence, enough)

  create_from_buffer-octets :
      (sequence : Bool) (os : List (InformationObject c)) (b : AsduBuffer)
      → AllObjects p c os
      → 0 < length os
      → Holds p c sequence os b
      → HasHeader b
      → create_from_buffer p (octets b) (length (octets b)) ≡ some (whole p (octets b))
  unfolding create_from_buffer
  create_from_buffer-octets sequence os b all some_objects h header =
      let enough = payload-IsEnough sequence os b all some_objects h in
      let same : header_length b.parameters ≡ header_length p = ap header_length h.parameters in
      let size : length (octets b) - header_length p ≡ length b.payload =
        omega (arith, length-append b.header_rest b.payload, header, same) in
      let enough' : payload_too_small p (length (octets b) - header_length p) (is_sequence b)
            (number_of_elements b) (get_element_data_size b.type_id)
          ≡ false =
        ap
          (λ n.
            payload_too_small p n (is_sequence b) (number_of_elements b)
              (get_element_data_size b.type_id))
          size
        ∙ enough in
      ground (arith, enough', length-append b.header_rest b.payload, header, same)

-- The objects of one type that an ASDU can have, added to an empty one with room for them, arrive: the octets
-- of the ASDU make a message that the receiver accepts, and the receiver's ASDU is the sender's, with the
-- header of the empty one; the element at each index is the object that was added there.
pub objects-received :
    (c : Codec) (is : IsSound c) (k : ℕ) (sequence : Bool) (os : List (InformationObject c))
    (a : AsduBuffer)
    → c.required ≡ sized k
    → c.element_size ≤ k
    → Agrees c.layout (is_single_information_object_type c.type_id) sequence
    → IsEmpty sequence a
    → HasHeader a
    → IsAddable a.parameters c sequence os
    → 0 < length os
    → room a.parameters sequence (length os) k ≤ a.parameters.max_size_of_asdu
    → (b : AsduBuffer) × (r : Asdu) × (add_all c os a ≡ some b)
      × (create_from_buffer a.parameters (octets b) (length (octets b)) ≡ some r)
      × (((received r).parameters ≡ a.parameters) × ((received r).header_rest ≡ a.header_rest))
      × ((i : ℕ) → get_element c (received r) i ≡ get_elem? os i)
objects-received c is k sequence os a asked le agrees empty header can some_objects enough =
    let p = a.parameters in
    let start = Holds-empty c is.lawful sequence a empty in
    let (b, added) =
      accepts_all c is.lawful k asked is.octet le sequence p [] os a tt can start enough in
    let held = Holds-add_all p c sequence is.octet [] os a tt can.all start added in
    let kept = add_all-header_rest p c is.octet os a b added in
    let header' : HasHeader b =
      omega (arith, header, ap header_length held.parameters, ap length kept) in
    let same : received (whole p (octets b)) ≡ b =
      ap (λ q. received (whole q (octets b))) (sym held.parameters) ∙ received-octets b header' in
    (
      b,
      whole p (octets b),
      added,
      create_from_buffer-octets p c is sequence os b can.all some_objects held header',
      (refl, ap (λ x. x.header_rest) same ∙ kept),
      λ i.
          ap (λ x. get_element c x i) same
          ∙ get_element-add_all c is.lawful sequence os a b i is.octet agrees empty can.all added,
    )
