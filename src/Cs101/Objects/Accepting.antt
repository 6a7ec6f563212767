-- ===== src/Cs101/Objects/Accepting.antt =====
-- Which objects an ASDU accepts.
use lib.Prelude.{
  ℕ, ◌+◌, ◌≤◌, ◌<◌, ◌≡◌, inl, inr, refl, sym, ap, subst, ◌∙◌, Bool, Bool-cases, true, false, some,
  List, [], ◌∷◌, ◌++◌, append_assoc, length, length-append, get_elem?, if◌then◌else◌, arith,
}
use lib.Prelude.Bytes.{u8}
use lib.Cs101.Asdu.{AppLayerParameters, header_length}
use lib.Cs101.Objects.{
  Codec, InformationObject, IsLawful, AsduBuffer, sized, get_first_ioa, is_sequence,
  number_of_elements, is_single_information_object_type, encode, counted, add_information_object,
  get_element,
}
use lib.Cs101.Objects.Elements.{IsObject, AllObjects, InOrder}
use lib.Cs101.Objects.Reading.{Consecutive-get_elem?, get_first_ioa-laid_out}
use lib.Cs101.Objects.Adding.{Holds, add_all, counts, Holds-add, AllObjects-append}
use lib.Cs101.Objects.Roundtrip.{Agrees, IsEmpty, Holds-empty, laid_out_none, get_element-add_all}
use lib.Cs101.Objects.Room.{room, room_first, room_next}

encode-accepts :
    (c : Codec) (k : ℕ) (sequence : Bool) (o : InformationObject c) (a : AsduBuffer)
    → c.required ≡ sized k
    → length a.payload
        + header_length a.parameters
        + (if sequence then k else a.parameters.size_of_ioa + k)
      ≤ a.parameters.max_size_of_asdu
    → (counted c (encode c sequence o a)).0 ≡ true
unfolding encode
encode-accepts c k sequence o a e h = ground (arith, e)

module _ (c : Codec) (k : ℕ) (e : c.required ≡ sized k) (o : InformationObject c)
    (a : AsduBuffer) where
  accepts_first :
      number_of_elements a ≡ 0
      → length a.payload + header_length a.parameters + (a.parameters.size_of_ioa + k)
        ≤ a.parameters.max_size_of_asdu
      → (add_information_object c o a).0 ≡ true
  unfolding add_information_object
  accepts_first first h =
      ground (arith, encode-accepts c k false o (record a { type_id = u8 c.type_id }) e h)

  accepts_next :
      0 < number_of_elements a
      → number_of_elements a < 127
      → is_single_information_object_type a.type_id ≡ false
      → a.type_id ≡ u8 c.type_id
      → (is_sequence a ≡ true
          → o.object_address ≡ get_first_ioa a.parameters a.payload + number_of_elements a)
      → length a.payload
          + header_length a.parameters
          + (if is_sequence a then k else a.parameters.size_of_ioa + k)
        ≤ a.parameters.max_size_of_asdu
      → (add_information_object c o a).0 ≡ true
  unfolding add_information_object
  accepts_next several few many same follows h =
      ground (arith, encode-accepts c k true o a e, encode-accepts c k false o a e)

-- What an ASDU can have: the objects of one type in order, as many as the octet counts, and only one of a
-- type that is to be alone.
pub record IsAddable (p : AppLayerParameters) (c : Codec) (sequence : Bool)
    (os : List (InformationObject c)) : Type 0 where
  pub all : AllObjects p c os
  pub order : InOrder p c sequence os
  pub few : length os ≤ 127
  pub single : is_single_information_object_type c.type_id ≡ true → length os ≤ 1

module _ {p q : AppLayerParameters} (same : p ≡ q) where
  same_header : header_length p ≡ header_length q
  same_header = ap header_length same

  same_address : p.size_of_ioa ≡ q.size_of_ioa
  same_address = ap (λ r. r.size_of_ioa) same

  same_limit : p.max_size_of_asdu ≡ q.max_size_of_asdu
  same_limit = ap (λ r. r.max_size_of_asdu) same

get_elem?-length {ℓ} :
    {A : Type ℓ} (xs ys : List A) (y : A) → get_elem? (xs ++ (y ∷ ys)) (length xs) ≡ some y
get_elem?-length [] ys y = refl
get_elem?-length (x ∷ xs) ys y = get_elem?-length xs ys y

position_of :
    (p : AppLayerParameters) (c : Codec) (sequence : Bool) (x : InformationObject c)
    (held : List (InformationObject c)) (o : InformationObject c) (os : List (InformationObject c))
    → InOrder p c sequence ((x ∷ held) ++ (o ∷ os))
    → sequence ≡ true
    → o.object_address ≡ x.object_address + length (x ∷ held)
position_of p c true x held o os order e =
    Consecutive-get_elem? p c ((x ∷ held) ++ (o ∷ os)) (length (x ∷ held)) x.object_address o order
      (get_elem?-length (x ∷ held) os o)
position_of p c false x held o os order e = absurd (cc)

AllObjects-middle :
    (p : AppLayerParameters) (c : Codec) (held : List (InformationObject c))
    (o : InformationObject c) (os : List (InformationObject c))
    → AllObjects p c (held ++ (o ∷ os))
    → IsObject p c o
AllObjects-middle p c [] o os all = all.0
AllObjects-middle p c (x ∷ held) o os all = AllObjects-middle p c held o os all.1

module _ (c : Codec) (is : IsLawful c) (k : ℕ) (e : c.required ≡ sized k) (byte : c.type_id < 256)
    (le : c.element_size ≤ k) (sequence : Bool) where
  accepts :
      (p : AppLayerParameters) (held : List (InformationObject c)) (o : InformationObject c)
      (os : List (InformationObject c)) (a : AsduBuffer)
      → AllObjects p c held
      → IsAddable p c sequence (held ++ (o ∷ os))
      → Holds p c sequence held a
      → room p sequence (length (held ++ (o ∷ os))) k ≤ p.max_size_of_asdu
      → (add_information_object c o a).0 ≡ true
  accepts p [] o os a all can h enough =
      let nothing : length a.payload ≡ 0 =
        ap length h.payload ∙ ap length (laid_out_none c is p sequence) in
      let fits = room_first p sequence (length os) k in
      accepts_first c k e o a ((counts p c sequence [] h).0) (
        omega (
          arith,
          nothing,
          fits,
          enough,
          same_header h.parameters,
          same_address h.parameters,
          same_limit h.parameters,
        ))
  accepts p (x ∷ held) o os a all can h enough =
      let (n, in_sequence) = counts p c sequence (x ∷ held) h in
      let more = length-append (x ∷ held) (o ∷ os) in
      let type_id : a.type_id ≡ c.type_id = h.type_id (omega arith) in
      let many : is_single_information_object_type a.type_id ≡ false =
        elim (Bool-cases (is_single_information_object_type a.type_id)) [
          | inl one ↦ absurd (
              omega (
                arith,
                can.single (sym (ap is_single_information_object_type type_id) ∙ one),
                more,
              ))
          | inr several ↦ several
        ] in
      let fits =
        room_next p c is sequence x held (length ((x ∷ held) ++ (o ∷ os))) k all
          (omega (arith, more)) le in
      let there : get_first_ioa a.parameters a.payload ≡ x.object_address =
        cc (h.payload, h.parameters, get_first_ioa-laid_out p c sequence x held all.0) in
      let position : sequence ≡ true
          → o.object_address ≡ get_first_ioa a.parameters a.payload + number_of_elements a =
        λ t. omega (arith, position_of p c sequence x held o os can.order t, there, n) in
      let fits_here : length a.payload
            + header_length a.parameters
            + (if is_sequence a then k else a.parameters.size_of_ioa + k)
          ≤ a.parameters.max_size_of_asdu =
        omega (
          arith,
          ap length h.payload,
          fits,
          enough,
          same_header h.parameters,
          same_address h.parameters,
          same_limit h.parameters,
          ap (λ t. if t then k else a.parameters.size_of_ioa + k) in_sequence,
          ap (λ n. if sequence then k else n + k) (same_address h.parameters),
        ) in
      accepts_next c k e o a (omega (arith, n)) (omega (arith, n, can.few, more)) many
        (omega (arith, type_id)) (λ i. position (sym in_sequence ∙ i)) fits_here

  pub accepts_all :
      (p : AppLayerParameters) (held os : List (InformationObject c)) (a : AsduBuffer)
      → AllObjects p c held
      → IsAddable p c sequence (held ++ os)
      → Holds p c sequence held a
      → room p sequence (length (held ++ os)) k ≤ p.max_size_of_asdu
      → (b : AsduBuffer) × (add_all c os a ≡ some b)
  unfolding add_all
  accepts_all p held [] a all can h enough = (a, refl)
  accepts_all p held (o ∷ os) a all can h enough =
      let added = accepts p held o os a all can h enough in
      let regrouped = append_assoc held (o ∷ []) os in
      let rest =
        accepts_all p (held ++ (o ∷ [])) os (add_information_object c o a).1
          (AllObjects-append p c sequence byte held o all (AllObjects-middle p c held o os can.all))
          (subst (IsAddable p c sequence) (sym regrouped) can)
          (Holds-add p c sequence byte held o all h added)
          (subst (λ l. room p sequence (length l) k ≤ p.max_size_of_asdu) (sym regrouped) enough) in
      (rest.0, ground (arith, added, rest.1))

  -- Objects of one type that an ASDU can have, and for which the encode function is asked for enough room in
  -- all, are accepted by an empty ASDU one after another; what it then has at each index is the object that
  -- was added there, with its address and its value, and nothing behind the last.
  pub add_all-get_element :
      (os : List (InformationObject c)) (a : AsduBuffer)
      → Agrees c.layout (is_single_information_object_type c.type_id) sequence
      → IsEmpty sequence a
      → IsAddable a.parameters c sequence os
      → room a.parameters sequence (length os) k ≤ a.parameters.max_size_of_asdu
      → (b : AsduBuffer) × (add_all c os a ≡ some b)
        × ((i : ℕ) → get_element c b i ≡ get_elem? os i)
  add_all-get_element os a agrees empty can enough =
      let (b, added) =
        accepts_all a.parameters [] os a tt can (Holds-empty c is sequence a empty) enough in
      (b, added, λ i. get_element-add_all c is sequence os a b i byte agrees empty can.all added)
