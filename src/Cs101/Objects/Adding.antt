-- ===== src/Cs101/Objects/Adding.antt =====
-- Objects added to an ASDU: what the ASDU holds after each of them.
use lib.Prelude.{
  ℕ, ◌+◌, ◌≤◌, ◌<◌, ◌≡◌, sym, ap, subst, ◌∙◌, Bool, true, false, Option, none, some, List, [], ◌∷◌,
  ◌++◌, append_assoc, append-nil, length, length-append, if◌then◌else◌, arith,
}
use lib.Prelude.Bytes.{u8, bit_and-0x7f, bit_and-0x80}
use lib.Cs101.Asdu.{AppLayerParameters}
use lib.Cs101.Objects.{
  Codec, InformationObject, AsduBuffer, encode_base, get_first_ioa, is_sequence, number_of_elements,
  is_single_information_object_type, encode, counted, add_information_object,
}
use lib.Cs101.Objects.Elements.{IsObject, AllObjects, laid_out, InOrder}
use lib.Cs101.Objects.Reading.{get_first_ioa-laid_out}
use lib.Cs101.Objects.Appending.{laid_out-append, laid_out_one, InOrder-one, InOrder-append}

-- Adding objects one after another, as long as each is accepted.
unfoldable pub add_all : (c : Codec) → List (InformationObject c) → AsduBuffer → Option AsduBuffer
add_all c [] a = some a
add_all c (o ∷ os) a =
    let r = add_information_object c o a in
    let rest = add_all c os r.1 in if r.0 then rest else none

abbrev pub sequence_bit : Bool → ℕ
sequence_bit sequence = if sequence then 128 else 0

-- The ASDU holds these objects.
pub record Holds (p : AppLayerParameters) (c : Codec) (sequence : Bool)
    (os : List (InformationObject c)) (a : AsduBuffer) : Type 0 where
  pub parameters : a.parameters ≡ p
  pub vsq : a.vsq ≡ sequence_bit sequence + length os
  pub few : length os ≤ 127
  pub type_id : 0 < length os → a.type_id ≡ c.type_id
  pub payload : a.payload ≡ laid_out p c sequence os
  pub order : InOrder p c sequence os
  pub single : is_single_information_object_type c.type_id ≡ true → length os ≤ 1

module _ (p : AppLayerParameters) (c : Codec) where
  -- What an accepted object leaves: its octets behind the others, and one more counted.
  abbrev pub with_object : Bool → InformationObject c → AsduBuffer → AsduBuffer
  with_object sequence o a = record a {
    payload = a.payload ++ (encode_base a.parameters sequence o.object_address ++ c.bytes o.value);
    vsq = u8 (a.vsq + 1);
  }

  encode_accepted :
      (sequence : Bool) (o : InformationObject c) (a : AsduBuffer)
      → (counted c (encode c sequence o a)).0 ≡ true
      → (counted c (encode c sequence o a)).1 ≡ with_object sequence o a
  unfolding encode
  encode_accepted sequence o a h = ground arith

  pub add_first :
      (o : InformationObject c) (a : AsduBuffer)
      → number_of_elements a ≡ 0
      → (add_information_object c o a).0 ≡ true
      → (add_information_object c o a).1 ≡ with_object false o (record a { type_id = u8 c.type_id })
  unfolding add_information_object
  add_first o a e h = ground (arith, encode_accepted false o (record a { type_id = u8 c.type_id }))

  -- Behind others an object is accepted only of the same type, in order, and not if there is to be one.
  pub add_next :
      (o : InformationObject c) (a : AsduBuffer)
      → 0 < number_of_elements a
      → (add_information_object c o a).0 ≡ true
      → ((add_information_object c o a).1 ≡ with_object (is_sequence a) o a)
        × (is_single_information_object_type a.type_id ≡ false)
        × (number_of_elements a < 127)
        × (a.type_id ≡ u8 c.type_id)
        × (is_sequence a ≡ true
            → o.object_address ≡ get_first_ioa a.parameters a.payload + number_of_elements a)
  unfolding add_information_object
  add_next o a lt h = ground (arith, encode_accepted false o a, encode_accepted true o a)

  module _ (sequence : Bool) {a : AsduBuffer} where
    pub counts :
        (os : List (InformationObject c))
        → Holds p c sequence os a
        → (number_of_elements a ≡ length os) × (is_sequence a ≡ sequence)
    counts os h = ground (arith, h.vsq, h.few, bit_and-0x7f a.vsq, bit_and-0x80 a.vsq)

    Holds-first :
        (o : InformationObject c)
        → c.type_id < 256
        → Holds p c sequence [] a
        → (add_information_object c o a).0 ≡ true
        → Holds p c sequence (o ∷ []) (add_information_object c o a).1
    Holds-first o byte h added =
        let after = add_first o a (counts [] h).0 added in
        let empty : a.payload ≡ [] = ground (arith, h.payload) in
        let laid : laid_out p c sequence (o ∷ [])
            ≡ a.payload ++ (encode_base a.parameters false o.object_address ++ c.bytes o.value) =
          ground (arith, laid_out_one p c sequence o, h.parameters, empty) in
        subst (Holds p c sequence (o ∷ [])) (sym after) (record {
          parameters = h.parameters;
          vsq = ground (arith, h.vsq);
          few = omega arith;
          type_id = λ _. omega arith;
          payload = sym laid;
          order = InOrder-one p c sequence o;
          single = λ _. omega arith;
        })

    Holds-next :
        (x : InformationObject c) (os : List (InformationObject c)) (o : InformationObject c)
        → c.type_id < 256
        → IsObject p c x
        → Holds p c sequence (x ∷ os) a
        → (add_information_object c o a).0 ≡ true
        → Holds p c sequence ((x ∷ os) ++ (o ∷ [])) (add_information_object c o a).1
    Holds-next x os o byte is h added =
        let (after, several, few, type_id, follows) =
          add_next o a (omega (arith, (counts (x ∷ os) h).0)) added in
        let more = length-append os (o ∷ []) in
        let same : u8 c.type_id ≡ c.type_id = omega arith in
        let laid : laid_out p c sequence ((x ∷ os) ++ (o ∷ []))
            ≡ a.payload
              ++ (encode_base a.parameters (is_sequence a) o.object_address ++ c.bytes o.value) =
          laid_out-append p c sequence x os o
          ∙ cc (h.payload, h.parameters, (counts (x ∷ os) h).1) in
        let held : get_first_ioa a.parameters a.payload ≡ x.object_address =
          cc (h.payload, h.parameters, get_first_ioa-laid_out p c sequence x os is) in
        let position = λ (e : sequence ≡ true).
          let address = follows ((counts (x ∷ os) h).1 ∙ e) in
          let there : o.object_address ≡ x.object_address + length (x ∷ os) =
            omega (arith, address, held, (counts (x ∷ os) h).0) in
          there in
        subst (Holds p c sequence ((x ∷ os) ++ (o ∷ []))) (sym after) (record {
          parameters = h.parameters;
          vsq = ground (arith, h.vsq, (counts (x ∷ os) h).0, more);
          few = omega (arith, (counts (x ∷ os) h).0, more);
          type_id = λ _. type_id ∙ same;
          payload = sym laid;
          order = InOrder-append p c sequence x os o h.order position;
          single =
              λ e. absurd (cc (several, ap is_single_information_object_type (type_id ∙ same)));
        })

  module _ (sequence : Bool) (byte : c.type_id < 256) where
    pub Holds-add :
        (held : List (InformationObject c)) (o : InformationObject c) {a : AsduBuffer}
        → AllObjects p c held
        → Holds p c sequence held a
        → (add_information_object c o a).0 ≡ true
        → Holds p c sequence (held ++ (o ∷ [])) (add_information_object c o a).1
    Holds-add [] o all h added = Holds-first sequence o byte h added
    Holds-add (x ∷ held) o all h added = Holds-next sequence x held o byte all.0 h added

    pub AllObjects-append :
        (held : List (InformationObject c)) (o : InformationObject c)
        → AllObjects p c held
        → IsObject p c o
        → AllObjects p c (held ++ (o ∷ []))
    AllObjects-append [] o all is = (is, tt)
    AllObjects-append (x ∷ held) o all is = (all.0, AllObjects-append held o all.1 is)

    pub add_all-cons :
        (o : InformationObject c) (os : List (InformationObject c)) (a : AsduBuffer)
        {b : AsduBuffer}
        → add_all c (o ∷ os) a ≡ some b
        → ((add_information_object c o a).0 ≡ true)
          × (add_all c os (add_information_object c o a).1 ≡ some b)
    unfolding add_all
    add_all-cons o os a e = ground arith

    pub Holds-add_all :
        {b : AsduBuffer} (held os : List (InformationObject c)) (a : AsduBuffer)
        → AllObjects p c held
        → AllObjects p c os
        → Holds p c sequence held a
        → add_all c os a ≡ some b
        → Holds p c sequence (held ++ os) b
    unfolding add_all
    Holds-add_all {b} held [] a all new h e =
        let same : a ≡ b = cc in
        subst (Holds p c sequence (held ++ [])) same
          (subst (λ l. Holds p c sequence l a) (sym (append-nil held)) h)
    Holds-add_all {b} held (o ∷ os) a all new h e =
        let (added, rest) = add_all-cons o os a e in
        subst (λ l. Holds p c sequence l b) (append_assoc held (o ∷ []) os)
          (Holds-add_all (held ++ (o ∷ [])) os (add_information_object c o a).1
            (AllObjects-append held o all new.0) new.1 (Holds-add held o all h added) rest)
