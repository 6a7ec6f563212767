-- ===== src/Cs101/Objects/Roundtrip.antt =====
-- What an ASDU gives back after objects were added to it.
use lib.Prelude.{
  ℕ, ◌+◌, ◌*◌, ◌≤◌, ◌<◌, ◌≡◌, ◌⊎◌, inl, inr, refl, sym, ap, ◌∙◌, Bool, true, false, none, some,
  List, [], ◌∷◌, length, get_elem?, dec_lt, arith,
}
use lib.Cs101.Asdu.{AppLayerParameters}
use lib.Cs101.Objects.{
  Layout, by_sequence, with_address, at_start, Codec, InformationObject, IsLawful, AsduBuffer,
  is_sequence, number_of_elements, is_single_information_object_type, get_from_buffer, get_element,
  element_start, parse_object_address,
}
use lib.Cs101.Objects.Elements.{AllObjects, addressed, laid_out, InOrder}
use lib.Cs101.Objects.Reading.{
  get_elem?-lt-length, get_elem?-ge-length, read_at_address, read_in_sequence,
}
use lib.Cs101.Objects.Adding.{Holds, add_all, sequence_bit, counts, Holds-add_all}

-- The types for which adding and reading agree on where an object stands.
abbrev pub Agrees : Layout → Bool → Bool → Type 0
Agrees by_sequence single sequence = single ≡ false
Agrees with_address single sequence = (single ≡ true) ⊎ (sequence ≡ false)
Agrees at_start single sequence = single ≡ true

-- An ASDU with no objects yet.
pub record IsEmpty (sequence : Bool) (a : AsduBuffer) : Type 0 where
  pub vsq : a.vsq ≡ sequence_bit sequence
  pub payload : a.payload ≡ []

-- A single object stands in a sequence as it stands alone.
laid_out_few :
    (p : AppLayerParameters) (c : Codec) (sequence : Bool) (os : List (InformationObject c))
    → (sequence ≡ false) ⊎ (length os ≤ 1)
    → laid_out p c sequence os ≡ addressed p c os
laid_out_few p c false os h = refl
laid_out_few p c true [] h = refl
laid_out_few p c true (o ∷ []) h = refl
laid_out_few p c true (o ∷ o' ∷ os) (inl h) = absurd (cc)
laid_out_few p c true (o ∷ o' ∷ os) (inr h) = absurd (omega arith)

module _ (c : Codec) (lawful : IsLawful c) where
  module _ (p : AppLayerParameters) (sequence : Bool) (os : List (InformationObject c))
      (i address : ℕ) (o : InformationObject c) where
    read_apart :
        AllObjects p c os
        → get_elem? os i ≡ some o
        → (sequence ≡ false) ⊎ (length os ≤ 1)
        → (start : ℕ) → start ≡ i * (p.size_of_ioa + c.element_size)
        → get_from_buffer c p (laid_out p c sequence os) start false address ≡ some o
    read_apart all e few start at =
        ap (λ l. get_from_buffer c p l start false address) (laid_out_few p c sequence os few)
        ∙ ap (λ n. get_from_buffer c p (addressed p c os) n false address) at
        ∙ read_at_address p c lawful os i address o all e

  read_held :
      (p : AppLayerParameters) (layout : Layout) (sequence : Bool) (os : List (InformationObject c))
      (i address : ℕ) (o : InformationObject c)
      → Agrees layout (is_single_information_object_type c.type_id) sequence
      → (is_single_information_object_type c.type_id ≡ true → length os ≤ 1)
      → AllObjects p c os
      → InOrder p c sequence os
      → i < length os
      → get_elem? os i ≡ some o
      → address ≡ parse_object_address p (laid_out p c sequence os) 0 + i
      → (let at = element_start layout sequence p.size_of_ioa c.element_size i in
          get_from_buffer c p (laid_out p c sequence os) at.0 at.1 address)
        ≡ some o
  read_held p by_sequence false os i address o agrees single all order lt e there =
      read_apart p false os i address o all e (inl refl) (i * (p.size_of_ioa + c.element_size)) refl
  read_held p by_sequence true os i address o agrees single all order lt e there =
      ap
        (λ n.
          get_from_buffer c p (laid_out p c true os) (p.size_of_ioa + i * c.element_size) true n)
        there
      ∙ read_in_sequence p c lawful os i o all order e
  read_held p with_address sequence os i address o (inl one) single all order lt e there =
      read_apart p sequence os i address o all e (inr (single one))
        (i * (p.size_of_ioa + c.element_size)) refl
  read_held p with_address sequence os i address o (inr apart) single all order lt e there =
      read_apart p sequence os i address o all e (inl apart) (i * (p.size_of_ioa + c.element_size))
        refl
  read_held p at_start sequence os i address o agrees single all order lt e there =
      let first : i ≡ 0 = omega (arith, single agrees) in
      let start : 0 ≡ i * (p.size_of_ioa + c.element_size) =
        sym (ap (λ n. n * (p.size_of_ioa + c.element_size)) first ∙ omega arith) in
      read_apart p sequence os i address o all e (inr (single agrees)) 0 start

  pub get_element_at :
      (b : AsduBuffer) (i : ℕ)
      → i < number_of_elements b
      → (is_single_information_object_type b.type_id ≡ true → i ≡ 0)
      → get_element c b i ≡ (
          let at =
            element_start c.layout (is_sequence b) b.parameters.size_of_ioa c.element_size i in
          get_from_buffer c b.parameters b.payload at.0 at.1
            (parse_object_address b.parameters b.payload 0 + i))
  unfolding get_element
  get_element_at b i lt one = ground arith

  get_element_behind :
      (b : AsduBuffer) (i : ℕ) → number_of_elements b ≤ i → get_element c b i ≡ none
  unfolding get_element
  get_element_behind b i le = ground arith

  module _ (p : AppLayerParameters) (sequence : Bool) (os : List (InformationObject c))
      (b : AsduBuffer) (i : ℕ) where
    read_one :
        Agrees c.layout (is_single_information_object_type c.type_id) sequence
        → AllObjects p c os
        → Holds p c sequence os b
        → i < length os
        → get_element c b i ≡ get_elem? os i
    read_one agrees all h lt =
        let (n, is) = counts p c sequence os h in
        let (o, e) = get_elem?-lt-length os i lt in
        let type_id = h.type_id (omega arith) in
        let one = λ (s : is_single_information_object_type b.type_id ≡ true).
          let few = h.single (sym (ap is_single_information_object_type type_id) ∙ s) in
          let first : i ≡ 0 = omega arith in first in
        let found =
          read_held p c.layout sequence os i
            (parse_object_address p (laid_out p c sequence os) 0 + i) o agrees h.single all h.order
            lt e refl in
        get_element_at b i (omega (arith, n)) one ∙ cc (h.payload, h.parameters, is, found, e)

    read_all :
        Agrees c.layout (is_single_information_object_type c.type_id) sequence
        → AllObjects p c os
        → Holds p c sequence os b
        → get_element c b i ≡ get_elem? os i
    read_all agrees all h = elim (dec_lt i (length os)) [
      | yes lt ↦ read_one agrees all h lt
      | no ge ↦
          let le : length os ≤ i = omega arith in
          get_element_behind b i (omega (arith, (counts p c sequence os h).0))
          ∙ sym (get_elem?-ge-length os i le)
    ]

  pub laid_out_none : (p : AppLayerParameters) (sequence : Bool) → laid_out p c sequence [] ≡ []
  laid_out_none p false = refl
  laid_out_none p true = refl

  InOrder-none : (p : AppLayerParameters) (sequence : Bool) → InOrder p c sequence []
  InOrder-none p false = tt
  InOrder-none p true = tt

  pub Holds-empty :
      (sequence : Bool) (a : AsduBuffer) → IsEmpty sequence a → Holds a.parameters c sequence [] a
  Holds-empty sequence a h = record {
    parameters = refl;
    vsq = omega (arith, h.vsq);
    few = omega arith;
    type_id = λ lt. absurd (omega arith);
    payload = h.payload ∙ sym (laid_out_none a.parameters sequence);
    order = InOrder-none a.parameters sequence;
    single = λ _. omega arith;
  }

  -- Objects that were all added to an empty ASDU, each accepted, are what the ASDU has: at each index the
  -- object that was added there, with its address and its value, and nothing behind the last. It holds
  -- of every type that reads what it puts and whose position in the payload is found as `Agrees` says.
  pub get_element-add_all :
      (sequence : Bool) (os : List (InformationObject c)) (a b : AsduBuffer) (i : ℕ)
      → c.type_id < 256
      → Agrees c.layout (is_single_information_object_type c.type_id) sequence
      → IsEmpty sequence a
      → AllObjects a.parameters c os
      → add_all c os a ≡ some b
      → get_element c b i ≡ get_elem? os i
  get_element-add_all sequence os a b i byte agrees empty all added =
      read_all a.parameters sequence os b i agrees all (
        Holds-add_all a.parameters c sequence byte [] os a tt all (Holds-empty sequence a empty)
          added)
