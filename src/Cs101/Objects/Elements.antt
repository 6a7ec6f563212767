-- ===== src/Cs101/Objects/Elements.antt =====
-- Objects that stand one after another in the payload of an ASDU.
use lib.Prelude.{
  ℕ, ◌+◌, ◌≡◌, ap, subst, ◌∙◌, Bool, true, false, some, List, [], ◌∷◌, ◌++◌, append_assoc, length,
  length-append, drop, drop-append, arith,
}
use lib.Cs101.Asdu.{AppLayerParameters}
use lib.Cs101.Objects.{
  Codec, InformationObject, IsLawful, encode_base, parse_object_address, get_from_buffer,
}
use lib.Cs101.Objects.Address.{IsAddress, length-encode_base, parse-encode_base}

module _ (p : AppLayerParameters) (c : Codec) where
  -- An object whose fields have values of their types.
  abbrev pub IsObject : InformationObject c → Type 0
  IsObject o = IsAddress p o.object_address × c.Fits o.value

  abbrev pub AllObjects : List (InformationObject c) → Type 0
  AllObjects [] = Unit {0}
  AllObjects (o ∷ os) = IsObject o × AllObjects os

  abbrev pub values : List (InformationObject c) → List ℕ
  values [] = []
  values (o ∷ os) = c.bytes o.value ++ values os

  -- Each object with its address, or the address of the first and the values of all.
  abbrev pub addressed : List (InformationObject c) → List ℕ
  addressed [] = []
  addressed (o ∷ os) = encode_base p false o.object_address ++ (c.bytes o.value ++ addressed os)

  abbrev pub laid_out : Bool → List (InformationObject c) → List ℕ
  laid_out false os = addressed os
  laid_out true [] = []
  laid_out true (o ∷ os) = encode_base p false o.object_address ++ values (o ∷ os)

  abbrev pub Consecutive : ℕ → List (InformationObject c) → Type 0
  Consecutive address [] = Unit {0}
  Consecutive address (o ∷ os) = (o.object_address ≡ address) × Consecutive (address + 1) os

  -- In a sequence every address follows from the first.
  abbrev pub InOrder : Bool → List (InformationObject c) → Type 0
  InOrder false os = Unit {0}
  InOrder true [] = Unit {0}
  InOrder true (o ∷ os) = Consecutive o.object_address (o ∷ os)

  module _ (lawful : IsLawful c) where
    read_tail :
        (o : InformationObject c) (pre post : List ℕ) (at : ℕ)
        → IsObject o
        → length pre ≡ at
        → c.value (drop at (pre ++ (c.bytes o.value ++ post))) ≡ o.value
    read_tail o pre post at is e =
        let behind : drop at (pre ++ (c.bytes o.value ++ post)) ≡ c.bytes o.value ++ post =
          subst (λ n. drop n (pre ++ (c.bytes o.value ++ post)) ≡ c.bytes o.value ++ post) e
            (drop-append pre (c.bytes o.value ++ post)) in
        ap c.value behind ∙ lawful.value-bytes o.value post is.1

    pub read_value :
        (o : InformationObject c) (pre post : List ℕ) (start : ℕ)
        → IsObject o
        → length pre ≡ start
        → get_from_buffer c p (pre ++ (c.bytes o.value ++ post)) start true o.object_address
          ≡ some o
    unfolding get_from_buffer
    read_value o pre post start is e =
        let size : length (pre ++ (c.bytes o.value ++ post))
            ≡ start + (c.element_size + length post) =
          omega (
            arith,
            length-append pre (c.bytes o.value ++ post),
            length-append (c.bytes o.value) post,
            lawful.length-bytes o.value,
            e,
          ) in
        ground (arith, read_tail o pre post start is e, size)

    pub read_addressed :
        (o : InformationObject c) (pre post : List ℕ) (start address : ℕ)
        → IsObject o
        → length pre ≡ start
        → get_from_buffer c p
            (pre ++ (encode_base p false o.object_address ++ (c.bytes o.value ++ post)))
            start
            false
            address
          ≡ some o
    unfolding get_from_buffer
    read_addressed o pre post start address is e =
        let base = encode_base p false o.object_address in
        let rest = c.bytes o.value ++ post in
        let base_size : length base ≡ p.size_of_ioa = length-encode_base p o.object_address is.0 in
        let size : length (pre ++ (base ++ rest))
            ≡ start + (p.size_of_ioa + (c.element_size + length post)) =
          omega (
            arith,
            length-append pre (base ++ rest),
            length-append base rest,
            length-append (c.bytes o.value) post,
            lawful.length-bytes o.value,
            e,
            base_size,
          ) in
        let located : parse_object_address p (pre ++ (base ++ rest)) start ≡ o.object_address =
          subst (λ n. parse_object_address p (pre ++ (base ++ rest)) n ≡ o.object_address) e
            (parse-encode_base p o.object_address pre rest is.0) in
        let before : length (pre ++ base) ≡ start + p.size_of_ioa =
          omega (arith, length-append pre base, e, base_size) in
        let behind : c.value (drop (start + p.size_of_ioa) (pre ++ (base ++ rest))) ≡ o.value =
          subst (λ l. c.value (drop (start + p.size_of_ioa) l) ≡ o.value)
            (append_assoc pre base rest)
            (read_tail o (pre ++ base) post (start + p.size_of_ioa) is before) in
        ground (arith, located, behind, size)
