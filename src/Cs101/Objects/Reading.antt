-- ===== src/Cs101/Objects/Reading.antt =====
-- Reading an object out of a payload in which objects stand one after another.
use lib.Prelude.{
  ℕ, zero, suc, ◌+◌, ◌*◌, ◌≤◌, ◌<◌, ◌≡◌, refl, sym, ap, subst, ◌∙◌, Bool, true, false, none, some,
  List, [], ◌∷◌, ◌++◌, append_assoc, length, length-append, get_elem?, arith,
}
use lib.Cs101.Asdu.{AppLayerParameters}
use lib.Cs101.Objects.{
  Codec, InformationObject, IsLawful, encode_base, parse_object_address, get_first_ioa,
  get_from_buffer,
}
use lib.Cs101.Objects.Address.{length-encode_base, parse-encode_base}
use lib.Cs101.Objects.Elements.{
  IsObject, AllObjects, values, addressed, laid_out, Consecutive, InOrder, read_value,
  read_addressed,
}

pub get_elem?-lt-length {ℓ} :
    {A : Type ℓ} (xs : List A) (i : ℕ) → i < length xs → (x : A) × (get_elem? xs i ≡ some x)
get_elem?-lt-length [] i h = absurd (omega arith)
get_elem?-lt-length (x ∷ xs) zero h = (x, refl)
get_elem?-lt-length (x ∷ xs) (suc i) h = get_elem?-lt-length xs i (omega arith)

pub get_elem?-ge-length {ℓ} :
    {A : Type ℓ} (xs : List A) (i : ℕ) → length xs ≤ i → get_elem? xs i ≡ none
get_elem?-ge-length [] i h = refl
get_elem?-ge-length (x ∷ xs) zero h = absurd (omega arith)
get_elem?-ge-length (x ∷ xs) (suc i) h = get_elem?-ge-length xs i (omega arith)

module _ (p : AppLayerParameters) (c : Codec) where
  -- What stands before and behind an object's octets, and how long the former is.
  abbrev SplitsAt : List ℕ → List ℕ → ℕ → Type 0
  SplitsAt payload octets n =
      (pre : List ℕ) × (post : List ℕ) × (payload ≡ pre ++ (octets ++ post)) × (length pre ≡ n)

  SplitsAt-behind :
      (octets rest x : List ℕ) (m n : ℕ)
      → length octets ≡ m
      → SplitsAt rest x n
      → SplitsAt (octets ++ rest) x (m + n)
  SplitsAt-behind octets rest x m n e (pre, post, split, at) = (
    octets ++ pre,
    post,
    ap (λ l. octets ++ l) split ∙ sym (append_assoc octets pre (x ++ post)),
    omega (arith, length-append octets pre, e, at),
  )

  AllObjects-get_elem? :
      (os : List (InformationObject c)) (i : ℕ) (o : InformationObject c)
      → AllObjects p c os
      → get_elem? os i ≡ some o
      → IsObject p c o
  AllObjects-get_elem? [] i o all e = absurd (cc)
  AllObjects-get_elem? (x ∷ os) zero o all e =
      let same : x ≡ o = cc in subst (IsObject p c) same all.0
  AllObjects-get_elem? (x ∷ os) (suc i) o all e = AllObjects-get_elem? os i o all.1 e

  pub Consecutive-get_elem? :
      (os : List (InformationObject c)) (i address : ℕ) (o : InformationObject c)
      → Consecutive p c address os
      → get_elem? os i ≡ some o
      → o.object_address ≡ address + i
  Consecutive-get_elem? [] i address o all e = absurd (cc)
  Consecutive-get_elem? (x ∷ os) zero address o all e =
      let same : x ≡ o = cc in omega (arith, ap (λ y. y.object_address) same, all.0)
  Consecutive-get_elem? (x ∷ os) (suc i) address o all e =
      omega (arith, Consecutive-get_elem? os i (address + 1) o all.1 e)

  pub parse-laid_out :
      (sequence : Bool) (o : InformationObject c) (os : List (InformationObject c))
      → IsObject p c o
      → parse_object_address p (laid_out p c sequence (o ∷ os)) 0 ≡ o.object_address
  parse-laid_out false o os is =
      parse-encode_base p o.object_address [] (c.bytes o.value ++ addressed p c os) is.0
  parse-laid_out true o os is = parse-encode_base p o.object_address [] (values p c (o ∷ os)) is.0

  address_fits :
      (sequence : Bool) (o : InformationObject c) (os : List (InformationObject c))
      → IsObject p c o
      → p.size_of_ioa ≤ length (laid_out p c sequence (o ∷ os))
  address_fits false o os is = omega (
    arith,
    length-append (encode_base p false o.object_address) (c.bytes o.value ++ addressed p c os),
    length-encode_base p o.object_address is.0,
  )
  address_fits true o os is = omega (
    arith,
    length-append (encode_base p false o.object_address) (values p c (o ∷ os)),
    length-encode_base p o.object_address is.0,
  )

  -- The checks of the size make no difference where the address is there.
  get_first_ioa-parse :
      (payload : List ℕ)
      → p.size_of_ioa ≤ length payload
      → get_first_ioa p payload ≡ parse_object_address p payload 0
  unfolding get_first_ioa parse_object_address
  get_first_ioa-parse [] h = ground arith
  get_first_ioa-parse (x ∷ xs) h = ground arith

  pub get_first_ioa-laid_out :
      (sequence : Bool) (o : InformationObject c) (os : List (InformationObject c))
      → IsObject p c o
      → get_first_ioa p (laid_out p c sequence (o ∷ os)) ≡ o.object_address
  get_first_ioa-laid_out sequence o os is =
      get_first_ioa-parse (laid_out p c sequence (o ∷ os)) (address_fits sequence o os is)
      ∙ parse-laid_out sequence o os is

  module _ (lawful : IsLawful c) where
    values_split :
        (os : List (InformationObject c)) (i : ℕ) (o : InformationObject c)
        → get_elem? os i ≡ some o
        → SplitsAt (values p c os) (c.bytes o.value) (i * c.element_size)
    values_split [] i o e = absurd (cc)
    values_split (x ∷ os) zero o e =
        let same : x ≡ o = cc in
        ([], values p c os, ap (λ y. c.bytes y.value ++ values p c os) same, omega arith)
    values_split (x ∷ os) (suc i) o e =
        let n : c.element_size + i * c.element_size ≡ suc i * c.element_size = grind arith in
        subst (SplitsAt (values p c (x ∷ os)) (c.bytes o.value)) n (
          SplitsAt-behind (c.bytes x.value) (values p c os) (c.bytes o.value) c.element_size
            (i * c.element_size) (lawful.length-bytes x.value) (values_split os i o e))

    abbrev octets : InformationObject c → List ℕ
    octets o = encode_base p false o.object_address ++ c.bytes o.value

    addressed_split :
        (os : List (InformationObject c)) (i : ℕ) (o : InformationObject c)
        → AllObjects p c os
        → get_elem? os i ≡ some o
        → SplitsAt (addressed p c os) (octets o) (i * (p.size_of_ioa + c.element_size))
    addressed_split [] i o all e = absurd (cc)
    addressed_split (x ∷ os) zero o all e =
        let same : x ≡ o = cc in
        (
          [],
          addressed p c os,
          ap (λ y. encode_base p false y.object_address ++ (c.bytes y.value ++ addressed p c os))
                same
              ∙ sym (
                  append_assoc (encode_base p false o.object_address) (c.bytes o.value)
                    (addressed p c os)),
          omega arith,
        )
    addressed_split (x ∷ os) (suc i) o all e =
        let size = p.size_of_ioa + c.element_size in
        let n : size + i * size ≡ suc i * size = grind arith in
        let long : length (octets x) ≡ size = omega (
          arith,
          length-append (encode_base p false x.object_address) (c.bytes x.value),
          length-encode_base p x.object_address all.0.0,
          lawful.length-bytes x.value,
        ) in
        subst (SplitsAt (addressed p c (x ∷ os)) (octets o)) n (
          subst (λ l. SplitsAt l (octets o) (size + i * size))
            (append_assoc (encode_base p false x.object_address) (c.bytes x.value)
              (addressed p c os))
            (SplitsAt-behind (octets x) (addressed p c os) (octets o) size (i * size) long
              (addressed_split os i o all.1 e)))

    pub read_at_address :
        (os : List (InformationObject c)) (i address : ℕ) (o : InformationObject c)
        → AllObjects p c os
        → get_elem? os i ≡ some o
        → get_from_buffer c p
            (addressed p c os)
            (i * (p.size_of_ioa + c.element_size))
            false
            address
          ≡ some o
    read_at_address os i address o all e =
        let (pre, post, split, at) = addressed_split os i o all e in
        let whole : addressed p c os
            ≡ pre ++ (encode_base p false o.object_address ++ (c.bytes o.value ++ post)) =
          split
          ∙ ap (λ l. pre ++ l)
              (append_assoc (encode_base p false o.object_address) (c.bytes o.value) post) in
        ap (λ l. get_from_buffer c p l (i * (p.size_of_ioa + c.element_size)) false address) whole
        ∙ read_addressed p c lawful o pre post _ address (AllObjects-get_elem? os i o all e) at

    pub read_in_sequence :
        (os : List (InformationObject c)) (i : ℕ) (o : InformationObject c)
        → AllObjects p c os
        → InOrder p c true os
        → get_elem? os i ≡ some o
        → get_from_buffer c p
            (laid_out p c true os)
            (p.size_of_ioa + i * c.element_size)
            true
            (parse_object_address p (laid_out p c true os) 0 + i)
          ≡ some o
    read_in_sequence [] i o all order e = absurd (cc)
    read_in_sequence (x ∷ os) i o all order e =
        let base = encode_base p false x.object_address in
        let (pre, post, split, at) =
          SplitsAt-behind base (values p c (x ∷ os)) (c.bytes o.value) p.size_of_ioa
            (i * c.element_size) (length-encode_base p x.object_address all.0.0)
            (values_split (x ∷ os) i o e) in
        let address : parse_object_address p (laid_out p c true (x ∷ os)) 0 + i ≡ o.object_address =
          omega (
            arith,
            parse-laid_out true x os all.0,
            Consecutive-get_elem? (x ∷ os) i x.object_address o order e,
          ) in
        let start = p.size_of_ioa + i * c.element_size in
        ap (λ n. get_from_buffer c p (laid_out p c true (x ∷ os)) start true n) address
        ∙ ap (λ l. get_from_buffer c p l start true o.object_address) split
        ∙ read_value p c lawful o pre post start (AllObjects-get_elem? (x ∷ os) i o all e) at
