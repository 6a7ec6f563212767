-- ===== src/Cs101/Objects/Received.antt =====
-- Elements of an ASDU that was received: the check of the size in `CS101_ASDU_createFromBufferEx` is
-- enough for every access of `CS101_ASDU_getElementEx`.
use lib.Prelude.{
  ℕ, zero, suc, ◌+◌, ◌-◌, ◌*◌, ◌≤◌, ◌<◌, ◌≡◌, inl, inr, ap, subst, ◌∙◌, Bool, true, false, some,
  List, [], ◌∷◌, length, get_or, take, drop, if◌then◌else◌, arith,
}
use lib.Cs101.Asdu.{
  AppLayerParameters, Asdu, create_from_buffer, get_element_data_size, payload_too_small,
  expected_min_payload, header_length,
}
use lib.Cs101.Objects.{
  Layout, by_sequence, with_address, at_start, Codec, InformationObject, AsduBuffer, is_sequence,
  number_of_elements, is_single_information_object_type, element_start, get_from_buffer,
  get_element, parse_object_address,
}
use lib.Cs101.Objects.Roundtrip.{Agrees, get_element_at}
use lib.Cs101.Objects.Table.{IsSound}

-- The ASDU of a message: its octets are those of the message.
abbrev pub received : Asdu → AsduBuffer
received a = record {
  parameters = a.parameters;
  type_id = get_or a.asdu 0 0;
  vsq = get_or a.asdu 1 0;
  header_rest = take (a.asdu_header_length - 2) (drop 2 a.asdu);
  payload = a.payload;
}

-- The index is one that the type can have.
abbrev pub IsIndex : AsduBuffer → ℕ → Type 0
IsIndex b i =
    (i < number_of_elements b) × (is_single_information_object_type b.type_id ≡ true → i ≡ 0)

module _ (c : Codec) where
  get_from_buffer_enough :
      (p : AppLayerParameters) (msg : List ℕ) (start : ℕ) (sequence : Bool) (address : ℕ)
      → start + c.element_size + (if sequence then 0 else p.size_of_ioa) ≤ length msg
      → (o : InformationObject c) × (get_from_buffer c p msg start sequence address ≡ some o)
  unfolding get_from_buffer
  get_from_buffer_enough p msg start true address h =
      (record { object_address = address; value = c.value (drop start msg) }, ground arith)
  get_from_buffer_enough p msg start false address h = (
    record {
      object_address = parse_object_address p msg start;
      value = c.value (drop (start + p.size_of_ioa) msg);
    },
    ground arith,
  )

le_mul : (i n x : ℕ) → i < n → i * x + x ≤ n * x
le_mul i n x lt = grind arith

first_start : (i x : ℕ) → i ≡ 0 → i * x ≡ 0
first_start i x e = ap (λ j. j * x) e ∙ omega arith

-- The least payload of `n` elements reaches to the end of each of them.
within :
    (p : AppLayerParameters) (layout : Layout) (single sequence : Bool) (size n i : ℕ)
    → Agrees layout single sequence
    → i < n
    → (single ≡ true → i ≡ 0)
    → (let at = element_start layout sequence p.size_of_ioa size i in
        at.0 + size + (if at.1 then 0 else p.size_of_ioa) ≤ expected_min_payload p sequence n size)
within p by_sequence single true size n i agrees lt one = omega (arith, le_mul i n size lt)
within p by_sequence single false size n i agrees lt one =
    omega (arith, le_mul i n (p.size_of_ioa + size) lt)
within p with_address single true size n i (inl e) lt one = omega (
  arith,
  first_start i (p.size_of_ioa + size) (one e),
  first_start i size (one e),
  le_mul i n size lt,
)
within p with_address single true size n i (inr e) lt one = absurd (cc)
within p with_address single false size n i agrees lt one =
    omega (arith, le_mul i n (p.size_of_ioa + size) lt)
within p at_start single true size n i agrees lt one = omega (arith, le_mul i n size lt)
within p at_start single false size n i agrees lt one =
    omega (arith, le_mul i n (p.size_of_ioa + size) lt)

length-drop : (n : ℕ) (xs : List ℕ) → length (drop n xs) ≡ length xs - n
length-drop zero xs = omega arith
length-drop (suc n) [] = omega arith
length-drop (suc n) (x ∷ xs) = omega (arith, length-drop n xs)

-- The ASDU that is made of a message.
abbrev pub whole : AppLayerParameters → List ℕ → Asdu
whole p msg = record {
  parameters = p;
  asdu = msg;
  asdu_header_length = header_length p;
  payload = drop (header_length p) msg;
  payload_size = length msg - header_length p;
}

module _ (p : AppLayerParameters) (msg : List ℕ) where
  abbrev b : AsduBuffer
  b = received (whole p msg)

  create_from_buffer-inv :
      (a : Asdu)
      → create_from_buffer p msg (length msg) ≡ some a
      → (whole p msg ≡ a)
        × (payload_too_small p
              (length msg - header_length p)
              (is_sequence b)
              (number_of_elements b)
              (get_element_data_size b.type_id)
            ≡ false)
  unfolding create_from_buffer
  create_from_buffer-inv a e = ground arith

  enough :
      (size : ℕ)
      → get_element_data_size b.type_id ≡ some size
      → payload_too_small p
          (length msg - header_length p)
          (is_sequence b)
          (number_of_elements b)
          (get_element_data_size b.type_id)
        ≡ false
      → 0 < number_of_elements b
      → expected_min_payload p (is_sequence b) (number_of_elements b) size ≤ length b.payload
  enough size known fits some_elements =
      let fits' : payload_too_small p (length msg - header_length p) (is_sequence b)
            (number_of_elements b) (some size)
          ≡ false =
        subst
          (λ s.
            payload_too_small p (length msg - header_length p) (is_sequence b)
              (number_of_elements b) s
            ≡ false)
          known fits in
      ground (arith, length-drop (header_length p) msg)

  read_element :
      (c : Codec) (i : ℕ)
      → IsSound c
      → payload_too_small p
          (length msg - header_length p)
          (is_sequence b)
          (number_of_elements b)
          (get_element_data_size b.type_id)
        ≡ false
      → b.type_id ≡ c.type_id
      → Agrees c.layout (is_single_information_object_type c.type_id) (is_sequence b)
      → IsIndex b i
      → (o : InformationObject c) × (get_element c b i ≡ some o)
  read_element c i is fits type_id agrees index =
      let single : is_single_information_object_type c.type_id ≡ true → i ≡ 0 =
        λ e. index.1 (ap is_single_information_object_type type_id ∙ e) in
      let known : get_element_data_size b.type_id ≡ some c.element_size =
        ap get_element_data_size type_id ∙ is.size in
      let room = enough c.element_size known fits (omega (arith, index.0)) in
      let reach =
        within p c.layout (is_single_information_object_type c.type_id) (is_sequence b)
          c.element_size (number_of_elements b) i agrees index.0 single in
      let at = element_start c.layout (is_sequence b) p.size_of_ioa c.element_size i in
      let (o, found) =
        get_from_buffer_enough c p b.payload at.0 at.1 (parse_object_address p b.payload 0 + i)
          (omega (arith, room, reach)) in
      (o, get_element_at c is.lawful b i index.0 index.1 ∙ found)

  -- In a message that is accepted, whose type identification is that of a sound type that is read where it
  -- is put, every element that the variable structure qualifier counts is read: the access is given an
  -- object, at index 0 only if the type is to be alone.
  pub get_element-received :
      (a : Asdu) (c : Codec) (i : ℕ)
      → IsSound c
      → create_from_buffer p msg (length msg) ≡ some a
      → (received a).type_id ≡ c.type_id
      → Agrees c.layout (is_single_information_object_type c.type_id) (is_sequence (received a))
      → IsIndex (received a) i
      → (o : InformationObject c) × (get_element c (received a) i ≡ some o)
  get_element-received a c i is e type_id agrees index =
      let (same, fits) = create_from_buffer-inv a e in
      subst
        (λ x.
          (received x).type_id ≡ c.type_id
          → Agrees c.layout (is_single_information_object_type c.type_id) (is_sequence (received x))
          → IsIndex (received x) i
          → (o : InformationObject c) × (get_element c (received x) i ≡ some o))
        same (read_element c i is fits) type_id agrees index
