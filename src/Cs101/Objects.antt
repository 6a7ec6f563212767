-- ===== src/Cs101/Objects.antt =====
-- Information objects: the base class of cs101_information_objects.c, and how cs101_asdu.c puts
-- objects into an ASDU and takes them out. What differs from type to type is an interface, that the
-- types in the children fill: a C struct without its address is a `Value`, `bytes` is what its
-- encode function puts behind the address, and `value` is what its getFromBuffer function reads
-- there.
pub mod Address
pub mod Elements
pub mod Reading
pub mod Appending
pub mod Adding
pub mod Roundtrip
pub mod Room
pub mod Accepting
pub mod Octets
pub mod SinglePoints
pub mod DoublePoints
pub mod StepPositions
pub mod Bitstrings
pub mod Normalized
pub mod Scaled
pub mod Short
pub mod Totals
pub mod Protection
pub mod Circuits
pub mod Commands
pub mod Setpoints
pub mod ShortSetpoints
pub mod System
pub mod Process
pub mod Files
pub mod Directories
pub mod Qualifiers
pub mod Table
pub mod Received
pub mod Wire
pub mod Limits
pub mod Tests
use lib.Prelude.{
  ℕ, ◌+◌, ◌-◌, ◌*◌, ◌/◌, ◌%◌, ◌≡◌, Bool, true, false, not, Option, none, some, List, [], ◌∷◌, ◌++◌,
  length, get_or, drop, ltb, leb, ◌==◌, ◌!=◌, ◌||◌, ◌&&◌, if◌then◌else◌, bit_and, bit_or,
}
use lib.Prelude.Bytes.{u8}
use lib.Cs101.Asdu.{AppLayerParameters, header_length}

-- How `CS101_ASDU_getElementEx` finds an object: by the SQ bit, always with its address, or always at
-- the start.
pub data Layout : Type 0 where
  by_sequence with_address at_start : Layout

pub record Codec : Type 1 where
  pub Value : Type 0
  pub type_id : ℕ
  -- The space that the encode function asks for: in a sequence or not, and for the size of addresses.
  pub required : Option (Bool → ℕ → ℕ)
  -- What the getFromBuffer function asks for behind the address, and `elementSize`.
  pub element_size : ℕ
  pub layout : Layout
  pub bytes : Value → List ℕ
  pub value : List ℕ → Value
  -- The values that the octets can hold.
  pub Fits : Value → Type 0

pub record InformationObject (c : Codec) : Type 0 where
  pub object_address : ℕ
  pub value : c.Value

-- A type puts as many bytes as it reads, and reads what it put, if that fits.
pub record IsLawful (c : Codec) : Type 0 where
  pub length-bytes : (v : c.Value) → length (c.bytes v) ≡ c.element_size
  pub value-bytes : (v : c.Value) (rest : List ℕ) → c.Fits v → c.value (c.bytes v ++ rest) ≡ v

-- `isSequence ? n : (parameters->sizeOfIOA + n)`
abbrev pub sized : ℕ → Option (Bool → ℕ → ℕ)
sized n = some (λ sequence size_of_ioa. if sequence then n else size_of_ioa + n)

-- `InformationObject_encodeBase`
unfoldable pub encode_base : AppLayerParameters → Bool → ℕ → List ℕ
encode_base p sequence address =
    let second = if ltb 1 p.size_of_ioa then u8 (address / 0x100) ∷ [] else [] in
    let third = if ltb 2 p.size_of_ioa then u8 (address / 0x10000) ∷ [] else [] in
    if sequence then [] else u8 address ∷ (second ++ third)

-- `InformationObject_parseObjectAddress`
unfoldable pub parse_object_address : AppLayerParameters → List ℕ → ℕ → ℕ
parse_object_address p msg start =
    let remaining = length msg - start in
    let first = get_or msg start 0 in
    let second = get_or msg (start + 1) 0 * 0x100 in
    let third = get_or msg (start + 2) 0 * 0x10000 in
    if leb (length msg) start
    then 0
    else if ltb 1 p.size_of_ioa && leb remaining 1
    then 0
    else if ltb 2 p.size_of_ioa && leb remaining 2
    then 0
    else first
      + (if ltb 1 p.size_of_ioa then second else 0)
      + (if ltb 2 p.size_of_ioa then third else 0)

-- `getFirstIOA`: the address of the first object in the payload
unfoldable pub get_first_ioa : AppLayerParameters → List ℕ → ℕ
get_first_ioa p payload =
    let second = get_or payload 1 0 * 0x100 in
    let third = get_or payload 2 0 * 0x10000 in
    get_or payload 0 0
    + (if ltb 1 p.size_of_ioa then second else 0)
    + (if ltb 2 p.size_of_ioa then third else 0)

-- `struct sCS101_ASDU`: the header, and the payload behind it.
pub record AsduBuffer : Type 0 where
  pub parameters : AppLayerParameters
  pub type_id : ℕ
  pub vsq : ℕ
  pub header_rest : List ℕ
  pub payload : List ℕ

abbrev pub is_sequence : AsduBuffer → Bool
is_sequence a = bit_and a.vsq 0x80 != 0

abbrev pub number_of_elements : AsduBuffer → ℕ
number_of_elements a = bit_and a.vsq 0x7f

-- `asduFrame_getSpaceLeft` is less than the space that is asked for.
abbrev pub no_space : AsduBuffer → ℕ → Bool
no_space a n = ltb a.parameters.max_size_of_asdu (length a.payload + header_length a.parameters + n)

-- The cases of `CS101_ASDU_isSingleInformationObjectType` that return true
abbrev pub single_types : List ℕ
single_types =
    45 ∷ 46 ∷ 47 ∷ 48 ∷ 49 ∷ 50 ∷ 51 ∷ 58 ∷ 59 ∷ 60 ∷ 61 ∷ 62 ∷ 63 ∷ 64 ∷ 70 ∷ 100 ∷ 101 ∷ 102 ∷ 103
    ∷ 104 ∷ 105 ∷ 106 ∷ 107 ∷ 120 ∷ 121 ∷ 122 ∷ 123 ∷ 124 ∷ 125 ∷ []

pub one_of : List ℕ → ℕ → Bool
one_of [] n = false
one_of (m ∷ ms) n = n == m || one_of ms n

-- `CS101_ASDU_isSingleInformationObjectType`
unfoldable pub is_single_information_object_type : ℕ → Bool
unfolding one_of
is_single_information_object_type type_id = one_of single_types type_id

-- Where the case of a layout in `CS101_ASDU_getElementEx` starts to read, and whether in a sequence.
abbrev pub element_start : Layout → Bool → ℕ → ℕ → ℕ → ℕ × Bool
element_start by_sequence true size_of_ioa size index = (size_of_ioa + index * size, true)
element_start by_sequence false size_of_ioa size index = (index * (size_of_ioa + size), false)
element_start with_address sequence size_of_ioa size index = (index * (size_of_ioa + size), false)
element_start at_start sequence size_of_ioa size index = (0, false)

module _ (c : Codec) where
  -- `InformationObject_encode`
  unfoldable pub encode : Bool → InformationObject c → AsduBuffer → Bool × AsduBuffer
  encode sequence o a =
      let put = record a {
        payload =
            a.payload ++ (encode_base a.parameters sequence o.object_address ++ c.bytes o.value);
      } in
      elim c.required [
        | none ↦ (true, put)
        | some required ↦
            if no_space a (required sequence a.parameters.size_of_ioa)
            then (false, a)
            else (true, put)
      ]

  -- `asdu[1]++` for an object that was encoded
  abbrev pub counted : Bool × AsduBuffer → Bool × AsduBuffer
  counted r = if r.0 then (true, record r.1 { vsq = u8 (r.1.vsq + 1) }) else r

  -- `CS101_ASDU_addInformationObject`
  unfoldable pub add_information_object : InformationObject c → AsduBuffer → Bool × AsduBuffer
  add_information_object o a =
      let n = number_of_elements a in
      if ltb 0 n && is_single_information_object_type a.type_id
      then (false, a)
      else if n == 0
      then counted (encode false o (record a { type_id = u8 c.type_id }))
      else if ltb n 0x7f && a.type_id == u8 c.type_id
      then (if is_sequence a
          then (if o.object_address == get_first_ioa a.parameters a.payload + n
              then counted (encode true o a)
              else (false, a))
          else counted (encode false o a))
      else (false, a)

  -- The getFromBuffer function of the type; `address` is what the object has before.
  unfoldable pub get_from_buffer :
      AppLayerParameters → List ℕ → ℕ → Bool → ℕ → Option (InformationObject c)
  get_from_buffer p msg start sequence address =
      if ltb (length msg) (start + c.element_size + (if sequence then 0 else p.size_of_ioa))
      then none
      else some (
          if sequence
          then record { object_address = address; value = c.value (drop start msg) }
          else record {
            object_address = parse_object_address p msg start;
            value = c.value (drop (start + p.size_of_ioa) msg);
          })

  -- The case of the type in `CS101_ASDU_getElementEx`
  unfoldable pub get_element : AsduBuffer → ℕ → Option (InformationObject c)
  get_element a index =
      let p = a.parameters in
      let at = element_start c.layout (is_sequence a) p.size_of_ioa c.element_size index in
      if leb (number_of_elements a) index
      then none
      else if is_single_information_object_type a.type_id && ltb 0 index
      then none
      else get_from_buffer p a.payload at.0 at.1 (parse_object_address p a.payload 0 + index)
