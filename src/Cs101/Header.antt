-- ===== src/Cs101/Header.antt =====
-- The header of an ASDU that a station makes: the create, clone, get and set functions of
-- cs101_asdu.c. The octets of the header from the third on are `header_rest`; those that an accessor
-- names by an index of `asdu` stand two places before. An `int` that is not negative is a number.
pub mod Fields
pub mod Clone
pub mod Sent
pub mod Tests
use lib.Prelude.{
  ℕ, ◌+◌, ◌-◌, ◌*◌, ◌/◌, ◌%◌, Bool, true, false, Option, none, some, List, [], ◌∷◌, ◌++◌, length,
  get_or, set, ltb, leb, ◌==◌, if◌then◌else◌, bit_and, bit_or,
}
use lib.Prelude.Bytes.{u8}
use lib.Cs101.Asdu.{AppLayerParameters, header_length}
use lib.Cs101.Objects.{AsduBuffer, is_sequence, number_of_elements}

-- The third octet: the cause of transmission with the bits for test and negative confirmation.
abbrev pub cause : ℕ → Bool → Bool → ℕ
cause cot test negative =
    let octet = bit_and cot 0x3f in
    let tested = if test then bit_or octet 0x80 else octet in
    if negative then bit_or tested 0x40 else tested

-- `CS101_ASDU_initializeStatic`
unfoldable pub initialize_static : AppLayerParameters → Bool → ℕ → ℕ → ℕ → Bool → Bool → AsduBuffer
initialize_static p sequence cot oa ca test negative =
    let high = if ltb 1 p.size_of_ca then u8 (ca / 0x100) ∷ [] else [] in
    let common_address = (ca % 0x100) ∷ high in
    record {
      parameters = p;
      type_id = 0;
      vsq = if sequence then 0x80 else 0;
      header_rest =
          cause cot test negative
          ∷ (if ltb 1 p.size_of_cot then u8 oa ∷ common_address else common_address);
      payload = [];
    }

-- `self->asdu[i]`, for an octet behind the second
abbrev pub header_octet : AsduBuffer → ℕ → ℕ
header_octet a i = get_or a.header_rest (i - 2) 0

abbrev pub set_header_octet : AsduBuffer → ℕ → ℕ → AsduBuffer
set_header_octet a i octet = record a { header_rest = set a.header_rest (i - 2) octet }

unfoldable pub is_test : AsduBuffer → Bool
is_test a = bit_and (header_octet a 2) 0x80 == 0x80

unfoldable pub is_negative : AsduBuffer → Bool
is_negative a = bit_and (header_octet a 2) 0x40 == 0x40

-- `none` is -1.
unfoldable pub get_oa : AsduBuffer → Option ℕ
get_oa a = if ltb a.parameters.size_of_cot 2 then none else some (header_octet a 3)

unfoldable pub get_cot : AsduBuffer → ℕ
get_cot a = bit_and (header_octet a 2) 0x3f

unfoldable pub get_ca : AsduBuffer → ℕ
get_ca a =
    let i = 2 + a.parameters.size_of_cot in
    let high = header_octet a (i + 1) * 0x100 in
    header_octet a i + (if ltb 1 a.parameters.size_of_ca then high else 0)

unfoldable pub set_test : AsduBuffer → Bool → AsduBuffer
set_test a value =
    let octet = header_octet a 2 in
    set_header_octet a 2 (if value then bit_or octet 0x80 else bit_and octet 0x7f)

unfoldable pub set_negative : AsduBuffer → Bool → AsduBuffer
set_negative a value =
    let octet = header_octet a 2 in
    set_header_octet a 2 (if value then bit_or octet 0x40 else bit_and octet 0xbf)

unfoldable pub set_cot : AsduBuffer → ℕ → AsduBuffer
set_cot a value = set_header_octet a 2 (u8 (bit_and (header_octet a 2) 0xc0 + bit_and value 0x3f))

-- An address that is too large is replaced by the largest.
unfoldable pub set_ca : AsduBuffer → ℕ → AsduBuffer
set_ca a ca =
    let i = 2 + a.parameters.size_of_cot in
    let size = a.parameters.size_of_ca in
    let within =
      if size == 1
      then (if ltb 255 ca then 255 else ca)
      else if ltb 1 size
      then (if ltb 65535 ca then 65535 else ca)
      else ca in
    if size == 1
    then set_header_octet a i (u8 within)
    else set_header_octet (set_header_octet a i (u8 (within % 0x100))) (i + 1) (u8 (within / 0x100))

unfoldable pub set_type_id : AsduBuffer → ℕ → AsduBuffer
set_type_id a type_id = record a { type_id = u8 type_id }

unfoldable pub set_sequence : AsduBuffer → Bool → AsduBuffer
set_sequence a sequence = record a {
  vsq = if sequence then bit_or a.vsq 0x80 else bit_and a.vsq 0x7f;
}

unfoldable pub set_number_of_elements : AsduBuffer → ℕ → AsduBuffer
set_number_of_elements a n = record a { vsq = bit_or (bit_and a.vsq 0x80) (bit_and (u8 n) 0x7f) }

unfoldable pub remove_all_elements : AsduBuffer → AsduBuffer
remove_all_elements a = record a { vsq = bit_and a.vsq 0x80; payload = [] }

-- `CS101_ASDU_addPayload`, for a buffer that is not NULL
unfoldable pub add_payload : AsduBuffer → List ℕ → Bool × AsduBuffer
add_payload a buffer =
    if leb (length a.payload + header_length a.parameters + length buffer) 256
    then (true, record a { payload = a.payload ++ buffer })
    else (false, a)

-- The originator address that `CS101_ASDU_clone` passes on; where it is -1 it is not used.
abbrev pub originator : Option ℕ → ℕ
originator none = 0
originator (some oa) = oa

unfoldable pub clone : AsduBuffer → AsduBuffer
clone a =
    let fresh =
      initialize_static a.parameters (is_sequence a) (get_cot a) (originator (get_oa a)) (get_ca a)
        (is_test a) (is_negative a) in
    (add_payload (set_number_of_elements (set_type_id fresh a.type_id) (number_of_elements a))
      a.payload).1
