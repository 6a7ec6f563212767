-- ===== src/Cs101/Header/Tests.antt =====
-- The header of an ASDU at concrete inputs.
use lib.Prelude.{◌≡◌, refl, true, false, [], ◌∷◌, arith}
use lib.Cs101.Asdu.{AppLayerParameters}
use lib.Cs101.Objects.{AsduBuffer}
use lib.Cs101.Header.{
  initialize_static, is_test, is_negative, get_cot, get_ca, set_test, set_negative, set_cot, set_ca,
  clone,
}
use lib.Cs101.Header.Clone.{IsAsdu, clone_lem}

-- The parameters that CS 101 has by default.
abbrev parameters : AppLayerParameters
parameters = record {
  size_of_type_id = 1;
  size_of_vsq = 1;
  size_of_cot = 1;
  originator_address = 0;
  size_of_ca = 2;
  size_of_ioa = 2;
  max_size_of_asdu = 254;
}

-- A test of a negative confirmation, common address 258, with one single point.
abbrev asdu : AsduBuffer
asdu = record {
  parameters = parameters;
  type_id = 1;
  vsq = 1;
  header_rest = 0xc7 ∷ 2 ∷ 1 ∷ [];
  payload = 5 ∷ 0 ∷ 1 ∷ [];
}

header_made : (initialize_static parameters false 7 0 258 true true).header_rest ≡ asdu.header_rest
unfolding initialize_static
header_made = refl

header_read :
    (get_cot asdu ≡ 7) × (get_ca asdu ≡ 258) × (is_test asdu ≡ true) × (is_negative asdu ≡ true)
unfolding get_cot get_ca is_test is_negative
header_read = (refl, refl, refl, refl)

header_changed :
    (set_ca (set_cot (set_negative (set_test asdu false) false) 44) 70000).header_rest
    ≡ 44 ∷ 255 ∷ 255 ∷ []
unfolding set_ca set_cot set_negative set_test
header_changed = refl

asdu-IsAsdu : IsAsdu asdu
asdu-IsAsdu = record {
  sizes = record { cot = (omega arith, omega arith); ca = (omega arith, omega arith) };
  type_id = omega arith;
  vsq = omega arith;
  header = refl;
  octets = omega arith;
  room = omega arith;
}

clone_lem_example : clone asdu ≡ asdu
clone_lem_example = clone_lem asdu asdu-IsAsdu
