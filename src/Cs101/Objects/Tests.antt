-- ===== src/Cs101/Objects/Tests.antt =====
-- Information objects at concrete inputs.
use lib.Prelude.{not, ◌%◌, ℕ, ◌≡◌, refl, true, false, some, List, [], ◌∷◌, length, get_elem?, arith}
use lib.Cs101.Asdu.{AppLayerParameters, Asdu, create_from_buffer, get_element_data_size}
use lib.Cs101.Objects.{
  InformationObject, AsduBuffer, is_single_information_object_type, encode_base, get_first_ioa,
  parse_object_address, encode, add_information_object, get_from_buffer, get_element,
}
use lib.Cs101.Objects.Octets.{Cp24Time2a, FourOctets}
use lib.Cs101.Objects.Qualifiers.{
  create_single_command, single_command_qu, single_command_state, single_command_is_select,
  create_double_command, double_command_qu, double_command_state, double_command_is_select,
  create_step_command, step_command_qu, step_command_state, step_command_is_select,
  create_setpoint_command_short, setpoint_command_short_ql, setpoint_command_short_is_select,
  create_file_ready, file_ready_is_positive, create_section_ready, section_ready_is_not_ready,
}
use lib.Cs101.Objects.Qualifiers.Created.{created-fields}
use lib.Cs101.Objects.Adding.{add_all}
use lib.Cs101.Objects.Accepting.{IsAddable}
use lib.Cs101.Objects.DoublePoints.{
  double_point_with_cp24_time2a, encode_double_point_with_cp24_time2a,
  double_point_with_cp24_time2a_from_buffer,
}
use lib.Cs101.Objects.Files.{file_ready}
use lib.Cs101.Objects.Table.{IsSound, codecs-AreSound}
use lib.Cs101.Objects.Received.{received, get_element-received}
use lib.Cs101.Objects.Limits.{IsWithinLimit, HasRoom, add-IsWithinLimit}
use lib.Cs101.Objects.Wire.{octets}
use lib.Cs101.Header.{initialize_static}
use lib.Cs101.Header.Fields.{HasSizes}
use lib.Cs101.Header.Sent.{HasFields, asdu-received}

-- The default parameters of CS 104.
abbrev parameters : AppLayerParameters
parameters = record {
  size_of_type_id = 1;
  size_of_vsq = 1;
  size_of_cot = 2;
  originator_address = 0;
  size_of_ca = 2;
  size_of_ioa = 3;
  max_size_of_asdu = 249;
}

-- An ASDU with no elements, whose elements are to be a sequence.
abbrev empty_sequence : AsduBuffer
empty_sequence = record {
  parameters = parameters;
  type_id = 0;
  vsq = 128;
  header_rest = 3 ∷ 0 ∷ 1 ∷ 0 ∷ [];
  payload = [];
}

abbrev noon : Cp24Time2a
noon = record { octet_0 = 0x60; octet_1 = 0xea; octet_2 = 0 }

abbrev point : ℕ → ℕ → ℕ → InformationObject double_point_with_cp24_time2a
point address value quality = record {
  object_address = address;
  value = record { value = value; quality = quality; timestamp = noon };
}

abbrev points : List (InformationObject double_point_with_cp24_time2a)
points = point 70000 2 0 ∷ point 70001 1 0x80 ∷ []

-- The ASDU with both points: the address of the first, and their values.
abbrev filled : AsduBuffer
filled = record empty_sequence {
  type_id = 4;
  vsq = 130;
  payload = 0x70 ∷ 0x11 ∷ 1 ∷ 2 ∷ 0x60 ∷ 0xea ∷ 0 ∷ 0x81 ∷ 0x60 ∷ 0xea ∷ 0 ∷ [];
}

points-filled : add_all double_point_with_cp24_time2a points empty_sequence ≡ some filled
unfolding add_all add_information_object encode encode_base get_first_ioa
    is_single_information_object_type encode_double_point_with_cp24_time2a
points-filled = refl

second_point : get_element double_point_with_cp24_time2a filled 1 ≡ some (point 70001 1 0x80)
unfolding get_element get_from_buffer parse_object_address is_single_information_object_type
    double_point_with_cp24_time2a_from_buffer
second_point = refl

double_point-IsSound : IsSound double_point_with_cp24_time2a
double_point-IsSound = codecs-AreSound 3 double_point_with_cp24_time2a refl

not_single : is_single_information_object_type 4 ≡ false
unfolding is_single_information_object_type
not_single = refl

points-AreAddable : IsAddable parameters double_point_with_cp24_time2a true points
points-AreAddable = record {
  all = omega arith;
  order = omega arith;
  few = omega arith;
  single = λ e. absurd (cc (e, not_single));
}

parameters-HasSizes : HasSizes parameters
parameters-HasSizes = record { cot = (omega arith, omega arith); ca = (omega arith, omega arith) }

asdu-received_example :
    (b : AsduBuffer) × (r : Asdu) × (add_all double_point_with_cp24_time2a points
        (initialize_static parameters true 3 0 1 false true)
      ≡ some b)
    × (create_from_buffer parameters (octets b) (length (octets b)) ≡ some r)
    × HasFields (received r) (3 % 64) (some 0) 1 false true
    × ((i : ℕ) → get_element double_point_with_cp24_time2a (received r) i ≡ get_elem? points i)
asdu-received_example =
    asdu-received parameters true 3 0 1 false true double_point_with_cp24_time2a
      double_point-IsSound 4 points parameters-HasSizes (omega arith) (omega arith) (omega arith)
      refl (omega arith) not_single points-AreAddable (omega arith) (omega arith)

-- The octets of `filled`, as a message.
abbrev message : List ℕ
message =
    4 ∷ 130 ∷ 3 ∷ 0 ∷ 1 ∷ 0 ∷ 0x70 ∷ 0x11 ∷ 1 ∷ 2 ∷ 0x60 ∷ 0xea ∷ 0 ∷ 0x81 ∷ 0x60 ∷ 0xea ∷ 0 ∷ []

abbrev message_asdu : Asdu
message_asdu = record {
  parameters = parameters;
  asdu = message;
  asdu_header_length = 6;
  payload = filled.payload;
  payload_size = 11;
}

message_accepted : create_from_buffer parameters message (length message) ≡ some message_asdu
unfolding create_from_buffer get_element_data_size
message_accepted = refl

get_element-received_example :
    (o : InformationObject double_point_with_cp24_time2a) × (get_element
        double_point_with_cp24_time2a
        (received message_asdu)
        1
      ≡ some o)
get_element-received_example =
    get_element-received parameters message message_asdu double_point_with_cp24_time2a 1
      double_point-IsSound message_accepted refl not_single
      (omega arith, λ e. absurd (cc (e, not_single)))

codecs-AreSound_example : IsSound file_ready
codecs-AreSound_example = codecs-AreSound 60 file_ready refl

abbrev ready : InformationObject file_ready
ready = record { object_address = 1; value = record { nof = 1; length_of_file = 100; frq = 0 } }

abbrev empty : AsduBuffer
empty = record empty_sequence { vsq = 0 }

file_ready-IsSound : IsSound file_ready
file_ready-IsSound = codecs-AreSound 60 file_ready refl

parameters-HasRoom : HasRoom parameters
parameters-HasRoom = record { size_of_ioa = (omega arith, omega arith); one_object = omega arith }

empty-IsWithinLimit : IsWithinLimit empty
empty-IsWithinLimit = record { size = omega arith; vsq = omega arith; empty = λ _. refl }

add-IsWithinLimit_example : IsWithinLimit (add_information_object file_ready ready empty).1
add-IsWithinLimit_example =
    add-IsWithinLimit file_ready file_ready-IsSound ready empty parameters-HasRoom
      empty-IsWithinLimit

-- 1.0, as a `float` in memory
abbrev one : FourOctets
one = record { octet_0 = 0; octet_1 = 0; octet_2 = 0x80; octet_3 = 0x3f }

created-fields_example :
    ((single_command_qu (create_single_command 1 true false 33).value ≡ 33 % 32)
      × (single_command_state (create_single_command 1 true false 33).value ≡ true)
      × (single_command_is_select (create_single_command 1 true false 33).value ≡ false))
    × ((double_command_qu (create_double_command 1 2 false 33).value ≡ 33 % 32)
        × (double_command_state (create_double_command 1 2 false 33).value ≡ 2 % 4)
        × (double_command_is_select (create_double_command 1 2 false 33).value ≡ false))
    × ((step_command_qu (create_step_command 1 2 false 33).value ≡ 33 % 32)
        × (step_command_state (create_step_command 1 2 false 33).value ≡ 2 % 4)
        × (step_command_is_select (create_step_command 1 2 false 33).value ≡ false))
    × ((setpoint_command_short_ql (create_setpoint_command_short 1 one false 33).value ≡ 33 % 128)
        × (setpoint_command_short_is_select (create_setpoint_command_short 1 one false 33).value
            ≡ false))
    × (section_ready_is_not_ready (create_section_ready 1 7 8 9 true).value ≡ true)
    × (file_ready_is_positive (create_file_ready 1 7 9 true).value ≡ not true)
created-fields_example = created-fields 1 true false 2 33 one 7 8 9 (omega arith) (omega arith)
