-- ===== src/Cs101/Objects/Table.antt =====
-- The cases of the `switch` of `CS101_ASDU_getElementEx`, but that of file segments, whose octets are
-- no fixed number.
use lib.Prelude.{
  ℕ, zero, suc, ◌+◌, ◌≤◌, ◌<◌, ◌≡◌, ◌⊎◌, inl, inr, refl, subst, Bool, true, false, some, List, [],
  ◌∷◌, ltb, leb, ◌&&◌, if◌then◌else◌, get_elem?, arith,
}
use mathlib.Core.Option.{some-injective}
use lib.Cs101.Asdu.{get_element_data_size}
use lib.Cs101.Objects.{Codec, IsLawful, sized, is_single_information_object_type}
use lib.Cs101.Objects.SinglePoints.{
  single_point_information, single_point_with_cp24_time2a, single_point_with_cp56_time2a,
  single_point_information-IsLawful, single_point_with_cp24_time2a-IsLawful,
  single_point_with_cp56_time2a-IsLawful,
}
use lib.Cs101.Objects.DoublePoints.{
  double_point_information, double_point_with_cp24_time2a, double_point_with_cp56_time2a,
  double_point_information-IsLawful, double_point_with_cp24_time2a-IsLawful,
  double_point_with_cp56_time2a-IsLawful,
}
use lib.Cs101.Objects.StepPositions.{
  step_position_information, step_position_with_cp24_time2a, step_position_with_cp56_time2a,
  step_position_information-IsLawful, step_position_with_cp24_time2a-IsLawful,
  step_position_with_cp56_time2a-IsLawful,
}
use lib.Cs101.Objects.Bitstrings.{
  bit_string32, bitstring32_with_cp24_time2a, bitstring32_with_cp56_time2a, bitstring32_command,
  bitstring32_command_with_cp56_time2a, bit_string32-IsLawful,
  bitstring32_with_cp24_time2a-IsLawful, bitstring32_with_cp56_time2a-IsLawful,
  bitstring32_command-IsLawful, bitstring32_command_with_cp56_time2a-IsLawful,
}
use lib.Cs101.Objects.Normalized.{
  measured_value_normalized, measured_value_normalized_with_cp24_time2a,
  measured_value_normalized_without_quality, measured_value_normalized_with_cp56_time2a,
  parameter_normalized_value, measured_value_normalized-IsLawful,
  measured_value_normalized_with_cp24_time2a-IsLawful,
  measured_value_normalized_without_quality-IsLawful,
  measured_value_normalized_with_cp56_time2a-IsLawful, parameter_normalized_value-IsLawful,
}
use lib.Cs101.Objects.Scaled.{
  measured_value_scaled, measured_value_scaled_with_cp24_time2a,
  measured_value_scaled_with_cp56_time2a, parameter_scaled_value, measured_value_scaled-IsLawful,
  measured_value_scaled_with_cp24_time2a-IsLawful, measured_value_scaled_with_cp56_time2a-IsLawful,
  parameter_scaled_value-IsLawful,
}
use lib.Cs101.Objects.Short.{
  measured_value_short, measured_value_short_with_cp24_time2a,
  measured_value_short_with_cp56_time2a, parameter_float_value, measured_value_short-IsLawful,
  measured_value_short_with_cp24_time2a-IsLawful, measured_value_short_with_cp56_time2a-IsLawful,
  parameter_float_value-IsLawful,
}
use lib.Cs101.Objects.Totals.{
  integrated_totals, integrated_totals_with_cp24_time2a, integrated_totals_with_cp56_time2a,
  integrated_totals_for_security_statistics, integrated_totals-IsLawful,
  integrated_totals_with_cp24_time2a-IsLawful, integrated_totals_with_cp56_time2a-IsLawful,
  integrated_totals_for_security_statistics-IsLawful,
}
use lib.Cs101.Objects.Protection.{
  event_of_protection_equipment, packed_start_events_of_protection_equipment,
  event_of_protection_equipment_with_cp56_time2a,
  packed_start_events_of_protection_equipment_with_cp56_time2a,
  event_of_protection_equipment-IsLawful, packed_start_events_of_protection_equipment-IsLawful,
  event_of_protection_equipment_with_cp56_time2a-IsLawful,
  packed_start_events_of_protection_equipment_with_cp56_time2a-IsLawful,
}
use lib.Cs101.Objects.Circuits.{
  packed_output_circuit_info, packed_single_point_with_scd,
  packed_output_circuit_info_with_cp56_time2a, packed_output_circuit_info-IsLawful,
  packed_single_point_with_scd-IsLawful, packed_output_circuit_info_with_cp56_time2a-IsLawful,
}
use lib.Cs101.Objects.Commands.{
  single_command, double_command, step_command, single_command_with_cp56_time2a,
  double_command_with_cp56_time2a, step_command_with_cp56_time2a, single_command-IsLawful,
  double_command-IsLawful, step_command-IsLawful, single_command_with_cp56_time2a-IsLawful,
  double_command_with_cp56_time2a-IsLawful, step_command_with_cp56_time2a-IsLawful,
}
use lib.Cs101.Objects.Setpoints.{
  setpoint_command_normalized, setpoint_command_scaled,
  setpoint_command_normalized_with_cp56_time2a, setpoint_command_scaled_with_cp56_time2a,
  setpoint_command_normalized-IsLawful, setpoint_command_scaled-IsLawful,
  setpoint_command_normalized_with_cp56_time2a-IsLawful,
  setpoint_command_scaled_with_cp56_time2a-IsLawful,
}
use lib.Cs101.Objects.ShortSetpoints.{
  setpoint_command_short, setpoint_command_short_with_cp56_time2a, setpoint_command_short-IsLawful,
  setpoint_command_short_with_cp56_time2a-IsLawful,
}
use lib.Cs101.Objects.Process.{
  end_of_initialization, reset_process_command, delay_acquisition_command,
  test_command_with_cp56_time2a, parameter_activation, end_of_initialization-IsLawful,
  reset_process_command-IsLawful, delay_acquisition_command-IsLawful,
  test_command_with_cp56_time2a-IsLawful, parameter_activation-IsLawful,
}
use lib.Cs101.Objects.System.{
  interrogation_command, counter_interrogation_command, read_command, clock_synchronization_command,
  test_command, interrogation_command-IsLawful, counter_interrogation_command-IsLawful,
  read_command-IsLawful, clock_synchronization_command-IsLawful, test_command-IsLawful,
}
use lib.Cs101.Objects.Files.{
  file_ready, section_ready, file_call_or_select, file_last_segment_or_section, file_ack,
  file_ready-IsLawful, section_ready-IsLawful, file_call_or_select-IsLawful,
  file_last_segment_or_section-IsLawful, file_ack-IsLawful,
}
use lib.Cs101.Objects.Directories.{
  file_directory, query_log, file_directory-IsLawful, query_log-IsLawful,
}

abbrev pub codecs : List Codec
codecs =
    single_point_information ∷ single_point_with_cp24_time2a ∷ double_point_information
    ∷ double_point_with_cp24_time2a ∷ step_position_information ∷ step_position_with_cp24_time2a
    ∷ bit_string32 ∷ bitstring32_with_cp24_time2a ∷ measured_value_normalized
    ∷ measured_value_normalized_with_cp24_time2a ∷ measured_value_scaled
    ∷ measured_value_scaled_with_cp24_time2a ∷ measured_value_short
    ∷ measured_value_short_with_cp24_time2a ∷ integrated_totals ∷ integrated_totals_with_cp24_time2a
    ∷ event_of_protection_equipment ∷ packed_start_events_of_protection_equipment
    ∷ packed_output_circuit_info ∷ packed_single_point_with_scd
    ∷ measured_value_normalized_without_quality ∷ single_point_with_cp56_time2a
    ∷ double_point_with_cp56_time2a ∷ step_position_with_cp56_time2a ∷ bitstring32_with_cp56_time2a
    ∷ measured_value_normalized_with_cp56_time2a ∷ measured_value_scaled_with_cp56_time2a
    ∷ measured_value_short_with_cp56_time2a ∷ integrated_totals_with_cp56_time2a
    ∷ event_of_protection_equipment_with_cp56_time2a
    ∷ packed_start_events_of_protection_equipment_with_cp56_time2a
    ∷ packed_output_circuit_info_with_cp56_time2a ∷ integrated_totals_for_security_statistics
    ∷ single_command ∷ double_command ∷ step_command ∷ setpoint_command_normalized
    ∷ setpoint_command_scaled ∷ setpoint_command_short ∷ bitstring32_command
    ∷ single_command_with_cp56_time2a ∷ double_command_with_cp56_time2a
    ∷ step_command_with_cp56_time2a ∷ setpoint_command_normalized_with_cp56_time2a
    ∷ setpoint_command_scaled_with_cp56_time2a ∷ setpoint_command_short_with_cp56_time2a
    ∷ bitstring32_command_with_cp56_time2a ∷ end_of_initialization ∷ interrogation_command
    ∷ counter_interrogation_command ∷ read_command ∷ clock_synchronization_command ∷ test_command
    ∷ reset_process_command ∷ delay_acquisition_command ∷ test_command_with_cp56_time2a
    ∷ parameter_normalized_value ∷ parameter_scaled_value ∷ parameter_float_value
    ∷ parameter_activation ∷ file_ready ∷ section_ready ∷ file_call_or_select
    ∷ file_last_segment_or_section ∷ file_ack ∷ file_directory ∷ query_log ∷ []

-- An encode function asks for the room that its octets take.
abbrev pub AsksEnough : Codec → Type 0
AsksEnough c =
    (required : Bool → ℕ → ℕ) × (c.required ≡ some required)
    × ((sequence : Bool) (size_of_ioa : ℕ)
        → c.element_size + (if sequence then 0 else size_of_ioa) ≤ required sequence size_of_ioa)

-- One that does not is of a type that an ASDU has once, and of nine octets at most.
abbrev pub IsAlone : Codec → Type 0
IsAlone c = (is_single_information_object_type c.type_id ≡ true) × (c.element_size ≤ 9)

-- What a type of the table promises: it puts and reads as many octets as `getElementDataSize` gives for
-- it, and reads what it put, if the value fits its octets; its type identification is an octet; and it
-- asks for the room that it takes, or an ASDU has only one of it, of nine octets at most.
pub record IsSound (c : Codec) : Type 0 where
  pub lawful : IsLawful c
  pub size : get_element_data_size c.type_id ≡ some c.element_size
  pub octet : c.type_id < 256
  pub room : AsksEnough c ⊎ IsAlone c

infixr 66 ◌&◌
data AllSound : List Codec → Type 1 where
  end : AllSound []
  ◌&◌ : {c : Codec} {cs : List Codec} → IsSound c → AllSound cs → AllSound (c ∷ cs)

asked_enough :
    (n size : ℕ)
    → size ≤ n
    → (sequence : Bool) (size_of_ioa : ℕ)
    → size + (if sequence then 0 else size_of_ioa) ≤ (if sequence then n else size_of_ioa + n)
asked_enough n size h true size_of_ioa = omega arith
asked_enough n size h false size_of_ioa = omega arith

-- A type whose encode function asks for `n` octets, and one that does not ask for enough.
asking :
    (c : Codec) (n : ℕ)
    → IsLawful c
    → c.required ≡ sized n
    → get_element_data_size c.type_id ≡ some c.element_size
    → (ltb c.type_id 256 && leb c.element_size n) ≡ true
    → IsSound c
asking c n lawful e size small = record {
  lawful = lawful;
  size = size;
  octet = ground arith;
  room = inl (
    λ sequence size_of_ioa. if sequence then n else size_of_ioa + n,
    e,
    asked_enough n c.element_size (ground arith),
  );
}

alone :
    (c : Codec)
    → IsLawful c
    → is_single_information_object_type c.type_id ≡ true
    → get_element_data_size c.type_id ≡ some c.element_size
    → (ltb c.type_id 256 && leb c.element_size 9) ≡ true
    → IsSound c
alone c lawful single size small = record {
  lawful = lawful;
  size = size;
  octet = ground arith;
  room = inr (single, ground arith);
}

all_sound : AllSound codecs
unfolding get_element_data_size is_single_information_object_type
all_sound =
    asking single_point_information 1 single_point_information-IsLawful refl refl refl
    & asking single_point_with_cp24_time2a 4 single_point_with_cp24_time2a-IsLawful refl refl refl
    & asking double_point_information 1 double_point_information-IsLawful refl refl refl
    & asking double_point_with_cp24_time2a 4 double_point_with_cp24_time2a-IsLawful refl refl refl
    & asking step_position_information 2 step_position_information-IsLawful refl refl refl
    & asking step_position_with_cp24_time2a 5 step_position_with_cp24_time2a-IsLawful refl refl refl
    & asking bit_string32 5 bit_string32-IsLawful refl refl refl
    & asking bitstring32_with_cp24_time2a 8 bitstring32_with_cp24_time2a-IsLawful refl refl refl
    & asking measured_value_normalized 3 measured_value_normalized-IsLawful refl refl refl
    & asking measured_value_normalized_with_cp24_time2a 6
        measured_value_normalized_with_cp24_time2a-IsLawful refl refl refl
    & asking measured_value_scaled 3 measured_value_scaled-IsLawful refl refl refl
    & asking measured_value_scaled_with_cp24_time2a 6
        measured_value_scaled_with_cp24_time2a-IsLawful refl refl refl
    & asking measured_value_short 5 measured_value_short-IsLawful refl refl refl
    & asking measured_value_short_with_cp24_time2a 8 measured_value_short_with_cp24_time2a-IsLawful
        refl refl refl
    & asking integrated_totals 5 integrated_totals-IsLawful refl refl refl
    & asking integrated_totals_with_cp24_time2a 8 integrated_totals_with_cp24_time2a-IsLawful refl
        refl refl
    & asking event_of_protection_equipment 6 event_of_protection_equipment-IsLawful refl refl refl
    & asking packed_start_events_of_protection_equipment 7
        packed_start_events_of_protection_equipment-IsLawful refl refl refl
    & asking packed_output_circuit_info 7 packed_output_circuit_info-IsLawful refl refl refl
    & asking packed_single_point_with_scd 5 packed_single_point_with_scd-IsLawful refl refl refl
    & asking measured_value_normalized_without_quality 2
        measured_value_normalized_without_quality-IsLawful refl refl refl
    & asking single_point_with_cp56_time2a 8 single_point_with_cp56_time2a-IsLawful refl refl refl
    & asking double_point_with_cp56_time2a 8 double_point_with_cp56_time2a-IsLawful refl refl refl
    & asking step_position_with_cp56_time2a 9 step_position_with_cp56_time2a-IsLawful refl refl refl
    & asking bitstring32_with_cp56_time2a 12 bitstring32_with_cp56_time2a-IsLawful refl refl refl
    & asking measured_value_normalized_with_cp56_time2a 10
        measured_value_normalized_with_cp56_time2a-IsLawful refl refl refl
    & asking measured_value_scaled_with_cp56_time2a 10
        measured_value_scaled_with_cp56_time2a-IsLawful refl refl refl
    & asking measured_value_short_with_cp56_time2a 12 measured_value_short_with_cp56_time2a-IsLawful
        refl refl refl
    & asking integrated_totals_with_cp56_time2a 12 integrated_totals_with_cp56_time2a-IsLawful refl
        refl refl
    & asking event_of_protection_equipment_with_cp56_time2a 10
        event_of_protection_equipment_with_cp56_time2a-IsLawful refl refl refl
    & asking packed_start_events_of_protection_equipment_with_cp56_time2a 11
        packed_start_events_of_protection_equipment_with_cp56_time2a-IsLawful refl refl refl
    & asking packed_output_circuit_info_with_cp56_time2a 11
        packed_output_circuit_info_with_cp56_time2a-IsLawful refl refl refl
    & asking integrated_totals_for_security_statistics 14
        integrated_totals_for_security_statistics-IsLawful refl refl refl
    & asking single_command 1 single_command-IsLawful refl refl refl
    & asking double_command 1 double_command-IsLawful refl refl refl
    & asking step_command 1 step_command-IsLawful refl refl refl
    & asking setpoint_command_normalized 3 setpoint_command_normalized-IsLawful refl refl refl
    & asking setpoint_command_scaled 3 setpoint_command_scaled-IsLawful refl refl refl
    & asking setpoint_command_short 5 setpoint_command_short-IsLawful refl refl refl
    & asking bitstring32_command 5 bitstring32_command-IsLawful refl refl refl
    & asking single_command_with_cp56_time2a 8 single_command_with_cp56_time2a-IsLawful refl refl
        refl
    & asking double_command_with_cp56_time2a 8 double_command_with_cp56_time2a-IsLawful refl refl
        refl
    & asking step_command_with_cp56_time2a 8 step_command_with_cp56_time2a-IsLawful refl refl refl
    & asking setpoint_command_normalized_with_cp56_time2a 10
        setpoint_command_normalized_with_cp56_time2a-IsLawful refl refl refl
    & asking setpoint_command_scaled_with_cp56_time2a 10
        setpoint_command_scaled_with_cp56_time2a-IsLawful refl refl refl
    & asking setpoint_command_short_with_cp56_time2a 12
        setpoint_command_short_with_cp56_time2a-IsLawful refl refl refl
    & asking bitstring32_command_with_cp56_time2a 12 bitstring32_command_with_cp56_time2a-IsLawful
        refl refl refl
    & asking end_of_initialization 1 end_of_initialization-IsLawful refl refl refl
    & asking interrogation_command 1 interrogation_command-IsLawful refl refl refl
    & asking counter_interrogation_command 1 counter_interrogation_command-IsLawful refl refl refl
    & asking read_command 0 read_command-IsLawful refl refl refl
    & asking clock_synchronization_command 7 clock_synchronization_command-IsLawful refl refl refl
    & asking test_command 2 test_command-IsLawful refl refl refl
    & asking reset_process_command 1 reset_process_command-IsLawful refl refl refl
    & asking delay_acquisition_command 2 delay_acquisition_command-IsLawful refl refl refl
    & alone test_command_with_cp56_time2a test_command_with_cp56_time2a-IsLawful refl refl refl
    & asking parameter_normalized_value 3 parameter_normalized_value-IsLawful refl refl refl
    & asking parameter_scaled_value 3 parameter_scaled_value-IsLawful refl refl refl
    & asking parameter_float_value 5 parameter_float_value-IsLawful refl refl refl
    & asking parameter_activation 1 parameter_activation-IsLawful refl refl refl
    & alone file_ready file_ready-IsLawful refl refl refl
    & alone section_ready section_ready-IsLawful refl refl refl
    & alone file_call_or_select file_call_or_select-IsLawful refl refl refl
    & alone file_last_segment_or_section file_last_segment_or_section-IsLawful refl refl refl
    & alone file_ack file_ack-IsLawful refl refl refl
    & asking file_directory 13 file_directory-IsLawful refl refl refl
    & asking query_log 16 query_log-IsLawful refl refl refl
    & end

AllSound-get_elem? :
    {cs : List Codec} (all : AllSound cs) (k : ℕ) (c : Codec) → get_elem? cs k ≡ some c → IsSound c
AllSound-get_elem? end k c e = absurd (cc)
AllSound-get_elem? (is & all) zero c e = subst IsSound (some-injective _ _ e) is
AllSound-get_elem? (is & all) (suc k) c e = AllSound-get_elem? all k c e

-- Each type of the table puts, for every value, and reads as many octets as `getElementDataSize`
-- gives for its type identification, which is an octet; it reads back, whatever follows, each value
-- that fits its octets (`Fits`: no field has more bits than its octets keep, which rules out a
-- single point with a low bit in its quality and a file of 2 ^ 24 bytes); and its encode function
-- asks for the room of those octets, or the type is one that an ASDU has once, of nine octets at most.
pub codecs-AreSound : (k : ℕ) (c : Codec) → get_elem? codecs k ≡ some c → IsSound c
codecs-AreSound k c e = AllSound-get_elem? all_sound k c e
