-- ===== src/Cs101/Objects/Process.antt =====
-- Information objects: commands to processes, and parameter activation. An encode function that calls that of the type without its time
-- stamp is written out.
use lib.Prelude.{ℕ, ◌+◌, ◌<◌, refl, some, List, [], ◌∷◌, ◌++◌, get_or, if◌then◌else◌}
use lib.Prelude.Bytes.{AllBytes}
use lib.Apl.Time.{Cp56Time2a}
use lib.Cs101.Objects.{with_address, at_start, Codec, IsLawful, sized}
use lib.Cs101.Objects.Octets.{
  TwoOctets, two_octets, two_octets_at, cp56_octets, cp56_at, u16_octets, u16_at, u16_lem,
}

pub record EndOfInitialization : Type 0 where
  pub coi : ℕ

unfoldable pub encode_end_of_initialization : EndOfInitialization → List ℕ
encode_end_of_initialization v = v.coi ∷ []

unfoldable pub end_of_initialization_from_buffer : List ℕ → EndOfInitialization
end_of_initialization_from_buffer l = record { coi = get_or l 0 0 }

-- M_EI_NA_1
abbrev pub end_of_initialization : Codec
end_of_initialization = record {
  Value = EndOfInitialization;
  type_id = 70;
  required = sized 1;
  element_size = 1;
  layout = at_start;
  bytes = encode_end_of_initialization;
  value = end_of_initialization_from_buffer;
  Fits = λ v. (v.coi < 256);
}

pub end_of_initialization-IsLawful : IsLawful end_of_initialization
unfolding encode_end_of_initialization end_of_initialization_from_buffer
end_of_initialization-IsLawful = record { length-bytes = λ v. refl; value-bytes = λ v rest h. refl }

pub record ResetProcessCommand : Type 0 where
  pub qrp : ℕ

unfoldable pub encode_reset_process_command : ResetProcessCommand → List ℕ
encode_reset_process_command v = v.qrp ∷ []

unfoldable pub reset_process_command_from_buffer : List ℕ → ResetProcessCommand
reset_process_command_from_buffer l = record { qrp = get_or l 0 0 }

-- C_RP_NA_1
abbrev pub reset_process_command : Codec
reset_process_command = record {
  Value = ResetProcessCommand;
  type_id = 105;
  required = sized 1;
  element_size = 1;
  layout = at_start;
  bytes = encode_reset_process_command;
  value = reset_process_command_from_buffer;
  Fits = λ v. (v.qrp < 256);
}

pub reset_process_command-IsLawful : IsLawful reset_process_command
unfolding encode_reset_process_command reset_process_command_from_buffer
reset_process_command-IsLawful = record { length-bytes = λ v. refl; value-bytes = λ v rest h. refl }

pub record DelayAcquisitionCommand : Type 0 where
  pub delay : TwoOctets

unfoldable pub encode_delay_acquisition_command : DelayAcquisitionCommand → List ℕ
encode_delay_acquisition_command v = two_octets v.delay

unfoldable pub delay_acquisition_command_from_buffer : List ℕ → DelayAcquisitionCommand
delay_acquisition_command_from_buffer l = record { delay = two_octets_at l 0 }

-- C_CD_NA_1
abbrev pub delay_acquisition_command : Codec
delay_acquisition_command = record {
  Value = DelayAcquisitionCommand;
  type_id = 106;
  required = sized 2;
  element_size = 2;
  layout = at_start;
  bytes = encode_delay_acquisition_command;
  value = delay_acquisition_command_from_buffer;
  Fits = λ v. AllBytes (two_octets v.delay);
}

pub delay_acquisition_command-IsLawful : IsLawful delay_acquisition_command
unfolding encode_delay_acquisition_command delay_acquisition_command_from_buffer
delay_acquisition_command-IsLawful = record {
  length-bytes = λ v. refl;
  value-bytes = λ v rest h. refl;
}

pub record TestCommandWithCp56Time2a : Type 0 where
  pub tsc : ℕ
  pub timestamp : Cp56Time2a

unfoldable pub encode_test_command_with_cp56_time2a : TestCommandWithCp56Time2a → List ℕ
encode_test_command_with_cp56_time2a v = u16_octets v.tsc ++ (cp56_octets v.timestamp)

unfoldable pub test_command_with_cp56_time2a_from_buffer : List ℕ → TestCommandWithCp56Time2a
test_command_with_cp56_time2a_from_buffer l = record { tsc = u16_at l 0; timestamp = cp56_at l 2 }

-- C_TS_TA_1
abbrev pub test_command_with_cp56_time2a : Codec
test_command_with_cp56_time2a = record {
  Value = TestCommandWithCp56Time2a;
  type_id = 107;
  required = some (λ sequence size_of_ioa. if sequence then 2 else size_of_ioa + 9);
  element_size = 9;
  layout = at_start;
  bytes = encode_test_command_with_cp56_time2a;
  value = test_command_with_cp56_time2a_from_buffer;
  Fits = λ v. (v.tsc < 0x10000) × AllBytes (cp56_octets v.timestamp);
}

pub test_command_with_cp56_time2a-IsLawful : IsLawful test_command_with_cp56_time2a
unfolding encode_test_command_with_cp56_time2a test_command_with_cp56_time2a_from_buffer
test_command_with_cp56_time2a-IsLawful = record {
  length-bytes = λ v. refl;
  value-bytes = λ v rest h. cc (u16_lem v.tsc h.0);
}

pub record ParameterActivation : Type 0 where
  pub qpa : ℕ

unfoldable pub encode_parameter_activation : ParameterActivation → List ℕ
encode_parameter_activation v = v.qpa ∷ []

unfoldable pub parameter_activation_from_buffer : List ℕ → ParameterActivation
parameter_activation_from_buffer l = record { qpa = get_or l 0 0 }

-- P_AC_NA_1
abbrev pub parameter_activation : Codec
parameter_activation = record {
  Value = ParameterActivation;
  type_id = 113;
  required = sized 1;
  element_size = 1;
  layout = with_address;
  bytes = encode_parameter_activation;
  value = parameter_activation_from_buffer;
  Fits = λ v. (v.qpa < 256);
}

pub parameter_activation-IsLawful : IsLawful parameter_activation
unfolding encode_parameter_activation parameter_activation_from_buffer
parameter_activation-IsLawful = record { length-bytes = λ v. refl; value-bytes = λ v rest h. refl }
