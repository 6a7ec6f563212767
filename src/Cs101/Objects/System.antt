-- ===== src/Cs101/Objects/System.antt =====
-- Information objects: system commands. An encode function that calls that of the type without its time
-- stamp is written out.
use lib.Prelude.{ℕ, ◌<◌, refl, List, [], ◌∷◌, get_or}
use lib.Prelude.Bytes.{AllBytes}
use lib.Apl.Time.{Cp56Time2a}
use lib.Cs101.Objects.{at_start, Codec, IsLawful, sized}
use lib.Cs101.Objects.Octets.{cp56_octets, cp56_at}

pub record InterrogationCommand : Type 0 where
  pub qoi : ℕ

unfoldable pub encode_interrogation_command : InterrogationCommand → List ℕ
encode_interrogation_command v = v.qoi ∷ []

unfoldable pub interrogation_command_from_buffer : List ℕ → InterrogationCommand
interrogation_command_from_buffer l = record { qoi = get_or l 0 0 }

-- C_IC_NA_1
abbrev pub interrogation_command : Codec
interrogation_command = record {
  Value = InterrogationCommand;
  type_id = 100;
  required = sized 1;
  element_size = 1;
  layout = at_start;
  bytes = encode_interrogation_command;
  value = interrogation_command_from_buffer;
  Fits = λ v. (v.qoi < 256);
}

pub interrogation_command-IsLawful : IsLawful interrogation_command
unfolding encode_interrogation_command interrogation_command_from_buffer
interrogation_command-IsLawful = record { length-bytes = λ v. refl; value-bytes = λ v rest h. refl }

pub record CounterInterrogationCommand : Type 0 where
  pub qcc : ℕ

unfoldable pub encode_counter_interrogation_command : CounterInterrogationCommand → List ℕ
encode_counter_interrogation_command v = v.qcc ∷ []

unfoldable pub counter_interrogation_command_from_buffer : List ℕ → CounterInterrogationCommand
counter_interrogation_command_from_buffer l = record { qcc = get_or l 0 0 }

-- C_CI_NA_1
abbrev pub counter_interrogation_command : Codec
counter_interrogation_command = record {
  Value = CounterInterrogationCommand;
  type_id = 101;
  required = sized 1;
  element_size = 1;
  layout = at_start;
  bytes = encode_counter_interrogation_command;
  value = counter_interrogation_command_from_buffer;
  Fits = λ v. (v.qcc < 256);
}

pub counter_interrogation_command-IsLawful : IsLawful counter_interrogation_command
unfolding encode_counter_interrogation_command counter_interrogation_command_from_buffer
counter_interrogation_command-IsLawful = record {
  length-bytes = λ v. refl;
  value-bytes = λ v rest h. refl;
}

pub record ReadCommand : Type 0 where

unfoldable pub encode_read_command : ReadCommand → List ℕ
encode_read_command v = []

unfoldable pub read_command_from_buffer : List ℕ → ReadCommand
read_command_from_buffer l = record {}

-- C_RD_NA_1
abbrev pub read_command : Codec
read_command = record {
  Value = ReadCommand;
  type_id = 102;
  required = sized 0;
  element_size = 0;
  layout = at_start;
  bytes = encode_read_command;
  value = read_command_from_buffer;
  Fits = λ v. Unit {0};
}

pub read_command-IsLawful : IsLawful read_command
unfolding encode_read_command read_command_from_buffer
read_command-IsLawful = record { length-bytes = λ v. refl; value-bytes = λ v rest h. refl }

pub record ClockSynchronizationCommand : Type 0 where
  pub timestamp : Cp56Time2a

unfoldable pub encode_clock_synchronization_command : ClockSynchronizationCommand → List ℕ
encode_clock_synchronization_command v = cp56_octets v.timestamp

unfoldable pub clock_synchronization_command_from_buffer : List ℕ → ClockSynchronizationCommand
clock_synchronization_command_from_buffer l = record { timestamp = cp56_at l 0 }

-- C_CS_NA_1
abbrev pub clock_synchronization_command : Codec
clock_synchronization_command = record {
  Value = ClockSynchronizationCommand;
  type_id = 103;
  required = sized 7;
  element_size = 7;
  layout = at_start;
  bytes = encode_clock_synchronization_command;
  value = clock_synchronization_command_from_buffer;
  Fits = λ v. AllBytes (cp56_octets v.timestamp);
}

pub clock_synchronization_command-IsLawful : IsLawful clock_synchronization_command
unfolding encode_clock_synchronization_command clock_synchronization_command_from_buffer
clock_synchronization_command-IsLawful = record {
  length-bytes = λ v. refl;
  value-bytes = λ v rest h. refl;
}

pub record TestCommand : Type 0 where
  pub byte1 : ℕ
  pub byte2 : ℕ

unfoldable pub encode_test_command : TestCommand → List ℕ
encode_test_command v = v.byte1 ∷ v.byte2 ∷ []

unfoldable pub test_command_from_buffer : List ℕ → TestCommand
test_command_from_buffer l = record { byte1 = get_or l 0 0; byte2 = get_or l 1 0 }

-- C_TS_NA_1
abbrev pub test_command : Codec
test_command = record {
  Value = TestCommand;
  type_id = 104;
  required = sized 2;
  element_size = 2;
  layout = at_start;
  bytes = encode_test_command;
  value = test_command_from_buffer;
  Fits = λ v. (v.byte1 < 256) × (v.byte2 < 256);
}

pub test_command-IsLawful : IsLawful test_command
unfolding encode_test_command test_command_from_buffer
test_command-IsLawful = record { length-bytes = λ v. refl; value-bytes = λ v rest h. refl }
