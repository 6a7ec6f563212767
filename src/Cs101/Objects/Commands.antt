-- ===== src/Cs101/Objects/Commands.antt =====
-- Information objects: single, double and step commands. An encode function that calls that of the type without its time
-- stamp is written out.
use lib.Prelude.{ℕ, ◌<◌, refl, List, [], ◌∷◌, get_or}
use lib.Prelude.Bytes.{AllBytes}
use lib.Apl.Time.{Cp56Time2a}
use lib.Cs101.Objects.{with_address, Codec, IsLawful, sized}
use lib.Cs101.Objects.Octets.{cp56_octets, cp56_at}

pub record SingleCommand : Type 0 where
  pub sco : ℕ

unfoldable pub encode_single_command : SingleCommand → List ℕ
encode_single_command v = v.sco ∷ []

unfoldable pub single_command_from_buffer : List ℕ → SingleCommand
single_command_from_buffer l = record { sco = get_or l 0 0 }

-- C_SC_NA_1
abbrev pub single_command : Codec
single_command = record {
  Value = SingleCommand;
  type_id = 45;
  required = sized 1;
  element_size = 1;
  layout = with_address;
  bytes = encode_single_command;
  value = single_command_from_buffer;
  Fits = λ v. (v.sco < 256);
}

pub single_command-IsLawful : IsLawful single_command
unfolding encode_single_command single_command_from_buffer
single_command-IsLawful = record { length-bytes = λ v. refl; value-bytes = λ v rest h. refl }

pub record SingleCommandWithCp56Time2a : Type 0 where
  pub sco : ℕ
  pub timestamp : Cp56Time2a

unfoldable pub encode_single_command_with_cp56_time2a : SingleCommandWithCp56Time2a → List ℕ
encode_single_command_with_cp56_time2a v = v.sco ∷ cp56_octets v.timestamp

unfoldable pub single_command_with_cp56_time2a_from_buffer : List ℕ → SingleCommandWithCp56Time2a
single_command_with_cp56_time2a_from_buffer l = record {
  sco = get_or l 0 0;
  timestamp = cp56_at l 1;
}

-- C_SC_TA_1
abbrev pub single_command_with_cp56_time2a : Codec
single_command_with_cp56_time2a = record {
  Value = SingleCommandWithCp56Time2a;
  type_id = 58;
  required = sized 8;
  element_size = 8;
  layout = with_address;
  bytes = encode_single_command_with_cp56_time2a;
  value = single_command_with_cp56_time2a_from_buffer;
  Fits = λ v. (v.sco < 256) × AllBytes (cp56_octets v.timestamp);
}

pub single_command_with_cp56_time2a-IsLawful : IsLawful single_command_with_cp56_time2a
unfolding encode_single_command_with_cp56_time2a single_command_with_cp56_time2a_from_buffer
single_command_with_cp56_time2a-IsLawful = record {
  length-bytes = λ v. refl;
  value-bytes = λ v rest h. refl;
}

pub record DoubleCommand : Type 0 where
  pub dcq : ℕ

unfoldable pub encode_double_command : DoubleCommand → List ℕ
encode_double_command v = v.dcq ∷ []

unfoldable pub double_command_from_buffer : List ℕ → DoubleCommand
double_command_from_buffer l = record { dcq = get_or l 0 0 }

-- C_DC_NA_1
abbrev pub double_command : Codec
double_command = record {
  Value = DoubleCommand;
  type_id = 46;
  required = sized 1;
  element_size = 1;
  layout = with_address;
  bytes = encode_double_command;
  value = double_command_from_buffer;
  Fits = λ v. (v.dcq < 256);
}

pub double_command-IsLawful : IsLawful double_command
unfolding encode_double_command double_command_from_buffer
double_command-IsLawful = record { length-bytes = λ v. refl; value-bytes = λ v rest h. refl }

pub record DoubleCommandWithCp56Time2a : Type 0 where
  pub dcq : ℕ
  pub timestamp : Cp56Time2a

unfoldable pub encode_double_command_with_cp56_time2a : DoubleCommandWithCp56Time2a → List ℕ
encode_double_command_with_cp56_time2a v = v.dcq ∷ cp56_octets v.timestamp

unfoldable pub double_command_with_cp56_time2a_from_buffer : List ℕ → DoubleCommandWithCp56Time2a
double_command_with_cp56_time2a_from_buffer l = record {
  dcq = get_or l 0 0;
  timestamp = cp56_at l 1;
}

-- C_DC_TA_1
abbrev pub double_command_with_cp56_time2a : Codec
double_command_with_cp56_time2a = record {
  Value = DoubleCommandWithCp56Time2a;
  type_id = 59;
  required = sized 8;
  element_size = 8;
  layout = with_address;
  bytes = encode_double_command_with_cp56_time2a;
  value = double_command_with_cp56_time2a_from_buffer;
  Fits = λ v. (v.dcq < 256) × AllBytes (cp56_octets v.timestamp);
}

pub double_command_with_cp56_time2a-IsLawful : IsLawful double_command_with_cp56_time2a
unfolding encode_double_command_with_cp56_time2a double_command_with_cp56_time2a_from_buffer
double_command_with_cp56_time2a-IsLawful = record {
  length-bytes = λ v. refl;
  value-bytes = λ v rest h. refl;
}

pub record StepCommand : Type 0 where
  pub dcq : ℕ

unfoldable pub encode_step_command : StepCommand → List ℕ
encode_step_command v = v.dcq ∷ []

unfoldable pub step_command_from_buffer : List ℕ → StepCommand
step_command_from_buffer l = record { dcq = get_or l 0 0 }

-- C_RC_NA_1
abbrev pub step_command : Codec
step_command = record {
  Value = StepCommand;
  type_id = 47;
  required = sized 1;
  element_size = 1;
  layout = with_address;
  bytes = encode_step_command;
  value = step_command_from_buffer;
  Fits = λ v. (v.dcq < 256);
}

pub step_command-IsLawful : IsLawful step_command
unfolding encode_step_command step_command_from_buffer
step_command-IsLawful = record { length-bytes = λ v. refl; value-bytes = λ v rest h. refl }

pub record StepCommandWithCp56Time2a : Type 0 where
  pub dcq : ℕ
  pub timestamp : Cp56Time2a

unfoldable pub encode_step_command_with_cp56_time2a : StepCommandWithCp56Time2a → List ℕ
encode_step_command_with_cp56_time2a v = v.dcq ∷ cp56_octets v.timestamp

unfoldable pub step_command_with_cp56_time2a_from_buffer : List ℕ → StepCommandWithCp56Time2a
step_command_with_cp56_time2a_from_buffer l = record { dcq = get_or l 0 0; timestamp = cp56_at l 1 }

-- C_RC_TA_1
abbrev pub step_command_with_cp56_time2a : Codec
step_command_with_cp56_time2a = record {
  Value = StepCommandWithCp56Time2a;
  type_id = 60;
  required = sized 8;
  element_size = 8;
  layout = with_address;
  bytes = encode_step_command_with_cp56_time2a;
  value = step_command_with_cp56_time2a_from_buffer;
  Fits = λ v. (v.dcq < 256) × AllBytes (cp56_octets v.timestamp);
}

pub step_command_with_cp56_time2a-IsLawful : IsLawful step_command_with_cp56_time2a
unfolding encode_step_command_with_cp56_time2a step_command_with_cp56_time2a_from_buffer
step_command_with_cp56_time2a-IsLawful = record {
  length-bytes = λ v. refl;
  value-bytes = λ v rest h. refl;
}
