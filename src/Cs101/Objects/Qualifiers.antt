-- ===== src/Cs101/Objects/Qualifiers.antt =====
-- The create functions of commands and of file transfer, and the accessors of the octets that hold
-- several fields. A `uint8_t` is a number below 256.
pub mod Created
use lib.Prelude.{
  ℕ, ◌+◌, ◌*◌, ◌/◌, ◌%◌, ◌<◌, ◌≡◌, refl, Bool, true, false, not, ◌==◌, if◌then◌else◌, bit_and,
  bit_or,
}
use lib.Prelude.Bytes.{u8}
use lib.Apl.Time.{Cp56Time2a}
use lib.Cs101.Objects.{InformationObject}
use lib.Cs101.Objects.Octets.{FourOctets}
use lib.Cs101.Objects.Commands.{
  SingleCommand, SingleCommandWithCp56Time2a, DoubleCommand, DoubleCommandWithCp56Time2a,
  StepCommand, StepCommandWithCp56Time2a, single_command, single_command_with_cp56_time2a,
  double_command, double_command_with_cp56_time2a, step_command, step_command_with_cp56_time2a,
}
use lib.Cs101.Objects.ShortSetpoints.{SetpointCommandShort, setpoint_command_short}
use lib.Cs101.Objects.Files.{FileReady, SectionReady, file_ready, section_ready}

-- `if (selectCommand) octet |= 0x80`
abbrev pub with_select : Bool → ℕ → ℕ
with_select select octet = if select then bit_or octet 0x80 else octet

-- The octets that the create functions of commands make.
abbrev pub sco_octet : Bool → Bool → ℕ → ℕ
sco_octet command select qu =
    let sco = u8 (bit_and qu 0x1f * 4) in
    with_select select (if command then bit_or sco 0x01 else sco)

abbrev pub dcq_octet : ℕ → Bool → ℕ → ℕ
dcq_octet command select qu = with_select select (u8 (u8 (bit_and qu 0x1f * 4) + command))

unfoldable pub create_single_command : ℕ → Bool → Bool → ℕ → InformationObject single_command
create_single_command ioa command select qu = record {
  object_address = ioa;
  value = record { sco = sco_octet command select qu };
}

unfoldable pub create_single_command_with_cp56_time2a :
    ℕ → Bool → Bool → ℕ → Cp56Time2a → InformationObject single_command_with_cp56_time2a
create_single_command_with_cp56_time2a ioa command select qu timestamp = record {
  object_address = ioa;
  value = record { sco = sco_octet command select qu; timestamp = timestamp };
}

unfoldable pub create_double_command : ℕ → ℕ → Bool → ℕ → InformationObject double_command
create_double_command ioa command select qu = record {
  object_address = ioa;
  value = record { dcq = dcq_octet (bit_and command 0x03) select qu };
}

unfoldable pub create_double_command_with_cp56_time2a :
    ℕ → ℕ → Bool → ℕ → Cp56Time2a → InformationObject double_command_with_cp56_time2a
create_double_command_with_cp56_time2a ioa command select qu timestamp = record {
  object_address = ioa;
  value = record { dcq = dcq_octet (bit_and command 0x03) select qu; timestamp = timestamp };
}

unfoldable pub create_step_command : ℕ → ℕ → Bool → ℕ → InformationObject step_command
create_step_command ioa command select qu = record {
  object_address = ioa;
  value = record { dcq = dcq_octet (bit_and command 0x03) select qu };
}

unfoldable pub create_step_command_with_cp56_time2a :
    ℕ → ℕ → Bool → ℕ → Cp56Time2a → InformationObject step_command_with_cp56_time2a
create_step_command_with_cp56_time2a ioa command select qu timestamp = record {
  object_address = ioa;
  value = record { dcq = dcq_octet (bit_and command 0x03) select qu; timestamp = timestamp };
}

unfoldable pub create_setpoint_command_short :
    ℕ → FourOctets → Bool → ℕ → InformationObject setpoint_command_short
create_setpoint_command_short ioa value select ql = record {
  object_address = ioa;
  value = record { value = value; qos = with_select select (bit_and ql 0x7f) };
}

unfoldable pub create_file_ready : ℕ → ℕ → ℕ → Bool → InformationObject file_ready
create_file_ready ioa nof length_of_file positive = record {
  object_address = ioa;
  value = record { nof = nof; length_of_file = length_of_file; frq = if positive then 0 else 0x80 };
}

unfoldable pub create_section_ready : ℕ → ℕ → ℕ → ℕ → Bool → InformationObject section_ready
create_section_ready ioa nof nos length_of_section not_ready = record {
  object_address = ioa;
  value = record {
    nof = nof;
    name_of_section = nos;
    length_of_section = length_of_section;
    srq = if not_ready then 0x80 else 0;
  };
}

abbrev pub qualifier : ℕ → ℕ
qualifier octet = bit_and octet 0x7c / 4

abbrev pub flag : ℕ → ℕ → Bool
flag octet bit = bit_and octet bit == bit

unfoldable pub single_command_qu : SingleCommand → ℕ
single_command_qu c = qualifier c.sco

unfoldable pub single_command_state : SingleCommand → Bool
single_command_state c = flag c.sco 0x01

unfoldable pub single_command_is_select : SingleCommand → Bool
single_command_is_select c = flag c.sco 0x80

unfoldable pub double_command_qu : DoubleCommand → ℕ
double_command_qu c = qualifier c.dcq

unfoldable pub double_command_state : DoubleCommand → ℕ
double_command_state c = bit_and c.dcq 0x03

unfoldable pub double_command_is_select : DoubleCommand → Bool
double_command_is_select c = flag c.dcq 0x80

unfoldable pub step_command_qu : StepCommand → ℕ
step_command_qu c = qualifier c.dcq

unfoldable pub step_command_state : StepCommand → ℕ
step_command_state c = bit_and c.dcq 0x03

unfoldable pub step_command_is_select : StepCommand → Bool
step_command_is_select c = flag c.dcq 0x80

unfoldable pub setpoint_command_short_ql : SetpointCommandShort → ℕ
setpoint_command_short_ql c = bit_and c.qos 0x7f

unfoldable pub setpoint_command_short_is_select : SetpointCommandShort → Bool
setpoint_command_short_is_select c = flag c.qos 0x80

unfoldable pub file_ready_is_positive : FileReady → Bool
file_ready_is_positive f = flag f.frq 0x80

unfoldable pub section_ready_is_not_ready : SectionReady → Bool
section_ready_is_not_ready s = flag s.srq 0x80
