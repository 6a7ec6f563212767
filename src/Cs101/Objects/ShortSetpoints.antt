-- ===== src/Cs101/Objects/ShortSetpoints.antt =====
-- Information objects: setpoint commands, short floating point numbers. An encode function that calls that of the type without its time
-- stamp is written out.
use lib.Prelude.{ℕ, ◌<◌, refl, List, [], ◌∷◌, ◌++◌, get_or}
use lib.Prelude.Bytes.{AllBytes}
use lib.Apl.Time.{Cp56Time2a}
use lib.Cs101.Objects.{with_address, Codec, IsLawful, sized}
use lib.Cs101.Objects.Octets.{FourOctets, four_octets, four_octets_at, cp56_octets, cp56_at}

pub record SetpointCommandShort : Type 0 where
  pub value : FourOctets
  pub qos : ℕ

unfoldable pub encode_setpoint_command_short : SetpointCommandShort → List ℕ
encode_setpoint_command_short v = four_octets v.value ++ (v.qos ∷ [])

unfoldable pub setpoint_command_short_from_buffer : List ℕ → SetpointCommandShort
setpoint_command_short_from_buffer l = record { value = four_octets_at l 0; qos = get_or l 4 0 }

-- C_SE_NC_1
abbrev pub setpoint_command_short : Codec
setpoint_command_short = record {
  Value = SetpointCommandShort;
  type_id = 50;
  required = sized 5;
  element_size = 5;
  layout = with_address;
  bytes = encode_setpoint_command_short;
  value = setpoint_command_short_from_buffer;
  Fits = λ v. AllBytes (four_octets v.value) × (v.qos < 256);
}

pub setpoint_command_short-IsLawful : IsLawful setpoint_command_short
unfolding encode_setpoint_command_short setpoint_command_short_from_buffer
setpoint_command_short-IsLawful = record {
  length-bytes = λ v. refl;
  value-bytes = λ v rest h. refl;
}

pub record SetpointCommandShortWithCp56Time2a : Type 0 where
  pub value : FourOctets
  pub qos : ℕ
  pub timestamp : Cp56Time2a

unfoldable pub encode_setpoint_command_short_with_cp56_time2a :
    SetpointCommandShortWithCp56Time2a → List ℕ
encode_setpoint_command_short_with_cp56_time2a v =
    four_octets v.value ++ (v.qos ∷ cp56_octets v.timestamp)

unfoldable pub setpoint_command_short_with_cp56_time2a_from_buffer :
    List ℕ → SetpointCommandShortWithCp56Time2a
setpoint_command_short_with_cp56_time2a_from_buffer l = record {
  value = four_octets_at l 0;
  qos = get_or l 4 0;
  timestamp = cp56_at l 5;
}

-- C_SE_TC_1
abbrev pub setpoint_command_short_with_cp56_time2a : Codec
setpoint_command_short_with_cp56_time2a = record {
  Value = SetpointCommandShortWithCp56Time2a;
  type_id = 63;
  required = sized 12;
  element_size = 12;
  layout = with_address;
  bytes = encode_setpoint_command_short_with_cp56_time2a;
  value = setpoint_command_short_with_cp56_time2a_from_buffer;
  Fits = λ v. AllBytes (four_octets v.value) × (v.qos < 256) × AllBytes (cp56_octets v.timestamp);
}

pub setpoint_command_short_with_cp56_time2a-IsLawful :
    IsLawful setpoint_command_short_with_cp56_time2a
unfolding encode_setpoint_command_short_with_cp56_time2a
    setpoint_command_short_with_cp56_time2a_from_buffer
setpoint_command_short_with_cp56_time2a-IsLawful = record {
  length-bytes = λ v. refl;
  value-bytes = λ v rest h. refl;
}
