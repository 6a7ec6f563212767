-- ===== src/Cs101/Objects/Setpoints.antt =====
-- Information objects: setpoint commands, normalized and scaled. An encode function that calls that of the type without its time
-- stamp is written out.
use lib.Prelude.{ℕ, ◌<◌, refl, List, [], ◌∷◌, ◌++◌, get_or}
use lib.Prelude.Bytes.{AllBytes}
use lib.Apl.Time.{Cp56Time2a}
use lib.Cs101.Objects.{with_address, Codec, IsLawful, sized}
use lib.Cs101.Objects.Octets.{TwoOctets, two_octets, two_octets_at, cp56_octets, cp56_at}

pub record SetpointCommandNormalized : Type 0 where
  pub encoded_value : TwoOctets
  pub qos : ℕ

unfoldable pub encode_setpoint_command_normalized : SetpointCommandNormalized → List ℕ
encode_setpoint_command_normalized v = two_octets v.encoded_value ++ (v.qos ∷ [])

unfoldable pub setpoint_command_normalized_from_buffer : List ℕ → SetpointCommandNormalized
setpoint_command_normalized_from_buffer l = record {
  encoded_value = two_octets_at l 0;
  qos = get_or l 2 0;
}

-- C_SE_NA_1
abbrev pub setpoint_command_normalized : Codec
setpoint_command_normalized = record {
  Value = SetpointCommandNormalized;
  type_id = 48;
  required = sized 3;
  element_size = 3;
  layout = with_address;
  bytes = encode_setpoint_command_normalized;
  value = setpoint_command_normalized_from_buffer;
  Fits = λ v. AllBytes (two_octets v.encoded_value) × (v.qos < 256);
}

pub setpoint_command_normalized-IsLawful : IsLawful setpoint_command_normalized
unfolding encode_setpoint_command_normalized setpoint_command_normalized_from_buffer
setpoint_command_normalized-IsLawful = record {
  length-bytes = λ v. refl;
  value-bytes = λ v rest h. refl;
}

pub record SetpointCommandNormalizedWithCp56Time2a : Type 0 where
  pub encoded_value : TwoOctets
  pub qos : ℕ
  pub timestamp : Cp56Time2a

unfoldable pub encode_setpoint_command_normalized_with_cp56_time2a :
    SetpointCommandNormalizedWithCp56Time2a → List ℕ
encode_setpoint_command_normalized_with_cp56_time2a v =
    two_octets v.encoded_value ++ (v.qos ∷ cp56_octets v.timestamp)

unfoldable pub setpoint_command_normalized_with_cp56_time2a_from_buffer :
    List ℕ → SetpointCommandNormalizedWithCp56Time2a
setpoint_command_normalized_with_cp56_time2a_from_buffer l = record {
  encoded_value = two_octets_at l 0;
  qos = get_or l 2 0;
  timestamp = cp56_at l 3;
}

-- C_SE_TA_1
abbrev pub setpoint_command_normalized_with_cp56_time2a : Codec
setpoint_command_normalized_with_cp56_time2a = record {
  Value = SetpointCommandNormalizedWithCp56Time2a;
  type_id = 61;
  required = sized 10;
  element_size = 10;
  layout = with_address;
  bytes = encode_setpoint_command_normalized_with_cp56_time2a;
  value = setpoint_command_normalized_with_cp56_time2a_from_buffer;
  Fits = λ v.
      AllBytes (two_octets v.encoded_value) × (v.qos < 256) × AllBytes (cp56_octets v.timestamp);
}

pub setpoint_command_normalized_with_cp56_time2a-IsLawful :
    IsLawful setpoint_command_normalized_with_cp56_time2a
unfolding encode_setpoint_command_normalized_with_cp56_time2a
    setpoint_command_normalized_with_cp56_time2a_from_buffer
setpoint_command_normalized_with_cp56_time2a-IsLawful = record {
  length-bytes = λ v. refl;
  value-bytes = λ v rest h. refl;
}

pub record SetpointCommandScaled : Type 0 where
  pub encoded_value : TwoOctets
  pub qos : ℕ

unfoldable pub encode_setpoint_command_scaled : SetpointCommandScaled → List ℕ
encode_setpoint_command_scaled v = two_octets v.encoded_value ++ (v.qos ∷ [])

unfoldable pub setpoint_command_scaled_from_buffer : List ℕ → SetpointCommandScaled
setpoint_command_scaled_from_buffer l = record {
  encoded_value = two_octets_at l 0;
  qos = get_or l 2 0;
}

-- C_SE_NB_1
abbrev pub setpoint_command_scaled : Codec
setpoint_command_scaled = record {
  Value = SetpointCommandScaled;
  type_id = 49;
  required = sized 3;
  element_size = 3;
  layout = with_address;
  bytes = encode_setpoint_command_scaled;
  value = setpoint_command_scaled_from_buffer;
  Fits = λ v. AllBytes (two_octets v.encoded_value) × (v.qos < 256);
}

pub setpoint_command_scaled-IsLawful : IsLawful setpoint_command_scaled
unfolding encode_setpoint_command_scaled setpoint_command_scaled_from_buffer
setpoint_command_scaled-IsLawful = record {
  length-bytes = λ v. refl;
  value-bytes = λ v rest h. refl;
}

pub record SetpointCommandScaledWithCp56Time2a : Type 0 where
  pub encoded_value : TwoOctets
  pub qos : ℕ
  pub timestamp : Cp56Time2a

unfoldable pub encode_setpoint_command_scaled_with_cp56_time2a :
    SetpointCommandScaledWithCp56Time2a → List ℕ
encode_setpoint_command_scaled_with_cp56_time2a v =
    two_octets v.encoded_value ++ (v.qos ∷ cp56_octets v.timestamp)

unfoldable pub setpoint_command_scaled_with_cp56_time2a_from_buffer :
    List ℕ → SetpointCommandScaledWithCp56Time2a
setpoint_command_scaled_with_cp56_time2a_from_buffer l = record {
  encoded_value = two_octets_at l 0;
  qos = get_or l 2 0;
  timestamp = cp56_at l 3;
}

-- C_SE_TB_1
abbrev pub setpoint_command_scaled_with_cp56_time2a : Codec
setpoint_command_scaled_with_cp56_time2a = record {
  Value = SetpointCommandScaledWithCp56Time2a;
  type_id = 62;
  required = sized 10;
  element_size = 10;
  layout = with_address;
  bytes = encode_setpoint_command_scaled_with_cp56_time2a;
  value = setpoint_command_scaled_with_cp56_time2a_from_buffer;
  Fits = λ v.
      AllBytes (two_octets v.encoded_value) × (v.qos < 256) × AllBytes (cp56_octets v.timestamp);
}

pub setpoint_command_scaled_with_cp56_time2a-IsLawful :
    IsLawful setpoint_command_scaled_with_cp56_time2a
unfolding encode_setpoint_command_scaled_with_cp56_time2a
    setpoint_command_scaled_with_cp56_time2a_from_buffer
setpoint_command_scaled_with_cp56_time2a-IsLawful = record {
  length-bytes = λ v. refl;
  value-bytes = λ v rest h. refl;
}
