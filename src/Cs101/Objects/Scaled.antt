-- ===== src/Cs101/Objects/Scaled.antt =====
-- Information objects: measured values, scaled. An encode function that calls that of the type without its time
-- stamp is written out.
use lib.Prelude.{ℕ, ◌<◌, refl, List, [], ◌∷◌, ◌++◌, get_or}
use lib.Prelude.Bytes.{AllBytes}
use lib.Apl.Time.{Cp56Time2a}
use lib.Cs101.Objects.{by_sequence, with_address, Codec, IsLawful, sized}
use lib.Cs101.Objects.Octets.{
  TwoOctets, two_octets, two_octets_at, Cp24Time2a, cp24_octets, cp24_at, cp56_octets, cp56_at,
}

pub record MeasuredValueScaled : Type 0 where
  pub encoded_value : TwoOctets
  pub quality : ℕ

unfoldable pub encode_measured_value_scaled : MeasuredValueScaled → List ℕ
encode_measured_value_scaled v = two_octets v.encoded_value ++ (v.quality ∷ [])

unfoldable pub measured_value_scaled_from_buffer : List ℕ → MeasuredValueScaled
measured_value_scaled_from_buffer l = record {
  encoded_value = two_octets_at l 0;
  quality = get_or l 2 0;
}

-- M_ME_NB_1
abbrev pub measured_value_scaled : Codec
measured_value_scaled = record {
  Value = MeasuredValueScaled;
  type_id = 11;
  required = sized 3;
  element_size = 3;
  layout = by_sequence;
  bytes = encode_measured_value_scaled;
  value = measured_value_scaled_from_buffer;
  Fits = λ v. AllBytes (two_octets v.encoded_value) × (v.quality < 256);
}

pub measured_value_scaled-IsLawful : IsLawful measured_value_scaled
unfolding encode_measured_value_scaled measured_value_scaled_from_buffer
measured_value_scaled-IsLawful = record { length-bytes = λ v. refl; value-bytes = λ v rest h. refl }

unfoldable pub parameter_scaled_value_from_buffer : List ℕ → MeasuredValueScaled
unfolding measured_value_scaled_from_buffer
parameter_scaled_value_from_buffer l = measured_value_scaled_from_buffer l

-- P_ME_NB_1
abbrev pub parameter_scaled_value : Codec
parameter_scaled_value = record {
  Value = MeasuredValueScaled;
  type_id = 111;
  required = sized 3;
  element_size = 3;
  layout = with_address;
  bytes = encode_measured_value_scaled;
  value = parameter_scaled_value_from_buffer;
  Fits = λ v. AllBytes (two_octets v.encoded_value) × (v.quality < 256);
}

pub parameter_scaled_value-IsLawful : IsLawful parameter_scaled_value
unfolding encode_measured_value_scaled parameter_scaled_value_from_buffer
parameter_scaled_value-IsLawful = record {
  length-bytes = measured_value_scaled-IsLawful.length-bytes;
  value-bytes = measured_value_scaled-IsLawful.value-bytes;
}

pub record MeasuredValueScaledWithCp24Time2a : Type 0 where
  pub encoded_value : TwoOctets
  pub quality : ℕ
  pub timestamp : Cp24Time2a

unfoldable pub encode_measured_value_scaled_with_cp24_time2a :
    MeasuredValueScaledWithCp24Time2a → List ℕ
encode_measured_value_scaled_with_cp24_time2a v =
    two_octets v.encoded_value ++ (v.quality ∷ cp24_octets v.timestamp)

unfoldable pub measured_value_scaled_with_cp24_time2a_from_buffer :
    List ℕ → MeasuredValueScaledWithCp24Time2a
measured_value_scaled_with_cp24_time2a_from_buffer l = record {
  encoded_value = two_octets_at l 0;
  quality = get_or l 2 0;
  timestamp = cp24_at l 3;
}

-- M_ME_TB_1
abbrev pub measured_value_scaled_with_cp24_time2a : Codec
measured_value_scaled_with_cp24_time2a = record {
  Value = MeasuredValueScaledWithCp24Time2a;
  type_id = 12;
  required = sized 6;
  element_size = 6;
  layout = by_sequence;
  bytes = encode_measured_value_scaled_with_cp24_time2a;
  value = measured_value_scaled_with_cp24_time2a_from_buffer;
  Fits = λ v.
      AllBytes (two_octets v.encoded_value)
      × (v.quality < 256)
      × AllBytes (cp24_octets v.timestamp);
}

pub measured_value_scaled_with_cp24_time2a-IsLawful :
    IsLawful measured_value_scaled_with_cp24_time2a
unfolding encode_measured_value_scaled_with_cp24_time2a
    measured_value_scaled_with_cp24_time2a_from_buffer
measured_value_scaled_with_cp24_time2a-IsLawful = record {
  length-bytes = λ v. refl;
  value-bytes = λ v rest h. refl;
}

pub record MeasuredValueScaledWithCp56Time2a : Type 0 where
  pub encoded_value : TwoOctets
  pub quality : ℕ
  pub timestamp : Cp56Time2a

unfoldable pub encode_measured_value_scaled_with_cp56_time2a :
    MeasuredValueScaledWithCp56Time2a → List ℕ
encode_measured_value_scaled_with_cp56_time2a v =
    two_octets v.encoded_value ++ (v.quality ∷ cp56_octets v.timestamp)

unfoldable pub measured_value_scaled_with_cp56_time2a_from_buffer :
    List ℕ → MeasuredValueScaledWithCp56Time2a
measured_value_scaled_with_cp56_time2a_from_buffer l = record {
  encoded_value = two_octets_at l 0;
  quality = get_or l 2 0;
  timestamp = cp56_at l 3;
}

-- M_ME_TE_1
abbrev pub measured_value_scaled_with_cp56_time2a : Codec
measured_value_scaled_with_cp56_time2a = record {
  Value = MeasuredValueScaledWithCp56Time2a;
  type_id = 35;
  required = sized 10;
  element_size = 10;
  layout = by_sequence;
  bytes = encode_measured_value_scaled_with_cp56_time2a;
  value = measured_value_scaled_with_cp56_time2a_from_buffer;
  Fits = λ v.
      AllBytes (two_octets v.encoded_value)
      × (v.quality < 256)
      × AllBytes (cp56_octets v.timestamp);
}

pub measured_value_scaled_with_cp56_time2a-IsLawful :
    IsLawful measured_value_scaled_with_cp56_time2a
unfolding encode_measured_value_scaled_with_cp56_time2a
    measured_value_scaled_with_cp56_time2a_from_buffer
measured_value_scaled_with_cp56_time2a-IsLawful = record {
  length-bytes = λ v. refl;
  value-bytes = λ v rest h. refl;
}
