-- ===== src/Cs101/Objects/Normalized.antt =====
-- Information objects: measured values, normalized. An encode function that calls that of the type without its time
-- stamp is written out.
use lib.Prelude.{ℕ, ◌<◌, refl, List, [], ◌∷◌, ◌++◌, get_or}
use lib.Prelude.Bytes.{AllBytes}
use lib.Apl.Time.{Cp56Time2a}
use lib.Cs101.Objects.{by_sequence, with_address, Codec, IsLawful, sized}
use lib.Cs101.Objects.Octets.{
  TwoOctets, two_octets, two_octets_at, Cp24Time2a, cp24_octets, cp24_at, cp56_octets, cp56_at,
}

pub record MeasuredValueNormalized : Type 0 where
  pub encoded_value : TwoOctets
  pub quality : ℕ

unfoldable pub encode_measured_value_normalized : MeasuredValueNormalized → List ℕ
encode_measured_value_normalized v = two_octets v.encoded_value ++ (v.quality ∷ [])

unfoldable pub measured_value_normalized_from_buffer : List ℕ → MeasuredValueNormalized
measured_value_normalized_from_buffer l = record {
  encoded_value = two_octets_at l 0;
  quality = get_or l 2 0;
}

-- M_ME_NA_1
abbrev pub measured_value_normalized : Codec
measured_value_normalized = record {
  Value = MeasuredValueNormalized;
  type_id = 9;
  required = sized 3;
  element_size = 3;
  layout = by_sequence;
  bytes = encode_measured_value_normalized;
  value = measured_value_normalized_from_buffer;
  Fits = λ v. AllBytes (two_octets v.encoded_value) × (v.quality < 256);
}

pub measured_value_normalized-IsLawful : IsLawful measured_value_normalized
unfolding encode_measured_value_normalized measured_value_normalized_from_buffer
measured_value_normalized-IsLawful = record {
  length-bytes = λ v. refl;
  value-bytes = λ v rest h. refl;
}

unfoldable pub parameter_normalized_value_from_buffer : List ℕ → MeasuredValueNormalized
unfolding measured_value_normalized_from_buffer
parameter_normalized_value_from_buffer l = measured_value_normalized_from_buffer l

-- P_ME_NA_1
abbrev pub parameter_normalized_value : Codec
parameter_normalized_value = record {
  Value = MeasuredValueNormalized;
  type_id = 110;
  required = sized 3;
  element_size = 3;
  layout = with_address;
  bytes = encode_measured_value_normalized;
  value = parameter_normalized_value_from_buffer;
  Fits = λ v. AllBytes (two_octets v.encoded_value) × (v.quality < 256);
}

pub parameter_normalized_value-IsLawful : IsLawful parameter_normalized_value
unfolding encode_measured_value_normalized parameter_normalized_value_from_buffer
parameter_normalized_value-IsLawful = record {
  length-bytes = measured_value_normalized-IsLawful.length-bytes;
  value-bytes = measured_value_normalized-IsLawful.value-bytes;
}

pub record MeasuredValueNormalizedWithoutQuality : Type 0 where
  pub encoded_value : TwoOctets

unfoldable pub encode_measured_value_normalized_without_quality :
    MeasuredValueNormalizedWithoutQuality → List ℕ
encode_measured_value_normalized_without_quality v = two_octets v.encoded_value

unfoldable pub measured_value_normalized_without_quality_from_buffer :
    List ℕ → MeasuredValueNormalizedWithoutQuality
measured_value_normalized_without_quality_from_buffer l = record {
  encoded_value = two_octets_at l 0;
}

-- M_ME_ND_1
abbrev pub measured_value_normalized_without_quality : Codec
measured_value_normalized_without_quality = record {
  Value = MeasuredValueNormalizedWithoutQuality;
  type_id = 21;
  required = sized 2;
  element_size = 2;
  layout = by_sequence;
  bytes = encode_measured_value_normalized_without_quality;
  value = measured_value_normalized_without_quality_from_buffer;
  Fits = λ v. AllBytes (two_octets v.encoded_value);
}

pub measured_value_normalized_without_quality-IsLawful :
    IsLawful measured_value_normalized_without_quality
unfolding encode_measured_value_normalized_without_quality
    measured_value_normalized_without_quality_from_buffer
measured_value_normalized_without_quality-IsLawful = record {
  length-bytes = λ v. refl;
  value-bytes = λ v rest h. refl;
}

pub record MeasuredValueNormalizedWithCp24Time2a : Type 0 where
  pub encoded_value : TwoOctets
  pub quality : ℕ
  pub timestamp : Cp24Time2a

unfoldable pub encode_measured_value_normalized_with_cp24_time2a :
    MeasuredValueNormalizedWithCp24Time2a → List ℕ
encode_measured_value_normalized_with_cp24_time2a v =
    two_octets v.encoded_value ++ (v.quality ∷ cp24_octets v.timestamp)

unfoldable pub measured_value_normalized_with_cp24_time2a_from_buffer :
    List ℕ → MeasuredValueNormalizedWithCp24Time2a
measured_value_normalized_with_cp24_time2a_from_buffer l = record {
  encoded_value = two_octets_at l 0;
  quality = get_or l 2 0;
  timestamp = cp24_at l 3;
}

-- M_ME_TA_1
abbrev pub measured_value_normalized_with_cp24_time2a : Codec
measured_value_normalized_with_cp24_time2a = record {
  Value = MeasuredValueNormalizedWithCp24Time2a;
  type_id = 10;
  required = sized 6;
  element_size = 6;
  layout = by_sequence;
  bytes = encode_measured_value_normalized_with_cp24_time2a;
  value = measured_value_normalized_with_cp24_time2a_from_buffer;
  Fits = λ v.
      AllBytes (two_octets v.encoded_value)
      × (v.quality < 256)
      × AllBytes (cp24_octets v.timestamp);
}

pub measured_value_normalized_with_cp24_time2a-IsLawful :
    IsLawful measured_value_normalized_with_cp24_time2a
unfolding encode_measured_value_normalized_with_cp24_time2a
    measured_value_normalized_with_cp24_time2a_from_buffer
measured_value_normalized_with_cp24_time2a-IsLawful = record {
  length-bytes = λ v. refl;
  value-bytes = λ v rest h. refl;
}

pub record MeasuredValueNormalizedWithCp56Time2a : Type 0 where
  pub encoded_value : TwoOctets
  pub quality : ℕ
  pub timestamp : Cp56Time2a

unfoldable pub encode_measured_value_normalized_with_cp56_time2a :
    MeasuredValueNormalizedWithCp56Time2a → List ℕ
encode_measured_value_normalized_with_cp56_time2a v =
    two_octets v.encoded_value ++ (v.quality ∷ cp56_octets v.timestamp)

unfoldable pub measured_value_normalized_with_cp56_time2a_from_buffer :
    List ℕ → MeasuredValueNormalizedWithCp56Time2a
measured_value_normalized_with_cp56_time2a_from_buffer l = record {
  encoded_value = two_octets_at l 0;
  quality = get_or l 2 0;
  timestamp = cp56_at l 3;
}

-- M_ME_TD_1
abbrev pub measured_value_normalized_with_cp56_time2a : Codec
measured_value_normalized_with_cp56_time2a = record {
  Value = MeasuredValueNormalizedWithCp56Time2a;
  type_id = 34;
  required = sized 10;
  element_size = 10;
  layout = by_sequence;
  bytes = encode_measured_value_normalized_with_cp56_time2a;
  value = measured_value_normalized_with_cp56_time2a_from_buffer;
  Fits = λ v.
      AllBytes (two_octets v.encoded_value)
      × (v.quality < 256)
      × AllBytes (cp56_octets v.timestamp);
}

pub measured_value_normalized_with_cp56_time2a-IsLawful :
    IsLawful measured_value_normalized_with_cp56_time2a
unfolding encode_measured_value_normalized_with_cp56_time2a
    measured_value_normalized_with_cp56_time2a_from_buffer
measured_value_normalized_with_cp56_time2a-IsLawful = record {
  length-bytes = λ v. refl;
  value-bytes = λ v rest h. refl;
}
