-- ===== src/Cs101/Objects/Short.antt =====
-- Information objects: measured values, short floating point numbers. An encode function that calls that of the type without its time
-- stamp is written out.
use lib.Prelude.{ℕ, ◌<◌, refl, List, [], ◌∷◌, ◌++◌, get_or}
use lib.Prelude.Bytes.{AllBytes}
use lib.Apl.Time.{Cp56Time2a}
use lib.Cs101.Objects.{by_sequence, with_address, Codec, IsLawful, sized}
use lib.Cs101.Objects.Octets.{
  FourOctets, four_octets, four_octets_at, Cp24Time2a, cp24_octets, cp24_at, cp56_octets, cp56_at,
}

pub record MeasuredValueShort : Type 0 where
  pub value : FourOctets
  pub quality : ℕ

unfoldable pub encode_measured_value_short : MeasuredValueShort → List ℕ
encode_measured_value_short v = four_octets v.value ++ (v.quality ∷ [])

unfoldable pub measured_value_short_from_buffer : List ℕ → MeasuredValueShort
measured_value_short_from_buffer l = record { value = four_octets_at l 0; quality = get_or l 4 0 }

-- M_ME_NC_1
abbrev pub measured_value_short : Codec
measured_value_short = record {
  Value = MeasuredValueShort;
  type_id = 13;
  required = sized 5;
  element_size = 5;
  layout = by_sequence;
  bytes = encode_measured_value_short;
  value = measured_value_short_from_buffer;
  Fits = λ v. AllBytes (four_octets v.value) × (v.quality < 256);
}

pub measured_value_short-IsLawful : IsLawful measured_value_short
unfolding encode_measured_value_short measured_value_short_from_buffer
measured_value_short-IsLawful = record { length-bytes = λ v. refl; value-bytes = λ v rest h. refl }

unfoldable pub parameter_float_value_from_buffer : List ℕ → MeasuredValueShort
unfolding measured_value_short_from_buffer
parameter_float_value_from_buffer l = measured_value_short_from_buffer l

-- P_ME_NC_1
abbrev pub parameter_float_value : Codec
parameter_float_value = record {
  Value = MeasuredValueShort;
  type_id = 112;
  required = sized 5;
  element_size = 5;
  layout = with_address;
  bytes = encode_measured_value_short;
  value = parameter_float_value_from_buffer;
  Fits = λ v. AllBytes (four_octets v.value) × (v.quality < 256);
}

pub parameter_float_value-IsLawful : IsLawful parameter_float_value
unfolding encode_measured_value_short parameter_float_value_from_buffer
parameter_float_value-IsLawful = record {
  length-bytes = measured_value_short-IsLawful.length-bytes;
  value-bytes = measured_value_short-IsLawful.value-bytes;
}

pub record MeasuredValueShortWithCp24Time2a : Type 0 where
  pub value : FourOctets
  pub quality : ℕ
  pub timestamp : Cp24Time2a

unfoldable pub encode_measured_value_short_with_cp24_time2a :
    MeasuredValueShortWithCp24Time2a → List ℕ
encode_measured_value_short_with_cp24_time2a v =
    four_octets v.value ++ (v.quality ∷ cp24_octets v.timestamp)

unfoldable pub measured_value_short_with_cp24_time2a_from_buffer :
    List ℕ → MeasuredValueShortWithCp24Time2a
measured_value_short_with_cp24_time2a_from_buffer l = record {
  value = four_octets_at l 0;
  quality = get_or l 4 0;
  timestamp = cp24_at l 5;
}

-- M_ME_TC_1
abbrev pub measured_value_short_with_cp24_time2a : Codec
measured_value_short_with_cp24_time2a = record {
  Value = MeasuredValueShortWithCp24Time2a;
  type_id = 14;
  required = sized 8;
  element_size = 8;
  layout = by_sequence;
  bytes = encode_measured_value_short_with_cp24_time2a;
  value = measured_value_short_with_cp24_time2a_from_buffer;
  Fits =
      λ v. AllBytes (four_octets v.value) × (v.quality < 256) × AllBytes (cp24_octets v.timestamp);
}

pub measured_value_short_with_cp24_time2a-IsLawful : IsLawful measured_value_short_with_cp24_time2a
unfolding encode_measured_value_short_with_cp24_time2a
    measured_value_short_with_cp24_time2a_from_buffer
measured_value_short_with_cp24_time2a-IsLawful = record {
  length-bytes = λ v. refl;
  value-bytes = λ v rest h. refl;
}

pub record MeasuredValueShortWithCp56Time2a : Type 0 where
  pub value : FourOctets
  pub quality : ℕ
  pub timestamp : Cp56Time2a

unfoldable pub encode_measured_value_short_with_cp56_time2a :
    MeasuredValueShortWithCp56Time2a → List ℕ
encode_measured_value_short_with_cp56_time2a v =
    four_octets v.value ++ (v.quality ∷ cp56_octets v.timestamp)

unfoldable pub measured_value_short_with_cp56_time2a_from_buffer :
    List ℕ → MeasuredValueShortWithCp56Time2a
measured_value_short_with_cp56_time2a_from_buffer l = record {
  value = four_octets_at l 0;
  quality = get_or l 4 0;
  timestamp = cp56_at l 5;
}

-- M_ME_TF_1
abbrev pub measured_value_short_with_cp56_time2a : Codec
measured_value_short_with_cp56_time2a = record {
  Value = MeasuredValueShortWithCp56Time2a;
  type_id = 36;
  required = sized 12;
  element_size = 12;
  layout = by_sequence;
  bytes = encode_measured_value_short_with_cp56_time2a;
  value = measured_value_short_with_cp56_time2a_from_buffer;
  Fits =
      λ v. AllBytes (four_octets v.value) × (v.quality < 256) × AllBytes (cp56_octets v.timestamp);
}

pub measured_value_short_with_cp56_time2a-IsLawful : IsLawful measured_value_short_with_cp56_time2a
unfolding encode_measured_value_short_with_cp56_time2a
    measured_value_short_with_cp56_time2a_from_buffer
measured_value_short_with_cp56_time2a-IsLawful = record {
  length-bytes = λ v. refl;
  value-bytes = λ v rest h. refl;
}
