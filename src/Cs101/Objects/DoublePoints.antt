-- ===== src/Cs101/Objects/DoublePoints.antt =====
-- Information objects: double points. An encode function that calls that of the type without its time
-- stamp is written out.
use lib.Prelude.{ℕ, ◌<◌, refl, List, [], ◌∷◌, get_or, bit_and}
use lib.Prelude.Bytes.{AllBytes}
use lib.Apl.Time.{Cp56Time2a}
use lib.Cs101.Objects.{by_sequence, Codec, IsLawful, sized}
use lib.Cs101.Objects.Octets.{
  Cp24Time2a, cp24_octets, cp24_at, cp56_octets, cp56_at, IsQuality, diq, diq_value, diq_quality,
}

pub record DoublePointInformation : Type 0 where
  pub value : ℕ
  pub quality : ℕ

unfoldable pub encode_double_point_information : DoublePointInformation → List ℕ
encode_double_point_information v = diq v.value v.quality ∷ []

unfoldable pub double_point_information_from_buffer : List ℕ → DoublePointInformation
double_point_information_from_buffer l = record {
  value = bit_and (get_or l 0 0) 3;
  quality = bit_and (get_or l 0 0) 0xf0;
}

-- M_DP_NA_1
abbrev pub double_point_information : Codec
double_point_information = record {
  Value = DoublePointInformation;
  type_id = 3;
  required = sized 1;
  element_size = 1;
  layout = by_sequence;
  bytes = encode_double_point_information;
  value = double_point_information_from_buffer;
  Fits = λ v. (v.value < 4) × IsQuality v.quality;
}

pub double_point_information-IsLawful : IsLawful double_point_information
unfolding encode_double_point_information double_point_information_from_buffer
double_point_information-IsLawful = record {
  length-bytes = λ v. refl;
  value-bytes =
      λ v rest h. cc (diq_value v.value v.quality h.0 h.1, diq_quality v.value v.quality h.0 h.1);
}

pub record DoublePointWithCp24Time2a : Type 0 where
  pub value : ℕ
  pub quality : ℕ
  pub timestamp : Cp24Time2a

unfoldable pub encode_double_point_with_cp24_time2a : DoublePointWithCp24Time2a → List ℕ
encode_double_point_with_cp24_time2a v = diq v.value v.quality ∷ cp24_octets v.timestamp

unfoldable pub double_point_with_cp24_time2a_from_buffer : List ℕ → DoublePointWithCp24Time2a
double_point_with_cp24_time2a_from_buffer l = record {
  value = bit_and (get_or l 0 0) 3;
  quality = bit_and (get_or l 0 0) 0xf0;
  timestamp = cp24_at l 1;
}

-- M_DP_TA_1
abbrev pub double_point_with_cp24_time2a : Codec
double_point_with_cp24_time2a = record {
  Value = DoublePointWithCp24Time2a;
  type_id = 4;
  required = sized 4;
  element_size = 4;
  layout = by_sequence;
  bytes = encode_double_point_with_cp24_time2a;
  value = double_point_with_cp24_time2a_from_buffer;
  Fits = λ v. (v.value < 4) × IsQuality v.quality × AllBytes (cp24_octets v.timestamp);
}

pub double_point_with_cp24_time2a-IsLawful : IsLawful double_point_with_cp24_time2a
unfolding encode_double_point_with_cp24_time2a double_point_with_cp24_time2a_from_buffer
double_point_with_cp24_time2a-IsLawful = record {
  length-bytes = λ v. refl;
  value-bytes =
      λ v rest h. cc (diq_value v.value v.quality h.0 h.1, diq_quality v.value v.quality h.0 h.1);
}

pub record DoublePointWithCp56Time2a : Type 0 where
  pub value : ℕ
  pub quality : ℕ
  pub timestamp : Cp56Time2a

unfoldable pub encode_double_point_with_cp56_time2a : DoublePointWithCp56Time2a → List ℕ
encode_double_point_with_cp56_time2a v = diq v.value v.quality ∷ cp56_octets v.timestamp

unfoldable pub double_point_with_cp56_time2a_from_buffer : List ℕ → DoublePointWithCp56Time2a
double_point_with_cp56_time2a_from_buffer l = record {
  value = bit_and (get_or l 0 0) 3;
  quality = bit_and (get_or l 0 0) 0xf0;
  timestamp = cp56_at l 1;
}

-- M_DP_TB_1
abbrev pub double_point_with_cp56_time2a : Codec
double_point_with_cp56_time2a = record {
  Value = DoublePointWithCp56Time2a;
  type_id = 31;
  required = sized 8;
  element_size = 8;
  layout = by_sequence;
  bytes = encode_double_point_with_cp56_time2a;
  value = double_point_with_cp56_time2a_from_buffer;
  Fits = λ v. (v.value < 4) × IsQuality v.quality × AllBytes (cp56_octets v.timestamp);
}

pub double_point_with_cp56_time2a-IsLawful : IsLawful double_point_with_cp56_time2a
unfolding encode_double_point_with_cp56_time2a double_point_with_cp56_time2a_from_buffer
double_point_with_cp56_time2a-IsLawful = record {
  length-bytes = λ v. refl;
  value-bytes =
      λ v rest h. cc (diq_value v.value v.quality h.0 h.1, diq_quality v.value v.quality h.0 h.1);
}
