-- ===== src/Cs101/Objects/SinglePoints.antt =====
-- Information objects: single points. An encode function that calls that of the type without its time
-- stamp is written out.
use lib.Prelude.{ℕ, refl, Bool, List, [], ◌∷◌, get_or, ◌==◌, bit_and}
use lib.Prelude.Bytes.{AllBytes}
use lib.Apl.Time.{Cp56Time2a}
use lib.Cs101.Objects.{by_sequence, Codec, IsLawful, sized}
use lib.Cs101.Objects.Octets.{
  Cp24Time2a, cp24_octets, cp24_at, cp56_octets, cp56_at, IsQuality, siq, siq_value, siq_quality,
}

pub record SinglePointInformation : Type 0 where
  pub value : Bool
  pub quality : ℕ

unfoldable pub encode_single_point_information : SinglePointInformation → List ℕ
encode_single_point_information v = siq v.value v.quality ∷ []

unfoldable pub single_point_information_from_buffer : List ℕ → SinglePointInformation
single_point_information_from_buffer l = record {
  value = bit_and (get_or l 0 0) 1 == 1;
  quality = bit_and (get_or l 0 0) 0xf0;
}

-- M_SP_NA_1
abbrev pub single_point_information : Codec
single_point_information = record {
  Value = SinglePointInformation;
  type_id = 1;
  required = sized 1;
  element_size = 1;
  layout = by_sequence;
  bytes = encode_single_point_information;
  value = single_point_information_from_buffer;
  Fits = λ v. IsQuality v.quality;
}

pub single_point_information-IsLawful : IsLawful single_point_information
unfolding encode_single_point_information single_point_information_from_buffer
single_point_information-IsLawful = record {
  length-bytes = λ v. refl;
  value-bytes = λ v rest h. cc (siq_value v.value v.quality (h), siq_quality v.value v.quality (h));
}

pub record SinglePointWithCp24Time2a : Type 0 where
  pub value : Bool
  pub quality : ℕ
  pub timestamp : Cp24Time2a

unfoldable pub encode_single_point_with_cp24_time2a : SinglePointWithCp24Time2a → List ℕ
encode_single_point_with_cp24_time2a v = siq v.value v.quality ∷ cp24_octets v.timestamp

unfoldable pub single_point_with_cp24_time2a_from_buffer : List ℕ → SinglePointWithCp24Time2a
single_point_with_cp24_time2a_from_buffer l = record {
  value = bit_and (get_or l 0 0) 1 == 1;
  quality = bit_and (get_or l 0 0) 0xf0;
  timestamp = cp24_at l 1;
}

-- M_SP_TA_1
abbrev pub single_point_with_cp24_time2a : Codec
single_point_with_cp24_time2a = record {
  Value = SinglePointWithCp24Time2a;
  type_id = 2;
  required = sized 4;
  element_size = 4;
  layout = by_sequence;
  bytes = encode_single_point_with_cp24_time2a;
  value = single_point_with_cp24_time2a_from_buffer;
  Fits = λ v. IsQuality v.quality × AllBytes (cp24_octets v.timestamp);
}

pub single_point_with_cp24_time2a-IsLawful : IsLawful single_point_with_cp24_time2a
unfolding encode_single_point_with_cp24_time2a single_point_with_cp24_time2a_from_buffer
single_point_with_cp24_time2a-IsLawful = record {
  length-bytes = λ v. refl;
  value-bytes =
      λ v rest h. cc (siq_value v.value v.quality (h.0), siq_quality v.value v.quality (h.0));
}

pub record SinglePointWithCp56Time2a : Type 0 where
  pub value : Bool
  pub quality : ℕ
  pub timestamp : Cp56Time2a

unfoldable pub encode_single_point_with_cp56_time2a : SinglePointWithCp56Time2a → List ℕ
encode_single_point_with_cp56_time2a v = siq v.value v.quality ∷ cp56_octets v.timestamp

unfoldable pub single_point_with_cp56_time2a_from_buffer : List ℕ → SinglePointWithCp56Time2a
single_point_with_cp56_time2a_from_buffer l = record {
  value = bit_and (get_or l 0 0) 1 == 1;
  quality = bit_and (get_or l 0 0) 0xf0;
  timestamp = cp56_at l 1;
}

-- M_SP_TB_1
abbrev pub single_point_with_cp56_time2a : Codec
single_point_with_cp56_time2a = record {
  Value = SinglePointWithCp56Time2a;
  type_id = 30;
  required = sized 8;
  element_size = 8;
  layout = by_sequence;
  bytes = encode_single_point_with_cp56_time2a;
  value = single_point_with_cp56_time2a_from_buffer;
  Fits = λ v. IsQuality v.quality × AllBytes (cp56_octets v.timestamp);
}

pub single_point_with_cp56_time2a-IsLawful : IsLawful single_point_with_cp56_time2a
unfolding encode_single_point_with_cp56_time2a single_point_with_cp56_time2a_from_buffer
single_point_with_cp56_time2a-IsLawful = record {
  length-bytes = λ v. refl;
  value-bytes =
      λ v rest h. cc (siq_value v.value v.quality (h.0), siq_quality v.value v.quality (h.0));
}
