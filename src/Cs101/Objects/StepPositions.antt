-- ===== src/Cs101/Objects/StepPositions.antt =====
-- Information objects: step positions. An encode function that calls that of the type without its time
-- stamp is written out.
use lib.Prelude.{ℕ, ◌<◌, refl, List, [], ◌∷◌, get_or}
use lib.Prelude.Bytes.{AllBytes}
use lib.Apl.Time.{Cp56Time2a}
use lib.Cs101.Objects.{by_sequence, Codec, IsLawful, sized}
use lib.Cs101.Objects.Octets.{Cp24Time2a, cp24_octets, cp24_at, cp56_octets, cp56_at}

pub record StepPositionInformation : Type 0 where
  pub vti : ℕ
  pub quality : ℕ

unfoldable pub encode_step_position_information : StepPositionInformation → List ℕ
encode_step_position_information v = v.vti ∷ v.quality ∷ []

unfoldable pub step_position_information_from_buffer : List ℕ → StepPositionInformation
step_position_information_from_buffer l = record { vti = get_or l 0 0; quality = get_or l 1 0 }

-- M_ST_NA_1
abbrev pub step_position_information : Codec
step_position_information = record {
  Value = StepPositionInformation;
  type_id = 5;
  required = sized 2;
  element_size = 2;
  layout = by_sequence;
  bytes = encode_step_position_information;
  value = step_position_information_from_buffer;
  Fits = λ v. (v.vti < 256) × (v.quality < 256);
}

pub step_position_information-IsLawful : IsLawful step_position_information
unfolding encode_step_position_information step_position_information_from_buffer
step_position_information-IsLawful = record {
  length-bytes = λ v. refl;
  value-bytes = λ v rest h. refl;
}

pub record StepPositionWithCp24Time2a : Type 0 where
  pub vti : ℕ
  pub quality : ℕ
  pub timestamp : Cp24Time2a

unfoldable pub encode_step_position_with_cp24_time2a : StepPositionWithCp24Time2a → List ℕ
encode_step_position_with_cp24_time2a v = v.vti ∷ v.quality ∷ cp24_octets v.timestamp

unfoldable pub step_position_with_cp24_time2a_from_buffer : List ℕ → StepPositionWithCp24Time2a
step_position_with_cp24_time2a_from_buffer l = record {
  vti = get_or l 0 0;
  quality = get_or l 1 0;
  timestamp = cp24_at l 2;
}

-- M_ST_TA_1
abbrev pub step_position_with_cp24_time2a : Codec
step_position_with_cp24_time2a = record {
  Value = StepPositionWithCp24Time2a;
  type_id = 6;
  required = sized 5;
  element_size = 5;
  layout = by_sequence;
  bytes = encode_step_position_with_cp24_time2a;
  value = step_position_with_cp24_time2a_from_buffer;
  Fits = λ v. (v.vti < 256) × (v.quality < 256) × AllBytes (cp24_octets v.timestamp);
}

pub step_position_with_cp24_time2a-IsLawful : IsLawful step_position_with_cp24_time2a
unfolding encode_step_position_with_cp24_time2a step_position_with_cp24_time2a_from_buffer
step_position_with_cp24_time2a-IsLawful = record {
  length-bytes = λ v. refl;
  value-bytes = λ v rest h. refl;
}

pub record StepPositionWithCp56Time2a : Type 0 where
  pub vti : ℕ
  pub quality : ℕ
  pub timestamp : Cp56Time2a

unfoldable pub encode_step_position_with_cp56_time2a : StepPositionWithCp56Time2a → List ℕ
encode_step_position_with_cp56_time2a v = v.vti ∷ v.quality ∷ cp56_octets v.timestamp

unfoldable pub step_position_with_cp56_time2a_from_buffer : List ℕ → StepPositionWithCp56Time2a
step_position_with_cp56_time2a_from_buffer l = record {
  vti = get_or l 0 0;
  quality = get_or l 1 0;
  timestamp = cp56_at l 2;
}

-- M_ST_TB_1
abbrev pub step_position_with_cp56_time2a : Codec
step_position_with_cp56_time2a = record {
  Value = StepPositionWithCp56Time2a;
  type_id = 32;
  required = sized 9;
  element_size = 9;
  layout = by_sequence;
  bytes = encode_step_position_with_cp56_time2a;
  value = step_position_with_cp56_time2a_from_buffer;
  Fits = λ v. (v.vti < 256) × (v.quality < 256) × AllBytes (cp56_octets v.timestamp);
}

pub step_position_with_cp56_time2a-IsLawful : IsLawful step_position_with_cp56_time2a
unfolding encode_step_position_with_cp56_time2a step_position_with_cp56_time2a_from_buffer
step_position_with_cp56_time2a-IsLawful = record {
  length-bytes = λ v. refl;
  value-bytes = λ v rest h. refl;
}
