-- ===== src/Cs101/Objects/Circuits.antt =====
-- Information objects: output circuits of protection equipment, and packed single points. An encode function that calls that of the type without its time
-- stamp is written out.
use lib.Prelude.{ℕ, ◌<◌, refl, List, [], ◌∷◌, ◌++◌, get_or}
use lib.Prelude.Bytes.{AllBytes}
use lib.Apl.Time.{Cp56Time2a}
use lib.Cs101.Objects.{by_sequence, Codec, IsLawful, sized}
use lib.Cs101.Objects.Octets.{
  TwoOctets, two_octets, two_octets_at, FourOctets, four_octets, four_octets_at, Cp24Time2a,
  cp24_octets, cp24_at, cp56_octets, cp56_at,
}

pub record PackedOutputCircuitInfo : Type 0 where
  pub oci : ℕ
  pub qdp : ℕ
  pub operating_time : TwoOctets
  pub timestamp : Cp24Time2a

unfoldable pub encode_packed_output_circuit_info : PackedOutputCircuitInfo → List ℕ
encode_packed_output_circuit_info v =
    v.oci ∷ v.qdp ∷ two_octets v.operating_time ++ (cp24_octets v.timestamp)

unfoldable pub packed_output_circuit_info_from_buffer : List ℕ → PackedOutputCircuitInfo
packed_output_circuit_info_from_buffer l = record {
  oci = get_or l 0 0;
  qdp = get_or l 1 0;
  operating_time = two_octets_at l 2;
  timestamp = cp24_at l 4;
}

-- M_EP_TC_1
abbrev pub packed_output_circuit_info : Codec
packed_output_circuit_info = record {
  Value = PackedOutputCircuitInfo;
  type_id = 19;
  required = sized 7;
  element_size = 7;
  layout = by_sequence;
  bytes = encode_packed_output_circuit_info;
  value = packed_output_circuit_info_from_buffer;
  Fits = λ v.
      (v.oci < 256)
      × (v.qdp < 256)
      × AllBytes (two_octets v.operating_time)
      × AllBytes (cp24_octets v.timestamp);
}

pub packed_output_circuit_info-IsLawful : IsLawful packed_output_circuit_info
unfolding encode_packed_output_circuit_info packed_output_circuit_info_from_buffer
packed_output_circuit_info-IsLawful = record {
  length-bytes = λ v. refl;
  value-bytes = λ v rest h. refl;
}

pub record PackedOutputCircuitInfoWithCp56Time2a : Type 0 where
  pub oci : ℕ
  pub qdp : ℕ
  pub operating_time : TwoOctets
  pub timestamp : Cp56Time2a

unfoldable pub encode_packed_output_circuit_info_with_cp56_time2a :
    PackedOutputCircuitInfoWithCp56Time2a → List ℕ
encode_packed_output_circuit_info_with_cp56_time2a v =
    v.oci ∷ v.qdp ∷ two_octets v.operating_time ++ (cp56_octets v.timestamp)

unfoldable pub packed_output_circuit_info_with_cp56_time2a_from_buffer :
    List ℕ → PackedOutputCircuitInfoWithCp56Time2a
packed_output_circuit_info_with_cp56_time2a_from_buffer l = record {
  oci = get_or l 0 0;
  qdp = get_or l 1 0;
  operating_time = two_octets_at l 2;
  timestamp = cp56_at l 4;
}

-- M_EP_TF_1
abbrev pub packed_output_circuit_info_with_cp56_time2a : Codec
packed_output_circuit_info_with_cp56_time2a = record {
  Value = PackedOutputCircuitInfoWithCp56Time2a;
  type_id = 40;
  required = sized 11;
  element_size = 11;
  layout = by_sequence;
  bytes = encode_packed_output_circuit_info_with_cp56_time2a;
  value = packed_output_circuit_info_with_cp56_time2a_from_buffer;
  Fits = λ v.
      (v.oci < 256)
      × (v.qdp < 256)
      × AllBytes (two_octets v.operating_time)
      × AllBytes (cp56_octets v.timestamp);
}

pub packed_output_circuit_info_with_cp56_time2a-IsLawful :
    IsLawful packed_output_circuit_info_with_cp56_time2a
unfolding encode_packed_output_circuit_info_with_cp56_time2a
    packed_output_circuit_info_with_cp56_time2a_from_buffer
packed_output_circuit_info_with_cp56_time2a-IsLawful = record {
  length-bytes = λ v. refl;
  value-bytes = λ v rest h. refl;
}

pub record PackedSinglePointWithScd : Type 0 where
  pub scd : FourOctets
  pub qds : ℕ

unfoldable pub encode_packed_single_point_with_scd : PackedSinglePointWithScd → List ℕ
encode_packed_single_point_with_scd v = four_octets v.scd ++ (v.qds ∷ [])

unfoldable pub packed_single_point_with_scd_from_buffer : List ℕ → PackedSinglePointWithScd
packed_single_point_with_scd_from_buffer l = record { scd = four_octets_at l 0; qds = get_or l 4 0 }

-- M_PS_NA_1
abbrev pub packed_single_point_with_scd : Codec
packed_single_point_with_scd = record {
  Value = PackedSinglePointWithScd;
  type_id = 20;
  required = sized 5;
  element_size = 5;
  layout = by_sequence;
  bytes = encode_packed_single_point_with_scd;
  value = packed_single_point_with_scd_from_buffer;
  Fits = λ v. AllBytes (four_octets v.scd) × (v.qds < 256);
}

pub packed_single_point_with_scd-IsLawful : IsLawful packed_single_point_with_scd
unfolding encode_packed_single_point_with_scd packed_single_point_with_scd_from_buffer
packed_single_point_with_scd-IsLawful = record {
  length-bytes = λ v. refl;
  value-bytes = λ v rest h. refl;
}
