-- ===== src/Cs101/Objects/Totals.antt =====
-- Information objects: integrated totals. An encode function that calls that of the type without its time
-- stamp is written out.
use lib.Prelude.{ℕ, ◌<◌, refl, List, ◌++◌}
use lib.Prelude.Bytes.{AllBytes}
use lib.Cs101.BinaryCounterReading.{BinaryCounterReading}
use lib.Apl.Time.{Cp56Time2a}
use lib.Cs101.Objects.{by_sequence, Codec, IsLawful, sized}
use lib.Cs101.Objects.Octets.{
  Cp24Time2a, cp24_octets, cp24_at, cp56_octets, cp56_at, bcr_octets, bcr_at, u16_octets, u16_at,
  u16_lem,
}

pub record IntegratedTotals : Type 0 where
  pub totals : BinaryCounterReading

unfoldable pub encode_integrated_totals : IntegratedTotals → List ℕ
encode_integrated_totals v = bcr_octets v.totals

unfoldable pub integrated_totals_from_buffer : List ℕ → IntegratedTotals
integrated_totals_from_buffer l = record { totals = bcr_at l 0 }

-- M_IT_NA_1
abbrev pub integrated_totals : Codec
integrated_totals = record {
  Value = IntegratedTotals;
  type_id = 15;
  required = sized 5;
  element_size = 5;
  layout = by_sequence;
  bytes = encode_integrated_totals;
  value = integrated_totals_from_buffer;
  Fits = λ v. AllBytes (bcr_octets v.totals);
}

pub integrated_totals-IsLawful : IsLawful integrated_totals
unfolding encode_integrated_totals integrated_totals_from_buffer
integrated_totals-IsLawful = record { length-bytes = λ v. refl; value-bytes = λ v rest h. refl }

pub record IntegratedTotalsWithCp24Time2a : Type 0 where
  pub totals : BinaryCounterReading
  pub timestamp : Cp24Time2a

unfoldable pub encode_integrated_totals_with_cp24_time2a : IntegratedTotalsWithCp24Time2a → List ℕ
encode_integrated_totals_with_cp24_time2a v = bcr_octets v.totals ++ (cp24_octets v.timestamp)

unfoldable pub integrated_totals_with_cp24_time2a_from_buffer :
    List ℕ → IntegratedTotalsWithCp24Time2a
integrated_totals_with_cp24_time2a_from_buffer l = record {
  totals = bcr_at l 0;
  timestamp = cp24_at l 5;
}

-- M_IT_TA_1
abbrev pub integrated_totals_with_cp24_time2a : Codec
integrated_totals_with_cp24_time2a = record {
  Value = IntegratedTotalsWithCp24Time2a;
  type_id = 16;
  required = sized 8;
  element_size = 8;
  layout = by_sequence;
  bytes = encode_integrated_totals_with_cp24_time2a;
  value = integrated_totals_with_cp24_time2a_from_buffer;
  Fits = λ v. AllBytes (bcr_octets v.totals) × AllBytes (cp24_octets v.timestamp);
}

pub integrated_totals_with_cp24_time2a-IsLawful : IsLawful integrated_totals_with_cp24_time2a
unfolding encode_integrated_totals_with_cp24_time2a integrated_totals_with_cp24_time2a_from_buffer
integrated_totals_with_cp24_time2a-IsLawful = record {
  length-bytes = λ v. refl;
  value-bytes = λ v rest h. refl;
}

pub record IntegratedTotalsWithCp56Time2a : Type 0 where
  pub totals : BinaryCounterReading
  pub timestamp : Cp56Time2a

unfoldable pub encode_integrated_totals_with_cp56_time2a : IntegratedTotalsWithCp56Time2a → List ℕ
encode_integrated_totals_with_cp56_time2a v = bcr_octets v.totals ++ (cp56_octets v.timestamp)

unfoldable pub integrated_totals_with_cp56_time2a_from_buffer :
    List ℕ → IntegratedTotalsWithCp56Time2a
integrated_totals_with_cp56_time2a_from_buffer l = record {
  totals = bcr_at l 0;
  timestamp = cp56_at l 5;
}

-- M_IT_TB_1
abbrev pub integrated_totals_with_cp56_time2a : Codec
integrated_totals_with_cp56_time2a = record {
  Value = IntegratedTotalsWithCp56Time2a;
  type_id = 37;
  required = sized 12;
  element_size = 12;
  layout = by_sequence;
  bytes = encode_integrated_totals_with_cp56_time2a;
  value = integrated_totals_with_cp56_time2a_from_buffer;
  Fits = λ v. AllBytes (bcr_octets v.totals) × AllBytes (cp56_octets v.timestamp);
}

pub integrated_totals_with_cp56_time2a-IsLawful : IsLawful integrated_totals_with_cp56_time2a
unfolding encode_integrated_totals_with_cp56_time2a integrated_totals_with_cp56_time2a_from_buffer
integrated_totals_with_cp56_time2a-IsLawful = record {
  length-bytes = λ v. refl;
  value-bytes = λ v rest h. refl;
}

pub record IntegratedTotalsForSecurityStatistics : Type 0 where
  pub aid : ℕ
  pub totals : BinaryCounterReading
  pub timestamp : Cp56Time2a

unfoldable pub encode_integrated_totals_for_security_statistics :
    IntegratedTotalsForSecurityStatistics → List ℕ
encode_integrated_totals_for_security_statistics v =
    u16_octets v.aid ++ (bcr_octets v.totals ++ (cp56_octets v.timestamp))

unfoldable pub integrated_totals_for_security_statistics_from_buffer :
    List ℕ → IntegratedTotalsForSecurityStatistics
integrated_totals_for_security_statistics_from_buffer l = record {
  aid = u16_at l 0;
  totals = bcr_at l 2;
  timestamp = cp56_at l 7;
}

-- S_IT_TC_1
abbrev pub integrated_totals_for_security_statistics : Codec
integrated_totals_for_security_statistics = record {
  Value = IntegratedTotalsForSecurityStatistics;
  type_id = 41;
  required = sized 14;
  element_size = 14;
  layout = by_sequence;
  bytes = encode_integrated_totals_for_security_statistics;
  value = integrated_totals_for_security_statistics_from_buffer;
  Fits =
      λ v. (v.aid < 0x10000) × AllBytes (bcr_octets v.totals) × AllBytes (cp56_octets v.timestamp);
}

pub integrated_totals_for_security_statistics-IsLawful :
    IsLawful integrated_totals_for_security_statistics
unfolding encode_integrated_totals_for_security_statistics
    integrated_totals_for_security_statistics_from_buffer
integrated_totals_for_security_statistics-IsLawful = record {
  length-bytes = λ v. refl;
  value-bytes = λ v rest h. cc (u16_lem v.aid h.0);
}
