-- ===== src/Cs101/Objects/Directories.antt =====
-- Information objects: directories of files, and queries of logs. An encode function that calls that of the type without its time
-- stamp is written out.
use lib.Prelude.{ℕ, ◌<◌, refl, List, ◌∷◌, ◌++◌, get_or}
use lib.Prelude.Bytes.{AllBytes}
use lib.Apl.Time.{Cp56Time2a}
use lib.Cs101.Objects.{by_sequence, at_start, Codec, IsLawful, sized}
use lib.Cs101.Objects.Octets.{
  cp56_octets, cp56_at, u16_octets, u16_at, u16_lem, u24_octets, u24_at, u24_lem,
}

pub record FileDirectory : Type 0 where
  pub nof : ℕ
  pub length_of_file : ℕ
  pub sof : ℕ
  pub creation_time : Cp56Time2a

unfoldable pub encode_file_directory : FileDirectory → List ℕ
encode_file_directory v =
    u16_octets v.nof ++ (u24_octets v.length_of_file ++ (v.sof ∷ cp56_octets v.creation_time))

unfoldable pub file_directory_from_buffer : List ℕ → FileDirectory
file_directory_from_buffer l = record {
  nof = u16_at l 0;
  length_of_file = u24_at l 2;
  sof = get_or l 5 0;
  creation_time = cp56_at l 6;
}

-- F_DR_TA_1
abbrev pub file_directory : Codec
file_directory = record {
  Value = FileDirectory;
  type_id = 126;
  required = sized 13;
  element_size = 13;
  layout = by_sequence;
  bytes = encode_file_directory;
  value = file_directory_from_buffer;
  Fits = λ v.
      (v.nof < 0x10000)
      × (v.length_of_file < 0x1000000)
      × (v.sof < 256)
      × AllBytes (cp56_octets v.creation_time);
}

pub file_directory-IsLawful : IsLawful file_directory
unfolding encode_file_directory file_directory_from_buffer
file_directory-IsLawful = record {
  length-bytes = λ v. refl;
  value-bytes = λ v rest h. cc (u16_lem v.nof h.0, u24_lem v.length_of_file h.1);
}

pub record QueryLog : Type 0 where
  pub nof : ℕ
  pub range_start_time : Cp56Time2a
  pub range_stop_time : Cp56Time2a

unfoldable pub encode_query_log : QueryLog → List ℕ
encode_query_log v =
    u16_octets v.nof ++ (cp56_octets v.range_start_time ++ (cp56_octets v.range_stop_time))

unfoldable pub query_log_from_buffer : List ℕ → QueryLog
query_log_from_buffer l = record {
  nof = u16_at l 0;
  range_start_time = cp56_at l 2;
  range_stop_time = cp56_at l 9;
}

-- F_SC_NB_1
abbrev pub query_log : Codec
query_log = record {
  Value = QueryLog;
  type_id = 127;
  required = sized 16;
  element_size = 16;
  layout = at_start;
  bytes = encode_query_log;
  value = query_log_from_buffer;
  Fits = λ v.
      (v.nof < 0x10000)
      × AllBytes (cp56_octets v.range_start_time)
      × AllBytes (cp56_octets v.range_stop_time);
}

pub query_log-IsLawful : IsLawful query_log
unfolding encode_query_log query_log_from_buffer
query_log-IsLawful = record {
  length-bytes = λ v. refl;
  value-bytes = λ v rest h. cc (u16_lem v.nof h.0);
}
