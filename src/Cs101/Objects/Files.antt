-- ===== src/Cs101/Objects/Files.antt =====
-- Information objects: files and sections that are ready, called or acknowledged. An encode function that calls that of the type without its time
-- stamp is written out.
use lib.Prelude.{ℕ, ◌<◌, refl, none, List, [], ◌∷◌, ◌++◌, get_or}
use lib.Cs101.Objects.{at_start, Codec, IsLawful, sized}
use lib.Cs101.Objects.Octets.{u16_octets, u16_at, u16_lem, u24_octets, u24_at, u24_lem}

pub record FileReady : Type 0 where
  pub nof : ℕ
  pub length_of_file : ℕ
  pub frq : ℕ

unfoldable pub encode_file_ready : FileReady → List ℕ
encode_file_ready v = u16_octets v.nof ++ (u24_octets v.length_of_file ++ (v.frq ∷ []))

unfoldable pub file_ready_from_buffer : List ℕ → FileReady
file_ready_from_buffer l = record {
  nof = u16_at l 0;
  length_of_file = u24_at l 2;
  frq = get_or l 5 0;
}

-- F_FR_NA_1
abbrev pub file_ready : Codec
file_ready = record {
  Value = FileReady;
  type_id = 120;
  required = sized 1;
  element_size = 6;
  layout = at_start;
  bytes = encode_file_ready;
  value = file_ready_from_buffer;
  Fits = λ v. (v.nof < 0x10000) × (v.length_of_file < 0x1000000) × (v.frq < 256);
}

pub file_ready-IsLawful : IsLawful file_ready
unfolding encode_file_ready file_ready_from_buffer
file_ready-IsLawful = record {
  length-bytes = λ v. refl;
  value-bytes = λ v rest h. cc (u16_lem v.nof h.0, u24_lem v.length_of_file h.1);
}

pub record SectionReady : Type 0 where
  pub nof : ℕ
  pub name_of_section : ℕ
  pub length_of_section : ℕ
  pub srq : ℕ

unfoldable pub encode_section_ready : SectionReady → List ℕ
encode_section_ready v =
    u16_octets v.nof ++ (v.name_of_section ∷ u24_octets v.length_of_section ++ (v.srq ∷ []))

unfoldable pub section_ready_from_buffer : List ℕ → SectionReady
section_ready_from_buffer l = record {
  nof = u16_at l 0;
  name_of_section = get_or l 2 0;
  length_of_section = u24_at l 3;
  srq = get_or l 6 0;
}

-- F_SR_NA_1
abbrev pub section_ready : Codec
section_ready = record {
  Value = SectionReady;
  type_id = 121;
  required = sized 1;
  element_size = 7;
  layout = at_start;
  bytes = encode_section_ready;
  value = section_ready_from_buffer;
  Fits = λ v.
      (v.nof < 0x10000)
      × (v.name_of_section < 256)
      × (v.length_of_section < 0x1000000)
      × (v.srq < 256);
}

pub section_ready-IsLawful : IsLawful section_ready
unfolding encode_section_ready section_ready_from_buffer
section_ready-IsLawful = record {
  length-bytes = λ v. refl;
  value-bytes = λ v rest h. cc (u16_lem v.nof h.0, u24_lem v.length_of_section h.2);
}

pub record FileCallOrSelect : Type 0 where
  pub nof : ℕ
  pub name_of_section : ℕ
  pub scq : ℕ

unfoldable pub encode_file_call_or_select : FileCallOrSelect → List ℕ
encode_file_call_or_select v = u16_octets v.nof ++ (v.name_of_section ∷ v.scq ∷ [])

unfoldable pub file_call_or_select_from_buffer : List ℕ → FileCallOrSelect
file_call_or_select_from_buffer l = record {
  nof = u16_at l 0;
  name_of_section = get_or l 2 0;
  scq = get_or l 3 0;
}

-- F_SC_NA_1
abbrev pub file_call_or_select : Codec
file_call_or_select = record {
  Value = FileCallOrSelect;
  type_id = 122;
  required = sized 1;
  element_size = 4;
  layout = at_start;
  bytes = encode_file_call_or_select;
  value = file_call_or_select_from_buffer;
  Fits = λ v. (v.nof < 0x10000) × (v.name_of_section < 256) × (v.scq < 256);
}

pub file_call_or_select-IsLawful : IsLawful file_call_or_select
unfolding encode_file_call_or_select file_call_or_select_from_buffer
file_call_or_select-IsLawful = record {
  length-bytes = λ v. refl;
  value-bytes = λ v rest h. cc (u16_lem v.nof h.0);
}

pub record FileLastSegmentOrSection : Type 0 where
  pub nof : ℕ
  pub name_of_section : ℕ
  pub lsq : ℕ
  pub chs : ℕ

unfoldable pub encode_file_last_segment_or_section : FileLastSegmentOrSection → List ℕ
encode_file_last_segment_or_section v = u16_octets v.nof ++ (v.name_of_section ∷ v.lsq ∷ v.chs ∷ [])

unfoldable pub file_last_segment_or_section_from_buffer : List ℕ → FileLastSegmentOrSection
file_last_segment_or_section_from_buffer l = record {
  nof = u16_at l 0;
  name_of_section = get_or l 2 0;
  lsq = get_or l 3 0;
  chs = get_or l 4 0;
}

-- F_LS_NA_1
abbrev pub file_last_segment_or_section : Codec
file_last_segment_or_section = record {
  Value = FileLastSegmentOrSection;
  type_id = 123;
  required = none;
  element_size = 5;
  layout = at_start;
  bytes = encode_file_last_segment_or_section;
  value = file_last_segment_or_section_from_buffer;
  Fits = λ v. (v.nof < 0x10000) × (v.name_of_section < 256) × (v.lsq < 256) × (v.chs < 256);
}

pub file_last_segment_or_section-IsLawful : IsLawful file_last_segment_or_section
unfolding encode_file_last_segment_or_section file_last_segment_or_section_from_buffer
file_last_segment_or_section-IsLawful = record {
  length-bytes = λ v. refl;
  value-bytes = λ v rest h. cc (u16_lem v.nof h.0);
}

pub record FileAck : Type 0 where
  pub nof : ℕ
  pub name_of_section : ℕ
  pub afq : ℕ

unfoldable pub encode_file_ack : FileAck → List ℕ
encode_file_ack v = u16_octets v.nof ++ (v.name_of_section ∷ v.afq ∷ [])

unfoldable pub file_ack_from_buffer : List ℕ → FileAck
file_ack_from_buffer l = record {
  nof = u16_at l 0;
  name_of_section = get_or l 2 0;
  afq = get_or l 3 0;
}

-- F_AF_NA_1
abbrev pub file_ack : Codec
file_ack = record {
  Value = FileAck;
  type_id = 124;
  required = none;
  element_size = 4;
  layout = at_start;
  bytes = encode_file_ack;
  value = file_ack_from_buffer;
  Fits = λ v. (v.nof < 0x10000) × (v.name_of_section < 256) × (v.afq < 256);
}

pub file_ack-IsLawful : IsLawful file_ack
unfolding encode_file_ack file_ack_from_buffer
file_ack-IsLawful = record {
  length-bytes = λ v. refl;
  value-bytes = λ v rest h. cc (u16_lem v.nof h.0);
}
