-- ===== src/Cs101/Objects/Bitstrings.antt =====
-- Information objects: bit strings of 32 bits, measured and commanded. An encode function that calls that of the type without its time
-- stamp is written out.
use lib.Prelude.{ℕ, ◌<◌, refl, List, [], ◌∷◌, ◌++◌, get_or}
use lib.Prelude.Bytes.{AllBytes}
use lib.Apl.Time.{Cp56Time2a}
use lib.Cs101.Objects.{by_sequence, with_address, Codec, IsLawful, sized}
use lib.Cs101.Objects.Octets.{
  Cp24Time2a, cp24_octets, cp24_at, cp56_octets, cp56_at, u32_octets, u32_at, u32_lem,
}

pub record BitString32 : Type 0 where
  pub value : ℕ
  pub quality : ℕ

unfoldable pub encode_bit_string32 : BitString32 → List ℕ
encode_bit_string32 v = u32_octets v.value ++ (v.quality ∷ [])

unfoldable pub bit_string32_from_buffer : List ℕ → BitString32
bit_string32_from_buffer l = record { value = u32_at l 0; quality = get_or l 4 0 }

-- M_BO_NA_1
abbrev pub bit_string32 : Codec
bit_string32 = record {
  Value = BitString32;
  type_id = 7;
  required = sized 5;
  element_size = 5;
  layout = by_sequence;
  bytes = encode_bit_string32;
  value = bit_string32_from_buffer;
  Fits = λ v. (v.value < 0x100000000) × (v.quality < 256);
}

pub bit_string32-IsLawful : IsLawful bit_string32
unfolding encode_bit_string32 bit_string32_from_buffer
bit_string32-IsLawful = record {
  length-bytes = λ v. refl;
  value-bytes = λ v rest h. cc (u32_lem v.value h.0);
}

pub record Bitstring32WithCp24Time2a : Type 0 where
  pub value : ℕ
  pub quality : ℕ
  pub timestamp : Cp24Time2a

unfoldable pub encode_bitstring32_with_cp24_time2a : Bitstring32WithCp24Time2a → List ℕ
encode_bitstring32_with_cp24_time2a v = u32_octets v.value ++ (v.quality ∷ cp24_octets v.timestamp)

unfoldable pub bitstring32_with_cp24_time2a_from_buffer : List ℕ → Bitstring32WithCp24Time2a
bitstring32_with_cp24_time2a_from_buffer l = record {
  value = u32_at l 0;
  quality = get_or l 4 0;
  timestamp = cp24_at l 5;
}

-- M_BO_TA_1
abbrev pub bitstring32_with_cp24_time2a : Codec
bitstring32_with_cp24_time2a = record {
  Value = Bitstring32WithCp24Time2a;
  type_id = 8;
  required = sized 8;
  element_size = 8;
  layout = by_sequence;
  bytes = encode_bitstring32_with_cp24_time2a;
  value = bitstring32_with_cp24_time2a_from_buffer;
  Fits = λ v. (v.value < 0x100000000) × (v.quality < 256) × AllBytes (cp24_octets v.timestamp);
}

pub bitstring32_with_cp24_time2a-IsLawful : IsLawful bitstring32_with_cp24_time2a
unfolding encode_bitstring32_with_cp24_time2a bitstring32_with_cp24_time2a_from_buffer
bitstring32_with_cp24_time2a-IsLawful = record {
  length-bytes = λ v. refl;
  value-bytes = λ v rest h. cc (u32_lem v.value h.0);
}

pub record Bitstring32WithCp56Time2a : Type 0 where
  pub value : ℕ
  pub quality : ℕ
  pub timestamp : Cp56Time2a

unfoldable pub encode_bitstring32_with_cp56_time2a : Bitstring32WithCp56Time2a → List ℕ
encode_bitstring32_with_cp56_time2a v = u32_octets v.value ++ (v.quality ∷ cp56_octets v.timestamp)

unfoldable pub bitstring32_with_cp56_time2a_from_buffer : List ℕ → Bitstring32WithCp56Time2a
bitstring32_with_cp56_time2a_from_buffer l = record {
  value = u32_at l 0;
  quality = get_or l 4 0;
  timestamp = cp56_at l 5;
}

-- M_BO_TB_1
abbrev pub bitstring32_with_cp56_time2a : Codec
bitstring32_with_cp56_time2a = record {
  Value = Bitstring32WithCp56Time2a;
  type_id = 33;
  required = sized 12;
  element_size = 12;
  layout = by_sequence;
  bytes = encode_bitstring32_with_cp56_time2a;
  value = bitstring32_with_cp56_time2a_from_buffer;
  Fits = λ v. (v.value < 0x100000000) × (v.quality < 256) × AllBytes (cp56_octets v.timestamp);
}

pub bitstring32_with_cp56_time2a-IsLawful : IsLawful bitstring32_with_cp56_time2a
unfolding encode_bitstring32_with_cp56_time2a bitstring32_with_cp56_time2a_from_buffer
bitstring32_with_cp56_time2a-IsLawful = record {
  length-bytes = λ v. refl;
  value-bytes = λ v rest h. cc (u32_lem v.value h.0);
}

pub record Bitstring32Command : Type 0 where
  pub value : ℕ

unfoldable pub encode_bitstring32_command : Bitstring32Command → List ℕ
encode_bitstring32_command v = u32_octets v.value

unfoldable pub bitstring32_command_from_buffer : List ℕ → Bitstring32Command
bitstring32_command_from_buffer l = record { value = u32_at l 0 }

-- C_BO_NA_1
abbrev pub bitstring32_command : Codec
bitstring32_command = record {
  Value = Bitstring32Command;
  type_id = 51;
  required = sized 5;
  element_size = 4;
  layout = with_address;
  bytes = encode_bitstring32_command;
  value = bitstring32_command_from_buffer;
  Fits = λ v. (v.value < 0x100000000);
}

pub bitstring32_command-IsLawful : IsLawful bitstring32_command
unfolding encode_bitstring32_command bitstring32_command_from_buffer
bitstring32_command-IsLawful = record {
  length-bytes = λ v. refl;
  value-bytes = λ v rest h. cc (u32_lem v.value h);
}

pub record Bitstring32CommandWithCp56Time2a : Type 0 where
  pub value : ℕ
  pub timestamp : Cp56Time2a

unfoldable pub encode_bitstring32_command_with_cp56_time2a :
    Bitstring32CommandWithCp56Time2a → List ℕ
encode_bitstring32_command_with_cp56_time2a v = u32_octets v.value ++ (cp56_octets v.timestamp)

unfoldable pub bitstring32_command_with_cp56_time2a_from_buffer :
    List ℕ → Bitstring32CommandWithCp56Time2a
bitstring32_command_with_cp56_time2a_from_buffer l = record {
  value = u32_at l 0;
  timestamp = cp56_at l 4;
}

-- C_BO_TA_1
abbrev pub bitstring32_command_with_cp56_time2a : Codec
bitstring32_command_with_cp56_time2a = record {
  Value = Bitstring32CommandWithCp56Time2a;
  type_id = 64;
  required = sized 12;
  element_size = 11;
  layout = with_address;
  bytes = encode_bitstring32_command_with_cp56_time2a;
  value = bitstring32_command_with_cp56_time2a_from_buffer;
  Fits = λ v. (v.value < 0x100000000) × AllBytes (cp56_octets v.timestamp);
}

pub bitstring32_command_with_cp56_time2a-IsLawful : IsLawful bitstring32_command_with_cp56_time2a
unfolding encode_bitstring32_command_with_cp56_time2a
    bitstring32_command_with_cp56_time2a_from_buffer
bitstring32_command_with_cp56_time2a-IsLawful = record {
  length-bytes = λ v. refl;
  value-bytes = λ v rest h. cc (u32_lem v.value h.0);
}
