-- ===== src/LinkLayer/Tests.antt =====
-- Frames and stations of the link layer at concrete values.
use lib.Prelude.{ℕ, ◌≡◌, refl, true, false, some, List, [], ◌∷◌, take, drop, set, arith}
use lib.LinkLayer.Frame.{
  fixed_frame, variable_length_frame, control_field, address_field, checksum_from,
}
use lib.LinkLayer.Parser.{request, to_secondary, to_primary, parse_header, parse_balanced}
use lib.LinkLayer.Codec.{
  request_at, fixed_layout, Refused, fixed_frame_understood, fixed_frame_exchanged,
  variable_length_frame_understood, fixed_frame_damaged, variable_length_frame_damaged,
}

-- A poll of station 5 for class 1 data, with FCB set.
abbrev poll : List ℕ
poll = fixed_frame 1 10 5 true false true true

poll_octets : poll ≡ 0x10 ∷ 0x7a ∷ 0x05 ∷ 0x7f ∷ 0x16 ∷ []
unfolding fixed_frame control_field address_field checksum_from
poll_octets = refl

fixed_frame_understood_example : parse_header 1 5 poll 5 ≡ request (request_at 0 0 10 true true)
fixed_frame_understood_example =
    fixed_frame_understood 1 5 10 5 false true true (omega arith) (omega arith)

fixed_frame_exchanged_example :
    (parse_balanced 2 (fixed_frame 2 9 258 true true false false) 6
      ≡ to_secondary (request_at 0 0 9 false false))
    × (parse_balanced 2 (fixed_frame 2 9 258 false true false false) 6
        ≡ to_primary 9 true false false 258
            (fixed_layout 2 (control_field 9 false true false false)))
fixed_frame_exchanged_example =
    fixed_frame_exchanged 2 258 9 6 true false false (omega arith) (omega arith)

abbrev data_octets : List ℕ
data_octets = 1 ∷ 2 ∷ 3 ∷ []

abbrev data_message : List ℕ
data_message = 0x68 ∷ 5 ∷ 5 ∷ 0x68 ∷ 0x73 ∷ 0x05 ∷ 1 ∷ 2 ∷ 3 ∷ 0x7e ∷ 0x16 ∷ []

data_frame_octets : variable_length_frame 1 3 5 true false true true data_octets ≡ some data_message
unfolding variable_length_frame control_field address_field checksum_from
data_frame_octets = refl

variable_length_frame_understood_example :
    (parse_header 1 5 data_message 11 ≡ request (request_at 6 3 3 true true))
    × (parse_balanced 1 data_message 11 ≡ to_secondary (request_at 6 3 3 true true))
    × (take 3 (drop 6 data_message) ≡ data_octets)
variable_length_frame_understood_example =
    variable_length_frame_understood 1 5 3 false true true data_octets data_message (omega arith)
      (omega arith) data_frame_octets

-- The address of the poll is damaged.
fixed_frame_damaged_example : Refused 1 6 (set poll 2 6) 5
unfolding fixed_frame control_field address_field checksum_from
fixed_frame_damaged_example =
    fixed_frame_damaged 1 6 10 5 5 1 6 true false true true (omega arith) (omega arith)
      (omega arith) (omega arith) (omega arith)

-- The last octet of the data is damaged.
variable_length_frame_damaged_example : Refused 1 5 (set data_message 8 7) 11
variable_length_frame_damaged_example =
    variable_length_frame_damaged 1 5 3 5 4 7 true false true true data_octets data_message
      (omega arith) (omega arith) (omega arith) data_frame_octets (omega arith) (omega arith)
      (omega arith)
