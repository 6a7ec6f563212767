-- ===== src/Cs101/Asdu.antt =====
-- Received ASDUs: `CS101_ASDU_createFromBufferEx` of cs101_asdu.c and what it checks. The message is
-- the list of its bytes, and a length is the C length beside it.
use lib.Prelude.{
  ℕ, ◌+◌, ◌-◌, ◌*◌, Bool, false, Option, none, some, List, [], ◌∷◌, ◌&&◌, get_or, drop, ltb, ◌==◌,
  ◌!=◌, if◌then◌else◌, bit_and,
}

-- `struct sCS101_AppLayerParameters`
pub record AppLayerParameters : Type 0 where
  pub size_of_type_id : ℕ
  pub size_of_vsq : ℕ
  pub size_of_cot : ℕ
  pub originator_address : ℕ
  pub size_of_ca : ℕ
  pub size_of_ioa : ℕ
  pub max_size_of_asdu : ℕ

-- `struct sCS101_ASDU`, for an ASDU that stands in a received message.
pub record Asdu : Type 0 where
  pub parameters : AppLayerParameters
  pub asdu : List ℕ
  pub asdu_header_length : ℕ
  pub payload : List ℕ
  pub payload_size : ℕ

-- The cases of the `switch` of `getElementDataSize`: type identification and size.
abbrev pub element_data_sizes : List (ℕ × ℕ)
element_data_sizes =
    (1, 1)
    ∷ (2, 4)
    ∷ (3, 1)
    ∷ (4, 4)
    ∷ (5, 2)
    ∷ (6, 5)
    ∷ (7, 5)
    ∷ (8, 8)
    ∷ (9, 3)
    ∷ (10, 6)
    ∷ (11, 3)
    ∷ (12, 6)
    ∷ (13, 5)
    ∷ (14, 8)
    ∷ (15, 5)
    ∷ (16, 8)
    ∷ (17, 6)
    ∷ (18, 7)
    ∷ (19, 7)
    ∷ (20, 5)
    ∷ (21, 2)
    ∷ (30, 8)
    ∷ (31, 8)
    ∷ (32, 9)
    ∷ (33, 12)
    ∷ (34, 10)
    ∷ (35, 10)
    ∷ (36, 12)
    ∷ (37, 12)
    ∷ (38, 10)
    ∷ (39, 11)
    ∷ (40, 11)
    ∷ (41, 14)
    ∷ (45, 1)
    ∷ (46, 1)
    ∷ (47, 1)
    ∷ (48, 3)
    ∷ (49, 3)
    ∷ (50, 5)
    ∷ (51, 4)
    ∷ (58, 8)
    ∷ (59, 8)
    ∷ (60, 8)
    ∷ (61, 10)
    ∷ (62, 10)
    ∷ (63, 12)
    ∷ (64, 11)
    ∷ (70, 1)
    ∷ (100, 1)
    ∷ (101, 1)
    ∷ (102, 0)
    ∷ (103, 7)
    ∷ (104, 2)
    ∷ (105, 1)
    ∷ (106, 2)
    ∷ (107, 9)
    ∷ (110, 3)
    ∷ (111, 3)
    ∷ (112, 5)
    ∷ (113, 1)
    ∷ (120, 6)
    ∷ (121, 7)
    ∷ (122, 4)
    ∷ (123, 5)
    ∷ (124, 4)
    ∷ (126, 13)
    ∷ (127, 16)
    ∷ []

pub size_in : List (ℕ × ℕ) → ℕ → Option ℕ
size_in [] type_id = none
size_in ((t, size) ∷ rest) type_id = if t == type_id then some size else size_in rest type_id

-- `getElementDataSize`, with `none` for -1
unfoldable pub get_element_data_size : ℕ → Option ℕ
unfolding size_in
get_element_data_size type_id = size_in element_data_sizes type_id

-- The least payload of `n` elements of `size` bytes; `sequence` is the SQ bit.
abbrev pub expected_min_payload : AppLayerParameters → Bool → ℕ → ℕ → ℕ
expected_min_payload p sequence n size =
    if sequence then p.size_of_ioa + n * size else n * (p.size_of_ioa + size)

-- Whether the check of the variable structure qualifier refuses the message.
abbrev pub payload_too_small : AppLayerParameters → ℕ → Bool → ℕ → Option ℕ → Bool
payload_too_small p payload_size sequence n none = false
payload_too_small p payload_size sequence n (some size) =
    ltb 0 n && ltb payload_size (expected_min_payload p sequence n size)

abbrev pub header_length : AppLayerParameters → ℕ
header_length p = 2 + p.size_of_cot + p.size_of_ca

unfoldable pub create_from_buffer : AppLayerParameters → List ℕ → ℕ → Option Asdu
create_from_buffer p msg msg_length =
    if ltb msg_length (header_length p)
    then none
    else if payload_too_small p (msg_length - header_length p) (bit_and (get_or msg 1 0) 0x80 != 0)
        (bit_and (get_or msg 1 0) 0x7f) (get_element_data_size (get_or msg 0 0))
    then none
    else some (record {
      parameters = p;
      asdu = msg;
      asdu_header_length = header_length p;
      payload = drop (header_length p) msg;
      payload_size = msg_length - header_length p;
    })
