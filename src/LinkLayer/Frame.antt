-- ===== src/LinkLayer/Frame.antt =====
-- The frames that `SendFixedFrame` and `SendVariableLengthFrame` of link_layer.c put together, and
-- the constants of link_layer_private.h.
use lib.Prelude.{
  ℕ, ◌+◌, ◌/◌, ◌%◌, Bool, true, false, Option, none, some, List, [], ◌∷◌, ◌++◌, length, ltb, ◌==◌,
  if◌then◌else◌, bit_and,
}
use lib.Prelude.Bytes.{u8}

-- `struct sLinkLayerParameters`
pub record LinkLayerParameters : Type 0 where
  pub address_length : ℕ
  pub timeout_for_ack : ℕ
  pub timeout_repeat : ℕ
  pub use_single_char_ack : Bool
  pub timeout_link_state : ℕ

-- `LinkLayerState`
pub data LinkLayerState : Type 0 where
  idle error busy available : LinkLayerState

-- The value of the C enumeration.
abbrev pub state_value : LinkLayerState → ℕ
state_value idle = 0
state_value error = 1
state_value busy = 2
state_value available = 3

abbrev pub fc_reset_remote_link : ℕ
fc_reset_remote_link = 0

abbrev pub fc_test_function_for_link : ℕ
fc_test_function_for_link = 2

abbrev pub fc_user_data_confirmed : ℕ
fc_user_data_confirmed = 3

abbrev pub fc_user_data_no_reply : ℕ
fc_user_data_no_reply = 4

abbrev pub fc_reset_fcb : ℕ
fc_reset_fcb = 7

abbrev pub fc_request_link_status : ℕ
fc_request_link_status = 9

abbrev pub fc_request_user_data_class_1 : ℕ
fc_request_user_data_class_1 = 10

abbrev pub fc_request_user_data_class_2 : ℕ
fc_request_user_data_class_2 = 11

abbrev pub fc_ack : ℕ
fc_ack = 0

abbrev pub fc_nack : ℕ
fc_nack = 1

abbrev pub fc_resp_user_data : ℕ
fc_resp_user_data = 8

abbrev pub fc_resp_nack_no_data : ℕ
fc_resp_nack_no_data = 9

abbrev pub fc_status_of_link : ℕ
fc_status_of_link = 11

abbrev pub fc_service_not_functioning : ℕ
fc_service_not_functioning = 14

abbrev pub fc_service_not_implemented : ℕ
fc_service_not_implemented = 15

-- The message of `SendSingleCharCharacter`.
abbrev pub single_char : List ℕ
single_char = 0xe5 ∷ []

abbrev pub flag : Bool → ℕ → ℕ
flag true bit = bit
flag false bit = 0

-- The C field. A `uint8_t` takes the sums; `acd` is FCB and `dfc` is FCV in a primary message.
unfoldable pub control_field : ℕ → Bool → Bool → Bool → Bool → ℕ
control_field fc prm dir acd dfc =
    u8 (
      u8 (u8 (u8 (bit_and fc 0x0f + flag prm 0x40) + flag dir 0x80) + flag acd 0x20)
      + flag dfc 0x10)

-- The octets of an address, for an address length of 0, 1, or 2 and more.
unfoldable pub address_field : ℕ → ℕ → List ℕ
address_field address_length address =
    if address_length == 0
    then []
    else if address_length == 1
    then (address % 0x100) ∷ []
    else (address % 0x100) ∷ (address / 0x100 % 0x100) ∷ []

-- The loop `checksum += …`, from a `uint8_t` that starts at its first argument.
unfoldable pub checksum_from : ℕ → List ℕ → ℕ
checksum_from sum [] = sum
checksum_from sum (x ∷ xs) = checksum_from (u8 (sum + x)) xs

abbrev pub checksum : List ℕ → ℕ
checksum xs = checksum_from 0 xs

-- `SendFixedFrame`: the message that it sends.
unfoldable pub fixed_frame : ℕ → ℕ → ℕ → Bool → Bool → Bool → Bool → List ℕ
fixed_frame address_length fc address prm dir acd dfc =
    let body = control_field fc prm dir acd dfc ∷ address_field address_length address in
    0x10 ∷ (body ++ (checksum body ∷ 0x16 ∷ []))

-- `SendVariableLengthFrame`: the message that it sends, or `none` if the user data do not fit.
unfoldable pub variable_length_frame :
    ℕ → ℕ → ℕ → Bool → Bool → Bool → Bool → List ℕ → Option (List ℕ)
variable_length_frame address_length fc address prm dir acd dfc user_data =
    let l = 1 + address_length + length user_data in
    let body =
      control_field fc prm dir acd dfc ∷ (address_field address_length address ++ user_data) in
    if ltb 255 l then none else some (0x68 ∷ l ∷ l ∷ 0x68 ∷ (body ++ (checksum body ∷ 0x16 ∷ [])))

-- The messages sent so far, the latest first, after another that may not be one.
abbrev pub send : Option (List ℕ) → List (List ℕ) → List (List ℕ)
send none sent = sent
send (some m) sent = m ∷ sent
