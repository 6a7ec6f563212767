-- ===== src/LinkLayer/Parser.antt =====
-- The parsers of link_layer.c, up to the state machine that they call. The bytes from `cs_start`
-- up to `cs_index` are checked; `user_data_length` is an `int` that is negative for a frame too short
-- for its address, and is 0 here: it is used only where it is positive. Bytes behind the end of the
-- message are read as 0; the source would read what its buffer has there.
use lib.Prelude.{
  ℕ, ◌+◌, ◌-◌, ◌*◌, Bool, false, not, Option, none, some, List, get_or, take, drop, ◌==◌, ◌!=◌,
  if◌then◌else◌, bit_and,
}
use lib.LinkLayer.Frame.{checksum, fc_user_data_no_reply}

abbrev pub byte : List ℕ → ℕ → ℕ
byte msg i = get_or msg i 0

-- Where the parts of a message stand.
pub record Layout : Type 0 where
  pub control : ℕ
  pub cs_start : ℕ
  pub cs_index : ℕ
  pub user_data_start : ℕ
  pub user_data_length : ℕ

-- The length octets and the size of a variable-length frame, and the parts of both kinds of frame.
unfoldable pub layout : ℕ → List ℕ → ℕ → Option Layout
layout address_length msg msg_size =
    if byte msg 0 == 0x68
    then (if byte msg 1 != byte msg 2
        then none
        else if msg_size != 4 + byte msg 1 + 2
        then none
        else some (record {
          control = byte msg 4;
          cs_start = 4;
          cs_index = 4 + byte msg 1;
          user_data_start = 5 + address_length;
          user_data_length = byte msg 1 - address_length - 1;
        }))
    else if byte msg 0 == 0x10
    then some (record {
      control = byte msg 1;
      cs_start = 1;
      cs_index = 2 + address_length;
      user_data_start = 0;
      user_data_length = 0;
    })
    else none

abbrev pub address_of : ℕ → List ℕ → ℕ → ℕ
address_of address_length msg cs_start =
    if address_length == 0
    then 0
    else if address_length == 1
    then byte msg (cs_start + 1)
    else (byte msg (cs_start + 1) + byte msg (cs_start + 2) * 0x100)

abbrev pub is_broadcast_address : ℕ → ℕ → Bool
is_broadcast_address address_length address =
    if address_length == 0
    then false
    else if address_length == 1
    then address == 255
    else (address == 65535)

-- The loop over the bytes from `cs_start` up to `cs_index`, and the comparison after it.
abbrev pub checksum_ok : List ℕ → Layout → Bool
checksum_ok msg l =
    checksum (take (l.cs_index - l.cs_start) (drop l.cs_start msg)) == byte msg l.cs_index

-- A primary message as a secondary station takes it.
pub record Request : Type 0 where
  pub fc : ℕ
  pub is_broadcast : Bool
  pub fcb : Bool
  pub fcv : Bool
  pub user_data_start : ℕ
  pub user_data_length : ℕ

-- What the parser of an unbalanced secondary station makes of a message: an error of the link, a
-- message for another station, or a request.
pub data Parsed : Type 0 where
  error : Parsed
  ignored : Parsed
  request : Request → Parsed

abbrev pub request_of : Layout → Bool → Parsed
request_of l is_broadcast =
    if bit_and l.control 0x40 == 0x40
    then request (record {
      fc = bit_and l.control 0x0f;
      is_broadcast = is_broadcast;
      fcb = bit_and l.control 0x20 == 0x20;
      fcv = bit_and l.control 0x10 == 0x10;
      user_data_start = l.user_data_start;
      user_data_length = l.user_data_length;
    })
    else error

-- The checks of `ParserHeaderSecondaryUnbalanced` on a laid out message, in their order.
abbrev pub check_layout : ℕ → ℕ → List ℕ → Option Layout → Parsed
check_layout address_length own_address msg none = error
check_layout address_length own_address msg (some l) =
    let address = address_of address_length msg l.cs_start in
    let is_broadcast = is_broadcast_address address_length address in
    let checked = if checksum_ok msg l then request_of l is_broadcast else error in
    if is_broadcast
    then (if bit_and l.control 0x0f != fc_user_data_no_reply then error else checked)
    else if address != own_address
    then ignored
    else checked

unfoldable pub parse_header : ℕ → ℕ → List ℕ → ℕ → Parsed
unfolding layout
parse_header address_length own_address msg msg_size =
    check_layout address_length own_address msg (layout address_length msg msg_size)

-- A message as a balanced station takes it: of its peer's primary or secondary link layer.
pub data Balanced : Type 0 where
  discarded : Balanced
  single_char_ack : Balanced
  to_secondary : Request → Balanced
  to_primary : (fc : ℕ) → (dir dfc acd : Bool) → (address : ℕ) → Layout → Balanced

abbrev pub check_balanced : ℕ → List ℕ → Option Layout → Balanced
check_balanced address_length msg none = discarded
check_balanced address_length msg (some l) =
    if not (checksum_ok msg l)
    then discarded
    else if bit_and l.control 0x40 == 0x40
    then to_secondary (record {
      fc = bit_and l.control 0x0f;
      is_broadcast = false;
      fcb = bit_and l.control 0x20 == 0x20;
      fcv = bit_and l.control 0x10 == 0x10;
      user_data_start = l.user_data_start;
      user_data_length = l.user_data_length;
    })
    else (to_primary (bit_and l.control 0x0f) (bit_and l.control 0x80 == 0x80)
        (bit_and l.control 0x10 == 0x10) (bit_and l.control 0x20 == 0x20)
        (address_of address_length msg l.cs_start) l)

-- `HandleMessageBalancedAndPrimaryUnbalanced`, up to the calls of the state machines.
unfoldable pub parse_balanced : ℕ → List ℕ → ℕ → Balanced
unfolding layout
parse_balanced address_length msg msg_size =
    if byte msg 0 == 0xe5
    then single_char_ack
    else check_balanced address_length msg (layout address_length msg msg_size)
