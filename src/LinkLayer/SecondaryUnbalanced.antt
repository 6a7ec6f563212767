-- ===== src/LinkLayer/SecondaryUnbalanced.antt =====
-- `LinkLayerSecondaryUnbalanced` of link_layer.c: the station that answers a polling master. `A` is
-- the state of the application layer and of the handler of state changes.
pub mod Poll
pub mod Repeat
use lib.Prelude.{
  ℕ, ◌+◌, ◌-◌, Bool, true, false, not, ◌&&◌, ◌||◌, Option, none, some, List, [], ◌∷◌, take, length,
  ltb, ◌==◌, bool_eq, if◌then◌else◌,
}
use lib.Prelude.Bytes.{u8}
use lib.LinkLayer.Frame.{
  LinkLayerParameters, LinkLayerState, state_value, single_char, fixed_frame, variable_length_frame,
  send, fc_reset_remote_link, fc_user_data_confirmed, fc_user_data_no_reply, fc_reset_fcb,
  fc_request_link_status, fc_request_user_data_class_1, fc_request_user_data_class_2, fc_ack,
  fc_resp_user_data, fc_resp_nack_no_data, fc_status_of_link, fc_service_not_implemented,
}
use lib.LinkLayer.Frame
use lib.LinkLayer.Parser.{Request, Parsed, ignored, request, parse_header}
use lib.LinkLayer.Parser

-- What `GetClass1Data` and `GetClass2Data` return: nothing, the buffer that they are given with the
-- size of the message in it, or a frame of their own.
pub data Reply : Type 0 where
  no_data : Reply
  in_buffer : ℕ → Reply
  own : List ℕ → Reply

-- `ISecondaryApplicationLayer`; the buffer's content is passed to the two functions that fill it.
pub record Application (A : Type 0) : Type 0 where
  pub is_class_1_data_available : A → Bool
  pub get_class_1_data : A → List ℕ → Reply × List ℕ × A
  pub get_class_2_data : A → List ℕ → Reply × List ℕ × A
  pub handle_received_data : A → List ℕ → Bool → ℕ → ℕ → A
  pub reset_cu_received : A → Bool → A
  pub state_changed : A → LinkLayerState → A

pub record Secondary (A : Type 0) : Type 0 where
  pub state : LinkLayerState
  pub expected_fcb : Bool
  pub parameters : LinkLayerParameters
  pub address : ℕ
  pub last_received_msg : ℕ
  pub idle_timeout : ℕ
  pub user_data_buffer : List ℕ
  pub user_data_size : ℕ
  pub app : A
  pub sent : List (List ℕ)

-- The bytes of a reply, if there is one.
abbrev pub reply_bytes : Reply → List ℕ → Option (List ℕ)
reply_bytes no_data buffer = none
reply_bytes (in_buffer n) buffer = some (take n buffer)
reply_bytes (own bytes) buffer = some bytes

abbrev pub reply_size : Reply → ℕ
reply_size no_data = 0
reply_size (in_buffer n) = u8 n
reply_size (own bytes) = u8 (length bytes)

module _ {A : Type 0} (application : Application A) where
  open application use {
    is_class_1_data_available, get_class_1_data, get_class_2_data, handle_received_data,
    reset_cu_received, state_changed,
  }

  -- `llsu_setState`
  unfoldable pub set_state : LinkLayerState → Secondary A → Secondary A
  set_state new s =
      if state_value s.state == state_value new
      then s
      else record s { state = new; app = state_changed s.app new }

  unfoldable pub send_single_char : Secondary A → Secondary A
  send_single_char s = record s { sent = single_char ∷ s.sent }

  -- `SendFixedFrame` as this station calls it.
  unfoldable pub send_fixed : ℕ → Bool → Secondary A → Secondary A
  send_fixed fc acd s = record s {
    sent = fixed_frame s.parameters.address_length fc s.address false false acd false ∷ s.sent;
  }

  unfoldable pub send_variable : Bool → List ℕ → Secondary A → Secondary A
  send_variable acd bytes s = record s {
    sent =
        send
          (variable_length_frame s.parameters.address_length fc_resp_user_data s.address false false
            acd false bytes)
          s.sent;
  }

  -- An ACK of a reset, and one that may announce class 1 data.
  unfoldable pub acknowledge : Secondary A → Secondary A
  unfolding send_single_char send_fixed
  acknowledge s =
      if s.parameters.use_single_char_ack then send_single_char s else send_fixed fc_ack false s

  -- The single character unless class 1 data wait, else a frame of function `fc`.
  unfoldable pub respond : ℕ → Secondary A → Secondary A
  unfolding send_single_char send_fixed
  respond fc s =
      let access_demand = is_class_1_data_available s.app in
      if s.parameters.use_single_char_ack && not access_demand
      then send_single_char s
      else send_fixed fc access_demand s

  -- `checkFCB`
  unfoldable pub check_fcb : Bool → Secondary A → Bool × Secondary A
  check_fcb fcb s =
      if bool_eq fcb s.expected_fcb
      then (true, record s { expected_fcb = not s.expected_fcb })
      else (false, s)

  -- `checkFCB` if FCV says so; `true` for a new message.
  unfoldable pub check_new : Request → Secondary A → Bool × Secondary A
  unfolding check_fcb
  check_new r s = if r.fcv then check_fcb r.fcb s else (true, s)

  -- The answer with user data, or that there are none.
  unfoldable pub answer_data : Option (List ℕ) → Secondary A → Secondary A
  unfolding respond send_variable
  answer_data none s = respond fc_resp_nack_no_data s
  answer_data (some bytes) s = send_variable (is_class_1_data_available s.app) bytes s

  -- The last message again, if there is one.
  unfoldable pub repeat_data : Secondary A → Secondary A
  unfolding answer_data
  repeat_data s =
      answer_data
        (if ltb 0 s.user_data_size then some (take s.user_data_size s.user_data_buffer) else none) s

  -- A new message from the application layer.
  unfoldable pub fetch_data : (A → List ℕ → Reply × List ℕ × A) → Secondary A → Secondary A
  unfolding answer_data
  fetch_data get s =
      let (reply, buffer, app) = get s.app s.user_data_buffer in
      answer_data (reply_bytes reply buffer)
        (record s { user_data_buffer = buffer; user_data_size = reply_size reply; app = app })

  unfoldable pub request_data :
      (A → List ℕ → Reply × List ℕ × A) → Request → Secondary A → Secondary A
  unfolding check_new repeat_data fetch_data
  request_data get r s =
      let (new, s') = check_new r s in if new then fetch_data get s' else repeat_data s'

  unfoldable pub indicate : Request → List ℕ → Secondary A → Secondary A
  indicate r msg s =
      if ltb 0 r.user_data_length
      then record s {
        app = handle_received_data s.app msg r.is_broadcast r.user_data_start r.user_data_length;
      }
      else s

  unfoldable pub user_data_confirmed : Request → List ℕ → Secondary A → Secondary A
  unfolding check_new indicate respond
  user_data_confirmed r msg s =
      let (new, s') = check_new r s in respond fc_ack (if new then indicate r msg s' else s')

  unfoldable pub reset : Bool → Request → Secondary A → Secondary A
  unfolding set_state acknowledge
  reset only_fcb r s =
      let s' = acknowledge (record s { expected_fcb = true }) in
      if r.fcv || r.fcb
      then set_state Frame.error s
      else record s' { app = reset_cu_received s'.app only_fcb }

  -- `LinkLayerSecondaryUnbalanced_handleMessage`
  unfoldable pub handle_message : Request → List ℕ → Secondary A → Secondary A
  unfolding set_state send_fixed reset request_data user_data_confirmed indicate
  handle_message r msg s0 =
      let s = set_state Frame.available s0 in
      if r.fc == fc_request_link_status
      then (if r.fcv
          then set_state Frame.error s
          else send_fixed fc_status_of_link (is_class_1_data_available s.app) s)
      else if r.fc == fc_reset_remote_link
      then reset false r s
      else if r.fc == fc_reset_fcb
      then reset true r s
      else if r.fc == fc_request_user_data_class_2
      then request_data get_class_2_data r s
      else if r.fc == fc_request_user_data_class_1
      then request_data get_class_1_data r s
      else if r.fc == fc_user_data_confirmed
      then user_data_confirmed r msg s
      else if r.fc == fc_user_data_no_reply
      then (if r.fcv then set_state Frame.error s else indicate r msg s)
      else send_fixed fc_service_not_implemented false s

  -- `ParserHeaderSecondaryUnbalanced`
  unfoldable pub receive : ℕ → List ℕ → ℕ → Secondary A → Secondary A
  unfolding set_state parse_header handle_message
  receive now msg msg_size s0 =
      let s = record s0 { last_received_msg = now } in
      elim (parse_header s.parameters.address_length s.address msg msg_size) [
        | Parser.error ↦ set_state Frame.error s
        | ignored ↦ s
        | request r ↦ handle_message r msg s
      ]

  -- The check of `LinkLayerSecondaryUnbalanced_run` after a message was read. The clock does not
  -- go back, so the subtraction is exact.
  unfoldable pub check_idle : ℕ → Secondary A → Secondary A
  unfolding set_state
  check_idle now s =
      if state_value s.state == state_value Frame.idle
      then s
      else if ltb s.idle_timeout (now - s.last_received_msg)
      then set_state Frame.idle s
      else s
