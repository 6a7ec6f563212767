-- ===== src/LinkLayer/PrimaryBalanced.antt =====
-- `LinkLayerPrimaryBalanced` of link_layer.c: the half of a balanced station that sends.
pub mod Run
pub mod Repeat
pub mod Reconnect
pub mod Stuck
use lib.Prelude.{
  ℕ, ◌+◌, ◌-◌, Bool, true, false, not, ◌&&◌, ◌||◌, Option, none, some, List, [], ◌∷◌, take, ltb,
  ◌==◌, if◌then◌else◌,
}
use lib.LinkLayer.Frame.{
  LinkLayerParameters, LinkLayerState, state_value, fixed_frame, variable_length_frame, send,
  fc_reset_remote_link, fc_test_function_for_link, fc_user_data_confirmed, fc_request_link_status,
  fc_ack, fc_nack, fc_resp_user_data, fc_resp_nack_no_data, fc_status_of_link,
  fc_service_not_functioning, fc_service_not_implemented,
}
use lib.LinkLayer.Frame

-- `PrimaryLinkLayerState`, the part that a balanced station uses, and `PLL_TIMEOUT` and
-- `PLL_EXECUTE_SERVICE_REQUEST_RESPOND`, which it never enters.
pub data PrimaryState : Type 0 where
  idle execute_request_status_of_link execute_reset_remote_link link_layers_available : PrimaryState
  execute_service_send_confirm execute_service_request_respond : PrimaryState
  secondary_link_layer_busy timeout : PrimaryState

-- What `GetUserData` returns: nothing, the buffer that it is given with the size of the message in
-- it, or a frame of its own.
pub data UserData : Type 0 where
  no_data : UserData
  in_buffer : ℕ → UserData
  own : List ℕ → UserData

pub record Application (A : Type 0) : Type 0 where
  pub get_user_data : A → List ℕ → UserData × List ℕ × A
  pub state_changed : A → LinkLayerState → A

-- `last_send_size` is the size of `lastSendAsdu`, whose bytes stand in `user_data_buffer`.
pub record Primary (A : Type 0) : Type 0 where
  pub state : LinkLayerState
  pub primary_state : PrimaryState
  pub waiting_for_response : Bool
  pub last_send_time : ℕ
  pub original_send_time : ℕ
  pub send_link_layer_test_function : Bool
  pub next_fcb : Bool
  pub other_station_address : ℕ
  pub last_send_size : ℕ
  pub user_data_buffer : List ℕ
  pub last_received_msg : ℕ
  pub idle_timeout : ℕ
  pub parameters : LinkLayerParameters
  pub dir : Bool
  pub app : A
  pub sent : List (List ℕ)

abbrev pub user_data_bytes : UserData → List ℕ → Option (List ℕ)
user_data_bytes no_data buffer = none
user_data_bytes (in_buffer n) buffer = some (take n buffer)
user_data_bytes (own bytes) buffer = some bytes

-- The size of the buffer frame after the call: a frame of its own leaves it empty.
abbrev pub buffer_size : UserData → ℕ
buffer_size (in_buffer n) = n
buffer_size _ = 0

module _ {A : Type 0} (application : Application A) where
  open application use {get_user_data, state_changed}

  -- `llpb_setNewState`
  unfoldable pub set_new_state : LinkLayerState → Primary A → Primary A
  set_new_state new p =
      if state_value new == state_value p.state
      then p
      else record p { state = new; app = state_changed p.app new }

  -- `SendFixedFrame` as this station calls it.
  unfoldable pub send_fixed : ℕ → Bool → Bool → Primary A → Primary A
  send_fixed fc fcb fcv p = record p {
    sent =
        fixed_frame p.parameters.address_length fc p.other_station_address true p.dir fcb fcv
        ∷ p.sent;
  }

  unfoldable pub send_user_data : Bool → List ℕ → Primary A → Primary A
  send_user_data fcb bytes p = record p {
    sent =
        send
          (variable_length_frame p.parameters.address_length fc_user_data_confirmed
            p.other_station_address true p.dir fcb true bytes)
          p.sent;
  }

  -- A message with the data flow control bit.
  abbrev pub busy_next : PrimaryState → PrimaryState
  busy_next execute_request_status_of_link = execute_request_status_of_link
  busy_next execute_reset_remote_link = execute_request_status_of_link
  busy_next execute_service_send_confirm = secondary_link_layer_busy
  busy_next secondary_link_layer_busy = secondary_link_layer_busy
  busy_next other = other

  unfoldable pub on_ack : PrimaryState → Primary A → Primary A
  unfolding set_new_state
  on_ack execute_reset_remote_link p = record (set_new_state Frame.available p) {
    primary_state = link_layers_available;
    waiting_for_response = false;
  }
  on_ack execute_service_send_confirm p =
      record (set_new_state Frame.available (record p { send_link_layer_test_function = false })) {
        primary_state = link_layers_available;
        waiting_for_response = false;
      }
  on_ack execute_request_status_of_link p = p
  on_ack _ p = record p { waiting_for_response = false }

  unfoldable pub on_nack : PrimaryState → Primary A → Primary A
  unfolding set_new_state
  on_nack execute_service_send_confirm p = record (set_new_state Frame.busy p) {
    primary_state = secondary_link_layer_busy;
  }
  on_nack _ p = p

  -- A message that is illegal in its state.
  unfoldable pub on_illegal : Primary A → Primary A
  unfolding set_new_state
  on_illegal p = record (set_new_state Frame.error p) { primary_state = idle }

  unfoldable pub on_status_of_link : ℕ → PrimaryState → Primary A → Primary A
  unfolding send_fixed set_new_state on_illegal
  on_status_of_link now execute_request_status_of_link p =
      set_new_state Frame.busy (record (send_fixed fc_reset_remote_link false false p) {
        last_send_time = now;
        waiting_for_response = true;
        primary_state = execute_reset_remote_link;
      })
  on_status_of_link now _ p = on_illegal p

  unfoldable pub on_not_functioning : PrimaryState → Primary A → Primary A
  unfolding set_new_state
  on_not_functioning execute_service_send_confirm p =
      record (set_new_state Frame.available (record p { send_link_layer_test_function = false })) {
        primary_state = link_layers_available;
      }
  on_not_functioning _ p = record p { send_link_layer_test_function = false }

  unfoldable pub dispatch : ℕ → ℕ → Primary A → Primary A
  unfolding on_ack on_nack on_illegal on_status_of_link on_not_functioning
  dispatch now fc p =
      if fc == fc_ack
      then on_ack p.primary_state p
      else if fc == fc_nack
      then on_nack p.primary_state p
      else if fc == fc_resp_user_data
      then on_illegal p
      else if fc == fc_resp_nack_no_data
      then on_illegal p
      else if fc == fc_status_of_link
      then on_status_of_link now p.primary_state p
      else if fc == fc_service_not_functioning || fc == fc_service_not_implemented
      then on_not_functioning p.primary_state p
      else p

  -- `LinkLayerPrimaryBalanced_handleMessage`; `now` is its reading of the clock.
  unfoldable pub handle_message : ℕ → ℕ → Bool → Primary A → Primary A
  unfolding set_new_state dispatch
  handle_message now fc dfc p0 =
      let p = record p0 { last_received_msg = now } in
      if dfc
      then record (set_new_state Frame.busy p) { primary_state = busy_next p.primary_state }
      else dispatch now fc p
