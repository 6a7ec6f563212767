-- ===== src/LinkLayer/PrimaryUnbalanced/SlaveConnection.antt =====
-- `LinkLayerSlaveConnection` of link_layer.c: what an unbalanced master keeps for one slave, and the
-- messages of that slave. The polling of the slave is in Run.
use lib.Prelude.{ℕ, Bool, true, false, ◌||◌, Option, List, ◌∷◌, ◌==◌, if◌then◌else◌}
use lib.LinkLayer.Frame.{
  LinkLayerParameters, LinkLayerState, state_value, fixed_frame, variable_length_frame, send,
  fc_reset_remote_link, fc_user_data_confirmed, fc_ack, fc_nack, fc_resp_user_data,
  fc_resp_nack_no_data, fc_status_of_link, fc_service_not_functioning, fc_service_not_implemented,
}
use lib.LinkLayer.Frame
use lib.LinkLayer.PrimaryBalanced.{
  PrimaryState, idle, execute_request_status_of_link, execute_reset_remote_link,
  link_layers_available, execute_service_send_confirm, execute_service_request_respond,
  secondary_link_layer_busy,
}

-- `struct sLinkLayerSlaveConnection`; `next_message` is the content of the buffer frame.
pub record Slave : Type 0 where
  pub state : LinkLayerState
  pub address : ℕ
  pub primary_state : PrimaryState
  pub has_message_to_send : Bool
  pub next_message : List ℕ
  pub last_send_time : ℕ
  pub original_send_time : ℕ
  pub request_class_1_data : Bool
  pub request_class_2_data : Bool
  pub dont_send_messages : Bool
  pub waiting_for_response : Bool
  pub send_link_layer_test_function : Bool
  pub next_fcb : Bool

-- `IPrimaryApplicationLayer` and the handler of state changes; the address is `none` for the -1 that
-- stands for the unknown sender of a single character.
pub record Application (A : Type 0) : Type 0 where
  pub user_data : A → Option ℕ → List ℕ → ℕ → ℕ → A
  pub access_demand : A → Option ℕ → A
  pub state_changed : A → ℕ → LinkLayerState → A

-- A slave with what the slaves share: the parameters, the application and the serial line.
pub record Link (A : Type 0) : Type 0 where
  pub slave : Slave
  pub parameters : LinkLayerParameters
  pub app : A
  pub sent : List (List ℕ)

-- What the parser hands on of a message.
pub record Answer : Type 0 where
  pub fc : ℕ
  pub acd : Bool
  pub dfc : Bool
  pub address : Option ℕ
  pub msg : List ℕ
  pub user_data_start : ℕ
  pub user_data_length : ℕ

abbrev pub dfc_state : PrimaryState → PrimaryState
dfc_state execute_request_status_of_link = execute_request_status_of_link
dfc_state execute_reset_remote_link = execute_request_status_of_link
dfc_state execute_service_send_confirm = secondary_link_layer_busy
dfc_state secondary_link_layer_busy = secondary_link_layer_busy
dfc_state other = other

module _ {A : Type 0} where
  abbrev pub goto : PrimaryState → Link A → Link A
  goto next l = record l { slave = record l.slave { primary_state = next } }

  abbrev pub stop_waiting : Link A → Link A
  stop_waiting l = record l { slave = record l.slave { waiting_for_response = false } }

  -- `SendFixedFrame` as a master calls it.
  unfoldable pub send_fixed : ℕ → Bool → Bool → Link A → Link A
  send_fixed fc fcb fcv l = record l {
    sent = fixed_frame l.parameters.address_length fc l.slave.address true false fcb fcv ∷ l.sent;
  }

  unfoldable pub send_user_data : Bool → Link A → Link A
  send_user_data fcb l = record l {
    sent =
        send
          (variable_length_frame l.parameters.address_length fc_user_data_confirmed l.slave.address
            true false fcb true l.slave.next_message)
          l.sent;
  }

module _ {A : Type 0} (application : Application A) where
  open application use {user_data, access_demand, state_changed}

  -- `llsc_setState`
  unfoldable pub set_state : LinkLayerState → Link A → Link A
  set_state new l = if state_value l.slave.state == state_value new then l else record l {
    slave = record l.slave { state = new };
    app = state_changed l.app l.slave.address new;
  }

  unfoldable pub on_ack : PrimaryState → Link A → Link A
  unfolding set_state
  on_ack execute_reset_remote_link l =
      stop_waiting (set_state Frame.available (goto link_layers_available l))
  on_ack execute_service_send_confirm l =
      let test = l.slave.send_link_layer_test_function in
      let slave = record l.slave {
        send_link_layer_test_function = false;
        has_message_to_send = if test then l.slave.has_message_to_send else false;
      } in
      stop_waiting
        (set_state Frame.available (goto link_layers_available (record l { slave = slave })))
  on_ack execute_service_request_respond l =
      stop_waiting (set_state Frame.available (goto link_layers_available l))
  on_ack _ l = stop_waiting l

  unfoldable pub on_nack : PrimaryState → Link A → Link A
  unfolding set_state
  on_nack execute_service_send_confirm l =
      stop_waiting (set_state Frame.busy (goto secondary_link_layer_busy l))
  on_nack _ l = stop_waiting l

  unfoldable pub on_illegal : Link A → Link A
  unfolding set_state
  on_illegal l = set_state Frame.error (goto idle l)

  unfoldable pub on_status_of_link : ℕ → PrimaryState → Link A → Link A
  unfolding send_fixed set_state on_illegal
  on_status_of_link now execute_request_status_of_link l0 =
      let l = send_fixed fc_reset_remote_link false false l0 in
      set_state Frame.busy (record l {
        slave = record l.slave {
          last_send_time = now;
          waiting_for_response = true;
          primary_state = execute_reset_remote_link;
        };
      })
  on_status_of_link now _ l = on_illegal l

  unfoldable pub on_user_data : Answer → PrimaryState → Link A → Link A
  unfolding set_state on_illegal
  on_user_data a execute_service_request_respond l =
      let slave = record l.slave {
        request_class_1_data = false;
        request_class_2_data = false;
        primary_state = link_layers_available;
      } in
      let app = user_data l.app a.address a.msg a.user_data_start a.user_data_length in
      stop_waiting (set_state Frame.available (record l { slave = slave; app = app }))
  on_user_data a _ l = stop_waiting (on_illegal l)

  unfoldable pub on_no_data : PrimaryState → Link A → Link A
  unfolding set_state on_illegal
  on_no_data execute_service_request_respond l =
      stop_waiting (set_state Frame.available (goto link_layers_available l))
  on_no_data _ l = stop_waiting (on_illegal l)

  unfoldable pub on_not_functioning : PrimaryState → Link A → Link A
  unfolding set_state
  on_not_functioning execute_service_send_confirm l =
      stop_waiting (set_state Frame.available (goto link_layers_available l))
  on_not_functioning _ l = stop_waiting l

  unfoldable pub dispatch : ℕ → Answer → Link A → Link A
  unfolding on_ack on_nack on_status_of_link on_user_data on_no_data on_not_functioning
  dispatch now a l =
      if a.fc == fc_ack
      then on_ack l.slave.primary_state l
      else if a.fc == fc_nack
      then on_nack l.slave.primary_state l
      else if a.fc == fc_status_of_link
      then on_status_of_link now l.slave.primary_state l
      else if a.fc == fc_resp_user_data
      then on_user_data a l.slave.primary_state l
      else if a.fc == fc_resp_nack_no_data
      then on_no_data l.slave.primary_state l
      else if a.fc == fc_service_not_functioning || a.fc == fc_service_not_implemented
      then on_not_functioning l.slave.primary_state l
      else stop_waiting l

  -- An answer with the data flow control bit.
  unfoldable pub handle_dfc : Link A → Link A
  unfolding set_state
  handle_dfc l = set_state Frame.busy (record l {
    slave = record l.slave {
      dont_send_messages = true;
      primary_state = dfc_state l.slave.primary_state;
    };
  })

  -- `LinkLayerSlaveConnection_HandleMessage`; `now` is its reading of the clock.
  unfoldable pub handle_answer : ℕ → Answer → Link A → Link A
  unfolding handle_dfc dispatch
  handle_answer now a l =
      let slave = record l.slave {
        dont_send_messages = false;
        request_class_1_data = a.acd || l.slave.request_class_1_data;
      } in
      let done = dispatch now a (record l { slave = slave }) in
      if a.dfc
      then handle_dfc l
      else if a.acd
      then record done { app = access_demand done.app a.address }
      else done
