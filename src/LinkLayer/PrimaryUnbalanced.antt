-- ===== src/LinkLayer/PrimaryUnbalanced.antt =====
-- `LinkLayerPrimaryUnbalanced` of link_layer.c: the master that polls its slaves in turn. A pointer to
-- a slave is its position in the list, to which slaves are only added. `A` is the state of the
-- application layer and of the handler of state changes.
pub mod SlaveConnection
pub mod Run
pub mod Blocked
pub mod Stuck
pub mod Turns
use lib.Prelude.{
  ℕ, zero, suc, ◌+◌, ◌%◌, Bool, true, false, not, ◌||◌, Option, none, some, List, [], ◌∷◌, ◌++◌,
  length, set, ltb, ◌==◌, if◌then◌else◌,
}
use lib.LinkLayer.Frame.{LinkLayerParameters, variable_length_frame, send, fc_user_data_no_reply}
use lib.LinkLayer.Frame
use lib.LinkLayer.PrimaryBalanced
use lib.LinkLayer.PrimaryUnbalanced.SlaveConnection.{
  Slave, Application, Link, Answer, handle_answer,
}
use lib.LinkLayer.PrimaryUnbalanced.Run.{run_slave}

-- `struct sLinkLayerPrimaryUnbalanced`
pub record Master (A : Type 0) : Type 0 where
  pub current_slave : Option ℕ
  pub current_slave_index : ℕ
  pub has_next_broadcast_to_send : Bool
  pub next_broadcast_message : List ℕ
  pub parameters : LinkLayerParameters
  pub slaves : List Slave
  pub app : A
  pub sent : List (List ℕ)

abbrev pub nth_slave : List Slave → ℕ → Option Slave
nth_slave [] i = none
nth_slave (s ∷ slaves) zero = some s
nth_slave (s ∷ slaves) (suc i) = nth_slave slaves i

abbrev pub next : Option ℕ → Option ℕ
next none = none
next (some i) = some (suc i)

-- The loop of `LinkLayerPrimaryUnbalanced_getSlaveConnection`: the first slave with the address.
unfoldable pub get_slave_connection : List Slave → ℕ → Option ℕ
get_slave_connection [] address = none
get_slave_connection (s ∷ slaves) address =
    if s.address == address then some 0 else next (get_slave_connection slaves address)

-- `LinkLayerSlaveConnection_create`. `dontSendMessages`, which it does not set, is read nowhere.
abbrev pub new_slave : ℕ → Slave
new_slave address = record {
  state = Frame.idle;
  address = address;
  primary_state = PrimaryBalanced.idle;
  has_message_to_send = false;
  next_message = [];
  last_send_time = 0;
  original_send_time = 0;
  request_class_1_data = false;
  request_class_2_data = false;
  dont_send_messages = false;
  waiting_for_response = false;
  send_link_layer_test_function = false;
  next_fcb = true;
}

-- `LinkLayer_getBroadcastAddress`
unfoldable pub get_broadcast_address : ℕ → ℕ
get_broadcast_address address_length =
    if address_length == 1 then 255 else if address_length == 2 then 65535 else 0

-- `llsc_isMessageWaitingToSend`
abbrev pub is_message_waiting_to_send : Slave → Bool
is_message_waiting_to_send s =
    s.request_class_1_data || s.request_class_2_data || s.has_message_to_send

-- A message of the application is kept unless another one waits.
abbrev pub accept_message : List ℕ → Slave → Bool × Slave
accept_message message s =
    if s.has_message_to_send
    then (false, s)
    else (true, record s { next_message = message; has_message_to_send = true })

abbrev pub slave_waits : List Slave → Option ℕ → Bool
slave_waits slaves none = false
slave_waits slaves (some i) = elim (nth_slave slaves i) [
  | none ↦ false
  | some s ↦ s.waiting_for_response
]

module _ {A : Type 0} where
  -- The slave with the address, changed by a setter that also answers.
  abbrev pub with_slave : Option ℕ → (Slave → Bool × Slave) → Master A → Bool × Master A
  with_slave none f m = (false, m)
  with_slave (some i) f m = elim (nth_slave m.slaves i) [
    | none ↦ (false, m)
    | some s ↦ ((f s).0, record m { slaves = set m.slaves i (f s).1 })
  ]

  unfoldable pub add_slave_connection : ℕ → Master A → Master A
  unfolding get_slave_connection
  add_slave_connection address m = elim (get_slave_connection m.slaves address) [
    | none ↦ record m { slaves = m.slaves ++ (new_slave address ∷ []) }
    | some i ↦ m
  ]

  unfoldable pub is_channel_available : ℕ → Master A → Bool
  unfolding get_slave_connection
  is_channel_available address m =
      (with_slave (get_slave_connection m.slaves address)
        (λ s. (not (is_message_waiting_to_send s), s)) m).0

  unfoldable pub send_link_layer_test_function : ℕ → Master A → Master A
  unfolding get_slave_connection
  send_link_layer_test_function address m =
      (with_slave (get_slave_connection m.slaves address)
        (λ s. (true, record s { send_link_layer_test_function = true })) m).1

  unfoldable pub request_class_1_data : ℕ → Master A → Bool × Master A
  unfolding get_slave_connection
  request_class_1_data address m =
      with_slave (get_slave_connection m.slaves address)
        (λ s. (true, record s { request_class_1_data = true })) m

  unfoldable pub request_class_2_data : ℕ → Master A → Bool × Master A
  unfolding get_slave_connection
  request_class_2_data address m =
      with_slave (get_slave_connection m.slaves address)
        (λ s. (true, record s { request_class_2_data = true })) m

  unfoldable pub send_confirmed : ℕ → List ℕ → Master A → Bool × Master A
  unfolding get_slave_connection
  send_confirmed address message m =
      with_slave (get_slave_connection m.slaves address) (accept_message message) m

  unfoldable pub send_no_reply : ℕ → List ℕ → Master A → Bool × Master A
  unfolding get_slave_connection get_broadcast_address
  send_no_reply address message m =
      if address == get_broadcast_address m.parameters.address_length
      then (if m.has_next_broadcast_to_send then (false, m) else (
        true,
        record m { next_broadcast_message = message; has_next_broadcast_to_send = true },
      ))
      else with_slave (get_slave_connection m.slaves address) (accept_message message) m

  -- A step of the slave at a position, and what it does to the rest.
  abbrev pub step_slave : Option ℕ → (Link A → Link A) → Master A → Master A
  step_slave none f m = m
  step_slave (some i) f m = elim (nth_slave m.slaves i) [
    | none ↦ m
    | some s ↦
        let l = f (record { slave = s; parameters = m.parameters; app = m.app; sent = m.sent }) in
        record m { slaves = set m.slaves i l.slave; app = l.app; sent = l.sent }
  ]

  -- The slave that a message is from: a single character has no address.
  unfoldable pub sender : Option ℕ → Master A → Option ℕ
  unfolding get_slave_connection
  sender none m = m.current_slave
  sender (some address) m = get_slave_connection m.slaves address

  unfoldable pub send_broadcast : Master A → Master A
  unfolding get_broadcast_address
  send_broadcast m =
      if m.has_next_broadcast_to_send
      then record m {
        sent =
            send
              (variable_length_frame m.parameters.address_length fc_user_data_no_reply
                (get_broadcast_address m.parameters.address_length) true false false false
                m.next_broadcast_message)
              m.sent;
        has_next_broadcast_to_send = false;
      }
      else m

  -- The next slave's turn comes when the current one waits for nothing. There is a slave.
  unfoldable pub schedule : Master A → Master A
  schedule m = if slave_waits m.slaves m.current_slave then m else record m {
    current_slave = some m.current_slave_index;
    current_slave_index = (m.current_slave_index + 1) % length m.slaves;
  }

module _ {A : Type 0} (application : Application A) where
  -- `LinkLayerPrimaryUnbalanced_handleMessage`
  unfoldable pub handle_message : ℕ → Answer → Master A → Master A
  unfolding sender
  handle_message now a m = step_slave (sender a.address m) (handle_answer application now a) m

  -- `LinkLayerPrimaryUnbalanced_runStateMachine`
  unfoldable pub run_state_machine : ℕ → Master A → Master A
  run_state_machine now m0 =
      let m1 = send_broadcast m0 in
      let m = schedule m1 in
      if ltb 0 (length m1.slaves)
      then step_slave m.current_slave (run_slave application now) m
      else m1
