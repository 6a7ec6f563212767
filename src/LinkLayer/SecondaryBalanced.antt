-- ===== src/LinkLayer/SecondaryBalanced.antt =====
-- `LinkLayerSecondaryBalanced` of link_layer.c: the half of a balanced station that answers.
pub mod Repeat
use lib.Prelude.{
  ℕ, Bool, true, false, not, ◌&&◌, Option, List, [], ◌∷◌, ltb, ◌==◌, bool_eq, if◌then◌else◌,
}
use lib.LinkLayer.Frame.{
  LinkLayerParameters, single_char, fixed_frame, fc_reset_remote_link, fc_test_function_for_link,
  fc_user_data_confirmed, fc_user_data_no_reply, fc_request_link_status, fc_ack, fc_status_of_link,
  fc_service_not_implemented,
}
use lib.LinkLayer.Parser.{Request}

pub record Secondary (A : Type 0) : Type 0 where
  pub expected_fcb : Bool
  pub parameters : LinkLayerParameters
  pub address : ℕ
  pub dir : Bool
  pub app : A
  pub sent : List (List ℕ)

-- `HandleReceivedData` of the application layer: whether it took the data.
abbrev pub Handler : Type 0 → Type 0
Handler A = A → List ℕ → Bool → ℕ → ℕ → Bool × A

module _ {A : Type 0} (handle_received_data : Handler A) where
  unfoldable pub send_fixed : ℕ → Secondary A → Secondary A
  send_fixed fc s = record s {
    sent = fixed_frame s.parameters.address_length fc s.address false s.dir false false ∷ s.sent;
  }

  unfoldable pub acknowledge : Secondary A → Secondary A
  unfolding send_fixed
  acknowledge s =
      if s.parameters.use_single_char_ack
      then record s { sent = single_char ∷ s.sent }
      else send_fixed fc_ack s

  -- `LinkLayerSecondaryBalanced_checkFCB`
  unfoldable pub check_fcb : Bool → Secondary A → Bool × Secondary A
  check_fcb fcb s =
      if bool_eq fcb s.expected_fcb
      then (true, record s { expected_fcb = not s.expected_fcb })
      else (false, s)

  -- The application layer's answer to user data, and the station after it.
  unfoldable pub indicate : Request → List ℕ → Secondary A → Bool × Secondary A
  indicate r msg s =
      let (taken, app) =
        handle_received_data s.app msg r.is_broadcast r.user_data_start r.user_data_length in
      if ltb 0 r.user_data_length then (taken, record s { app = app }) else (false, s)

  unfoldable pub dispatch : Request → List ℕ → Secondary A → Secondary A
  unfolding acknowledge send_fixed indicate
  dispatch r msg s =
      let (taken, s') = indicate r msg s in
      if r.fc == fc_reset_remote_link
      then acknowledge (record s { expected_fcb = true })
      else if r.fc == fc_test_function_for_link
      then acknowledge s
      else if r.fc == fc_user_data_confirmed
      then (if taken then acknowledge s' else s')
      else if r.fc == fc_user_data_no_reply
      then s'
      else if r.fc == fc_request_link_status
      then send_fixed fc_status_of_link s
      else send_fixed fc_service_not_implemented s

  -- `LinkLayerSecondaryBalanced_handleMessage`
  unfoldable pub handle_message : Request → List ℕ → Secondary A → Secondary A
  unfolding check_fcb dispatch
  handle_message r msg s =
      let (new, s') = if r.fcv then check_fcb r.fcb s else (true, s) in
      if new then dispatch r msg s' else s
