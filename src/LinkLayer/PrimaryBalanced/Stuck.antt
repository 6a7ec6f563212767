-- ===== src/LinkLayer/PrimaryBalanced/Stuck.antt =====
-- `PLL_SECONDARY_LINK_LAYER_BUSY` of `LinkLayerPrimaryBalanced_runStateMachine`.
use lib.Prelude.{ℕ, Bool, true, ◌⊎◌, arith, List, [], ◌∷◌, ◌≡◌, refl, ◌∙◌, ap}
use lib.LinkLayer.Frame.{fc_nack}
use lib.LinkLayer.PrimaryBalanced.{
  Application, Primary, execute_service_send_confirm, secondary_link_layer_busy, handle_message,
}
use lib.LinkLayer.PrimaryBalanced.Run.{run_in, run_state_machine}

module _ {A : Type 0} (application : Application A) where
  -- The calls of the state machine at the given times, in that order.
  abbrev pub run_at : List ℕ → Primary A → Primary A
  run_at [] p = p
  run_at (now ∷ times) p = run_at times (run_state_machine application now p)

  run_state_machine-busy :
      (now : ℕ) (p : Primary A)
      → p.primary_state ≡ secondary_link_layer_busy
      → run_state_machine application now p ≡ p
  unfolding run_state_machine run_in
  run_state_machine-busy now p h = ap (λ state. run_in application state now p) h

  busy_stuck :
      (times : List ℕ) (p : Primary A)
      → p.primary_state ≡ secondary_link_layer_busy
      → run_at times p ≡ p
  busy_stuck [] p h = refl
  busy_stuck (now ∷ times) p h =
      ap (run_at times) (run_state_machine-busy now p h) ∙ busy_stuck times p h

  refused :
      (now fc : ℕ) (dfc : Bool) (p : Primary A)
      → p.primary_state ≡ execute_service_send_confirm
      → (fc ≡ fc_nack) ⊎ (dfc ≡ true)
      → (handle_message application now fc dfc p).primary_state ≡ secondary_link_layer_busy
  unfolding handle_message
  refused now fc dfc p h r = ground arith

  -- When a station waits for the acknowledgement of a message and its peer answers with a NACK, or with
  -- any answer in which the data flow control bit is set, its state machine, however often and
  -- whenever it is called after that, changes nothing and sends nothing: it neither repeats the
  -- message nor asks for the status of the link.
  pub refused_message_stops :
      (times : List ℕ) (now fc : ℕ) (dfc : Bool) (p : Primary A)
      → p.primary_state ≡ execute_service_send_confirm
      → (fc ≡ fc_nack) ⊎ (dfc ≡ true)
      → run_at times (handle_message application now fc dfc p)
        ≡ handle_message application now fc dfc p
  refused_message_stops times now fc dfc p h r =
      busy_stuck times (handle_message application now fc dfc p) (refused now fc dfc p h r)
