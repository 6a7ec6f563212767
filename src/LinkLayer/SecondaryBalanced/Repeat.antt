-- ===== src/LinkLayer/SecondaryBalanced/Repeat.antt =====
-- A repeated message at `LinkLayerSecondaryBalanced_handleMessage`.
use lib.Prelude.{
  ℕ, true, false, not, List, ◌≡◌, ◌≢◌, refl, ap, ◌∙◌, bool_eq, Bool-cases, bool_eq-true,
  bool_eq-false, bool_eq-not, inl, inr, arith,
}
use lib.LinkLayer.Parser.{Request}
use lib.LinkLayer.SecondaryBalanced.{
  Secondary, Handler, send_fixed, acknowledge, check_fcb, indicate, dispatch, handle_message,
}

module _ {A : Type 0} (handle_received_data : Handler A) where
  acknowledge-expected_fcb :
      (s : Secondary A) → (acknowledge handle_received_data s).expected_fcb ≡ s.expected_fcb
  unfolding acknowledge send_fixed
  acknowledge-expected_fcb s = ground arith

  indicate-expected_fcb :
      (r : Request) (msg : List ℕ) (s : Secondary A)
      → (indicate handle_received_data r msg s).1.expected_fcb ≡ s.expected_fcb
  unfolding indicate
  indicate-expected_fcb r msg s = ground arith

  -- Only a reset of the link sets the expected frame count bit.
  dispatch-expected_fcb :
      (r : Request) (msg : List ℕ) (s : Secondary A)
      → r.fc ≢ 0
      → (dispatch handle_received_data r msg s).expected_fcb ≡ s.expected_fcb
  unfolding dispatch send_fixed
  dispatch-expected_fcb r msg s h = ground (
    arith,
    acknowledge-expected_fcb s,
    acknowledge-expected_fcb (indicate handle_received_data r msg s).1,
    indicate-expected_fcb r msg s,
  )

  handle_message-new :
      (r : Request) (msg : List ℕ) (s : Secondary A)
      → r.fcv ≡ true
      → bool_eq r.fcb s.expected_fcb ≡ true
      → handle_message handle_received_data r msg s
        ≡ dispatch handle_received_data r msg (record s { expected_fcb = not s.expected_fcb })
  unfolding handle_message check_fcb
  handle_message-new r msg s hv hb = rw (hv, hb) refl

  handle_message-old :
      (r : Request) (msg : List ℕ) (s : Secondary A)
      → r.fcv ≡ true
      → bool_eq r.fcb s.expected_fcb ≡ false
      → handle_message handle_received_data r msg s ≡ s
  unfolding handle_message check_fcb
  handle_message-old r msg s hv hb = rw (hv, hb) refl

  -- Whether a message is new or not, the next one to be taken has the other frame count bit.
  handle_message-expected_fcb :
      (r : Request) (msg : List ℕ) (s : Secondary A)
      → r.fcv ≡ true
      → r.fc ≢ 0
      → (handle_message handle_received_data r msg s).expected_fcb ≡ not r.fcb
  handle_message-expected_fcb r msg s hv h = elim (Bool-cases (bool_eq r.fcb s.expected_fcb)) [
    | inl e ↦
        ap (λ s. s.expected_fcb) (handle_message-new r msg s hv e)
        ∙ dispatch-expected_fcb r msg (record s { expected_fcb = not s.expected_fcb }) h
        ∙ bool_eq-true r.fcb s.expected_fcb e
    | inr e ↦
        ap (λ s. s.expected_fcb) (handle_message-old r msg s hv e)
        ∙ bool_eq-false r.fcb s.expected_fcb e
  ]

  -- A request with FCV, of any function but a reset of the link, that arrives twice leaves a balanced
  -- secondary station as if it had arrived once: its data are not given to the application layer a
  -- second time, and the second one is not answered, also if the first answer was lost.
  pub handle_message_repeated :
      (r : Request) (msg : List ℕ) (s : Secondary A)
      → r.fcv ≡ true
      → r.fc ≢ 0
      → handle_message handle_received_data r msg (handle_message handle_received_data r msg s)
        ≡ handle_message handle_received_data r msg s
  handle_message_repeated r msg s hv h =
      let s' = handle_message handle_received_data r msg s in
      handle_message-old r msg s' hv
        (bool_eq-not r.fcb s'.expected_fcb (handle_message-expected_fcb r msg s hv h))
