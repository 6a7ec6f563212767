-- ===== src/LinkLayer/SecondaryUnbalanced/Repeat.antt =====
-- A repeated message at `LinkLayerSecondaryUnbalanced_handleMessage`.
use lib.Prelude.{
  ℕ, true, false, not, ◌&&◌, List, ◌∷◌, ◌≡◌, refl, sym, ap, subst, ◌∙◌, bool_eq, if◌then◌else◌,
  Bool-cases, bool_eq-true, bool_eq-false, bool_eq-not, inl, inr, arith,
}
use lib.LinkLayer.Frame.{
  LinkLayerParameters, LinkLayerState, available, single_char, fixed_frame, fc_ack,
  fc_user_data_confirmed,
}
use lib.LinkLayer.Parser.{Request}
use lib.LinkLayer.SecondaryUnbalanced.{
  Secondary, Application, set_state, send_single_char, send_fixed, respond, check_fcb, check_new,
  indicate, user_data_confirmed, handle_message,
}

module _ {A : Type 0} (application : Application A) where
  pub set_state-available :
      (s : Secondary A) → s.state ≡ available → set_state application available s ≡ s
  unfolding set_state
  set_state-available s h = rw (h) refl

  pub set_state-state : (s : Secondary A) → (set_state application available s).state ≡ available
  unfolding set_state
  set_state-state s = ground arith

  pub set_state-sent : (s : Secondary A) → (set_state application available s).sent ≡ s.sent
  unfolding set_state
  set_state-sent s = ground arith

  -- The message of `respond`.
  abbrev response : ℕ → LinkLayerParameters → ℕ → A → List ℕ
  response fc parameters address app =
      let access_demand = application.is_class_1_data_available app in
      if parameters.use_single_char_ack && not access_demand
      then single_char
      else fixed_frame parameters.address_length fc address false false access_demand false

  respond-response :
      (fc : ℕ) (s : Secondary A)
      → respond application fc s
        ≡ record s { sent = response fc s.parameters s.address s.app ∷ s.sent }
  unfolding respond send_single_char send_fixed
  respond-response fc s = ground arith

  -- The station after it took the data of a new message, and before it answers.
  abbrev accept : Request → List ℕ → Secondary A → Secondary A
  accept r msg s =
      let (new, s') = check_new application r s in if new then indicate application r msg s' else s'

  user_data_confirmed-accept :
      (r : Request) (msg : List ℕ) (s : Secondary A)
      → user_data_confirmed application r msg s ≡ respond application fc_ack (accept r msg s)
  unfolding user_data_confirmed
  user_data_confirmed-accept r msg s = refl

  pub check_new-new :
      (r : Request) (s : Secondary A)
      → r.fcv ≡ true
      → bool_eq r.fcb s.expected_fcb ≡ true
      → check_new application r s ≡ (true, record s { expected_fcb = not s.expected_fcb })
  unfolding check_new check_fcb
  check_new-new r s hv h = rw (hv, h) refl

  pub check_new-old :
      (r : Request) (s : Secondary A)
      → r.fcv ≡ true
      → s.expected_fcb ≡ not r.fcb
      → check_new application r s ≡ (false, s)
  unfolding check_new check_fcb
  check_new-old r s hv h = rw (hv, bool_eq-not r.fcb s.expected_fcb h) refl

  accept-old :
      (r : Request) (msg : List ℕ) (s : Secondary A)
      → r.fcv ≡ true
      → s.expected_fcb ≡ not r.fcb
      → accept r msg s ≡ s
  accept-old r msg s hv h = rw (check_new-old r s hv h) refl

  accept-new :
      (r : Request) (msg : List ℕ) (s : Secondary A)
      → r.fcv ≡ true
      → bool_eq r.fcb s.expected_fcb ≡ true
      → accept r msg s ≡ indicate application r msg (record s { expected_fcb = not s.expected_fcb })
  accept-new r msg s hv h = rw (check_new-new r s hv h) refl

  record Accepted (r : Request) (state : LinkLayerState) (sent : List (List ℕ)) (t : Secondary A)
      : Type 0 where
    fcb : t.expected_fcb ≡ not r.fcb
    same_state : t.state ≡ state
    same_sent : t.sent ≡ sent

  indicate-Accepted :
      (r : Request) (msg : List ℕ) (s : Secondary A)
      → s.expected_fcb ≡ not r.fcb
      → Accepted r s.state s.sent (indicate application r msg s)
  unfolding indicate
  indicate-Accepted r msg s h = record {
    fcb = ground arith;
    same_state = ground arith;
    same_sent = ground arith;
  }

  accept-Accepted :
      (r : Request) (msg : List ℕ) (s : Secondary A)
      → r.fcv ≡ true
      → Accepted r s.state s.sent (accept r msg s)
  accept-Accepted r msg s hv = elim (Bool-cases (bool_eq r.fcb s.expected_fcb)) [
    | inl e ↦ subst (Accepted r s.state s.sent) (sym (accept-new r msg s hv e)) (
        indicate-Accepted r msg (record s { expected_fcb = not s.expected_fcb })
          (bool_eq-true r.fcb s.expected_fcb e))
    | inr e ↦
        subst (Accepted r s.state s.sent)
          (sym (accept-old r msg s hv (bool_eq-false r.fcb s.expected_fcb e)))
          (record {
            fcb = bool_eq-false r.fcb s.expected_fcb e;
            same_state = refl;
            same_sent = refl;
          })
  ]

  handle_message-user_data_confirmed :
      (r : Request) (msg : List ℕ) (s : Secondary A)
      → r.fc ≡ fc_user_data_confirmed
      → handle_message application r msg s
        ≡ user_data_confirmed application r msg (set_state application available s)
  unfolding handle_message
  handle_message-user_data_confirmed r msg s h = rw (h) refl

  -- The station after the answer to a message that it has accepted.
  abbrev answered : Secondary A → Secondary A
  answered t = record t { sent = response fc_ack t.parameters t.address t.app ∷ t.sent }

  handle_message-answered :
      (r : Request) (msg : List ℕ) (s : Secondary A)
      → r.fc ≡ fc_user_data_confirmed
      → handle_message application r msg s
        ≡ answered (accept r msg (set_state application available s))
  handle_message-answered r msg s h =
      handle_message-user_data_confirmed r msg s h
      ∙ user_data_confirmed-accept r msg (set_state application available s)
      ∙ respond-response fc_ack (accept r msg (set_state application available s))

  handle_message-again :
      (r : Request) (msg : List ℕ) (t : Secondary A)
      → r.fc ≡ fc_user_data_confirmed
      → r.fcv ≡ true
      → t.state ≡ available
      → t.expected_fcb ≡ not r.fcb
      → handle_message application r msg t ≡ answered t
  handle_message-again r msg t h hv hs hf =
      handle_message-answered r msg t h
      ∙ ap (λ u. answered (accept r msg u)) (set_state-available t hs)
      ∙ ap answered (accept-old r msg t hv hf)

  -- When confirmed user data arrive twice with the same frame count bit, as after a lost
  -- acknowledgement, an unbalanced secondary station gives them to the application layer at most
  -- once: the second message changes nothing but that the same octets are sent again as its answer.
  pub user_data_repeated :
      (r : Request) (msg : List ℕ) (s : Secondary A)
      → r.fc ≡ fc_user_data_confirmed
      → r.fcv ≡ true
      → (m : List ℕ) × ((handle_message application r msg s).sent ≡ m ∷ s.sent)
        × (handle_message application r msg (handle_message application r msg s)
            ≡ record (handle_message application r msg s) { sent = m ∷ m ∷ s.sent })
  user_data_repeated r msg s h hv =
      let s' = set_state application available s in
      let t = accept r msg s' in
      let a = accept-Accepted r msg s' hv in
      let e = handle_message-answered r msg s h in
      let m = response fc_ack t.parameters t.address t.app in
      let sent = a.same_sent ∙ set_state-sent s in
      (
        m,
        ap (λ u. u.sent) e ∙ ap (λ l. m ∷ l) sent,
        ap (handle_message application r msg) e
            ∙ handle_message-again r msg (answered t) h hv (a.same_state ∙ set_state-state s) a.fcb
            ∙ ap {A = List (List ℕ)} {B = Secondary A} (λ l. record t { sent = m ∷ m ∷ l }) sent
            ∙ ap {A = Secondary A} {B = Secondary A} (λ u. record u { sent = m ∷ m ∷ s.sent })
                (sym e),
      )
