-- ===== src/LinkLayer/PrimaryUnbalanced/Turns.antt =====
-- The turns of the slaves: the master waits for one slave at a time.
use lib.Prelude.{
  ℕ, zero, suc, ◌≡◌, ◌≢◌, refl, sym, ap, subst, ◌∙◌, Bool, true, false, ◌⊎◌, inl, inr, Option, none,
  some, some-injective, none-ne-some, List, [], ◌∷◌, ◌++◌, length, set, ltb, arith, ℕ_discrete,
  if_cases, if_both,
}
use lib.LinkLayer.PrimaryUnbalanced.SlaveConnection.{Slave, Link, Answer, Application}
use lib.LinkLayer.PrimaryUnbalanced.{
  Master, nth_slave, slave_waits, new_slave, accept_message, with_slave, step_slave, schedule,
  send_broadcast, sender, get_slave_connection, handle_message, run_state_machine,
  request_class_1_data, request_class_2_data, send_confirmed, send_no_reply, add_slave_connection,
  send_link_layer_test_function,
}

pub nth_slave-set_self :
    (slaves : List Slave) (i : ℕ) (s t : Slave)
    → nth_slave slaves i ≡ some s
    → nth_slave (set slaves i t) i ≡ some t
nth_slave-set_self [] i s t h = absurd (none-ne-some s h)
nth_slave-set_self (x ∷ slaves) zero s t h = refl
nth_slave-set_self (x ∷ slaves) (suc i) s t h = nth_slave-set_self slaves i s t h

nth_slave-set_ne :
    (slaves : List Slave) (i j : ℕ) (t : Slave)
    → i ≢ j
    → nth_slave (set slaves i t) j ≡ nth_slave slaves j
nth_slave-set_ne [] i j t h = refl
nth_slave-set_ne (x ∷ slaves) zero zero t h = absurd (h refl)
nth_slave-set_ne (x ∷ slaves) zero (suc j) t h = refl
nth_slave-set_ne (x ∷ slaves) (suc i) zero t h = refl
nth_slave-set_ne (x ∷ slaves) (suc i) (suc j) t h =
    nth_slave-set_ne slaves i j t (λ e. h (ap suc e))

nth_slave-append :
    (slaves : List Slave) (t s : Slave) (i : ℕ)
    → nth_slave (slaves ++ (t ∷ [])) i ≡ some s
    → (nth_slave slaves i ≡ some s) ⊎ (t ≡ s)
nth_slave-append [] t s zero h = inr (some-injective t s h)
nth_slave-append [] t s (suc i) h = absurd (none-ne-some s h)
nth_slave-append (x ∷ slaves) t s zero h = inl h
nth_slave-append (x ∷ slaves) t s (suc i) h = nth_slave-append slaves t s i h

-- Of the slaves, only the one whose turn it is may be waited for.
abbrev pub OnlyOneWaits : List Slave → Option ℕ → Type 0
OnlyOneWaits slaves current =
    (i : ℕ) (s : Slave)
    → nth_slave slaves i ≡ some s
    → s.waiting_for_response ≡ true
    → current ≡ some i

-- A change of the slave whose turn it is.
set-OnlyOneWaits :
    (slaves : List Slave) (i : ℕ) (t : Slave)
    → OnlyOneWaits slaves (some i)
    → OnlyOneWaits (set slaves i t) (some i)
set-OnlyOneWaits slaves i t h j s e w = elim (ℕ_discrete i j) [
  | yes same ↦ ap some same
  | no other ↦ h j s (sym (nth_slave-set_ne slaves i j t other) ∙ e) w
]

-- A change of a slave that does not make it wait.
set-OnlyOneWaits_same :
    (slaves : List Slave) (current : Option ℕ) (i : ℕ) (s t : Slave)
    → nth_slave slaves i ≡ some s
    → t.waiting_for_response ≡ s.waiting_for_response
    → OnlyOneWaits slaves current
    → OnlyOneWaits (set slaves i t) current
set-OnlyOneWaits_same slaves current i s t e same h j u f w = elim (ℕ_discrete i j) [
  | yes p ↦
      let g : t ≡ u = some-injective t u (
        sym (nth_slave-set_self slaves i s t e)
        ∙ subst (λ k. nth_slave (set slaves i t) k ≡ some u) (sym p) f) in
      subst (λ k. current ≡ some k) p (h i s e (sym same ∙ ap (λ x. x.waiting_for_response) g ∙ w))
  | no other ↦ h j u (sym (nth_slave-set_ne slaves i j t other) ∙ f) w
]

none_waits :
    (slaves : List Slave) (current : Option ℕ) (next : Option ℕ)
    → slave_waits slaves current ≡ false
    → OnlyOneWaits slaves current
    → OnlyOneWaits slaves next
none_waits slaves current next idle h i s e w =
    let c = h i s e w in
    absurd (
      cc (
        idle,
        ap (slave_waits slaves) c,
        ap (λ o. elim o as (λ x. Bool) [ none ↦ false | some s ↦ s.waiting_for_response ]) e,
        w,
      ))

accept_message-waiting :
    (message : List ℕ) (s : Slave)
    → (accept_message message s).1.waiting_for_response ≡ s.waiting_for_response
accept_message-waiting message s = ground arith

module _ {A : Type 0} where
  abbrev pub Exclusive : Master A → Type 0
  Exclusive m = OnlyOneWaits m.slaves m.current_slave

  step_slave-Exclusive :
      (i : Option ℕ) (f : Link A → Link A) (m : Master A)
      → i ≡ m.current_slave
      → Exclusive m
      → Exclusive (step_slave i f m)
  step_slave-Exclusive none f m e h = h
  step_slave-Exclusive (some i) f m e h = go (nth_slave m.slaves i)
    where
      go :
          (o : Option Slave)
          → Exclusive (elim o [
            | none ↦ m
            | some s ↦
                let l =
                  f (record { slave = s; parameters = m.parameters; app = m.app; sent = m.sent }) in
                record m { slaves = set m.slaves i l.slave; app = l.app; sent = l.sent }
          ])
      go none = h
      go (some s) =
          let l = f (record { slave = s; parameters = m.parameters; app = m.app; sent = m.sent }) in
          subst (OnlyOneWaits (set m.slaves i l.slave)) e
            (set-OnlyOneWaits m.slaves i l.slave (subst (OnlyOneWaits m.slaves) (sym e) h))

  with_slave-Exclusive :
      (i : Option ℕ) (f : Slave → Bool × Slave) (m : Master A)
      → ((s : Slave) → (f s).1.waiting_for_response ≡ s.waiting_for_response)
      → Exclusive m
      → Exclusive (with_slave i f m).1
  with_slave-Exclusive none f m keep h = h
  with_slave-Exclusive (some i) f m keep h = go (nth_slave m.slaves i) refl
    where
      go :
          (o : Option Slave)
          → nth_slave m.slaves i ≡ o
          → Exclusive (
              let r : Bool × Master A = elim o [
                | none ↦ (false, m)
                | some s ↦ ((f s).0, record m { slaves = set m.slaves i (f s).1 })
              ] in
              r.1)
      go none e = h
      go (some s) e = set-OnlyOneWaits_same m.slaves m.current_slave i s (f s).1 e (keep s) h

  schedule-Exclusive : (m : Master A) → Exclusive m → Exclusive (schedule m)
  unfolding schedule
  schedule-Exclusive m h =
      if_cases Exclusive (slave_waits m.slaves m.current_slave) (λ w. h)
        (λ idle. none_waits m.slaves m.current_slave (some m.current_slave_index) idle h)

  send_broadcast-Exclusive : (m : Master A) → Exclusive m → Exclusive (send_broadcast m)
  unfolding send_broadcast
  send_broadcast-Exclusive m h = if_both Exclusive m.has_next_broadcast_to_send h h

  send_no_reply-Exclusive :
      (address : ℕ) (message : List ℕ) (m : Master A)
      → Exclusive m
      → Exclusive (send_no_reply address message m).1
  unfolding send_no_reply
  send_no_reply-Exclusive address message m h =
      if_both (λ (r : Bool × Master A). Exclusive r.1) _
        (if_both (λ (r : Bool × Master A). Exclusive r.1) m.has_next_broadcast_to_send h h)
        (with_slave-Exclusive (get_slave_connection m.slaves address) (accept_message message) m
          (accept_message-waiting message) h)

  add_slave_connection-Exclusive :
      (address : ℕ) (m : Master A) → Exclusive m → Exclusive (add_slave_connection address m)
  unfolding add_slave_connection
  add_slave_connection-Exclusive address m h = go (get_slave_connection m.slaves address)
    where
      added : OnlyOneWaits (m.slaves ++ (new_slave address ∷ [])) m.current_slave
      added i s e w = elim (nth_slave-append m.slaves (new_slave address) s i e) [
        | inl old ↦ h i s old w
        | inr new ↦ cc (ap (λ x. x.waiting_for_response) new, w)
      ]

      go :
          (o : Option ℕ)
          → Exclusive (elim o [
            | none ↦ record m { slaves = m.slaves ++ (new_slave address ∷ []) }
            | some i ↦ m
          ])
      go none = added
      go (some i) = h

-- What a master does, and its slaves' answers, of which the one whose turn it is sends each.
pub data Step {A : Type 0} (application : Application A) : Master A → Master A → Type 0 where
  run : (now : ℕ) (m : Master A) → Step application m (run_state_machine application now m)
  answer :
      (now : ℕ) (a : Answer) (m : Master A)
      → sender a.address m ≡ m.current_slave
      → Step application m (handle_message application now a m)
  class_1 : (address : ℕ) (m : Master A) → Step application m (request_class_1_data address m).1
  class_2 : (address : ℕ) (m : Master A) → Step application m (request_class_2_data address m).1
  confirmed :
      (address : ℕ) (message : List ℕ) (m : Master A)
      → Step application m (send_confirmed address message m).1
  no_reply :
      (address : ℕ) (message : List ℕ) (m : Master A)
      → Step application m (send_no_reply address message m).1
  add : (address : ℕ) (m : Master A) → Step application m (add_slave_connection address m)
  test : (address : ℕ) (m : Master A) → Step application m (send_link_layer_test_function address m)

pub data Reach {A : Type 0} (application : Application A) (m : Master A) : Master A → Type 0 where
  here : Reach application m m
  next : {t u : Master A} → Reach application m t → Step application t u → Reach application m u

module _ {A : Type 0} (application : Application A) where
  run_state_machine-Exclusive :
      (now : ℕ) (m : Master A) → Exclusive m → Exclusive (run_state_machine application now m)
  unfolding run_state_machine
  run_state_machine-Exclusive now m0 h =
      let h1 = send_broadcast-Exclusive m0 h in
      let m = schedule (send_broadcast m0) in
      if_both Exclusive (ltb 0 (length (send_broadcast m0).slaves))
        (step_slave-Exclusive m.current_slave _ m refl (schedule-Exclusive (send_broadcast m0) h1))
        h1

  handle_message-Exclusive :
      (now : ℕ) (a : Answer) (m : Master A)
      → sender a.address m ≡ m.current_slave
      → Exclusive m
      → Exclusive (handle_message application now a m)
  unfolding handle_message
  handle_message-Exclusive now a m e h = step_slave-Exclusive (sender a.address m) _ m e h

  Step-Exclusive : {m n : Master A} → Step application m n → Exclusive m → Exclusive n
  unfolding request_class_1_data request_class_2_data send_confirmed send_link_layer_test_function
  Step-Exclusive (run now m) h = run_state_machine-Exclusive now m h
  Step-Exclusive (answer now a m e) h = handle_message-Exclusive now a m e h
  Step-Exclusive (class_1 address m) h =
      with_slave-Exclusive (get_slave_connection m.slaves address) _ m (λ s. refl) h
  Step-Exclusive (class_2 address m) h =
      with_slave-Exclusive (get_slave_connection m.slaves address) _ m (λ s. refl) h
  Step-Exclusive (confirmed address message m) h =
      with_slave-Exclusive (get_slave_connection m.slaves address) _ m
        (accept_message-waiting message) h
  Step-Exclusive (no_reply address message m) h = send_no_reply-Exclusive address message m h
  Step-Exclusive (add address m) h = add_slave_connection-Exclusive address m h
  Step-Exclusive (test address m) h =
      with_slave-Exclusive (get_slave_connection m.slaves address) _ m (λ s. refl) h

  Reach-Exclusive : {m n : Master A} → Exclusive m → Reach application m n → Exclusive n
  Reach-Exclusive h here = h
  Reach-Exclusive h (next r s) = Step-Exclusive s (Reach-Exclusive h r)

  -- From a master without slaves, whatever the application asks of it, whichever slaves are added,
  -- and whatever the slave whose turn it is answers, in any order with the runs of the state
  -- machine: a slave from which the master waits for a response is the one whose turn it is, so the
  -- master never waits for two slaves on the shared line.
  pub one_slave_waits :
      {m n : Master A} (i : ℕ) (s : Slave)
      → m.slaves ≡ []
      → Reach application m n
      → nth_slave n.slaves i ≡ some s
      → s.waiting_for_response ≡ true
      → n.current_slave ≡ some i
  one_slave_waits {m} i s none_yet r e w =
      Reach-Exclusive
        (λ j t f v. absurd (none-ne-some t (ap (λ l. nth_slave l j) (sym none_yet) ∙ f))) r i s e w
