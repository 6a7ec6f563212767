-- ===== src/LinkLayer/PrimaryUnbalanced/Blocked.antt =====
-- The answer of a busy slave to the unbalanced master of link_layer.c.
use lib.Prelude.{
  ℕ, ◌≡◌, refl, sym, ap, subst, ◌∙◌, true, false, some, List, [], ◌∷◌, length, set, ltb, arith,
}
use lib.LinkLayer.PrimaryBalanced.{execute_service_send_confirm, secondary_link_layer_busy}
use lib.LinkLayer.PrimaryUnbalanced.SlaveConnection.{
  Slave, Link, Answer, Application, handle_answer,
}
use lib.LinkLayer.PrimaryUnbalanced.Run.{run_slave, run_in}
use lib.LinkLayer.PrimaryUnbalanced.{
  Master, nth_slave, slave_waits, step_slave, schedule, send_broadcast, sender, handle_message,
  run_state_machine,
}
use lib.LinkLayer.PrimaryUnbalanced.Turns.{nth_slave-set_self}

set-same :
    (slaves : List Slave) (i : ℕ) (s : Slave)
    → nth_slave slaves i ≡ some s
    → set slaves i s ≡ slaves
set-same [] i s h = refl
set-same (x ∷ slaves) ℕ.zero s h = ground arith
set-same (x ∷ slaves) (ℕ.suc i) s h = ap (λ l. x ∷ l) (set-same slaves i s h)

nth_slave-lt :
    (slaves : List Slave) (i : ℕ) (s : Slave)
    → nth_slave slaves i ≡ some s
    → ltb 0 (length slaves) ≡ true
nth_slave-lt [] i s h = ground arith
nth_slave-lt (x ∷ slaves) i s h = ground arith

module _ {A : Type 0} (application : Application A) where
  step_slave-some :
      (i : ℕ) (s : Slave) (f : Link A → Link A) (m : Master A)
      → nth_slave m.slaves i ≡ some s
      → let l = f (record { slave = s; parameters = m.parameters; app = m.app; sent = m.sent }) in
        step_slave (some i) f m
        ≡ record m { slaves = set m.slaves i l.slave; app = l.app; sent = l.sent }
  step_slave-some i s f m e = rw (e, step_slave) refl

  -- The master waits for a slave that is busy.
  record Blocked (i : ℕ) (s : Slave) (m : Master A) : Type 0 where
    turn : m.current_slave ≡ some i
    at : nth_slave m.slaves i ≡ some s
    busy : s.primary_state ≡ secondary_link_layer_busy
    waits : s.waiting_for_response ≡ true
    no_broadcast : m.has_next_broadcast_to_send ≡ false

  run_slave-busy :
      (now : ℕ) (l : Link A)
      → l.slave.primary_state ≡ secondary_link_layer_busy
      → run_slave application now l ≡ l
  unfolding run_slave run_in
  run_slave-busy now l h = ap (λ state. run_in application state now l) h

  step_slave-busy :
      (now i : ℕ) (s : Slave) (m : Master A)
      → Blocked i s m
      → step_slave m.current_slave (run_slave application now) m ≡ m
  step_slave-busy now i s m b =
      let l : Link A = record {
        slave = s;
        parameters = m.parameters;
        app = m.app;
        sent = m.sent;
      } in
      ap (λ c. step_slave c (run_slave application now) m) b.turn
      ∙ step_slave-some i s (run_slave application now) m b.at
      ∙ ap {A = Link A} {B = Master A}
          (λ l. record m { slaves = set m.slaves i l.slave; app = l.app; sent = l.sent })
          (run_slave-busy now l b.busy)
      ∙ ap {A = List Slave} {B = Master A} (λ slaves. record m { slaves = slaves })
          (set-same m.slaves i s b.at)

  schedule-waits : (m : Master A) → slave_waits m.slaves m.current_slave ≡ true → schedule m ≡ m
  unfolding schedule
  schedule-waits m h = rw h refl

  send_broadcast-none : (m : Master A) → m.has_next_broadcast_to_send ≡ false → send_broadcast m ≡ m
  unfolding send_broadcast
  send_broadcast-none m h = ground arith

  run_state_machine-Blocked :
      (now i : ℕ) (s : Slave) (m : Master A)
      → Blocked i s m
      → run_state_machine application now m ≡ m
  unfolding run_state_machine
  run_state_machine-Blocked now i s m b =
      let w : slave_waits m.slaves m.current_slave ≡ true =
        rw (b.turn, b.at, slave_waits) b.waits in
      rw (send_broadcast-none m b.no_broadcast, nth_slave-lt m.slaves i s b.at, schedule-waits m w)
        (step_slave-busy now i s m b)

  -- The runs of the state machine at the given times, in that order.
  abbrev pub run_at : List ℕ → Master A → Master A
  run_at [] m = m
  run_at (now ∷ times) m = run_at times (run_state_machine application now m)

  run_at-Blocked :
      (times : List ℕ) (i : ℕ) (s : Slave) (m : Master A) → Blocked i s m → run_at times m ≡ m
  run_at-Blocked [] i s m b = refl
  run_at-Blocked (now ∷ times) i s m b =
      ap (run_at times) (run_state_machine-Blocked now i s m b) ∙ run_at-Blocked times i s m b

  record Busy (s t : Slave) : Type 0 where
    busy : t.primary_state ≡ secondary_link_layer_busy
    waits : t.waiting_for_response ≡ s.waiting_for_response

  handle_answer-Busy :
      (now : ℕ) (a : Answer) (l : Link A)
      → a.dfc ≡ true
      → l.slave.primary_state ≡ execute_service_send_confirm
      → Busy l.slave (handle_answer application now a l).slave
  unfolding handle_answer
  handle_answer-Busy now a l hd hs = ground arith

  -- When the slave whose turn it is answers a confirmed message, for which the master waits, with
  -- the data flow control bit (it is busy), and there is no broadcast to send, no later run of the
  -- state machine, at whatever times, changes or sends anything: the master polls none of its slaves any more.
  pub busy_answer_blocks :
      (times : List ℕ) (now i : ℕ) (a : Answer) (s : Slave) (m : Master A)
      → m.current_slave ≡ some i
      → sender a.address m ≡ some i
      → nth_slave m.slaves i ≡ some s
      → s.primary_state ≡ execute_service_send_confirm
      → s.waiting_for_response ≡ true
      → a.dfc ≡ true
      → m.has_next_broadcast_to_send ≡ false
      → run_at times (handle_message application now a m) ≡ handle_message application now a m
  unfolding handle_message
  busy_answer_blocks times now i a s m turn from at hs hw hd hb =
      let l =
        handle_answer application now a
          (record { slave = s; parameters = m.parameters; app = m.app; sent = m.sent }) in
      let b =
        handle_answer-Busy now a
          (record { slave = s; parameters = m.parameters; app = m.app; sent = m.sent }) hd hs in
      let n : Master A = record m { slaves = set m.slaves i l.slave; app = l.app; sent = l.sent } in
      let e : handle_message application now a m ≡ n =
        ap (λ c. step_slave c (handle_answer application now a) m) from
        ∙ step_slave-some i s (handle_answer application now a) m at in
      subst (λ x. run_at times x ≡ x) (sym e)
        (run_at-Blocked times i l.slave n (record {
          turn = turn;
          at = nth_slave-set_self m.slaves i s l.slave at;
          busy = b.busy;
          waits = b.waits ∙ hw;
          no_broadcast = hb;
        }))
