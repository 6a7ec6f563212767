-- ===== src/Cs104/Connection/Sending.antt =====
-- Sending, as the window of the connection sees it.
use lib.Prelude.{
  ℕ, ◌+◌, ◌%◌, ◌≡◌, ◌≢◌, ◌⊎◌, refl, true, false, List, [], ◌∷◌, ◌==◌, arith, Bool-cases, inl, inr,
  sym, ◌∙◌, ap, subst, subst₂,
}
use lib.Cs101.Asdu.{Asdu}
use lib.Cs104.SystemTime.{SystemTime}
use lib.Cs104.Plugin.{Plugin, Script, done, ask_ready, ask_parameters, send_asdu, close_peer}
use lib.Cs104.Window.{Window, send_frame}
use lib.Cs104.KBuffer.{store_sent}
use lib.Cs104.KBuffer.Tracks.{Tracks}
use lib.Cs104.KBuffer.Refine.{is_sent_buffer_full_refines}
use lib.Cs104.KBuffer.Send.{store_sent_refines}
use lib.Cs104.Frame.{T104Frame}
use lib.Cs104.Connection.{Connection, send_asdu_internal, send_i_message_and_update_sent_asdus}
use lib.Cs104.Connection.Peer.{peer_send_asdu, peer_close, run_script, is_ready}
use lib.Cs104.Connection.Receive.{call_plugins, deliver}

-- The connection's k-buffer and send counter stand for a window with `n` pending frames.
abbrev pub HasPending : {A : Type 0} → ℕ → Connection A → ℕ → Type 0
HasPending k c n = Tracks k c.k_buffer (record { send_count = c.send_count; pending = n })

module _ {A : Type 0} where
  send_i-k_buffer :
      (now : SystemTime) (c : Connection A) (f : T104Frame)
      → ((send_i_message_and_update_sent_asdus now c f).k_buffer
          ≡ store_sent c.k_buffer
              (record { sent_time = now.time_in_ms; seq_no = (c.send_count + 1) % 32768 }))
        × ((send_i_message_and_update_sent_asdus now c f).send_count ≡ (c.send_count + 1) % 32768)
  unfolding send_i_message_and_update_sent_asdus
  send_i-k_buffer now c f = (refl, refl)

  -- On a running connection with n pending frames, sendASDUInternal answers as a window of k
  -- frames does, refusing exactly when k are pending, and leaves the k-buffer and the send
  -- counter standing for the window after the answer.
  pub send_asdu_internal_refines :
      (k : ℕ) (now : SystemTime) (c : Connection A) (n : ℕ) (f : T104Frame)
      → HasPending k c n
      → c.running ≡ true
      → let (ok, w') = send_frame k (record { send_count = c.send_count; pending = n }) in
        ((send_asdu_internal now c f).0 ≡ ok)
        × Tracks k (send_asdu_internal now c f).1.k_buffer w'
        × ((send_asdu_internal now c f).1.send_count ≡ w'.send_count)
  unfolding send_asdu_internal send_frame
  send_asdu_internal_refines k now c n f h run = elim (Bool-cases (n == k)) [
    | inl full ↦ rw (run, is_sent_buffer_full_refines h, full) (refl, h, refl)
    | inr room ↦
        rw (run, is_sent_buffer_full_refines h, room)
          (refl, store_sent_refines _ h (ground arith) refl, refl)
  ]

  -- A call that leaves the k-buffer, the send counter, the plugins and the parameters alone.
  pub record SameWindow (c c' : Connection A) : Type 0 where
    pub same_buffer : c'.k_buffer ≡ c.k_buffer
    pub same_count : c'.send_count ≡ c.send_count
    pub same_plugins : c'.plugins ≡ c.plugins
    pub same_parameters : c'.parameters ≡ c.parameters

  pub SameWindow-refl : (c : Connection A) → SameWindow c c
  SameWindow-refl c = record {
    same_buffer = refl;
    same_count = refl;
    same_plugins = refl;
    same_parameters = refl;
  }

  send_off :
      (now : SystemTime) (c : Connection A) (f : T104Frame)
      → c.running ≡ false
      → (send_asdu_internal now c f).1 ≡ c
  unfolding send_asdu_internal
  send_off now c f off = rw off refl

  pub send-same :
      (now : SystemTime) (c : Connection A) (f : T104Frame)
      → ((send_asdu_internal now c f).1.plugins ≡ c.plugins)
        × ((send_asdu_internal now c f).1.parameters ≡ c.parameters)
        × ((send_asdu_internal now c f).1.receive_count ≡ c.receive_count)
  unfolding send_asdu_internal
  send-same now c f = ground arith

  -- The user's handler leaves the connection as the plugins did.
  deliver-SameWindow :
      (c : Connection A) (asdu : Asdu)
      → SameWindow (call_plugins c.plugins c asdu).1 (deliver c asdu)
  unfolding deliver
  deliver-SameWindow c asdu = ground arith

module _ {A : Type 0} (k : ℕ) where
  -- What a call leaves of a connection of which `n` frames are pending, when it sends `sent`
  -- frames: these are pending too, and the send counter has gone on by their number.
  pub record Sends (c : Connection A) (n : ℕ) (c' : Connection A) : Type 0 where
    pub sent : ℕ
    pub counted : c'.send_count ≡ (c.send_count + sent) % 32768
    pub tracks : HasPending k c' (n + sent)
    pub same_plugins : c'.plugins ≡ c.plugins
    pub same_parameters : c'.parameters ≡ c.parameters

  pub SameWindow-HasPending :
      {c d : Connection A} (n : ℕ) → SameWindow c d → HasPending k c n → HasPending k d n
  SameWindow-HasPending {c} {d} n s h =
      subst₂ (λ b m. Tracks k b (record { send_count = m; pending = n })) (sym s.same_buffer)
        (sym s.same_count) h

  pub SameWindow-Sends :
      {c d : Connection A} {n : ℕ} → SameWindow c d → HasPending k c n → Sends c n d
  SameWindow-Sends {c} {d} {n} s h = record {
    sent = 0;
    counted = omega (arith, s.same_count, h.count_small);
    tracks =
        subst₂ (λ b m. Tracks k b (record { send_count = m; pending = n + 0 })) (sym s.same_buffer)
          (sym s.same_count) (subst (λ (m : ℕ). HasPending k c m) (omega arith) h);
    same_plugins = s.same_plugins;
    same_parameters = s.same_parameters;
  }

  pub Sends-trans :
      {c d e : Connection A} {n : ℕ} (first : Sends c n d)
      → Sends d (n + first.sent) e
      → Sends c n e
  Sends-trans {c} {d} {e} {n} first second = record {
    sent = first.sent + second.sent;
    counted = omega (arith, first.counted, second.counted);
    tracks = subst (λ (m : ℕ). HasPending k e m) (omega arith) second.tracks;
    same_plugins = second.same_plugins ∙ first.same_plugins;
    same_parameters = second.same_parameters ∙ first.same_parameters;
  }

  -- A call after which the window is `w`, with `sent` frames more.
  window-Sends :
      {c d : Connection A} {n : ℕ} (w w' : Window) (sent : ℕ)
      → Tracks k d.k_buffer w
      → d.send_count ≡ w.send_count
      → w ≡ w'
      → w'.pending ≡ n + sent
      → w'.send_count ≡ (c.send_count + sent) % 32768
      → d.plugins ≡ c.plugins
      → d.parameters ≡ c.parameters
      → Sends c n d
  window-Sends {c} {d} {n} w w' sent t count e pending counted plugins parameters = record {
    sent = sent;
    counted = count ∙ ap (λ (v : Window). v.send_count) e ∙ counted;
    tracks =
        subst₂ (λ s m. Tracks k d.k_buffer (record { send_count = s; pending = m })) (sym count)
          (ap (λ (v : Window). v.pending) e ∙ pending) t;
    same_plugins = plugins;
    same_parameters = parameters;
  }

  pub send-Sends :
      (now : SystemTime) (c : Connection A) (n : ℕ) (f : T104Frame)
      → HasPending k c n
      → Sends c n (send_asdu_internal now c f).1
  unfolding send_frame
  send-Sends now c n f h = elim (Bool-cases c.running) [
    | inr off ↦ rw (send_off now c f off) (SameWindow-Sends (SameWindow-refl c) h)
    | inl run ↦
        let w : Window = record { send_count = c.send_count; pending = n } in
        let (plugins, parameters, _) = send-same now c f in
        let (_, t, count) = send_asdu_internal_refines k now c n f h run in
        elim (Bool-cases (n == k)) [
          | inl full ↦
              window-Sends (send_frame k w).1 w 0 t count (rw full refl) (omega arith)
                (omega (arith, h.count_small)) plugins parameters
          | inr room ↦
              window-Sends (send_frame k w).1
                (record { send_count = (c.send_count + 1) % 32768; pending = n + 1 }) 1 t count
                (rw room refl) refl refl plugins parameters
        ]
  ]

  pub run_script-Sends :
      (c : Connection A) (n : ℕ) (s : Script A) → HasPending k c n → Sends c n (run_script c s).1
  unfolding run_script peer_send_asdu peer_close
  run_script-Sends c n (done ok a) h = SameWindow-Sends (ground arith) h
  run_script-Sends c n (ask_ready f) h = run_script-Sends c n (f (is_ready c.con_state)) h
  run_script-Sends c n (ask_parameters f) h = run_script-Sends c n (f c.al_parameters) h
  run_script-Sends c n (send_asdu now octets f) h =
      let first : Sends c n (peer_send_asdu now c octets).1 = send-Sends now c n _ h in
      Sends-trans first (
        run_script-Sends (peer_send_asdu now c octets).1 (n + first.sent)
          (f (peer_send_asdu now c octets).0) first.tracks)
  run_script-Sends c n (close_peer s) h =
      let same : SameWindow c (peer_close c) = ground arith in
      let first : Sends c n (peer_close c) = SameWindow-Sends same h in
      Sends-trans first (run_script-Sends (peer_close c) (n + first.sent) s first.tracks)

  call_plugins-Sends :
      (ps : List (Plugin A)) (c : Connection A) (n : ℕ) (asdu : Asdu)
      → HasPending k c n
      → Sends c n (call_plugins ps c asdu).1
  unfolding call_plugins
  call_plugins-Sends [] c n asdu h = SameWindow-Sends (SameWindow-refl c) h
  call_plugins-Sends (p ∷ ps) c n asdu h =
      let asked : Connection A = (run_script c (p c.app asdu)).1 in
      let first : Sends c n asked = run_script-Sends c n (p c.app asdu) h in
      let all : Sends c n (call_plugins ps asked asdu).1 =
        Sends-trans first (call_plugins-Sends ps asked (n + first.sent) asdu first.tracks) in
      elim (Bool-cases (run_script c (p c.app asdu)).0) [
        | inl handled ↦ rw handled first
        | inr passed_on ↦ rw passed_on all
      ]

  -- Without plugins nothing is sent.
  pub record Delivers (c : Connection A) (n : ℕ) (ps : List (Plugin A)) (d : Connection A)
      : Type 0 where
    pub sends : Sends c n d
    pub quiet : (sends.sent ≡ 0) ⊎ (ps ≢ [])

  after_plugins :
      (c : Connection A) (n : ℕ) (asdu : Asdu) (ps : List (Plugin A)) (d : Connection A)
      → HasPending k c n
      → SameWindow (call_plugins ps c asdu).1 d
      → Delivers c n ps d
  unfolding call_plugins SameWindow-Sends
  after_plugins c n asdu [] d h s = record { sends = SameWindow-Sends s h; quiet = inl refl }
  after_plugins c n asdu (p ∷ ps) d h s =
      let first : Sends c n (call_plugins (p ∷ ps) c asdu).1 =
        call_plugins-Sends (p ∷ ps) c n asdu h in
      record { sends = Sends-trans first (SameWindow-Sends s first.tracks); quiet = inr (λ e. cc) }

  pub deliver-Delivers :
      (c : Connection A) (n : ℕ) (asdu : Asdu)
      → HasPending k c n
      → Delivers c n c.plugins (deliver c asdu)
  deliver-Delivers c n asdu h =
      after_plugins c n asdu c.plugins (deliver c asdu) h (deliver-SameWindow c asdu)

  pub SameWindow-Delivers :
      {c d : Connection A} {n : ℕ} (ps : List (Plugin A))
      → SameWindow c d
      → HasPending k c n
      → Delivers c n ps d
  unfolding SameWindow-Sends
  SameWindow-Delivers ps s h = record { sends = SameWindow-Sends s h; quiet = inl refl }

  pub Delivers-trans :
      {c d e : Connection A} {n : ℕ} (first : Delivers c n c.plugins d)
      → Delivers d (n + first.sends.sent) d.plugins e
      → Delivers c n c.plugins e
  unfolding Sends-trans
  Delivers-trans first second = record {
    sends = Sends-trans first.sends second.sends;
    quiet = ground (arith, first.quiet, second.quiet, first.sends.same_plugins);
  }

  -- What follows a change of the k-buffer only.
  pub Delivers-after :
      {c d e : Connection A} {n : ℕ}
      → d.send_count ≡ c.send_count
      → d.plugins ≡ c.plugins
      → d.parameters ≡ c.parameters
      → Delivers d n d.plugins e
      → Delivers c n c.plugins e
  Delivers-after {c} {d} {e} {n} count plugins parameters h = record {
    sends = record {
      sent = h.sends.sent;
      counted = omega (arith, h.sends.counted, count);
      tracks = h.sends.tracks;
      same_plugins = h.sends.same_plugins ∙ plugins;
      same_parameters = h.sends.same_parameters ∙ parameters;
    };
    quiet = ground (arith, h.quiet, plugins);
  }
