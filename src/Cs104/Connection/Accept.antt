-- ===== src/Cs104/Connection/Accept.antt =====
-- Which I frames reach the application.
use lib.Prelude.{
  ℕ, ◌+◌, ◌-◌, ◌%◌, ◌<◌, ◌≡◌, Bool, true, false, not, ◌&&◌, Option, none, some, List, [], ◌∷◌, refl,
  ◌∙◌, leb, ◌==◌, ltb, if◌then◌else◌, drop, arith,
}
use lib.Cs101.Asdu.{create_from_buffer, Asdu}
use lib.Cs104.Plugin.{Plugin, Script, done, ask_ready, ask_parameters, send_asdu, close_peer}
use lib.Cs104.KBuffer.{KBuffer}
use lib.Cs104.KBuffer.Tracks.{Tracks}
use lib.Cs104.Window.{behind, confirm_frames}
use lib.Cs104.KBuffer.Refine.{check_sequence_number_refines}
use lib.Cs104.Connection.{Connection}
use lib.Cs104.Connection.Receive.{
  frame_seq_no, byte, check_sequence_number, start_t2, accept_i_frame, check_i_frame, deliver,
  call_plugins,
}
use lib.Cs104.Connection.Peer.{run_script, peer_send_asdu, peer_close, is_ready}
use lib.Cs104.Connection.Sending.{HasPending, send-same}
use lib.Cs104.Connection.Window.{frame_seq_no_lt, count_frame, accepted}

abbrev pub is_some : Option Asdu → Bool
is_some none = false
is_some (some _) = true

module _ {A : Type 0} where
  -- The numbers of an I frame of `size` bytes are right, with `n` frames pending: N(S) is the
  -- next one, and N(R) confirms pending frames or none.
  abbrev pub is_in_order : Connection A → ℕ → List ℕ → ℕ → Bool
  is_in_order c n buffer size =
      not (ltb size 7)
      && (frame_seq_no (byte buffer 2) (byte buffer 3) == c.receive_count
          && leb (behind c.send_count (frame_seq_no (byte buffer 4) (byte buffer 5))) n)

  abbrev pub asdu_in : Connection A → List ℕ → ℕ → Option Asdu
  asdu_in c buffer size = create_from_buffer c.al_parameters (drop 6 buffer) (size - 6)

  -- The connection that the plugins find when an I frame is accepted: T2 runs, the frames that
  -- N(R) confirms have left the k-buffer, which is `b` now, and the frame is counted.
  abbrev pub at_delivery : ℕ → Connection A → KBuffer → Connection A
  at_delivery now c b = record (start_t2 now c) {
    k_buffer = b;
    receive_count = (c.receive_count + 1) % 32768;
    unconfirmed_received_i_messages = c.unconfirmed_received_i_messages + 1;
  }

  -- The application after an ASDU that may not be one.
  abbrev pub app_after : Connection A → Option Asdu → A
  app_after c none = c.app
  app_after c (some asdu) = (deliver c asdu).app

  -- What is seen of a call: its result, the receive counter and the application.
  abbrev pub seen : Option (Bool × Connection A) → Option (Bool × ℕ × A)
  seen none = none
  seen (some (ok, c)) = some (ok, c.receive_count, c.app)

  run_script-receive_count :
      (c : Connection A) (s : Script A) → (run_script c s).1.receive_count ≡ c.receive_count
  unfolding run_script peer_send_asdu peer_close
  run_script-receive_count c (done ok a) = refl
  run_script-receive_count c (ask_ready f) = run_script-receive_count c (f (is_ready c.con_state))
  run_script-receive_count c (ask_parameters f) = run_script-receive_count c (f c.al_parameters)
  run_script-receive_count c (send_asdu now octets f) =
      run_script-receive_count (peer_send_asdu now c octets).1 (f (peer_send_asdu now c octets).0)
      ∙ (send-same now c _).2
  run_script-receive_count c (close_peer s) = run_script-receive_count (peer_close c) s

  call_plugins-receive_count :
      (ps : List (Plugin A)) (c : Connection A) (asdu : Asdu)
      → (call_plugins ps c asdu).1.receive_count ≡ c.receive_count
  unfolding call_plugins
  call_plugins-receive_count [] c asdu = refl
  call_plugins-receive_count (p ∷ ps) c asdu =
      let first : (run_script c (p c.app asdu)).1.receive_count ≡ c.receive_count =
        run_script-receive_count c (p c.app asdu) in
      ground (arith, first, call_plugins-receive_count ps (run_script c (p c.app asdu)).1 asdu)

  deliver-receive_count :
      (c : Connection A) (asdu : Asdu) → (deliver c asdu).receive_count ≡ c.receive_count
  unfolding deliver
  deliver-receive_count c asdu = ground (arith, call_plugins-receive_count c.plugins c asdu)

  seen-accepted :
      (c : Connection A) (o : Option Asdu)
      → seen (some (accepted c o))
        ≡ some (is_some o, (c.receive_count + 1) % 32768, app_after (count_frame c) o)
  seen-accepted c none = refl
  seen-accepted c (some asdu) = rw (deliver-receive_count (count_frame c) asdu) refl

  seen-accept_i_frame :
      (c : Connection A) (buffer : List ℕ) (size : ℕ)
      → seen (some (accept_i_frame c buffer size))
        ≡ some (
          is_some (asdu_in c buffer size),
          (c.receive_count + 1) % 32768,
          app_after (count_frame c) (asdu_in c buffer size),
        )
  unfolding accept_i_frame
  seen-accept_i_frame c buffer size = seen-accepted c (asdu_in c buffer size)

  -- For a connection with n pending frames, an I frame is counted exactly if it has at least
  -- 7 bytes, its N(S) is the receive counter and its N(R) confirms at most n frames; then it
  -- succeeds exactly if it holds an ASDU, and the plugins and the handler get that, at a
  -- connection whose k-buffer stands for the window after the confirmation; in every other
  -- case the counter and the application are unchanged and the call fails.
  pub check_i_frame_lem :
      (now k : ℕ) (c : Connection A) (n : ℕ) (buffer : List ℕ) (size : ℕ)
      → HasPending k c n
      → byte buffer 4 < 256
      → byte buffer 5 < 256
      → (b : KBuffer) × Tracks k b
          (confirm_frames
            (record { send_count = c.send_count; pending = n })
            (frame_seq_no (byte buffer 4) (byte buffer 5))).1
        × (seen (check_i_frame now c buffer size)
            ≡ some (
                if is_in_order c n buffer size
                then (
                  is_some (asdu_in c buffer size),
                  (c.receive_count + 1) % 32768,
                  app_after (at_delivery now c b) (asdu_in c buffer size),
                )
                else (false, c.receive_count, c.app)))
  unfolding check_i_frame start_t2 check_sequence_number confirm_frames
  check_i_frame_lem now k c n buffer size h h4 h5 =
      let (b, e, t) =
        check_sequence_number_refines (frame_seq_no (byte buffer 4) (byte buffer 5)) h
          (frame_seq_no_lt _ _ h4 h5) in
      let accept = seen-accept_i_frame (record (start_t2 now c) { k_buffer = b }) buffer size in
      (b, t, ground (arith, accept))
