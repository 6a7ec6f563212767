-- ===== src/Cs104/Tests.antt =====
-- Runs of the connection, and the theorems at concrete connections.
use lib.Prelude.{
  ℕ, zero, suc, ◌+◌, ◌*◌, ◌/◌, ◌%◌, Bool, not, ltb, ◌!=◌, ◌&&◌, Option, take, length, ◌≤◌, ◌<◌, ◌≡◌,
  refl, true, false, none, some, List, [], ◌∷◌, arith, inl, inr, replicate, if◌then◌else◌,
}
use lib.Cs101.Asdu.{AppLayerParameters, get_element_data_size, create_from_buffer}
use lib.Cs104.Window
use lib.Cs104.KBuffer.{
  KBuffer, SentAsdu, no_asdu, entry_at, check_sequence_number, seq_no_is_valid, oldest_valid_seq_no,
  release_loop, is_sent_buffer_full, store_sent,
}
use lib.Cs104.KBuffer.Tracks.{Tracks, numbered}
use lib.Cs104.KBuffer.Refine.{check_sequence_number_refines}
use lib.Cs104.Frame.{T104Frame, create, create_ex, prepare_to_send}
use lib.Cs104.Connection.{
  ApciParameters, Connection, ConState, active, idle, send_asdu_internal, reset_connection,
}
use lib.Cs104.Connection
use lib.Cs104.Connection.Receive.{check_message, check_i_frame, byte}
use lib.Cs104.Connection.Receive
use lib.Cs104.Connection.Timeouts
use lib.Cs104.Connection.Timeouts.{Clock, handle_timeouts}
use lib.Cs104.Connection.Window.{Ends, check_message-Ends}
use lib.Cs104.Connection.Accept.{
  seen, check_i_frame_lem, is_in_order, is_some, asdu_in, app_after, at_delivery,
}
use lib.Cs104.Connection.Exchange.{exchange_accepted}
use lib.Cs104.Connection.Sending.{send_asdu_internal_refines}
use lib.Cs104.Connection.Peer.{run_script}
use lib.Cs104.Connection.Establish.{Network, start_threadless}
use lib.Cs104.SystemTime.{SystemTime}
use lib.Cs104.Plugin.{Plugin, Script, send_asdu, done}
use lib.Cs104.Connection.Alive.{
  handle_timeouts-confirms, test_frames, supervise, test_frames-supervise, i_message_timeout_never,
}
use lib.Cs104.Connection.Reach.{here, next, send, start_dt, task, Tracked, Reach-Tracked}

abbrev apci : ApciParameters
apci = record { k = 3; w = 2; t0 = 10; t1 = 15; t2 = 10; t3 = 20 }

-- A moment at the end of 2026, on a machine that was started `n` milliseconds ago.
abbrev moment : ℕ → SystemTime
moment n = record { time_in_ms = 1798675200000; monotonic_time_in_ms = n }

abbrev app_layer : AppLayerParameters
app_layer = record {
  size_of_type_id = 1;
  size_of_vsq = 1;
  size_of_cot = 2;
  originator_address = 0;
  size_of_ca = 2;
  size_of_ioa = 3;
  max_size_of_asdu = 249;
}

abbrev entry : ℕ → SentAsdu
entry n = record { sent_time = 0; seq_no = n }

-- Three frames are pending, numbered across the wrap of the counter and round the end of the ring.
abbrev wrapped : KBuffer
wrapped = record {
  sent_asdus = entry 0 ∷ entry 32766 ∷ entry 32767 ∷ [];
  max_sent_asdus = 3;
  oldest_sent_asdu = some 1;
  newest_sent_asdu = some 0;
}

abbrev unallocated : KBuffer
unallocated = record {
  sent_asdus = [];
  max_sent_asdus = 0;
  oldest_sent_asdu = none;
  newest_sent_asdu = none;
}

abbrev vacant : KBuffer
vacant = record unallocated { sent_asdus = replicate 3 no_asdu; max_sent_asdus = 3 }

-- The application counts the ASDUs.
abbrev station : KBuffer → ℕ → ℕ → Connection ℕ
station b sent received = record {
  parameters = apci;
  al_parameters = app_layer;
  connect_timeout_in_ms = 10000;
  recv_buf_pos = 0;
  k_buffer = b;
  receive_count = received;
  send_count = sent;
  unconfirmed_received_i_messages = 1;
  timeout_t2_trigger = true;
  last_confirmation_time = 1000;
  next_t3_timeout = 20000;
  outstanding_test_fr_con_messages = 0;
  u_message_timeout = 0;
  socket = true;
  running = true;
  failure = false;
  close = false;
  con_state = active;
  plugins = [];
  received_handler = some (λ a asdu. a + 1);
  app = 0;
  log = [];
}

wrapped_entries : (j : ℕ) → j < 3 → (entry_at wrapped ((1 + j) % 3)).seq_no ≡ numbered 0 3 j
wrapped_entries zero h = refl
wrapped_entries (suc zero) h = refl
wrapped_entries (suc (suc zero)) h = refl
wrapped_entries (suc (suc (suc j))) h = absurd (omega arith)

wrapped-Tracks : Tracks 3 wrapped (record { send_count = 0; pending = 3 })
wrapped-Tracks = record {
  size = refl;
  room = refl;
  k_positive = omega arith;
  k_small = omega arith;
  fits = omega arith;
  count_small = omega arith;
  layout = inr (record {
    oldest = 1;
    starts = refl;
    in_ring = omega arith;
    some_pending = omega arith;
    ends = refl;
    entries = wrapped_entries;
  });
}

vacant-Tracks : (s : ℕ) → s < 32768 → Tracks 3 vacant (record { send_count = s; pending = 0 })
vacant-Tracks s h = record {
  size = refl;
  room = refl;
  k_positive = omega arith;
  k_small = omega arith;
  fits = omega arith;
  count_small = h;
  layout = inl (refl, refl);
}

-- N(R) = 32767 confirms two of the three frames, and 1 is refused.
confirm_two :
    check_sequence_number 0 wrapped 32767
    ≡ some (true, record wrapped { oldest_sent_asdu = some 0 })
unfolding check_sequence_number seq_no_is_valid oldest_valid_seq_no release_loop
confirm_two = refl

refuse_one : check_sequence_number 0 wrapped 1 ≡ some (false, wrapped)
unfolding check_sequence_number seq_no_is_valid oldest_valid_seq_no
refuse_one = refl

check_sequence_number_refines_example :
    let (ok, w') = Window.confirm_frames (record { send_count = 0; pending = 3 }) 32767 in
    (b' : KBuffer) × (check_sequence_number 0 wrapped 32767 ≡ some (ok, b')) × Tracks 3 b' w'
check_sequence_number_refines_example =
    check_sequence_number_refines {k = 3} {b = wrapped} {w = record { send_count = 0; pending = 3 }}
      32767 wrapped-Tracks (omega arith)

-- A single point information: type 1, one element, cause 3, address 1, object 7, value 1.
abbrev single_point : List ℕ
single_point = 1 ∷ 1 ∷ 3 ∷ 0 ∷ 1 ∷ 0 ∷ 7 ∷ 0 ∷ 0 ∷ 1 ∷ []

abbrev i_frame : List ℕ
i_frame = 0x68 ∷ 14 ∷ 0x0a ∷ 0x00 ∷ 0xfc ∷ 0xff ∷ single_point

abbrev counters : Option (Bool × Connection ℕ) → Option (ℕ × ℕ × ℕ)
counters none = none
counters (some (ok, c)) = some (c.send_count, c.receive_count, c.app)

-- A plugin that sends what it receives back.
abbrev echo : Plugin ℕ
echo a asdu = send_asdu (moment 7) asdu.asdu (λ ok. done ok (a + 1))

abbrev echoing : Connection ℕ
echoing = record (station wrapped 0 5) { plugins = echo ∷ [] }

-- N(R) confirms one of three pending frames, and the plugin sends one.
echoed : counters (check_message 5 6 echoing i_frame 16) ≡ some (1, 6, 1)
unfolding check_message check_i_frame Receive.start_t2 Receive.check_sequence_number
    Receive.accept_i_frame Receive.deliver Receive.call_plugins check_sequence_number
    seq_no_is_valid oldest_valid_seq_no release_loop get_element_data_size create_from_buffer
    run_script send_asdu_internal is_sent_buffer_full store_sent prepare_to_send create_ex
    Connection.reset_t3_timeout
echoed = refl

check_message-Ends_example : Ends 3 echoing 3 (check_message 5 6 echoing i_frame 16)
check_message-Ends_example =
    check_message-Ends 3 5 6 echoing 3 i_frame 16 wrapped-Tracks (omega arith)

check_i_frame_lem_example :
    (b : KBuffer) × Tracks 3 b
      (Window.confirm_frames (record { send_count = 0; pending = 3 }) 32766).1
    × (seen (check_i_frame 5 echoing i_frame 16)
        ≡ some (
            if is_in_order echoing 3 i_frame 16
            then (
              is_some (asdu_in echoing i_frame 16),
              6,
              app_after (at_delivery 5 echoing b) (asdu_in echoing i_frame 16),
            )
            else (false, 5, 0)))
check_i_frame_lem_example =
    check_i_frame_lem 5 3 echoing 3 i_frame 16 wrapped-Tracks (omega arith) (omega arith)

i_frame_accepted : seen (check_i_frame 5 (station wrapped 0 5) i_frame 16) ≡ some (true, 6, 1)
unfolding check_i_frame Receive.start_t2 Receive.check_sequence_number Receive.accept_i_frame
    Receive.deliver Receive.call_plugins check_sequence_number seq_no_is_valid oldest_valid_seq_no
    release_loop get_element_data_size create_from_buffer
i_frame_accepted = refl

send_asdu_internal_refines_example :
    let (ok, w') = Window.send_frame 3 (record { send_count = 0; pending = 3 }) in
    ((send_asdu_internal (moment 9) (station wrapped 0 0) create).0 ≡ ok)
    × Tracks 3 (send_asdu_internal (moment 9) (station wrapped 0 0) create).1.k_buffer w'
    × ((send_asdu_internal (moment 9) (station wrapped 0 0) create).1.send_count ≡ w'.send_count)
send_asdu_internal_refines_example =
    send_asdu_internal_refines 3 (moment 9) (station wrapped 0 0) 3 create wrapped-Tracks refl

abbrev loaded : T104Frame
loaded = record { buffer = 0x68 ∷ 0 ∷ 0 ∷ 0 ∷ 0 ∷ 0 ∷ single_point; msg_size = 16 }

exchange_accepted_example :
    let s = station vacant 32767 32766 in
    let r = station wrapped 0 32767 in
    let s' = (send_asdu_internal (moment 9) s loaded).1 in
    (m : List ℕ) × (b : KBuffer) × (s'.log ≡ m ∷ [])
    × Tracks 3 b (Window.confirm_frames (record { send_count = 0; pending = 3 }) 32766).1
    × (seen (check_message 5 6 r m 16)
        ≡ some (
          is_some (asdu_in r m 16),
          s'.send_count,
          app_after (at_delivery 5 r b) (asdu_in r m 16),
        ))
exchange_accepted_example =
    exchange_accepted 3 3 (moment 9) 5 6 (station vacant 32767 32766) (station wrapped 0 32767)
      loaded
      (record {
        pending = wrapped-Tracks;
        counted = refl;
        in_range = omega arith;
        confirms = omega arith;
        no_more = omega arith;
      })
      refl refl refl (unfold is_sent_buffer_full in refl) (omega arith) (omega arith)

abbrev late : Clock
late = record { current = 12000; t3 = 12000; confirm = 12000 }

keeps : (handle_timeouts late (station vacant 0 9)).0 ≡ true
unfolding handle_timeouts Timeouts.handle_t3 Timeouts.handle_t2 Timeouts.check_t1
    Timeouts.check_confirm_timeout Timeouts.i_message_timeout
keeps = refl

handle_timeouts-confirms_example :
    let c' = (handle_timeouts late (station vacant 0 9)).1 in
    (m : List ℕ) × (c'.log ≡ m ∷ [])
    × (take 4 m ≡ 0x68 ∷ 0x04 ∷ 0x01 ∷ 0x00 ∷ [])
    × (length m ≡ 6)
    × ((byte m 4 + byte m 5 * 0x100) / 2 ≡ 9)
    × (c'.unconfirmed_received_i_messages ≡ 0)
    × (c'.timeout_t2_trigger ≡ false)
    × (c'.last_confirmation_time ≡ 12000)
handle_timeouts-confirms_example =
    handle_timeouts-confirms late (station vacant 0 9) keeps refl refl (omega arith)

-- An hour after the frame is sent, with `t1` of 15 seconds.
i_message_timeout_never_example :
    let now : Clock = record { current = 3600000; t3 = 3600000; confirm = 3600000 } in
    let d =
      (supervise (late ∷ []) (send_asdu_internal (moment 9000) (station vacant 0 0) loaded).1).1 in
    let u = (handle_timeouts now d).1.u_message_timeout in
    (d.k_buffer.oldest_sent_asdu ≡ some 0)
    × ((handle_timeouts now d).0 ≡ (Timeouts.handle_t3 now d).0 && not (u != 0 && ltb u 3600000))
i_message_timeout_never_example =
    i_message_timeout_never (moment 9000) (late ∷ [])
      (record { current = 3600000; t3 = 3600000; confirm = 3600000 }) (station vacant 0 0) loaded
      refl (omega arith) refl (omega arith)

abbrev expired : Clock
expired = record { current = 50000; t3 = 0; confirm = 50000 }

test_frames-supervise_example :
    test_frames (supervise (expired ∷ expired ∷ expired ∷ expired ∷ []) (station vacant 0 0)).1.log
      + 0
    ≤ 3
test_frames-supervise_example =
    test_frames-supervise (expired ∷ expired ∷ expired ∷ expired ∷ []) (station vacant 0 0)
      (omega arith)

abbrev online : Network
online = record { created = true; connected = true; tls = none }

abbrev opened : Connection ℕ
opened = Connection.send_start_dt 6 (start_threadless online 5 (station unallocated 9 9)).1

abbrev sent_one : Connection ℕ
sent_one = (send_asdu_internal (moment 7) opened loaded).1

abbrev task_script : Script ℕ
task_script = send_asdu (moment 8) single_point (λ ok. done ok 0)

-- Both frames of the run below are accepted.
two_sent :
    ((send_asdu_internal (moment 7) opened loaded).0 ≡ true)
    × ((run_script sent_one task_script).0 ≡ true)
    × ((run_script sent_one task_script).1.send_count ≡ 2)
unfolding send_asdu_internal start_threadless Connection.send_start_dt reset_connection
    Connection.reset_k_buffer Connection.reset_t3_timeout is_sent_buffer_full run_script store_sent
    prepare_to_send create_ex
two_sent = (refl, refl, refl)

Reach-Tracked_example : Tracked 3 (run_script sent_one task_script).1
Reach-Tracked_example =
    Reach-Tracked online 5 (station unallocated 9 9) (omega arith) (omega arith) refl (
      next
        (next (next here (start_dt 6 (start_threadless online 5 (station unallocated 9 9)).1))
          (send (moment 7) opened loaded))
        (task sent_one task_script))
