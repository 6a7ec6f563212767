-- ===== src/Cs104/Connection/Peer.antt =====
-- The `IPeerConnection` of a client's connection (`_IPeerConnection_sendASDU` and the functions
-- beside it in cs104_connection.c), and what a plugin does through it.
use lib.Prelude.{ℕ, Bool, true, false, List, replicate}
use lib.Cs104.SystemTime.{SystemTime}
use lib.Cs104.Frame.{create_ex, append_bytes}
use lib.Cs104.Plugin.{Script, done, ask_ready, ask_parameters, send_asdu, close_peer}
use lib.Cs104.Connection.{Connection, ConState, active, send_asdu_internal}

-- `_IPeerConnection_isReady`
abbrev pub is_ready : ConState → Bool
is_ready active = true
is_ready _ = false

module _ {A : Type 0} where
  -- `_IPeerConnection_sendASDU`, for an ASDU that is encoded as `octets`; the frame stands on the
  -- stack, and its storage is taken to be cleared.
  unfoldable pub peer_send_asdu : SystemTime → Connection A → List ℕ → Bool × Connection A
  peer_send_asdu now c octets =
      send_asdu_internal now c (append_bytes (create_ex (replicate 256 0)) octets)

  -- `_IPeerConnection_close`
  unfoldable pub peer_close : Connection A → Connection A
  peer_close c = record c { close = true }

  -- The calls of a plugin one after the other, with the lock held throughout.
  unfoldable pub run_script : Connection A → Script A → Bool × Connection A
  unfolding peer_send_asdu peer_close
  run_script c (done handled a) = (handled, record c { app = a })
  run_script c (ask_ready f) = run_script c (f (is_ready c.con_state))
  run_script c (ask_parameters f) = run_script c (f c.al_parameters)
  run_script c (send_asdu now octets f) =
      run_script (peer_send_asdu now c octets).1 (f (peer_send_asdu now c octets).0)
  run_script c (close_peer s) = run_script (peer_close c) s
