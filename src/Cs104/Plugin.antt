-- ===== src/Cs104/Plugin.antt =====
-- Plugins (`struct sCS101_MasterPlugin`): what they do with the connection from which they are
-- called, through its `IPeerConnection`. What a plugin is, is not part of this library.
use lib.Prelude.{ℕ, Bool, List}
use lib.Cs104.SystemTime.{SystemTime}
use lib.Cs101.Asdu.{AppLayerParameters, Asdu}

-- The calls that a plugin makes, in order, each with what it does after the answer. In the end
-- stands whether it handled the ASDU, and the state of the application. A plugin may send the octets
-- of an ASDU, at the time that stands before them.
pub data Script (A : Type 0) : Type 0 where
  done : Bool → A → Script A
  ask_ready : (Bool → Script A) → Script A
  ask_parameters : (AppLayerParameters → Script A) → Script A
  send_asdu : SystemTime → List ℕ → (Bool → Script A) → Script A
  close_peer : Script A → Script A

-- `handleAsdu`
abbrev pub Plugin : Type 0 → Type 0
Plugin A = A → Asdu → Script A
