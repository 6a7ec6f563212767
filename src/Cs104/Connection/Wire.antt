-- ===== src/Cs104/Connection/Wire.antt =====
-- The sequence numbers as they go over the wire.
use lib.Prelude.{
  ℕ, zero, suc, ◌+◌, ◌-◌, ◌*◌, ◌/◌, ◌%◌, ◌≤◌, ◌<◌, ◌≡◌, refl, List, [], ◌∷◌, get_or, set, take,
  length, bit_and, arith, ◌∙◌,
}
use lib.Prelude.Bytes.{u8, bit_and-0xfe, bit_and-1}
use lib.Cs104.Frame.{T104Frame, prepare_to_send, message}
use lib.Cs104.Connection.{s_message}
use lib.Cs104.Connection.Receive.{frame_seq_no, byte}

get_or-take : (xs : List ℕ) (n i : ℕ) → i < n → get_or (take n xs) i 0 ≡ get_or xs i 0
get_or-take xs zero i h = absurd (omega arith)
get_or-take [] (suc n) i h = refl
get_or-take (x ∷ xs) (suc n) zero h = refl
get_or-take (x ∷ xs) (suc n) (suc i) h = get_or-take xs n i (omega arith)

-- A byte of a message lies in the frame's buffer.
byte-message : (f : T104Frame) (i : ℕ) → i < f.msg_size → byte (message f) i ≡ get_or f.buffer i 0
byte-message f i h = get_or-take f.buffer f.msg_size i h

-- The octets of the APCI after `prepare_to_send`.
pub record Apci (f : T104Frame) (s r : ℕ) : Type 0 where
  pub send_low : byte (message f) 2 ≡ u8 (s % 128 * 2)
  pub send_high : byte (message f) 3 ≡ u8 (s / 128)
  pub receive_low : byte (message f) 4 ≡ u8 (r % 128 * 2)
  pub receive_high : byte (message f) 5 ≡ u8 (r / 128)

abbrev with_apci : List ℕ → ℕ → ℕ → ℕ → List ℕ
with_apci l n s r =
    set
      (set (set (set (set l 1 (u8 n)) 2 (u8 (s % 128 * 2))) 3 (u8 (s / 128))) 4 (u8 (r % 128 * 2)))
      5 (u8 (r / 128))

octets :
    (l : List ℕ) (n s r : ℕ)
    → 6 ≤ length l
    → (get_or (with_apci l n s r) 2 0 ≡ u8 (s % 128 * 2))
      × (get_or (with_apci l n s r) 3 0 ≡ u8 (s / 128))
      × (get_or (with_apci l n s r) 4 0 ≡ u8 (r % 128 * 2))
      × (get_or (with_apci l n s r) 5 0 ≡ u8 (r / 128))
octets (a ∷ b ∷ c ∷ d ∷ e ∷ g ∷ rest) n s r h = (refl, refl, refl, refl)
octets [] n s r h = absurd (omega arith)
octets (a ∷ []) n s r h = absurd (omega arith)
octets (a ∷ b ∷ []) n s r h = absurd (omega arith)
octets (a ∷ b ∷ c ∷ []) n s r h = absurd (omega arith)
octets (a ∷ b ∷ c ∷ d ∷ []) n s r h = absurd (omega arith)
octets (a ∷ b ∷ c ∷ d ∷ e ∷ []) n s r h = absurd (omega arith)

pub prepare_to_send-Apci :
    (f : T104Frame) (s r : ℕ)
    → 6 ≤ f.msg_size
    → 6 ≤ length f.buffer
    → Apci (prepare_to_send f s r) s r
unfolding prepare_to_send
prepare_to_send-Apci f s r h l =
    let (a, b, c, d) = octets f.buffer (f.msg_size - 2) s r l in
    record {
      send_low = byte-message (prepare_to_send f s r) 2 (omega arith) ∙ a;
      send_high = byte-message (prepare_to_send f s r) 3 (omega arith) ∙ b;
      receive_low = byte-message (prepare_to_send f s r) 4 (omega arith) ∙ c;
      receive_high = byte-message (prepare_to_send f s r) 5 (omega arith) ∙ d;
    }

-- The two octets of a counter give the counter back, and the low one is even.
pub frame_seq_no-octets : (n : ℕ) → n < 32768 → frame_seq_no (u8 (n % 128 * 2)) (u8 (n / 128)) ≡ n
frame_seq_no-octets n h = omega (arith, bit_and-0xfe (u8 (n % 128 * 2)) (omega arith))

pub bit_and-octet : (n : ℕ) → bit_and (u8 (n % 128 * 2)) 1 ≡ 0
bit_and-octet n = omega (arith, bit_and-1 (u8 (n % 128 * 2)) (omega arith))

-- The number that an S message carries is the receive counter from which it was made.
pub s_message-seq_no :
    (n : ℕ)
    → n < 32768
    → (byte (s_message n) 2 ≡ 1) × ((byte (s_message n) 4 + byte (s_message n) 5 * 0x100) / 2 ≡ n)
unfolding s_message
s_message-seq_no n h = (refl, omega arith)
