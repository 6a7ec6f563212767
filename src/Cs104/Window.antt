-- ===== src/Cs104/Window.antt =====
-- What the sliding window of IEC 60870-5-104 promises: a counter of the I frames sent, modulo
-- 32768, and how many of them the peer has not confirmed.
use lib.Prelude.{ℕ, ◌+◌, ◌-◌, ◌%◌, Bool, true, false, List, [], ◌∷◌, leb, ◌==◌, if◌then◌else◌}

pub record Window : Type 0 where
  pub send_count : ℕ
  pub pending : ℕ

-- What a user and a peer ask of a window.
pub data Op : Type 0 where
  send : Op
  confirm : ℕ → Op

-- How many of the frames sent come after the first `r`, modulo 32768.
abbrev pub behind : ℕ → ℕ → ℕ
behind s r = (s + 32768 - r) % 32768

-- A frame is sent unless `k` frames are pending.
unfoldable pub send_frame : ℕ → Window → Bool × Window
send_frame k w =
    if w.pending == k
    then (false, w)
    else (true, record { send_count = (w.send_count + 1) % 32768; pending = w.pending + 1 })

-- N(R) = `r` is accepted exactly if it confirms none, some or all of the pending frames.
unfoldable pub confirm_frames : Window → ℕ → Bool × Window
confirm_frames w r =
    if leb (behind w.send_count r) w.pending
    then (true, record w { pending = behind w.send_count r })
    else (false, w)

unfoldable pub step : ℕ → Window → Op → Bool × Window
unfolding send_frame confirm_frames
step k w send = send_frame k w
step k w (confirm r) = confirm_frames w r

unfoldable pub run : ℕ → Window → List Op → List Bool
unfolding step
run k w [] = []
run k w (op ∷ ops) = let (ok, w') = step k w op in ok ∷ run k w' ops
