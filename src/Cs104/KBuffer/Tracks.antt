-- ===== src/Cs104/KBuffer/Tracks.antt =====
-- When a k-buffer stands for a window: its entries, oldest first, bear the consecutive numbers
-- that end in the send counter.
use lib.Prelude.{ℕ, ◌+◌, ◌-◌, ◌%◌, ◌≤◌, ◌<◌, ◌≡◌, ◌⊎◌, none, some, length}
use lib.Cs104.Window.{Window}
use lib.Cs104.KBuffer.{KBuffer, entry_at}

-- The number of the entry `j` places after the oldest of `n`.
abbrev pub numbered : ℕ → ℕ → ℕ → ℕ
numbered s n j = (s + 32769 + j - n) % 32768

pub record Filled (b : KBuffer) (s n : ℕ) : Type 0 where
  pub oldest : ℕ
  pub starts : b.oldest_sent_asdu ≡ some oldest
  pub in_ring : oldest < b.max_sent_asdus
  pub some_pending : 0 < n
  pub ends : b.newest_sent_asdu ≡ some ((oldest + (n - 1)) % b.max_sent_asdus)
  pub entries :
      (j : ℕ) → j < n → (entry_at b ((oldest + j) % b.max_sent_asdus)).seq_no ≡ numbered s n j

pub record Tracks (k : ℕ) (b : KBuffer) (w : Window) : Type 0 where
  pub size : b.max_sent_asdus ≡ k
  pub room : length b.sent_asdus ≡ k
  pub k_positive : 0 < k
  pub k_small : k < 32768
  pub fits : w.pending ≤ k
  pub count_small : w.send_count < 32768
  pub layout : (w.pending ≡ 0) × (b.oldest_sent_asdu ≡ none) ⊎ Filled b w.send_count w.pending
