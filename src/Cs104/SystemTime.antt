-- ===== src/Cs104/SystemTime.antt =====
-- The clocks of the HAL, at one moment: `Hal_getTimeInMs` counts from 1970, and
-- `Hal_getMonotonicTimeInMs` from a moment that the system chooses, mostly when it was started.
use lib.Prelude.{ℕ}

pub record SystemTime : Type 0 where
  pub time_in_ms : ℕ
  pub monotonic_time_in_ms : ℕ
