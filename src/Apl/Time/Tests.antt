-- ===== src/Apl/Time/Tests.antt =====
-- The time 2024-02-29 12:34:56.789 UTC.
use lib.Prelude.{◌≡◌, ◌/◌, refl, arith}
use lib.Apl.Time.{Tm, my_mktime, set_from_ms_timestamp, to_ms_timestamp}
use lib.Apl.Time.Calendar.{seconds_since_1970, my_mktime-calendar}
use lib.Apl.Time.RoundTrip.{IsUtc, to_ms_timestamp-set}

abbrev leap_day : Tm
leap_day = record { sec = 56; min = 34; hour = 12; mday = 29; month = 2; year = 124 }

leap_day_seconds : my_mktime leap_day ≡ 1709210096
unfolding my_mktime
leap_day_seconds = refl

leap_day-IsUtc : IsUtc (1709210096789 / 1000) leap_day
unfolding seconds_since_1970
leap_day-IsUtc = record {
  years_from = omega arith;
  years_to = omega arith;
  month_from = omega arith;
  month_to = omega arith;
  day_from = omega arith;
  day_to = omega arith;
  hours = omega arith;
  minutes = omega arith;
  sec_below = omega arith;
  is_time = refl;
}

my_mktime-calendar_example : my_mktime leap_day ≡ seconds_since_1970 leap_day
my_mktime-calendar_example =
    my_mktime-calendar leap_day (omega arith) (omega arith) (omega arith) (omega arith)
      (omega arith)

to_ms_timestamp-set_example :
    to_ms_timestamp (set_from_ms_timestamp (λ t. leap_day) 1709210096789) ≡ 1709210096789
to_ms_timestamp-set_example = to_ms_timestamp-set (λ t. leap_day) 1709210096789 leap_day-IsUtc
