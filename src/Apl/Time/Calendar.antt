-- ===== src/Apl/Time/Calendar.antt =====
-- The Gregorian calendar, and the seconds that `my_mktime` counts.
use lib.Prelude.{
  ℕ, zero, suc, ◌+◌, ◌-◌, ◌*◌, ◌/◌, ◌%◌, ◌≤◌, ◌≡◌, refl, Bool, ltb, ◌==◌, ◌!=◌, ◌&&◌, ◌||◌,
  if◌then◌else◌, arith,
}
use lib.Apl.Time.{Tm, my_mktime}

abbrev pub is_leap_year : ℕ → Bool
is_leap_year year = year % 4 == 0 && (year % 100 != 0 || year % 400 == 0)

abbrev pub days_in_month : ℕ → ℕ → ℕ
days_in_month year month =
    if month == 2
    then (if is_leap_year year then 29 else 28)
    else if month == 4 || (month == 6 || (month == 9 || month == 11))
    then 30
    else 31

-- The days of the years before, and of the months before.
unfoldable pub days_before_year : ℕ → ℕ
days_before_year zero = 0
days_before_year (suc n) = days_before_year n + (if is_leap_year (1970 + n) then 366 else 365)

unfoldable pub days_before_month : ℕ → ℕ → ℕ
days_before_month year zero = 0
days_before_month year (suc zero) = 0
days_before_month year (suc (suc n)) = days_before_month year (suc n) + days_in_month year (suc n)

-- The seconds since the start of 1970 at a date and a time.
unfoldable pub seconds_since_1970 : Tm → ℕ
unfolding days_before_year days_before_month
seconds_since_1970 t =
    let year = 1900 + t.year in
    let days = days_before_year (t.year - 70) + days_before_month year t.month + (t.mday - 1) in
    ((days * 24 + t.hour) * 60 + t.min) * 60 + t.sec

years :
    (n : ℕ) → n ≤ 135 → days_before_year n ≡ n * 365 + (n + 1) / 4 - (if ltb 130 n then 1 else 0)
unfolding days_before_year
years zero h = refl
years (suc n) h = ground (arith, years n (omega arith))

months :
    (year m : ℕ)
    → 1 ≤ m
    → m ≤ 12
    → days_before_month year m ≡ (
        if ltb m 3
        then (m - 1) * 31
        else ((m + 1) * 153 / 5 - 63) + (if is_leap_year year then 1 else 0))
unfolding days_before_month
months year zero h h' = absurd (omega arith)
months year (suc zero) h h' = ground arith
months year (suc (suc n)) h h' = ground (arith, months year (suc n) (omega arith) (omega arith))

-- For a date from 1970 to 2105 in one of the twelve months, my_mktime gives the seconds since the
-- start of 1970 by the Gregorian calendar.
pub my_mktime-calendar :
    (t : Tm)
    → 70 ≤ t.year
    → t.year ≤ 205
    → 1 ≤ t.month
    → t.month ≤ 12
    → 1 ≤ t.mday
    → my_mktime t ≡ seconds_since_1970 t
unfolding my_mktime seconds_since_1970
my_mktime-calendar t lo hi m m' d =
    ground (arith, years (t.year - 70) (omega arith), months (1900 + t.year) t.month m m')
