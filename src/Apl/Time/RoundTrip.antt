-- ===== src/Apl/Time/RoundTrip.antt =====
-- A time in milliseconds through the seven octets of a `CP56Time2a` and back.
use lib.Prelude.{ℕ, ◌+◌, ◌*◌, ◌/◌, ◌%◌, ◌≤◌, ◌<◌, ◌≡◌, refl, ap, ◌∙◌, arith, bit_and, bit_or}
use lib.Prelude.Bytes.{u8, all_below, agree_on_bytes}
use lib.Apl.Time.{
  Tm, my_mktime, to_tm, get_second, get_minute, get_hour, get_day_of_month, get_month, get_year,
  get_millisecond, set_millisecond, set_second, set_minute, set_hour, set_day_of_month,
  set_day_of_week, set_month, set_year, set_from_ms_timestamp, to_ms_timestamp,
}
use lib.Apl.Time.Calendar.{seconds_since_1970, my_mktime-calendar}

-- A time of the years 2000 to 2099, its fields in their ranges, that is so many seconds after the
-- start of 1970.
pub record IsUtc (seconds : ℕ) (t : Tm) : Type 0 where
  pub years_from : 100 ≤ t.year
  pub years_to : t.year < 200
  pub month_from : 1 ≤ t.month
  pub month_to : t.month ≤ 12
  pub day_from : 1 ≤ t.mday
  pub day_to : t.mday ≤ 31
  pub hours : t.hour < 24
  pub minutes : t.min < 60
  pub sec_below : t.sec < 60
  pub is_time : seconds_since_1970 t ≡ seconds

kept_minute :
    (v : ℕ) → v < 256 → bit_and (u8 (bit_or (bit_and 0 0xc0) (bit_and v 0x3f))) 0x3f ≡ v % 64
unfolding all_below
kept_minute v =
    agree_on_bytes (λ b. bit_and (u8 (bit_or (bit_and 0 0xc0) (bit_and b 0x3f))) 0x3f) (λ b. b % 64)
      v refl

kept_hour :
    (v : ℕ) → v < 256 → bit_and (u8 (bit_or (bit_and 0 0xe0) (bit_and v 0x1f))) 0x1f ≡ v % 32
unfolding all_below
kept_hour v =
    agree_on_bytes (λ b. bit_and (u8 (bit_or (bit_and 0 0xe0) (bit_and b 0x1f))) 0x1f) (λ b. b % 32)
      v refl

kept_day :
    (v : ℕ)
    → v < 256
    → bit_and
        (u8 (bit_or (bit_and (u8 (bit_and 0 0xe0 + bit_and v 0x1f)) 0x1f) (bit_and 0 0x07 * 32)))
        0x1f
      ≡ v % 32
unfolding all_below
kept_day v =
    agree_on_bytes
      (λ b.
        bit_and
          (u8 (bit_or (bit_and (u8 (bit_and 0 0xe0 + bit_and b 0x1f)) 0x1f) (bit_and 0 0x07 * 32)))
          0x1f)
      (λ b. b % 32) v refl

kept_month : (v : ℕ) → v < 256 → bit_and (u8 (bit_and 0 0xf0 + bit_and v 0x0f)) 0x0f ≡ v % 16
unfolding all_below
kept_month v =
    agree_on_bytes (λ b. bit_and (u8 (bit_and 0 0xf0 + bit_and b 0x0f)) 0x0f) (λ b. b % 16) v refl

kept_year :
    (v : ℕ) → v < 256 → bit_and (u8 (bit_and 0 0x80 + bit_and (v % 100) 0x7f)) 0x7f ≡ v % 100
unfolding all_below
kept_year v =
    agree_on_bytes (λ b. bit_and (u8 (bit_and 0 0x80 + bit_and (b % 100) 0x7f)) 0x7f) (λ b. b % 100)
      v refl

module _ (gmtime : ℕ → Tm) (timestamp : ℕ)
    (h : IsUtc (timestamp / 1000) (gmtime (timestamp / 1000))) where
  to_tm-set : to_tm (set_from_ms_timestamp gmtime timestamp) ≡ gmtime (timestamp / 1000)
  unfolding to_tm set_from_ms_timestamp get_second get_minute get_hour get_day_of_month get_month
      get_year set_millisecond set_second set_minute set_hour set_day_of_month set_day_of_week
      set_month set_year
  to_tm-set =
      let t = gmtime (timestamp / 1000) in
      let sec : get_second (set_from_ms_timestamp gmtime timestamp) ≡ t.sec =
        omega (arith, h.sec_below) in
      let min : get_minute (set_from_ms_timestamp gmtime timestamp) ≡ t.min =
        kept_minute t.min (omega (arith, h.minutes)) ∙ omega (arith, h.minutes) in
      let hour : get_hour (set_from_ms_timestamp gmtime timestamp) ≡ t.hour =
        kept_hour t.hour (omega (arith, h.hours)) ∙ omega (arith, h.hours) in
      let day : get_day_of_month (set_from_ms_timestamp gmtime timestamp) ≡ t.mday =
        kept_day t.mday (omega (arith, h.day_to)) ∙ omega (arith, h.day_to) in
      let month : get_month (set_from_ms_timestamp gmtime timestamp) ≡ t.month =
        kept_month t.month (omega (arith, h.month_to)) ∙ omega (arith, h.month_to) in
      let year : get_year (set_from_ms_timestamp gmtime timestamp) + 100 ≡ t.year =
        ap (λ n. n + 100) (kept_year t.year (omega (arith, h.years_to)))
        ∙ omega (arith, h.years_to, h.years_from) in
      λ i. record {
        sec = sec i;
        min = min i;
        hour = hour i;
        mday = day i;
        month = month i;
        year = year i;
      }

  millisecond-set : get_millisecond (set_from_ms_timestamp gmtime timestamp) ≡ timestamp % 1000
  unfolding set_from_ms_timestamp get_millisecond set_millisecond set_second set_minute set_hour
      set_day_of_month set_day_of_week set_month set_year
  millisecond-set = omega (arith, h.sec_below)

  -- For a time of the years 2000 to 2099 that gmtime breaks down by the Gregorian calendar, the
  -- seven octets that CP56Time2a_setFromMsTimestamp writes are turned into the same number of
  -- milliseconds by CP56Time2a_toMsTimestamp.
  pub to_ms_timestamp-set : to_ms_timestamp (set_from_ms_timestamp gmtime timestamp) ≡ timestamp
  unfolding to_ms_timestamp
  to_ms_timestamp-set =
      let t = gmtime (timestamp / 1000) in
      let secs : my_mktime (to_tm (set_from_ms_timestamp gmtime timestamp)) ≡ timestamp / 1000 =
        ap my_mktime to_tm-set
        ∙ my_mktime-calendar t (omega (arith, h.years_from)) (omega (arith, h.years_to))
            h.month_from h.month_to h.day_from
        ∙ h.is_time in
      omega (arith, secs, millisecond-set)
