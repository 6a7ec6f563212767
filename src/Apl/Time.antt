-- ===== src/Apl/Time.antt =====
-- `CP56Time2a` of cpXXtime2a.c: a time of seven octets, and its conversion from and to milliseconds
-- since 1970. `gmtime` is the C library's, an argument.
pub mod Calendar
pub mod RoundTrip
pub mod Tests
use lib.Prelude.{ℕ, ◌+◌, ◌-◌, ◌*◌, ◌/◌, ◌%◌, ltb, if◌then◌else◌, bit_and, bit_or}
use lib.Prelude.Bytes.{u8}

-- `encodedValue`
pub record Cp56Time2a : Type 0 where
  pub octet_0 : ℕ
  pub octet_1 : ℕ
  pub octet_2 : ℕ
  pub octet_3 : ℕ
  pub octet_4 : ℕ
  pub octet_5 : ℕ
  pub octet_6 : ℕ

-- `struct tm`; `month` is `tm_mon + 1`, and `year` is `tm_year`, the years since 1900.
pub record Tm : Type 0 where
  pub sec : ℕ
  pub min : ℕ
  pub hour : ℕ
  pub mday : ℕ
  pub month : ℕ
  pub year : ℕ

-- `my_mktime`, for a year from which 69 can be taken. The day of the month is added before 446 is
-- taken away: the numbers of the source are signed there.
unfoldable pub my_mktime : Tm → ℕ
my_mktime t =
    let m = if ltb t.month 3 then t.month + 11 else t.month - 1 in
    let y = if ltb t.month 3 then t.year - 1 else t.year in
    let days = (y - 69) * 365 + y / 4 - y / 100 * 3 / 4 + (m + 2) * 153 / 5 + t.mday - 446 in
    ((days * 24 + t.hour) * 60 + t.min) * 60 + t.sec

abbrev pub get_millies : Cp56Time2a → ℕ
get_millies t = t.octet_0 + t.octet_1 * 0x100

abbrev pub put_millies : Cp56Time2a → ℕ → Cp56Time2a
put_millies t millies = record t { octet_0 = u8 millies; octet_1 = u8 (millies / 0x100) }

unfoldable pub get_millisecond : Cp56Time2a → ℕ
get_millisecond t = get_millies t % 1000

unfoldable pub set_millisecond : Cp56Time2a → ℕ → Cp56Time2a
set_millisecond t value = put_millies t (get_millies t - get_millies t % 1000 + value)

unfoldable pub get_second : Cp56Time2a → ℕ
get_second t = get_millies t / 1000

unfoldable pub set_second : Cp56Time2a → ℕ → Cp56Time2a
set_second t value = put_millies t (value * 1000 + get_millies t % 1000)

unfoldable pub get_minute : Cp56Time2a → ℕ
get_minute t = bit_and t.octet_2 0x3f

unfoldable pub set_minute : Cp56Time2a → ℕ → Cp56Time2a
set_minute t value = record t {
  octet_2 = u8 (bit_or (bit_and t.octet_2 0xc0) (bit_and value 0x3f));
}

unfoldable pub get_hour : Cp56Time2a → ℕ
get_hour t = bit_and t.octet_3 0x1f

unfoldable pub set_hour : Cp56Time2a → ℕ → Cp56Time2a
set_hour t value = record t { octet_3 = u8 (bit_or (bit_and t.octet_3 0xe0) (bit_and value 0x1f)) }

unfoldable pub set_day_of_week : Cp56Time2a → ℕ → Cp56Time2a
set_day_of_week t value = record t {
  octet_4 = u8 (bit_or (bit_and t.octet_4 0x1f) (bit_and value 0x07 * 32));
}

unfoldable pub get_day_of_month : Cp56Time2a → ℕ
get_day_of_month t = bit_and t.octet_4 0x1f

unfoldable pub set_day_of_month : Cp56Time2a → ℕ → Cp56Time2a
set_day_of_month t value = record t { octet_4 = u8 (bit_and t.octet_4 0xe0 + bit_and value 0x1f) }

unfoldable pub get_month : Cp56Time2a → ℕ
get_month t = bit_and t.octet_5 0x0f

unfoldable pub set_month : Cp56Time2a → ℕ → Cp56Time2a
set_month t value = record t { octet_5 = u8 (bit_and t.octet_5 0xf0 + bit_and value 0x0f) }

unfoldable pub get_year : Cp56Time2a → ℕ
get_year t = bit_and t.octet_6 0x7f

unfoldable pub set_year : Cp56Time2a → ℕ → Cp56Time2a
set_year t value = record t { octet_6 = u8 (bit_and t.octet_6 0x80 + bit_and (value % 100) 0x7f) }

abbrev pub zeros : Cp56Time2a
zeros = record {
  octet_0 = 0;
  octet_1 = 0;
  octet_2 = 0;
  octet_3 = 0;
  octet_4 = 0;
  octet_5 = 0;
  octet_6 = 0;
}

-- `CP56Time2a_setFromMsTimestamp`
unfoldable pub set_from_ms_timestamp : (ℕ → Tm) → ℕ → Cp56Time2a
unfolding set_millisecond set_second set_minute set_hour set_day_of_month set_day_of_week set_month
    set_year
set_from_ms_timestamp gmtime timestamp =
    let tm = gmtime (timestamp / 1000) in
    let t0 = set_millisecond zeros (timestamp % 1000) in
    let t1 = set_hour (set_minute (set_second t0 tm.sec) tm.min) tm.hour in
    let t2 = set_day_of_week (set_day_of_month t1 tm.mday) 0 in
    set_year (set_month t2 tm.month) tm.year

-- The time that `CP56Time2a_toMsTimestamp` gives to `my_mktime`
unfoldable pub to_tm : Cp56Time2a → Tm
unfolding get_second get_minute get_hour get_day_of_month get_month get_year
to_tm t = record {
  sec = get_second t;
  min = get_minute t;
  hour = get_hour t;
  mday = get_day_of_month t;
  month = get_month t;
  year = get_year t + 100;
}

-- `CP56Time2a_toMsTimestamp`
unfoldable pub to_ms_timestamp : Cp56Time2a → ℕ
unfolding my_mktime to_tm get_millisecond
to_ms_timestamp t = my_mktime (to_tm t) * 1000 + get_millisecond t
