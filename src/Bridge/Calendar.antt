-- ===== src/Bridge/Calendar.antt =====
-- `gmtime`, which FormatUtc calls: the C library's Gregorian calendar, counted off from the first
-- day of the year 1, and apart from the table and the leap rule of the client.
pub mod Counted
use twow_repo.Base.{ℕ, zero, suc, ◌+◌, ◌-◌, ◌*◌, ◌/◌, ◌%◌, ◌≤◌, ◌<◌, ◌||◌, ltb, ◌==◌, if◌then◌else◌}

-- `std::tm`, with the year and the month as they are printed.
pub record Tm : Type 0 where
  pub year : ℕ
  pub month : ℕ
  pub day : ℕ
  pub hour : ℕ
  pub minute : ℕ
  pub second : ℕ

-- The leap days from the year 1 to the end of a year.
abbrev pub leap_days : ℕ → ℕ
leap_days year = year / 4 - year / 100 + year / 400

abbrev pub leap_day : ℕ → ℕ
leap_day year = leap_days year - leap_days (year - 1)

abbrev pub year_length : ℕ → ℕ
year_length year = 365 + leap_day year

unfoldable pub month_length : ℕ → ℕ → ℕ
month_length year month =
    if month == 2
    then 28 + leap_day year
    else if month == 4 || month == 6 || month == 9 || month == 11
    then 30
    else 31

-- The fields are those of a time of day on a day of the years 1 to 9999.
pub record IsMoment (tm : Tm) (milliseconds : ℕ) : Type 0 where
  pub year_from_one : 1 ≤ tm.year
  pub year_of_four : tm.year < 10000
  pub month_from_one : 1 ≤ tm.month
  pub month_of_year : tm.month ≤ 12
  pub day_from_one : 1 ≤ tm.day
  pub day_of_month : tm.day ≤ month_length tm.year tm.month
  pub hour_of_day : tm.hour < 24
  pub minute_of_hour : tm.minute < 60
  pub second_of_minute : tm.second < 60
  pub fraction : milliseconds < 1000

-- The year of a day, and the day of that year: `year` is the year that `days` counts from.
unfoldable pub year_from : ℕ → ℕ → ℕ → ℕ × ℕ
year_from zero year days = (year, days)
year_from (suc fuel) year days =
    let later = year_from fuel (year + 1) (days - year_length year) in
    if ltb days (year_length year) then (year, days) else later

-- The month of a day of the year, and the day of that month.
unfoldable pub month_from : ℕ → ℕ → ℕ → ℕ → ℕ × ℕ
month_from zero year month day = (month, day)
month_from (suc left) year month day =
    let later = month_from left year (month + 1) (day - month_length year month) in
    if ltb day (month_length year month) then (month, day) else later

-- The date of a day, counted from the first of the year 1; a year has at least 365 days, which
-- bounds the loop.
unfoldable pub date_of : ℕ → ℕ × ℕ × ℕ
unfolding year_from month_from
date_of days =
    let (year, day_of_year) = year_from (days / 365 + 1) 1 days in
    let (month, day) = month_from 11 year 1 day_of_year in (year, month, day + 1)

abbrev pub at_time : ℕ × ℕ × ℕ → ℕ → Tm
at_time (year, month, day) seconds = record {
  year = year;
  month = month;
  day = day;
  hour = seconds % 86400 / 3600;
  minute = seconds % 3600 / 60;
  second = seconds % 60;
}

-- The date and the time of a second, counted from the start of the year 1.
abbrev pub civil : ℕ → Tm
civil seconds = at_time (date_of (seconds / 86400)) seconds

-- The seconds from then to the start of the year 1970.
abbrev pub epoch : ℕ
epoch = 62135596800

abbrev pub gm_time : ℕ → Tm
gm_time seconds = civil (epoch + seconds)
