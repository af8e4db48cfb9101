-- ===== src/Bridge/Stamps/Fields.antt =====
-- The tests on the fields of a stamp against the calendar.
use twow_repo.Base.{
  ℕ, ◌+◌, ◌-◌, ◌≤◌, ◌<◌, Bool, true, false, ◌&&◌, ◌||◌, ◌≡◌, arith, ltb, leb, ◌==◌, if◌then◌else◌,
  get_or,
}
use twow_repo.Bridge.Calendar.{Tm, leap_day, month_length, IsMoment}
use twow_repo.Bridge.Stamps.{is_leap, days_by_month, days_of, is_date_time}

-- The rule for leap years against the count of leap days.
is_leap-leap_day : (year : ℕ) → 1 ≤ year → (if is_leap year then 1 else 0) ≡ leap_day year
is_leap-leap_day year h = ground arith

months_table :
    (month day : ℕ) (leap : Bool)
    → 1 ≤ month
    → month ≤ 12
    → (if leap then 1 else 0) ≡ day
    → get_or days_by_month (month - 1) 0 + (if month == 2 && leap then 1 else 0) ≡ (
        if month == 2
        then 28 + day
        else if month == 4 || month == 6 || month == 9 || month == 11
        then 30
        else 31)
months_table month day leap m n e = ground arith

-- The table against the calendar.
days_of-month_length :
    (year month : ℕ)
    → 1 ≤ year
    → 1 ≤ month
    → month ≤ 12
    → days_of year month ≡ month_length year month
unfolding days_of month_length
days_of-month_length year month y m n =
    months_table month (leap_day year) (is_leap year) m n (is_leap-leap_day year y)

tests_pass :
    (year month day hour minute second last : ℕ)
    → 1 ≤ year
    → 1 ≤ month
    → month ≤ 12
    → 1 ≤ day
    → day ≤ last
    → hour < 24
    → minute < 60
    → second < 60
    → (if ltb year 1 || ltb month 1 || ltb 12 month || ltb 23 hour || ltb 59 minute || ltb 59 second
        then false
        else leb 1 day && leb day last)
      ≡ true
tests_pass year month day hour minute second last y m n d e h i s = ground arith

tests_passed :
    (year month day hour minute second last : ℕ)
    → (if ltb year 1 || ltb month 1 || ltb 12 month || ltb 23 hour || ltb 59 minute || ltb 59 second
        then false
        else leb 1 day && leb day last)
      ≡ true
    → (1 ≤ year)
      × (1 ≤ month)
      × (month ≤ 12)
      × (1 ≤ day)
      × (day ≤ last)
      × (hour < 24)
      × (minute < 60)
      × (second < 60)
tests_passed year month day hour minute second last h = ground arith

pub IsMoment-is_date_time :
    (tm : Tm) (ms : ℕ)
    → IsMoment tm ms
    → is_date_time tm.year tm.month tm.day tm.hour tm.minute tm.second ≡ true
unfolding is_date_time
IsMoment-is_date_time tm ms h =
    let table =
      days_of-month_length tm.year tm.month h.year_from_one h.month_from_one h.month_of_year in
    tests_pass tm.year tm.month tm.day tm.hour tm.minute tm.second (days_of tm.year tm.month)
      h.year_from_one h.month_from_one h.month_of_year h.day_from_one
      (omega (arith, table, h.day_of_month)) h.hour_of_day h.minute_of_hour h.second_of_minute

pub is_date_time-IsMoment :
    (tm : Tm) (ms : ℕ)
    → tm.year < 10000
    → ms < 1000
    → is_date_time tm.year tm.month tm.day tm.hour tm.minute tm.second ≡ true
    → IsMoment tm ms
unfolding is_date_time
is_date_time-IsMoment tm ms y f h =
    let (one, m, n, d, e, hour, minute, second) =
      tests_passed tm.year tm.month tm.day tm.hour tm.minute tm.second (days_of tm.year tm.month)
        h in
    let table = days_of-month_length tm.year tm.month one m n in
    record {
      year_from_one = one;
      year_of_four = y;
      month_from_one = m;
      month_of_year = n;
      day_from_one = d;
      day_of_month = omega (arith, table, e);
      hour_of_day = hour;
      minute_of_hour = minute;
      second_of_minute = second;
      fraction = f;
    }
