-- ===== src/Bridge/Stamps.antt =====
-- IsCanonicalTimestamp and FormatUtc.
pub mod Fields
pub mod Printed
pub mod Clock
pub mod Order
use twow_repo.Base.{
  ℕ, zero, suc, ◌+◌, ◌-◌, ◌*◌, ◌/◌, ◌%◌, Bool, true, false, not, ◌&&◌, ◌||◌, List, [], ◌∷◌, ◌++◌,
  ltb, leb, ◌==◌, if◌then◌else◌, Bytes, length, get_or,
}
use twow_repo.Bridge.Calendar.{Tm, gm_time}

abbrev pub is_separator_place : ℕ → Bool
is_separator_place i = i == 4 || i == 7 || i == 10 || i == 13 || i == 16 || i == 19 || i == 23

-- `std::isdigit` in the C locale.
abbrev pub is_digit : ℕ → Bool
is_digit c = leb b'0' c && leb c b'9'

-- The loop over the digits, from place `i` on.
unfoldable pub stamp_digits : ℕ → Bytes → Bool
stamp_digits i [] = true
stamp_digits i (c ∷ cs) =
    let rest = stamp_digits (i + 1) cs in
    if is_separator_place i then rest else if not (is_digit c) then false else rest

abbrev pub at : Bytes → ℕ → ℕ
at value i = get_or value i 0

-- `number(offset, count)`, from the digits read so far.
unfoldable pub number_from : Bytes → ℕ → ℕ → ℕ → ℕ
number_from value offset zero result = result
number_from value offset (suc count) result =
    number_from value (suc offset) count (result * 10 + (at value offset - b'0'))

abbrev pub number : Bytes → ℕ → ℕ → ℕ
number value offset count = number_from value offset count 0

abbrev pub days_by_month : List ℕ
days_by_month = 31 ∷ 28 ∷ 31 ∷ 30 ∷ 31 ∷ 30 ∷ 31 ∷ 31 ∷ 30 ∷ 31 ∷ 30 ∷ 31 ∷ []

abbrev pub is_leap : ℕ → Bool
is_leap year = (year % 4 == 0 && not (year % 100 == 0)) || year % 400 == 0

unfoldable pub days_of : ℕ → ℕ → ℕ
days_of year month =
    get_or days_by_month (month - 1) 0 + (if month == 2 && is_leap year then 1 else 0)

-- The tests on the fields, from the digits on.
unfoldable pub is_date_time : ℕ → ℕ → ℕ → ℕ → ℕ → ℕ → Bool
unfolding days_of
is_date_time year month day hour minute second =
    if ltb year 1 || ltb month 1 || ltb 12 month || ltb 23 hour || ltb 59 minute || ltb 59 second
    then false
    else leb 1 day && leb day (days_of year month)

unfoldable pub is_canonical_timestamp : Bytes → Bool
unfolding stamp_digits number_from is_date_time
is_canonical_timestamp value =
    if not (length value == 24)
      || not (at value 4 == b'-')
      || not (at value 7 == b'-')
      || not (at value 10 == b'T')
      || not (at value 13 == b':')
      || not (at value 16 == b':')
      || not (at value 19 == b'.')
      || not (at value 23 == b'Z')
    then false
    else if not (stamp_digits 0 value)
    then false
    else is_date_time (number value 0 4) (number value 5 2) (number value 8 2) (number value 11 2)
        (number value 14 2) (number value 17 2)

unfoldable pub two : ℕ → Bytes
two n = (b'0' + n / 10) ∷ (b'0' + n % 10) ∷ []

unfoldable pub three : ℕ → Bytes
three n = (b'0' + n / 100) ∷ (b'0' + n / 10 % 10) ∷ (b'0' + n % 10) ∷ []

unfoldable pub four : ℕ → Bytes
four n = (b'0' + n / 1000) ∷ (b'0' + n / 100 % 10) ∷ (b'0' + n / 10 % 10) ∷ (b'0' + n % 10) ∷ []

-- What `put_time` and the rest of the stream print, for a year of four digits.
unfoldable pub put_utc : Tm → ℕ → Bytes
put_utc tm milliseconds =
    four tm.year
    ++ b'-'
      ∷ (two tm.month
          ++ b'-'
            ∷ (two tm.day
                ++ b'T'
                  ∷ (two tm.hour
                      ++ b':'
                        ∷ (two tm.minute
                            ++ b':'
                              ∷ (two tm.second ++ b'.' ∷ (three milliseconds ++ b'Z' ∷ []))))))

-- `FormatUtc` of a time after 1970, in milliseconds.
unfoldable pub format_utc : ℕ → Bytes
unfolding put_utc
format_utc now = put_utc (gm_time (now / 1000)) (now % 1000)
