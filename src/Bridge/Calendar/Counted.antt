-- ===== src/Bridge/Calendar/Counted.antt =====
-- Every second gives a moment, and every moment is that of a second.
use twow_repo.Base.{
  ℕ, zero, suc, ◌+◌, ◌-◌, ◌*◌, ◌/◌, ◌≤◌, ◌<◌, true, false, ◌≡◌, refl, sym, subst, ap, ◌∙◌, arith,
  ltb, if◌then◌else◌, Bool-cases, ltb→lt, inl, inr,
}
use twow_repo.Bridge.Calendar.{
  Tm, year_length, month_length, IsMoment, year_from, month_from, date_of, at_time, civil,
}

not_ltb : (a b : ℕ) → ltb a b ≡ false → b ≤ a
not_ltb a b h = ground arith

is_ltb : (a b : ℕ) → a < b → ltb a b ≡ true
is_ltb a b h = ground arith

isnt_ltb : (a b : ℕ) → b ≤ a → ltb a b ≡ false
isnt_ltb a b h = ground arith

year_from-step :
    (fuel year days : ℕ)
    → year_from (suc fuel) year days ≡ (
        if ltb days (year_length year)
        then (year, days)
        else year_from fuel (year + 1) (days - year_length year))
unfolding year_from
year_from-step fuel year days = refl

month_from-step :
    (left year month day : ℕ)
    → month_from (suc left) year month day ≡ (
        if ltb day (month_length year month)
        then (month, day)
        else month_from left year (month + 1) (day - month_length year month))
unfolding month_from
month_from-step left year month day = refl

month_from-zero : (year month day : ℕ) → month_from zero year month day ≡ (month, day)
unfolding month_from
month_from-zero year month day = refl

abbrev Ended : ℕ × ℕ → Type 0
Ended r = r.1 < year_length r.0

-- With a round for every 365 days the loop ends by its test.
year_from-Ended :
    (fuel year days : ℕ)
    → days < fuel * 365
    → Ended (year_from fuel year days) × (year ≤ (year_from fuel year days).0)
year_from-Ended zero year days h = absurd (omega arith)
year_from-Ended (suc fuel) year days h = elim (Bool-cases (ltb days (year_length year))) [
  | inl e ↦ rw (year_from-step fuel year days, e) (ltb→lt days (year_length year) e, omega arith)
  | inr e ↦
      let long = not_ltb days (year_length year) e in
      let r = year_from-Ended fuel (year + 1) (days - year_length year) (omega arith) in
      rw (year_from-step fuel year days, e) (r.0, omega (arith, r.1))
]

-- The days of so many years, and of so many months, from one on.
years_span : ℕ → ℕ → ℕ
years_span zero year = 0
years_span (suc count) year = year_length year + years_span count (year + 1)

months_span : ℕ → ℕ → ℕ → ℕ
months_span zero year month = 0
months_span (suc count) year month = month_length year month + months_span count year (month + 1)

abbrev InMonth : ℕ → ℕ → ℕ → ℕ × ℕ → Type 0
InMonth left year month r = (r.1 < month_length year r.0) × (month ≤ r.0) × (r.0 ≤ month + left)

month_from-InMonth :
    (left year month day : ℕ)
    → day < months_span (suc left) year month
    → InMonth left year month (month_from left year month day)
unfolding months_span
month_from-InMonth zero year month day h =
    rw (month_from-zero year month day) (omega arith, omega arith, omega arith)
month_from-InMonth (suc left) year month day h =
    elim (Bool-cases (ltb day (month_length year month))) [
      | inl e ↦
          rw (month_from-step left year month day, e)
            (ltb→lt day (month_length year month) e, omega arith, omega arith)
      | inr e ↦
          let long = not_ltb day (month_length year month) e in
          let r =
            month_from-InMonth left year (month + 1) (day - month_length year month)
              (omega arith) in
          rw (month_from-step left year month day, e) (r.0, omega (arith, r.1), omega (arith, r.2))
    ]

months_span-year : (year : ℕ) → months_span 12 year 1 ≡ year_length year
unfolding months_span month_length
months_span-year year = omega arith

years_span-le : (count year : ℕ) → count * 365 ≤ years_span count year
unfolding years_span
years_span-le zero year = omega arith
years_span-le (suc count) year = omega (arith, years_span-le count (year + 1))

abbrev two_of : ℕ → ℕ → ℕ × ℕ
two_of a b = (a, b)

pair : {a b c d : ℕ} → a ≡ b → c ≡ d → two_of a c ≡ two_of b d
pair e f = cc

-- The loops find the year and the month that are so many on.
year_from-years_span :
    (count fuel year days last rest : ℕ)
    → count < fuel
    → last ≡ year + count
    → days ≡ years_span count year + rest
    → rest < year_length last
    → year_from fuel year days ≡ (last, rest)
unfolding years_span
year_from-years_span count zero year days last rest f l e h = absurd (omega arith)
year_from-years_span zero (suc fuel) year days last rest f l e h =
    let here : year ≡ last = omega arith in
    let short =
      is_ltb days (year_length year) (subst (λ y. days < year_length y) (sym here) (omega arith)) in
    rw (year_from-step fuel year days, short) (pair here (omega arith))
year_from-years_span (suc count) (suc fuel) year days last rest f l e h =
    let long = isnt_ltb days (year_length year) (omega arith) in
    rw (year_from-step fuel year days, long)
      (year_from-years_span count fuel (year + 1) (days - year_length year) last rest (omega arith)
        (omega arith) (omega arith) h)

month_from-months_span :
    (count left year month day last rest : ℕ)
    → count ≤ left
    → last ≡ month + count
    → day ≡ months_span count year month + rest
    → rest < month_length year last
    → month_from left year month day ≡ (last, rest)
unfolding months_span
month_from-months_span zero zero year month day last rest f l e h =
    rw (month_from-zero year month day) (pair (omega arith) (omega arith))
month_from-months_span (suc count) zero year month day last rest f l e h = absurd (omega arith)
month_from-months_span zero (suc left) year month day last rest f l e h =
    let here : month ≡ last = omega arith in
    let short =
      is_ltb day (month_length year month)
        (subst (λ m. day < month_length year m) (sym here) (omega arith)) in
    rw (month_from-step left year month day, short) (pair here (omega arith))
month_from-months_span (suc count) (suc left) year month day last rest f l e h =
    let long = isnt_ltb day (month_length year month) (omega arith) in
    rw (month_from-step left year month day, long)
      (month_from-months_span count left year (month + 1) (day - month_length year month) last rest
        (omega arith) (omega arith) (omega arith) h)

-- A month lies within the months that go on behind it.
months_span-le :
    (count total year month last : ℕ)
    → count < total
    → last ≡ month + count
    → months_span count year month + month_length year last ≤ months_span total year month
unfolding months_span
months_span-le count zero year month last f l = absurd (omega arith)
months_span-le zero (suc total) year month last f l =
    let here : last ≡ month = omega arith in
    subst
      (λ m. 0 + month_length year m ≤ month_length year month + months_span total year (month + 1))
      (sym here) (omega arith)
months_span-le (suc count) (suc total) year month last f l =
    omega (arith, months_span-le count total year (month + 1) last (omega arith) (omega arith))

-- The day of a date, counted from the first of the year 1.
day_number : ℕ → ℕ → ℕ → ℕ
day_number year month day = years_span (year - 1) 1 + (months_span (month - 1) year 1 + (day - 1))

date_of-from :
    (days year rest month day : ℕ)
    → year_from (days / 365 + 1) 1 days ≡ (year, rest)
    → month_from 11 year 1 rest ≡ (month, day)
    → date_of days ≡ (year, month, day + 1)
unfolding date_of
date_of-from days year rest month day e f = rw (e, f) refl

date_of-day_number :
    (year month day : ℕ)
    → 1 ≤ year
    → 1 ≤ month
    → month ≤ 12
    → 1 ≤ day
    → day ≤ month_length year month
    → date_of (day_number year month day) ≡ (year, month, day)
unfolding day_number
date_of-day_number year month day y m n d e =
    let rest = months_span (month - 1) year 1 + (day - 1) in
    let days = years_span (year - 1) 1 + rest in
    let within = months_span-le (month - 1) 12 year 1 month (omega arith) (omega arith) in
    let in_year : rest < year_length year = omega (arith, within, months_span-year year) in
    let rounds : year - 1 < days / 365 + 1 = omega (arith, years_span-le (year - 1) 1) in
    date_of-from days year rest month (day - 1)
      (year_from-years_span (year - 1) (days / 365 + 1) 1 days year rest rounds (omega arith) refl
        in_year)
      (month_from-months_span (month - 1) 11 year 1 rest month (day - 1) (omega arith) (omega arith)
        refl (omega arith))
    ∙ ap (λ (k : ℕ). (year, month, k)) (omega arith)

-- The second of a moment, and back.
pub second_number : Tm → ℕ
second_number tm =
    day_number tm.year tm.month tm.day * 86400 + (tm.hour * 3600 + (tm.minute * 60 + tm.second))

tm_of :
    (y m d h h' i i' s s' : ℕ)
    → h ≡ h'
    → i ≡ i'
    → s ≡ s'
    → Path Tm
        (record { year = y; month = m; day = d; hour = h; minute = i; second = s })
        (record { year = y; month = m; day = d; hour = h'; minute = i'; second = s' })
tm_of y m d h h' i i' s s' e f g = cc

pub civil-second_number : (tm : Tm) (ms : ℕ) → IsMoment tm ms → civil (second_number tm) ≡ tm
unfolding second_number
civil-second_number tm ms h =
    let day = day_number tm.year tm.month tm.day in
    let time = tm.hour * 3600 + (tm.minute * 60 + tm.second) in
    let hour = h.hour_of_day in
    let minute = h.minute_of_hour in
    let second = h.second_of_minute in
    let whole : (day * 86400 + time) / 86400 ≡ day = omega arith in
    let date =
      ap date_of whole
      ∙ date_of-day_number tm.year tm.month tm.day h.year_from_one h.month_from_one h.month_of_year
          h.day_from_one h.day_of_month in
    ap (λ x. at_time x (day * 86400 + time)) date
    ∙ tm_of tm.year tm.month tm.day _ _ _ _ _ _ (omega arith) (omega arith) (omega arith)

pub civil-IsMoment :
    (seconds ms : ℕ) → ms < 1000 → (civil seconds).year < 10000 → IsMoment (civil seconds) ms
unfolding date_of
civil-IsMoment seconds ms f h =
    let days = seconds / 86400 in
    let y = year_from-Ended (days / 365 + 1) 1 days (omega arith) in
    let ym = year_from (days / 365 + 1) 1 days in
    let m = month_from-InMonth 11 ym.0 1 ym.1 (rw (months_span-year ym.0) y.0) in
    record {
      year_from_one = y.1;
      year_of_four = h;
      month_from_one = m.1;
      month_of_year = omega (arith, m.2);
      day_from_one = omega arith;
      day_of_month = omega (arith, m.0);
      hour_of_day = omega arith;
      minute_of_hour = omega arith;
      second_of_minute = omega arith;
      fraction = f;
    }
