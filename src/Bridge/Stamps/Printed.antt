-- ===== src/Bridge/Stamps/Printed.antt =====
-- IsCanonicalTimestamp against the printer.
use native.Mathlib.Nat.{add-zero}
use twow_repo.Base.{
  ℕ, zero, suc, ◌+◌, ◌-◌, ◌*◌, ◌/◌, ◌%◌, ◌<◌, Bool, true, false, not, [], ◌∷◌, ◌≡◌, refl, sym,
  subst, ap, ◌∙◌, arith, ◌↔◌, if◌then◌else◌, Bytes, length, entries, entries_lem, Bool-cases, inl,
  inr,
}
use twow_repo.Bridge.Calendar.{Tm, month_length, IsMoment, civil}
use twow_repo.Bridge.Calendar.Counted.{civil-IsMoment, second_number, civil-second_number}
use twow_repo.Bridge.Stamps.Fields.{IsMoment-is_date_time, is_date_time-IsMoment}
use twow_repo.Bridge.Stamps.{
  put_utc, is_canonical_timestamp, is_date_time, at, number_from, two, three, four,
  is_separator_place, is_digit, stamp_digits, number,
}

month_length-lt : (year month : ℕ) → month_length year month < 100
unfolding month_length
month_length-lt year month = ground arith

pub IsMoment-small :
    (tm : Tm) (ms : ℕ)
    → IsMoment tm ms
    → (tm.month < 100) × (tm.day < 100) × (tm.hour < 100) × (tm.minute < 100) × (tm.second < 100)
unfolding month_length
IsMoment-small tm ms h =
    let day = h.day_of_month in
    let few : month_length tm.year tm.month < 100 = month_length-lt tm.year tm.month in
    (
      omega (arith, h.month_of_year),
      omega (arith, day, few),
      omega (arith, h.hour_of_day),
      omega (arith, h.minute_of_hour),
      omega (arith, h.second_of_minute),
    )

digit_lem : (n : ℕ) → n < 10 → is_digit (b'0' + n) ≡ true
digit_lem n h = ground arith

-- The digits of a field are digits, and read back as the field.
two_lem :
    (n : ℕ)
    → n < 100
    → (is_digit (b'0' + n / 10) ≡ true)
      × (is_digit (b'0' + n % 10) ≡ true)
      × ((0 * 10 + (b'0' + n / 10 - b'0')) * 10 + (b'0' + n % 10 - b'0') ≡ n)
two_lem n h = (digit_lem (n / 10) (omega arith), digit_lem (n % 10) (omega arith), omega arith)

three_lem :
    (n : ℕ)
    → n < 1000
    → (is_digit (b'0' + n / 100) ≡ true)
      × (is_digit (b'0' + n / 10 % 10) ≡ true)
      × (is_digit (b'0' + n % 10) ≡ true)
three_lem n h = (
  digit_lem (n / 100) (omega arith),
  digit_lem (n / 10 % 10) (omega arith),
  digit_lem (n % 10) (omega arith),
)

four_lem :
    (n : ℕ)
    → n < 10000
    → (is_digit (b'0' + n / 1000) ≡ true)
      × (is_digit (b'0' + n / 100 % 10) ≡ true)
      × (is_digit (b'0' + n / 10 % 10) ≡ true)
      × (is_digit (b'0' + n % 10) ≡ true)
      × ((((0 * 10 + (b'0' + n / 1000 - b'0')) * 10 + (b'0' + n / 100 % 10 - b'0')) * 10
                + (b'0' + n / 10 % 10 - b'0'))
              * 10
            + (b'0' + n % 10 - b'0')
          ≡ n)
four_lem n h = (
  digit_lem (n / 1000) (omega arith),
  digit_lem (n / 100 % 10) (omega arith),
  digit_lem (n / 10 % 10) (omega arith),
  digit_lem (n % 10) (omega arith),
  omega arith,
)

put_utc-canonical :
    (tm : Tm) (ms : ℕ) → IsMoment tm ms → is_canonical_timestamp (put_utc tm ms) ≡ true
unfolding is_canonical_timestamp put_utc two three four
put_utc-canonical tm ms h =
    let (mo, d, hh, mi, ss) = IsMoment-small tm ms h in
    let y4 = four_lem tm.year h.year_of_four in
    let mo2 = two_lem tm.month mo in
    let d2 = two_lem tm.day d in
    let h2 = two_lem tm.hour hh in
    let mi2 = two_lem tm.minute mi in
    let s2 = two_lem tm.second ss in
    let f3 = three_lem ms h.fraction in
    rw
      (
        y4.0, y4.1, y4.2, y4.3, mo2.0, mo2.1, d2.0, d2.1, h2.0, h2.1, mi2.0, mi2.1, s2.0, s2.1,
        f3.0, f3.1, f3.2,
      )
      (rw (y4.4, mo2.2, d2.2, h2.2, mi2.2, s2.2) (IsMoment-is_date_time tm ms h))

-- What a test of the loop says of its byte.
digit_step :
    (c : ℕ) (rest : Bool)
    → (if not (is_digit c) then false else rest) ≡ true
    → (is_digit c ≡ true) × (rest ≡ true)
digit_step c rest h = ground arith

two_number :
    (a b : ℕ)
    → is_digit a ≡ true
    → is_digit b ≡ true
    → two ((0 * 10 + (a - b'0')) * 10 + (b - b'0')) ≡ a ∷ b ∷ []
unfolding two
two_number a b h k = ground arith

three_number :
    (a b c : ℕ)
    → is_digit a ≡ true
    → is_digit b ≡ true
    → is_digit c ≡ true
    → three (((0 * 10 + (a - b'0')) * 10 + (b - b'0')) * 10 + (c - b'0')) ≡ a ∷ b ∷ c ∷ []
unfolding three
three_number a b c h k l = ground arith

four_number :
    (a b c d : ℕ)
    → is_digit a ≡ true
    → is_digit b ≡ true
    → is_digit c ≡ true
    → is_digit d ≡ true
    → four ((((0 * 10 + (a - b'0')) * 10 + (b - b'0')) * 10 + (c - b'0')) * 10 + (d - b'0'))
      ≡ a ∷ b ∷ c ∷ d ∷ []
unfolding four
four_number a b c d h k l m = ground arith

-- The first tests of the function, kept apart.
canonical_parts :
    (v : Bytes)
    → is_canonical_timestamp v ≡ true
    → (length v ≡ 24)
      × (at v 4 ≡ b'-')
      × (at v 7 ≡ b'-')
      × (at v 10 ≡ b'T')
      × (at v 13 ≡ b':')
      × (at v 16 ≡ b':')
      × (at v 19 ≡ b'.')
      × (at v 23 ≡ b'Z')
      × (stamp_digits 0 v ≡ true)
      × (is_date_time
            (number v 0 4)
            (number v 5 2)
            (number v 8 2)
            (number v 11 2)
            (number v 14 2)
            (number v 17 2)
          ≡ true)
unfolding is_canonical_timestamp
canonical_parts v h = ground arith

three_bound :
    (a b c : ℕ)
    → is_digit a ≡ true
    → is_digit b ≡ true
    → is_digit c ≡ true
    → ((0 * 10 + (a - b'0')) * 10 + (b - b'0')) * 10 + (c - b'0') < 1000
three_bound a b c h k l = ground arith

four_bound :
    (a b c d : ℕ)
    → is_digit a ≡ true
    → is_digit b ≡ true
    → is_digit c ≡ true
    → is_digit d ≡ true
    → (((0 * 10 + (a - b'0')) * 10 + (b - b'0')) * 10 + (c - b'0')) * 10 + (d - b'0') < 10000
four_bound a b c d h k l m = ground arith

digit_first :
    (i c : ℕ) (cs : Bytes)
    → stamp_digits i (c ∷ cs) ≡ true
    → is_separator_place i ≡ false
    → is_digit c ≡ true
unfolding stamp_digits
digit_first i c cs h p = (digit_step c (stamp_digits (i + 1) cs) (rw p at h)).0

digits_rest :
    (i c : ℕ) (cs : Bytes) → stamp_digits i (c ∷ cs) ≡ true → stamp_digits (i + 1) cs ≡ true
unfolding stamp_digits
digits_rest i c cs h = elim (Bool-cases (is_separator_place i)) [
  | inl p ↦ rw p at h
  | inr p ↦ (digit_step c (stamp_digits (i + 1) cs) (rw p at h)).1
]

-- At every place that is no separator the loop has seen a digit.
digit_at :
    (i : ℕ) (v : Bytes) (j : ℕ)
    → stamp_digits i v ≡ true
    → j < length v
    → is_separator_place (i + j) ≡ false
    → is_digit (at v j) ≡ true
unfolding stamp_digits
digit_at i [] j h l p = absurd (omega arith)
digit_at i (c ∷ cs) zero h l p = digit_first i c cs h (rw add-zero at p)
digit_at i (c ∷ cs) (suc j) h l p =
    digit_at (i + 1) cs j (digits_rest i c cs h) (omega arith)
      (ap is_separator_place (let e : i + 1 + j ≡ i + suc j = omega arith in e) ∙ p)

read :
    (v : Bytes)
    → is_canonical_timestamp v ≡ true
    → (tm : Tm) × (ms : ℕ) × (v ≡ put_utc tm ms) × IsMoment tm ms
unfolding put_utc two three four number_from
read v h =
    let t = canonical_parts v h in
    let e = entries_lem v 0 ∙ ap (entries v 0 0) t.0 in
    let d = λ (j : ℕ) (l : j < 24) (p : is_separator_place (0 + j) ≡ false).
      digit_at 0 v j t.8 (omega arith) p in
    let year =
      four_number (at v 0) (at v 1) (at v 2) (at v 3) (d 0 (omega arith) refl)
        (d 1 (omega arith) refl) (d 2 (omega arith) refl) (d 3 (omega arith) refl) in
    let month = two_number (at v 5) (at v 6) (d 5 (omega arith) refl) (d 6 (omega arith) refl) in
    let day = two_number (at v 8) (at v 9) (d 8 (omega arith) refl) (d 9 (omega arith) refl) in
    let hour = two_number (at v 11) (at v 12) (d 11 (omega arith) refl) (d 12 (omega arith) refl) in
    let minute =
      two_number (at v 14) (at v 15) (d 14 (omega arith) refl) (d 15 (omega arith) refl) in
    let second =
      two_number (at v 17) (at v 18) (d 17 (omega arith) refl) (d 18 (omega arith) refl) in
    let fraction =
      three_number (at v 20) (at v 21) (at v 22) (d 20 (omega arith) refl) (d 21 (omega arith) refl)
        (d 22 (omega arith) refl) in
    let tm : Tm = record {
      year = number v 0 4;
      month = number v 5 2;
      day = number v 8 2;
      hour = number v 11 2;
      minute = number v 14 2;
      second = number v 17 2;
    } in
    let year_bound =
      four_bound (at v 0) (at v 1) (at v 2) (at v 3) (d 0 (omega arith) refl)
        (d 1 (omega arith) refl) (d 2 (omega arith) refl) (d 3 (omega arith) refl) in
    let bound =
      three_bound (at v 20) (at v 21) (at v 22) (d 20 (omega arith) refl) (d 21 (omega arith) refl)
        (d 22 (omega arith) refl) in
    (tm, number v 20 3, cc, is_date_time-IsMoment tm (number v 20 3) year_bound bound t.9)

-- `IsCanonicalTimestamp` accepts exactly what `FormatUtc` prints for the calendar time of some
-- second from the start of the year 1 to the end of the year 9999, and some millisecond of it.
pub is_canonical_timestamp_iff :
    (value : Bytes)
    → (is_canonical_timestamp value ≡ true) ↔ (
        (seconds : ℕ) × (ms : ℕ) × (value ≡ put_utc (civil seconds) ms)
        × ((civil seconds).year < 10000)
        × (ms < 1000))
is_canonical_timestamp_iff value = (
  λ h.
      let (tm, ms, e, moment) = read value h in
      let back = civil-second_number tm ms moment in
      (
        second_number tm,
        ms,
        e ∙ ap (λ t. put_utc t ms) (sym back),
        subst (λ t. t.year < 10000) (sym back) moment.year_of_four,
        moment.fraction,
      ),
  λ p. rw p.2 (put_utc-canonical (civil p.0) p.1 (civil-IsMoment p.0 p.1 p.4 p.3)),
)
