-- ===== src/Bridge/Stamps/Order.antt =====
-- Stamps compare as text in the order of their times.
use twow_repo.Base.{ℕ, ◌<◌, Bool, ◌&&◌, ◌||◌, [], ◌∷◌, ◌++◌, ◌≡◌, arith, ltb, ◌==◌, Bytes, bytes_lt}
use twow_repo.Bridge.Calendar.{Tm, IsMoment}
use twow_repo.Bridge.Stamps.{put_utc, two, three, four}
use twow_repo.Bridge.Stamps.Printed.{IsMoment-small}

-- Field by field, the longer periods first.
abbrev pub earlier : Tm → ℕ → Tm → ℕ → Bool
earlier a m b n =
    ltb a.year b.year
    || (a.year == b.year
        && (ltb a.month b.month
            || (a.month == b.month
                && (ltb a.day b.day
                    || (a.day == b.day
                        && (ltb a.hour b.hour
                            || (a.hour == b.hour
                                && (ltb a.minute b.minute
                                    || (a.minute == b.minute
                                        && (ltb a.second b.second
                                            || (a.second == b.second && ltb m n)))))))))))

-- A field and the separator behind it, when the rests compare as `later` says.
two_then :
    (a b c : ℕ) (r s : Bytes) {later : Bool}
    → a < 100
    → b < 100
    → bytes_lt r s ≡ later
    → bytes_lt (two a ++ c ∷ r) (two b ++ c ∷ s) ≡ (ltb a b || (a == b && later))
unfolding bytes_lt two
two_then a b c r s h k e = ground arith

three_then :
    (a b c : ℕ) → a < 1000 → b < 1000 → bytes_lt (three a ++ c ∷ []) (three b ++ c ∷ []) ≡ ltb a b
unfolding bytes_lt three
three_then a b c h k = ground arith

four_then :
    (a b c : ℕ) (r s : Bytes) {later : Bool}
    → a < 10000
    → b < 10000
    → bytes_lt r s ≡ later
    → bytes_lt (four a ++ c ∷ r) (four b ++ c ∷ s) ≡ (ltb a b || (a == b && later))
unfolding bytes_lt four
four_then a b c r s h k e = ground arith

-- Stamps compare as strings in the order of their times, which is how the client compares them.
pub bytes_lt-put_utc :
    (a b : Tm) (m n : ℕ)
    → IsMoment a m
    → IsMoment b n
    → bytes_lt (put_utc a m) (put_utc b n) ≡ earlier a m b n
unfolding put_utc
bytes_lt-put_utc a b m n h k =
    let s = IsMoment-small a m h in
    let t = IsMoment-small b n k in
    four_then a.year b.year b'-' _ _ h.year_of_four k.year_of_four (
      two_then a.month b.month b'-' _ _ s.0 t.0 (
        two_then a.day b.day b'T' _ _ s.1 t.1 (
          two_then a.hour b.hour b':' _ _ s.2 t.2 (
            two_then a.minute b.minute b':' _ _ s.3 t.3 (
              two_then a.second b.second b'.' _ _ s.4 t.4
                (three_then m n b'Z' h.fraction k.fraction))))))
