-- ===== src/Bridge/Stamps/Clock.antt =====
-- FormatUtc: every stamp that the client writes passes its own check.
use twow_repo.Base.{ℕ, ◌+◌, ◌/◌, ◌%◌, ◌<◌, true, ◌≡◌, refl, arith}
use twow_repo.Bridge.Calendar.{epoch, gm_time}
use twow_repo.Bridge.Stamps.{format_utc, is_canonical_timestamp}
use twow_repo.Bridge.Stamps.Printed.{is_canonical_timestamp_iff}

-- Up to the end of the year 9999, what `FormatUtc` writes into a request passes the check that
-- the client makes of the stamps it reads, with the C library's own calendar behind `gmtime`.
pub format_utc-canonical :
    (now : ℕ) → (gm_time (now / 1000)).year < 10000 → is_canonical_timestamp (format_utc now) ≡ true
unfolding format_utc
format_utc-canonical now h =
    (is_canonical_timestamp_iff _).1 (epoch + now / 1000, now % 1000, refl, h, omega arith)
