-- ===== src/Pipeline/Clock.antt =====
-- `Elapsed`, over the 32-bit millisecond clock of the world.
use twow_repo.Base.{
  ℕ, ◌+◌, ◌-◌, ◌%◌, ◌^◌, ◌≤◌, ◌<◌, Bool, true, false, not, ◌≡◌, ◌↔◌, arith, if◌then◌else◌,
}
use twow_repo.Base.Int.{ℤ, pos, int_lt, is_zero, signed32}

-- `uint32` sum and difference.
abbrev pub add32 : ℕ → ℕ → ℕ
add32 a b = (a + b) % 2 ^ 32

abbrev pub sub32 : ℕ → ℕ → ℕ
sub32 a b = (a + (2 ^ 32 - b % 2 ^ 32)) % 2 ^ 32

unfoldable pub elapsed : ℕ → ℕ → Bool
elapsed now deadline = not (int_lt (signed32 (sub32 now deadline)) (pos 0))

-- `expiresAtMs && expiresAtMs < now`.
unfoldable pub is_expired : ℤ → ℤ → Bool
is_expired expires now = if is_zero expires then false else int_lt expires now

-- A deadline set less than 2^31 ms ahead has elapsed once at least that wait has passed and less
-- than 2^31 ms more, and not before, wherever the 32-bit clock wraps in between.
pub elapsed-add32 :
    (start wait gone : ℕ)
    → wait < 2 ^ 31
    → gone < wait + 2 ^ 31
    → (elapsed (add32 start gone) (add32 start wait) ≡ true) ↔ (wait ≤ gone)
unfolding elapsed signed32
elapsed-add32 start wait gone small soon = ((λ h. ground arith), (λ h. ground arith))
