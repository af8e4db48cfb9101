-- ===== src/Wire/Double.antt =====
-- `double` as its IEEE 754 binary64 pattern, a number below 2 ^ 64. The code compares doubles and
-- copies them; it makes no arithmetic on them.
use twow_repo.Base.{ℕ, ◌/◌, ◌%◌, ◌^◌, Bool, true, false, not, ◌&&◌, ◌||◌, ltb, ◌==◌, if◌then◌else◌}

abbrev pub Double : Type 0
Double = ℕ

abbrev is_negative : Double → Bool
is_negative d = not (d / 2 ^ 63 == 0)

abbrev magnitude : Double → ℕ
magnitude d = d % 2 ^ 63

-- All ones in the exponent and a mantissa that is not zero.
unfoldable pub is_nan : Double → Bool
is_nan d = ltb 0x7ff0_0000_0000_0000 (magnitude d)

-- `a < b`: false where one is no number, and the two zeros are equal.
unfoldable pub double_lt : Double → Double → Bool
unfolding is_nan
double_lt a b =
    if is_nan a || is_nan b
    then false
    else if magnitude a == 0 && magnitude b == 0
    then false
    else if is_negative a
    then (if is_negative b then ltb (magnitude b) (magnitude a) else true)
    else (if is_negative b then false else ltb (magnitude a) (magnitude b))

abbrev pub zero_double : Double
zero_double = 0

-- 1.0 and 100.0.
abbrev pub one_double : Double
one_double = 0x3ff0_0000_0000_0000

abbrev pub hundred_double : Double
hundred_double = 0x4059_0000_0000_0000
