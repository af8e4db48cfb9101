-- ===== src/Bridge/Uuid.antt =====
-- IsCanonicalUuidV4 and NewUuidV4.
use Prim.Native.Nat.{bit_and, bit_or}
use twow_repo.Base.{
  ℕ, zero, suc, ◌+◌, ◌/◌, ◌%◌, ◌<◌, Bool, true, false, not, ◌&&◌, ◌||◌, [], ◌∷◌, ◌++◌, ◌≡◌, refl,
  arith, leb, ◌==◌, if◌then◌else◌, Bytes, length, get_or, set, take, drop, All, All-get_or,
  entries_lem,
}
use twow_repo.Personality.Sha.{hex_digit, hex}

abbrev is_dash_place : ℕ → Bool
is_dash_place i = i == 8 || i == 13 || i == 18 || i == 23

abbrev pub is_lower_hex : ℕ → Bool
is_lower_hex c = (leb b'0' c && leb c b'9') || (leb b'a' c && leb c b'f')

-- The loop, from place `i` on.
unfoldable pub uuid_digits : ℕ → Bytes → Bool
uuid_digits i [] = true
uuid_digits i (c ∷ cs) =
    let rest = uuid_digits (i + 1) cs in
    if is_dash_place i then rest else if not (is_lower_hex c) then false else rest

-- `value[i]`, which the test of the size keeps in range.
abbrev at : Bytes → ℕ → ℕ
at value i = get_or value i 0

unfoldable pub is_canonical_uuid_v4 : Bytes → Bool
unfolding uuid_digits
is_canonical_uuid_v4 value =
    if not (length value == 36)
      || not (at value 8 == b'-')
      || not (at value 13 == b'-')
      || not (at value 18 == b'-')
      || not (at value 23 == b'-')
      || not (at value 14 == b'4')
    then false
    else if not (at value 19 == b'8')
        && not (at value 19 == b'9')
        && not (at value 19 == b'a')
        && not (at value 19 == b'b')
    then false
    else uuid_digits 0 value

-- Bytes 6 and 8 with the version and the variant.
unfoldable pub with_version : Bytes → Bytes
with_version bytes =
    let versioned = set bytes 6 (bit_or (bit_and (at bytes 6) 0x0f) 0x40) in
    set versioned 8 (bit_or (bit_and (at versioned 8) 0x3f) 0x80)

dashed : Bytes → Bytes
dashed bytes =
    hex (take 4 bytes)
    ++ b'-'
      ∷ (hex (take 2 (drop 4 bytes))
          ++ b'-'
            ∷ (hex (take 2 (drop 6 bytes))
                ++ b'-' ∷ (hex (take 2 (drop 8 bytes)) ++ b'-' ∷ hex (take 6 (drop 10 bytes)))))

-- From the sixteen bytes that the system's generator drew.
unfoldable pub new_uuid_v4 : Bytes → Bytes
unfolding with_version dashed hex
new_uuid_v4 bytes = dashed (with_version bytes)

-- The test holds of every number under the bound.
holds_under : (ℕ → Bool) → ℕ → Bool
holds_under test zero = true
holds_under test (suc top) = holds_under test top && test top

holds_under-at :
    (test : ℕ → Bool) (bound b : ℕ) → b < bound → holds_under test bound ≡ true → test b ≡ true
unfolding holds_under
holds_under-at test zero b small h = absurd (omega arith)
holds_under-at test (suc top) b small h = ground (arith, holds_under-at test top b)

-- The two digits of a byte, and what the digits of bytes 6 and 8 are.
digits_ok : ℕ → Bool
unfolding hex_digit
digits_ok b = is_lower_hex (hex_digit (b / 16)) && is_lower_hex (hex_digit (b % 16))

version_ok : ℕ → Bool
unfolding hex_digit
version_ok b =
    let v = bit_or (bit_and b 0x0f) 0x40 in
    hex_digit (v / 16) == b'4' && is_lower_hex (hex_digit (v % 16))

abbrev is_variant_digit : ℕ → Bool
is_variant_digit c = c == b'8' || c == b'9' || c == b'a' || c == b'b'

variant_ok : ℕ → Bool
unfolding hex_digit
variant_ok b =
    let v = bit_or (bit_and b 0x3f) 0x80 in
    is_variant_digit (hex_digit (v / 16)) && is_lower_hex (hex_digit (v % 16))

digits_table : holds_under digits_ok 256 ≡ true
unfolding holds_under digits_ok
digits_table = refl

version_table : holds_under version_ok 256 ≡ true
unfolding holds_under version_ok
version_table = refl

variant_table : holds_under variant_ok 256 ≡ true
unfolding holds_under variant_ok
variant_table = refl

pair_lem :
    (b : ℕ)
    → b < 256
    → (is_lower_hex (hex_digit (b / 16)) ≡ true) × (is_lower_hex (hex_digit (b % 16)) ≡ true)
unfolding digits_ok
pair_lem b h = ground (arith, holds_under-at digits_ok 256 b h digits_table)

version_lem :
    (b : ℕ)
    → b < 256
    → let v = bit_or (bit_and b 0x0f) 0x40 in
      (hex_digit (v / 16) ≡ b'4') × (is_lower_hex (hex_digit (v % 16)) ≡ true)
unfolding version_ok
version_lem b h = ground (arith, holds_under-at version_ok 256 b h version_table)

variant_lem :
    (b : ℕ)
    → b < 256
    → let v = bit_or (bit_and b 0x3f) 0x80 in
      (is_variant_digit (hex_digit (v / 16)) ≡ true)
      × (is_lower_hex (hex_digit (v / 16)) ≡ true)
      × (is_lower_hex (hex_digit (v % 16)) ≡ true)
unfolding variant_ok
variant_lem b h = ground (arith, holds_under-at variant_ok 256 b h variant_table)

variant_passes :
    (c : ℕ)
    → is_variant_digit c ≡ true
    → (if not (c == b'8') && not (c == b'9') && not (c == b'a') && not (c == b'b')
        then false
        else true)
      ≡ true
variant_passes c h = ground arith

-- A string of the drawn bytes with the version and the variant is canonical: every draw will do.
pub new_uuid_v4-canonical :
    (bytes : Bytes)
    → length bytes ≡ 16
    → All (λ b. b < 256) bytes
    → is_canonical_uuid_v4 (new_uuid_v4 bytes) ≡ true
unfolding new_uuid_v4 is_canonical_uuid_v4
new_uuid_v4-canonical bytes l h =
    let small = λ (i : ℕ) (s : i < 16). All-get_or (λ b. b < 256) bytes i 0 h (omega arith) in
    let pair = λ (i : ℕ) (s : i < 16). pair_lem (at bytes i) (small i s) in
    let v = version_lem (at bytes 6) (small 6 (omega arith)) in
    let w = variant_lem (at bytes 8) (small 8 (omega arith)) in
    let p0 = pair 0 (omega arith) in
    let p1 = pair 1 (omega arith) in
    let p2 = pair 2 (omega arith) in
    let p3 = pair 3 (omega arith) in
    let p4 = pair 4 (omega arith) in
    let p5 = pair 5 (omega arith) in
    let p7 = pair 7 (omega arith) in
    let p9 = pair 9 (omega arith) in
    let p10 = pair 10 (omega arith) in
    let p11 = pair 11 (omega arith) in
    let p12 = pair 12 (omega arith) in
    let p13 = pair 13 (omega arith) in
    let p14 = pair 14 (omega arith) in
    let p15 = pair 15 (omega arith) in
    rw (entries_lem bytes 0, l)
      (rw
        (
          p0.0, p0.1, p1.0, p1.1, p2.0, p2.1, p3.0, p3.1, p4.0, p4.1, p5.0, p5.1, v.0, v.1, p7.0,
          p7.1, w.1, w.2, p9.0, p9.1, p10.0, p10.1, p11.0, p11.1, p12.0, p12.1, p13.0, p13.1, p14.0,
          p14.1, p15.0, p15.1,
        )
        (variant_passes (hex_digit (bit_or (bit_and (at bytes 8) 0x3f) 0x80 / 16)) w.0))
