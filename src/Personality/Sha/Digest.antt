-- ===== src/Personality/Sha/Digest.antt =====
-- What a digest looks like: 32 bytes, and 64 lowercase hexadecimal digits.
use twow_repo.Base.{
  ℕ, ◌*◌, ◌%◌, ◌/◌, ◌<◌, true, ◌&&◌, ◌||◌, [], ◌∷◌, ◌≡◌, refl, arith, leb, Bytes, length, All,
}
use twow_repo.Personality.Sha.{Words, digest_bytes, sha256, hex_digit, hex, sha256_hex}

abbrev pub IsByte : ℕ → Type 0
IsByte b = b < 256

abbrev pub IsHexDigit : ℕ → Type 0
IsHexDigit c = ((leb b'0' c && leb c b'9') || (leb b'a' c && leb c b'f')) ≡ true

digest_bytes-shape : (v : Words) → (length (digest_bytes v) ≡ 32) × All IsByte (digest_bytes v)
unfolding digest_bytes
digest_bytes-shape v = (refl, omega arith)

hex_digit-IsHexDigit : (n : ℕ) → n < 16 → IsHexDigit (hex_digit n)
unfolding hex_digit
hex_digit-IsHexDigit n h = ground arith

hex-IsHexDigit : (bytes : Bytes) → All IsByte bytes → All IsHexDigit (hex bytes)
unfolding hex
hex-IsHexDigit [] h = tt
hex-IsHexDigit (b ∷ bytes) h = (
  hex_digit-IsHexDigit (b / 16) (omega arith),
  (hex_digit-IsHexDigit (b % 16) (omega arith), hex-IsHexDigit bytes h.1),
)

length-hex : (bytes : Bytes) → length (hex bytes) ≡ length bytes * 2
unfolding hex
length-hex [] = refl
length-hex (b ∷ bytes) = omega (arith, length-hex bytes)

pub sha256-shape : (message : Bytes) → (length (sha256 message) ≡ 32) × All IsByte (sha256 message)
unfolding sha256
sha256-shape message = digest_bytes-shape _

-- The printed digest of any message is 64 lowercase hexadecimal digits.
pub sha256_hex-shape :
    (message : Bytes) → (length (sha256_hex message) ≡ 64) × All IsHexDigit (sha256_hex message)
unfolding sha256_hex
sha256_hex-shape message =
    let s = sha256-shape message in
    (omega (arith, length-hex (sha256 message)), hex-IsHexDigit (sha256 message) s.1)
