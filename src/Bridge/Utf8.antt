-- ===== src/Bridge/Utf8.antt =====
-- DecodeScalar, DecodeUtf8, IsEcmaTrimWhitespace, IsTrimEmpty and IsCanonicalSanitizedText. A
-- position in the string is the rest of the string from there on.
pub mod Scalars
pub mod Strings
pub mod Sanitized
use twow_repo.Base.{
  ℕ, zero, suc, ◌+◌, ◌-◌, ◌*◌, ◌/◌, ◌%◌, Bool, true, false, not, ◌&&◌, ◌||◌, [], ◌∷◌, Option, none,
  some, ltb, leb, ◌==◌, if◌then◌else◌, Bytes, length, is_empty,
}
use twow_repo.Wire.Text.{starts_with_byte, ends_with_byte}

-- `scalar` and `count` after the tests on the first byte; `first & 0x1f` is `first % 32`.
unfoldable pub lead : ℕ → Option (ℕ × ℕ)
lead first =
    if leb first 0x7f
    then some (first, 1)
    else if leb 0xc2 first && leb first 0xdf
    then some (first % 32, 2)
    else if leb 0xe0 first && leb first 0xef
    then some (first % 16, 3)
    else if leb 0xf0 first && leb first 0xf4
    then some (first % 8, 4)
    else none

-- The loop over the continuation bytes: `(next & 0xc0) != 0x80` ends it, and the scalar becomes
-- `(scalar << 6) | (next & 0x3f)`. It is `none` past the end of the string too.
unfoldable pub continued : ℕ → ℕ → Bytes → Option ℕ
continued zero scalar rest = some scalar
continued (suc n) scalar [] = none
continued (suc n) scalar (next ∷ rest) =
    let deeper = continued n (scalar * 64 + next % 64) rest in
    if next / 64 == 2 then deeper else none

-- The last test: overlong forms, numbers past the last code point, and surrogates.
unfoldable pub is_allowed : ℕ → ℕ → Bool
is_allowed count scalar = not (
    (count == 2 && ltb scalar 0x80)
    || (count == 3 && ltb scalar 0x800)
    || (count == 4 && ltb scalar 0x10000)
    || ltb 0x10ffff scalar
    || (leb 0xd800 scalar && leb scalar 0xdfff))

unfoldable pub finish_scalar : ℕ → Option ℕ → Option (ℕ × ℕ)
finish_scalar count none = none
finish_scalar count (some scalar) = if is_allowed count scalar then some (scalar, count) else none

unfoldable pub after_lead : Option (ℕ × ℕ) → Bytes → Option (ℕ × ℕ)
after_lead none rest = none
after_lead (some (scalar, count)) rest = finish_scalar count (continued (count - 1) scalar rest)

-- The code point at the front of the bytes, and how many bytes it takes.
unfoldable pub decode_scalar : Bytes → Option (ℕ × ℕ)
decode_scalar [] = none
decode_scalar (first ∷ rest) = after_lead (lead first) rest

-- The loop of `DecodeUtf8`, with the bytes that `i += count` still skips; the count of code points.
unfoldable pub decode_from : Bool → ℕ → ℕ → Bytes → Option ℕ
decode_from reject skip codepoints [] = some codepoints
decode_from reject (suc skip) codepoints (b ∷ bs) = decode_from reject skip codepoints bs
decode_from reject zero codepoints (b ∷ bs) = elim (decode_scalar (b ∷ bs)) [
  | none ↦ none
  | some (scalar, count) ↦
      if reject && (leb scalar 0x1f || scalar == 0x7f)
      then none
      else decode_from reject (count - 1) (codepoints + 1) bs
]

unfoldable pub decode_utf8 : Bool → Bytes → Option ℕ
decode_utf8 reject value = decode_from reject 0 0 value

unfoldable pub is_wide_whitespace : ℕ → Bool
is_wide_whitespace scalar =
    scalar == 0xa0
    || scalar == 0x1680
    || (leb 0x2000 scalar && leb scalar 0x200a)
    || scalar == 0x2028
    || scalar == 0x2029
    || scalar == 0x202f
    || scalar == 0x205f
    || scalar == 0x3000
    || scalar == 0xfeff

unfoldable pub is_ecma_trim_whitespace : ℕ → Bool
unfolding is_wide_whitespace
is_ecma_trim_whitespace scalar =
    scalar == 0x9
    || scalar == 0xa
    || scalar == 0xb
    || scalar == 0xc
    || scalar == 0xd
    || scalar == 0x20
    || is_wide_whitespace scalar

unfoldable pub trim_empty_from : ℕ → Bytes → Bool
trim_empty_from skip [] = true
trim_empty_from (suc skip) (b ∷ bs) = trim_empty_from skip bs
trim_empty_from zero (b ∷ bs) = elim (decode_scalar (b ∷ bs)) [
  | none ↦ false
  | some (scalar, width) ↦
      let rest = trim_empty_from (width - 1) bs in
      if is_ecma_trim_whitespace scalar then rest else false
]

-- An empty string has no code point that is not white space.
unfoldable pub is_trim_empty : Bytes → Bool
is_trim_empty value = trim_empty_from 0 value

unfoldable pub is_terminator : ℕ → Bool
is_terminator scalar = scalar == b'.' || scalar == b'!' || scalar == b'?' || scalar == 0x2026

-- `i + 1 < text.size() && text[i + 1] == ' '`.
abbrev pub next_is_space : Bytes → Bool
next_is_space rest = starts_with_byte b' ' rest

-- The second loop of `IsCanonicalSanitizedText`: `inRun`, and the runs of terminators so far.
unfoldable pub sanitized_from : Bool → ℕ → ℕ → Bytes → Bool
sanitized_from in_run runs skip [] = leb runs 2
sanitized_from in_run runs (suc skip) (b ∷ bs) = sanitized_from in_run runs skip bs
sanitized_from in_run runs zero (b ∷ bs) = elim (decode_scalar (b ∷ bs)) [
  | none ↦ false
  | some (scalar, width) ↦
      let terminator = is_terminator scalar in
      let rest =
        sanitized_from terminator (if terminator && not in_run then runs + 1 else runs) (width - 1)
          bs in
      if is_wide_whitespace scalar
      then false
      else if scalar == b' ' && next_is_space bs
      then false
      else rest
]

within_codepoints : Option ℕ → Bool
within_codepoints none = false
within_codepoints (some codepoints) = leb codepoints 240

unfoldable pub is_canonical_sanitized_text : Bytes → Bool
unfolding within_codepoints
is_canonical_sanitized_text text =
    if is_empty text
      || ltb 240 (length text)
      || starts_with_byte b' ' text
      || ends_with_byte b' ' text
    then false
    else if not (within_codepoints (decode_utf8 true text))
    then false
    else sanitized_from false 0 0 text
