-- ===== src/Bridge/Utf8/Scalars.antt =====
-- DecodeScalar against the encoder of UTF-8.
use twow_repo.Base.{
  ℕ, ◌+◌, ◌/◌, ◌%◌, ◌≤◌, ◌<◌, [], ◌∷◌, ◌++◌, some, ◌≡◌, ltb, if◌then◌else◌, arith, Bytes, length,
  take, ◌⊎◌,
}
use twow_repo.Bridge.Utf8.{lead, continued, is_allowed, finish_scalar, after_lead, decode_scalar}

-- The Unicode scalar values: the code points but for the surrogates.
abbrev pub IsScalar : ℕ → Type 0
IsScalar c = (c < 0xd800) ⊎ ((0xdfff < c) × (c ≤ 0x10ffff))

-- The bytes of a code point in UTF-8.
unfoldable pub encode_scalar : ℕ → Bytes
encode_scalar c =
    if ltb c 0x80
    then c ∷ []
    else if ltb c 0x800
    then (0xc0 + c / 64) ∷ (0x80 + c % 64) ∷ []
    else if ltb c 0x10000
    then (0xe0 + c / 4096) ∷ (0x80 + c / 64 % 64) ∷ (0x80 + c % 64) ∷ []
    else (0xf0 + c / 262144) ∷ (0x80 + c / 4096 % 64) ∷ (0x80 + c / 64 % 64) ∷ (0x80 + c % 64) ∷ []

-- What an encoded code point decodes to.
pub decode-encode_scalar :
    (c : ℕ) (rest : Bytes)
    → IsScalar c
    → decode_scalar (encode_scalar c ++ rest) ≡ some (c, length (encode_scalar c))
unfolding decode_scalar after_lead lead continued finish_scalar is_allowed encode_scalar
decode-encode_scalar c rest h = ground arith

-- The bytes begin with the encoding of the code point, and it is as long as the count says.
abbrev pub Encodes : Bytes → ℕ → ℕ → Type 0
Encodes s c n = IsScalar c × (take n s ≡ encode_scalar c) × (length (encode_scalar c) ≡ n)

pub encode-decode_scalar : (s : Bytes) (c n : ℕ) → decode_scalar s ≡ some (c, n) → Encodes s c n
unfolding decode_scalar after_lead lead continued finish_scalar is_allowed encode_scalar
encode-decode_scalar [] c n h = ground arith
encode-decode_scalar (a ∷ []) c n h = ground arith
encode-decode_scalar (a ∷ b ∷ []) c n h = ground arith
encode-decode_scalar (a ∷ b ∷ d ∷ []) c n h = ground arith
encode-decode_scalar (a ∷ b ∷ d ∷ e ∷ s) c n h = ground arith
