-- ===== src/Personality/Sha.antt =====
-- `detail::Sha256` and `Sha256Hex` of PersonalityPolicy.h. A word is a number below 2 ^ 32.
pub mod Padding
pub mod Digest
pub mod Vectors
use Prim.Native.Nat.{bit_and, bit_or, bit_xor}
use twow_repo.Base.{
  ℕ, zero, suc, ◌+◌, ◌-◌, ◌*◌, ◌/◌, ◌%◌, ◌^◌, List, [], ◌∷◌, ◌++◌, ltb, ◌==◌, if◌then◌else◌, Bytes,
  codes, length, get_or, take, drop,
}

abbrev word : ℕ → ℕ
word x = x % 2 ^ 32

-- `Rotr`.
unfoldable pub rotr : ℕ → ℕ → ℕ
rotr value bits = bit_or (value / 2 ^ bits) (word (value * 2 ^ (32 - bits)))

-- `kRound`.
round_constants : List ℕ
round_constants =
    0x428a2f98 ∷ 0x71374491 ∷ 0xb5c0fbcf ∷ 0xe9b5dba5 ∷ 0x3956c25b ∷ 0x59f111f1 ∷ 0x923f82a4
    ∷ 0xab1c5ed5 ∷ 0xd807aa98 ∷ 0x12835b01 ∷ 0x243185be ∷ 0x550c7dc3 ∷ 0x72be5d74 ∷ 0x80deb1fe
    ∷ 0x9bdc06a7 ∷ 0xc19bf174 ∷ 0xe49b69c1 ∷ 0xefbe4786 ∷ 0x0fc19dc6 ∷ 0x240ca1cc ∷ 0x2de92c6f
    ∷ 0x4a7484aa ∷ 0x5cb0a9dc ∷ 0x76f988da ∷ 0x983e5152 ∷ 0xa831c66d ∷ 0xb00327c8 ∷ 0xbf597fc7
    ∷ 0xc6e00bf3 ∷ 0xd5a79147 ∷ 0x06ca6351 ∷ 0x14292967 ∷ 0x27b70a85 ∷ 0x2e1b2138 ∷ 0x4d2c6dfc
    ∷ 0x53380d13 ∷ 0x650a7354 ∷ 0x766a0abb ∷ 0x81c2c92e ∷ 0x92722c85 ∷ 0xa2bfe8a1 ∷ 0xa81a664b
    ∷ 0xc24b8b70 ∷ 0xc76c51a3 ∷ 0xd192e819 ∷ 0xd6990624 ∷ 0xf40e3585 ∷ 0x106aa070 ∷ 0x19a4c116
    ∷ 0x1e376c08 ∷ 0x2748774c ∷ 0x34b0bcb5 ∷ 0x391c0cb3 ∷ 0x4ed8aa4a ∷ 0x5b9cca4f ∷ 0x682e6ff3
    ∷ 0x748f82ee ∷ 0x78a5636f ∷ 0x84c87814 ∷ 0x8cc70208 ∷ 0x90befffa ∷ 0xa4506ceb ∷ 0xbef9a3f7
    ∷ 0xc67178f2 ∷ []

-- The working variables, and the chaining value `h`.
pub record Words : Type 0 where
  pub a : ℕ
  pub b : ℕ
  pub c : ℕ
  pub d : ℕ
  pub e : ℕ
  pub f : ℕ
  pub g : ℕ
  pub h : ℕ

initial : Words
initial = record {
  a = 0x6a09e667;
  b = 0xbb67ae85;
  c = 0x3c6ef372;
  d = 0xa54ff53a;
  e = 0x510e527f;
  f = 0x9b05688c;
  g = 0x1f83d9ab;
  h = 0x5be0cd19;
}

-- `while (data.size() % 64u != 56u) data.push_back(0x00u)`.
fill : ℕ → Bytes → Bytes
fill zero bytes = bytes
fill (suc fuel) bytes =
    let longer = fill fuel (bytes ++ 0 ∷ []) in if length bytes % 64 == 56 then bytes else longer

-- The eight bytes of the bit length, the highest first.
length_bytes : ℕ → Bytes
length_bytes n =
    n / 2 ^ 56 % 256
    ∷ n / 2 ^ 48 % 256
    ∷ n / 2 ^ 40 % 256
    ∷ n / 2 ^ 32 % 256
    ∷ n / 2 ^ 24 % 256
    ∷ n / 2 ^ 16 % 256
    ∷ n / 2 ^ 8 % 256
    ∷ n % 256
    ∷ []

-- `data` before the block loop; `bitLength` is a `uint64_t`.
unfoldable pub padded : Bytes → Bytes
unfolding fill length_bytes
padded message = fill 64 (message ++ 0x80 ∷ []) ++ length_bytes (length message * 8 % 2 ^ 64)

-- `w[0..15]` from the bytes at `offset`.
load_words : ℕ → Bytes → List ℕ
load_words zero block = []
load_words (suc n) block =
    (get_or block 0 0 * 2 ^ 24
      + get_or block 1 0 * 2 ^ 16
      + get_or block 2 0 * 2 ^ 8
      + get_or block 3 0)
    ∷ load_words n (drop 4 block)

-- One more word of the schedule, behind those that stand.
schedule_word : List ℕ → ℕ → ℕ
schedule_word w i =
    let x = get_or w (i - 15) 0 in
    let y = get_or w (i - 2) 0 in
    let s0 = bit_xor (bit_xor (rotr x 7) (rotr x 18)) (x / 2 ^ 3) in
    let s1 = bit_xor (bit_xor (rotr y 17) (rotr y 19)) (y / 2 ^ 10) in
    word (get_or w (i - 16) 0 + s0 + get_or w (i - 7) 0 + s1)

-- `for (int i = 16; i < 64; ++i)`, with the rounds left and `i`.
extend : ℕ → ℕ → List ℕ → List ℕ
extend zero i w = w
extend (suc n) i w = extend n (i + 1) (w ++ schedule_word w i ∷ [])

-- The body of the compression loop.
round : Words → ℕ → ℕ → Words
round v k w =
    let s1 = bit_xor (bit_xor (rotr v.e 6) (rotr v.e 11)) (rotr v.e 25) in
    let ch = bit_xor (bit_and v.e v.f) (bit_and (2 ^ 32 - 1 - v.e) v.g) in
    let t1 = word (v.h + s1 + ch + k + w) in
    let s0 = bit_xor (bit_xor (rotr v.a 2) (rotr v.a 13)) (rotr v.a 22) in
    let maj = bit_xor (bit_xor (bit_and v.a v.b) (bit_and v.a v.c)) (bit_and v.b v.c) in
    let t2 = word (s0 + maj) in
    record {
      a = word (t1 + t2);
      b = v.a;
      c = v.b;
      d = v.c;
      e = word (v.d + t1);
      f = v.e;
      g = v.f;
      h = v.g;
    }

rounds : Words → List ℕ → List ℕ → Words
rounds v [] ws = v
rounds v (k ∷ ks) [] = v
rounds v (k ∷ ks) (w ∷ ws) = rounds (round v k w) ks ws

-- `h[0] += a; …`.
add_words : Words → Words → Words
add_words x y = record {
  a = word (x.a + y.a);
  b = word (x.b + y.b);
  c = word (x.c + y.c);
  d = word (x.d + y.d);
  e = word (x.e + y.e);
  f = word (x.f + y.f);
  g = word (x.g + y.g);
  h = word (x.h + y.h);
}

-- One pass of the block loop.
compress : Words → Bytes → Words
compress h block = add_words h (rounds h round_constants (extend 48 16 (load_words 16 block)))

-- `for (offset = 0; offset < data.size(); offset += 64)`, with the blocks left.
blocks : ℕ → Words → Bytes → Words
blocks zero h bytes = h
blocks (suc n) h bytes = blocks n (compress h (take 64 bytes)) (drop 64 bytes)

-- The four bytes of a word, the highest first.
word_bytes : ℕ → Bytes
word_bytes x = x / 2 ^ 24 % 256 ∷ x / 2 ^ 16 % 256 ∷ x / 2 ^ 8 % 256 ∷ x % 256 ∷ []

digest_bytes : Words → Bytes
unfolding word_bytes
digest_bytes v =
    word_bytes v.a
    ++ (word_bytes v.b
        ++ (word_bytes v.c
            ++ (word_bytes v.d
                ++ (word_bytes v.e ++ (word_bytes v.f ++ (word_bytes v.g ++ word_bytes v.h))))))

unfoldable pub sha256 : Bytes → Bytes
unfolding padded blocks compress add_words rounds round extend schedule_word load_words rotr initial
    round_constants digest_bytes
sha256 message =
    let bytes = padded message in digest_bytes (blocks (length bytes / 64) initial bytes)

-- `kHex[n]`.
unfoldable pub hex_digit : ℕ → ℕ
hex_digit n = if ltb n 10 then b'0' + n else b'a' + (n - 10)

unfoldable pub hex : Bytes → Bytes
unfolding hex_digit
hex [] = []
hex (byte ∷ bytes) = hex_digit (byte / 16) ∷ hex_digit (byte % 16) ∷ hex bytes

unfoldable pub sha256_hex : Bytes → Bytes
unfolding hex hex_digit
sha256_hex message = hex (sha256 message)
