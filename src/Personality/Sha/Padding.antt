-- ===== src/Personality/Sha/Padding.antt =====
-- The padded message: whole blocks, the message in front, and no two messages alike.
use mathlib.Core.List.{append-nil, append_assoc}
use twow_repo.Base.{
  ℕ, zero, suc, ◌-◌, ◌*◌, ◌%◌, ◌^◌, ◌<◌, ◌≤◌, List, [], ◌∷◌, ◌++◌, ◌≡◌, refl, sym, ap, ◌∙◌, arith,
  inl, inr, ◌==◌, Bool-cases, Bytes, length, length-append, replicate,
}
use twow_repo.Personality.Sha.{fill, length_bytes, padded}

fill-replicate :
    (fuel : ℕ) (bytes : Bytes) → (k : ℕ) × (k ≤ fuel) × (fill fuel bytes ≡ bytes ++ replicate k 0)
unfolding fill
fill-replicate zero bytes = (0, omega arith, sym (append-nil bytes))
fill-replicate (suc fuel) bytes = elim (Bool-cases (length bytes % 64 == 56)) [
  | inl e ↦ (0, omega arith, rw e (sym (append-nil bytes)))
  | inr e ↦
      let (k, le, eq) = fill-replicate fuel (bytes ++ 0 ∷ []) in
      (suc k, omega arith, rw e (eq ∙ append_assoc bytes (0 ∷ []) (replicate k 0)))
]

-- How many bytes are missing to 56 modulo 64.
abbrev gap : ℕ → ℕ
gap n = (120 - n % 64) % 64

fill-length :
    (fuel : ℕ) (bytes : Bytes) → gap (length bytes) ≤ fuel → length (fill fuel bytes) % 64 ≡ 56
unfolding fill
fill-length zero bytes h = omega arith
fill-length (suc fuel) bytes h = elim (Bool-cases (length bytes % 64 == 56)) [
  | inl e ↦ rw e (ground arith)
  | inr e ↦
      rw e (fill-length fuel (bytes ++ 0 ∷ []) (rw (length-append bytes (0 ∷ [])) (ground arith)))
]

length-length_bytes : (n : ℕ) → length (length_bytes n) ≡ 8
unfolding length_bytes
length-length_bytes n = refl

-- The padding of every message ends on a block boundary.
pub padded-whole_blocks : (message : Bytes) → length (padded message) % 64 ≡ 0
unfolding padded
padded-whole_blocks message =
    let bytes = message ++ 0x80 ∷ [] in
    rw (length-append (fill 64 bytes) (length_bytes (length message * 8 % 2 ^ 64))) (
      omega (
        arith,
        fill-length 64 bytes (omega arith),
        length-length_bytes (length message * 8 % 2 ^ 64),
      ))

append_inj {ℓ} :
    {A : Type ℓ} (xs xs' ys ys' : List A)
    → length xs ≡ length xs'
    → xs ++ ys ≡ xs' ++ ys'
    → (xs ≡ xs') × (ys ≡ ys')
append_inj [] [] ys ys' l e = (refl, e)
append_inj [] (x ∷ xs') ys ys' l e = absurd (omega arith)
append_inj (x ∷ xs) [] ys ys' l e = absurd (omega arith)
append_inj (x ∷ xs) (x' ∷ xs') ys ys' l e =
    let r = append_inj xs xs' ys ys' (omega arith) (ground arith) in (ground arith, r.1)

length_bytes-injective :
    (n m : ℕ) → n < 2 ^ 64 → m < 2 ^ 64 → length_bytes n ≡ length_bytes m → n ≡ m
unfolding length_bytes
length_bytes-injective n m hn hm e = ground arith

fill_eq_length :
    (a b : Bytes) (x y : ℕ) → a ++ length_bytes x ≡ b ++ length_bytes y → length a ≡ length b
fill_eq_length a b x y e = omega (
  arith,
  ap length e,
  length-append a (length_bytes x),
  length-append b (length_bytes y),
  length-length_bytes x,
  length-length_bytes y,
)

message_of_fill :
    (m m' : Bytes) (k k' : ℕ)
    → length m ≡ length m'
    → (m ++ 0x80 ∷ []) ++ replicate k 0 ≡ (m' ++ 0x80 ∷ []) ++ replicate k' 0
    → m ≡ m'
message_of_fill m m' k k' l e =
    (append_inj m m' (0x80 ∷ replicate k 0) (0x80 ∷ replicate k' 0) l
      (sym (append_assoc m (0x80 ∷ []) _) ∙ e ∙ append_assoc m' (0x80 ∷ []) _)).0

-- Two messages of fewer than 2 ^ 61 bytes that are padded alike are one message.
pub padded-injective :
    (m m' : Bytes) → length m < 2 ^ 61 → length m' < 2 ^ 61 → padded m ≡ padded m' → m ≡ m'
unfolding padded
padded-injective m m' h h' e =
    let x = length m * 8 % 2 ^ 64 in
    let y = length m' * 8 % 2 ^ 64 in
    let f = fill-replicate 64 (m ++ 0x80 ∷ []) in
    let f' = fill-replicate 64 (m' ++ 0x80 ∷ []) in
    let s = append_inj _ _ (length_bytes x) (length_bytes y) (fill_eq_length _ _ x y e) e in
    let same = length_bytes-injective x y (omega arith) (omega arith) s.1 in
    message_of_fill m m' f.0 f'.0 (omega arith) (sym f.2 ∙ s.0 ∙ f'.2)
