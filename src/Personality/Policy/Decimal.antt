-- ===== src/Personality/Policy/Decimal.antt =====
-- `detail::Decimal` prints what its readers get back.
use twow_repo.Base.{
  ℕ, zero, suc, ◌+◌, ◌-◌, ◌*◌, ◌/◌, ◌≤◌, true, ◌&&◌, [], ◌∷◌, ◌≡◌, refl, ◌∙◌, arith, inl, inr, leb,
  ◌==◌, Bool-cases, Bytes, All,
}
use twow_repo.Personality.Policy.{digits, reverse_onto, decimal}

abbrev pub IsDigit : ℕ → Type 0
IsDigit c = (leb b'0' c && leb c b'9') ≡ true

-- A decimal number read from its highest digit on.
unfoldable pub read_decimal : ℕ → Bytes → ℕ
read_decimal acc [] = acc
read_decimal acc (c ∷ cs) = read_decimal (acc * 10 + (c - b'0')) cs

-- The value of digits that start with the lowest.
low_first : Bytes → ℕ
low_first [] = 0
low_first (c ∷ cs) = low_first cs * 10 + (c - b'0')

low_first-digits : (fuel value : ℕ) → value ≤ fuel → low_first (digits fuel value) ≡ value
unfolding digits low_first
low_first-digits zero value h = omega arith
low_first-digits (suc fuel) value h = elim (Bool-cases (value == 0)) [
  | inl e ↦ rw e (ground arith)
  | inr e ↦ rw e (ground (arith, low_first-digits fuel (value / 10)))
]

read-reverse_onto :
    (out cs : Bytes) → read_decimal 0 (reverse_onto out cs) ≡ read_decimal (low_first cs) out
unfolding read_decimal reverse_onto low_first
read-reverse_onto out [] = refl
read-reverse_onto out (c ∷ cs) = read-reverse_onto (c ∷ out) cs

digits-IsDigit : (fuel value : ℕ) → All IsDigit (digits fuel value)
unfolding digits
digits-IsDigit zero value = tt
digits-IsDigit (suc fuel) value = elim (Bool-cases (value == 0)) [
  | inl e ↦ rw e tt
  | inr e ↦ rw e (ground arith, digits-IsDigit fuel (value / 10))
]

reverse_onto-All :
    (out cs : Bytes) → All IsDigit out → All IsDigit cs → All IsDigit (reverse_onto out cs)
unfolding reverse_onto
reverse_onto-All out [] h k = h
reverse_onto-All out (c ∷ cs) h k = reverse_onto-All (c ∷ out) cs (k.0, h) k.1

-- The text of a number is decimal digits, and reads back as the number.
pub read-decimal :
    (value : ℕ) → (read_decimal 0 (decimal value) ≡ value) × All IsDigit (decimal value)
unfolding decimal
read-decimal value = elim (Bool-cases (value == 0)) [
  | inl e ↦ rw e (unfold read_decimal in ground arith, (refl, tt))
  | inr e ↦ rw e (
    read-reverse_onto [] (digits value value)
        ∙ (unfold read_decimal in low_first-digits value value (omega arith)),
    reverse_onto-All [] (digits value value) tt (digits-IsDigit value value),
  )
]
