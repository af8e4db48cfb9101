-- ===== src/Wire/Text/Strategy.antt =====
-- The names that `IsPossibleStrategyName` accepts, as a grammar.
use twow_repo.Base.{
  ℕ, ◌≤◌, true, false, [], ◌∷◌, ◌≡◌, refl, ◌∙◌, ◌↔◌, arith, inl, inr, Bool-cases, Bytes, length,
  is_empty,
}
use twow_repo.Wire.Text.{
  is_alnum, starts_with_byte, ends_with_byte, strategy_bytes, is_possible_strategy_name,
}

-- Letters and digits, with a single space between two of them now and then.
pub data IsWords : Bytes → Type 0 where
  last : {c : ℕ} → is_alnum c ≡ true → IsWords (c ∷ [])
  letter : {c : ℕ} {cs : Bytes} → is_alnum c ≡ true → IsWords cs → IsWords (c ∷ cs)
  space : {c s : ℕ} {cs : Bytes} → is_alnum c ≡ true → s ≡ b' ' → IsWords cs → IsWords (c ∷ s ∷ cs)

bytes-IsWords :
    (c : ℕ) (cs : Bytes)
    → is_alnum c ≡ true
    → ends_with_byte b' ' (c ∷ cs) ≡ false
    → strategy_bytes false cs ≡ true
    → IsWords (c ∷ cs)
unfolding strategy_bytes
bytes-IsWords c [] a e h = last a
bytes-IsWords c (d ∷ []) a e h = letter a (last (ground arith))
bytes-IsWords c (d ∷ f ∷ fs) a e h = elim (Bool-cases (is_alnum d)) [
  | inl q ↦ letter a (bytes-IsWords d (f ∷ fs) q e (ground arith))
  | inr q ↦ space a (ground arith) (bytes-IsWords f fs (ground arith) e (ground arith))
]

ends_with-cons :
    (c : ℕ) (cs : Bytes)
    → is_empty cs ≡ false
    → ends_with_byte b' ' (c ∷ cs) ≡ ends_with_byte b' ' cs
ends_with-cons c [] h = cc
ends_with-cons c (d ∷ cs) h = refl

IsWords-bytes :
    {cs : Bytes}
    → IsWords cs
    → (strategy_bytes false cs ≡ true)
      × (starts_with_byte b' ' cs ≡ false)
      × (ends_with_byte b' ' cs ≡ false)
      × (is_empty cs ≡ false)
      × (strategy_bytes true cs ≡ true)
unfolding strategy_bytes
IsWords-bytes (last a) = (ground arith, ground arith, ground arith, refl, ground arith)
IsWords-bytes (letter {c} {cs} a w) =
    let (h, s, e, n, k) = IsWords-bytes w in
    (ground arith, ground arith, ends_with-cons c cs n ∙ e, refl, ground arith)
IsWords-bytes (space {c} {s} {cs} a q w) =
    let (h, s', e, n, k) = IsWords-bytes w in
    (ground arith, ground arith, ends_with-cons s cs n ∙ e, refl, ground arith)

-- A name is accepted exactly where it is words of letters and digits joined by single spaces, and
-- of at most 64 bytes.
pub is_possible_strategy_name_iff :
    (name : Bytes) → (is_possible_strategy_name name ≡ true) ↔ (IsWords name × (length name ≤ 64))
unfolding is_possible_strategy_name
is_possible_strategy_name_iff [] = (λ h. cc, λ w. absurd (not_nil w.0 refl))
  where
    not_nil : {cs : Bytes} → IsWords cs → cs ≡ [] → ⊥
    not_nil (last a) e = cc
    not_nil (letter a w) e = cc
    not_nil (space a q w) e = cc
is_possible_strategy_name_iff (c ∷ cs) = (
  λ h. (bytes-IsWords c cs (first c cs h) (ground arith) (inner c cs h), ground arith),
  λ (w, le). let (h, s, e, n, k) = IsWords-bytes w in ground arith,
)
  where
    first : (d : ℕ) (ds : Bytes) → is_possible_strategy_name (d ∷ ds) ≡ true → is_alnum d ≡ true
    first d ds h = unfold strategy_bytes in ground arith

    inner :
        (d : ℕ) (ds : Bytes)
        → is_possible_strategy_name (d ∷ ds) ≡ true
        → strategy_bytes false ds ≡ true
    inner d ds h = unfold strategy_bytes in ground arith
