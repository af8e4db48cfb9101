-- ===== src/Wire/Decode/Changes.antt =====
-- The strategy changes of an intent: the first sixteen distinct ones that this build can carry out.
use mathlib.Core.List.{append-nil, append_assoc}
use twow_repo.Base.{
  ℕ, zero, suc, ◌≤◌, ◌<◌, Bool, true, false, ◌||◌, List, [], ◌∷◌, ◌++◌, ◌≡◌, refl, sym, ap, ◌∙◌,
  arith, inl, inr, leb, if◌then◌else◌, Bool-cases, bytes_eq_iff, any, filter, map, length,
  length-append, take, All, All-append,
}
use twow_repo.Wire.Vocabulary.{is_known_bot_state}
use twow_repo.Wire.Text.{is_possible_strategy_name}
use twow_repo.Wire.Json.{Json}
use twow_repo.Wire.Types.{StrategyChange}
use twow_repo.Wire.Decode.{
  max_strategy_changes, read_change, is_usable_change, same_target, read_changes,
}

-- The changes that no earlier one, in `seen` or in the list, has the name and state of.
unfoldable pub first_of_target : List StrategyChange → List StrategyChange → List StrategyChange
first_of_target seen [] = []
first_of_target seen (c ∷ cs) =
    if any (λ s. same_target s c) seen
    then first_of_target seen cs
    else c ∷ first_of_target (seen ++ c ∷ []) cs

-- The usable entries of the array.
abbrev pub usable : List Json → List StrategyChange
usable cs = map read_change (filter is_usable_change cs)

take_all {ℓ} : {A : Type ℓ} (n : ℕ) (xs : List A) → length xs ≤ n → take n xs ≡ xs
take_all zero [] h = refl
take_all zero (x ∷ xs) h = absurd (omega arith)
take_all (suc n) [] h = refl
take_all (suc n) (x ∷ xs) h = ap (◌∷◌ x) (take_all n xs (omega arith))

take_front {ℓ} : {A : Type ℓ} (n : ℕ) (xs ys : List A) → length xs ≡ n → take n (xs ++ ys) ≡ xs
take_front zero [] ys h = refl
take_front zero (x ∷ xs) ys h = absurd (omega arith)
take_front (suc n) [] ys h = absurd (omega arith)
take_front (suc n) (x ∷ xs) ys h = ap (◌∷◌ x) (take_front n xs ys (omega arith))

read_changes-take :
    (seen : List StrategyChange) (cs : List Json)
    → length seen ≤ max_strategy_changes
    → read_changes seen cs ≡ take max_strategy_changes (seen ++ first_of_target seen (usable cs))
unfolding read_changes first_of_target
read_changes-take seen [] h = sym (rw append-nil (take_all max_strategy_changes seen h))
read_changes-take seen (c ∷ cs) h = elim (Bool-cases (is_usable_change c)) [
  | inr e ↦ rw e (read_changes-take seen cs h)
  | inl e ↦ elim (Bool-cases (leb max_strategy_changes (length seen))) [
    | inl full ↦ rw (e, full) (sym (take_front max_strategy_changes seen _ (ground arith)))
    | inr room ↦ elim (Bool-cases (any (λ s. same_target s (read_change c)) seen)) [
      | inl old ↦ rw (e, room, old) (read_changes-take seen cs h)
      | inr new ↦
          rw (e, room, new)
            (read_changes-take (seen ++ read_change c ∷ []) cs
                (rw (length-append seen (read_change c ∷ [])) (ground arith))
              ∙ ap (take max_strategy_changes) (
                  append_assoc seen (read_change c ∷ [])
                    (first_of_target (seen ++ read_change c ∷ []) (usable cs))))
    ]
  ]
]

-- The strategies of an intent are the first sixteen of the usable changes, each name and state
-- taken where it comes first.
pub read_changes-first :
    (cs : List Json)
    → read_changes [] cs ≡ take max_strategy_changes (first_of_target [] (usable cs))
read_changes-first cs = read_changes-take [] cs (omega arith)

-- No two entries have one name and state.
abbrev pub HasNoTwin : List StrategyChange → Type 0
HasNoTwin [] = Unit {0}
HasNoTwin (c ∷ cs) = (any (λ s. same_target s c) cs ≡ false) × HasNoTwin cs

-- A change that can be carried out.
abbrev pub IsUsable : StrategyChange → Type 0
IsUsable c = (is_possible_strategy_name c.name ≡ true) × (is_known_bot_state c.state ≡ true)

pub record AreStrategies (cs : List StrategyChange) : Type 0 where
  pub within_limit : length cs ≤ max_strategy_changes
  pub can_be_done : All IsUsable cs
  pub no_twin : HasNoTwin cs

same_target_sym : (x y : StrategyChange) → same_target x y ≡ same_target y x
same_target_sym x y = ground (
  arith,
  bytes_eq_iff x.name y.name,
  bytes_eq_iff y.name x.name,
  bytes_eq_iff x.state y.state,
  bytes_eq_iff y.state x.state,
)

any-concat :
    (p : StrategyChange → Bool) (cs : List StrategyChange) (c : StrategyChange)
    → any p (cs ++ c ∷ []) ≡ (any p cs || p c)
any-concat p [] c = ground arith
any-concat p (d ∷ cs) c = ground (arith, any-concat p cs c)

HasNoTwin-concat :
    (cs : List StrategyChange) (c : StrategyChange)
    → any (λ s. same_target s c) cs ≡ false
    → HasNoTwin cs
    → HasNoTwin (cs ++ c ∷ [])
HasNoTwin-concat [] c h d = (refl, tt)
HasNoTwin-concat (x ∷ cs) c h d = (
  ground (arith, any-concat (λ s. same_target s x) cs c, same_target_sym c x),
  HasNoTwin-concat cs c (ground arith) d.1,
)

read_changes-AreStrategies :
    (seen : List StrategyChange) (cs : List Json)
    → AreStrategies seen
    → AreStrategies (read_changes seen cs)
unfolding read_changes
read_changes-AreStrategies seen [] a = a
read_changes-AreStrategies seen (c ∷ cs) a = elim (Bool-cases (is_usable_change c)) [
  | inr e ↦ rw e (read_changes-AreStrategies seen cs a)
  | inl e ↦ elim (Bool-cases (leb max_strategy_changes (length seen))) [
    | inl full ↦ rw (e, full) a
    | inr room ↦ elim (Bool-cases (any (λ s. same_target s (read_change c)) seen)) [
      | inl old ↦ rw (e, room, old) (read_changes-AreStrategies seen cs a)
      | inr new ↦
          rw (e, room, new)
            (read_changes-AreStrategies (seen ++ read_change c ∷ []) cs
              (pushed seen c a e room new))
    ]
  ]
]
  where
    pushed :
        (xs : List StrategyChange) (d : Json)
        → AreStrategies xs
        → is_usable_change d ≡ true
        → leb max_strategy_changes (length xs) ≡ false
        → any (λ s. same_target s (read_change d)) xs ≡ false
        → AreStrategies (xs ++ read_change d ∷ [])
    pushed xs d b e room new = record {
      within_limit =
          omega (arith, length-append xs (read_change d ∷ []), not_full (length xs) room);
      can_be_done =
          All-append IsUsable xs (read_change d ∷ []) b.can_be_done (usable_parts d e, tt);
      no_twin = HasNoTwin-concat xs (read_change d) new b.no_twin;
    }
      where
        not_full : (n : ℕ) → leb max_strategy_changes n ≡ false → n < 16
        not_full n h = ground arith

        usable_parts : (x : Json) → is_usable_change x ≡ true → IsUsable (read_change x)
        usable_parts x h = unfold is_usable_change in ground arith

-- Whatever the array holds, at most sixteen changes are taken, all usable, no two of one target.
pub read_changes_sound : (cs : List Json) → AreStrategies (read_changes [] cs)
read_changes_sound cs =
    read_changes-AreStrategies [] cs
      (record { within_limit = omega arith; can_be_done = tt; no_twin = tt })
