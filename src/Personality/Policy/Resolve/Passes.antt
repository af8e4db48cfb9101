-- ===== src/Personality/Policy/Resolve/Passes.antt =====
-- One pass of the loop: the loser is gone, and no pair of the table is newly held.
use mathlib.Core.Bool.{false≢true}
use mathlib.Core.List.{append_assoc, append-nil}
use twow_repo.Base.{
  true, false, ◌||◌, List, [], ◌∷◌, ◌++◌, some, ◌≡◌, refl, sym, ◌∙◌, arith, inl, inr, Bool-cases,
  Option-cases, Bytes, bytes_eq, bytes_eq_iff, contains, any, any-append, All, All-append,
}
use twow_repo.Personality.Catalog.{ConflictPair, conflicts}
use twow_repo.Personality.Policy.{Draw, in_conflict, matches_pair}
use twow_repo.Personality.Policy.Resolve.{
  selection_contains, both_held, erase_first, is_clean, refill, drop_loser,
}
use twow_repo.Personality.Policy.Resolve.Erase.{
  IsSound, erased, candidate, revised, revised-IsSound, replacement-suits, contains-erase_first,
  erase_first-gone, suits,
}

-- The two sides of a pair differ, and are in conflict either way round.
abbrev pub IsPair : ConflictPair → Type 0
IsPair p = (bytes_eq p.a p.b ≡ false) × (in_conflict p.a p.b ≡ true) × (in_conflict p.b p.a ≡ true)

pub conflicts-IsPair : All IsPair conflicts
unfolding in_conflict matches_pair conflicts bytes_eq
conflicts-IsPair = (
  (refl, refl, refl),
  (
    (refl, refl, refl),
    ((refl, refl, refl), ((refl, refl, refl), ((refl, refl, refl), ((refl, refl, refl), tt)))),
  ),
)

clean_any :
    (c k : Bytes) (held : List Bytes)
    → any (λ h. in_conflict c h) held ≡ false
    → contains held k ≡ true
    → in_conflict c k ≡ false
unfolding contains
clean_any c k [] h e = ground arith
clean_any c k (x ∷ held) h e = elim (Bool-cases (bytes_eq x k)) [
  | inl q ↦ subst' ((bytes_eq_iff x k).0 q) (ground arith)
  | inr q ↦ clean_any c k held (ground arith) (ground arith)
]
  where
    subst' : x ≡ k → in_conflict c x ≡ false → in_conflict c k ≡ false
    subst' p r = rw (← p) r

-- What is clean has no conflict with anything held.
clean_selection :
    (c k : Bytes) (draws : List Draw)
    → any (λ (d : Draw). any (λ h. in_conflict c h) d.chosen) draws ≡ false
    → selection_contains draws k ≡ true
    → in_conflict c k ≡ false
unfolding selection_contains
clean_selection c k [] h e = ground arith
clean_selection c k (d ∷ draws) h e = elim (Bool-cases (contains d.chosen k)) [
  | inl q ↦ clean_any c k d.chosen (ground arith) q
  | inr q ↦ clean_selection c k draws (ground arith) (ground arith)
]

contains-concat :
    (xs : List Bytes) (y k : Bytes) → contains (xs ++ y ∷ []) k ≡ (contains xs k || bytes_eq y k)
unfolding contains
contains-concat [] y k = ground arith
contains-concat (x ∷ xs) y k = ground (arith, contains-concat xs y k)

pub selection_contains-append :
    (xs ys : List Draw) (k : Bytes)
    → selection_contains (xs ++ ys) k ≡ (selection_contains xs k || selection_contains ys k)
unfolding selection_contains
selection_contains-append xs ys k = any-append _ xs ys

module _ (loser : Bytes) (front : List Draw) (draw : Draw) (draws : List Draw) where
  abbrev before : List Draw
  before = front ++ draw ∷ draws

  abbrev between : List Draw
  between = front ++ erased loser front draw draws ∷ draws

  abbrev after : List Draw
  after = front ++ revised loser front draw draws ∷ draws

  selection-between :
      (k : Bytes) → selection_contains between k ≡ true → selection_contains before k ≡ true
  unfolding selection_contains
  selection-between k h = ground (
    arith,
    any-append (λ (d : Draw). contains d.chosen k) front (erased loser front draw draws ∷ draws),
    any-append (λ (d : Draw). contains d.chosen k) front (draw ∷ draws),
    contains-erase_first loser k draw.chosen,
  )

selection-filled :
    (front : List Draw) (d : Draw) (draws : List Draw) (c k : Bytes)
    → selection_contains (front ++ refill d (some c) ∷ draws) k
      ≡ (selection_contains (front ++ d ∷ draws) k || bytes_eq c k)
unfolding selection_contains refill
selection-filled [] d draws c k = ground (arith, contains-concat d.chosen c k)
selection-filled (f ∷ front) d draws c k = ground (arith, selection-filled front d draws c k)

-- A clean candidate makes no pair of the table newly held.
filled-both_held :
    (loser : Bytes) (front : List Draw) (d : Draw) (draws : List Draw) (c : Bytes)
    (p : ConflictPair)
    → IsPair p
    → suits loser (front ++ d ∷ draws) c ≡ true
    → both_held (front ++ refill d (some c) ∷ draws) p ≡ true
    → both_held (front ++ d ∷ draws) p ≡ true
unfolding both_held is_clean
filled-both_held loser front d draws c p is s h =
    let whole = front ++ d ∷ draws in
    let side_a : (bytes_eq c p.a ≡ true) → in_conflict c p.b ≡ true =
      λ e. rw ((bytes_eq_iff c p.a).0 e) is.1 in
    let side_b : (bytes_eq c p.b ≡ true) → in_conflict c p.a ≡ true =
      λ e. rw ((bytes_eq_iff c p.b).0 e) is.2 in
    let twice : bytes_eq c p.a ≡ true → bytes_eq c p.b ≡ true → ⊥ = λ e q. false≢true (
      sym is.0
      ∙ (bytes_eq_iff p.a p.b).1 (sym ((bytes_eq_iff c p.a).0 e) ∙ (bytes_eq_iff c p.b).0 q)) in
    ground (
      arith,
      selection-filled front d draws c p.a,
      selection-filled front d draws c p.b,
      clean_selection c p.a whole,
      clean_selection c p.b whole,
      side_a,
      side_b,
      twice,
    )

filled-gone :
    (loser : Bytes) (draw : Draw) (whole : List Draw) (c : Bytes)
    → IsSound draw
    → suits loser whole c ≡ true
    → contains (erase_first loser draw.chosen ++ c ∷ []) loser ≡ false
filled-gone loser draw whole c s q = ground (
  arith,
  contains-concat (erase_first loser draw.chosen) c loser,
  erase_first-gone loser draw.chosen s.different,
)

module _ (loser : Bytes) (front : List Draw) (draw : Draw) (draws : List Draw) where
  between-both_held :
      (p : ConflictPair)
      → both_held (between loser front draw draws) p ≡ true
      → both_held (before loser front draw draws) p ≡ true
  unfolding both_held
  between-both_held p h = ground (
    arith,
    selection-between loser front draw draws p.a,
    selection-between loser front draw draws p.b,
  )

  -- Whatever the pass does to one draw, no pair of the table is newly held.
  after-both_held :
      (p : ConflictPair)
      → IsPair p
      → both_held (after loser front draw draws) p ≡ true
      → both_held (before loser front draw draws) p ≡ true
  after-both_held p is h = elim (Bool-cases (contains draw.chosen loser)) [
    | inr e ↦ rw e at h
    | inl held ↦ between-both_held p (elim (Option-cases (candidate loser front draw draws)) [
      | inr (c, e) ↦
          filled-both_held loser front (erased loser front draw draws) draws c p is
            (replacement-suits loser _ draw.ranked c e).1 (rw (held, e) at h)
      | inl e ↦ unfold refill in rw (held, e) at h
    ])
  ]

  revised-gone : IsSound draw → contains (revised loser front draw draws).chosen loser ≡ false
  revised-gone s = elim (Bool-cases (contains draw.chosen loser)) [
    | inr e ↦ rw e e
    | inl held ↦ rw held (elim (Option-cases (candidate loser front draw draws)) [
      | inr (c, e) ↦ rw e (
          unfold refill in
          filled-gone loser draw _ c s (replacement-suits loser _ draw.ranked c e).1)
      | inl e ↦ rw e (unfold refill in erase_first-gone loser draw.chosen s.different)
    ])
  ]

-- The draws of a pass are sound where those before it were.
pub drop_loser-IsSound :
    (loser : Bytes) (front draws : List Draw)
    → All IsSound front
    → All IsSound draws
    → All IsSound (drop_loser loser front draws)
unfolding drop_loser
drop_loser-IsSound loser front [] f d = f
drop_loser-IsSound loser front (draw ∷ draws) f d =
    drop_loser-IsSound loser (front ++ revised loser front draw draws ∷ []) draws
      (All-append IsSound front _ f (revised-IsSound loser front draw draws d.0, tt)) d.1

-- After a pass no draw holds the loser.
pub drop_loser-gone :
    (loser : Bytes) (front draws : List Draw)
    → selection_contains front loser ≡ false
    → All IsSound draws
    → selection_contains (drop_loser loser front draws) loser ≡ false
unfolding drop_loser
drop_loser-gone loser front [] f d = f
drop_loser-gone loser front (draw ∷ draws) f d =
    drop_loser-gone loser (front ++ revised loser front draw draws ∷ []) draws
      (rw (selection_contains-append front (revised loser front draw draws ∷ []) loser, f)
        (one (revised-gone loser front draw draws d.0)))
      d.1
  where
    one :
        contains (revised loser front draw draws).chosen loser ≡ false
        → selection_contains (revised loser front draw draws ∷ []) loser ≡ false
    one e = unfold selection_contains in ground arith

-- A pair of the table that is held after a pass was held before.
pub drop_loser-both_held :
    (loser : Bytes) (front draws : List Draw) (p : ConflictPair)
    → IsPair p
    → both_held (drop_loser loser front draws) p ≡ true
    → both_held (front ++ draws) p ≡ true
unfolding drop_loser
drop_loser-both_held loser front [] p is h = rw append-nil h
drop_loser-both_held loser front (draw ∷ draws) p is h =
    after-both_held loser front draw draws p is (
      rw append_assoc at
        (drop_loser-both_held loser (front ++ revised loser front draw draws ∷ []) draws p is h))
