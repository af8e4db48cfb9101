-- ===== src/Personality/Policy/Resolve/Settled.antt =====
-- The loop ends by its break, never by the cap of 64 passes, and what it leaves is settled.
use twow_repo.Base.{
  ℕ, zero, suc, ◌+◌, ◌≤◌, ◌<◌, false, not, ◌&&◌, List, [], ◌∷◌, none, some, ◌≡◌, refl, arith, inl,
  inr, if◌then◌else◌, Bool-cases, Option-cases, Bytes, All, length,
}
use twow_repo.Personality.Catalog.{ConflictPair, conflicts}
use twow_repo.Personality.Policy.{Draw, Request}
use twow_repo.Personality.Policy.Resolve.{
  selection_contains, both_held, losing_side, is_locked, find_loser, drop_loser, passes, max_passes,
  resolve,
}
use twow_repo.Personality.Policy.Resolve.Erase.{IsSound}
use twow_repo.Personality.Policy.Resolve.Passes.{
  IsPair, conflicts-IsPair, drop_loser-IsSound, drop_loser-gone, drop_loser-both_held,
}

-- How many pairs of the table are held.
held_pairs : List Draw → List ConflictPair → ℕ
held_pairs draws [] = 0
held_pairs draws (p ∷ ps) = (if both_held draws p then 1 else 0) + held_pairs draws ps

held_pairs-le : (draws : List Draw) (ps : List ConflictPair) → held_pairs draws ps ≤ length ps
unfolding held_pairs
held_pairs-le draws [] = omega arith
held_pairs-le draws (p ∷ ps) = ground (arith, held_pairs-le draws ps)

held_pairs-drop_loser :
    (loser : Bytes) (draws : List Draw) (ps : List ConflictPair)
    → All IsPair ps
    → held_pairs (drop_loser loser [] draws) ps ≤ held_pairs draws ps
unfolding held_pairs
held_pairs-drop_loser loser draws [] is = omega arith
held_pairs-drop_loser loser draws (p ∷ ps) is =
    ground
      (arith, drop_loser-both_held loser [] draws p is.0, held_pairs-drop_loser loser draws ps is.1)

losing_side_not_held :
    (request : Request) (draws after : List Draw) (p : ConflictPair)
    → selection_contains after (losing_side request draws p) ≡ false
    → both_held after p ≡ false
unfolding losing_side both_held
losing_side_not_held request draws after p h = ground arith

-- A pass that drops a loser leaves fewer pairs held.
held_pairs-lt :
    (request : Request) (loser : Bytes) (draws : List Draw) (ps : List ConflictPair)
    → All IsPair ps
    → All IsSound draws
    → find_loser request draws ps ≡ some loser
    → held_pairs (drop_loser loser [] draws) ps < held_pairs draws ps
unfolding held_pairs find_loser
held_pairs-lt request loser draws [] is s e = ground arith
held_pairs-lt request loser draws (p ∷ ps) is s e =
    elim (Bool-cases
      (both_held draws p && not (is_locked request.manual (losing_side request draws p)))) [
        | inl hit ↦ ground (
          arith,
          losing_side_not_held request draws (drop_loser loser [] draws) p,
          drop_loser-gone loser [] draws (unfold selection_contains in refl) s,
          held_pairs-drop_loser loser draws ps is.1,
        )
        | inr miss ↦ ground (
          arith,
          drop_loser-both_held loser [] draws p is.0,
          held_pairs-lt request loser draws ps is.1 s,
        )
      ]

none_held :
    (request : Request) (draws : List Draw) (ps : List ConflictPair)
    → held_pairs draws ps ≡ 0
    → find_loser request draws ps ≡ none
unfolding held_pairs find_loser
none_held request draws [] h = refl
none_held request draws (p ∷ ps) h = ground (arith, none_held request draws ps)

passes-find_loser :
    (n : ℕ) (request : Request) (draws : List Draw)
    → All IsSound draws
    → held_pairs draws conflicts ≤ n
    → find_loser request (passes n request draws) conflicts ≡ none
unfolding passes
passes-find_loser zero request draws s h = none_held request draws conflicts (omega arith)
passes-find_loser (suc n) request draws s h =
    elim (Option-cases (find_loser request draws conflicts)) [
      | inl e ↦ rw (e, passes) e
      | inr (loser, e) ↦
          rw (e, passes)
            (passes-find_loser n request (drop_loser loser [] draws)
              (drop_loser-IsSound loser [] draws tt s)
              (omega (arith, held_pairs-lt request loser draws conflicts conflicts-IsPair s e)))
    ]

passes-IsSound :
    (n : ℕ) (request : Request) (draws : List Draw)
    → All IsSound draws
    → All IsSound (passes n request draws)
unfolding passes
passes-IsSound zero request draws s = s
passes-IsSound (suc n) request draws s = elim (Option-cases (find_loser request draws conflicts)) [
  | inl e ↦ rw (e, passes) s
  | inr (loser, e) ↦
      rw (e, passes)
        (passes-IsSound n request (drop_loser loser [] draws)
          (drop_loser-IsSound loser [] draws tt s))
]

-- The pair is not held, or its losing side is a locked manual trait.
abbrev pub IsSettled : Request → List Draw → ConflictPair → Type 0
IsSettled request draws p =
    (both_held draws p && not (is_locked request.manual (losing_side request draws p))) ≡ false

find_loser-IsSettled :
    (request : Request) (draws : List Draw) (ps : List ConflictPair)
    → find_loser request draws ps ≡ none
    → All (IsSettled request draws) ps
unfolding find_loser
find_loser-IsSettled request draws [] e = tt
find_loser-IsSettled request draws (p ∷ ps) e =
    (ground arith, find_loser-IsSettled request draws ps (ground arith))

length-conflicts : length conflicts ≡ 6
unfolding conflicts
length-conflicts = refl

-- If every draw is sound, then after the passes, of which there are at most 64, no loser is left:
-- of each pair of the table one side is not held, or its losing side is a locked manual trait.
pub resolve-IsSettled :
    (request : Request) (draws : List Draw)
    → All IsSound draws
    → All (IsSettled request (resolve request draws)) conflicts
unfolding resolve
resolve-IsSettled request draws s = find_loser-IsSettled request _ conflicts (
    passes-find_loser max_passes request draws s
      (omega (arith, held_pairs-le draws conflicts, length-conflicts)))

-- If every draw holds distinct traits of its pool and no more than its quota, every draw does so
-- after the conflicts are resolved.
pub resolve-IsSound :
    (request : Request) (draws : List Draw)
    → All IsSound draws
    → All IsSound (resolve request draws)
unfolding resolve
resolve-IsSound = passes-IsSound max_passes
