-- ===== src/Personality/Policy/Resolve.antt =====
-- `BuildProfile`, section 9.2: the loop that resolves the hard conflicts.
pub mod Erase
pub mod Passes
pub mod Settled
use twow_repo.Base.{
  ℕ, zero, suc, Bool, true, false, not, ◌&&◌, ◌||◌, List, [], ◌∷◌, ◌++◌, Option, none, some, ltb,
  ◌==◌, if◌then◌else◌, Bytes, bytes_eq, bytes_lt, any, contains, find, replicate,
}
use twow_repo.Personality.Catalog.{ConflictPair, conflicts}
use twow_repo.Personality.Policy.{
  SourceType, profession, priority, ManualTrait, Request, Draw, stable_value, higher, in_conflict,
}

-- `selectionContains`.
unfoldable pub selection_contains : List Draw → Bytes → Bool
selection_contains draws key = any (λ (d : Draw). contains d.chosen key) draws

-- The three results of `rank`.
pub record Rank : Type 0 where
  pub source : SourceType
  pub strength : ℕ
  pub value : Bytes

-- The loop of `rank`; `none` is `!found`.
rank_onto : Request → Bytes → Option Rank → List Draw → Option Rank
rank_onto request key best [] = best
rank_onto request key best (draw ∷ draws) =
    let here : Rank = record {
      source = draw.source;
      strength = draw.strength;
      value = stable_value request.profile_version request.profile_seed draw.source draw.key key;
    } in
    let better : Bool = elim best [
      | none ↦ true
      | some r ↦
          ltb (priority draw.source) (priority r.source)
          || (priority draw.source == priority r.source && ltb r.strength draw.strength)
    ] in
    rank_onto request key (if contains draw.chosen key && better then some here else best) draws

-- What the variables hold before `rank` is called.
unranked : Rank
unranked = record { source = profession; strength = 0; value = replicate 32 0 }

rank_of : Request → List Draw → Bytes → Rank
unfolding rank_onto unranked
rank_of request draws key = elim (rank_onto request key none draws) [ none ↦ unranked | some r ↦ r ]

-- `aWins`.
unfoldable pub beats : Rank → Rank → Bytes → Bytes → Bool
beats x y a b =
    if not (priority x.source == priority y.source)
    then ltb (priority x.source) (priority y.source)
    else if not (x.strength == y.strength)
    then ltb y.strength x.strength
    else if not (bytes_eq x.value y.value)
    then higher x.value y.value
    else bytes_lt a b

-- The side of a pair that has to go.
unfoldable pub losing_side : Request → List Draw → ConflictPair → Bytes
unfolding rank_of beats
losing_side request draws pair =
    if beats (rank_of request draws pair.a) (rank_of request draws pair.b) pair.a pair.b
    then pair.b
    else pair.a

unfoldable pub is_locked : List ManualTrait → Bytes → Bool
is_locked ms key = any (λ (m : ManualTrait). m.locked && bytes_eq m.key key) ms

unfoldable pub both_held : List Draw → ConflictPair → Bool
both_held draws pair = selection_contains draws pair.a && selection_contains draws pair.b

-- The search for `loser` over the conflict table; `none` is the empty string.
unfoldable pub find_loser : Request → List Draw → List ConflictPair → Option Bytes
find_loser request draws [] = none
find_loser request draws (pair ∷ pairs) =
    if both_held draws pair && not (is_locked request.manual (losing_side request draws pair))
    then some (losing_side request draws pair)
    else find_loser request draws pairs

-- `draw.chosen.erase(at)` at the first occurrence.
unfoldable pub erase_first : Bytes → List Bytes → List Bytes
erase_first key [] = []
erase_first key (x ∷ xs) = if bytes_eq x key then xs else x ∷ erase_first key xs

-- No trait that any draw holds conflicts with the candidate.
unfoldable pub is_clean : List Draw → Bytes → Bool
is_clean draws candidate =
    not (any (λ (d : Draw). any (λ held. in_conflict candidate held) d.chosen) draws)

-- The first candidate of the pool that may replace the loser.
unfoldable pub replacement : Bytes → List Draw → List Bytes → Option Bytes
replacement loser draws ranked =
    find
      (λ candidate.
        not (bytes_eq candidate loser || selection_contains draws candidate)
        && is_clean draws candidate)
      ranked

unfoldable pub refill : Draw → Option Bytes → Draw
refill draw none = draw
refill draw (some candidate) = record draw { chosen = draw.chosen ++ candidate ∷ [] }

-- The loop over `draws`: those done, in front, and those to come.
unfoldable pub drop_loser : Bytes → List Draw → List Draw → List Draw
drop_loser loser front [] = front
drop_loser loser front (draw ∷ draws) =
    let erased : Draw = record draw { chosen = erase_first loser draw.chosen } in
    let filled = refill erased (replacement loser (front ++ erased ∷ draws) draw.ranked) in
    drop_loser loser (front ++ (if contains draw.chosen loser then filled else draw) ∷ []) draws

-- `for (pass = 0; pass < 64; ++pass)`, with the passes left.
unfoldable pub passes : ℕ → Request → List Draw → List Draw
passes zero request draws = draws
passes (suc n) request draws = elim (find_loser request draws conflicts) [
  | none ↦ draws
  | some loser ↦ passes n request (drop_loser loser [] draws)
]

abbrev pub max_passes : ℕ
max_passes = 64

unfoldable pub resolve : Request → List Draw → List Draw
unfolding passes
resolve request draws = passes max_passes request draws
