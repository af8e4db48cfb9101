-- ===== src/Personality/Policy/Profiles/Built.antt =====
-- `BuildProfile` from request to profile.
use twow_repo.Base.{
  true, false, not, ◌&&◌, List, [], ◌∷◌, none, ◌≡◌, ◌≢◌, refl, ◌∙◌, arith, inl, inr, Bool-cases,
  Bytes, bytes_eq, contains, any, All,
}
use twow_repo.Base.Sort.{IsAscending, All-sort}
use twow_repo.Personality.Catalog.{ConflictPair, conflicts}
use twow_repo.Personality.Policy.{Request, Draw, Trait}
use twow_repo.Personality.Policy.Draws.{initial_draws}
use twow_repo.Personality.Policy.Draws.Sources.{initial_draws-IsSound}
use twow_repo.Personality.Policy.Resolve.{
  resolve, selection_contains, both_held, losing_side, is_locked,
}
use twow_repo.Personality.Policy.Resolve.Erase.{IsSound}
use twow_repo.Personality.Policy.Resolve.Settled.{IsSettled, resolve-IsSettled, resolve-IsSound}
use twow_repo.Personality.Policy.Profiles.{build_profile, merge_draws, trait_lt, has_trait}
use twow_repo.Personality.Policy.Profiles.Merged.{find_trait, holders, expected, find_trait-merged}
use twow_repo.Personality.Policy.Profiles.Ordered.{
  merge_draws-IsDistinct, sorted-IsAscending, find_trait-sort, IsWellFormed,
  merge_draws-IsWellFormed,
}

-- The draws of a request after the conflicts are resolved.
abbrev pub final_draws : Request → List Draw
final_draws request = resolve request (initial_draws request)

final_draws-IsSound : (request : Request) → All IsSound (final_draws request)
final_draws-IsSound request =
    resolve-IsSound request (initial_draws request) (initial_draws-IsSound request)

-- For every request and key, the profile has just the trait that the final draws holding the key
-- make up: the greatest of their strengths, and an origin for each of them.
pub find_trait-build_profile :
    (request : Request) (k : Bytes)
    → find_trait k (build_profile request).traits ≡ expected k (holders k (final_draws request))
unfolding build_profile
find_trait-build_profile request k =
    find_trait-sort k (merge_draws [] (final_draws request))
      (merge_draws-IsDistinct [] (final_draws request) tt)
    ∙ find_trait-merged k (final_draws request) (final_draws-IsSound request)

-- The traits of every profile stand in strictly ascending order of their keys, each with a strength
-- from 20 to 80 and at least one origin.
pub build_profile-IsAscending :
    (request : Request)
    → IsAscending trait_lt (build_profile request).traits
      × All IsWellFormed (build_profile request).traits
unfolding build_profile
build_profile-IsAscending request = (
  sorted-IsAscending (merge_draws [] (final_draws request))
      (merge_draws-IsDistinct [] (final_draws request) tt),
  All-sort trait_lt IsWellFormed (merge_draws [] (final_draws request))
      (merge_draws-IsWellFormed [] (final_draws request) tt),
)

has_find :
    (k : Bytes) (ts : List Trait)
    → any (λ (t : Trait). bytes_eq t.key k) ts ≡ true
    → find_trait k ts ≢ none
unfolding find_trait
has_find k [] h = cc
has_find k (t ∷ ts) h = ground (arith, has_find k ts)

held_of_holders :
    (k : Bytes) (draws : List Draw)
    → expected k (holders k draws) ≢ none
    → selection_contains draws k ≡ true
unfolding expected holders selection_contains
held_of_holders k [] h = absurd (h refl)
held_of_holders k (d ∷ ds) h = elim (Bool-cases (contains d.chosen k)) [
  | inl e ↦ ground arith
  | inr e ↦ ground (arith, held_of_holders k ds (rw e at h))
]

-- A trait of the profile is held by a final draw.
pub has_trait-held :
    (request : Request) (k : Bytes)
    → has_trait (build_profile request) k ≡ true
    → selection_contains (final_draws request) k ≡ true
unfolding has_trait
has_trait-held request k h =
    held_of_holders k (final_draws request)
      (rw (find_trait-build_profile request k) at (has_find k (build_profile request).traits h))

-- One side of the pair is missing, or its losing side is a locked manual trait.
abbrev pub KeepsPeace : Request → ConflictPair → Type 0
KeepsPeace request p =
    (has_trait (build_profile request) p.a
      && has_trait (build_profile request) p.b
      && not (is_locked request.manual (losing_side request (final_draws request) p)))
    ≡ false

settled-KeepsPeace :
    (request : Request) (ps : List ConflictPair)
    → All (IsSettled request (final_draws request)) ps
    → All (KeepsPeace request) ps
unfolding both_held
settled-KeepsPeace request [] s = tt
settled-KeepsPeace request (p ∷ ps) s = (
  ground (arith, s.0, has_trait-held request p.a, has_trait-held request p.b),
  settled-KeepsPeace request ps s.1,
)

-- For every request and every pair of the conflict table, both sides stand in the profile only if
-- the side that loses is a manual trait that the request locks.
pub build_profile-KeepsPeace : (request : Request) → All (KeepsPeace request) conflicts
build_profile-KeepsPeace request =
    settled-KeepsPeace request conflicts
      (resolve-IsSettled request (initial_draws request) (initial_draws-IsSound request))
