-- ===== src/Personality/Policy/Profiles/Merged.antt =====
-- What the merge makes of the draws that hold a trait: the greatest strength, and every origin.
use mathlib.Core.List.{append-nil, append_assoc}
use twow_repo.Base.{
  ℕ, true, List, [], ◌∷◌, ◌++◌, Option, none, some, map, ◌≡◌, refl, ◌∙◌, arith, inl, inr,
  if◌then◌else◌, Bool-cases, Bytes, bytes_eq, bytes_eq_iff, contains, find, filter, max, All,
}
use twow_repo.Personality.Policy.{Trait, Draw}
use twow_repo.Personality.Policy.Resolve.Erase.{IsDistinct, IsSound}
use twow_repo.Personality.Policy.Profiles.{
  origin_of, strength_of, merge_trait, merge_chosen, merge_draws,
}

-- The trait of that key.
unfoldable pub find_trait : Bytes → List Trait → Option Trait
find_trait key ts = find (λ (t : Trait). bytes_eq t.key key) ts

-- The draws that hold a key.
unfoldable pub holders : Bytes → List Draw → List Draw
holders key draws = filter (λ (d : Draw). contains d.chosen key) draws

-- One more holder.
grow : Bytes → Draw → Option Trait → Trait
grow key draw none = record {
  key = key;
  strength = strength_of draw;
  origins = origin_of draw ∷ [];
}
grow key draw (some t) = record t {
  strength = max t.strength (strength_of draw);
  origins = t.origins ++ origin_of draw ∷ [];
}

find_trait-merge_trait :
    (draw : Draw) (j k : Bytes) (ts : List Trait)
    → find_trait k (merge_trait draw j ts)
      ≡ (if bytes_eq j k then some (grow j draw (find_trait j ts)) else find_trait k ts)
unfolding find_trait merge_trait grow
find_trait-merge_trait draw j k [] = refl
find_trait-merge_trait draw j k (t ∷ ts) = ground (
  arith,
  bytes_eq_iff j k,
  bytes_eq_iff t.key j,
  bytes_eq_iff t.key k,
  find_trait-merge_trait draw j k ts,
)

find_trait-merge_chosen :
    (draw : Draw) (k : Bytes) (ts : List Trait) (keys : List Bytes)
    → IsDistinct keys
    → find_trait k (merge_chosen draw ts keys)
      ≡ (if contains keys k then some (grow k draw (find_trait k ts)) else find_trait k ts)
unfolding merge_chosen contains
find_trait-merge_chosen draw k ts [] d = refl
find_trait-merge_chosen draw k ts (j ∷ keys) d = ground (
  arith,
  bytes_eq_iff j k,
  d.0,
  find_trait-merge_trait draw j k ts,
  find_trait-merge_chosen draw k (merge_trait draw j ts) keys d.1,
)

-- The trait after every holder.
grow_all : Bytes → Option Trait → List Draw → Option Trait
grow_all k best [] = best
grow_all k best (d ∷ ds) = grow_all k (some (grow k d best)) ds

find_trait-merge_draws :
    (k : Bytes) (ts : List Trait) (draws : List Draw)
    → All IsSound draws
    → find_trait k (merge_draws ts draws) ≡ grow_all k (find_trait k ts) (holders k draws)
unfolding merge_draws holders
find_trait-merge_draws k ts [] s = unfold grow_all in refl
find_trait-merge_draws k ts (d ∷ ds) s = elim (Bool-cases (contains d.chosen k)) [
  | inl e ↦
      find_trait-merge_draws k (merge_chosen d ts d.chosen) ds s.1
      ∙ held e (find_trait-merge_chosen d k ts d.chosen s.0.different)
  | inr e ↦
      find_trait-merge_draws k (merge_chosen d ts d.chosen) ds s.1
      ∙ rw (find_trait-merge_chosen d k ts d.chosen s.0.different, e)
]
  where
    held :
        contains d.chosen k ≡ true
        → find_trait k (merge_chosen d ts d.chosen)
          ≡ (if contains d.chosen k then some (grow k d (find_trait k ts)) else find_trait k ts)
        → grow_all k
            (find_trait k (merge_chosen d ts d.chosen))
            (filter (λ (x : Draw). contains x.chosen k) ds)
          ≡ grow_all k (find_trait k ts) (
              if contains d.chosen k
              then d ∷ filter (λ (x : Draw). contains x.chosen k) ds
              else filter (λ (x : Draw). contains x.chosen k) ds)
    held e q = rw (q, e) (unfold grow_all in refl)

-- The greatest strength among draws.
unfoldable pub top_strength : ℕ → List Draw → ℕ
top_strength best [] = best
top_strength best (d ∷ ds) = top_strength (max best (strength_of d)) ds

-- The trait that some holders make up; nobody's trait is none.
unfoldable pub expected : Bytes → List Draw → Option Trait
expected k [] = none
expected k (d ∷ ds) = some (record {
  key = k;
  strength = top_strength (strength_of d) ds;
  origins = map origin_of (d ∷ ds);
})

grow_all-some :
    (k : Bytes) (t : Trait) (ds : List Draw)
    → grow_all k (some t) ds
      ≡ some (record t {
        strength = top_strength t.strength ds;
        origins = t.origins ++ map origin_of ds;
      })
unfolding grow_all top_strength
grow_all-some k t [] = rw append-nil
grow_all-some k t (d ∷ ds) =
    grow_all-some k (grow k d (some t)) ds
    ∙ unfold grow in rw (append_assoc t.origins (origin_of d ∷ []) (map origin_of ds))

grow_all-expected : (k : Bytes) (ds : List Draw) → grow_all k none ds ≡ expected k ds
unfolding expected
grow_all-expected k [] = unfold grow_all in refl
grow_all-expected k (d ∷ ds) = unfold grow_all grow in grow_all-some k (grow k d none) ds

-- The merge leaves, for each key, exactly what the draws that hold it make up: the greatest of
-- their strengths, and an origin for each of them, in order.
pub find_trait-merged :
    (k : Bytes) (draws : List Draw)
    → All IsSound draws
    → find_trait k (merge_draws [] draws) ≡ expected k (holders k draws)
find_trait-merged k draws s =
    find_trait-merge_draws k [] draws s
    ∙ (unfold find_trait in grow_all-expected k (holders k draws))
