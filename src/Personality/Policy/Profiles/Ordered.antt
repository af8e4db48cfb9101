-- ===== src/Personality/Policy/Profiles/Ordered.antt =====
-- The merged traits have distinct keys, so sorting them by key gives one ascending list with the
-- same trait for each key.
use mathlib.Core.List.{concat-ne-nil}
use twow_repo.Base.{
  ◌≤◌, false, ◌||◌, List, [], ◌∷◌, some, map, ◌≡◌, ◌≢◌, refl, arith, inl, inr, if◌then◌else◌,
  Bool-cases, Bytes, bytes_eq, bytes_eq_iff, bytes_eq_sym, bytes_lt_total, bytes_lt_trans, contains,
  All,
}
use twow_repo.Base.Sort.{insert, sort, IsAscending, Comparable, AllComparable, sort-IsAscending}
use twow_repo.Personality.Policy.{Trait, Draw, clamp_strength}
use twow_repo.Personality.Policy.Resolve.Erase.{IsDistinct}
use twow_repo.Personality.Policy.Profiles.{
  merge_trait, merge_chosen, merge_draws, trait_lt, strength_of, origin_of,
}
use twow_repo.Personality.Policy.Profiles.Merged.{find_trait}

abbrev keys_of : List Trait → List Bytes
keys_of = map λ (t : Trait). t.key

contains-merge_trait :
    (draw : Draw) (j k : Bytes) (ts : List Trait)
    → contains (keys_of (merge_trait draw j ts)) k ≡ (bytes_eq j k || contains (keys_of ts) k)
unfolding contains merge_trait
contains-merge_trait draw j k [] = refl
contains-merge_trait draw j k (t ∷ ts) =
    ground (arith, bytes_eq_iff t.key j, bytes_eq_iff j k, contains-merge_trait draw j k ts)

merge_trait-IsDistinct :
    (draw : Draw) (j : Bytes) (ts : List Trait)
    → IsDistinct (keys_of ts)
    → IsDistinct (keys_of (merge_trait draw j ts))
unfolding merge_trait
merge_trait-IsDistinct draw j [] d = (unfold contains in refl, tt)
merge_trait-IsDistinct draw j (t ∷ ts) d = elim (Bool-cases (bytes_eq t.key j)) [
  | inl e ↦ rw e d
  | inr e ↦ rw e (
    ground (arith, contains-merge_trait draw j t.key ts, bytes_eq_sym j t.key, d.0),
    merge_trait-IsDistinct draw j ts d.1,
  )
]

merge_chosen-IsDistinct :
    (draw : Draw) (ts : List Trait) (keys : List Bytes)
    → IsDistinct (keys_of ts)
    → IsDistinct (keys_of (merge_chosen draw ts keys))
unfolding merge_chosen
merge_chosen-IsDistinct draw ts [] d = d
merge_chosen-IsDistinct draw ts (k ∷ keys) d =
    merge_chosen-IsDistinct draw (merge_trait draw k ts) keys (merge_trait-IsDistinct draw k ts d)

pub merge_draws-IsDistinct :
    (ts : List Trait) (draws : List Draw)
    → IsDistinct (keys_of ts)
    → IsDistinct (keys_of (merge_draws ts draws))
unfolding merge_draws
merge_draws-IsDistinct ts [] d = d
merge_draws-IsDistinct ts (w ∷ draws) d =
    merge_draws-IsDistinct (merge_chosen w ts w.chosen) draws
      (merge_chosen-IsDistinct w ts w.chosen d)

distinct-Comparable :
    (x : Trait) (ts : List Trait)
    → contains (keys_of ts) x.key ≡ false
    → Comparable trait_lt (λ a b c. bytes_lt_trans a.key b.key c.key) x ts
unfolding contains
distinct-Comparable x [] h = tt
distinct-Comparable x (y ∷ ys) h = (
  ground (arith, bytes_lt_total x.key y.key, bytes_eq_iff y.key x.key),
  distinct-Comparable x ys (ground arith),
)

distinct-AllComparable :
    (ts : List Trait)
    → IsDistinct (keys_of ts)
    → AllComparable trait_lt (λ a b c. bytes_lt_trans a.key b.key c.key) ts
distinct-AllComparable [] d = tt
distinct-AllComparable (t ∷ ts) d = (distinct-Comparable t ts d.0, distinct-AllComparable ts d.1)

-- Traits of distinct keys are sorted into strictly ascending keys.
pub sorted-IsAscending :
    (ts : List Trait) → IsDistinct (keys_of ts) → IsAscending trait_lt (sort trait_lt ts)
sorted-IsAscending ts d =
    sort-IsAscending trait_lt (λ a b c. bytes_lt_trans a.key b.key c.key) ts
      (distinct-AllComparable ts d)

find_trait-insert :
    (k : Bytes) (x : Trait) (xs : List Trait)
    → contains (keys_of xs) x.key ≡ false
    → find_trait k (insert trait_lt x xs) ≡ (if bytes_eq x.key k then some x else find_trait k xs)
unfolding find_trait insert contains
find_trait-insert k x [] h = refl
find_trait-insert k x (y ∷ ys) h = ground (
  arith,
  bytes_eq_iff y.key x.key,
  bytes_eq_iff x.key k,
  bytes_eq_iff y.key k,
  find_trait-insert k x ys,
)

contains-insert :
    (k : Bytes) (x : Trait) (xs : List Trait)
    → contains (keys_of (insert trait_lt x xs)) k ≡ (bytes_eq x.key k || contains (keys_of xs) k)
unfolding contains insert
contains-insert k x [] = refl
contains-insert k x (y ∷ ys) = ground (arith, contains-insert k x ys)

contains-sort :
    (k : Bytes) (ts : List Trait)
    → contains (keys_of (sort trait_lt ts)) k ≡ contains (keys_of ts) k
unfolding contains sort
contains-sort k [] = refl
contains-sort k (t ∷ ts) =
    ground (arith, contains-insert k t (sort trait_lt ts), contains-sort k ts)

-- Sorting changes no trait.
pub find_trait-sort :
    (k : Bytes) (ts : List Trait)
    → IsDistinct (keys_of ts)
    → find_trait k (sort trait_lt ts) ≡ find_trait k ts
unfolding sort find_trait
find_trait-sort k [] d = refl
find_trait-sort k (t ∷ ts) d = ground (
  arith,
  find_trait-insert k t (sort trait_lt ts),
  contains-sort t.key ts,
  d.0,
  find_trait-sort k ts d.1,
)

-- A strength in the range of section 4, and at least one origin.
abbrev pub IsWellFormed : Trait → Type 0
IsWellFormed t = (20 ≤ t.strength) × (t.strength ≤ 80) × (t.origins ≢ [])

strength_of_bounds : (d : Draw) → (20 ≤ strength_of d) × (strength_of d ≤ 80)
unfolding clamp_strength
strength_of_bounds d = omega arith

merge_trait-IsWellFormed :
    (draw : Draw) (j : Bytes) (ts : List Trait)
    → All IsWellFormed ts
    → All IsWellFormed (merge_trait draw j ts)
unfolding merge_trait
merge_trait-IsWellFormed draw j [] w = let b = strength_of_bounds draw in ((b.0, b.1, λ e. cc), tt)
merge_trait-IsWellFormed draw j (t ∷ ts) w = elim (Bool-cases (bytes_eq t.key j)) [
  | inl e ↦
      let b = strength_of_bounds draw in
      rw e ((omega arith, omega arith, concat-ne-nil (origin_of draw) t.origins), w.1)
  | inr e ↦ rw e (w.0, merge_trait-IsWellFormed draw j ts w.1)
]

merge_chosen-IsWellFormed :
    (draw : Draw) (ts : List Trait) (keys : List Bytes)
    → All IsWellFormed ts
    → All IsWellFormed (merge_chosen draw ts keys)
unfolding merge_chosen
merge_chosen-IsWellFormed draw ts [] w = w
merge_chosen-IsWellFormed draw ts (k ∷ keys) w =
    merge_chosen-IsWellFormed draw (merge_trait draw k ts) keys
      (merge_trait-IsWellFormed draw k ts w)

pub merge_draws-IsWellFormed :
    (ts : List Trait) (draws : List Draw)
    → All IsWellFormed ts
    → All IsWellFormed (merge_draws ts draws)
unfolding merge_draws
merge_draws-IsWellFormed ts [] w = w
merge_draws-IsWellFormed ts (d ∷ draws) w =
    merge_draws-IsWellFormed (merge_chosen d ts d.chosen) draws
      (merge_chosen-IsWellFormed d ts d.chosen w)
