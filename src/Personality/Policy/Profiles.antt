-- ===== src/Personality/Policy/Profiles.antt =====
-- `BuildProfile` as a whole: the draws, their resolution, section 9.1's merge, and the final order.
pub mod Merged
pub mod Ordered
pub mod Built
use twow_repo.Base.{
  ℕ, ◌+◌, Bool, true, false, List, [], ◌∷◌, ◌++◌, Option, none, some, if◌then◌else◌, Bytes,
  bytes_eq, bytes_lt, any, max, ◌==◌,
}
use twow_repo.Base.Int.{pos}
use twow_repo.Base.Sort.{sort}
use twow_repo.Personality.Catalog.{RacePool, VariantPool}
use twow_repo.Personality.Policy.{
  SourceType, priority, Origin, Trait, Request, Profile, Draw, clamp_strength, find_race,
  find_variant, find_class,
}
use twow_repo.Personality.Policy.Draws.{usable_variant, initial_draws}
use twow_repo.Personality.Policy.Resolve.{resolve}

abbrev pub origin_of : Draw → Origin
origin_of draw = record { source = draw.source; key = draw.key }

-- The strength that a draw gives its traits.
abbrev pub strength_of : Draw → ℕ
strength_of draw = clamp_strength (pos draw.strength)

-- One chosen key: a new trait, or one more origin of the trait that stands.
unfoldable pub merge_trait : Draw → Bytes → List Trait → List Trait
merge_trait draw key [] =
    record { key = key; strength = strength_of draw; origins = origin_of draw ∷ [] } ∷ []
merge_trait draw key (t ∷ ts) =
    if bytes_eq t.key key
    then record t {
      strength = max t.strength (strength_of draw);
      origins = t.origins ++ origin_of draw ∷ [];
    }
      ∷ ts
    else t ∷ merge_trait draw key ts

unfoldable pub merge_chosen : Draw → List Trait → List Bytes → List Trait
merge_chosen draw ts [] = ts
merge_chosen draw ts (key ∷ keys) = merge_chosen draw (merge_trait draw key ts) keys

unfoldable pub merge_draws : List Trait → List Draw → List Trait
merge_draws ts [] = ts
merge_draws ts (draw ∷ draws) = merge_draws (merge_chosen draw ts draw.chosen) draws

abbrev pub trait_lt : Trait → Trait → Bool
trait_lt a b = bytes_lt a.key b.key

abbrev is_some {ℓ} : {A : Type ℓ} → Option A → Bool
is_some none = false
is_some (some a) = true

-- `profile.variantApplied`: a known race and a variant of that race.
variant_applies : Request → Option RacePool → Option VariantPool → Bool
variant_applies request none variant = false
variant_applies request (some pool) variant = is_some (usable_variant request variant)

unfoldable pub build_profile : Request → Profile
unfolding variant_applies
build_profile request = record {
  traits = sort trait_lt (merge_draws [] (resolve request (initial_draws request)));
  race_known = is_some (find_race request.race);
  class_known = is_some (find_class request.cls);
  variant_applied =
      variant_applies request (find_race request.race) (find_variant request.race_variant);
}

count_in : SourceType → List Origin → ℕ
count_in source [] = 0
count_in source (o ∷ os) =
    if priority o.source == priority source then count_in source os + 1 else count_in source os

count_traits : SourceType → List Trait → ℕ
count_traits source [] = 0
count_traits source (t ∷ ts) = count_in source t.origins + count_traits source ts

-- `CountOrigins`.
unfoldable pub count_origins : Profile → SourceType → ℕ
unfolding count_in count_traits
count_origins profile source = count_traits source profile.traits

-- `HasTrait`.
unfoldable pub has_trait : Profile → Bytes → Bool
has_trait profile key = any (λ (t : Trait). bytes_eq t.key key) profile.traits
