-- ===== src/Personality/Policy.antt =====
-- PersonalityPolicy.h: the types, the stable values, and the look-ups in the catalog.
pub mod Decimal
pub mod Draws
pub mod Resolve
pub mod Profiles
use twow_repo.Base.{
  ℕ, zero, suc, ◌+◌, ◌/◌, ◌%◌, Bool, true, false, not, ◌&&◌, ◌||◌, List, [], ◌∷◌, ◌++◌, Option,
  none, some, map, ltb, ◌==◌, if◌then◌else◌, Bytes, codes, bytes_eq, bytes_lt, any, find, min, max,
}
use twow_repo.Base.Int.{ℤ, pos, negsuc}
use twow_repo.Base.Sort.{sort}
use twow_repo.Personality.Sha.{sha256}
use twow_repo.Personality.Catalog.{
  RacePool, VariantPool, ClassPool, ProfessionPool, ConflictPair, races, race_variants, classes,
  professions, conflicts, strength_min, strength_max,
}

-- `SourceType`, in the order of priority, best first.
pub data SourceType : Type 0 where
  manual race_variant cls race profession : SourceType

-- The underlying value of the enumerator.
abbrev pub priority : SourceType → ℕ
priority manual = 0
priority race_variant = 1
priority cls = 2
priority race = 3
priority profession = 4

unfoldable pub source_type_name : SourceType → Bytes
source_type_name manual = codes "manual"
source_type_name race_variant = codes "race_variant"
source_type_name cls = codes "class"
source_type_name race = codes "race"
source_type_name profession = codes "profession"

pub record Origin : Type 0 where
  pub source : SourceType
  pub key : Bytes

pub record Trait : Type 0 where
  pub key : Bytes
  pub strength : ℕ
  pub origins : List Origin

-- `strength` is an `int` of the configuration.
pub record ManualTrait : Type 0 where
  pub key : Bytes
  pub strength : ℤ
  pub locked : Bool

pub record Request : Type 0 where
  pub profile_version : ℕ
  pub profile_seed : Bytes
  pub race : Bytes
  pub cls : Bytes
  pub race_variant : Bytes
  pub profession_skill_ids : List ℕ
  pub profession_keys : List Bytes
  pub manual : List ManualTrait

pub record Profile : Type 0 where
  pub traits : List Trait
  pub race_known : Bool
  pub class_known : Bool
  pub variant_applied : Bool

-- `std::min(kStrengthMax, std::max(kStrengthMin, strength))`; the result is never negative.
unfoldable pub clamp_strength : ℤ → ℕ
clamp_strength (pos n) = min strength_max (max strength_min n)
clamp_strength (negsuc n) = strength_min

-- The digits that the loop of `Decimal` pushes, the lowest first.
digits : ℕ → ℕ → Bytes
digits zero value = []
digits (suc fuel) value =
    let rest = digits fuel (value / 10) in if value == 0 then [] else (b'0' + value % 10) ∷ rest

reverse_onto : Bytes → Bytes → Bytes
reverse_onto out [] = out
reverse_onto out (c ∷ cs) = reverse_onto (c ∷ out) cs

unfoldable pub decimal : ℕ → Bytes
unfolding digits reverse_onto
decimal value = if value == 0 then codes "0" else reverse_onto [] (digits value value)

-- `material` of `StableValue`.
unfoldable pub material : ℕ → Bytes → SourceType → Bytes → Bytes → Bytes
material profile_version seed source source_key trait_key =
    decimal profile_version
    ++ (b'|'
        ∷ (seed
            ++ (b'|' ∷ (source_type_name source ++ (b'|' ∷ (source_key ++ (b'|' ∷ trait_key)))))))

unfoldable pub stable_value : ℕ → Bytes → SourceType → Bytes → Bytes → Bytes
stable_value profile_version seed source source_key trait_key =
    sha256 (material profile_version seed source source_key trait_key)

-- `memcmp(lhs, rhs) > 0`, on digests of one length.
unfoldable pub higher : Bytes → Bytes → Bool
higher lhs rhs = bytes_lt rhs lhs

pub record Draw : Type 0 where
  pub source : SourceType
  pub key : Bytes
  pub strength : ℕ
  pub quota : ℕ
  pub ranked : List Bytes
  pub chosen : List Bytes

-- A candidate with its stable value.
pub record Scored : Type 0 where
  pub key : Bytes
  pub value : Bytes

-- The comparator of `RankPool`: descending value, then ascending key.
unfoldable pub ranks_before : Scored → Scored → Bool
unfolding higher
ranks_before a b =
    if not (bytes_eq a.value b.value) then higher a.value b.value else bytes_lt a.key b.key

unfoldable pub rank_pool : Request → SourceType → Bytes → List Bytes → List Bytes
rank_pool request source source_key pool =
    map (λ (s : Scored). s.key)
      (sort ranks_before (
        map
          (λ key. record {
            key = key;
            value = stable_value request.profile_version request.profile_seed source source_key key;
          })
          pool))

unfoldable pub find_race : Bytes → Option RacePool
find_race key = find (λ pool. bytes_eq key pool.key) races

unfoldable pub find_variant : Bytes → Option VariantPool
find_variant key = find (λ pool. bytes_eq key pool.key) race_variants

unfoldable pub find_class : Bytes → Option ClassPool
find_class key = find (λ pool. bytes_eq key pool.key) classes

unfoldable pub find_profession_by_skill : ℕ → Option ProfessionPool
find_profession_by_skill skill_id =
    if skill_id == 0 then none else find (λ pool. pool.skill_id == skill_id) professions

unfoldable pub find_profession_by_key : Bytes → Option ProfessionPool
find_profession_by_key key = find (λ pool. bytes_eq key pool.key) professions

-- One pair of the table, either way round.
unfoldable pub matches_pair : Bytes → Bytes → ConflictPair → Bool
matches_pair lhs rhs pair =
    (bytes_eq lhs pair.a && bytes_eq rhs pair.b) || (bytes_eq lhs pair.b && bytes_eq rhs pair.a)

-- `Conflicts`.
unfoldable pub in_conflict : Bytes → Bytes → Bool
in_conflict lhs rhs = any (matches_pair lhs rhs) conflicts
