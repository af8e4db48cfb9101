-- ===== src/Personality/Catalog/Tables.antt =====
-- The tables of PersonalityCatalog.h, checked by evaluation.
use twow_repo.Base.{
  ℕ, Bool, true, not, ◌&&◌, List, [], ◌∷◌, ◌≡◌, refl, ◌==◌, Bytes, length, all, bytes_eq, contains,
}
use twow_repo.Personality.Identity.{is_plausible_trait_key}
use twow_repo.Personality.Catalog.{
  RacePool, VariantPool, ClassPool, ProfessionPool, races, race_variants, classes, professions,
  trait_keys, race_pool_size, variant_pool_size, class_pool_size, profession_pool_size,
}

-- No entry of the list stands in it twice.
unfoldable pub distinct : List Bytes → Bool
distinct [] = true
distinct (x ∷ xs) = not (contains xs x) && distinct xs

unfoldable pub pool_ok : ℕ → List Bytes → Bool
pool_ok n traits = length traits == n && distinct traits && all (contains trait_keys) traits

-- Each pool has its declared size and distinct traits, all of section 8.
pub race_pools_ok : all (λ (p : RacePool). pool_ok race_pool_size p.traits) races ≡ true
unfolding pool_ok distinct contains bytes_eq races trait_keys
race_pools_ok = refl

pub variant_pools_ok :
    all (λ (p : VariantPool). pool_ok variant_pool_size p.traits) race_variants ≡ true
unfolding pool_ok distinct contains bytes_eq race_variants trait_keys
variant_pools_ok = refl

pub class_pools_ok : all (λ (p : ClassPool). pool_ok class_pool_size p.traits) classes ≡ true
unfolding pool_ok distinct contains bytes_eq classes trait_keys
class_pools_ok = refl

pub profession_pools_ok :
    all (λ (p : ProfessionPool). pool_ok profession_pool_size p.traits) professions ≡ true
unfolding pool_ok distinct contains bytes_eq professions trait_keys
profession_pools_ok = refl

pub trait_keys-distinct : distinct trait_keys ≡ true
unfolding distinct contains bytes_eq trait_keys
trait_keys-distinct = refl

-- Every trait key has the shape that the stored form wants.
pub trait_keys-plausible : all is_plausible_trait_key trait_keys ≡ true
unfolding is_plausible_trait_key trait_keys
trait_keys-plausible = refl
