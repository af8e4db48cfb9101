-- ===== src/Personality/Policy/Draws.antt =====
-- `BuildProfile`, sections 4 to 7: what each source draws.
pub mod Sound
pub mod Sources
use twow_repo.Base.{
  ℕ, ◌-◌, not, ◌||◌, List, [], ◌∷◌, ◌++◌, Option, none, some, map, if◌then◌else◌, Bytes, codes,
  bytes_eq, any, contains, take, is_empty,
}
use twow_repo.Personality.Catalog.{
  RacePool, VariantPool, ClassPool, ProfessionPool, race_strength, variant_strength, class_strength,
  profession_strength, race_quota, variant_quota, class_quota, profession_quota,
}
use twow_repo.Personality.Policy.{
  SourceType, manual, race_variant, cls, race, profession, ManualTrait, Request, Draw,
  clamp_strength, rank_pool, find_race, find_variant, find_class, find_profession_by_skill,
  find_profession_by_key,
}

-- What a source takes from its ranked pool: the first `taken`.
unfoldable pub draw_from : SourceType → Bytes → ℕ → ℕ → ℕ → List Bytes → Draw
draw_from source key strength quota taken ranked = record {
  source = source;
  key = key;
  strength = strength;
  quota = quota;
  ranked = ranked;
  chosen = take taken ranked;
}

-- A variant counts on its own base race only.
unfoldable pub usable_variant : Request → Option VariantPool → Option VariantPool
usable_variant request none = none
usable_variant request (some pool) =
    if bytes_eq request.race pool.base_race then some pool else none

-- The draws of a known race, alone or with its variant. The race gives one trait up unless the
-- variant landed on one of its first three.
race_draws_with : Request → RacePool → Option VariantPool → List Draw
race_draws_with request pool none =
    let ranked = rank_pool request race pool.key pool.traits in
    draw_from race pool.key race_strength race_quota race_quota ranked ∷ []
race_draws_with request pool (some variant) =
    let ranked = rank_pool request race pool.key pool.traits in
    let v =
      draw_from race_variant variant.key variant_strength variant_quota 1
        (rank_pool request race_variant variant.key variant.traits) in
    let also_race = any (contains (take race_quota ranked)) v.chosen in
    let quota = if also_race then race_quota else race_quota - 1 in
    draw_from race pool.key race_strength quota quota ranked ∷ v ∷ []

unfoldable pub race_draws : Request → Option RacePool → Option VariantPool → List Draw
unfolding race_draws_with draw_from
race_draws request none variant = []
race_draws request (some pool) variant =
    race_draws_with request pool (usable_variant request variant)

unfoldable pub class_draws : Request → Option ClassPool → List Draw
unfolding draw_from
class_draws request none = []
class_draws request (some pool) =
    draw_from cls pool.key class_strength class_quota class_quota
      (rank_pool request cls pool.key pool.traits)
    ∷ []

-- `addProfession`. The keys of the table are distinct, so that the pools are told apart by them.
unfoldable pub add_profession : List ProfessionPool → Option ProfessionPool → List ProfessionPool
add_profession seen none = seen
add_profession seen (some pool) =
    if not pool.enabled || any (λ (p : ProfessionPool). bytes_eq p.key pool.key) seen
    then seen
    else seen ++ pool ∷ []

add_skills : List ProfessionPool → List ℕ → List ProfessionPool
add_skills seen [] = seen
add_skills seen (id ∷ ids) = add_skills (add_profession seen (find_profession_by_skill id)) ids

add_keys : List ProfessionPool → List Bytes → List ProfessionPool
add_keys seen [] = seen
add_keys seen (key ∷ keys) = add_keys (add_profession seen (find_profession_by_key key)) keys

unfoldable pub learned_professions : Request → List ProfessionPool
unfolding add_skills add_keys add_profession
learned_professions request =
    add_keys (add_skills [] request.profession_skill_ids) request.profession_keys

unfoldable pub profession_draw : Request → ProfessionPool → Draw
unfolding draw_from
profession_draw request pool =
    draw_from profession pool.key profession_strength profession_quota profession_quota
      (rank_pool request profession pool.key pool.traits)

-- A pool of one element; a manual trait with no key is passed over.
unfoldable pub manual_draws : List ManualTrait → List Draw
manual_draws [] = []
manual_draws (m ∷ ms) =
    let draw : Draw = record {
      source = manual;
      key = if m.locked then codes "locked" else codes "configured";
      strength = clamp_strength m.strength;
      quota = 1;
      ranked = m.key ∷ [];
      chosen = m.key ∷ [];
    } in
    if is_empty m.key then manual_draws ms else draw ∷ manual_draws ms

-- `draws` before the conflicts are resolved.
unfoldable pub initial_draws : Request → List Draw
initial_draws request =
    race_draws request (find_race request.race) (find_variant request.race_variant)
    ++ (class_draws request (find_class request.cls)
        ++ (map (profession_draw request) (learned_professions request)
            ++ manual_draws request.manual))
