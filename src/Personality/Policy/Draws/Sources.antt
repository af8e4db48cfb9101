-- ===== src/Personality/Policy/Draws/Sources.antt =====
-- The draws of every source are sound, so the draws that `BuildProfile` starts from are.
use twow_repo.Base.{
  ℕ, Bool, not, ◌||◌, List, [], ◌∷◌, Option, none, some, map, ◌≡◌, refl, arith, inl, inr, ◌==◌,
  Bool-cases, Option-cases, Bytes, bytes_eq, bytes_eq_refl, contains, any, All, All-append,
  find-All, is_empty,
}
use twow_repo.Personality.Catalog.{
  RacePool, VariantPool, ClassPool, ProfessionPool, professions, race_quota,
}
use twow_repo.Personality.Policy.{
  race, race_variant, ManualTrait, Request, find_race, find_variant, find_class,
  find_profession_by_skill, find_profession_by_key,
}
use twow_repo.Personality.Policy.Resolve.Erase.{IsDistinct, IsSound}
use twow_repo.Personality.Policy.Draws.{
  usable_variant, race_draws_with, race_draws, class_draws, add_profession, add_skills, add_keys,
  learned_professions, profession_draw, manual_draws, initial_draws,
}
use twow_repo.Personality.Policy.Draws.Sound.{
  draw_from-IsSound, find_race-IsDistinct, find_variant-IsDistinct, find_class-IsDistinct,
  ProfessionOk, professions-ProfessionOk,
}

-- What a look-up found has distinct traits, if it found anything.
abbrev RaceOk : Option RacePool → Type 0
RaceOk none = Unit {0}
RaceOk (some p) = IsDistinct p.traits

abbrev VariantOk : Option VariantPool → Type 0
VariantOk none = Unit {0}
VariantOk (some p) = IsDistinct p.traits

abbrev ClassOk : Option ClassPool → Type 0
ClassOk none = Unit {0}
ClassOk (some p) = IsDistinct p.traits

find_race-RaceOk : (key : Bytes) → RaceOk (find_race key)
find_race-RaceOk key = elim (Option-cases (find_race key)) [
  | inl e ↦ rw e tt
  | inr (p, e) ↦ rw e (find_race-IsDistinct key p e)
]

find_variant-VariantOk : (key : Bytes) → VariantOk (find_variant key)
find_variant-VariantOk key = elim (Option-cases (find_variant key)) [
  | inl e ↦ rw e tt
  | inr (p, e) ↦ rw e (find_variant-IsDistinct key p e)
]

find_class-ClassOk : (key : Bytes) → ClassOk (find_class key)
find_class-ClassOk key = elim (Option-cases (find_class key)) [
  | inl e ↦ rw e tt
  | inr (p, e) ↦ rw e (find_class-IsDistinct key p e)
]

usable_variant-VariantOk :
    (request : Request) (v : Option VariantPool)
    → VariantOk v
    → VariantOk (usable_variant request v)
unfolding usable_variant
usable_variant-VariantOk request none h = tt
usable_variant-VariantOk request (some p) h =
    elim (Bool-cases (bytes_eq request.race p.base_race)) [ inl e ↦ rw e h | inr e ↦ rw e tt ]

race_draws_with-IsSound :
    (request : Request) (pool : RacePool) (v : Option VariantPool)
    → IsDistinct pool.traits
    → VariantOk v
    → All IsSound (race_draws_with request pool v)
unfolding race_draws_with
race_draws_with-IsSound request pool none d h = (
  draw_from-IsSound request race pool.key _ race_quota race_quota pool.traits (omega arith) d,
  tt,
)
race_draws_with-IsSound request pool (some v) d h = (
  draw_from-IsSound request race pool.key _ _ _ pool.traits (omega arith) d,
  (draw_from-IsSound request race_variant v.key _ 1 1 v.traits (omega arith) h, tt),
)

race_draws-IsSound :
    (request : Request) (r : Option RacePool) (v : Option VariantPool)
    → RaceOk r
    → VariantOk v
    → All IsSound (race_draws request r v)
unfolding race_draws
race_draws-IsSound request none v h k = tt
race_draws-IsSound request (some pool) v h k =
    race_draws_with-IsSound request pool (usable_variant request v) h
      (usable_variant-VariantOk request v k)

class_draws-IsSound :
    (request : Request) (c : Option ClassPool) → ClassOk c → All IsSound (class_draws request c)
unfolding class_draws
class_draws-IsSound request none h = tt
class_draws-IsSound request (some pool) h =
    (draw_from-IsSound request _ pool.key _ 2 2 pool.traits (omega arith) h, tt)

abbrev FoundOk : Option ProfessionPool → Type 0
FoundOk none = Unit {0}
FoundOk (some p) = ProfessionOk p

find_profession_by_skill-FoundOk : (id : ℕ) → FoundOk (find_profession_by_skill id)
find_profession_by_skill-FoundOk id = elim (Option-cases (find_profession_by_skill id)) [
  | inl e ↦ rw e tt
  | inr (p, e) ↦ rw e (ok p e)
]
  where
    ok : (p : ProfessionPool) → find_profession_by_skill id ≡ some p → ProfessionOk p
    ok p e =
        unfold find_profession_by_skill in
        find-All ProfessionOk (λ (q : ProfessionPool). q.skill_id == id) professions p
          professions-ProfessionOk (ground arith)

find_profession_by_key-FoundOk : (key : Bytes) → FoundOk (find_profession_by_key key)
find_profession_by_key-FoundOk key = elim (Option-cases (find_profession_by_key key)) [
  | inl e ↦ rw e tt
  | inr (p, e) ↦ rw e (
      unfold find_profession_by_key in
      find-All ProfessionOk _ professions p professions-ProfessionOk e)
]

add_profession-Ok :
    (seen : List ProfessionPool) (p : Option ProfessionPool)
    → All ProfessionOk seen
    → FoundOk p
    → All ProfessionOk (add_profession seen p)
unfolding add_profession
add_profession-Ok seen none s h = s
add_profession-Ok seen (some p) s h = elim (Bool-cases known) [
  | inl e ↦ rw e s
  | inr e ↦ rw e (All-append ProfessionOk seen (p ∷ []) s (h, tt))
]
  where
    known : Bool
    known = not p.enabled || any (λ (q : ProfessionPool). bytes_eq q.key p.key) seen

add_skills-Ok :
    (seen : List ProfessionPool) (ids : List ℕ)
    → All ProfessionOk seen
    → All ProfessionOk (add_skills seen ids)
unfolding add_skills
add_skills-Ok seen [] s = s
add_skills-Ok seen (id ∷ ids) s =
    add_skills-Ok (add_profession seen (find_profession_by_skill id)) ids
      (add_profession-Ok seen (find_profession_by_skill id) s (find_profession_by_skill-FoundOk id))

add_keys-Ok :
    (seen : List ProfessionPool) (ks : List Bytes)
    → All ProfessionOk seen
    → All ProfessionOk (add_keys seen ks)
unfolding add_keys
add_keys-Ok seen [] s = s
add_keys-Ok seen (k ∷ ks) s =
    add_keys-Ok (add_profession seen (find_profession_by_key k)) ks
      (add_profession-Ok seen (find_profession_by_key k) s (find_profession_by_key-FoundOk k))

profession_draws-IsSound :
    (request : Request) (ps : List ProfessionPool)
    → All ProfessionOk ps
    → All IsSound (map (profession_draw request) ps)
profession_draws-IsSound request [] h = tt
profession_draws-IsSound request (p ∷ ps) h = (one h.0, profession_draws-IsSound request ps h.1)
  where
    one : ProfessionOk p → IsSound (profession_draw request p)
    one d =
        unfold profession_draw in draw_from-IsSound request _ p.key _ 1 1 p.traits (omega arith) d

manual_draws-IsSound : (ms : List ManualTrait) → All IsSound (manual_draws ms)
unfolding manual_draws
manual_draws-IsSound [] = tt
manual_draws-IsSound (m ∷ ms) = elim (Bool-cases (is_empty m.key)) [
  | inl e ↦ rw e (manual_draws-IsSound ms)
  | inr e ↦ rw e (
    record {
      different = (unfold contains in refl, tt);
      from_pool = (unfold contains in rw bytes_eq_refl, tt);
      in_quota = omega arith;
    },
    manual_draws-IsSound ms,
  )
]

-- Whatever is asked for, each draw holds distinct traits of its pool and no more than its quota.
pub initial_draws-IsSound : (request : Request) → All IsSound (initial_draws request)
unfolding initial_draws learned_professions
initial_draws-IsSound request =
    All-append IsSound (race_draws request _ _) _
      (race_draws-IsSound request _ _ (find_race-RaceOk request.race)
        (find_variant-VariantOk request.race_variant))
      (All-append IsSound (class_draws request _) _
        (class_draws-IsSound request _ (find_class-ClassOk request.cls))
        (All-append IsSound (map (profession_draw request) _) (manual_draws request.manual)
          (profession_draws-IsSound request _ (
            add_keys-Ok _ request.profession_keys
              (add_skills-Ok [] request.profession_skill_ids tt)))
          (manual_draws-IsSound request.manual)))
