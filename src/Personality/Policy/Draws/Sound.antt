-- ===== src/Personality/Policy/Draws/Sound.antt =====
-- Every draw takes distinct traits of its own pool, and no more than its quota.
use twow_repo.Base.{
  ℕ, zero, suc, ◌≤◌, true, false, ◌||◌, List, [], ◌∷◌, some, map, ◌≡◌, refl, ap, ◌∙◌, arith, inl,
  inr, Bool-cases, Bytes, bytes_eq, bytes_eq_sym, bytes_eq_refl, contains, take, length-take-le,
  All, find-All, All-of_all,
}
use twow_repo.Base.Sort.{insert, sort}
use twow_repo.Personality.Catalog.{
  RacePool, VariantPool, ClassPool, ProfessionPool, races, race_variants, classes, professions,
}
use twow_repo.Personality.Catalog.Tables.{
  distinct, pool_ok, race_pools_ok, variant_pools_ok, class_pools_ok, profession_pools_ok,
}
use twow_repo.Personality.Policy.{
  SourceType, Request, Scored, ranks_before, rank_pool, stable_value, find_race, find_variant,
  find_class,
}
use twow_repo.Personality.Policy.Resolve.Erase.{IsDistinct, Within, IsSound}
use twow_repo.Personality.Policy.Draws.{draw_from}

abbrev keys : List Scored → List Bytes
keys = map λ (s : Scored). s.key

contains-insert :
    (x : Scored) (xs : List Scored) (k : Bytes)
    → contains (keys (insert ranks_before x xs)) k ≡ (bytes_eq x.key k || contains (keys xs) k)
unfolding contains insert
contains-insert x [] k = refl
contains-insert x (y ∷ ys) k = ground (arith, contains-insert x ys k)

insert-IsDistinct :
    (x : Scored) (xs : List Scored)
    → contains (keys xs) x.key ≡ false
    → IsDistinct (keys xs)
    → IsDistinct (keys (insert ranks_before x xs))
unfolding insert contains
insert-IsDistinct x [] h d = (refl, tt)
insert-IsDistinct x (y ∷ ys) h d = elim (Bool-cases (ranks_before x y)) [
  | inl e ↦ rw e (h, d)
  | inr e ↦ rw e (
    ground (arith, contains-insert x ys y.key, bytes_eq_sym x.key y.key),
    insert-IsDistinct x ys (ground arith) d.1,
  )
]

contains-sort :
    (xs : List Scored) (k : Bytes) → contains (keys (sort ranks_before xs)) k ≡ contains (keys xs) k
unfolding sort contains
contains-sort [] k = refl
contains-sort (x ∷ xs) k =
    ground (arith, contains-insert x (sort ranks_before xs) k, contains-sort xs k)

sort-IsDistinct :
    (xs : List Scored) → IsDistinct (keys xs) → IsDistinct (keys (sort ranks_before xs))
unfolding sort
sort-IsDistinct [] d = tt
sort-IsDistinct (x ∷ xs) d =
    insert-IsDistinct x (sort ranks_before xs) (contains-sort xs x.key ∙ d.0)
      (sort-IsDistinct xs d.1)

keys-map :
    (request : Request) (source : SourceType) (source_key : Bytes) (pool : List Bytes)
    → keys (
        map
          (λ key. record {
            key = key;
            value = stable_value request.profile_version request.profile_seed source source_key key;
          })
          pool)
      ≡ pool
keys-map request source source_key [] = refl
keys-map request source source_key (k ∷ pool) = ap (◌∷◌ k) (keys-map request source source_key pool)

-- The ranked pool holds the traits of the pool, and none twice where the pool has none twice.
rank_pool-IsDistinct :
    (request : Request) (source : SourceType) (source_key : Bytes) (pool : List Bytes)
    → IsDistinct pool
    → IsDistinct (rank_pool request source source_key pool)
unfolding rank_pool
rank_pool-IsDistinct request source source_key pool d =
    sort-IsDistinct _ (rw (keys-map request source source_key pool) d)

pub contains-rank_pool :
    (request : Request) (source : SourceType) (source_key : Bytes) (pool : List Bytes) (k : Bytes)
    → contains (rank_pool request source source_key pool) k ≡ contains pool k
unfolding rank_pool
contains-rank_pool request source source_key pool k =
    contains-sort _ k ∙ ap (λ p. contains p k) (keys-map request source source_key pool)

take-none :
    (n : ℕ) (xs : List Bytes) (k : Bytes) → contains xs k ≡ false → contains (take n xs) k ≡ false
unfolding contains
take-none zero xs k h = refl
take-none (suc n) [] k h = refl
take-none (suc n) (x ∷ xs) k h = ground (arith, take-none n xs k)

take-IsDistinct : (n : ℕ) (xs : List Bytes) → IsDistinct xs → IsDistinct (take n xs)
take-IsDistinct zero xs d = tt
take-IsDistinct (suc n) [] d = tt
take-IsDistinct (suc n) (x ∷ xs) d = (take-none n xs x d.0, take-IsDistinct n xs d.1)

Within-weaken : (x : Bytes) (xs ys : List Bytes) → Within xs ys → Within xs (x ∷ ys)
unfolding contains
Within-weaken x [] ys w = tt
Within-weaken x (z ∷ zs) ys w = (ground arith, Within-weaken x zs ys w.1)

take-Within : (n : ℕ) (xs : List Bytes) → Within (take n xs) xs
take-Within zero xs = tt
take-Within (suc n) [] = tt
take-Within (suc n) (x ∷ xs) =
    (here x xs (bytes_eq_refl x), Within-weaken x (take n xs) xs (take-Within n xs))
  where
    here : (y : Bytes) (ys : List Bytes) → bytes_eq y y ≡ true → contains (y ∷ ys) y ≡ true
    here y ys h = unfold contains in ground arith

pub draw_from-IsSound :
    (request : Request) (source : SourceType) (key : Bytes) (strength quota taken : ℕ)
    (pool : List Bytes)
    → taken ≤ quota
    → IsDistinct pool
    → IsSound (draw_from source key strength quota taken (rank_pool request source key pool))
unfolding draw_from
draw_from-IsSound request source key strength quota taken pool le d = record {
  different = take-IsDistinct taken _ (rank_pool-IsDistinct request source key pool d);
  from_pool = take-Within taken (rank_pool request source key pool);
  in_quota = omega (arith, length-take-le taken (rank_pool request source key pool));
}

distinct-IsDistinct : (xs : List Bytes) → distinct xs ≡ true → IsDistinct xs
unfolding distinct
distinct-IsDistinct [] h = tt
distinct-IsDistinct (x ∷ xs) h = (ground arith, distinct-IsDistinct xs (ground arith))

pool_ok-IsDistinct : (n : ℕ) (traits : List Bytes) → pool_ok n traits ≡ true → IsDistinct traits
unfolding pool_ok
pool_ok-IsDistinct n traits h = distinct-IsDistinct traits (ground arith)

-- The distinctness of every pool that a look-up can find.
pub find_race-IsDistinct :
    (key : Bytes) (p : RacePool) → find_race key ≡ some p → IsDistinct p.traits
unfolding find_race
find_race-IsDistinct key p e =
    find-All (λ (q : RacePool). IsDistinct q.traits) _ races p
      (All-of_all _ _ (λ (q : RacePool). pool_ok-IsDistinct 6 q.traits) races race_pools_ok) e

pub find_variant-IsDistinct :
    (key : Bytes) (p : VariantPool) → find_variant key ≡ some p → IsDistinct p.traits
unfolding find_variant
find_variant-IsDistinct key p e =
    find-All (λ (q : VariantPool). IsDistinct q.traits) _ race_variants p
      (All-of_all _ _ (λ (q : VariantPool). pool_ok-IsDistinct 6 q.traits) race_variants
        variant_pools_ok)
      e

pub find_class-IsDistinct :
    (key : Bytes) (p : ClassPool) → find_class key ≡ some p → IsDistinct p.traits
unfolding find_class
find_class-IsDistinct key p e =
    find-All (λ (q : ClassPool). IsDistinct q.traits) _ classes p
      (All-of_all _ _ (λ (q : ClassPool). pool_ok-IsDistinct 5 q.traits) classes class_pools_ok) e

abbrev pub ProfessionOk : ProfessionPool → Type 0
ProfessionOk p = IsDistinct p.traits

pub professions-ProfessionOk : All ProfessionOk professions
professions-ProfessionOk =
    All-of_all _ _ (λ (q : ProfessionPool). pool_ok-IsDistinct 3 q.traits) professions
      profession_pools_ok
