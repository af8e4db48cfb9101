-- ===== src/Personality/Identity/Known.antt =====
-- The ids that have a pool in the catalog.
use twow_repo.Base.{
  ℕ, Bool, true, false, not, ◌&&◌, ◌||◌, Option, none, some, ◌≡◌, arith, leb, ◌==◌, bytes_eq,
}
use twow_repo.Personality.Catalog.{races, classes}
use twow_repo.Personality.Identity.{race_key, class_key}
use twow_repo.Personality.Policy.{find_race, find_class}

abbrev pub is_some {ℓ} : {A : Type ℓ} → Option A → Bool
is_some none = false
is_some (some a) = true

abbrev pub finds_race : ℕ → Bool
finds_race id = is_some (find_race (race_key id))

abbrev pub finds_class : ℕ → Bool
finds_class id = is_some (find_class (class_key id))

-- The race and the class of every id are found in the catalog exactly where the id is one of the
-- ten playable races, and one of the nine classes: 1 to 11 without the gaps 6 and 10.
pub known_ids :
    (id : ℕ)
    → (finds_race id ≡ (leb 1 id && leb id 10))
      × (finds_class id ≡ (leb 1 id && leb id 11 && not (id == 6 || id == 10)))
unfolding race_key class_key find_race find_class races classes bytes_eq
known_ids id = ground arith
