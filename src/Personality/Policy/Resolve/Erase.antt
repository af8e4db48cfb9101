-- ===== src/Personality/Policy/Resolve/Erase.antt =====
-- What one erased and refilled draw keeps: its traits are distinct, from its pool, within its quota.
use twow_repo.Base.{
  ◌+◌, ◌≤◌, Bool, true, false, not, ◌&&◌, ◌||◌, List, [], ◌∷◌, ◌++◌, Option, some, ◌≡◌, refl, arith,
  inl, inr, if◌then◌else◌, Bool-cases, Option-cases, Bytes, bytes_eq, bytes_eq_iff, bytes_eq_sym,
  contains, find, find-some, length, length-append, All, All-append,
}
use twow_repo.Personality.Policy.{Draw}
use twow_repo.Personality.Policy.Resolve.{
  selection_contains, erase_first, is_clean, replacement, refill,
}

-- No entry stands twice.
abbrev pub IsDistinct : List Bytes → Type 0
IsDistinct [] = Unit {0}
IsDistinct (x ∷ xs) = (contains xs x ≡ false) × IsDistinct xs

-- Every entry of the first list stands in the second.
abbrev pub Within : List Bytes → List Bytes → Type 0
Within xs ys = All (λ x. contains ys x ≡ true) xs

pub record IsSound (d : Draw) : Type 0 where
  pub different : IsDistinct d.chosen
  pub from_pool : Within d.chosen d.ranked
  pub in_quota : length d.chosen ≤ d.quota

pub contains-erase_first :
    (key j : Bytes) (xs : List Bytes)
    → contains (erase_first key xs) j ≡ true
    → contains xs j ≡ true
unfolding erase_first contains
contains-erase_first key j [] h = h
contains-erase_first key j (x ∷ xs) h = ground (arith, contains-erase_first key j xs)

erase_first-none :
    (key j : Bytes) (xs : List Bytes)
    → contains xs j ≡ false
    → contains (erase_first key xs) j ≡ false
erase_first-none key j xs h = elim (Bool-cases (contains (erase_first key xs) j)) [
  | inl e ↦ ground (arith, contains-erase_first key j xs e)
  | inr e ↦ e
]

-- Of distinct entries nothing is left of the erased one.
pub erase_first-gone :
    (key : Bytes) (xs : List Bytes) → IsDistinct xs → contains (erase_first key xs) key ≡ false
unfolding erase_first contains
erase_first-gone key [] h = refl
erase_first-gone key (x ∷ xs) h = ground (arith, erase_first-gone key xs h.1, bytes_eq_iff x key)

pub erase_first-IsDistinct :
    (key : Bytes) (xs : List Bytes) → IsDistinct xs → IsDistinct (erase_first key xs)
unfolding erase_first
erase_first-IsDistinct key [] h = tt
erase_first-IsDistinct key (x ∷ xs) h = elim (Bool-cases (bytes_eq x key)) [
  | inl e ↦ rw e h.1
  | inr e ↦ rw e (erase_first-none key x xs h.0, erase_first-IsDistinct key xs h.1)
]

erase_first-Within :
    (key : Bytes) (xs ys : List Bytes) → Within xs ys → Within (erase_first key xs) ys
unfolding erase_first
erase_first-Within key [] ys h = tt
erase_first-Within key (x ∷ xs) ys h = elim (Bool-cases (bytes_eq x key)) [
  | inl e ↦ rw e h.1
  | inr e ↦ rw e (h.0, erase_first-Within key xs ys h.1)
]

-- An entry that stands in the list is taken off it, and nothing else.
pub length-erase_first :
    (key : Bytes) (xs : List Bytes)
    → contains xs key ≡ true
    → length (erase_first key xs) + 1 ≡ length xs
unfolding erase_first contains
length-erase_first key [] h = ground arith
length-erase_first key (x ∷ xs) h = ground (arith, length-erase_first key xs)

IsDistinct-concat :
    (xs : List Bytes) (y : Bytes)
    → contains xs y ≡ false
    → IsDistinct xs
    → IsDistinct (xs ++ y ∷ [])
unfolding contains
IsDistinct-concat [] y h d = (refl, tt)
IsDistinct-concat (x ∷ xs) y h d = (
  ground (arith, contains-concat xs y x, bytes_eq_sym x y),
  IsDistinct-concat xs y (ground arith) d.1,
)
  where
    contains-concat :
        (zs : List Bytes) (y' x' : Bytes)
        → contains (zs ++ y' ∷ []) x' ≡ (contains zs x' || bytes_eq y' x')
    contains-concat [] y' x' = ground arith
    contains-concat (z ∷ zs) y' x' = ground (arith, contains-concat zs y' x')

abbrev pub suits : Bytes → List Draw → Bytes → Bool
suits loser draws candidate =
    not (bytes_eq candidate loser || selection_contains draws candidate) && is_clean draws candidate

find-Within :
    (p : Bytes → Bool) (xs : List Bytes) (x : Bytes) → find p xs ≡ some x → contains xs x ≡ true
unfolding contains
find-Within p [] x h = ground arith
find-Within p (y ∷ ys) x h = ground (arith, find-Within p ys x, bytes_eq_iff y x)

pub replacement-suits :
    (loser : Bytes) (draws : List Draw) (ranked : List Bytes) (c : Bytes)
    → replacement loser draws ranked ≡ some c
    → (contains ranked c ≡ true) × (suits loser draws c ≡ true)
unfolding replacement
replacement-suits loser draws ranked c h =
    (find-Within _ ranked c h, find-some (suits loser draws) ranked c h)

module _ (loser : Bytes) (front : List Draw) (draw : Draw) (draws : List Draw) where
  -- The draw with the loser erased, and the draw that the pass leaves in its place.
  abbrev pub erased : Draw
  erased = record draw { chosen = erase_first loser draw.chosen }

  abbrev pub candidate : Option Bytes
  candidate = replacement loser (front ++ erased ∷ draws) draw.ranked

  abbrev pub revised : Draw
  revised = if contains draw.chosen loser then refill erased candidate else draw

selection_contains-draw :
    (front : List Draw) (draw : Draw) (draws : List Draw) (k : Bytes)
    → selection_contains (front ++ draw ∷ draws) k ≡ false
    → contains draw.chosen k ≡ false
unfolding selection_contains
selection_contains-draw [] draw draws k h = ground arith
selection_contains-draw (f ∷ front) draw draws k h =
    selection_contains-draw front draw draws k (ground arith)

refill-IsSound :
    (loser : Bytes) (front : List Draw) (draw : Draw) (draws : List Draw) (c : Bytes)
    → IsSound draw
    → contains draw.chosen loser ≡ true
    → candidate loser front draw draws ≡ some c
    → IsSound (refill (erased loser front draw draws) (some c))
unfolding refill
refill-IsSound loser front draw draws c s held e =
    let r =
      replacement-suits loser (front ++ erased loser front draw draws ∷ draws) draw.ranked c e in
    let fresh : contains (erase_first loser draw.chosen) c ≡ false =
      selection_contains-draw front (erased loser front draw draws) draws c (ground arith) in
    record {
      different =
          IsDistinct-concat _ c fresh (erase_first-IsDistinct loser draw.chosen s.different);
      from_pool =
          All-append _ (erase_first loser draw.chosen) (c ∷ [])
            (erase_first-Within loser draw.chosen draw.ranked s.from_pool) (r.0, tt);
      in_quota = omega (
        arith,
        length-append (erase_first loser draw.chosen) (c ∷ []),
        length-erase_first loser draw.chosen held,
        s.in_quota,
      );
    }

-- A pass leaves every draw sound.
pub revised-IsSound :
    (loser : Bytes) (front : List Draw) (draw : Draw) (draws : List Draw)
    → IsSound draw
    → IsSound (revised loser front draw draws)
revised-IsSound loser front draw draws s = elim (Bool-cases (contains draw.chosen loser)) [
  | inr e ↦ rw e s
  | inl held ↦ rw held (elim (Option-cases (candidate loser front draw draws)) [
    | inr (c, e) ↦ rw e (refill-IsSound loser front draw draws c s held e)
    | inl e ↦ rw e (
        unfold refill in
        record {
          different = erase_first-IsDistinct loser draw.chosen s.different;
          from_pool = erase_first-Within loser draw.chosen draw.ranked s.from_pool;
          in_quota = omega (arith, length-erase_first loser draw.chosen held, s.in_quota);
        })
  ])
]
