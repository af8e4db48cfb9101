-- ===== src/Base/Sort.antt =====
-- `std::sort`, as an insertion sort. The code sorts by strict total orders only, under which a
-- sorted permutation of a list is unique, so any algorithm gives the same list.
use Prim.Native.Nat.{suc}
use mathlib.Core.Path.{◌≡◌, refl}
use mathlib.Core.Logic.{inl, inr}
use mathlib.Core.Bool.{Bool, true, ◌||◌}
use mathlib.Core.List.{List, [], ◌∷◌}
use native.Mathlib.Omega.{arith}
use twow_repo.Base.Tests.{if◌then◌else◌, Bool-cases}
use twow_repo.Base.Lists.{length, any, All}

module _ {ℓ} {A : Type ℓ} (lt : A → A → Bool) where
  unfoldable pub insert : A → List A → List A
  insert x [] = x ∷ []
  insert x (y ∷ ys) = if lt x y then x ∷ y ∷ ys else y ∷ insert x ys

  unfoldable pub sort : List A → List A
  unfolding insert
  sort [] = []
  sort (x ∷ xs) = insert x (sort xs)

  any-insert : (p : A → Bool) (x : A) (xs : List A) → any p (insert x xs) ≡ (p x || any p xs)
  unfolding insert
  any-insert p x [] = refl
  any-insert p x (y ∷ ys) = ground (arith, any-insert p x ys)

  -- The sorted list has the entries of the list.
  pub any-sort : (p : A → Bool) (xs : List A) → any p (sort xs) ≡ any p xs
  unfolding sort
  any-sort p [] = refl
  any-sort p (x ∷ xs) = ground (arith, any-insert p x (sort xs), any-sort p xs)

  length-insert : (x : A) (xs : List A) → length (insert x xs) ≡ suc (length xs)
  unfolding insert
  length-insert x [] = refl
  length-insert x (y ∷ ys) = ground (arith, length-insert x ys)

  pub length-sort : (xs : List A) → length (sort xs) ≡ length xs
  unfolding sort
  length-sort [] = refl
  length-sort (x ∷ xs) = ground (arith, length-insert x (sort xs), length-sort xs)

  module _ {κ} (P : A → Type κ) where
    All-insert : (x : A) (xs : List A) → P x → All P xs → All P (insert x xs)
    unfolding insert
    All-insert x [] h k = (h, tt)
    All-insert x (y ∷ ys) h k = elim (Bool-cases (lt x y)) [
      | inl e ↦ rw e (h, k)
      | inr e ↦ rw e (k.0, All-insert x ys h k.1)
    ]

    pub All-sort : (xs : List A) → All P xs → All P (sort xs)
    unfolding sort
    All-sort [] h = tt
    All-sort (x ∷ xs) h = All-insert x (sort xs) h.0 (All-sort xs h.1)

  -- Each entry is less than all behind it.
  abbrev pub IsAscending : List A → Type 0
  IsAscending [] = Unit {0}
  IsAscending (x ∷ xs) = All (λ y. lt x y ≡ true) xs × IsAscending xs

  module _ (trans : (x y z : A) → lt x y ≡ true → lt y z ≡ true → lt x z ≡ true) where
    All-weaken :
        (x y : A) (zs : List A)
        → lt x y ≡ true
        → All (λ z. lt y z ≡ true) zs
        → All (λ z. lt x z ≡ true) zs
    All-weaken x y [] h k = tt
    All-weaken x y (z ∷ zs) h k = (trans x y z h k.0, All-weaken x y zs h k.1)

    -- Entries that are comparable with the new one either way.
    abbrev pub Comparable : A → List A → Type 0
    Comparable x = All λ y. (lt x y || lt y x) ≡ true

    insert-IsAscending :
        (x : A) (xs : List A) → Comparable x xs → IsAscending xs → IsAscending (insert x xs)
    unfolding insert
    insert-IsAscending x [] c a = (tt, tt)
    insert-IsAscending x (y ∷ ys) c a = elim (Bool-cases (lt x y)) [
      | inl e ↦ rw e ((e, All-weaken x y ys e a.0), a)
      | inr e ↦
          let less : lt y x ≡ true = ground arith in
          rw e (All-insert (λ z. lt y z ≡ true) x ys less a.0, insert-IsAscending x ys c.1 a.1)
    ]

    -- Where any two entries are comparable, the sorted list ascends.
    abbrev pub AllComparable : List A → Type 0
    AllComparable [] = Unit {0}
    AllComparable (x ∷ xs) = Comparable x xs × AllComparable xs

    pub sort-IsAscending : (xs : List A) → AllComparable xs → IsAscending (sort xs)
    unfolding sort
    sort-IsAscending [] c = tt
    sort-IsAscending (x ∷ xs) c =
        insert-IsAscending x (sort xs) (All-sort (λ y. (lt x y || lt y x) ≡ true) xs c.0)
          (sort-IsAscending xs c.1)
