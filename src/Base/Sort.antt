-- ===== src/Base/Sort.antt =====
-- Sorting by a strict order: sort.Slice, sort.Strings and slices.SortFunc. The result is the same
-- list for any sort, up to the order of items that the test does not tell apart.
use Prim.Native.Nat.{suc}
use mathlib.Core.Path.{◌≡◌, refl}
use mathlib.Core.Bool.{Bool, true, false}
use mathlib.Core.List.{List, [], ◌∷◌}
use native.Mathlib.Omega.{arith}
use topsrv.Base.Tests.{if◌then◌else◌}
use topsrv.Base.Lists.{length, keep, All, All-map}

module _ {ℓ} {A : Type ℓ} (less : A → A → Bool) where
  unfoldable pub insert : A → List A → List A
  insert x [] = x ∷ []
  insert x (y ∷ ys) = if less x y then x ∷ y ∷ ys else y ∷ insert x ys

  unfoldable pub sort : List A → List A
  unfolding insert
  sort [] = []
  sort (x ∷ xs) = insert x (sort xs)

  -- No later item is less than an earlier one.
  abbrev pub IsSorted : List A → Type 0
  IsSorted [] = Unit
  IsSorted (x ∷ xs) = All (λ y. less y x ≡ false) xs × IsSorted xs

  length-insert : (x : A) (xs : List A) → length (insert x xs) ≡ suc (length xs)
  unfolding insert
  length-insert x [] = refl
  length-insert x (y ∷ ys) = ground (arith, length-insert x ys)

  pub length-sort : (xs : List A) → length (sort xs) ≡ length xs
  unfolding sort
  length-sort [] = refl
  length-sort (x ∷ xs) = omega (arith, length-insert x (sort xs), length-sort xs)

  All-insert {κ} : (P : A → Type κ) (x : A) (xs : List A) → P x → All P xs → All P (insert x xs)
  unfolding insert
  All-insert P x [] p h = (p, tt)
  All-insert P x (y ∷ ys) p (q, h) = branch (less x y) (All-insert P x ys p h)
    where
      branch : (b : Bool) → All P (insert x ys) → All P (if b then x ∷ y ∷ ys else y ∷ insert x ys)
      branch true ih = (p, (q, h))
      branch false ih = (q, ih)

  -- What holds of every item holds of every item of the sorted list.
  pub All-sort {κ} : (P : A → Type κ) (xs : List A) → All P xs → All P (sort xs)
  unfolding sort
  All-sort P [] h = tt
  All-sort P (x ∷ xs) (p, h) = All-insert P x (sort xs) p (All-sort P xs h)

  All-uninsert {κ} : (P : A → Type κ) (x : A) (xs : List A) → All P (insert x xs) → P x × All P xs
  unfolding insert
  All-uninsert P x [] h = h
  All-uninsert P x (y ∷ ys) h = branch (less x y) h (All-uninsert P x ys)
    where
      branch :
          (b : Bool)
          → All P (if b then x ∷ y ∷ ys else y ∷ insert x ys)
          → (All P (insert x ys) → P x × All P ys)
          → P x × (P y × All P ys)
      branch true h ih = h
      branch false (q, r) ih = let (p, rest) = ih r in (p, (q, rest))

  -- What holds of every item of the sorted list holds of every item.
  pub All-unsort {κ} : (P : A → Type κ) (xs : List A) → All P (sort xs) → All P xs
  unfolding sort
  All-unsort P [] h = tt
  All-unsort P (x ∷ xs) h =
      let (p, rest) = All-uninsert P x (sort xs) h in (p, All-unsort P xs rest)

  count-insert :
      (p : A → Bool) (x : A) (xs : List A)
      → length (keep p (insert x xs)) ≡ length (keep p (x ∷ xs))
  unfolding insert
  count-insert p x [] = refl
  count-insert p x (y ∷ ys) = ground (arith, count-insert p x ys)

  -- Sorting keeps the number of items with any property.
  pub count-sort : (p : A → Bool) (xs : List A) → length (keep p (sort xs)) ≡ length (keep p xs)
  unfolding sort
  count-sort p [] = refl
  count-sort p (x ∷ xs) = ground (arith, count-insert p x (sort xs), count-sort p xs)

  module _ (trans : (x y z : A) → less y x ≡ false → less z y ≡ false → less z x ≡ false)
      (asym : (x y : A) → less x y ≡ true → less y x ≡ false) where
    insert-IsSorted : (x : A) (xs : List A) → IsSorted xs → IsSorted (insert x xs)
    unfolding insert
    insert-IsSorted x [] h = (tt, tt)
    insert-IsSorted x (y ∷ ys) (h, k) = branch (less x y) refl (insert-IsSorted x ys k)
      where
        branch :
            (b : Bool)
            → less x y ≡ b
            → IsSorted (insert x ys)
            → IsSorted (if b then x ∷ y ∷ ys else y ∷ insert x ys)
        branch true e ih = (
          (
            asym x y e,
            All-map (λ z. less z y ≡ false) (λ z. less z x ≡ false)
                (λ z lt. trans x y z (asym x y e) lt) ys h,
          ),
          (h, k),
        )
        branch false e ih = (All-insert (λ z. less z y ≡ false) x ys e h, ih)

    pub sort-IsSorted : (xs : List A) → IsSorted (sort xs)
    unfolding sort
    sort-IsSorted [] = tt
    sort-IsSorted (x ∷ xs) = insert-IsSorted x (sort xs) (sort-IsSorted xs)

module _ {ℓ κ} {A : Type ℓ} (f g : A → A → Bool) (P : A → Type κ)
    (agree : (x y : A) → P x → P y → f x y ≡ g x y) where
  insert_congr : (x : A) (xs : List A) → P x → All P xs → insert f x xs ≡ insert g x xs
  unfolding insert
  insert_congr x [] p h = refl
  insert_congr x (y ∷ ys) p (q, h) = rw (agree x y p q, insert_congr x ys p h)

  -- Two tests that agree on the items sort them alike.
  pub sort_congr : (xs : List A) → All P xs → sort f xs ≡ sort g xs
  unfolding sort
  sort_congr [] h = refl
  sort_congr (x ∷ xs) (p, h) =
      rw (sort_congr xs h) (insert_congr x (sort g xs) p (All-sort g P xs h))
