-- ===== src/Base/Sorting.antt =====
-- `slice::sort_by`, which is stable, and `Vec::dedup_by`, which keeps the first of equal neighbours.
use Prim.Native.Nat.{Ordering}
use mathlib.Core.Path.{◌≡◌, refl}
use mathlib.Core.Bool.{Bool, true, false, ◌&&◌, ◌||◌}
use mathlib.Core.List.{List, [], ◌∷◌}
use native.Mathlib.Omega.{arith}
use nextral.Base.Tests.{if◌then◌else◌}
use nextral.Base.Lists.{any, all}

-- `Ordering::then`
abbrev pub then_cmp : Ordering → Ordering → Ordering
then_cmp Ordering.eq second = second
then_cmp first second = first

abbrev pub not_greater : Ordering → Bool
not_greater Ordering.gt = false
not_greater _ = true

module _ {ℓ} {A : Type ℓ} where
  unfoldable pub insert_by : (A → A → Ordering) → A → List A → List A
  insert_by cmp x [] = x ∷ []
  insert_by cmp x (y ∷ ys) =
      let rest = insert_by cmp x ys in if not_greater (cmp x y) then x ∷ y ∷ ys else y ∷ rest

  unfoldable pub sort_by : (A → A → Ordering) → List A → List A
  unfolding insert_by
  sort_by cmp [] = []
  sort_by cmp (x ∷ xs) = insert_by cmp x (sort_by cmp xs)

  unfoldable pub dedup_from : (A → A → Bool) → A → List A → List A
  dedup_from same last [] = []
  dedup_from same last (x ∷ xs) =
      let skipped = dedup_from same last xs in
      let kept = dedup_from same x xs in if same x last then skipped else x ∷ kept

  unfoldable pub dedup_by : (A → A → Bool) → List A → List A
  unfolding dedup_from
  dedup_by same [] = []
  dedup_by same (x ∷ xs) = x ∷ dedup_from same x xs

  all-insert_by :
      (cmp : A → A → Ordering) (p : A → Bool) (x : A) (xs : List A)
      → all p (insert_by cmp x xs) ≡ (p x && all p xs)
  unfolding insert_by
  all-insert_by cmp p x [] = refl
  all-insert_by cmp p x (y ∷ ys) = ground (arith, all-insert_by cmp p x ys)

  pub all-sort_by :
      (cmp : A → A → Ordering) (p : A → Bool) (xs : List A) → all p (sort_by cmp xs) ≡ all p xs
  unfolding sort_by
  all-sort_by cmp p [] = refl
  all-sort_by cmp p (x ∷ xs) =
      ground (arith, all-insert_by cmp p x (sort_by cmp xs), all-sort_by cmp p xs)

  any-insert_by :
      (cmp : A → A → Ordering) (p : A → Bool) (x : A) (xs : List A)
      → any p (insert_by cmp x xs) ≡ (p x || any p xs)
  unfolding insert_by
  any-insert_by cmp p x [] = refl
  any-insert_by cmp p x (y ∷ ys) = ground (arith, any-insert_by cmp p x ys)

  pub any-sort_by :
      (cmp : A → A → Ordering) (p : A → Bool) (xs : List A) → any p (sort_by cmp xs) ≡ any p xs
  unfolding sort_by
  any-sort_by cmp p [] = refl
  any-sort_by cmp p (x ∷ xs) =
      ground (arith, any-insert_by cmp p x (sort_by cmp xs), any-sort_by cmp p xs)

  all-dedup_from :
      (same : A → A → Bool) (p : A → Bool) (last : A) (xs : List A)
      → all p xs ≡ true
      → all p (dedup_from same last xs) ≡ true
  unfolding dedup_from
  all-dedup_from same p last [] h = refl
  all-dedup_from same p last (x ∷ xs) h =
      ground (arith, all-dedup_from same p last xs, all-dedup_from same p x xs)

  pub all-dedup_by :
      (same : A → A → Bool) (p : A → Bool) (xs : List A)
      → all p xs ≡ true
      → all p (dedup_by same xs) ≡ true
  unfolding dedup_by
  all-dedup_by same p [] h = refl
  all-dedup_by same p (x ∷ xs) h = ground (arith, all-dedup_from same p x xs)

  -- A test that equal items answer in the same way holds somewhere after the removal if it did before.
  module _ (same : A → A → Bool) (p : A → Bool)
      (agree : (x y : A) → same x y ≡ true → p x ≡ p y) where
    any-dedup_from :
        (last : A) (xs : List A)
        → (p last || any p (dedup_from same last xs)) ≡ (p last || any p xs)
    unfolding dedup_from
    any-dedup_from last [] = refl
    any-dedup_from last (x ∷ xs) =
        ground (arith, agree x last, any-dedup_from last xs, any-dedup_from x xs)

    pub any-dedup_by : (xs : List A) → any p (dedup_by same xs) ≡ any p xs
    unfolding dedup_by
    any-dedup_by [] = refl
    any-dedup_by (x ∷ xs) = any-dedup_from x xs
