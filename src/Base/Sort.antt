-- ===== src/Base/Sort.antt =====
-- Stable sorting by an order, as the standard library's `sort`, `sort_by` and `sort_unstable` of
-- values that the order tells apart: the sorted list has the same elements, each in its place.
use mathlib.Core.Path.{◌≡◌, refl}
use mathlib.Core.Bool.{Bool, ◌||◌}
use mathlib.Core.List.{List, [], ◌∷◌}
use native.Mathlib.Omega.{arith}
use timelakedb.Base.Tests.{if◌then◌else◌, if_elim}
use mathlib.Core.Logic.{◌↔◌}
use timelakedb.Base.Lists.{any, All, Has, Has-under, Has-swap}

module _ {ℓ} {A : Type ℓ} (before : A → A → Bool) where
  unfoldable pub insert_by : A → List A → List A
  insert_by x [] = x ∷ []
  insert_by x (y ∷ ys) = let rest = insert_by x ys in if before y x then y ∷ rest else x ∷ y ∷ ys

  unfoldable pub sort_by : List A → List A
  unfolding insert_by
  sort_by [] = []
  sort_by (x ∷ xs) = insert_by x (sort_by xs)

  pub any-insert_by :
      (p : A → Bool) (x : A) (ys : List A) → any p (insert_by x ys) ≡ (p x || any p ys)
  unfolding insert_by
  any-insert_by p x [] = refl
  any-insert_by p x (y ∷ ys) = ground (arith, any-insert_by p x ys)

  -- Sorting keeps the elements.
  pub any-sort_by : (p : A → Bool) (xs : List A) → any p (sort_by xs) ≡ any p xs
  unfolding sort_by
  any-sort_by p [] = refl
  any-sort_by p (x ∷ xs) = ground (arith, any-insert_by p x (sort_by xs), any-sort_by p xs)

  module _ {κ} (P : A → Type κ) where
    pub All-insert_by : (x : A) (ys : List A) → P x → All P ys → All P (insert_by x ys)
    unfolding insert_by
    All-insert_by x [] h k = (h, tt)
    All-insert_by x (y ∷ ys) h k =
        if_elim (All P) (before y x) (λ e. (k.0, All-insert_by x ys h k.1)) (λ e. (h, k))

    pub All-sort_by : (xs : List A) → All P xs → All P (sort_by xs)
    unfolding sort_by
    All-sort_by [] h = tt
    All-sort_by (x ∷ xs) h = All-insert_by x (sort_by xs) h.0 (All-sort_by xs h.1)

module _ {A : Type 0} (before : A → A → Bool) where
  pub Has-insert_by : (x : A) (ys : List A) (a : A) → Has (insert_by before x ys) a ↔ Has (x ∷ ys) a
  unfolding insert_by
  Has-insert_by x [] a = (λ h. h, λ h. h)
  Has-insert_by x (y ∷ ys) a =
      let later = Has-insert_by x ys a in
      if_elim (λ l. Has l a ↔ Has (x ∷ y ∷ ys) a) (before y x)
        (λ e. (λ h. Has-swap (Has-under later.0 h), λ h. Has-under later.1 (Has-swap h)))
        (λ e. (λ h. h, λ h. h))

  pub Has-sort_by : (xs : List A) (a : A) → Has (sort_by before xs) a ↔ Has xs a
  unfolding sort_by
  Has-sort_by [] a = (λ h. h, λ h. h)
  Has-sort_by (x ∷ xs) a =
      let later = Has-sort_by xs a in
      let first = Has-insert_by x (sort_by before xs) a in
      (λ h. Has-under later.0 (first.0 h), λ h. first.1 (Has-under later.1 h))
