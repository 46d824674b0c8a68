-- ===== src/Base/Lists.antt =====
-- Lists measured and indexed by native numbers, under the library's names, and the tests on lists
-- that the code's iterators make.
use Prim.Native.Nat.{ℕ, zero, suc, ◌+◌}
use mathlib.Core.Path.{◌≡◌, refl, ap}
use mathlib.Core.Logic.{◌⊎◌, ◌↔◌, inl, inr}
use mathlib.Core.Bool.{Bool, true, false, ◌&&◌, ◌||◌}
use mathlib.Core.Option.{Option, none, some}
use mathlib.Core.List.{List, [], ◌∷◌, ◌++◌}
use native.Mathlib.Omega.{arith}
use timelakedb.Base.Tests.{if◌then◌else◌}

module _ {ℓ} {A : Type ℓ} where
  abbrev pub length : List A → ℕ
  length [] = 0
  length (x ∷ xs) = suc (length xs)

  abbrev pub get_elem? : List A → ℕ → Option A
  get_elem? [] i = none
  get_elem? (x ∷ xs) zero = some x
  get_elem? (x ∷ xs) (suc i) = get_elem? xs i

  abbrev pub replicate : ℕ → A → List A
  replicate zero a = []
  replicate (suc n) a = a ∷ replicate n a

  abbrev pub take : ℕ → List A → List A
  take zero xs = []
  take (suc n) [] = []
  take (suc n) (x ∷ xs) = x ∷ take n xs

  abbrev pub drop : ℕ → List A → List A
  drop zero xs = xs
  drop (suc n) [] = []
  drop (suc n) (x ∷ xs) = drop n xs

  pub length-append : (xs ys : List A) → length (xs ++ ys) ≡ length xs + length ys
  length-append [] ys = omega arith
  length-append (x ∷ xs) ys = omega (arith, length-append xs ys)

  pub length-replicate : (n : ℕ) (a : A) → length (replicate n a) ≡ n
  length-replicate zero a = refl
  length-replicate (suc n) a = ap suc (length-replicate n a)

  pub take-append : (xs ys : List A) → take (length xs) (xs ++ ys) ≡ xs
  take-append [] ys = refl
  take-append (x ∷ xs) ys = ap (◌∷◌ x) (take-append xs ys)

  pub drop-append : (xs ys : List A) → drop (length xs) (xs ++ ys) ≡ ys
  drop-append [] ys = refl
  drop-append (x ∷ xs) ys = drop-append xs ys

-- `iter().any(p)`, `iter().all(p)`, `retain(p)` and `find(p)`.
module _ {ℓ} {A : Type ℓ} where
  abbrev pub any : (A → Bool) → List A → Bool
  any p [] = false
  any p (x ∷ xs) = p x || any p xs

  abbrev pub all : (A → Bool) → List A → Bool
  all p [] = true
  all p (x ∷ xs) = p x && all p xs

  abbrev pub retain : (A → Bool) → List A → List A
  retain p [] = []
  retain p (x ∷ xs) = let rest = retain p xs in if p x then x ∷ rest else rest

  abbrev pub find : (A → Bool) → List A → Option A
  find p [] = none
  find p (x ∷ xs) = let rest = find p xs in if p x then some x else rest

  -- Every element satisfies `P`.
  abbrev pub All {κ} : (A → Type κ) → List A → Type κ
  All P [] = Unit
  All P (x ∷ xs) = P x × All P xs

  -- Some element satisfies `P`.
  pub data Any {κ} (P : A → Type κ) : List A → Type (ℓ ⊔ κ) where
    here : {x : A} {xs : List A} → P x → Any P (x ∷ xs)
    there : {x : A} {xs : List A} → Any P xs → Any P (x ∷ xs)

  -- The element stands in the list.
  abbrev pub Has : List A → A → Type ℓ
  Has xs x = Any (λ y. y ≡ x) xs

module _ {ℓ κ} {A : Type ℓ} (P : A → Type κ) where
  pub All-append : (xs ys : List A) → All P xs → All P ys → All P (xs ++ ys)
  All-append [] ys h k = k
  All-append (x ∷ xs) ys h k = (h.0, All-append xs ys h.1 k)

  pub All-folded : (xs ys : List A) → All P (xs ++ ys) → All P xs
  All-folded [] ys h = tt
  All-folded (x ∷ xs) ys h = (h.0, All-folded xs ys h.1)

  pub All-ahead : (xs ys : List A) → All P (xs ++ ys) → All P ys
  All-ahead [] ys h = h
  All-ahead (x ∷ xs) ys h = All-ahead xs ys h.1

module _ {ℓ} {A : Type ℓ} (p : A → Bool) where
  pub any-append : (xs ys : List A) → any p (xs ++ ys) ≡ (any p xs || any p ys)
  any-append [] ys = refl
  any-append (x ∷ xs) ys = ground (arith, any-append xs ys)

  pub any-retain : (q : A → Bool) (xs : List A) → any p xs ≡ false → any p (retain q xs) ≡ false
  any-retain q [] h = refl
  any-retain q (x ∷ xs) h = ground (arith, any-retain q xs)

pub List-cases {ℓ} :
    {A : Type ℓ} (l : List A) → (l ≡ []) ⊎ ((x : A) × (rest : List A) × (l ≡ x ∷ rest))
List-cases [] = inl refl
List-cases (x ∷ rest) = inr (x, rest, refl)

pub Has-nil : {A : Type 0} {a : A} → Has [] a → ⊥
Has-nil h = elim h [ ]

pub Has-cases : {A : Type 0} {a x : A} {xs : List A} → Has (x ∷ xs) a → (x ≡ a) ⊎ Has xs a
Has-cases (here e) = inl e
Has-cases (there h) = inr h

module _ {A : Type 0} {a x : A} {xs ys : List A} where
  pub Has-under : (Has xs a → Has ys a) → Has (x ∷ xs) a → Has (x ∷ ys) a
  Has-under f (here e) = here e
  Has-under f (there h) = there (f h)

pub Has-swap : {A : Type 0} {a x y : A} {xs : List A} → Has (x ∷ y ∷ xs) a → Has (y ∷ x ∷ xs) a
Has-swap (here e) = there (here e)
Has-swap (there (here e)) = here e
Has-swap (there (there h)) = there (there h)

pub Has-append : {A : Type 0} (xs ys : List A) (a : A) → Has (xs ++ ys) a ↔ (Has xs a ⊎ Has ys a)
Has-append [] ys a = (λ h. inr h, λ h. elim h [ inl k ↦ absurd (Has-nil k) | inr k ↦ k ])
Has-append (x ∷ xs) ys a = (
  λ h. elim (Has-cases h) [
    | inl e ↦ inl (here e)
    | inr k ↦ elim ((Has-append xs ys a).0 k) [ inl m ↦ inl (there m) | inr m ↦ inr m ]
  ],
  λ h. elim h [
    | inl k ↦ elim (Has-cases k) [ inl e ↦ here e | inr m ↦ there ((Has-append xs ys a).1 (inl m)) ]
    | inr m ↦ there ((Has-append xs ys a).1 (inr m))
  ],
)
