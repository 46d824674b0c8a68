-- ===== src/Buffer/Latest/Rising.antt =====
-- The rows that a flush of crates/buffer/src/lib.rs keeps are in the order of their keys, no two of one key.
use timelakedb.Base.{
  ℕ, ◌≡◌, ◌≢◌, true, sym, subst, List, [], ◌∷◌, All, Has, here, there, refl, Bool-cases, inl, inr,
  arith,
}
use timelakedb.Base.Str.{Str, str_eq, str_eq_iff, str_ltb}
use timelakedb.Base.Sort.{sort_by}
use timelakedb.Buffer.Flush.{indices, before, deduped}
use timelakedb.Buffer.Latest.{All-Has, Ordered, Ordered-ne, lasts, keep_last-nil, sort_by-Ordered}

pub Has-All : {A : Type 0} (P : A → Type 0) (xs : List A) → ((a : A) → Has xs a → P a) → All P xs
Has-All P [] h = tt
Has-All P (x ∷ xs) h = (h x (here refl), Has-All P xs (λ a k. h a (there k)))

module _ (key : ℕ → Str) where
  -- Each row's key is less than the keys of all that follow.
  abbrev pub Rising : List ℕ → Type 0
  Rising [] = Unit
  Rising (i ∷ rows) = All (λ j. str_ltb (key i) (key j) ≡ true) rows × Rising rows

  All-lasts : (P : ℕ → Type 0) (idx : List ℕ) → All P idx → All P (lasts key idx)
  unfolding lasts
  All-lasts P [] h = tt
  All-lasts P (i ∷ []) h = h
  All-lasts P (i ∷ j ∷ idx) h = elim (Bool-cases (str_eq (key i) (key j))) [
    | inl e ↦ rw e (All-lasts P (j ∷ idx) h.1)
    | inr e ↦ rw e (h.0, All-lasts P (j ∷ idx) h.1)
  ]

  before-ne : (a b : ℕ) → before key a b ≡ true → key b ≢ key a → str_ltb (key a) (key b) ≡ true
  before-ne a b h e = elim (Bool-cases (str_eq (key a) (key b))) [
    | inl f ↦ absurd (e (sym ((str_eq_iff (key a) (key b)).0 f)))
    | inr f ↦ ground (arith, h, f)
  ]

  lasts-Rising : (idx : List ℕ) → Ordered key idx → Rising (lasts key idx)
  unfolding lasts
  lasts-Rising [] o = tt
  lasts-Rising (x ∷ []) o = (tt, tt)
  lasts-Rising (x ∷ y ∷ idx) o = elim (Bool-cases (str_eq (key x) (key y))) [
    | inl e ↦ rw e (lasts-Rising (y ∷ idx) o.1)
    | inr e ↦
        let higher : All (λ j. str_ltb (key x) (key j) ≡ true) (y ∷ idx) =
          Has-All (λ j. str_ltb (key x) (key j) ≡ true) (y ∷ idx)
            (λ j k.
              before-ne x j (All-Has (λ j. before key x j ≡ true) (y ∷ idx) j o.0 k)
                (Ordered-ne key x y idx j o.0.0 e o.1.0 k)) in
        rw e (
          All-lasts (λ j. str_ltb (key x) (key j) ≡ true) (y ∷ idx) higher,
          lasts-Rising (y ∷ idx) o.1,
        )
  ]

  pub deduped-Rising : (n : ℕ) → Rising (deduped key n)
  unfolding deduped
  deduped-Rising n =
      subst Rising (sym (keep_last-nil key (sort_by (before key) (indices 0 n))))
        (lasts-Rising (sort_by (before key) (indices 0 n)) (sort_by-Ordered key 0 n))
