-- ===== src/Buffer/Latest.antt =====
-- A flush of crates/buffer/src/lib.rs keeps the last row of every primary key.
pub mod Rising
use timelakedb.Base.{
  ℕ, zero, suc, ◌≤◌, ◌<◌, ◌≡◌, ◌≢◌, refl, sym, ap, ◌∙◌, subst, true, false, List, [], ◌∷◌, ◌++◌,
  if◌then◌else◌, if_elim, Bool-cases, inl, inr, All, Has, here, there, arith,
}
use timelakedb.Base.{Has-nil, Has-cases}
use mathlib.Core.List.{reverse, reverse-append, append_assoc}
use timelakedb.Base.Str.{
  Str, str_eq, str_eq_iff, str_ltb, str_ltb_irrefl, str_ltb_asymm, str_ltb_trans, str_ltb_total,
}
use timelakedb.Base.Sort.{sort_by, insert_by, All-insert_by, All-sort_by, Has-sort_by}
use timelakedb.Buffer.Flush.{indices, before, keep_last, deduped}

only : {A : Type 0} {a x : A} → Has (x ∷ []) a → x ≡ a
only (here e) = e
only (there h) = absurd (Has-nil h)

All-Has : {A : Type 0} (P : A → Type 0) (xs : List A) (a : A) → All P xs → Has xs a → P a
All-Has P [] a h k = absurd (Has-nil k)
All-Has P (x ∷ xs) a h (here e) = subst P e h.0
All-Has P (x ∷ xs) a h (there k) = All-Has P xs a h.1 k

indices-above : (x first n : ℕ) → x < first → All (λ y. x < y) (indices first n)
unfolding indices
indices-above x first zero h = tt
indices-above x first (suc n) h = (h, indices-above x (suc first) n (omega arith))

module _ (key : ℕ → Str) where
  -- Each stands before all that follow.
  abbrev Ordered : List ℕ → Type 0
  Ordered [] = Unit
  Ordered (i ∷ idx) = All (λ j. before key i j ≡ true) idx × Ordered idx

  before_trans : (a b c : ℕ) → before key a b ≡ true → before key b c ≡ true → before key a c ≡ true
  before_trans a b c h k = ground (
    arith,
    str_eq_iff (key a) (key b),
    str_eq_iff (key b) (key c),
    str_eq_iff (key a) (key c),
    str_ltb_trans (key a) (key b) (key c),
  )

  before_total : (a b : ℕ) → before key b a ≡ false → a < b → before key a b ≡ true
  before_total a b h k =
      ground (
        arith,
        str_eq_iff (key a) (key b),
        str_eq_iff (key b) (key a),
        str_ltb_total (key b) (key a),
      )

  -- Of two rows of one key, the one ahead arrived first.
  before_same : (a b : ℕ) → before key a b ≡ true → key a ≡ key b → a < b
  before_same a b h e =
      ground (arith, str_ltb_irrefl (key a), ap (str_ltb (key a)) e, str_eq_iff (key a) (key b))

  All-later :
      (x y : ℕ) (ys : List ℕ)
      → before key x y ≡ true
      → All (λ j. before key y j ≡ true) ys
      → All (λ j. before key x j ≡ true) ys
  All-later x y [] h k = tt
  All-later x y (z ∷ ys) h k = (before_trans x y z h k.0, All-later x y ys h k.1)

  insert_by-Ordered :
      (x : ℕ) (ys : List ℕ)
      → All (λ y. x < y) ys
      → Ordered ys
      → Ordered (insert_by (before key) x ys)
  unfolding insert_by
  insert_by-Ordered x [] h o = (tt, tt)
  insert_by-Ordered x (y ∷ ys) h o =
      if_elim Ordered (before key y x)
        (λ e. (
          All-insert_by (before key) (λ j. before key y j ≡ true) x ys e o.0,
          insert_by-Ordered x ys h.1 o.1,
        ))
        (λ e. let first = before_total x y e h.0 in ((first, All-later x y ys first o.0), o))

  sort_by-Ordered : (first n : ℕ) → Ordered (sort_by (before key) (indices first n))
  unfolding sort_by indices
  sort_by-Ordered first zero = tt
  sort_by-Ordered first (suc n) =
      insert_by-Ordered first (sort_by (before key) (indices (suc first) n))
        (All-sort_by (before key) (λ y. first < y) (indices (suc first) n)
          (indices-above first (suc first) n (omega arith)))
        (sort_by-Ordered (suc first) n)

  -- Of each run of one key, the last.
  unfoldable lasts : List ℕ → List ℕ
  lasts [] = []
  lasts (i ∷ []) = i ∷ []
  lasts (i ∷ j ∷ idx) =
      let rest = lasts (j ∷ idx) in if str_eq (key i) (key j) then rest else i ∷ rest

  keep_last-lasts :
      (prev : ℕ) (kept idx : List ℕ)
      → keep_last key (prev ∷ kept) idx ≡ reverse kept ++ lasts (prev ∷ idx)
  unfolding keep_last lasts
  keep_last-lasts prev kept [] = reverse-append (prev ∷ []) kept
  keep_last-lasts prev kept (i ∷ idx) = elim (Bool-cases (str_eq (key prev) (key i))) [
    | inl e ↦ rw e (keep_last-lasts i kept idx)
    | inr e ↦ rw e (
        keep_last-lasts i (prev ∷ kept) idx
        ∙ (ap (λ l. l ++ lasts (i ∷ idx)) (reverse-append (prev ∷ []) kept)
            ∙ append_assoc (reverse kept) (prev ∷ []) (lasts (i ∷ idx))))
  ]

  keep_last-nil : (idx : List ℕ) → keep_last key [] idx ≡ lasts idx
  unfolding keep_last lasts
  keep_last-nil [] = refl
  keep_last-nil (i ∷ idx) = keep_last-lasts i [] idx

  -- A row of the list with no later one of its key.
  abbrev pub IsLatest : List ℕ → ℕ → Type 0
  IsLatest idx i = Has idx i × ((j : ℕ) → Has idx j → key j ≡ key i → j ≤ i)

  Ordered-lt :
      (i : ℕ) (idx : List ℕ) (j : ℕ)
      → All (λ j. before key i j ≡ true) idx
      → Has idx j
      → key i ≡ key j
      → i < j
  Ordered-lt i [] j h k e = absurd (Has-nil k)
  Ordered-lt i (x ∷ idx) j h (here f) e =
      subst (λ y. i < y) f (before_same i x h.0 (e ∙ ap key (sym f)))
  Ordered-lt i (x ∷ idx) j h (there k) e = Ordered-lt i idx j h.1 k e

  strictly_behind :
      (a b c : ℕ)
      → before key a b ≡ true
      → str_eq (key a) (key b) ≡ false
      → before key b c ≡ true
      → key c ≢ key a
  strictly_behind a b c h e k f = ground (
    arith,
    str_ltb_asymm (key a) (key b),
    str_eq_iff (key b) (key c),
    str_eq_iff (key a) (key b),
    ap (str_ltb (key b)) f,
  )

  -- No key comes back behind another one.
  Ordered-ne :
      (i x : ℕ) (idx : List ℕ) (j : ℕ)
      → before key i x ≡ true
      → str_eq (key i) (key x) ≡ false
      → All (λ j. before key x j ≡ true) idx
      → Has (x ∷ idx) j
      → key j ≢ key i
  Ordered-ne i x idx j h e o (here k) =
      λ f. absurd (cc (e, (str_eq_iff (key i) (key x)).1 (sym f ∙ ap key (sym k))))
  Ordered-ne i x (y ∷ idx) j h e o (there k) =
      strictly_behind i x j h e (All-Has (λ j. before key x j ≡ true) (y ∷ idx) j o k)
  Ordered-ne i x [] j h e o (there k) = λ f. Has-nil k

  ahead-IsLatest :
      (x : ℕ) (idx : List ℕ) (i : ℕ)
      → All (λ j. before key x j ≡ true) idx
      → IsLatest idx i
      → IsLatest (x ∷ idx) i
  ahead-IsLatest x idx i o h = (
    there h.0,
    λ j k e. elim (Has-cases k) [
      | inl f ↦
          let behind = Ordered-lt x idx i o h.0 (ap key f ∙ e) in
          subst (λ y. y ≤ i) f (omega (arith, behind))
      | inr k' ↦ h.1 j k' e
    ],
  )

  lasts-IsLatest : (idx : List ℕ) (i : ℕ) → Ordered idx → Has (lasts idx) i → IsLatest idx i
  unfolding lasts
  lasts-IsLatest [] i o h = absurd (Has-nil h)
  lasts-IsLatest (x ∷ []) i o h = (h, λ j k e. omega (arith, only h, only k))
  lasts-IsLatest (x ∷ y ∷ idx) i o h = elim (Bool-cases (str_eq (key x) (key y))) [
    | inl e ↦ ahead-IsLatest x (y ∷ idx) i o.0 (lasts-IsLatest (y ∷ idx) i o.1 (rw e at h))
    | inr e ↦ elim (Has-cases (let h' : Has (x ∷ lasts (y ∷ idx)) i = rw e at h in h')) [
      | inl f ↦ (
        here f,
        λ j k g. elim (Has-cases k) [
          | inl f' ↦ omega (arith, f, f')
          | inr k' ↦ absurd (Ordered-ne x y idx j o.0.0 e o.1.0 k' (g ∙ ap key (sym f)))
        ],
      )
      | inr m ↦ ahead-IsLatest x (y ∷ idx) i o.0 (lasts-IsLatest (y ∷ idx) i o.1 m)
    ]
  ]

  IsLatest-lasts : (idx : List ℕ) (i : ℕ) → Ordered idx → IsLatest idx i → Has (lasts idx) i
  unfolding lasts
  IsLatest-lasts [] i o h = h.0
  IsLatest-lasts (x ∷ []) i o h = h.0
  IsLatest-lasts (x ∷ y ∷ idx) i o h = elim (Has-cases h.0) [
    | inl f ↦ elim (Bool-cases (str_eq (key x) (key y))) [
      | inl e ↦
          let same = (str_eq_iff (key x) (key y)).0 e in
          absurd (
            omega (
              arith,
              f,
              h.1 y (there (here refl)) (sym same ∙ ap key f),
              before_same x y o.0.0 same,
            ))
      | inr e ↦ rw e (here f)
    ]
    | inr m ↦
        let later = IsLatest-lasts (y ∷ idx) i o.1 (m, λ j k. h.1 j (there k)) in
        if_elim (λ l. Has l i) (str_eq (key x) (key y)) (λ e. later) (λ e. there later)
  ]

  pub deduped-IsLatest : (n i : ℕ) → Has (deduped key n) i → IsLatest (indices 0 n) i
  unfolding deduped
  deduped-IsLatest n i h =
      let l = sort_by (before key) (indices 0 n) in
      let (m, later) =
        lasts-IsLatest l i (sort_by-Ordered 0 n) (subst (λ k. Has k i) (keep_last-nil l) h) in
      (
        (Has-sort_by (before key) (indices 0 n) i).0 m,
        λ j k. later j ((Has-sort_by (before key) (indices 0 n) j).1 k),
      )

  pub IsLatest-deduped : (n i : ℕ) → IsLatest (indices 0 n) i → Has (deduped key n) i
  unfolding deduped
  IsLatest-deduped n i h =
      let l = sort_by (before key) (indices 0 n) in
      subst (λ k. Has k i) (sym (keep_last-nil l))
        (IsLatest-lasts l i (sort_by-Ordered 0 n) (
          (Has-sort_by (before key) (indices 0 n) i).1 h.0,
          λ j k. h.1 j ((Has-sort_by (before key) (indices 0 n) j).0 k),
        ))
