-- ===== src/Compaction/Overlap.antt =====
-- The overlap test of crates/server/src/compaction.rs against a test of every pair of files.
use timelakedb.Base.{
  ℕ, suc, ◌≡◌, refl, sym, ap, ◌∙◌, ◌≢◌, inl, inr, Bool, true, false, ◌&&◌, ◌||◌, List, [], ◌∷◌, map,
  length, ltb, if◌then◌else◌, any, All, arith, Bool-cases, if_elim,
}
use mathlib.Core.Path.{◌≡⟨◌⟩◌, ◌∎}
use timelakedb.Base.Int.{ℤ, ltb_ℤ, max_ℤ, ◌≤ℤ◌}
use timelakedb.Base.Sort.{
  All-insert_by, All-sort_by, sort_by, insert_by, any-insert_by, any-sort_by,
}
use timelakedb.Catalog.Entry.{FileMeta}
use timelakedb.Compaction.Trigger.{range_before, range_of, reaches, overlap_in, has_overlap}

abbrev Range : Type 0
Range = ℤ × ℤ

-- Each of the two starts strictly before the other ends. Ranges that only touch do not, while an
-- instant strictly inside a range does.
abbrev pub overlaps : Range → Range → Bool
overlaps a b = ltb_ℤ a.0 b.1 && ltb_ℤ b.0 a.1

-- Some two elements, in whatever places, satisfy the test.
abbrev pub any_pair : {A : Type 0} → (A → A → Bool) → List A → Bool
any_pair p [] = false
any_pair p (x ∷ xs) = any (p x) xs || any_pair p xs

abbrev pub IsRange : Range → Type 0
IsRange a = a.0 ≤ℤ a.1

module _ {A : Type 0} (before : A → A → Bool) (p : A → A → Bool)
    (comm : (a b : A) → p a b ≡ p b a) where
  any_pair-insert_by :
      (x : A) (ys : List A) → any_pair p (insert_by before x ys) ≡ (any (p x) ys || any_pair p ys)
  unfolding insert_by
  any_pair-insert_by x [] = refl
  any_pair-insert_by x (y ∷ ys) =
      ground (arith, any_pair-insert_by x ys, any-insert_by before (p y) x ys, comm x y)

  -- Sorting does not change whether there is such a pair.
  any_pair-sort_by : (xs : List A) → any_pair p (sort_by before xs) ≡ any_pair p xs
  unfolding sort_by
  any_pair-sort_by [] = refl
  any_pair-sort_by (x ∷ xs) = ground (
    arith,
    any_pair-insert_by x (sort_by before xs),
    any-sort_by before (p x) xs,
    any_pair-sort_by xs,
  )

overlaps_comm : (a b : Range) → overlaps a b ≡ overlaps b a
overlaps_comm a b = ground arith

abbrev NotAfter : Range → Range → Type 0
NotAfter a b = range_before b a ≡ false

abbrev IsSorted : List Range → Type 0
IsSorted [] = Unit
IsSorted (a ∷ ranges) = All (NotAfter a) ranges × IsSorted ranges

NotAfter-trans : (a b c : Range) → NotAfter a b → NotAfter b c → NotAfter a c
NotAfter-trans a b c h k = ground arith

NotAfter-of_before : (a b : Range) → range_before a b ≡ true → NotAfter a b
NotAfter-of_before a b h = ground arith

All-NotAfter :
    (a b : Range) (ranges : List Range)
    → NotAfter a b
    → All (NotAfter b) ranges
    → All (NotAfter a) ranges
All-NotAfter a b [] h k = tt
All-NotAfter a b (c ∷ ranges) h k = (NotAfter-trans a b c h k.0, All-NotAfter a b ranges h k.1)

insert_by-IsSorted :
    (x : Range) (ys : List Range) → IsSorted ys → IsSorted (insert_by range_before x ys)
unfolding insert_by
insert_by-IsSorted x [] h = (tt, tt)
insert_by-IsSorted x (y ∷ ys) h =
    if_elim IsSorted (range_before y x)
      (λ e. (
        All-insert_by range_before (NotAfter y) x ys (NotAfter-of_before y x e) h.0,
        insert_by-IsSorted x ys h.1,
      ))
      (λ e. ((e, All-NotAfter x y ys e h.0), h))

sort_by-IsSorted : (xs : List Range) → IsSorted (sort_by range_before xs)
unfolding sort_by
sort_by-IsSorted [] = tt
sort_by-IsSorted (x ∷ xs) = insert_by-IsSorted x (sort_by range_before xs) (sort_by-IsSorted xs)

-- Of two sorted ranges, the second meets the first if it starts before the first's end.
overlaps-NotAfter : (a b : Range) → IsRange b → NotAfter a b → overlaps a b ≡ ltb_ℤ b.0 a.1
overlaps-NotAfter a b r h = ground arith

ltb_ℤ-max_ℤ : (a f e : ℤ) → ltb_ℤ a (max_ℤ f e) ≡ (ltb_ℤ a f || ltb_ℤ a e)
ltb_ℤ-max_ℤ a f e = ground arith

shuffle : (a b c d : Bool) → ((a || b) || (c || d)) ≡ ((a || c) || (b || d))
shuffle a b c d = ground arith

any-later :
    (furthest : ℤ) (a : Range) (ranges : List Range)
    → IsRange a
    → All IsRange ranges
    → All (NotAfter a) ranges
    → any (λ b. ltb_ℤ b.0 (max_ℤ furthest a.1)) ranges
      ≡ (any (λ b. ltb_ℤ b.0 furthest) ranges || any (overlaps a) ranges)
any-later furthest a [] r rs h = refl
any-later furthest a (b ∷ ranges) r rs h =
    ltb_ℤ b.0 (max_ℤ furthest a.1) || any (λ c. ltb_ℤ c.0 (max_ℤ furthest a.1)) ranges
    ≡⟨ ap (λ t. t || any (λ c. ltb_ℤ c.0 (max_ℤ furthest a.1)) ranges)
        (ltb_ℤ-max_ℤ b.0 furthest a.1
          ∙ ap (λ t. ltb_ℤ b.0 furthest || t) (sym (overlaps-NotAfter a b rs.0 h.0))) ⟩
      (ltb_ℤ b.0 furthest || overlaps a b) || any (λ c. ltb_ℤ c.0 (max_ℤ furthest a.1)) ranges
    ≡⟨ ap (λ t. (ltb_ℤ b.0 furthest || overlaps a b) || t)
        (any-later furthest a ranges r rs.1 h.1) ⟩
      (ltb_ℤ b.0 furthest || overlaps a b)
      || (any (λ c. ltb_ℤ c.0 furthest) ranges || any (overlaps a) ranges)
    ≡⟨ shuffle (ltb_ℤ b.0 furthest) (overlaps a b) (any (λ c. ltb_ℤ c.0 furthest) ranges)
        (any (overlaps a) ranges) ⟩
      any (λ c. ltb_ℤ c.0 furthest) (b ∷ ranges) || any (overlaps a) (b ∷ ranges) ∎

any-starts :
    (a : Range) (ranges : List Range)
    → All IsRange ranges
    → All (NotAfter a) ranges
    → any (λ b. ltb_ℤ b.0 a.1) ranges ≡ any (overlaps a) ranges
any-starts a [] r h = refl
any-starts a (b ∷ ranges) r h =
    ap (λ t. t || any (λ c. ltb_ℤ c.0 a.1) ranges) (sym (overlaps-NotAfter a b r.0 h.0))
    ∙ ap (λ t. overlaps a b || t) (any-starts a ranges r.1 h.1)

grouped :
    (t rest a b c d : Bool)
    → rest ≡ (a || b)
    → a ≡ (c || d)
    → (if t then true else rest) ≡ ((t || c) || (d || b))
grouped t rest a b c d h k = ground arith

not_few : (n : ℕ) → ltb (suc (suc n)) 2 ≢ true
not_few n h = ground arith

-- The scan finds the ranges that start before the end given, and the pairs that overlap.
reaches-IsSorted :
    (furthest : ℤ) (ranges : List Range)
    → All IsRange ranges
    → IsSorted ranges
    → reaches furthest ranges ≡ (any (λ b. ltb_ℤ b.0 furthest) ranges || any_pair overlaps ranges)
unfolding reaches
reaches-IsSorted furthest [] r h = refl
reaches-IsSorted furthest (a ∷ ranges) r h =
    grouped (ltb_ℤ a.0 furthest) (reaches (max_ℤ furthest a.1) ranges)
      (any (λ c. ltb_ℤ c.0 (max_ℤ furthest a.1)) ranges) (any_pair overlaps ranges)
      (any (λ c. ltb_ℤ c.0 furthest) ranges) (any (overlaps a) ranges)
      (reaches-IsSorted (max_ℤ furthest a.1) ranges r.1 h.1)
      (any-later furthest a ranges r.0 r.1 h.0)

overlap_in-IsSorted :
    (ranges : List Range)
    → All IsRange ranges
    → IsSorted ranges
    → overlap_in ranges ≡ any_pair overlaps ranges
unfolding overlap_in
overlap_in-IsSorted [] r h = refl
overlap_in-IsSorted (a ∷ ranges) r h =
    reaches-IsSorted a.1 ranges r.1 h.1
    ∙ ap (λ t. t || any_pair overlaps ranges) (any-starts a ranges r.1 h.0)

-- The files' ranges end no sooner than they start.
abbrev pub AreRanges : List FileMeta → Type 0
AreRanges files = All (λ f. f.min_ts_ns ≤ℤ f.max_ts_ns) files

ranges-All : (files : List FileMeta) → AreRanges files → All IsRange (map range_of files)
ranges-All [] h = tt
ranges-All (f ∷ files) h = (h.0, ranges-All files h.1)

few_pairs :
    (files : List FileMeta)
    → ltb (length files) 2 ≡ true
    → any_pair overlaps (map range_of files) ≡ false
few_pairs [] h = refl
few_pairs (f ∷ []) h = refl
few_pairs (f ∷ g ∷ files) h = absurd (not_few (length files) h)

-- Of files whose ranges end no sooner than they start, in whatever order they stand, the sweep finds
-- an overlap exactly if there are two of them of which each starts strictly before the other ends.
pub has_overlap-any_pair :
    (files : List FileMeta)
    → AreRanges files
    → has_overlap files ≡ any_pair overlaps (map range_of files)
unfolding has_overlap
has_overlap-any_pair files h = elim (Bool-cases (ltb (length files) 2)) [
  | inl few ↦ rw few (sym (few_pairs files few))
  | inr more ↦ rw more (
      overlap_in-IsSorted (sort_by range_before (map range_of files))
        (All-sort_by range_before IsRange (map range_of files) (ranges-All files h))
        (sort_by-IsSorted (map range_of files))
      ∙ any_pair-sort_by range_before overlaps overlaps_comm (map range_of files))
]
