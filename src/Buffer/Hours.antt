-- ===== src/Buffer/Hours.antt =====
-- The hours of a flush in crates/buffer/src/lib.rs hold the rows that are kept, each in its own.
mod Tests
use timelakedb.Base.{
  ℕ, zero, suc, ◌^◌, All, ◌+◌, ◌≤◌, ◌<◌, ◌≡◌, ◌≢◌, refl, sym, ap, ◌∙◌, subst, Bool, true, false,
  ◌↔◌, ◌⊎◌, Option, none, some, List, [], ◌∷◌, ◌++◌, if◌then◌else◌, if_elim, Bool-cases, inl, inr,
  Has, here, there, Has-nil, Has-append, Has-cases, Result, ok, err, ◌>>=◌, ◌==◌, arith,
}
use timelakedb.Base.Int.{ℤ}
use timelakedb.Base.Str.{Str, str_eq, str_eq_iff, str_ltb}
use timelakedb.Buffer.Flush.{
  Batch, Column, ColumnData, nanoseconds, pk_columns, hour_partition, indices, row_key, time_at,
  push_part, split_hours, deduped, prepare_ordered, split_times,
}
use timelakedb.Buffer.Order.{
  no_rows_yet, Ascending, AllRising, pushed, split_hours-pushed, pushed-AllRising,
}
use timelakedb.Buffer.Latest.Rising.{Has-All, deduped-Rising}
use timelakedb.Buffer.Latest.{IsLatest, deduped-IsLatest, IsLatest-deduped}

-- The rows of an hour, as all its entries hold them.
pub data InPart (hour : Str) (i : ℕ) : List (Str × List ℕ) → Type 0 where
  in_first :
      {h : Str} {rows : List ℕ} {parts : List (Str × List ℕ)}
      → h ≡ hour
      → Has rows i
      → InPart hour i ((h, rows) ∷ parts)
  in_later :
      {p : Str × List ℕ} {parts : List (Str × List ℕ)}
      → InPart hour i parts
      → InPart hour i (p ∷ parts)

InPart-nil : {hour : Str} {i : ℕ} → InPart hour i [] → ⊥
InPart-nil h = elim h [ ]

only : {a x : ℕ} → Has (x ∷ []) a → x ≡ a
only (here e) = e
only (there h) = absurd (Has-nil h)

pushed_first :
    (k hour h : Str) (i j : ℕ) (rows : List ℕ) (parts : List (Str × List ℕ))
    → k ≡ hour
    → InPart h i ((k, rows ++ j ∷ []) ∷ parts)
    → InPart h i ((k, rows) ∷ parts) ⊎ ((hour ≡ h) × (j ≡ i))
pushed_first k hour h i j rows parts e (in_first f m) = elim ((Has-append rows (j ∷ []) i).0 m) [
  | inl n ↦ inl (in_first f n)
  | inr n ↦ inr (sym e ∙ f, only n)
]
pushed_first k hour h i j rows parts e (in_later m) = inl (in_later m)

pushed_ahead :
    (hour h : Str) (i j : ℕ) (parts : List (Str × List ℕ))
    → InPart h i ((hour, j ∷ []) ∷ parts)
    → InPart h i parts ⊎ ((hour ≡ h) × (j ≡ i))
pushed_ahead hour h i j parts (in_first f m) = inr (f, only m)
pushed_ahead hour h i j parts (in_later m) = inl m

pushed_later :
    (k h : Str) (i : ℕ) (rows : List ℕ) (parts more : List (Str × List ℕ)) (P : Type 0)
    → (InPart h i more → InPart h i parts ⊎ P)
    → InPart h i ((k, rows) ∷ more)
    → InPart h i ((k, rows) ∷ parts) ⊎ P
pushed_later k h i rows parts more P f (in_first e m) = inl (in_first e m)
pushed_later k h i rows parts more P f (in_later m) = elim (f m) [
  | inl n ↦ inl (in_later n)
  | inr p ↦ inr p
]

-- A row stands where it stood, or it is the one that was pushed.
InPart-push_part :
    (hour h : Str) (i j : ℕ) (parts : List (Str × List ℕ))
    → InPart h i (push_part hour j parts)
    → InPart h i parts ⊎ ((hour ≡ h) × (j ≡ i))
unfolding push_part
InPart-push_part hour h i j [] = pushed_ahead hour h i j []
InPart-push_part hour h i j ((k, rows) ∷ parts) =
    if_elim (λ l. InPart h i l → InPart h i ((k, rows) ∷ parts) ⊎ ((hour ≡ h) × (j ≡ i)))
      (str_eq k hour) (λ e. pushed_first k hour h i j rows parts ((str_eq_iff k hour).0 e))
      (λ e.
        if_elim (λ l. InPart h i l → InPart h i ((k, rows) ∷ parts) ⊎ ((hour ≡ h) × (j ≡ i)))
          (str_ltb hour k) (λ f. pushed_ahead hour h i j ((k, rows) ∷ parts))
          (λ f.
            pushed_later k h i rows parts (push_part hour j parts) ((hour ≡ h) × (j ≡ i))
              (InPart-push_part hour h i j parts)))

InPart-kept :
    (k h : Str) (i j : ℕ) (rows : List ℕ) (parts : List (Str × List ℕ))
    → InPart h i ((k, rows) ∷ parts)
    → InPart h i ((k, rows ++ j ∷ []) ∷ parts)
InPart-kept k h i j rows parts (in_first e m) = in_first e ((Has-append rows (j ∷ []) i).1 (inl m))
InPart-kept k h i j rows parts (in_later m) = in_later m

InPart-under :
    (k h : Str) (i : ℕ) (rows : List ℕ) (parts more : List (Str × List ℕ))
    → (InPart h i parts → InPart h i more)
    → InPart h i ((k, rows) ∷ parts)
    → InPart h i ((k, rows) ∷ more)
InPart-under k h i rows parts more f (in_first e m) = in_first e m
InPart-under k h i rows parts more f (in_later m) = in_later (f m)

push_part-keeps :
    (hour h : Str) (i j : ℕ) (parts : List (Str × List ℕ))
    → InPart h i parts
    → InPart h i (push_part hour j parts)
unfolding push_part
push_part-keeps hour h i j [] m = absurd (InPart-nil m)
push_part-keeps hour h i j ((k, rows) ∷ parts) m =
    if_elim (InPart h i) (str_eq k hour) (λ e. InPart-kept k h i j rows parts m)
      (λ e.
        if_elim (InPart h i) (str_ltb hour k) (λ f. in_later m)
          (λ f.
            InPart-under k h i rows parts (push_part hour j parts)
              (push_part-keeps hour h i j parts) m))

push_part-InPart :
    (hour : Str) (j : ℕ) (parts : List (Str × List ℕ)) → InPart hour j (push_part hour j parts)
unfolding push_part
push_part-InPart hour j [] = in_first refl (here refl)
push_part-InPart hour j ((k, rows) ∷ parts) =
    if_elim (InPart hour j) (str_eq k hour)
      (λ e. in_first ((str_eq_iff k hour).0 e) ((Has-append rows (j ∷ []) j).1 (inr (here refl))))
      (λ e.
        if_elim (InPart hour j) (str_ltb hour k) (λ f. in_first refl (here refl))
          (λ f. in_later (push_part-InPart hour j parts)))

module _ (hour : ℕ → Str) where
  pushed-InPart :
      (kept : List ℕ) (parts : List (Str × List ℕ)) (h : Str) (i : ℕ)
      → InPart h i (pushed hour kept parts)
      → InPart h i parts ⊎ (Has kept i × (hour i ≡ h))
  unfolding pushed
  pushed-InPart [] parts h i m = inl m
  pushed-InPart (j ∷ kept) parts h i m =
      elim (pushed-InPart kept (push_part (hour j) j parts) h i m) [
        | inl n ↦ elim (InPart-push_part (hour j) h i j parts n) [
          | inl p ↦ inl p
          | inr (e, f) ↦ inr (here f, ap hour (sym f) ∙ e)
        ]
        | inr (n, e) ↦ inr (there n, e)
      ]

  pushed-keeps :
      (kept : List ℕ) (parts : List (Str × List ℕ)) (h : Str) (i : ℕ)
      → InPart h i parts
      → InPart h i (pushed hour kept parts)
  unfolding pushed
  pushed-keeps [] parts h i m = m
  pushed-keeps (j ∷ kept) parts h i m =
      pushed-keeps kept (push_part (hour j) j parts) h i (push_part-keeps (hour j) h i j parts m)

  InPart-pushed :
      (kept : List ℕ) (parts : List (Str × List ℕ)) (i : ℕ)
      → Has kept i
      → InPart (hour i) i (pushed hour kept parts)
  unfolding pushed
  InPart-pushed [] parts i m = absurd (Has-nil m)
  InPart-pushed (j ∷ kept) parts i (here e) =
      subst (λ k. InPart (hour k) k (pushed hour kept (push_part (hour j) j parts))) e
        (pushed-keeps kept (push_part (hour j) j parts) (hour j) j
          (push_part-InPart (hour j) j parts))
  InPart-pushed (j ∷ kept) parts i (there m) = InPart-pushed kept (push_part (hour j) j parts) i m

indices-below : (first n i : ℕ) → Has (indices first n) i → i < first + n
unfolding indices
indices-below first zero i h = absurd (Has-nil h)
indices-below first (suc n) i h = elim (Has-cases h) [
  | inl e ↦ omega (arith, e)
  | inr k ↦ omega (arith, indices-below (suc first) n i k)
]

-- The rows that are kept of as many as a `u32` can count.
deduped-fits : (key : ℕ → Str) (n : ℕ) → n ≤ 2 ^ 32 → All (λ i. i < 2 ^ 32) (deduped key n)
deduped-fits key n h =
    Has-All (λ i. i < 2 ^ 32) (deduped key n)
      (λ i k. omega (arith, h, indices-below 0 n i (deduped-IsLatest key n i k).0))

-- A batch of at least one row and at most 2^32, whose rows are compared by `keys`, and whose times are
-- in nanoseconds, is split so that a row stands in an hour exactly if that is the hour of its time and
-- no later row has its key. Each hour stands once, the hours ascending, and each row once in its hour,
-- the rows of an hour in strictly ascending order of their keys.
pub prepare_ordered-Latest :
    {A : Type 0} (convert_columns : List (ColumnData A) → Result Str (List Str)) (batch : Batch A)
    (leading : Option Str) (keys : List Str) (times : List ℤ)
    → batch.rows ≢ 0
    → batch.rows ≤ 2 ^ 32
    → convert_columns (pk_columns leading batch) ≡ ok keys
    → batch.time.content ≡ nanoseconds times
    → (parts : List (Str × List ℕ)) × (prepare_ordered convert_columns batch leading ≡ ok parts)
      × ((h : Str) (i : ℕ)
          → InPart h i parts ↔ (
              IsLatest (row_key keys) (indices 0 batch.rows) i
              × (hour_partition (time_at times i) ≡ h)))
      × Ascending parts
      × AllRising (row_key keys) parts
unfolding prepare_ordered
prepare_ordered-Latest convert_columns batch leading keys times some_rows few converted timed =
    let hour : ℕ → Str = λ i. hour_partition (time_at times i) in
    let kept = deduped (row_key keys) batch.rows in
    let more : (batch.rows == 0) ≡ false = ground arith in
    let sorted =
      pushed-AllRising (row_key keys) hour kept [] (deduped-Rising (row_key keys) batch.rows)
        (no_rows_yet (row_key keys) kept) tt tt in
    (
      pushed hour kept [],
      rw (more, converted, timed)
          (ap ok (split_hours-pushed hour kept [] (deduped-fits (row_key keys) batch.rows few))),
      λ h i. (
        λ m. elim (pushed-InPart hour kept [] h i m) [
          | inl n ↦ absurd (InPart-nil n)
          | inr (n, e) ↦ (deduped-IsLatest (row_key keys) batch.rows i n, e)
        ],
        λ (m, e).
            subst (λ k. InPart k i (pushed hour kept [])) e
              (InPart-pushed hour kept [] i (IsLatest-deduped (row_key keys) batch.rows i m)),
      ),
      sorted.0,
      sorted.1,
    )
