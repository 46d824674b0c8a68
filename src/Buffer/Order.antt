-- ===== src/Buffer/Order.antt =====
-- The split by hour of a flush in crates/buffer/src/lib.rs keeps the order of the rows.
use timelakedb.Base.{
  ℕ, ◌%◌, ◌^◌, ◌<◌, ◌≡◌, ap, ◌∙◌, refl, true, List, [], ◌∷◌, ◌++◌, All, if_elim, arith,
}
use timelakedb.Base.Str.{Str, str_eq, str_eq_iff, str_ltb, str_ltb_trans, str_ltb_total}
use timelakedb.Buffer.Flush.{push_part, split_hours}
use timelakedb.Buffer.Latest.Rising.{Rising}

abbrev pub Parts : Type 0
Parts = List (Str × List ℕ)

-- The split, of rows whose indices fit 32 bits.
unfoldable pub pushed : (ℕ → Str) → List ℕ → Parts → Parts
pushed hour [] parts = parts
pushed hour (i ∷ kept) parts = pushed hour kept (push_part (hour i) i parts)

pub split_hours-pushed :
    (hour : ℕ → Str) (kept : List ℕ) (parts : Parts)
    → All (λ i. i < 2 ^ 32) kept
    → split_hours hour kept parts ≡ pushed hour kept parts
unfolding split_hours pushed
split_hours-pushed hour [] parts h = refl
split_hours-pushed hour (i ∷ kept) parts h =
    let fits : i % 2 ^ 32 ≡ i = omega (arith, h.0) in
    ap (λ k. split_hours hour kept (push_part (hour i) k parts)) fits
    ∙ split_hours-pushed hour kept (push_part (hour i) i parts) h.1

-- Each hour is less than all that follow.
abbrev pub Ascending : Parts → Type 0
Ascending [] = Unit
Ascending (p ∷ parts) = All (λ q. str_ltb p.0 q.0 ≡ true) parts × Ascending parts

push_part-hours :
    (P : Str → Type 0) (hour : Str) (j : ℕ) (parts : Parts)
    → P hour
    → All (λ q. P q.0) parts
    → All (λ q. P q.0) (push_part hour j parts)
unfolding push_part
push_part-hours P hour j [] h k = (h, tt)
push_part-hours P hour j ((k, rows) ∷ parts) h a =
    if_elim (All (λ q. P q.0)) (str_eq k hour) (λ e. a)
      (λ e.
        if_elim (All (λ q. P q.0)) (str_ltb hour k) (λ f. (h, a))
          (λ f. (a.0, push_part-hours P hour j parts h a.1)))

All-after :
    (a b : Str) (parts : Parts)
    → str_ltb a b ≡ true
    → All (λ q. str_ltb b q.0 ≡ true) parts
    → All (λ q. str_ltb a q.0 ≡ true) parts
All-after a b [] h k = tt
All-after a b (p ∷ parts) h k =
    (ground (arith, str_ltb_trans a b p.0, h, k.0), All-after a b parts h k.1)

push_part-Ascending :
    (hour : Str) (j : ℕ) (parts : Parts) → Ascending parts → Ascending (push_part hour j parts)
unfolding push_part
push_part-Ascending hour j [] h = (tt, tt)
push_part-Ascending hour j ((k, rows) ∷ parts) h =
    if_elim Ascending (str_eq k hour) (λ e. h)
      (λ e.
        if_elim Ascending (str_ltb hour k) (λ f. ((f, All-after hour k parts f h.0), h))
          (λ f.
            let behind : str_ltb k hour ≡ true =
              ground (arith, str_ltb_total k hour, str_eq_iff k hour, e, f) in
            (
              push_part-hours (λ x. str_ltb k x ≡ true) hour j parts behind h.0,
              push_part-Ascending hour j parts h.1,
            )))

All-push : (P : ℕ → Type 0) (rows : List ℕ) (j : ℕ) → All P rows → P j → All P (rows ++ j ∷ [])
All-push P [] j h k = (k, tt)
All-push P (i ∷ rows) j h k = (h.0, All-push P rows j h.1 k)

abbrev AllRows : (ℕ → Type 0) → Parts → Type 0
AllRows P = All (λ p. All P p.1)

push_part-AllRows :
    (P : ℕ → Type 0) (hour : Str) (j : ℕ) (parts : Parts)
    → P j
    → AllRows P parts
    → AllRows P (push_part hour j parts)
unfolding push_part
push_part-AllRows P hour j [] h k = ((h, tt), tt)
push_part-AllRows P hour j ((k, rows) ∷ parts) h a =
    if_elim (AllRows P) (str_eq k hour) (λ e. (All-push P rows j a.0 h, a.1))
      (λ e.
        if_elim (AllRows P) (str_ltb hour k) (λ f. ((h, tt), a))
          (λ f. (a.0, push_part-AllRows P hour j parts h a.1)))

module _ (key : ℕ → Str) where
  abbrev Below : ℕ → ℕ → Type 0
  Below j i = str_ltb (key i) (key j) ≡ true

  Rising-push :
      (rows : List ℕ) (j : ℕ) → Rising key rows → All (Below j) rows → Rising key (rows ++ j ∷ [])
  Rising-push [] j h k = (tt, tt)
  Rising-push (i ∷ rows) j h k =
      (All-push (λ x. str_ltb (key i) (key x) ≡ true) rows j h.0 k.0, Rising-push rows j h.1 k.1)

  -- The rows of every hour are in the order of their keys.
  abbrev pub AllRising : Parts → Type 0
  AllRising = All (λ p. Rising key p.1)

  push_part-AllRising :
      (hour : Str) (j : ℕ) (parts : Parts)
      → AllRows (Below j) parts
      → AllRising parts
      → AllRising (push_part hour j parts)
  unfolding push_part
  push_part-AllRising hour j [] b h = ((tt, tt), tt)
  push_part-AllRising hour j ((k, rows) ∷ parts) b h =
      if_elim AllRising (str_eq k hour) (λ e. (Rising-push rows j h.0 b.0, h.1))
        (λ e.
          if_elim AllRising (str_ltb hour k) (λ f. ((tt, tt), h))
            (λ f. (h.0, push_part-AllRising hour j parts b.1 h.1)))

  pub no_rows_yet : (kept : List ℕ) → All (λ j. AllRows (Below j) []) kept
  no_rows_yet [] = tt
  no_rows_yet (i ∷ kept) = (tt, no_rows_yet kept)

  rows_stay :
      (hour : Str) (i : ℕ) (kept : List ℕ) (parts : Parts)
      → All (λ j. str_ltb (key i) (key j) ≡ true) kept
      → All (λ j. AllRows (Below j) parts) kept
      → All (λ j. AllRows (Below j) (push_part hour i parts)) kept
  rows_stay hour i [] parts h k = tt
  rows_stay hour i (j ∷ kept) parts h k =
      (push_part-AllRows (Below j) hour i parts h.0 k.0, rows_stay hour i kept parts h.1 k.1)

  pub pushed-AllRising :
      (hour : ℕ → Str) (kept : List ℕ) (parts : Parts)
      → Rising key kept
      → All (λ j. AllRows (Below j) parts) kept
      → Ascending parts
      → AllRising parts
      → Ascending (pushed hour kept parts) × AllRising (pushed hour kept parts)
  unfolding pushed
  pushed-AllRising hour [] parts r b a h = (a, h)
  pushed-AllRising hour (i ∷ kept) parts r b a h =
      pushed-AllRising hour kept (push_part (hour i) i parts) r.1
        (rows_stay (hour i) i kept parts r.0 b.1) (push_part-Ascending (hour i) i parts a)
        (push_part-AllRising (hour i) i parts b.0 h)
