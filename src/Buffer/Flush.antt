-- ===== src/Buffer/Flush.antt =====
-- The module `flush` of crates/buffer/src/lib.rs: the rows that a flush keeps of a batch, by their index, and the
-- hours that they go to. The byte keys that rows are compared by are the third-party row converter's, a
-- parameter, as is a column's data but for the times.
use timelakedb.Base.{
  ℕ, zero, suc, ◌+◌, ◌-◌, ◌*◌, ◌/◌, ◌%◌, ◌^◌, Bool, true, false, not, ◌&&◌, ◌||◌, Option, none,
  some, List, [], ◌∷◌, ◌++◌, ltb, leb, ◌==◌, if◌then◌else◌, Result, ok, err, ◌>>=◌,
}
use mathlib.Core.List.{reverse}
use timelakedb.Base.Int.{ℤ, pos, negsuc, min_ℤ, max_ℤ}
use timelakedb.Base.Str.{Str, str, str_eq, str_ltb}
use timelakedb.Base.Sort.{sort_by}
use timelakedb.Catalog.Manifest.Paths.{padded}

-- `div_euclid` and `rem_euclid` by a positive number.
abbrev pub div_euclid : ℤ → ℕ → ℤ
div_euclid (pos n) d = pos (n / d)
div_euclid (negsuc n) d = negsuc (n / d)

abbrev pub rem_euclid : ℤ → ℕ → ℕ
rem_euclid (pos n) d = n % d
rem_euclid (negsuc n) d = d - 1 - n % d

-- `z + 719_468`, which is not negative for the days of an `i64` of nanoseconds.
abbrev pub days_from_era : ℤ → ℕ
days_from_era (pos n) = n + 719468
days_from_era (negsuc n) = 719468 - (n + 1)

unfoldable pub civil_from_days : ℤ → ℕ × ℕ × ℕ
civil_from_days days =
    let z = days_from_era days in
    let era = z / 146097 in
    let doe = z % 146097 in
    let yoe = (doe - doe / 1460 + doe / 36524 - doe / 146096) / 365 in
    let y = yoe + era * 400 in
    let doy = doe - (365 * yoe + yoe / 4 - yoe / 100) in
    let mp = (5 * doy + 2) / 153 in
    let d = doy - (153 * mp + 2) / 5 + 1 in
    let m = if ltb mp 10 then mp + 3 else mp - 9 in (if leb m 2 then y + 1 else y, m, d)

-- YYYYMMDDHH in UTC.
unfoldable pub hour_partition : ℤ → Str
unfolding civil_from_days
hour_partition ts_ns =
    let secs = div_euclid ts_ns 1000000000 in
    let (y, m, d) = civil_from_days (div_euclid secs 86400) in
    padded 4 y ++ padded 2 m ++ padded 2 d ++ padded 2 (rem_euclid secs 86400 / 3600)

-- A column's data: the times, a dictionary of tags, or values of another type.
pub data ColumnData (A : Type 0) : Type 0 where
  nanoseconds : List ℤ → ColumnData A
  tag_values : A → ColumnData A
  other_values : A → ColumnData A

pub record Column (A : Type 0) : Type 0 where
  pub name : Str
  pub content : ColumnData A

-- Column 0 is the time.
pub record Batch (A : Type 0) : Type 0 where
  pub rows : ℕ
  pub time : Column A
  pub others : List (Column A)

abbrev pub is_leading : Option Str → Str → Bool
is_leading none name = false
is_leading (some leading) name = str_eq leading name

module _ {A : Type 0} where
  abbrev pub is_dictionary : ColumnData A → Bool
  is_dictionary (nanoseconds times) = false
  is_dictionary (tag_values a) = true
  is_dictionary (other_values a) = false

  -- `column_by_name`
  abbrev pub named_columns : Str → List (Column A) → List (ColumnData A)
  named_columns name [] = []
  named_columns name (c ∷ columns) =
      let rest = named_columns name columns in if str_eq c.name name then c.content ∷ [] else rest

  -- The leading column, if it is named and there.
  abbrev pub leading_columns : Option Str → List (Column A) → List (ColumnData A)
  leading_columns none columns = []
  leading_columns (some name) columns = named_columns name columns

  abbrev pub tag_columns : Option Str → List (Column A) → List (ColumnData A)
  tag_columns leading [] = []
  tag_columns leading (c ∷ columns) =
      let rest = tag_columns leading columns in
      if is_dictionary c.content && not (is_leading leading c.name) then c.content ∷ rest else rest

  -- The primary key: the leading column, the time, and every other tag.
  unfoldable pub pk_columns : Option Str → Batch A → List (ColumnData A)
  pk_columns leading batch =
      leading_columns leading (batch.time ∷ batch.others)
      ++ batch.time.content ∷ tag_columns leading batch.others

-- The indices of `n` rows, from `first` on.
unfoldable pub indices : ℕ → ℕ → List ℕ
indices first zero = []
indices first (suc n) = first ∷ indices (suc first) n

-- `rows.row(i)` and `times.value(i)`; the index is below the number of rows.
abbrev pub row_key : List Str → ℕ → Str
row_key [] i = []
row_key (k ∷ keys) zero = k
row_key (k ∷ keys) (suc i) = row_key keys i

abbrev pub time_at : List ℤ → ℕ → ℤ
time_at [] i = pos 0
time_at (t ∷ times) zero = t
time_at (t ∷ times) (suc i) = time_at times i

-- By key, and by arrival where keys are equal.
abbrev pub before : (ℕ → Str) → ℕ → ℕ → Bool
before key a b = str_ltb (key a) (key b) || (str_eq (key a) (key b) && ltb a b)

-- The rows kept so far stand with the last one first.
unfoldable pub keep_last : (ℕ → Str) → List ℕ → List ℕ → List ℕ
keep_last key kept [] = reverse kept
keep_last key [] (i ∷ idx) = keep_last key (i ∷ []) idx
keep_last key (prev ∷ kept) (i ∷ idx) =
    let same = keep_last key (i ∷ kept) idx in
    let next = keep_last key (i ∷ prev ∷ kept) idx in
    if str_eq (key prev) (key i) then same else next

-- `parts.entry(hour).or_default().push(i)` for a `u32`, the hours ascending.
unfoldable pub push_part : Str → ℕ → List (Str × List ℕ) → List (Str × List ℕ)
push_part hour i [] = (hour, i ∷ []) ∷ []
push_part hour i ((h, rows) ∷ parts) =
    let rest = push_part hour i parts in
    if str_eq h hour
    then (h, rows ++ i ∷ []) ∷ parts
    else if str_ltb hour h
    then (hour, i ∷ []) ∷ (h, rows) ∷ parts
    else (h, rows) ∷ rest

-- A row's index goes in as a `u32`.
unfoldable pub split_hours : (ℕ → Str) → List ℕ → List (Str × List ℕ) → List (Str × List ℕ)
unfolding push_part
split_hours hour [] parts = parts
split_hours hour (i ∷ kept) parts = split_hours hour kept (push_part (hour i) (i % 2 ^ 32) parts)

-- The rows to keep, in order.
unfoldable pub deduped : (ℕ → Str) → ℕ → List ℕ
unfolding keep_last indices sort_by
deduped key n = keep_last key [] (sort_by (before key) (indices 0 n))

module _ {A : Type 0} (convert_columns : List (ColumnData A) → Result Str (List Str)) where
  -- The split by hour, of a batch whose times are in nanoseconds.
  abbrev pub split_times : List Str → ℕ → ColumnData A → Result Str (List (Str × List ℕ))
  split_times keys n (nanoseconds times) =
      ok (split_hours (λ i. hour_partition (time_at times i)) (deduped (row_key keys) n) [])
  split_times keys n (tag_values a) = err (str "time column is not ns timestamps")
  split_times keys n (other_values a) = err (str "time column is not ns timestamps")

  -- The hours, each with the indices of its rows, which are then taken out of the batch.
  unfoldable pub prepare_ordered : Batch A → Option Str → Result Str (List (Str × List ℕ))
  unfolding pk_columns deduped split_hours hour_partition
  prepare_ordered batch leading = if batch.rows == 0 then ok [] else do
    keys ← convert_columns (pk_columns leading batch)
    split_times keys batch.rows batch.time.content

  unfoldable pub prepare : Batch A → Result Str (List (Str × List ℕ))
  unfolding prepare_ordered
  prepare batch = prepare_ordered batch none

-- The least and the greatest time, from those of the type's range.
unfoldable pub time_bounds : ℤ → ℤ → List ℤ → ℤ × ℤ
time_bounds least greatest [] = (least, greatest)
time_bounds least greatest (v ∷ times) = time_bounds (min_ℤ least v) (max_ℤ greatest v) times
