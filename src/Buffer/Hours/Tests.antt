-- ===== src/Buffer/Hours/Tests.antt =====
-- A flush of crates/buffer/src/lib.rs at a concrete batch, and hours.
use timelakedb.Base.{ℕ, ◌≡◌, ◌↔◌, refl, none, List, [], ◌∷◌, ◌++◌, map, Result, ok, arith}
use timelakedb.Base.Int.{ℤ, pos, negsuc, pos_part}
use timelakedb.Base.Str.{Str, str, str_eq, str_ltb}
use timelakedb.Base.Decimal.{decimal, digits_from}
use timelakedb.Base.Sort.{insert_by, sort_by}
use timelakedb.Catalog.Manifest.Paths.{padded}
use timelakedb.Buffer.Flush.{
  Batch, ColumnData, nanoseconds, tag_values, other_values, pk_columns, hour_partition, indices,
  row_key, time_at, push_part, keep_last, prepare_ordered, time_bounds,
}
use timelakedb.Buffer.Order.{Ascending, AllRising}
use timelakedb.Buffer.Latest.{IsLatest}
use timelakedb.Buffer.Hours.{InPart, prepare_ordered-Latest}

-- A row's key is the texts of its cells, each behind a zero byte.
abbrev cells : ColumnData (List Str) → List Str
cells (nanoseconds times) = map (λ t. decimal (pos_part t)) times
cells (tag_values texts) = texts
cells (other_values texts) = texts

abbrev beside : List Str → List Str → List Str
beside [] keys = []
beside (c ∷ column) [] = (0 ∷ c) ∷ beside column []
beside (c ∷ column) (k ∷ keys) = (0 ∷ (c ++ k)) ∷ beside column keys

abbrev rows_of : List (ColumnData (List Str)) → List Str
rows_of [] = []
rows_of (c ∷ columns) = beside (cells c) (rows_of columns)

abbrev convert : List (ColumnData (List Str)) → Result Str (List Str)
convert columns = ok (rows_of columns)

-- The first row is written again by the third, the second lies in the next hour.
abbrev times : List ℤ
times = pos 0 ∷ pos 3600000000000 ∷ pos 0 ∷ []

abbrev batch : Batch (List Str)
batch = record {
  rows = 3;
  time = record { name = str "time"; content = nanoseconds times };
  others =
      record { name = str "host"; content = tag_values (str "a" ∷ str "a" ∷ str "a" ∷ []) }
      ∷ record { name = str "v"; content = other_values (str "1" ∷ str "2" ∷ str "3" ∷ []) }
      ∷ [];
}

split :
    prepare_ordered convert batch none
    ≡ ok ((str "1970010100", 2 ∷ []) ∷ (str "1970010101", 1 ∷ []) ∷ [])
unfolding prepare_ordered push_part str_eq str_ltb insert_by sort_by indices keep_last padded
    digits_from decimal
split = refl

prepare_ordered-Latest_example :
    (parts : List (Str × List ℕ)) × (prepare_ordered convert batch none ≡ ok parts)
    × ((h : Str) (i : ℕ)
        → InPart h i parts ↔ (
            IsLatest (row_key (rows_of (pk_columns none batch))) (indices 0 3) i
            × (hour_partition (time_at times i) ≡ h)))
    × Ascending parts
    × AllRising (row_key (rows_of (pk_columns none batch))) parts
prepare_ordered-Latest_example =
    prepare_ordered-Latest convert batch none (rows_of (pk_columns none batch)) times
      (λ e. absurd (omega (arith, e))) (omega arith) refl refl

hours :
    (hour_partition (pos 1786179600000000000) ≡ str "2026080809")
    × (hour_partition (negsuc 0) ≡ str "1969123123")
unfolding hour_partition padded
hours = (refl, refl)

bounds : time_bounds (pos 9) (pos 1) times ≡ (pos 0, pos 3600000000000)
unfolding time_bounds
bounds = refl
