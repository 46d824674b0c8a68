-- ===== src/Ingest/Parse.antt =====
-- `parse_line` and `parse_lines` of crates/ingest/src/lib.rs. The loops over tags and fields have fuel of
-- one more than the line's bytes; each round reads a byte at least.
use timelakedb.Base.{
  ℕ, zero, suc, ◌*◌, ◌^◌, Bool, true, not, ◌||◌, Option, none, some, List, [], ◌∷◌, ◌==◌, leb, ltb,
  if◌then◌else◌, Result, ok, err, ◌>>=◌, ok_or, length,
}
use timelakedb.Base.Int.{ℤ, pos, negsuc}
use timelakedb.Base.Str.{Str, str, str_eq}
use timelakedb.Base.Text.{trim, lines_from}
use timelakedb.Wal.Bytes.{is_utf8}
use timelakedb.Buffer.Columns.{F64, FieldValue}
use timelakedb.Buffer.Table.{ParsedLine}
use timelakedb.Ingest.Scan.{
  ParseProblem, empty_measurement, no_field_set, invalid_utf8, bad_timestamp, timestamp_overflow,
  out_of_fuel, tag_without_value, field_without_value, reserved_tag, reserved_field, take_escaped,
  expect, reject_reserved_key,
}
use timelakedb.Ingest.Value.{parse_i64, take_field_value}

unfoldable pub precision_multiplier : Str → Option ℤ
precision_multiplier p =
    if str_eq p (str "ns") || str_eq p (str "n")
    then some (pos 1)
    else if str_eq p (str "us") || str_eq p (str "u")
    then some (pos 1000)
    else if str_eq p (str "ms")
    then some (pos 1000000)
    else if str_eq p (str "s")
    then some (pos 1000000000)
    else none

abbrev pub Pair : Type 0
Pair = Str × Str

-- The tags, and what is behind them.
unfoldable pub parse_tags : ℕ → Str → Result ParseProblem (List Pair × Str)
parse_tags zero s = err out_of_fuel
parse_tags (suc fuel) [] = ok ([], [])
parse_tags (suc fuel) (b ∷ s) = if not (b == 44) then ok ([], b ∷ s) else do
  (key, r) ← take_escaped (61 ∷ []) s
  r ← expect 61 (tag_without_value key) r
  checked ← reject_reserved_key (reserved_tag key) key
  (val, r) ← take_escaped (44 ∷ []) r
  (tags, r) ← parse_tags fuel r
  ok ((key, val) ∷ tags, r)

-- A comma, and what is behind it.
abbrev pub behind_comma : Str → Option Str
behind_comma [] = none
behind_comma (b ∷ s) = if b == 44 then some s else none

unfoldable pub parse_fields :
    (Str → Option F64) → ℕ → Str → Result ParseProblem (List (Str × FieldValue) × Str)
parse_fields parse_f64 zero s = err out_of_fuel
parse_fields parse_f64 (suc fuel) s = do
  (key, r) ← take_escaped (61 ∷ []) s
  r ← expect 61 (field_without_value key) r
  checked ← reject_reserved_key (reserved_field key) key
  (val, r) ← take_field_value parse_f64 r
  elim (behind_comma r) [
    | none ↦ ok ((key, val) ∷ [], r)
    | some more ↦ parse_fields parse_f64 fuel more >>= λ got. ok ((key, val) ∷ got.0, got.1)
  ]

-- `-n` as an `i64`.
abbrev pub negated : ℕ → Option ℤ
negated zero = some (pos 0)
negated (suc n) = if leb (suc n) (2 ^ 63) then some (negsuc n) else none

-- The product, if it is an `i64`.
unfoldable pub checked_mul : ℤ → ℤ → Option ℤ
checked_mul (pos a) (pos b) = if ltb (a * b) (2 ^ 63) then some (pos (a * b)) else none
checked_mul (negsuc a) (negsuc b) =
    if ltb (suc a * suc b) (2 ^ 63) then some (pos (suc a * suc b)) else none
checked_mul (pos a) (negsuc b) = negated (a * suc b)
checked_mul (negsuc a) (pos b) = negated (suc a * b)

abbrev pub scaled : Str → ℤ → ℤ → Result ParseProblem ℤ
scaled [] mult default_ts_ns = ok default_ts_ns
scaled (b ∷ ts) mult default_ts_ns =
    ok_or bad_timestamp (parse_i64 (b ∷ ts)) >>= λ n. ok_or timestamp_overflow (checked_mul n mult)

unfoldable pub parse_timestamp : Str → ℤ → ℤ → Result ParseProblem ℤ
unfolding trim
parse_timestamp [] mult default_ts_ns = ok default_ts_ns
parse_timestamp (b ∷ s) mult default_ts_ns =
    if not (b == 32)
    then ok default_ts_ns
    else if not (is_utf8 s)
    then err invalid_utf8
    else scaled (trim s) mult default_ts_ns

abbrev pub not_empty : Str → Result ParseProblem (Unit {0})
not_empty [] = err empty_measurement
not_empty (b ∷ s) = ok tt

unfoldable pub parse_line : (Str → Option F64) → ℤ → ℤ → Str → Result ParseProblem ParsedLine
parse_line parse_f64 mult default_ts_ns line = do
  (table, r) ← take_escaped (44 ∷ []) line
  named ← not_empty table
  (tags, r) ← parse_tags (suc (length line)) r
  r ← expect 32 no_field_set r
  (fields, r) ← parse_fields parse_f64 (suc (length line)) r
  ts ← parse_timestamp r mult default_ts_ns
  ok (record { table = table; tags = tags; fields = fields; timestamp_ns = ts })

pub record ParseError : Type 0 where
  pub line_no : ℕ
  pub problem : ParseProblem

abbrev pub at_line : {A : Type 0} → ℕ → Result ParseProblem A → Result ParseError A
at_line n (ok a) = ok a
at_line n (err e) = err (record { line_no = n; problem = e })

-- `trim_end_matches('\r')`
unfoldable pub trim_cr : Str → Str
trim_cr [] = []
trim_cr (b ∷ s) =
    let rest = trim_cr s in elim rest [ [] ↦ if b == 13 then [] else b ∷ [] | c ∷ t ↦ b ∷ c ∷ t ]

-- Blank lines and comments.
abbrev pub skipped : Str → Bool
skipped [] = true
skipped (b ∷ s) = b == 35

unfoldable pub parse_each :
    (Str → Option F64) → ℤ → ℤ → ℕ → List Str → Result ParseError (List ParsedLine)
parse_each parse_f64 mult default_ts_ns n [] = ok []
parse_each parse_f64 mult default_ts_ns n (raw ∷ lines) =
    let rest = parse_each parse_f64 mult default_ts_ns (suc n) lines in
    let line = trim_cr raw in
    if skipped line
    then rest
    else at_line n (parse_line parse_f64 mult default_ts_ns line) >>= λ row.
        rest >>= λ rows. ok (row ∷ rows)

-- Lines are numbered from 1.
unfoldable pub parse_lines : (Str → Option F64) → ℤ → ℤ → Str → Result ParseError (List ParsedLine)
unfolding lines_from
parse_lines parse_f64 mult default_ts_ns input =
    parse_each parse_f64 mult default_ts_ns 1 (lines_from [] input)
