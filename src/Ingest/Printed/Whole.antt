-- ===== src/Ingest/Printed/Whole.antt =====
-- `parse_lines` of crates/ingest/src/lib.rs reads back what `to_line_protocol` prints.
use timelakedb.Base.{
  ℕ, suc, ◌≡◌, ◌≢◌, refl, sym, subst, ◌∙◌, ap, Bool, true, false, Option, some, List, [], ◌∷◌, ◌++◌,
  Result, ok, All, arith,
}
use mathlib.Core.List.{append_assoc}
use timelakedb.Base.Int.{ℤ, pos}
use timelakedb.Base.Str.{Str}
use timelakedb.Base.Text.{lines_from, strip_cr}
use timelakedb.Base.Decimal.{decimal, decimal-IsDigit}
use timelakedb.Buffer.Columns.{F64, FieldValue, float, int, uint, boolean, text}
use timelakedb.Buffer.Table.{ParsedLine}
use timelakedb.Ingest.Parse.{ParseError, parse_line, parse_each, parse_lines, skipped, trim_cr}
use timelakedb.Ingest.Print.{
  escape_into, quote_into, value_text, tags_text, fields_text, i64_text, row_text, to_line_protocol,
}
use timelakedb.Ingest.Printed.Numbers.{digit-IsGraphic, i64_text-IsGraphic, i64_text-ne-nil}
use timelakedb.Ingest.Printed.Values.{IsNumeral, OneLine, IsValue}
use timelakedb.Ingest.Printed.Fields.{IsField}
use timelakedb.Ingest.Printed.Line.{IsPrintable, parse_line-row_text}
use timelakedb.Ingest.Printed.OneLine.{
  lines_from-append, strip_cr-append, trim_cr-append, OneLine-escape_into, OneLine-quote_into,
  graphic-OneLine, numeral-OneLine, join, OneLine-tags_text, skipped-append,
}

-- What the standard library's parser and printer of floats do with finite ones.
module _ (parse_f64 : Str → Option F64) (print_f64 : F64 → Str) (is_finite : F64 → Bool)
    (reads_back : (x : F64) → is_finite x ≡ true → parse_f64 (print_f64 x) ≡ some x)
    (decimal_form : (x : F64)
      → is_finite x ≡ true
      → All IsNumeral (print_f64 x) × (print_f64 x ≢ [])) where
  OneLine-value_text :
      (v : FieldValue)
      → IsValue parse_f64 print_f64 is_finite reads_back decimal_form v
      → OneLine (value_text print_f64 v)
  unfolding value_text
  OneLine-value_text (float x) h = numeral-OneLine (print_f64 x) (decimal_form x h).0
  OneLine-value_text (int z) h =
      join (i64_text z) (105 ∷ []) (graphic-OneLine (i64_text z) (i64_text-IsGraphic z))
        ((λ e. omega (arith, e)), tt)
  OneLine-value_text (uint n) h =
      join (decimal n) (117 ∷ [])
        (graphic-OneLine (decimal n) (digit-IsGraphic (decimal n) (decimal-IsDigit n)))
        ((λ e. omega (arith, e)), tt)
  OneLine-value_text (boolean true) h = ((λ e. omega (arith, e)), tt)
  OneLine-value_text (boolean false) h = ((λ e. omega (arith, e)), tt)
  OneLine-value_text (text s) h = (
    λ e. omega (arith, e),
    join (quote_into s) (34 ∷ []) (OneLine-quote_into s h.1) ((λ e. omega (arith, e)), tt),
  )

  OneLine-fields_text :
      (fields : List (Str × FieldValue))
      → All (IsField parse_f64 print_f64 is_finite reads_back decimal_form) fields
      → OneLine (fields_text print_f64 fields)
  unfolding fields_text
  OneLine-fields_text [] h = tt
  OneLine-fields_text ((k, v) ∷ []) h =
      join (escape_into k true) (61 ∷ value_text print_f64 v)
        (OneLine-escape_into k true h.0.0.one_line)
        ((λ e. omega (arith, e)), OneLine-value_text v h.0.2)
  OneLine-fields_text ((k, v) ∷ f ∷ fields) h =
      join (escape_into k true)
        (61 ∷ (value_text print_f64 v ++ 44 ∷ fields_text print_f64 (f ∷ fields)))
        (OneLine-escape_into k true h.0.0.one_line)
        (
          λ e. omega (arith, e),
          join (value_text print_f64 v) (44 ∷ fields_text print_f64 (f ∷ fields))
              (OneLine-value_text v h.0.2)
              ((λ e. omega (arith, e)), OneLine-fields_text (f ∷ fields) h.1),
        )

  abbrev Printable : ParsedLine → Type 0
  Printable = IsPrintable parse_f64 print_f64 is_finite reads_back decimal_form

  OneLine-row_text : (row : ParsedLine) → Printable row → OneLine (row_text print_f64 row)
  unfolding row_text
  OneLine-row_text row h =
      let fields = fields_text print_f64 row.fields in
      join (escape_into row.table false)
        (tags_text row.tags ++ 32 ∷ (fields ++ 32 ∷ i64_text row.timestamp_ns))
        (OneLine-escape_into row.table false h.table_name.one_line)
        (join (tags_text row.tags) (32 ∷ (fields ++ 32 ∷ i64_text row.timestamp_ns))
          (OneLine-tags_text row.tags h.tags_named)
          (
            λ e. omega (arith, e),
            join fields (32 ∷ i64_text row.timestamp_ns)
                (OneLine-fields_text row.fields h.fields_named)
                (
                  λ e. omega (arith, e),
                  graphic-OneLine (i64_text row.timestamp_ns) (i64_text-IsGraphic row.timestamp_ns),
                ),
          ))

  -- The time stands at the end.
  row_text-ends :
      (row : ParsedLine)
      → (head : Str) × (row_text print_f64 row ≡ head ++ i64_text row.timestamp_ns)
  unfolding row_text
  row_text-ends row =
      let fields = fields_text print_f64 row.fields in
      (
        escape_into row.table false ++ (tags_text row.tags ++ 32 ∷ (fields ++ 32 ∷ [])),
        simp append_assoc,
      )

  strip_cr-row_text :
      (row : ParsedLine) → strip_cr (row_text print_f64 row) ≡ row_text print_f64 row
  strip_cr-row_text row =
      let (head, e) = row_text-ends row in
      let z = row.timestamp_ns in
      subst (λ l. strip_cr l ≡ l) (sym e)
        (strip_cr-append (i64_text z) (i64_text-IsGraphic z) (i64_text-ne-nil z) head)

  trim_cr-row_text : (row : ParsedLine) → trim_cr (row_text print_f64 row) ≡ row_text print_f64 row
  trim_cr-row_text row =
      let (head, e) = row_text-ends row in
      let z = row.timestamp_ns in
      subst (λ l. trim_cr l ≡ l) (sym e)
        (trim_cr-append (i64_text z) (i64_text-IsGraphic z) (i64_text-ne-nil z) head)

  skipped-row_text : (row : ParsedLine) → Printable row → skipped (row_text print_f64 row) ≡ false
  unfolding row_text
  skipped-row_text row h = skipped-append row.table _ h.named h.no_comment

  parse_each-next :
      (n : ℕ) (raw : Str) (lines : List Str) (row : ParsedLine) (rows : List ParsedLine)
      (default_ts_ns : ℤ)
      → trim_cr raw ≡ raw
      → skipped raw ≡ false
      → parse_line parse_f64 (pos 1) default_ts_ns raw ≡ ok row
      → parse_each parse_f64 (pos 1) default_ts_ns (suc n) lines ≡ ok rows
      → ◌≡◌ {A = Result ParseError (List ParsedLine)}
          (parse_each parse_f64 (pos 1) default_ts_ns n (raw ∷ lines))
          (ok (row ∷ rows))
  unfolding parse_each
  parse_each-next n raw lines row rows default_ts_ns t s e later = rw (t, s, e, later) refl

  parse_each-to_line_protocol :
      (rows : List ParsedLine) (n : ℕ) (default_ts_ns : ℤ)
      → All Printable rows
      → ◌≡◌ {A = Result ParseError (List ParsedLine)}
          (parse_each parse_f64
            (pos 1)
            default_ts_ns
            n
            (lines_from [] (to_line_protocol print_f64 rows)))
          (ok rows)
  unfolding parse_each to_line_protocol lines_from
  parse_each-to_line_protocol [] n default_ts_ns h = refl
  parse_each-to_line_protocol (row ∷ rows) n default_ts_ns h =
      ap (parse_each parse_f64 (pos 1) default_ts_ns n) (
        lines_from-append [] (row_text print_f64 row) (to_line_protocol print_f64 rows)
          (OneLine-row_text row h.0))
      ∙ (ap
            (λ l.
              parse_each parse_f64 (pos 1) default_ts_ns n
                (l ∷ lines_from [] (to_line_protocol print_f64 rows)))
            (strip_cr-row_text row)
          ∙ parse_each-next n (row_text print_f64 row) _ row rows default_ts_ns
              (trim_cr-row_text row) (skipped-row_text row h.0)
              (parse_line-row_text parse_f64 print_f64 is_finite reads_back decimal_form row
                default_ts_ns h.0)
              (parse_each-to_line_protocol rows (suc n) default_ts_ns h.1))

  -- With the parser and the printer of floats of the standard library, which read a finite float back from a
  -- text of digits, a minus and a point: the text printed for rows is parsed, in nanoseconds, to just these rows,
  -- if every row has a measurement that begins with no `#`, a field and no key `time`, finite floats, integers in
  -- range, texts without a line feed, and names in which a backslash stands only before a byte that has no escape.
  pub parse_lines-to_line_protocol :
      (rows : List ParsedLine) (default_ts_ns : ℤ)
      → All Printable rows
      → ◌≡◌ {A = Result ParseError (List ParsedLine)}
          (parse_lines parse_f64 (pos 1) default_ts_ns (to_line_protocol print_f64 rows))
          (ok rows)
  unfolding parse_lines
  parse_lines-to_line_protocol rows default_ts_ns h =
      parse_each-to_line_protocol rows 1 default_ts_ns h
