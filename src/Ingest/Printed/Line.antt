-- ===== src/Ingest/Printed/Line.antt =====
-- `parse_line` of crates/ingest/src/lib.rs reads back the line that is printed for a row.
use timelakedb.Base.{
  suc, ◌+◌, ◌≡◌, ◌≢◌, refl, Bool, true, false, Option, some, List, [], ◌∷◌, ◌++◌, ok, length,
  length-append, All, arith,
}
use timelakedb.Base.Int.{ℤ, pos, negsuc}
use timelakedb.Base.Str.{Str}
use timelakedb.Buffer.Columns.{F64}
use timelakedb.Buffer.Table.{ParsedLine}
use timelakedb.Ingest.Value.{parse_i64}
use timelakedb.Ingest.Parse.{checked_mul, scaled, not_empty, parse_timestamp, parse_line}
use timelakedb.Ingest.Rows.{IsI64}
use timelakedb.Ingest.Print.{escape_into, tags_text, fields_text, i64_text, row_text}
use timelakedb.Ingest.Printed.Names.{Covers, Stopped, take_escaped-escape_into}
use timelakedb.Ingest.Printed.Numbers.{
  is_utf8-IsGraphic, i64_text-IsGraphic, trim-IsGraphic, parse_i64-i64_text, i64_text-ne-nil,
}
use timelakedb.Ingest.Printed.Values.{IsNumeral}
use timelakedb.Ingest.Printed.Fields.{
  IsName, IsTag, IsField, parse_tags-tags_text, length-tags_text, parse_fields-fields_text,
  length-fields_text,
}

checked_mul-one : (z : ℤ) → IsI64 z → checked_mul z (pos 1) ≡ some z
unfolding checked_mul
checked_mul-one (pos n) h = ground arith
checked_mul-one (negsuc n) h = ground arith

scaled-ne-nil :
    (s : Str) (z default_ts_ns : ℤ)
    → s ≢ []
    → parse_i64 s ≡ some z
    → IsI64 z
    → scaled s (pos 1) default_ts_ns ≡ ok z
scaled-ne-nil [] z default_ts_ns h e k = absurd (h refl)
scaled-ne-nil (b ∷ s) z default_ts_ns h e k = rw (e, checked_mul-one z k) refl

parse_timestamp-i64_text :
    (z default_ts_ns : ℤ) → IsI64 z → parse_timestamp (32 ∷ i64_text z) (pos 1) default_ts_ns ≡ ok z
unfolding parse_timestamp
parse_timestamp-i64_text z default_ts_ns h =
    let graphic = i64_text-IsGraphic z in
    rw (is_utf8-IsGraphic (i64_text z) graphic, trim-IsGraphic (i64_text z) graphic)
      (scaled-ne-nil (i64_text z) z default_ts_ns (i64_text-ne-nil z) (parse_i64-i64_text z h) h)

not_empty-ne-nil : (s : Str) → s ≢ [] → not_empty s ≡ ok tt
not_empty-ne-nil [] h = absurd (h refl)
not_empty-ne-nil (b ∷ s) h = refl

Covers-table : Covers false (44 ∷ [])
Covers-table b h = ground arith

table_ends :
    (tags : List (Str × Str)) (rest : Str) → Stopped (44 ∷ []) (tags_text tags ++ 32 ∷ rest)
unfolding tags_text
table_ends [] rest = (refl, refl)
table_ends (p ∷ tags) rest = (refl, refl)

abbrev pub NoComment : Str → Type 0
NoComment [] = Unit
NoComment (b ∷ s) = b ≢ 35

module _ (parse_f64 : Str → Option F64) (print_f64 : F64 → Str) (is_finite : F64 → Bool)
    (reads_back : (x : F64) → is_finite x ≡ true → parse_f64 (print_f64 x) ≡ some x)
    (decimal_form : (x : F64)
      → is_finite x ≡ true
      → All IsNumeral (print_f64 x) × (print_f64 x ≢ [])) where
  -- A row that has a text: what producers in the server build.
  pub record IsPrintable (row : ParsedLine) : Type 0 where
    pub named : row.table ≢ []
    pub no_comment : NoComment row.table
    pub table_name : IsName row.table
    pub tags_named : All IsTag row.tags
    pub some_fields : row.fields ≢ []
    pub fields_named :
        All (IsField parse_f64 print_f64 is_finite reads_back decimal_form) row.fields
    pub in_range : IsI64 row.timestamp_ns

  pub parse_line-row_text :
      (row : ParsedLine) (default_ts_ns : ℤ)
      → IsPrintable row
      → parse_line parse_f64 (pos 1) default_ts_ns (row_text print_f64 row) ≡ ok row
  unfolding parse_line row_text
  parse_line-row_text row default_ts_ns h =
      let fields = fields_text print_f64 row.fields in
      let behind = fields ++ 32 ∷ i64_text row.timestamp_ns in
      let rest = tags_text row.tags ++ 32 ∷ behind in
      let size : length (escape_into row.table false ++ rest)
          ≡ length (escape_into row.table false) + length rest =
        length-append (escape_into row.table false) rest in
      rw
        (
          take_escaped-escape_into false (44 ∷ []) Covers-table rest (table_ends row.tags behind)
              row.table h.table_name.plain h.table_name.valid,
          not_empty-ne-nil row.table h.named,
          parse_tags-tags_text (suc (length (escape_into row.table false ++ rest))) row.tags behind
              (omega (
                arith,
                size,
                length-append (tags_text row.tags) (32 ∷ behind),
                length-tags_text row.tags,
              ))
              h.tags_named,
          parse_fields-fields_text parse_f64 print_f64 is_finite reads_back decimal_form
              (suc (length (escape_into row.table false ++ rest))) row.fields
              (i64_text row.timestamp_ns)
              (omega (
                arith,
                size,
                length-append (tags_text row.tags) (32 ∷ behind),
                length-append fields (32 ∷ i64_text row.timestamp_ns),
                length-fields_text print_f64 row.fields,
              ))
              h.some_fields h.fields_named,
          parse_timestamp-i64_text row.timestamp_ns default_ts_ns h.in_range,
        )
        refl
