-- ===== src/Ingest/Print.antt =====
-- `to_line_protocol` and `escape_into` of crates/ingest/src/lib.rs. The printing of a float is a
-- parameter. The escapes are ASCII, so a loop over characters is one over bytes.
use timelakedb.Base.{suc, Bool, true, false, ◌||◌, ◌&&◌, List, [], ◌∷◌, ◌++◌, ◌==◌, if◌then◌else◌}
use timelakedb.Base.Int.{ℤ, pos, negsuc}
use timelakedb.Base.Str.{Str}
use timelakedb.Base.Decimal.{decimal}
use timelakedb.Buffer.Columns.{F64, FieldValue, float, int, uint, boolean, text}
use timelakedb.Buffer.Table.{ParsedLine}

-- `escape_into`: what it appends.
unfoldable pub escape_into : Str → Bool → Str
escape_into [] escape_equals = []
escape_into (c ∷ s) escape_equals =
    let rest = escape_into s escape_equals in
    if c == 44 || (c == 32 || (escape_equals && c == 61)) then 92 ∷ c ∷ rest else c ∷ rest

-- `to_string` of an `i64`.
unfoldable pub i64_text : ℤ → Str
unfolding decimal
i64_text (pos n) = decimal n
i64_text (negsuc n) = 45 ∷ decimal (suc n)

-- The characters of a string field, behind its opening quote.
unfoldable pub quote_into : Str → Str
quote_into [] = []
quote_into (c ∷ s) =
    let rest = quote_into s in if c == 34 || c == 92 then 92 ∷ c ∷ rest else c ∷ rest

unfoldable pub value_text : (F64 → Str) → FieldValue → Str
unfolding i64_text quote_into
value_text print_f64 (float x) = print_f64 x
value_text print_f64 (int x) = i64_text x ++ 105 ∷ []
value_text print_f64 (uint x) = decimal x ++ 117 ∷ []
value_text print_f64 (boolean true) = 116 ∷ []
value_text print_f64 (boolean false) = 102 ∷ []
value_text print_f64 (text s) = 34 ∷ (quote_into s ++ 34 ∷ [])

unfoldable pub tags_text : List (Str × Str) → Str
unfolding escape_into
tags_text [] = []
tags_text ((k, v) ∷ tags) = 44 ∷ (escape_into k true ++ 61 ∷ (escape_into v true ++ tags_text tags))

-- A comma goes ahead of every field but the first.
unfoldable pub fields_text : (F64 → Str) → List (Str × FieldValue) → Str
unfolding escape_into value_text
fields_text print_f64 [] = []
fields_text print_f64 ((k, v) ∷ []) = escape_into k true ++ 61 ∷ value_text print_f64 v
fields_text print_f64 ((k, v) ∷ f ∷ fields) =
    escape_into k true ++ 61 ∷ (value_text print_f64 v ++ 44 ∷ fields_text print_f64 (f ∷ fields))

-- A row without its line feed.
unfoldable pub row_text : (F64 → Str) → ParsedLine → Str
unfolding tags_text fields_text
row_text print_f64 row =
    escape_into row.table false
    ++ (tags_text row.tags
        ++ 32 ∷ (fields_text print_f64 row.fields ++ 32 ∷ i64_text row.timestamp_ns))

unfoldable pub to_line_protocol : (F64 → Str) → List ParsedLine → Str
unfolding row_text
to_line_protocol print_f64 [] = []
to_line_protocol print_f64 (row ∷ rows) =
    row_text print_f64 row ++ 10 ∷ to_line_protocol print_f64 rows
