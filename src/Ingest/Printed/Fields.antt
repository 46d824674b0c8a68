-- ===== src/Ingest/Printed/Fields.antt =====
-- The loops over tags and fields in crates/ingest/src/lib.rs read back what it prints.
use timelakedb.Base.{
  ℕ, zero, suc, ◌≤◌, ◌<◌, ◌≡◌, ◌≢◌, refl, Bool, true, List, [], ◌∷◌, ◌++◌, Option, some, Bool-cases,
  inl, inr, Result, ok, length, length-append, All, arith,
}
use mathlib.Core.List.{append_assoc}
use timelakedb.Base.Str.{Str, str_eq, str_eq_iff}
use timelakedb.Wal.Bytes.{is_utf8}
use timelakedb.Buffer.Columns.{F64, FieldValue}
use timelakedb.Ingest.Scan.{
  ParseProblem, reserved_key, reject_reserved_key, reserved_tag, reserved_field,
}
use timelakedb.Ingest.Value.{take_field_value}
use timelakedb.Ingest.Parse.{parse_tags, parse_fields}
use timelakedb.Ingest.Print.{escape_into, tags_text, value_text, fields_text}
use timelakedb.Ingest.Printed.Names.{Plain, Covers, Stopped, take_escaped-escape_into}
use timelakedb.Ingest.Printed.Values.{
  IsNumeral, OneLine, IsValue, Ended, take_field_value-value_text,
}

-- A name that is read back.
pub record IsName (s : Str) : Type 0 where
  pub plain : Plain s
  pub valid : is_utf8 s ≡ true
  pub one_line : OneLine s

abbrev pub IsTag : Str × Str → Type 0
IsTag p = IsName p.0 × (p.0 ≢ reserved_key) × IsName p.1

reject_reserved_key-ne :
    (e : ParseProblem) (key : Str) → key ≢ reserved_key → reject_reserved_key e key ≡ ok tt
unfolding reject_reserved_key
reject_reserved_key-ne e key h = elim (Bool-cases (str_eq key reserved_key)) [
  | inl k ↦ absurd (h ((str_eq_iff key reserved_key).0 k))
  | inr k ↦ rw k refl
]

Covers-key : Covers true (61 ∷ [])
Covers-key b h = ground arith

Covers-value : Covers true (44 ∷ [])
Covers-value b h = ground arith

tag_value_ends :
    (tags : List (Str × Str)) (rest : Str) → Stopped (44 ∷ []) (tags_text tags ++ 32 ∷ rest)
unfolding tags_text
tag_value_ends [] rest = (refl, refl)
tag_value_ends (p ∷ tags) rest = (refl, refl)

pub parse_tags-tags_text :
    (fuel : ℕ) (tags : List (Str × Str)) (rest : Str)
    → length tags < fuel
    → All IsTag tags
    → ◌≡◌ {A = Result ParseProblem (List (Str × Str) × Str)}
        (parse_tags fuel (tags_text tags ++ 32 ∷ rest))
        (ok (tags, 32 ∷ rest))
unfolding parse_tags tags_text
parse_tags-tags_text zero tags rest h k = absurd (omega arith)
parse_tags-tags_text (suc fuel) [] rest h k = refl
parse_tags-tags_text (suc fuel) ((key, val) ∷ tags) rest h k =
    let more = tags_text tags ++ 32 ∷ rest in
    rw
      (
        append_assoc (escape_into key true) (61 ∷ (escape_into val true ++ tags_text tags))
            (32 ∷ rest),
        append_assoc (escape_into val true) (tags_text tags) (32 ∷ rest),
        take_escaped-escape_into true (61 ∷ []) Covers-key (61 ∷ (escape_into val true ++ more))
            (refl, refl) key k.0.0.plain k.0.0.valid,
        reject_reserved_key-ne (reserved_tag key) key k.0.1,
        take_escaped-escape_into true (44 ∷ []) Covers-value more (tag_value_ends tags rest) val
            k.0.2.plain k.0.2.valid,
        parse_tags-tags_text fuel tags rest (omega arith) k.1,
      )
      refl

pub length-tags_text : (tags : List (Str × Str)) → length tags ≤ length (tags_text tags)
unfolding tags_text
length-tags_text [] = omega arith
length-tags_text ((k, v) ∷ tags) = omega (
  arith,
  length-append (escape_into k true) (61 ∷ (escape_into v true ++ tags_text tags)),
  length-append (escape_into v true) (tags_text tags),
  length-tags_text tags,
)

module _ (parse_f64 : Str → Option F64) (print_f64 : F64 → Str) (is_finite : F64 → Bool)
    (reads_back : (x : F64) → is_finite x ≡ true → parse_f64 (print_f64 x) ≡ some x)
    (decimal_form : (x : F64)
      → is_finite x ≡ true
      → All IsNumeral (print_f64 x) × (print_f64 x ≢ [])) where
  abbrev pub IsField : Str × FieldValue → Type 0
  IsField p =
      IsName p.0
      × (p.0 ≢ reserved_key)
      × IsValue parse_f64 print_f64 is_finite reads_back decimal_form p.1

  value_back :
      (v : FieldValue) (rest : Str)
      → IsValue parse_f64 print_f64 is_finite reads_back decimal_form v
      → Ended rest
      → ◌≡◌ {A = Result ParseProblem (FieldValue × Str)}
          (take_field_value parse_f64 (value_text print_f64 v ++ rest))
          (ok (v, rest))
  value_back = take_field_value-value_text parse_f64 print_f64 is_finite reads_back decimal_form

  pub parse_fields-fields_text :
      (fuel : ℕ) (fields : List (Str × FieldValue)) (rest : Str)
      → length fields ≤ fuel
      → fields ≢ []
      → All IsField fields
      → ◌≡◌ {A = Result ParseProblem (List (Str × FieldValue) × Str)}
          (parse_fields parse_f64 fuel (fields_text print_f64 fields ++ 32 ∷ rest))
          (ok (fields, 32 ∷ rest))
  unfolding parse_fields fields_text
  parse_fields-fields_text fuel [] rest h n k = absurd (n refl)
  parse_fields-fields_text zero (f ∷ fields) rest h n k = absurd (omega arith)
  parse_fields-fields_text (suc fuel) ((key, v) ∷ []) rest h n k =
      rw
        (
          append_assoc (escape_into key true) (61 ∷ value_text print_f64 v) (32 ∷ rest),
          take_escaped-escape_into true (61 ∷ []) Covers-key
              (61 ∷ (value_text print_f64 v ++ 32 ∷ rest)) (refl, refl) key k.0.0.plain k.0.0.valid,
          reject_reserved_key-ne (reserved_field key) key k.0.1,
          value_back v (32 ∷ rest) k.0.2 refl,
        )
        refl
  parse_fields-fields_text (suc fuel) ((key, v) ∷ f ∷ fields) rest h n k =
      let text = fields_text print_f64 (f ∷ fields) in
      let more = 44 ∷ (text ++ 32 ∷ rest) in
      rw
        (
          append_assoc (escape_into key true) (61 ∷ (value_text print_f64 v ++ 44 ∷ text))
              (32 ∷ rest),
          append_assoc (value_text print_f64 v) (44 ∷ text) (32 ∷ rest),
          take_escaped-escape_into true (61 ∷ []) Covers-key (61 ∷ (value_text print_f64 v ++ more))
              (refl, refl) key k.0.0.plain k.0.0.valid,
          reject_reserved_key-ne (reserved_field key) key k.0.1,
          value_back v more k.0.2 refl,
          parse_fields-fields_text fuel (f ∷ fields) rest (omega arith) (λ e. cc e) k.1,
        )
        refl

pub length-fields_text :
    (print_f64 : F64 → Str) (fields : List (Str × FieldValue))
    → length fields ≤ length (fields_text print_f64 fields)
unfolding fields_text
length-fields_text print_f64 [] = omega arith
length-fields_text print_f64 ((k, v) ∷ []) =
    omega (arith, length-append (escape_into k true) (61 ∷ value_text print_f64 v))
length-fields_text print_f64 ((k, v) ∷ f ∷ fields) =
    let text = fields_text print_f64 (f ∷ fields) in
    omega (
      arith,
      length-append (escape_into k true) (61 ∷ (value_text print_f64 v ++ 44 ∷ text)),
      length-append (value_text print_f64 v) (44 ∷ text),
      length-fields_text print_f64 (f ∷ fields),
    )
