-- ===== src/Ingest/Value.antt =====
-- The field values of the parser in crates/ingest/src/lib.rs. The parsing of a float is a parameter.
use timelakedb.Base.{
  ℕ, zero, suc, ◌+◌, ◌-◌, ◌*◌, ◌^◌, Bool, true, false, ◌||◌, ◌&&◌, Option, none, some, [], ◌∷◌, ltb,
  leb, ◌==◌, if◌then◌else◌, Result, ok, err, ◌>>=◌, ok_or,
}
use timelakedb.Base.Int.{ℤ, pos, negsuc}
use timelakedb.Base.Str.{Str, str, str_eq}
use timelakedb.Wal.Bytes.{is_utf8}
use timelakedb.Buffer.Columns.{F64, FieldValue, float, int, uint, boolean, text}
use timelakedb.Ingest.Scan.{
  ParseProblem, invalid_utf8, unterminated_string, empty_value, bad_integer, bad_uinteger,
  bad_float,
}

abbrev pub is_digit : ℕ → Bool
is_digit c = leb 48 c && leb c 57

-- Decimal digits to the end, behind the digits of `n`.
unfoldable pub digits : ℕ → Str → Option ℕ
digits n [] = some n
digits n (c ∷ s) = let rest = digits (n * 10 + (c - 48)) s in if is_digit c then rest else none

abbrev pub number : Str → Option ℕ
number [] = none
number (c ∷ s) = digits 0 (c ∷ s)

abbrev pub negative : ℕ → ℤ
negative zero = pos 0
negative (suc n) = negsuc n

-- `str::parse::<i64>`
unfoldable pub parse_i64 : Str → Option ℤ
unfolding digits
parse_i64 [] = none
parse_i64 (c ∷ s) =
    if c == 45
    then elim (number s) [
      | none ↦ none
      | some n ↦ if leb n (2 ^ 63) then some (negative n) else none
    ]
    else elim (number (if c == 43 then s else c ∷ s)) [
      | none ↦ none
      | some n ↦ if ltb n (2 ^ 63) then some (pos n) else none
    ]

-- `str::parse::<u64>`
unfoldable pub parse_u64 : Str → Option ℕ
unfolding digits
parse_u64 [] = none
parse_u64 (c ∷ s) = elim (number (if c == 43 then s else c ∷ s)) [
  | none ↦ none
  | some n ↦ if ltb n (2 ^ 64) then some n else none
]

-- Up to the closing quote, without the escapes, and what is behind it.
unfoldable pub take_quoted : Str → Option (Str × Str)
take_quoted [] = none
take_quoted (b ∷ []) = if b == 34 then some ([], []) else none
take_quoted (b ∷ c ∷ s) =
    let escaped = take_quoted s in
    let plain = take_quoted (c ∷ s) in
    if b == 92
    then elim escaped [ none ↦ none | some (buf, rest) ↦ some (c ∷ buf, rest) ]
    else if b == 34
    then some ([], c ∷ s)
    else elim plain [ none ↦ none | some (buf, rest) ↦ some (b ∷ buf, rest) ]

unfoldable pub take_token : Str → Str × Str
take_token [] = ([], [])
take_token (b ∷ s) =
    let (tok, rest) = take_token s in if b == 44 || b == 32 then ([], b ∷ s) else (b ∷ tok, rest)

-- `strip_suffix` of one character.
unfoldable pub strip_last : ℕ → Str → Option Str
strip_last c [] = none
strip_last c (b ∷ []) = if b == c then some [] else none
strip_last c (b ∷ d ∷ s) =
    let rest = strip_last c (d ∷ s) in elim rest [ none ↦ none | some r ↦ some (b ∷ r) ]

abbrev pub is_true : Str → Bool
is_true t =
    str_eq t (str "t")
    || (str_eq t (str "T")
        || (str_eq t (str "true") || (str_eq t (str "True") || str_eq t (str "TRUE"))))

abbrev pub is_false : Str → Bool
is_false t =
    str_eq t (str "f")
    || (str_eq t (str "F")
        || (str_eq t (str "false") || (str_eq t (str "False") || str_eq t (str "FALSE"))))

abbrev pub numeric :
    (Str → Option F64) → Str → Option Str → Option Str → Result ParseProblem FieldValue
numeric parse_f64 tok (some num) unsigned = do n ← ok_or bad_integer (parse_i64 num); ok (int n)
numeric parse_f64 tok none (some num) = do n ← ok_or bad_uinteger (parse_u64 num); ok (uint n)
numeric parse_f64 tok none none = do x ← ok_or bad_float (parse_f64 tok); ok (float x)

unfoldable pub parse_token : (Str → Option F64) → Str → Result ParseProblem FieldValue
parse_token parse_f64 [] = err empty_value
parse_token parse_f64 (b ∷ s) =
    if is_true (b ∷ s)
    then ok (boolean true)
    else if is_false (b ∷ s)
    then ok (boolean false)
    else numeric parse_f64 (b ∷ s) (strip_last 105 (b ∷ s)) (strip_last 117 (b ∷ s))

abbrev pub bare_value : (Str → Option F64) → Str → Result ParseProblem (FieldValue × Str)
bare_value parse_f64 s =
    let (tok, rest) = take_token s in
    if is_utf8 tok then (do v ← parse_token parse_f64 tok; ok (v, rest)) else err invalid_utf8

abbrev pub quoted_value : Str → Result ParseProblem (FieldValue × Str)
quoted_value s = elim (take_quoted s) [
  | none ↦ err unterminated_string
  | some (buf, rest) ↦ if is_utf8 buf then ok (text buf, rest) else err invalid_utf8
]

unfoldable pub take_field_value : (Str → Option F64) → Str → Result ParseProblem (FieldValue × Str)
take_field_value parse_f64 [] = bare_value parse_f64 []
take_field_value parse_f64 (b ∷ s) =
    if b == 34 then quoted_value s else bare_value parse_f64 (b ∷ s)
