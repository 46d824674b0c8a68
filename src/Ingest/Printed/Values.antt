-- ===== src/Ingest/Printed/Values.antt =====
-- `take_field_value` reads back the field values that crates/ingest/src/lib.rs prints.
use timelakedb.Base.{
  ℕ, suc, ◌^◌, ◌≤◌, ◌<◌, ◌≡◌, ◌≢◌, refl, sym, subst, ◌∙◌, ap, Bool, true, false, ◌||◌, Option, none,
  some, [], ◌∷◌, ◌++◌, ◌==◌, if_elim, Result, ok, All, All-append, arith,
}
use mathlib.Core.List.{append_assoc, append-nil}
use timelakedb.Base.Int.{ℤ, pos, negsuc}
use timelakedb.Base.Str.{Str, str_eq}
use timelakedb.Base.Decimal.{decimal, IsDigit, decimal-IsDigit, decimal-ne-nil}
use timelakedb.Wal.Bytes.{is_utf8}
use timelakedb.Buffer.Columns.{F64, FieldValue, float, int, uint, boolean, text}
use timelakedb.Ingest.Scan.{ParseProblem}
use timelakedb.Ingest.Value.{
  take_quoted, take_token, strip_last, is_true, is_false, numeric, parse_token, bare_value,
  quoted_value, take_field_value,
}
use timelakedb.Ingest.Print.{i64_text, quote_into, value_text}
use timelakedb.Ingest.Rows.{IsI64}
use timelakedb.Ingest.Printed.Numbers.{
  IsGraphic, is_utf8-IsGraphic, parse_i64-i64_text, parse_u64-decimal, i64_text-ne-nil,
}

module _ (c : ℕ) (s t rest : Str) (later : take_quoted s ≡ some (t, rest)) where
  take_quoted-opened : take_quoted (92 ∷ c ∷ s) ≡ some (c ∷ t, rest)
  unfolding take_quoted
  take_quoted-opened = rw later refl

-- Neither a quote nor a backslash.
take_quoted-kept :
    (c : ℕ) (s t rest : Str)
    → (c == 34 || c == 92) ≡ false
    → take_quoted s ≡ some (t, rest)
    → take_quoted (c ∷ s) ≡ some (c ∷ t, rest)
unfolding take_quoted
take_quoted-kept c [] t rest h k = absurd (cc k)
take_quoted-kept c (b ∷ s) t rest h k =
    let open_quote : (c == 34) ≡ false = ground arith in
    let backslash : (c == 92) ≡ false = ground arith in rw (backslash, open_quote, k) refl

take_quoted-quote_into : (s rest : Str) → take_quoted (quote_into s ++ 34 ∷ rest) ≡ some (s, rest)
unfolding take_quoted quote_into
take_quoted-quote_into [] [] = refl
take_quoted-quote_into [] (b ∷ rest) = refl
take_quoted-quote_into (c ∷ s) rest =
    let later = take_quoted-quote_into s rest in
    if_elim (λ t. take_quoted (t ++ 34 ∷ rest) ≡ some (c ∷ s, rest)) (c == 34 || c == 92)
      (λ e. take_quoted-opened c (quote_into s ++ 34 ∷ rest) s rest later)
      (λ e. take_quoted-kept c (quote_into s ++ 34 ∷ rest) s rest e later)

quoted_value-some :
    (s t rest : Str)
    → take_quoted s ≡ some (t, rest)
    → is_utf8 t ≡ true
    → ◌≡◌ {A = Result ParseProblem (FieldValue × Str)} (quoted_value s) (ok (text t, rest))
quoted_value-some s t rest h k = ground (arith, h, k)

-- No comma in a printed number.
abbrev IsBare : ℕ → Type 0
IsBare b = IsGraphic b × (b ≢ 44)

-- What ends a bare value.
abbrev pub Ended : Str → Type 0
Ended [] = ⊥
Ended (c ∷ s) = (c == 44 || c == 32) ≡ true

take_token-IsBare : (s rest : Str) → All IsBare s → Ended rest → take_token (s ++ rest) ≡ (s, rest)
unfolding take_token
take_token-IsBare [] [] h k = absurd k
take_token-IsBare [] (c ∷ rest) h k = rw k refl
take_token-IsBare (b ∷ s) rest h k =
    let bare : (b == 44 || b == 32) ≡ false = ground arith in
    rw (bare, take_token-IsBare s rest h.1 k) refl

abbrev pushed : ℕ → Option Str → Option Str
pushed b none = none
pushed b (some s) = some (b ∷ s)

strip_last-last : (c : ℕ) (s : Str) → strip_last c (s ++ c ∷ []) ≡ some s
unfolding strip_last
strip_last-last c [] = ground arith
strip_last-last c (b ∷ []) = ap (pushed b) (strip_last-last c [])
strip_last-last c (b ∷ d ∷ s) = ap (pushed b) (strip_last-last c (d ∷ s))

-- The last byte is another one.
strip_last-ne : (c d : ℕ) (s : Str) → (d == c) ≡ false → strip_last c (s ++ d ∷ []) ≡ none
unfolding strip_last
strip_last-ne c d [] h = rw h refl
strip_last-ne c d (b ∷ []) h = ap (pushed b) (strip_last-ne c d [] h)
strip_last-ne c d (b ∷ e ∷ s) h = ap (pushed b) (strip_last-ne c d (e ∷ s) h)

strip_last-All : (c : ℕ) (s : Str) → All (λ b. b ≢ c) s → strip_last c s ≡ none
unfolding strip_last
strip_last-All c [] h = refl
strip_last-All c (b ∷ []) h = ground arith
strip_last-All c (b ∷ d ∷ s) h = rw (strip_last-All c (d ∷ s) h.1) refl

-- A token that begins with no letter is no Boolean.
not_true : (c : ℕ) (s : Str) → c < 65 → is_true (c ∷ s) ≡ false
unfolding str_eq
not_true c s h = ground arith

not_false : (c : ℕ) (s : Str) → c < 65 → is_false (c ∷ s) ≡ false
unfolding str_eq
not_false c s h = ground arith

-- The first byte is no letter and no quote.
abbrev Opens : Str → Type 0
Opens [] = ⊥
Opens (c ∷ s) = (c < 65) × (c ≢ 34)

parse_token-numeric :
    (parse_f64 : Str → Option F64) (s : Str)
    → Opens s
    → parse_token parse_f64 s ≡ numeric parse_f64 s (strip_last 105 s) (strip_last 117 s)
unfolding parse_token
parse_token-numeric parse_f64 [] h = absurd h
parse_token-numeric parse_f64 (c ∷ s) h = rw (not_true c s h.0, not_false c s h.0) refl

-- A number's characters: digits, a minus and a point.
abbrev pub IsNumeral : ℕ → Type 0
IsNumeral b = (45 ≤ b) × (b ≤ 57)

IsNumeral-IsBare : (s : Str) → All IsNumeral s → All IsBare s
IsNumeral-IsBare [] h = tt
IsNumeral-IsBare (b ∷ s) h = (omega arith, IsNumeral-IsBare s h.1)

Opens-append : (s t : Str) → All IsNumeral s → s ≢ [] → Opens (s ++ t)
Opens-append [] t h k = absurd (k refl)
Opens-append (c ∷ s) t h k = omega arith

numeral-ne : (c : ℕ) (s : Str) → 57 < c → All IsNumeral s → All (λ b. b ≢ c) s
numeral-ne c [] h k = tt
numeral-ne c (b ∷ s) h k = (λ e. omega (arith, e, h, k.0), numeral-ne c s h k.1)

pub digit-IsNumeral : (s : Str) → All IsDigit s → All IsNumeral s
digit-IsNumeral [] h = tt
digit-IsNumeral (b ∷ s) h = (omega (arith, h.0), digit-IsNumeral s h.1)

i64_text-IsNumeral : (z : ℤ) → All IsNumeral (i64_text z)
unfolding i64_text
i64_text-IsNumeral (pos n) = digit-IsNumeral (decimal n) (decimal-IsDigit n)
i64_text-IsNumeral (negsuc n) =
    (omega arith, digit-IsNumeral (decimal (suc n)) (decimal-IsDigit (suc n)))

parse_token-int :
    (parse_f64 : Str → Option F64) (z : ℤ)
    → IsI64 z
    → ◌≡◌ {A = Result ParseProblem FieldValue}
        (parse_token parse_f64 (i64_text z ++ 105 ∷ []))
        (ok (int z))
parse_token-int parse_f64 z h =
    parse_token-numeric parse_f64 (i64_text z ++ 105 ∷ [])
      (Opens-append (i64_text z) (105 ∷ []) (i64_text-IsNumeral z) (i64_text-ne-nil z))
    ∙ rw (strip_last-last 105 (i64_text z), parse_i64-i64_text z h) refl

parse_token-uint :
    (parse_f64 : Str → Option F64) (n : ℕ)
    → n < 2 ^ 64
    → ◌≡◌ {A = Result ParseProblem FieldValue}
        (parse_token parse_f64 (decimal n ++ 117 ∷ []))
        (ok (uint n))
parse_token-uint parse_f64 n h =
    parse_token-numeric parse_f64 (decimal n ++ 117 ∷ []) (
      Opens-append (decimal n) (117 ∷ []) (digit-IsNumeral (decimal n) (decimal-IsDigit n))
        (decimal-ne-nil n))
    ∙ rw
        (
          strip_last-ne 105 117 (decimal n) refl,
          strip_last-last 117 (decimal n),
          parse_u64-decimal n h,
        )
        refl

IsBare-IsGraphic : (s : Str) → All IsBare s → All IsGraphic s
IsBare-IsGraphic [] h = tt
IsBare-IsGraphic (b ∷ s) h = (h.0.0, IsBare-IsGraphic s h.1)

suffixed-IsBare :
    (c : ℕ) (s : Str) → All IsNumeral s → (57 < c) × (c < 127) → All IsBare (s ++ c ∷ [])
suffixed-IsBare c s h k =
    All-append IsBare s (c ∷ []) (IsNumeral-IsBare s h) (omega (arith, k.0, k.1))

parse_token-t :
    (parse_f64 : Str → Option F64)
    → ◌≡◌ {A = Result ParseProblem FieldValue}
        (parse_token parse_f64 (116 ∷ []))
        (ok (boolean true))
unfolding parse_token str_eq
parse_token-t parse_f64 = refl

parse_token-f :
    (parse_f64 : Str → Option F64)
    → ◌≡◌ {A = Result ParseProblem FieldValue}
        (parse_token parse_f64 (102 ∷ []))
        (ok (boolean false))
unfolding parse_token str_eq
parse_token-f parse_f64 = refl

-- No line feed.
abbrev pub OneLine : Str → Type 0
OneLine = All (λ b. b ≢ 10)

-- What the standard library's parser and printer of floats do with finite ones.
module _ (parse_f64 : Str → Option F64) (print_f64 : F64 → Str) (is_finite : F64 → Bool)
    (reads_back : (x : F64) → is_finite x ≡ true → parse_f64 (print_f64 x) ≡ some x)
    (decimal_form : (x : F64)
      → is_finite x ≡ true
      → All IsNumeral (print_f64 x) × (print_f64 x ≢ [])) where
  abbrev pub IsValue : FieldValue → Type 0
  IsValue (float x) = is_finite x ≡ true
  IsValue (int z) = IsI64 z
  IsValue (uint n) = n < 2 ^ 64
  IsValue (boolean b) = Unit
  IsValue (text s) = (is_utf8 s ≡ true) × OneLine s

  parse_token-float :
      (x : F64)
      → is_finite x ≡ true
      → ◌≡◌ {A = Result ParseProblem FieldValue}
          (parse_token parse_f64 (print_f64 x))
          (ok (float x))
  parse_token-float x h =
      let (form, nonempty) = decimal_form x h in
      let opens : Opens (print_f64 x ++ []) = Opens-append (print_f64 x) [] form nonempty in
      parse_token-numeric parse_f64 (print_f64 x) (subst Opens (append-nil (print_f64 x)) opens)
      ∙ rw
          (
            strip_last-All 105 (print_f64 x) (numeral-ne 105 (print_f64 x) (omega arith) form),
            strip_last-All 117 (print_f64 x) (numeral-ne 117 (print_f64 x) (omega arith) form),
            reads_back x h,
          )
          refl

  bare_value-append :
      (tok rest : Str) (v : FieldValue)
      → All IsBare tok
      → Ended rest
      → ◌≡◌ {A = Result ParseProblem FieldValue} (parse_token parse_f64 tok) (ok v)
      → ◌≡◌ {A = Result ParseProblem (FieldValue × Str)}
          (bare_value parse_f64 (tok ++ rest))
          (ok (v, rest))
  bare_value-append tok rest v h k e =
      rw (take_token-IsBare tok rest h k, is_utf8-IsGraphic tok (IsBare-IsGraphic tok h), e) refl

  take_field_value-Opens :
      (s : Str) → Opens s → take_field_value parse_f64 s ≡ bare_value parse_f64 s
  unfolding take_field_value
  take_field_value-Opens [] h = refl
  take_field_value-Opens (c ∷ s) h = let bare : (c == 34) ≡ false = ground arith in rw bare refl

  -- A bare value of these characters.
  take_field_value-append :
      (tok rest : Str) (v : FieldValue)
      → Opens (tok ++ rest)
      → All IsBare tok
      → Ended rest
      → ◌≡◌ {A = Result ParseProblem FieldValue} (parse_token parse_f64 tok) (ok v)
      → ◌≡◌ {A = Result ParseProblem (FieldValue × Str)}
          (take_field_value parse_f64 (tok ++ rest))
          (ok (v, rest))
  take_field_value-append tok rest v o h k e =
      take_field_value-Opens (tok ++ rest) o ∙ bare_value-append tok rest v h k e

  pub take_field_value-value_text :
      (v : FieldValue) (rest : Str)
      → IsValue v
      → Ended rest
      → ◌≡◌ {A = Result ParseProblem (FieldValue × Str)}
          (take_field_value parse_f64 (value_text print_f64 v ++ rest))
          (ok (v, rest))
  unfolding value_text take_field_value
  take_field_value-value_text (float x) rest h k =
      let (form, nonempty) = decimal_form x h in
      take_field_value-append (print_f64 x) rest (float x)
        (Opens-append (print_f64 x) rest form nonempty) (IsNumeral-IsBare (print_f64 x) form) k
        (parse_token-float x h)
  take_field_value-value_text (int z) rest h k =
      let form = i64_text-IsNumeral z in
      take_field_value-append (i64_text z ++ 105 ∷ []) rest (int z)
        (subst Opens (sym (append_assoc (i64_text z) (105 ∷ []) rest))
          (Opens-append (i64_text z) (105 ∷ rest) form (i64_text-ne-nil z)))
        (suffixed-IsBare 105 (i64_text z) form (omega arith)) k (parse_token-int parse_f64 z h)
  take_field_value-value_text (uint n) rest h k =
      let form = digit-IsNumeral (decimal n) (decimal-IsDigit n) in
      take_field_value-append (decimal n ++ 117 ∷ []) rest (uint n)
        (subst Opens (sym (append_assoc (decimal n) (117 ∷ []) rest))
          (Opens-append (decimal n) (117 ∷ rest) form (decimal-ne-nil n)))
        (suffixed-IsBare 117 (decimal n) form (omega arith)) k (parse_token-uint parse_f64 n h)
  take_field_value-value_text (boolean true) rest h k =
      bare_value-append (116 ∷ []) rest (boolean true) (omega arith) k (parse_token-t parse_f64)
  take_field_value-value_text (boolean false) rest h k =
      bare_value-append (102 ∷ []) rest (boolean false) (omega arith) k (parse_token-f parse_f64)
  take_field_value-value_text (text s) rest h k =
      ap quoted_value (append_assoc (quote_into s) (34 ∷ []) rest)
      ∙ quoted_value-some _ s rest (take_quoted-quote_into s rest) h.0
