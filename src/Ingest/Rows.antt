-- ===== src/Ingest/Rows.antt =====
-- What the parser of crates/ingest/src/lib.rs lets pass.
use timelakedb.Base.{
  ℕ, zero, suc, ◌*◌, ◌^◌, ◌<◌, ◌≡◌, ◌≢◌, refl, sym, ◌∙◌, subst, not, Option, none, some, List, [],
  ◌∷◌, ◌==◌, if_elim, Option-cases, inl, inr, Result, ok, err, ◌>>=◌, ok_or, length, ltb, leb,
  ltb→lt, All, arith,
}
use timelakedb.Base.Int.{ℤ, pos, negsuc}
use timelakedb.Base.Str.{Str, str_eq_iff}
use timelakedb.Base.Text.{trim, lines_from}
use timelakedb.Wal.Bytes.{is_utf8}
use timelakedb.Buffer.Columns.{F64, FieldValue}
use timelakedb.Buffer.Table.{ParsedLine}
use timelakedb.Ingest.Scan.{
  ParseProblem, bad_timestamp, timestamp_overflow, no_field_set, tag_without_value,
  field_without_value, reserved_tag, reserved_field, take_escaped, expect, reserved_key,
  reject_reserved_key,
}
use timelakedb.Ingest.Value.{parse_i64, take_field_value}
use timelakedb.Ingest.Parse.{
  parse_tags, parse_fields, behind_comma, negated, checked_mul, scaled, parse_timestamp, not_empty,
  parse_line, at_line, parse_each, trim_cr, skipped, parse_lines,
}

-- A result holds what satisfies `P`, if it is no error.
module _ {E A : Type 0} where
  abbrev AllOk : (A → Type 0) → Result E A → Type 0
  AllOk P (ok a) = P a
  AllOk P (err e) = Unit

module _ {E A B : Type 0} (P : B → Type 0) where
  bind-AllOk :
      (m : Result E A) (f : A → Result E B)
      → ((a : A) → m ≡ ok a → AllOk P (f a))
      → AllOk P (m >>= f)
  bind-AllOk (ok a) f h = h a refl
  bind-AllOk (err e) f h = tt

abbrev pub Allowed : {V : Type 0} → Str × V → Type 0
Allowed p = p.0 ≢ reserved_key

refused :
    (e : ParseProblem) (u : Unit {0}) → ◌≢◌ {A = Result ParseProblem (Unit {0})} (err e) (ok u)
refused e u h = absurd (cc h)

reject_reserved_key-ok :
    (e : ParseProblem) (key : Str) (u : Unit {0})
    → reject_reserved_key e key ≡ ok u
    → key ≢ reserved_key
unfolding reject_reserved_key
reject_reserved_key-ok e key u h k =
    absurd
      (refused e u (sym (rw (reject_reserved_key, (str_eq_iff key reserved_key).1 k) refl) ∙ h))

parse_tags-Allowed : (fuel : ℕ) (s : Str) → AllOk (λ p. All Allowed p.0) (parse_tags fuel s)
unfolding parse_tags
parse_tags-Allowed zero s = tt
parse_tags-Allowed (suc fuel) [] = tt
parse_tags-Allowed (suc fuel) (b ∷ s) =
    if_elim (AllOk (λ p. All Allowed p.0)) (not (b == 44)) (λ e. tt)
      (λ e. bind-AllOk _ (take_escaped (61 ∷ []) s) _ (λ p e1.
        bind-AllOk _ (expect 61 (tag_without_value p.0) p.1) _ (λ r e2.
          bind-AllOk _ (reject_reserved_key (reserved_tag p.0) p.0) _ (λ u e3.
            bind-AllOk _ (take_escaped (44 ∷ []) r) _ (λ q e4.
              bind-AllOk _ (parse_tags fuel q.1) _ (λ t e5. (
                reject_reserved_key-ok (reserved_tag p.0) p.0 u e3,
                subst (AllOk (λ p. All Allowed p.0)) e5 (parse_tags-Allowed fuel q.1),
              )))))))

-- A field set is not empty, and no key is reserved.
abbrev AreFields : List (Str × FieldValue) × Str → Type 0
AreFields p = (p.0 ≢ []) × All Allowed p.0

nonempty : {A : Type 0} (x : A) (l : List A) → x ∷ l ≢ []
nonempty x l h = cc h

parse_fields-AreFields :
    (parse_f64 : Str → Option F64) (fuel : ℕ) (s : Str)
    → AllOk AreFields (parse_fields parse_f64 fuel s)
unfolding parse_fields
parse_fields-AreFields parse_f64 zero s = tt
parse_fields-AreFields parse_f64 (suc fuel) s = bind-AllOk _ (take_escaped (61 ∷ []) s) _ (λ p e1.
    bind-AllOk _ (expect 61 (field_without_value p.0) p.1) _ (λ r e2.
      bind-AllOk _ (reject_reserved_key (reserved_field p.0) p.0) _ (λ u e3.
        bind-AllOk _ (take_field_value parse_f64 r) _ (λ q e4.
          let allowed = reject_reserved_key-ok (reserved_field p.0) p.0 u e3 in
          elim (Option-cases (behind_comma q.1)) [
            | inl e ↦ rw e (nonempty _ [], (allowed, tt))
            | inr (more, e) ↦ rw e (
                bind-AllOk AreFields (parse_fields parse_f64 fuel more) _ (λ t e5. (
                  nonempty _ t.0,
                  (
                    allowed,
                    (subst (AllOk AreFields) e5 (parse_fields-AreFields parse_f64 fuel more)).1,
                  ),
                )))
          ]))))

abbrev pub IsI64 : ℤ → Type 0
IsI64 (pos n) = n < 2 ^ 63
IsI64 (negsuc n) = n < 2 ^ 63

ok_or-AllOk :
    {A : Type 0} (P : A → Type 0) (e : ParseProblem) (o : Option A)
    → ((a : A) → o ≡ some a → P a)
    → AllOk P (ok_or e o)
ok_or-AllOk P e none h = tt
ok_or-AllOk P e (some a) h = h a refl

abbrev SomeIn : Option ℤ → Type 0
SomeIn none = Unit
SomeIn (some z) = IsI64 z

negated-SomeIn : (n : ℕ) → SomeIn (negated n)
negated-SomeIn zero = omega arith
negated-SomeIn (suc n) = if_elim SomeIn (leb (suc n) (2 ^ 63)) (λ e. ground arith) (λ e. tt)

checked_mul-SomeIn : (a b : ℤ) → SomeIn (checked_mul a b)
unfolding checked_mul
checked_mul-SomeIn (pos a) (pos b) =
    if_elim SomeIn (ltb (a * b) (2 ^ 63)) (λ e. ltb→lt (a * b) (2 ^ 63) e) (λ e. tt)
checked_mul-SomeIn (negsuc a) (negsuc b) =
    if_elim SomeIn (ltb (suc a * suc b) (2 ^ 63)) (λ e. ltb→lt (suc a * suc b) (2 ^ 63) e) (λ e. tt)
checked_mul-SomeIn (pos a) (negsuc b) = negated-SomeIn (a * suc b)
checked_mul-SomeIn (negsuc a) (pos b) = negated-SomeIn (suc a * b)

scaled-IsI64 :
    (ts : Str) (mult default_ts_ns : ℤ)
    → IsI64 default_ts_ns
    → AllOk IsI64 (scaled ts mult default_ts_ns)
scaled-IsI64 [] mult default_ts_ns h = h
scaled-IsI64 (b ∷ ts) mult default_ts_ns h =
    bind-AllOk IsI64 (ok_or bad_timestamp (parse_i64 (b ∷ ts))) _ (λ n e.
      ok_or-AllOk IsI64 timestamp_overflow (checked_mul n mult)
        (λ z f. subst SomeIn f (checked_mul-SomeIn n mult)))

parse_timestamp-IsI64 :
    (s : Str) (mult default_ts_ns : ℤ)
    → IsI64 default_ts_ns
    → AllOk IsI64 (parse_timestamp s mult default_ts_ns)
unfolding parse_timestamp
parse_timestamp-IsI64 [] mult default_ts_ns h = h
parse_timestamp-IsI64 (b ∷ s) mult default_ts_ns h =
    if_elim (AllOk IsI64) (not (b == 32)) (λ e. h)
      (λ e.
        if_elim (AllOk IsI64) (not (is_utf8 s)) (λ f. tt)
          (λ f. scaled-IsI64 (trim s) mult default_ts_ns h))

-- A row that the tables can take.
pub record IsRow (r : ParsedLine) : Type 0 where
  pub named : r.table ≢ []
  pub tags_allowed : All Allowed r.tags
  pub some_fields : r.fields ≢ []
  pub fields_allowed : All Allowed r.fields
  pub in_range : IsI64 r.timestamp_ns

not_empty-ok : (s : Str) (u : Unit {0}) → not_empty s ≡ ok u → s ≢ []
not_empty-ok [] u h = absurd (cc h)
not_empty-ok (b ∷ s) u h = nonempty b s

module _ (parse_f64 : Str → Option F64) (mult default_ts_ns : ℤ) (h : IsI64 default_ts_ns) where
  parse_line-IsRow : (line : Str) → AllOk IsRow (parse_line parse_f64 mult default_ts_ns line)
  unfolding parse_line
  parse_line-IsRow line = bind-AllOk IsRow (take_escaped (44 ∷ []) line) _ (λ p e1.
      bind-AllOk IsRow (not_empty p.0) _ (λ u e2.
        bind-AllOk IsRow (parse_tags (suc (length line)) p.1) _ (λ t e3.
          bind-AllOk IsRow (expect 32 no_field_set t.1) _ (λ r e4.
            bind-AllOk IsRow (parse_fields parse_f64 (suc (length line)) r) _ (λ f e5.
              bind-AllOk IsRow (parse_timestamp f.1 mult default_ts_ns) _ (λ ts e6.
                let are =
                  subst (AllOk AreFields) e5
                    (parse_fields-AreFields parse_f64 (suc (length line)) r) in
                record {
                  named = not_empty-ok p.0 u e2;
                  tags_allowed =
                      subst (AllOk (λ p. All Allowed p.0)) e3
                        (parse_tags-Allowed (suc (length line)) p.1);
                  some_fields = are.0;
                  fields_allowed = are.1;
                  in_range =
                      subst (AllOk IsI64) e6 (parse_timestamp-IsI64 f.1 mult default_ts_ns h);
                }))))))

  at_line-IsRow :
      (n : ℕ) (m : Result ParseProblem ParsedLine) → AllOk IsRow m → AllOk IsRow (at_line n m)
  at_line-IsRow n (ok r) h = h
  at_line-IsRow n (err e) h = tt

  parse_each-IsRow :
      (n : ℕ) (lines : List Str)
      → AllOk (All IsRow) (parse_each parse_f64 mult default_ts_ns n lines)
  unfolding parse_each
  parse_each-IsRow n [] = tt
  parse_each-IsRow n (raw ∷ lines) =
      if_elim (AllOk (All IsRow)) (skipped (trim_cr raw)) (λ e. parse_each-IsRow (suc n) lines)
        (λ e.
          bind-AllOk (All IsRow) (at_line n (parse_line parse_f64 mult default_ts_ns (trim_cr raw)))
            _
            (λ row e1.
              bind-AllOk (All IsRow) (parse_each parse_f64 mult default_ts_ns (suc n) lines) _
                (λ rows e2. (
                  subst (AllOk IsRow) e1 (
                      at_line-IsRow n (parse_line parse_f64 mult default_ts_ns (trim_cr raw))
                        (parse_line-IsRow (trim_cr raw))),
                  subst (AllOk (All IsRow)) e2 (parse_each-IsRow (suc n) lines),
                ))))

-- Of a body that is accepted, with a default time that is an `i64`, every row has a measurement and a field,
-- no tag or field with the key of the time column, and a time that is an `i64`.
pub parse_lines-IsRow :
    (parse_f64 : Str → Option F64) (mult default_ts_ns : ℤ) (input : Str) (rows : List ParsedLine)
    → IsI64 default_ts_ns
    → parse_lines parse_f64 mult default_ts_ns input ≡ ok rows
    → All IsRow rows
unfolding parse_lines
parse_lines-IsRow parse_f64 mult default_ts_ns input rows h e =
    subst (AllOk (All IsRow)) e
      (parse_each-IsRow parse_f64 mult default_ts_ns h 1 (lines_from [] input))
