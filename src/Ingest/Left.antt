-- ===== src/Ingest/Left.antt =====
-- How much of a line the readers of crates/ingest/src/lib.rs leave.
use timelakedb.Base.{
  ℕ, suc, ◌<◌, ◌≤◌, ◌≢◌, Option, none, some, List, [], ◌∷◌, ◌==◌, if◌then◌else◌, if_elim, Result,
  ok, err, ◌>>=◌, ok_or, length, arith,
}
use timelakedb.Base.Str.{Str, str_eq}
use timelakedb.Wal.Bytes.{is_utf8}
use timelakedb.Buffer.Columns.{F64, int, uint, float, text}
use timelakedb.Ingest.Scan.{
  ParseProblem, invalid_utf8, unterminated_string, bad_integer, bad_uinteger, bad_float,
  out_of_fuel, take_bytes, take_escaped, expect, reserved_key, reject_reserved_key,
}
use timelakedb.Ingest.Value.{
  parse_i64, parse_u64, take_field_value, take_token, take_quoted, numeric, parse_token, is_true,
  is_false, strip_last, bare_value, quoted_value,
}

-- A result that is not the end of the fuel, and that satisfies `P` if it is no error.
module _ {A : Type 0} where
  abbrev pub Ends : (A → Type 0) → Result ParseProblem A → Type 0
  Ends P (ok a) = P a
  Ends P (err e) = e ≢ out_of_fuel

module _ {A B : Type 0} (P : A → Type 0) (Q : B → Type 0) where
  pub bind-Ends :
      (m : Result ParseProblem A) (f : A → Result ParseProblem B)
      → Ends P m
      → ((a : A) → P a → Ends Q (f a))
      → Ends Q (m >>= f)
  bind-Ends (ok a) f h k = k a h
  bind-Ends (err e) f h k = h

-- At most this much is left.
abbrev pub Left : {A : Type 0} → ℕ → A × Str → Type 0
Left n p = length p.1 ≤ n

take_bytes-Left : (stops : List ℕ) (s : Str) → length (take_bytes stops s).1 ≤ length s
unfolding take_bytes
take_bytes-Left stops [] = omega arith
take_bytes-Left stops (b ∷ []) = ground arith
take_bytes-Left stops (b ∷ n ∷ s) =
    ground (arith, take_bytes-Left stops s, take_bytes-Left stops (n ∷ s))

take_token-Left : (s : Str) → length (take_token s).1 ≤ length s
unfolding take_token
take_token-Left [] = omega arith
take_token-Left (b ∷ s) = ground (arith, take_token-Left s)

abbrev QuotedLeft : ℕ → Option (Str × Str) → Type 0
QuotedLeft n none = Unit
QuotedLeft n (some p) = length p.1 ≤ n

pushed-Left :
    (b n m : ℕ) (o : Option (Str × Str))
    → n ≤ m
    → QuotedLeft n o
    → QuotedLeft m (elim o [ none ↦ none | some (buf, rest) ↦ some (b ∷ buf, rest) ])
pushed-Left b n m none h k = tt
pushed-Left b n m (some p) h k = omega (arith, h, k)

take_quoted-Left : (s : Str) → QuotedLeft (length s) (take_quoted s)
unfolding take_quoted
take_quoted-Left [] = tt
take_quoted-Left (b ∷ []) = if_elim (QuotedLeft 1) (b == 34) (λ e. omega arith) (λ e. tt)
take_quoted-Left (b ∷ c ∷ s) =
    if_elim (QuotedLeft (suc (suc (length s)))) (b == 92)
      (λ e.
        pushed-Left c (length s) (suc (suc (length s))) (take_quoted s) (omega arith)
          (take_quoted-Left s))
      (λ e.
        if_elim (QuotedLeft (suc (suc (length s)))) (b == 34) (λ f. omega arith)
          (λ f.
            pushed-Left b (suc (length s)) (suc (suc (length s))) (take_quoted (c ∷ s))
              (omega arith) (take_quoted-Left (c ∷ s))))

pub utf8_problem : invalid_utf8 ≢ out_of_fuel
utf8_problem h = cc h

pub take_escaped-Ends : (stops : List ℕ) (s : Str) → Ends (Left (length s)) (take_escaped stops s)
unfolding take_escaped
take_escaped-Ends stops s =
    if_elim (Ends (Left (length s))) (is_utf8 (take_bytes stops s).0) (λ e. take_bytes-Left stops s)
      (λ e. utf8_problem)

pub expect-Ends :
    (b : ℕ) (e : ParseProblem) (s : Str)
    → e ≢ out_of_fuel
    → Ends (λ r. length r < length s) (expect b e s)
expect-Ends b e [] h = h
expect-Ends b e (c ∷ s) h =
    if_elim (Ends (λ r. length r < suc (length s))) (c == b) (λ f. omega arith) (λ f. h)

pub reject_reserved_key-Ends :
    (e : ParseProblem) (key : Str)
    → e ≢ out_of_fuel
    → Ends (λ u. Unit {0}) (reject_reserved_key e key)
unfolding reject_reserved_key
reject_reserved_key-Ends e key h =
    if_elim (Ends (λ u. Unit {0})) (str_eq key reserved_key) (λ f. h) (λ f. tt)

pub ok_or-Ends :
    {A : Type 0} (e : ParseProblem) (o : Option A)
    → e ≢ out_of_fuel
    → Ends (λ a. Unit {0}) (ok_or e o)
ok_or-Ends e none h = h
ok_or-Ends e (some a) h = tt

pub then_ok :
    {A B : Type 0} (m : Result ParseProblem A) (f : A → B)
    → Ends (λ a. Unit {0}) m
    → Ends (λ b. Unit {0}) (m >>= λ a. ok (f a))
then_ok m f h = bind-Ends (λ a. Unit {0}) (λ b. Unit {0}) m (λ a. ok (f a)) h (λ a k. tt)

numeric-Ends :
    (parse_f64 : Str → Option F64) (tok : Str) (signed unsigned : Option Str)
    → Ends (λ v. Unit {0}) (numeric parse_f64 tok signed unsigned)
numeric-Ends parse_f64 tok (some num) unsigned =
    then_ok (ok_or bad_integer (parse_i64 num)) int
      (ok_or-Ends bad_integer (parse_i64 num) (λ h. cc h))
numeric-Ends parse_f64 tok none (some num) =
    then_ok (ok_or bad_uinteger (parse_u64 num)) uint
      (ok_or-Ends bad_uinteger (parse_u64 num) (λ h. cc h))
numeric-Ends parse_f64 tok none none =
    then_ok (ok_or bad_float (parse_f64 tok)) float
      (ok_or-Ends bad_float (parse_f64 tok) (λ h. cc h))

parse_token-Ends :
    (parse_f64 : Str → Option F64) (tok : Str) → Ends (λ v. Unit {0}) (parse_token parse_f64 tok)
unfolding parse_token
parse_token-Ends parse_f64 [] = λ h. cc h
parse_token-Ends parse_f64 (b ∷ s) =
    if_elim (Ends (λ v. Unit {0})) (is_true (b ∷ s)) (λ e. tt)
      (λ e.
        if_elim (Ends (λ v. Unit {0})) (is_false (b ∷ s)) (λ f. tt)
          (λ f. numeric-Ends parse_f64 (b ∷ s) (strip_last 105 (b ∷ s)) (strip_last 117 (b ∷ s))))

bare_value-Ends :
    (parse_f64 : Str → Option F64) (s : Str) → Ends (Left (length s)) (bare_value parse_f64 s)
bare_value-Ends parse_f64 s =
    if_elim (Ends (Left (length s))) (is_utf8 (take_token s).0)
      (λ e.
        bind-Ends (λ v. Unit {0}) (Left (length s)) (parse_token parse_f64 (take_token s).0) _
          (parse_token-Ends parse_f64 (take_token s).0) (λ v k. take_token-Left s))
      (λ e. utf8_problem)

closed :
    (n m : ℕ) (o : Option (Str × Str))
    → m ≤ n
    → QuotedLeft m o
    → Ends (Left n) (elim o [
      | none ↦ err unterminated_string
      | some (buf, rest) ↦ if is_utf8 buf then ok (text buf, rest) else err invalid_utf8
    ])
closed n m none h k = λ e. cc e
closed n m (some p) h k =
    if_elim (Ends (Left n)) (is_utf8 p.0) (λ f. omega (arith, h, k)) (λ f. utf8_problem)

quoted_value-Ends : (n : ℕ) (s : Str) → length s ≤ n → Ends (Left n) (quoted_value s)
quoted_value-Ends n s h = closed n (length s) (take_quoted s) h (take_quoted-Left s)

pub take_field_value-Ends :
    (parse_f64 : Str → Option F64) (s : Str) → Ends (Left (length s)) (take_field_value parse_f64 s)
unfolding take_field_value
take_field_value-Ends parse_f64 [] = bare_value-Ends parse_f64 []
take_field_value-Ends parse_f64 (b ∷ s) =
    if_elim (Ends (Left (suc (length s)))) (b == 34)
      (λ e. quoted_value-Ends (suc (length s)) s (omega arith))
      (λ e. bare_value-Ends parse_f64 (b ∷ s))
