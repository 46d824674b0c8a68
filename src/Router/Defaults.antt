-- ===== src/Router/Defaults.antt =====
-- The default time of crates/ingest/src/lib.rs has no say in whether a body is accepted: the router checks it
-- with one and the ingesters parse it with another.
use timelakedb.Base.{
  ℕ, suc, ◌≡◌, refl, subst, sym, Bool, true, false, not, List, [], ◌∷◌, ◌==◌, if◌then◌else◌, Result,
  ok, err, ◌>>=◌, length,
}
use timelakedb.Base.Int.{ℤ}
use timelakedb.Base.Str.{Str}
use timelakedb.Base.Text.{trim}
use timelakedb.Wal.Bytes.{is_utf8}
use timelakedb.Buffer.Columns.{F64}
use timelakedb.Buffer.Table.{ParsedLine}
use timelakedb.Base.{Option}
use timelakedb.Ingest.Scan.{ParseProblem, take_escaped, expect, no_field_set}
use timelakedb.Ingest.Parse.{
  parse_tags, parse_fields, not_empty, scaled, parse_timestamp, parse_line, skipped, at_line,
}
use timelakedb.Router.Lines.{parse_trimmed}

abbrev IsOk : {E A : Type 0} → Result E A → Type 0
IsOk (ok a) = Unit
IsOk (err e) = ⊥

module _ {E A B : Type 0} where
  bind-IsOk :
      (m : Result E A) (f g : A → Result E B)
      → ((a : A) → IsOk (f a) → IsOk (g a))
      → IsOk (m >>= f)
      → IsOk (m >>= g)
  bind-IsOk (ok a) f g h k = h a k
  bind-IsOk (err e) f g h k = k

  then-IsOk :
      (m m' : Result E A) (f g : A → Result E B)
      → (IsOk m → IsOk m')
      → ((a b : A) → IsOk (f a) → IsOk (g b))
      → IsOk (m >>= f)
      → IsOk (m' >>= g)
  then-IsOk (ok a) (ok b) f g h k l = k a b l
  then-IsOk (ok a) (err e) f g h k l = absurd (h tt)
  then-IsOk (err e) m' f g h k l = absurd l

if-IsOk :
    {E A : Type 0} (c : Bool) (x x' y y' : Result E A)
    → (IsOk x → IsOk x')
    → (IsOk y → IsOk y')
    → IsOk (if c then x else y)
    → IsOk (if c then x' else y')
if-IsOk true x x' y y' h k = h
if-IsOk false x x' y y' h k = k

at_line-to : {A : Type 0} (n : ℕ) (m : Result ParseProblem A) → IsOk (at_line n m) → IsOk m
at_line-to n (ok a) h = tt
at_line-to n (err e) h = h

at_line-from : {A : Type 0} (n : ℕ) (m : Result ParseProblem A) → IsOk m → IsOk (at_line n m)
at_line-from n (ok a) h = tt
at_line-from n (err e) h = h

value_of : {E A : Type 0} (m : Result E A) → IsOk m → (a : A) × (m ≡ ok a)
value_of (ok a) h = (a, refl)
value_of (err e) h = absurd h

module _ (parse_f64 : Str → Option F64) (mult d d' : ℤ) where
  scaled-IsOk : (ts : Str) → IsOk (scaled ts mult d) → IsOk (scaled ts mult d')
  scaled-IsOk [] h = tt
  scaled-IsOk (b ∷ ts) h = h

  parse_timestamp-IsOk :
      (s : Str) → IsOk (parse_timestamp s mult d) → IsOk (parse_timestamp s mult d')
  unfolding parse_timestamp
  parse_timestamp-IsOk [] = λ h. tt
  parse_timestamp-IsOk (b ∷ s) =
      if-IsOk (not (b == 32)) _ _ _ _ (λ h. tt)
        (if-IsOk (not (is_utf8 s)) _ _ _ _ (λ h. h) (scaled-IsOk (trim s)))

  parse_line-IsOk :
      (line : Str)
      → IsOk (parse_line parse_f64 mult d line)
      → IsOk (parse_line parse_f64 mult d' line)
  unfolding parse_line
  parse_line-IsOk line = bind-IsOk (take_escaped (44 ∷ []) line) _ _ (λ p.
      bind-IsOk (not_empty p.0) _ _ (λ u. bind-IsOk (parse_tags (suc (length line)) p.1) _ _ (λ t.
        bind-IsOk (expect 32 no_field_set t.1) _ _ (λ r.
          bind-IsOk (parse_fields parse_f64 (suc (length line)) r) _ _ (λ f.
            then-IsOk (parse_timestamp f.1 mult d) (parse_timestamp f.1 mult d') _ _
              (parse_timestamp-IsOk f.1) (λ a b h. tt))))))

  at_line-IsOk :
      (n k : ℕ) (line : Str)
      → IsOk (at_line n (parse_line parse_f64 mult d line))
      → IsOk (at_line k (parse_line parse_f64 mult d' line))
  at_line-IsOk n k line h =
      at_line-from k (parse_line parse_f64 mult d' line)
        (parse_line-IsOk line (at_line-to n (parse_line parse_f64 mult d line) h))

  parse_trimmed-IsOk :
      (n k : ℕ) (lines : List Str)
      → IsOk (parse_trimmed parse_f64 mult d n lines)
      → IsOk (parse_trimmed parse_f64 mult d' k lines)
  unfolding parse_trimmed
  parse_trimmed-IsOk n k [] = λ h. tt
  parse_trimmed-IsOk n k (line ∷ lines) =
      if-IsOk (skipped line) _ _ _ _ (parse_trimmed-IsOk (suc n) (suc k) lines) (
        then-IsOk _ _ _ _ (at_line-IsOk n k line)
          (λ a b. then-IsOk _ _ _ _ (parse_trimmed-IsOk (suc n) (suc k) lines) (λ x y h. tt)))

-- A body that is accepted with one default time is with another.
pub parse_trimmed_default :
    (parse_f64 : Str → Option F64) (mult d d' : ℤ) (n : ℕ) (lines : List Str)
    (rows : List ParsedLine)
    → parse_trimmed parse_f64 mult d n lines ≡ ok rows
    → (rows' : List ParsedLine) × (parse_trimmed parse_f64 mult d' n lines ≡ ok rows')
parse_trimmed_default parse_f64 mult d d' n lines rows h =
    value_of (parse_trimmed parse_f64 mult d' n lines)
      (parse_trimmed-IsOk parse_f64 mult d d' n n lines (subst IsOk (sym h) tt))
