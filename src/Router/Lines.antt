-- ===== src/Router/Lines.antt =====
-- The lines that crates/server/src/router.rs splits off are those that the parser of
-- crates/ingest/src/lib.rs reads.
use timelakedb.Base.{
  ℕ, suc, ◌≡◌, ◌≢◌, refl, sym, ap, ◌∙◌, subst, true, false, ◌||◌, Option, List, [], ◌∷◌, ◌++◌, map,
  ◌==◌, if◌then◌else◌, if_elim, Bool-cases, List-cases, ==_iff, inl, inr, Result, ok, ◌>>=◌, All,
  All-append, arith,
}
use timelakedb.Base.Int.{ℤ}
use timelakedb.Base.Str.{Str}
use timelakedb.Base.Text.{lines_from, strip_cr}
use timelakedb.Buffer.Columns.{F64}
use timelakedb.Buffer.Table.{ParsedLine}
use timelakedb.Ingest.Parse.{ParseError, parse_line, parse_each, skipped, trim_cr, at_line}
use timelakedb.Ingest.Printed.Values.{OneLine}
use timelakedb.Router.Shards.{split_inclusive, kept_ahead, trim_ends, ends_with_feed, ended}

-- The loop of `parse_lines` over lines that are trimmed.
unfoldable pub parse_trimmed :
    (Str → Option F64) → ℤ → ℤ → ℕ → List Str → Result ParseError (List ParsedLine)
parse_trimmed parse_f64 mult default_ts_ns n [] = ok []
parse_trimmed parse_f64 mult default_ts_ns n (line ∷ lines) =
    let rest = parse_trimmed parse_f64 mult default_ts_ns (suc n) lines in
    if skipped line
    then rest
    else at_line n (parse_line parse_f64 mult default_ts_ns line) >>= λ row.
        rest >>= λ rows. ok (row ∷ rows)

pub parse_each-parse_trimmed :
    (parse_f64 : Str → Option F64) (mult default_ts_ns : ℤ) (n : ℕ) (lines : List Str)
    → parse_each parse_f64 mult default_ts_ns n lines
      ≡ parse_trimmed parse_f64 mult default_ts_ns n (map trim_cr lines)
unfolding parse_each parse_trimmed
parse_each-parse_trimmed parse_f64 mult default_ts_ns n [] = refl
parse_each-parse_trimmed parse_f64 mult default_ts_ns n (raw ∷ lines) =
    rw (parse_each-parse_trimmed parse_f64 mult default_ts_ns (suc n) lines) refl

trim_cr-ahead : (b : ℕ) (s : Str) → trim_cr (b ∷ s) ≡ kept_ahead (b == 13) b (trim_cr s)
unfolding trim_cr
trim_cr-ahead b s = elim (List-cases (trim_cr s)) [
  | inl e ↦ rw e refl
  | inr (c, rest, e) ↦ rw e refl
]

-- A carriage return that the splitting has dropped is one that the trimming would drop.
pub trim_cr-strip_cr : (s : Str) → trim_cr (strip_cr s) ≡ trim_cr s
unfolding strip_cr trim_cr
trim_cr-strip_cr [] = refl
trim_cr-strip_cr (b ∷ []) = elim (Bool-cases (b == 13)) [
  | inl e ↦ rw e refl
  | inr e ↦ rw e (rw e refl)
]
trim_cr-strip_cr (b ∷ c ∷ s) =
    trim_cr-ahead b (strip_cr (c ∷ s))
    ∙ (ap (kept_ahead (b == 13) b) (trim_cr-strip_cr (c ∷ s)) ∙ sym (trim_cr-ahead b (c ∷ s)))

trim_ends-OneLine : (s : Str) → OneLine s → trim_ends s ≡ trim_cr s
unfolding trim_ends trim_cr
trim_ends-OneLine [] h = refl
trim_ends-OneLine (b ∷ s) h =
    let other : (b == 10) ≡ false = ground arith in
    rw (other, trim_ends-OneLine s h.1) (sym (trim_cr-ahead b s))

trim_ends-append : (s : Str) → trim_ends (s ++ 10 ∷ []) ≡ trim_ends s
unfolding trim_ends
trim_ends-append [] = refl
trim_ends-append (b ∷ s) = ap (kept_ahead (b == 10 || b == 13) b) (trim_ends-append s)

trim_ends-feed :
    (line : Str) (b : ℕ)
    → (b == 10) ≡ true
    → OneLine line
    → trim_ends (line ++ b ∷ []) ≡ trim_cr line
trim_ends-feed line b e h =
    ap (λ c. trim_ends (line ++ c ∷ [])) ((==_iff b 10).0 e)
    ∙ (trim_ends-append line ∙ trim_ends-OneLine line h)

pub cons_eq : {A : Type 0} {x y : A} {xs ys : List A} → x ≡ y → xs ≡ ys → x ∷ xs ≡ y ∷ ys
cons_eq e f = cc

OneLine-longer : (line : Str) (b : ℕ) → (b == 10) ≡ false → OneLine line → OneLine (line ++ b ∷ [])
OneLine-longer line b e h =
    All-append (λ c. c ≢ 10) line (b ∷ []) h ((λ x. absurd (cc (e, (==_iff b 10).1 x))), tt)

pub lines_from-split_inclusive :
    (line s : Str)
    → OneLine line
    → map trim_cr (lines_from line s) ≡ map trim_ends (split_inclusive line s)
unfolding lines_from split_inclusive
lines_from-split_inclusive [] [] h = refl
lines_from-split_inclusive (a ∷ line) [] h = cons_eq (sym (trim_ends-OneLine (a ∷ line) h)) refl
lines_from-split_inclusive line (b ∷ s) h = elim (Bool-cases (b == 10)) [
  | inl e ↦ rw e (
      cons_eq (trim_cr-strip_cr line ∙ sym (trim_ends-feed line b e h))
        (lines_from-split_inclusive [] s tt))
  | inr e ↦ rw e (lines_from-split_inclusive (line ++ b ∷ []) s (OneLine-longer line b e h))
]

-- A piece of the body: a line, with its line feed if it has one.
pub record IsPiece (p : Str) : Type 0 where
  pub line : Str
  pub one_line : OneLine line
  pub forwarded : ended p ≡ line ++ 10 ∷ []
  pub trimmed : trim_ends p ≡ trim_cr line

ends_with_feed-append : (s : Str) → ends_with_feed (s ++ 10 ∷ []) ≡ true
unfolding ends_with_feed
ends_with_feed-append [] = refl
ends_with_feed-append (b ∷ []) = refl
ends_with_feed-append (b ∷ c ∷ s) = ends_with_feed-append (c ∷ s)

ends_with_feed-OneLine : (s : Str) → OneLine s → ends_with_feed s ≡ false
unfolding ends_with_feed
ends_with_feed-OneLine [] h = refl
ends_with_feed-OneLine (b ∷ []) h = ground arith
ends_with_feed-OneLine (b ∷ c ∷ s) h = ends_with_feed-OneLine (c ∷ s) h.1

fed-IsPiece : (line : Str) → OneLine line → IsPiece (line ++ 10 ∷ [])
unfolding ended
fed-IsPiece line h = record {
  line = line;
  one_line = h;
  forwarded = rw (ends_with_feed-append line) refl;
  trimmed = trim_ends-append line ∙ trim_ends-OneLine line h;
}

last-IsPiece : (line : Str) → OneLine line → IsPiece line
unfolding ended
last-IsPiece line h = record {
  line = line;
  one_line = h;
  forwarded = rw (ends_with_feed-OneLine line h) refl;
  trimmed = trim_ends-OneLine line h;
}

pub split_inclusive-IsPiece : (line s : Str) → OneLine line → All IsPiece (split_inclusive line s)
unfolding split_inclusive
split_inclusive-IsPiece [] [] h = tt
split_inclusive-IsPiece (a ∷ line) [] h = (last-IsPiece (a ∷ line) h, tt)
split_inclusive-IsPiece line (b ∷ s) h =
    if_elim (All IsPiece) (b == 10)
      (λ e. (
        subst (λ c. IsPiece (line ++ c ∷ [])) (sym ((==_iff b 10).0 e)) (fed-IsPiece line h),
        split_inclusive-IsPiece [] s tt,
      ))
      (λ e. split_inclusive-IsPiece (line ++ b ∷ []) s (OneLine-longer line b e h))
