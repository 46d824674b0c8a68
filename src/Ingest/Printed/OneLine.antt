-- ===== src/Ingest/Printed/OneLine.antt =====
-- `parse_lines` of crates/ingest/src/lib.rs splits its input at line feeds, which only end the rows that it prints.
use timelakedb.Base.{
  ℕ, ◌≡◌, ◌≢◌, refl, ◌∙◌, ap, Bool, true, false, ◌||◌, ◌&&◌, List, [], ◌∷◌, ◌++◌, ◌==◌, if_elim,
  All, All-append, arith,
}
use mathlib.Core.List.{append_assoc, append-nil}
use timelakedb.Base.Str.{Str}
use timelakedb.Base.Text.{lines_from, strip_cr}
use timelakedb.Ingest.Parse.{skipped, trim_cr}
use timelakedb.Ingest.Print.{escape_into, quote_into, tags_text}
use timelakedb.Ingest.Printed.Numbers.{IsGraphic}
use timelakedb.Ingest.Printed.Values.{IsNumeral, OneLine}
use timelakedb.Ingest.Printed.Fields.{IsTag}
use timelakedb.Ingest.Printed.Line.{NoComment}

pub lines_from-append :
    (line s more : Str)
    → OneLine s
    → lines_from line (s ++ 10 ∷ more) ≡ strip_cr (line ++ s) ∷ lines_from [] more
unfolding lines_from
lines_from-append line [] more h = rw append-nil refl
lines_from-append line (b ∷ s) more h =
    let other : (b == 10) ≡ false = ground arith in
    rw other (lines_from-append (line ++ b ∷ []) s more h.1)
    ∙ ap (λ l. strip_cr l ∷ lines_from [] more) (append_assoc line (b ∷ []) s)

pub strip_cr-graphic : (s : Str) → All IsGraphic s → strip_cr s ≡ s
unfolding strip_cr
strip_cr-graphic [] h = refl
strip_cr-graphic (b ∷ []) h = ground arith
strip_cr-graphic (b ∷ c ∷ s) h = ap (◌∷◌ b) (strip_cr-graphic (c ∷ s) h.1)

pub trim_cr-graphic : (s : Str) → All IsGraphic s → trim_cr s ≡ s
unfolding trim_cr
trim_cr-graphic [] h = refl
trim_cr-graphic (b ∷ []) h = ground arith
trim_cr-graphic (b ∷ c ∷ s) h = rw (trim_cr-graphic (c ∷ s) h.1) refl

pub strip_cr-next : (b : ℕ) (s : Str) → s ≢ [] → strip_cr (b ∷ s) ≡ b ∷ strip_cr s
unfolding strip_cr
strip_cr-next b [] h = absurd (h refl)
strip_cr-next b (c ∷ s) h = refl

pub trim_cr-next : (b : ℕ) (s : Str) → s ≢ [] → trim_cr s ≡ s → trim_cr (b ∷ s) ≡ b ∷ s
unfolding trim_cr
trim_cr-next b [] h k = absurd (h refl)
trim_cr-next b (c ∷ s) h k = rw k refl

pub append-ne-nil : (p s : Str) → s ≢ [] → p ++ s ≢ []
append-ne-nil [] s h = h
append-ne-nil (b ∷ p) s h = λ e. cc e

-- A line that ends with a graphic character keeps its end.
module _ (s : Str) (graphic : All IsGraphic s) (nonempty : s ≢ []) where
  pub strip_cr-append : (p : Str) → strip_cr (p ++ s) ≡ p ++ s
  strip_cr-append [] = strip_cr-graphic s graphic
  strip_cr-append (b ∷ p) =
      strip_cr-next b (p ++ s) (append-ne-nil p s nonempty) ∙ ap (◌∷◌ b) (strip_cr-append p)

  pub trim_cr-append : (p : Str) → trim_cr (p ++ s) ≡ p ++ s
  trim_cr-append [] = trim_cr-graphic s graphic
  trim_cr-append (b ∷ p) = trim_cr-next b (p ++ s) (append-ne-nil p s nonempty) (trim_cr-append p)

pub OneLine-escape_into : (s : Str) (e : Bool) → OneLine s → OneLine (escape_into s e)
unfolding escape_into
OneLine-escape_into [] e h = tt
OneLine-escape_into (c ∷ s) e h =
    if_elim OneLine (c == 44 || (c == 32 || (e && c == 61)))
      (λ k. ((λ x. cc x), (h.0, OneLine-escape_into s e h.1)))
      (λ k. (h.0, OneLine-escape_into s e h.1))

pub OneLine-quote_into : (s : Str) → OneLine s → OneLine (quote_into s)
unfolding quote_into
OneLine-quote_into [] h = tt
OneLine-quote_into (c ∷ s) h =
    if_elim OneLine (c == 34 || c == 92) (λ k. ((λ x. cc x), (h.0, OneLine-quote_into s h.1)))
      (λ k. (h.0, OneLine-quote_into s h.1))

pub graphic-OneLine : (s : Str) → All IsGraphic s → OneLine s
graphic-OneLine [] h = tt
graphic-OneLine (b ∷ s) h = ((λ e. omega (arith, e, h.0)), graphic-OneLine s h.1)

pub numeral-OneLine : (s : Str) → All IsNumeral s → OneLine s
numeral-OneLine [] h = tt
numeral-OneLine (b ∷ s) h = ((λ e. omega (arith, e, h.0)), numeral-OneLine s h.1)

pub join : (s t : Str) → OneLine s → OneLine t → OneLine (s ++ t)
join = All-append (λ b. b ≢ 10)

pub OneLine-tags_text : (tags : List (Str × Str)) → All IsTag tags → OneLine (tags_text tags)
unfolding tags_text
OneLine-tags_text [] h = tt
OneLine-tags_text ((k, v) ∷ tags) h = (
  λ e. omega (arith, e),
  join (escape_into k true) (61 ∷ (escape_into v true ++ tags_text tags))
      (OneLine-escape_into k true h.0.0.one_line)
      (
        λ e. omega (arith, e),
        join (escape_into v true) (tags_text tags) (OneLine-escape_into v true h.0.2.one_line)
            (OneLine-tags_text tags h.1),
      ),
)

pub skipped-append :
    (table : Str) (rest : Str)
    → table ≢ []
    → NoComment table
    → skipped (escape_into table false ++ rest) ≡ false
unfolding escape_into
skipped-append [] rest h k = absurd (h refl)
skipped-append (c ∷ table) rest h k = ground arith
