-- ===== src/Router/Dealt.antt =====
-- The shards of a body in crates/server/src/router.rs hold its rows, each in the shard of its line.
use timelakedb.Base.{
  ℕ, zero, suc, ◌≡◌, ◌≢◌, refl, sym, ap, ◌∙◌, subst, Bool, true, false, Option, none, some, List,
  [], ◌∷◌, ◌++◌, get_elem?, ◌==◌, if◌then◌else◌, Bool-cases, Option-cases, inl, inr, Result, ok,
  err, arith,
}
use mathlib.Core.List.{append_assoc, append-nil}
use mathlib.Core.Option
use timelakedb.Base.Str.{Str}
use timelakedb.Buffer.Table.{ParsedLine}
use timelakedb.Ingest.Parse.{skipped}
use timelakedb.Router.Shards.{
  line_measurement, shard_of, trim_ends, ended, push_at, routed, group_lines,
}

-- The shard of a line; none for a blank line or a comment.
unfoldable pub owner : Str → ℕ → Str → Option ℕ
owner db n line =
    if skipped (trim_ends line)
    then none
    else Option.map (λ m. shard_of db m n) (routed (line_measurement (trim_ends line)))

abbrev pub is_at : ℕ → Option ℕ → Bool
is_at i none = false
is_at i (some o) = o == i

abbrev pub first : List ParsedLine → List ParsedLine
first [] = []
first (row ∷ rows) = row ∷ []

abbrev pub behind_first : List ParsedLine → List ParsedLine
behind_first [] = []
behind_first (row ∷ rows) = rows

-- The rows of the lines that a shard owns. Each line has a row, but for the blank ones and comments.
unfoldable pub picked : Str → ℕ → ℕ → List Str → List ParsedLine → List ParsedLine
picked db n i [] rows = []
picked db n i (line ∷ lines) rows =
    let same = picked db n i lines rows in
    let rest = picked db n i lines (behind_first rows) in
    if skipped (trim_ends line)
    then same
    else if is_at i (owner db n line)
    then first rows ++ rest
    else rest

-- The lines that a shard owns, and their text as it is forwarded.
unfoldable pub chosen : Str → ℕ → ℕ → List Str → List Str
chosen db n i [] = []
chosen db n i (line ∷ lines) =
    let rest = chosen db n i lines in if is_at i (owner db n line) then line ∷ rest else rest

unfoldable pub joined : List Str → Str
joined [] = []
joined (line ∷ lines) = ended line ++ joined lines

get_elem?-push_at :
    (j i : ℕ) (line s : Str) (shards : List Str)
    → get_elem? shards i ≡ some s
    → get_elem? (push_at j line shards) i ≡ some (if j == i then s ++ line else s)
unfolding push_at
get_elem?-push_at j i line s [] h = absurd (cc h)
get_elem?-push_at zero zero line s (t ∷ shards) h = cc h
get_elem?-push_at zero (suc i) line s (t ∷ shards) h = ground (arith, h)
get_elem?-push_at (suc j) zero line s (t ∷ shards) h = ground (arith, h)
get_elem?-push_at (suc j) (suc i) line s (t ∷ shards) h =
    get_elem?-push_at j i line s shards h
    ∙ ap (λ b. some (if b then s ++ line else s)) (ground arith)

pub refused : {e : Str} {out : List Str} → ◌≢◌ {A = Result Str (List Str)} (err e) (ok out)
refused h = absurd (cc h)

module _ (db : Str) (n : ℕ) (line : Str) (lines shards : List Str) where
  pub group_lines-skipped :
      skipped (trim_ends line) ≡ true
      → group_lines db n (line ∷ lines) shards ≡ group_lines db n lines shards
  unfolding group_lines
  group_lines-skipped e = rw e refl

  group_lines_refused :
      skipped (trim_ends line) ≡ false
      → routed (line_measurement (trim_ends line)) ≡ none
      → group_lines db n (line ∷ lines) shards ≡ err (trim_ends line)
  unfolding group_lines
  group_lines_refused e f = rw (e, f) refl

  pub group_lines-routed :
      (m : Str)
      → skipped (trim_ends line) ≡ false
      → routed (line_measurement (trim_ends line)) ≡ some m
      → group_lines db n (line ∷ lines) shards
        ≡ group_lines db n lines (push_at (shard_of db m n) (ended line) shards)
  unfolding group_lines
  group_lines-routed m e f = rw (e, f) refl

module _ (db : Str) (n : ℕ) (line : Str) where
  pub owner-skipped : skipped (trim_ends line) ≡ true → owner db n line ≡ none
  unfolding owner
  owner-skipped e = rw e refl

  pub owner-routed :
      (m : Str)
      → skipped (trim_ends line) ≡ false
      → routed (line_measurement (trim_ends line)) ≡ some m
      → owner db n line ≡ some (shard_of db m n)
  unfolding owner
  owner-routed m e f = rw (e, f) refl

joined-chosen_other :
    (db : Str) (n i : ℕ) (line : Str) (lines : List Str)
    → is_at i (owner db n line) ≡ false
    → joined (chosen db n i (line ∷ lines)) ≡ joined (chosen db n i lines)
unfolding chosen
joined-chosen_other db n i line lines h = rw h refl

pushed :
    (b : Bool) (s : Str) (line : Str) (lines rest : List Str)
    → (if b then s ++ ended line else s) ++ joined rest
      ≡ s ++ joined (if b then line ∷ rest else rest)
unfolding joined
pushed true s line lines rest = append_assoc s (ended line) (joined rest)
pushed false s line lines rest = refl

-- What the shards hold behind the loop.
pub group_lines-joined :
    (db : Str) (n : ℕ) (lines : List Str) (shards out : List Str) (i : ℕ) (s : Str)
    → group_lines db n lines shards ≡ ok out
    → get_elem? shards i ≡ some s
    → get_elem? out i ≡ some (s ++ joined (chosen db n i lines))
unfolding group_lines chosen joined
group_lines-joined db n [] shards out i s h k =
    subst (λ l. get_elem? l i ≡ some (s ++ [])) (cc h) (k ∙ ap some (sym (append-nil s)))
group_lines-joined db n (line ∷ lines) shards out i s h k =
    elim (Bool-cases (skipped (trim_ends line))) [
      | inl e ↦
          group_lines-joined db n lines shards out i s
            (sym (group_lines-skipped db n line lines shards e) ∙ h) k
          ∙ ap (λ t. some (s ++ t))
              (sym
                (joined-chosen_other db n i line lines (ap (is_at i) (owner-skipped db n line e))))
      | inr e ↦ elim (Option-cases (routed (line_measurement (trim_ends line)))) [
        | inl f ↦ absurd (refused (sym (group_lines_refused db n line lines shards e f) ∙ h))
        | inr (m, f) ↦
            let o = shard_of db m n in
            let at = owner-routed db n line m e f in
            group_lines-joined db n lines (push_at o (ended line) shards) out i
              (if o == i then s ++ ended line else s)
              (sym (group_lines-routed db n line lines shards m e f) ∙ h)
              (get_elem?-push_at o i (ended line) s shards k)
            ∙ (ap some (pushed (o == i) s line lines (chosen db n i lines))
                ∙ ap
                    (λ b.
                      some (
                        s
                        ++ joined (if b then line ∷ chosen db n i lines else chosen db n i lines)))
                    (sym (ap (is_at i) at)))
      ]
    ]
