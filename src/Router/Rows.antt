-- ===== src/Router/Rows.antt =====
-- The ingesters parse the shards that crates/server/src/router.rs makes of a body to the body's rows.
use timelakedb.Base.{
  ℕ, suc, ◌≡◌, refl, sym, ap, ◌∙◌, true, false, ◌||◌, Option, some, List, [], ◌∷◌, ◌++◌, map, ◌==◌,
  Bool-cases, inl, inr, Result, ok, err, ◌>>=◌, All, arith,
}
use mathlib.Core.List.{append_assoc}
use timelakedb.Base.Int.{ℤ}
use timelakedb.Base.Str.{Str}
use timelakedb.Base.Text.{lines_from}
use timelakedb.Wal.Bytes.{utf8_from}
use timelakedb.Buffer.Columns.{F64}
use timelakedb.Buffer.Table.{ParsedLine}
use timelakedb.Ingest.Scan.{ParseProblem, empty_measurement, stops_at, take_bytes, take_escaped}
use timelakedb.Ingest.Parse.{ParseError, parse_line, parse_lines, skipped, trim_cr, at_line}
use timelakedb.Ingest.Printed.Names.{take_bytes-Stopped}
use timelakedb.Ingest.Printed.OneLine.{lines_from-append}
use timelakedb.Router.Shards.{
  measurement_prefix, line_measurement, shard_of, split_inclusive, trim_ends, ended, push_at,
  routed, group_lines,
}
use timelakedb.Router.Lines.{
  parse_trimmed, parse_each-parse_trimmed, trim_cr-strip_cr, lines_from-split_inclusive, IsPiece,
  split_inclusive-IsPiece, cons_eq,
}
use timelakedb.Router.Dealt.{
  owner, is_at, picked, chosen, joined, group_lines-skipped, group_lines-routed, owner-skipped,
}

stops_bare :
    (b : ℕ) (s : Str) → (b == 44 || b == 32) ≡ true → take_bytes (44 ∷ []) (b ∷ s) ≡ ([], b ∷ s)
stops_bare b s h =
    let stop : stops_at (44 ∷ []) b ≡ true = ground arith in
    let letter : (b == 92) ≡ false = ground arith in
    take_bytes-Stopped (44 ∷ []) (b ∷ s) (stop, letter)

parse_line-bare :
    (parse_f64 : Str → Option F64) (mult default_ts_ns : ℤ) (b : ℕ) (s : Str)
    → (b == 44 || b == 32) ≡ true
    → parse_line parse_f64 mult default_ts_ns (b ∷ s) ≡ err empty_measurement
unfolding parse_line take_escaped utf8_from
parse_line-bare parse_f64 mult default_ts_ns b s h = rw (stops_bare b s h) refl

measurement_prefix_first :
    (b : ℕ) (s : Str)
    → (b == 44 || b == 32) ≡ false
    → (t : Str) × (measurement_prefix (b ∷ s) ≡ b ∷ t)
unfolding measurement_prefix
measurement_prefix_first b [] h = ([], rw h refl)
measurement_prefix_first b (n ∷ s) h = elim (Bool-cases (b == 92)) [
  | inl e ↦ (n ∷ measurement_prefix s, rw e refl)
  | inr e ↦ (measurement_prefix (n ∷ s), rw (e, h) refl)
]

-- A line that the parser takes has a measurement to be routed by.
parse_line-routed :
    (parse_f64 : Str → Option F64) (mult default_ts_ns : ℤ) (line : Str) (row : ParsedLine)
    → skipped line ≡ false
    → parse_line parse_f64 mult default_ts_ns line ≡ ok row
    → (m : Str) × (routed (line_measurement line) ≡ some m)
unfolding line_measurement
parse_line-routed parse_f64 mult default_ts_ns [] row h k = absurd (cc h)
parse_line-routed parse_f64 mult default_ts_ns (b ∷ s) row h k =
    elim (Bool-cases (b == 44 || b == 32)) [
      | inl e ↦ absurd (cc (parse_line-bare parse_f64 mult default_ts_ns b s e, k))
      | inr e ↦ let (t, f) = measurement_prefix_first b s e in (b ∷ t, rw f refl)
    ]

piece_ahead :
    (line : Str) (h : IsPiece line) (rest : Str) → ended line ++ rest ≡ h.line ++ 10 ∷ rest
piece_ahead line h rest = ap (λ t. t ++ rest) h.forwarded ∙ append_assoc h.line (10 ∷ []) rest

-- What a shard's text is for the parser: the trimmed lines that the shard owns.
lines_from-joined :
    (db : Str) (n i : ℕ) (lines : List Str)
    → All IsPiece lines
    → map trim_cr (lines_from [] (joined (chosen db n i lines)))
      ≡ map trim_ends (chosen db n i lines)
unfolding joined chosen lines_from
lines_from-joined db n i [] h = refl
lines_from-joined db n i (line ∷ lines) h = elim (Bool-cases (is_at i (owner db n line))) [
  | inl e ↦ rw e (
      ap (map trim_cr) (
        ap (lines_from []) (piece_ahead line h.0 (joined (chosen db n i lines)))
        ∙ lines_from-append [] h.0.line (joined (chosen db n i lines)) h.0.one_line)
      ∙ cons_eq (trim_cr-strip_cr h.0.line ∙ sym h.0.trimmed) (lines_from-joined db n i lines h.1))
  | inr e ↦ rw e (lines_from-joined db n i lines h.1)
]

next_of :
    (n : ℕ) (m : Result ParseProblem ParsedLine) (later : Result ParseError (List ParsedLine))
    (rows : List ParsedLine)
    → (at_line n m >>= λ row. later >>= λ more. ok (row ∷ more)) ≡ ok rows
    → (row : ParsedLine) × (rest : List ParsedLine) × (rows ≡ row ∷ rest)
      × (m ≡ ok row)
      × (later ≡ ok rest)
next_of n (err e) later rows h = absurd (cc h)
next_of n (ok row) (err e) rows h = absurd (cc h)
next_of n (ok row) (ok rest) rows h = (row, rest, cc h, refl, refl)

module _ (parse_f64 : Str → Option F64) (mult default_ts_ns : ℤ) where
  abbrev parsed : ℕ → List Str → Result ParseError (List ParsedLine)
  parsed = parse_trimmed parse_f64 mult default_ts_ns

  -- The line ahead has a row of its own, or none.
  parsed_next :
      (k : ℕ) (line : Str) (lines : List Str) (rows : List ParsedLine)
      → skipped line ≡ false
      → parsed k (line ∷ lines) ≡ ok rows
      → (row : ParsedLine) × (rest : List ParsedLine) × (rows ≡ row ∷ rest)
        × (parse_line parse_f64 mult default_ts_ns line ≡ ok row)
        × (parsed (suc k) lines ≡ ok rest)
  unfolding parse_trimmed
  parsed_next k line lines rows e h =
      next_of k (parse_line parse_f64 mult default_ts_ns line) (parsed (suc k) lines) rows
        (sym (rw (parse_trimmed, e) refl) ∙ h)

  parsed-chosen :
      (db : Str) (n i : ℕ) (lines : List Str) (rows : List ParsedLine) (k j : ℕ)
      → parsed k (map trim_ends lines) ≡ ok rows
      → parsed j (map trim_ends (chosen db n i lines)) ≡ ok (picked db n i lines rows)
  unfolding parse_trimmed chosen picked
  parsed-chosen db n i [] rows k j h = refl
  parsed-chosen db n i (line ∷ lines) rows k j h = elim (Bool-cases (skipped (trim_ends line))) [
    | inl e ↦
        let at = ap (is_at i) (owner-skipped db n line e) in
        rw (e, at)
          (parsed-chosen db n i lines rows (suc k) j (sym (rw (parse_trimmed, e) refl) ∙ h))
    | inr e ↦
        let (row, rest, f, g, later) =
          parsed_next k (trim_ends line) (map trim_ends lines) rows e h in
        rw f (elim (Bool-cases (is_at i (owner db n line))) [
          | inl at ↦
              rw (e, at)
                (rw (parse_trimmed, e, g, parsed-chosen db n i lines rest (suc k) (suc j) later)
                  refl)
          | inr at ↦ rw (e, at) (parsed-chosen db n i lines rest (suc k) j later)
        ])
  ]

-- A body that is accepted is dealt out to shards.
pub group_lines_total :
    (parse_f64 : Str → Option F64) (mult default_ts_ns : ℤ) (db : Str) (n k : ℕ)
    (lines shards : List Str) (rows : List ParsedLine)
    → parse_trimmed parse_f64 mult default_ts_ns k (map trim_ends lines) ≡ ok rows
    → (out : List Str) × (group_lines db n lines shards ≡ ok out)
unfolding group_lines parse_trimmed
group_lines_total parse_f64 mult default_ts_ns db n k [] shards rows h = (shards, refl)
group_lines_total parse_f64 mult default_ts_ns db n k (line ∷ lines) shards rows h =
    elim (Bool-cases (skipped (trim_ends line))) [
      | inl e ↦
          let (out, f) =
            group_lines_total parse_f64 mult default_ts_ns db n (suc k) lines shards rows
              (sym (rw (parse_trimmed, e) refl) ∙ h) in
          (out, group_lines-skipped db n line lines shards e ∙ f)
      | inr e ↦
          let (row, rest, f, g, later) =
            parsed_next parse_f64 mult default_ts_ns k (trim_ends line) (map trim_ends lines) rows e
              h in
          let (m, at) = parse_line-routed parse_f64 mult default_ts_ns (trim_ends line) row e g in
          let (out, to) =
            group_lines_total parse_f64 mult default_ts_ns db n (suc k) lines
              (push_at (shard_of db m n) (ended line) shards) rest later in
          (out, group_lines-routed db n line lines shards m e at ∙ to)
    ]

-- The text of a shard is parsed to the rows of its lines.
pub parse_lines-joined :
    (parse_f64 : Str → Option F64) (mult default_ts_ns : ℤ) (db : Str) (n i : ℕ) (text : Str)
    (rows : List ParsedLine)
    → parse_lines parse_f64 mult default_ts_ns text ≡ ok rows
    → parse_lines parse_f64 mult default_ts_ns (joined (chosen db n i (split_inclusive [] text)))
      ≡ ok (picked db n i (split_inclusive [] text) rows)
unfolding parse_lines
parse_lines-joined parse_f64 mult default_ts_ns db n i text rows h =
    let lines = split_inclusive [] text in
    parse_each-parse_trimmed parse_f64 mult default_ts_ns 1
      (lines_from [] (joined (chosen db n i lines)))
    ∙ (ap (parse_trimmed parse_f64 mult default_ts_ns 1)
          (lines_from-joined db n i lines (split_inclusive-IsPiece [] text tt))
        ∙ parsed-chosen parse_f64 mult default_ts_ns db n i lines rows 1 1 (
            sym (
              ap (parse_trimmed parse_f64 mult default_ts_ns 1)
                (lines_from-split_inclusive [] text tt))
            ∙ (sym (parse_each-parse_trimmed parse_f64 mult default_ts_ns 1 (lines_from [] text))
                ∙ h)))

-- The body of a write, as the parser reads it.
pub parse_lines-trimmed :
    (parse_f64 : Str → Option F64) (mult default_ts_ns : ℤ) (text : Str)
    → parse_lines parse_f64 mult default_ts_ns text
      ≡ parse_trimmed parse_f64 mult default_ts_ns 1 (map trim_ends (split_inclusive [] text))
unfolding parse_lines
parse_lines-trimmed parse_f64 mult default_ts_ns text =
    parse_each-parse_trimmed parse_f64 mult default_ts_ns 1 (lines_from [] text)
    ∙ ap (parse_trimmed parse_f64 mult default_ts_ns 1) (lines_from-split_inclusive [] text tt)
