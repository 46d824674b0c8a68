-- ===== src/Router/Accepted.antt =====
-- What the write handler of crates/server/src/router.rs has done when it answers that a write is done.
use timelakedb.Base.{
  ℕ, zero, suc, ◌≤◌, ◌<◌, ◌≡◌, ◌≢◌, refl, sym, ap, ◌∙◌, subst, false, ◌&&◌, ◌⊎◌, Option, none, some,
  List, [], ◌∷◌, map, length, get_elem?, replicate, leb, ltb, if_elim, Bool-cases, inl, inr, Result,
  ok, err, here, there, Has, arith,
}
use timelakedb.Base.Int.{ℤ, pos}
use timelakedb.Base.Str.{Str}
use timelakedb.Wal.Bytes.{is_utf8}
use timelakedb.Buffer.Columns.{F64}
use timelakedb.Buffer.Table.{ParsedLine}
use timelakedb.Ingest.Parse.{ParseError, parse_lines}
use timelakedb.Router.Shards.{split_inclusive, trim_ends}
use timelakedb.Router.Write.{
  Target, RouterStats, WriteRequest, Forward, Written, ahead, answered, counted, plain_body,
  forward_of, database_of, multiplier, forward_shards, forwarded_shards, validated, scaled_by,
  decoded, with_targets, with_database, write,
}
use timelakedb.Router.Defaults.{parse_trimmed_default}
use timelakedb.Router.Dealt.{picked, chosen, joined, group_lines-joined}
use timelakedb.Router.Rows.{group_lines_total, parse_lines-joined, parse_lines-trimmed}

-- A shard has arrived, if it is not empty: it was sent and its ingester answered with a success.
abbrev pub Arrived : (Forward → Option ℕ) → Written → (Str → Forward) → Str → Type 0
Arrived send w f s =
    (s ≡ [])
    ⊎ (Has w.sent (f s) × ((code : ℕ) × (send (f s) ≡ some code) × (200 ≤ code) × (code < 300)))

not_success : (code : ℕ) → (leb 200 code && ltb code 300) ≡ false → code ≢ 204
not_success code e h = ground arith

Arrived-ahead :
    (send : Forward → Option ℕ) (w : Written) (g : Forward) (f : Str → Forward) (s : Str)
    → Arrived send w f s
    → Arrived send (ahead g w) f s
Arrived-ahead send w g f s (inl h) = inl h
Arrived-ahead send w g f s (inr h) = inr (there h.0, h.1)

module _ (send : Forward → Option ℕ) where
  answered-done :
      (f : Forward) (stats : RouterStats) (o : Option ℕ) (rest : Written)
      → (answered f stats o rest).status ≡ 204
      → (code : ℕ) × (o ≡ some code)
        × (200 ≤ code)
        × (code < 300)
        × (answered f stats o rest ≡ ahead f rest)
        × (rest.status ≡ 204)
  answered-done f stats none rest h = absurd (omega (arith, h))
  answered-done f stats (some code) rest h = elim (Bool-cases (leb 200 code && ltb code 300)) [
    | inl e ↦
        let same : answered f stats (some code) rest ≡ ahead f rest = rw e refl in
        (code, refl, ground arith, ground arith, same, sym (ap (λ w. w.status) same) ∙ h)
    | inr e ↦
        let failed : (answered f stats (some code) rest).status ≡ code = rw e refl in
        absurd (not_success code e (sym failed ∙ h))
  ]

  forward_shards-Arrived :
      (forward : Target → Str → Forward) (targets : List Target) (shards : List Str)
      (stats : RouterStats) (i : ℕ) (t : Target) (s : Str)
      → (forward_shards send forward targets shards stats).status ≡ 204
      → get_elem? targets i ≡ some t
      → get_elem? shards i ≡ some s
      → Arrived send (forward_shards send forward targets shards stats) (forward t) s
  unfolding forward_shards
  forward_shards-Arrived forward [] shards stats i t s h e f = absurd (cc e)
  forward_shards-Arrived forward (u ∷ targets) [] stats i t s h e f = absurd (cc f)
  forward_shards-Arrived forward (u ∷ targets) ([] ∷ shards) stats zero t s h e f = inl (cc f)
  forward_shards-Arrived forward (u ∷ targets) ([] ∷ shards) stats (suc i) t s h e f =
      forward_shards-Arrived forward targets shards stats i t s h e f
  forward_shards-Arrived forward (u ∷ targets) ((b ∷ sub) ∷ shards) stats zero t s h e f =
      let g = forward u (b ∷ sub) in
      let rest = forward_shards send forward targets shards (counted stats) in
      let (code, c1, c2, c3, c4, c5) = answered-done g stats (send g) rest h in
      let same : g ≡ forward t s = cc in
      let w = answered g stats (send g) rest in
      inr (
        subst
          (λ x. Has w.sent x × ((code : ℕ) × (send x ≡ some code) × (200 ≤ code) × (code < 300)))
          same (subst (λ v. Has v.sent g) (sym c4) (here refl), (code, c1, c2, c3)))
  forward_shards-Arrived forward (u ∷ targets) ((b ∷ sub) ∷ shards) stats (suc i) t s h e f =
      let g = forward u (b ∷ sub) in
      let rest = forward_shards send forward targets shards (counted stats) in
      let (code, c1, c2, c3, c4, c5) = answered-done g stats (send g) rest h in
      subst (λ w. Arrived send w (forward t) s) (sym c4)
        (Arrived-ahead send rest g (forward t) s
          (forward_shards-Arrived forward targets shards (counted stats) i t s c5 e f))

-- What a write that is done has seen of its request.
pub record Validated (parse_f64 : Str → Option F64) (gunzip : Str → Option Str) (r : WriteRequest)
    : Type 0 where
  pub text : Str
  pub mult : ℤ
  pub rows : List ParsedLine
  pub body_read : plain_body gunzip r ≡ some text
  pub precise : multiplier r.precision ≡ some mult
  pub parsed : parse_lines parse_f64 mult (pos 0) text ≡ ok rows

module _ (send : Forward → Option ℕ) (parse_f64 : Str → Option F64) (gunzip : Str → Option Str)
    (r : WriteRequest) (stats : RouterStats) where
  -- The answer is that to a body that was parsed.
  abbrev FromRows : List Target → Written → Type 0
  FromRows targets w =
      (v : Validated parse_f64 gunzip r) × (w ≡ validated send r targets v.text (ok v.rows) stats)

  validated-FromRows :
      (targets : List Target) (text : Str) (mult : ℤ) (p : Result ParseError (List ParsedLine))
      → plain_body gunzip r ≡ some text
      → multiplier r.precision ≡ some mult
      → parse_lines parse_f64 mult (pos 0) text ≡ p
      → (validated send r targets text p stats).status ≡ 204
      → FromRows targets (validated send r targets text p stats)
  validated-FromRows targets text mult (err e) read precise parse h = absurd (omega (arith, h))
  validated-FromRows targets text mult (ok rows) read precise parse h = (
    record {
      text = text;
      mult = mult;
      rows = rows;
      body_read = read;
      precise = precise;
      parsed = parse;
    },
    refl,
  )

  scaled_by-FromRows :
      (targets : List Target) (text : Str) (o : Option ℤ)
      → plain_body gunzip r ≡ some text
      → multiplier r.precision ≡ o
      → (scaled_by send parse_f64 r targets text o stats).status ≡ 204
      → FromRows targets (scaled_by send parse_f64 r targets text o stats)
  scaled_by-FromRows targets text none read precise h = absurd (omega (arith, h))
  scaled_by-FromRows targets text (some mult) read precise h =
      validated-FromRows targets text mult (parse_lines parse_f64 mult (pos 0) text) read precise
        refl h

  decoded-FromRows :
      (targets : List Target) (o : Option Str)
      → plain_body gunzip r ≡ o
      → (decoded send parse_f64 r targets o stats).status ≡ 204
      → FromRows targets (decoded send parse_f64 r targets o stats)
  decoded-FromRows targets none read = λ h. absurd (omega (arith, h))
  decoded-FromRows targets (some text) read =
      if_elim (λ w. w.status ≡ 204 → FromRows targets w) (is_utf8 text)
        (λ e. scaled_by-FromRows targets text (multiplier r.precision) read refl)
        (λ e h. absurd (omega (arith, h)))

  with_targets-FromRows :
      (targets : List Target)
      → (with_targets send parse_f64 gunzip r targets stats).status ≡ 204
      → FromRows targets (with_targets send parse_f64 gunzip r targets stats)
  with_targets-FromRows [] h = absurd (omega (arith, h))
  with_targets-FromRows (t ∷ targets) h =
      decoded-FromRows (t ∷ targets) (plain_body gunzip r) refl h

  with_database-FromRows :
      (targets : List Target) (db : Str)
      → (with_database send parse_f64 gunzip r targets stats db).status ≡ 204
      → FromRows targets (with_database send parse_f64 gunzip r targets stats db)
  with_database-FromRows targets [] h = absurd (omega (arith, h))
  with_database-FromRows targets (b ∷ db) h = with_targets-FromRows targets h

get_elem?-replicate :
    {A : Type 0} (targets : List A) (i : ℕ) (t : A)
    → get_elem? targets i ≡ some t
    → get_elem? (replicate {A = Str} (length targets) []) i ≡ some []
get_elem?-replicate [] i t h = absurd (cc h)
get_elem?-replicate (u ∷ targets) zero t h = refl
get_elem?-replicate (u ∷ targets) (suc i) t h = get_elem?-replicate targets i t h

-- The router has answered that a write is done (204): then the body was read, with the precision asked for,
-- and for any default time the parser takes it, and a target's shard, which is parsed to exactly the
-- rows of the lines that hash to the target, is empty or was sent to it and answered with a success.
pub write-Arrived :
    (send : Forward → Option ℕ) (parse_f64 : Str → Option F64) (gunzip : Str → Option Str)
    (r : WriteRequest) (targets : List Target) (stats : RouterStats) (default_ts_ns : ℤ)
    → (write send parse_f64 gunzip r targets stats).status ≡ 204
    → (text : Str) × (mult : ℤ) × (rows : List ParsedLine) × (plain_body gunzip r ≡ some text)
      × (multiplier r.precision ≡ some mult)
      × (parse_lines parse_f64 mult default_ts_ns text ≡ ok rows)
      × ((i : ℕ) (t : Target)
          → get_elem? targets i ≡ some t
          → (shard : Str) × (parse_lines parse_f64 mult default_ts_ns shard
              ≡ ok (
                  picked
                    (database_of r.db r.bucket)
                    (length targets)
                    i
                    (split_inclusive [] text)
                    rows))
            × Arrived send (write send parse_f64 gunzip r targets stats) (forward_of r t) shard)
unfolding write
write-Arrived send parse_f64 gunzip r targets stats default_ts_ns h =
    let db = database_of r.db r.bucket in
    let n = length targets in
    let (v, from) =
      with_database-FromRows send parse_f64 gunzip r stats targets (database_of r.db r.bucket) h in
    let lines = split_inclusive [] v.text in
    let trimmed = sym (parse_lines-trimmed parse_f64 v.mult (pos 0) v.text) ∙ v.parsed in
    let (rows, accepted) =
      parse_trimmed_default parse_f64 v.mult (pos 0) default_ts_ns 1 (map trim_ends lines) v.rows
        trimmed in
    let parse = parse_lines-trimmed parse_f64 v.mult default_ts_ns v.text ∙ accepted in
    let (shards, dealt) =
      group_lines_total parse_f64 v.mult (pos 0) db n 1 lines (replicate n []) v.rows trimmed in
    let whole = from ∙ ap (λ g. forwarded_shards send (forward_of r) targets g stats) dealt in
    (
      v.text,
      v.mult,
      rows,
      v.body_read,
      v.precise,
      parse,
      λ i t at. (
        joined (chosen db n i lines),
        parse_lines-joined parse_f64 v.mult default_ts_ns db n i v.text rows parse,
        subst (λ w. Arrived send w (forward_of r t) (joined (chosen db n i lines))) (sym whole)
            (forward_shards-Arrived send (forward_of r) targets shards stats i t
              (joined (chosen db n i lines)) (sym (ap (λ w. w.status) whole) ∙ h) at
              (group_lines-joined db n lines (replicate n []) shards i [] dealt
                (get_elem?-replicate targets i t at))),
      ),
    )
