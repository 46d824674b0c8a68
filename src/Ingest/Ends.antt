-- ===== src/Ingest/Ends.antt =====
-- The loops of `parse_line` in crates/ingest/src/lib.rs end: each round leaves less of the line.
use timelakedb.Base.{
  ℕ, zero, suc, ◌<◌, ◌≢◌, refl, subst, not, Option, none, some, [], ◌∷◌, ◌==◌, if_elim,
  Option-cases, inl, inr, err, ok_or, length, arith,
}
use timelakedb.Base.Int.{ℤ}
use timelakedb.Base.Str.{Str}
use timelakedb.Base.Text.{trim}
use timelakedb.Wal.Bytes.{is_utf8}
use timelakedb.Buffer.Columns.{F64}
use timelakedb.Ingest.Scan.{
  bad_timestamp, timestamp_overflow, out_of_fuel, no_field_set, tag_without_value,
  field_without_value, reserved_tag, reserved_field, take_escaped, expect, reject_reserved_key,
}
use timelakedb.Ingest.Value.{parse_i64, take_field_value}
use timelakedb.Ingest.Parse.{
  parse_tags, parse_fields, behind_comma, parse_timestamp, not_empty, parse_line, scaled,
  checked_mul,
}
use timelakedb.Ingest.Left.{
  Ends, Left, bind-Ends, take_escaped-Ends, expect-Ends, reject_reserved_key-Ends, ok_or-Ends,
  then_ok, take_field_value-Ends, utf8_problem,
}

parse_tags-Ends :
    (fuel : ℕ) (s : Str) → length s < fuel → Ends (Left (length s)) (parse_tags fuel s)
unfolding parse_tags
parse_tags-Ends zero s h = absurd (omega (arith, h))
parse_tags-Ends (suc fuel) [] h = omega arith
parse_tags-Ends (suc fuel) (b ∷ s) h =
    if_elim (Ends (Left (suc (length s)))) (not (b == 44)) (λ e. omega arith)
      (λ e.
        bind-Ends (Left (length s)) (Left (suc (length s))) (take_escaped (61 ∷ []) s) _
          (take_escaped-Ends (61 ∷ []) s)
          (λ p l1.
            bind-Ends (λ r. length r < length p.1) (Left (suc (length s)))
              (expect 61 (tag_without_value p.0) p.1) _
              (expect-Ends 61 (tag_without_value p.0) p.1 (λ k. cc k))
              (λ r l2.
                bind-Ends (λ u. Unit {0}) (Left (suc (length s)))
                  (reject_reserved_key (reserved_tag p.0) p.0) _
                  (reject_reserved_key-Ends (reserved_tag p.0) p.0 (λ k. cc k))
                  (λ u l3.
                    bind-Ends (Left (length r)) (Left (suc (length s))) (take_escaped (44 ∷ []) r) _
                      (take_escaped-Ends (44 ∷ []) r)
                      (λ q l4.
                        bind-Ends (Left (length q.1)) (Left (suc (length s))) (parse_tags fuel q.1)
                          _ (parse_tags-Ends fuel q.1 (omega (arith, h, l1, l2, l4)))
                          (λ t l5. omega (arith, l1, l2, l4, l5)))))))

abbrev CommaLeft : ℕ → Option Str → Type 0
CommaLeft n none = Unit
CommaLeft n (some s) = length s < n

behind_comma-Left : (s : Str) → CommaLeft (suc (length s)) (behind_comma s)
behind_comma-Left [] = tt
behind_comma-Left (b ∷ s) =
    if_elim (CommaLeft (suc (suc (length s)))) (b == 44) (λ e. omega arith) (λ e. tt)

parse_fields-Ends :
    (parse_f64 : Str → Option F64) (fuel : ℕ) (s : Str)
    → length s < fuel
    → Ends (λ p. Unit {0}) (parse_fields parse_f64 fuel s)
unfolding parse_fields
parse_fields-Ends parse_f64 zero s h = absurd (omega (arith, h))
parse_fields-Ends parse_f64 (suc fuel) s h =
    bind-Ends (Left (length s)) (λ p. Unit {0}) (take_escaped (61 ∷ []) s) _
      (take_escaped-Ends (61 ∷ []) s)
      (λ p l1.
        bind-Ends (λ r. length r < length p.1) (λ p. Unit {0})
          (expect 61 (field_without_value p.0) p.1) _
          (expect-Ends 61 (field_without_value p.0) p.1 (λ k. cc k))
          (λ r l2.
            bind-Ends (λ u. Unit {0}) (λ p. Unit {0}) (reject_reserved_key (reserved_field p.0) p.0)
              _ (reject_reserved_key-Ends (reserved_field p.0) p.0 (λ k. cc k))
              (λ u l3.
                bind-Ends (Left (length r)) (λ p. Unit {0}) (take_field_value parse_f64 r) _
                  (take_field_value-Ends parse_f64 r)
                  (λ q l4. elim (Option-cases (behind_comma q.1)) [
                    | inl e ↦ rw e tt
                    | inr (more, e) ↦
                        let shorter : length more < suc (length q.1) =
                          subst (CommaLeft (suc (length q.1))) e (behind_comma-Left q.1) in
                        rw e (
                          then_ok (parse_fields parse_f64 fuel more) _ (
                            parse_fields-Ends parse_f64 fuel more
                              (omega (arith, h, l1, l2, l4, shorter))))
                  ]))))

scaled-Ends :
    (ts : Str) (mult default_ts_ns : ℤ) → Ends (λ z. Unit {0}) (scaled ts mult default_ts_ns)
scaled-Ends [] mult default_ts_ns = tt
scaled-Ends (b ∷ ts) mult default_ts_ns =
    bind-Ends (λ n. Unit {0}) (λ z. Unit {0}) (ok_or bad_timestamp (parse_i64 (b ∷ ts))) _
      (ok_or-Ends bad_timestamp (parse_i64 (b ∷ ts)) (λ k. cc k))
      (λ n l. ok_or-Ends timestamp_overflow (checked_mul n mult) (λ k. cc k))

parse_timestamp-Ends :
    (s : Str) (mult default_ts_ns : ℤ) → Ends (λ z. Unit {0}) (parse_timestamp s mult default_ts_ns)
unfolding parse_timestamp
parse_timestamp-Ends [] mult default_ts_ns = tt
parse_timestamp-Ends (b ∷ s) mult default_ts_ns =
    if_elim (Ends (λ z. Unit {0})) (not (b == 32)) (λ e. tt)
      (λ e.
        if_elim (Ends (λ z. Unit {0})) (not (is_utf8 s)) (λ f. utf8_problem)
          (λ f. scaled-Ends (trim s) mult default_ts_ns))

not_empty-Ends : (s : Str) → Ends (λ u. Unit {0}) (not_empty s)
not_empty-Ends [] = λ h. cc h
not_empty-Ends (b ∷ s) = tt

line-Ends :
    (parse_f64 : Str → Option F64) (mult default_ts_ns : ℤ) (line : Str)
    → Ends (λ r. Unit {0}) (parse_line parse_f64 mult default_ts_ns line)
unfolding parse_line
line-Ends parse_f64 mult default_ts_ns line =
    bind-Ends (Left (length line)) (λ r. Unit {0}) (take_escaped (44 ∷ []) line) _
      (take_escaped-Ends (44 ∷ []) line)
      (λ p l1.
        bind-Ends (λ u. Unit {0}) (λ r. Unit {0}) (not_empty p.0) _ (not_empty-Ends p.0)
          (λ u l2.
            bind-Ends (Left (length p.1)) (λ r. Unit {0}) (parse_tags (suc (length line)) p.1) _
              (parse_tags-Ends (suc (length line)) p.1 (omega (arith, l1)))
              (λ t l3.
                bind-Ends (λ r. length r < length t.1) (λ r. Unit {0}) (expect 32 no_field_set t.1)
                  _ (expect-Ends 32 no_field_set t.1 (λ k. cc k))
                  (λ r l4.
                    bind-Ends (λ f. Unit {0}) (λ r. Unit {0})
                      (parse_fields parse_f64 (suc (length line)) r) _
                      (parse_fields-Ends parse_f64 (suc (length line)) r
                        (omega (arith, l1, l3, l4)))
                      (λ f l5.
                        then_ok (parse_timestamp f.1 mult default_ts_ns) _
                          (parse_timestamp-Ends f.1 mult default_ts_ns))))))

-- The parsing of a line ends: the fuel given is enough for every line.
pub parse_line-ne-out_of_fuel :
    (parse_f64 : Str → Option F64) (mult default_ts_ns : ℤ) (line : Str)
    → parse_line parse_f64 mult default_ts_ns line ≢ err out_of_fuel
parse_line-ne-out_of_fuel parse_f64 mult default_ts_ns line h =
    subst (Ends (λ r. Unit {0})) h (line-Ends parse_f64 mult default_ts_ns line) refl
