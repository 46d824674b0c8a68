-- ===== src/Audit/Recovery.antt =====
-- The trail of crates/audit/src/lib.rs against its specification, a list of chained records: appends
-- with rotations, and openings of the trail again.
use timelakedb.Base.{
  ℕ, suc, ◌≡◌, refl, sym, ◌∙◌, ap, none, some, List, [], ◌∷◌, ◌++◌, ok, err, Result, length, All,
}
use timelakedb.Base.Str.{Str}
use timelakedb.Audit.Record.{
  AuditRecord, NewRecord, Formats, Lines, NotNull, genesis, verify_from, verify_records,
}
use timelakedb.Audit.Lines.{encode}
use timelakedb.Audit.Segments.{Dir, read_segments, read_all, AuditError}
use timelakedb.Audit.Sink.{
  AuditSink, Policy, no_fault, recover, append, new_record, open_with, verify,
}
use timelakedb.Audit.Chain.{last_hash, recover-head}
use timelakedb.Audit.Trail.{Keeps, read_all-Keeps, append-Keeps}

-- A call: an append at a time, or the opening of the trail again.
pub data Call : Type 0 where
  appending : ℕ → Str → NewRecord → Call
  reopening : ℕ → Call

abbrev reopened : AuditSink × Dir → Result AuditError AuditSink × Dir → AuditSink × Dir
reopened old (ok s, dir) = (s, dir)
reopened old (err e, dir) = (old.0, dir)

abbrev pub step : Formats → AuditSink × Dir → Call → AuditSink × Dir
step fmt (s, dir) (appending now node nr) =
    ((append fmt no_fault now node nr s dir).1, (append fmt no_fault now node nr s dir).2)
step fmt (s, dir) (reopening now) = reopened (s, dir) (open_with fmt s.policy now dir)

abbrev pub run : Formats → AuditSink × Dir → List Call → AuditSink × Dir
run fmt state [] = state
run fmt state (c ∷ calls) = run fmt (step fmt state c) calls

-- The specification: each record is numbered by its place and linked to the one before.
abbrev pub spec_step : Formats → List AuditRecord → Call → List AuditRecord
spec_step fmt log (appending now node nr) =
    log ++ new_record fmt now node nr (suc (length log)) (last_hash genesis log) ∷ []
spec_step fmt log (reopening now) = log

abbrev pub spec_run : Formats → List AuditRecord → List Call → List AuditRecord
spec_run fmt log [] = log
spec_run fmt log (c ∷ calls) = spec_run fmt (spec_step fmt log c) calls

abbrev pub WithoutNull : Call → Type 0
WithoutNull (appending now node nr) = NotNull nr.before × NotNull nr.after
WithoutNull (reopening now) = Unit

-- A new trail.
abbrev pub started : Policy → ℕ → AuditSink × Dir
started policy now = (
  record { next_seq = 1; head = genesis; policy = policy; written = 0; opened = now },
  record { rotated = []; live = some (record { content = []; modified = now }) },
)

module _ (fmt : Formats) (laws : Lines fmt) where
  open_with_kept :
      (now : ℕ) (s : AuditSink) (dir : Dir) (log : List AuditRecord) (k : Keeps fmt s dir log)
      → open_with fmt s.policy now dir ≡ (
        ok (record s { written = length (encode fmt k.newer); opened = now }),
        record dir { live = some (record { content = encode fmt k.newer; modified = k.at }) },
      )
  unfolding open_with
  open_with_kept now s dir log k =
      rw (open_with, read_all-Keeps fmt laws s dir log k, k.recovered, k.in_live) refl

  open_with-Keeps :
      (now : ℕ) (s : AuditSink) (dir : Dir) (log : List AuditRecord)
      → Keeps fmt s dir log
      → Keeps fmt
          (reopened (s, dir) (open_with fmt s.policy now dir)).0
          (reopened (s, dir) (open_with fmt s.policy now dir)).1
          log
  open_with-Keeps now s dir log k = rw (open_with_kept now s dir log k) (record {
    older = k.older;
    newer = k.newer;
    split = k.split;
    ascending = k.ascending;
    behind = k.behind;
    read_older = k.read_older;
    at = k.at;
    in_live = refl;
    readable = k.readable;
    written_live = refl;
    counted = k.counted;
    recovered = k.recovered;
    chained = k.chained;
    unlimited = k.unlimited;
  })

  headed :
      (s : AuditSink) (dir : Dir) (log : List AuditRecord)
      → Keeps fmt s dir log
      → s.head ≡ last_hash genesis log
  headed s dir log k = sym (ap (λ p. p.1) k.recovered) ∙ recover-head 1 genesis log

  step-Keeps :
      (s : AuditSink) (dir : Dir) (log : List AuditRecord) (c : Call)
      → Keeps fmt s dir log
      → WithoutNull c
      → Keeps fmt (step fmt (s, dir) c).0 (step fmt (s, dir) c).1 (spec_step fmt log c)
  step-Keeps s dir log (appending now node nr) k h =
      rw (sym k.counted, sym (headed s dir log k))
        (append-Keeps fmt laws now node nr s dir log k h.0 h.1)
  step-Keeps s dir log (reopening now) k h = open_with-Keeps now s dir log k

  run-Keeps :
      (s : AuditSink) (dir : Dir) (log : List AuditRecord) (calls : List Call)
      → Keeps fmt s dir log
      → All WithoutNull calls
      → Keeps fmt (run fmt (s, dir) calls).0 (run fmt (s, dir) calls).1 (spec_run fmt log calls)
  run-Keeps s dir log [] k h = k
  run-Keeps s dir log (c ∷ calls) k h =
      run-Keeps (step fmt (s, dir) c).0 (step fmt (s, dir) c).1 (spec_step fmt log c) calls
        (step-Keeps s dir log c k h.0) h.1

-- A new trail, any appends of records without a JSON null and any openings again, without faults
-- and without retention, if a record's text is one line that reads back: what is read is the
-- specification's records, they verify, and the sink goes on behind the last of them.
pub run-started :
    (fmt : Formats) (laws : Lines fmt) (policy : Policy) (now : ℕ) (calls : List Call)
    → policy.retain_days ≡ none
    → All WithoutNull calls
    → (read_all fmt (run fmt (started policy now) calls).1 ≡ ok (spec_run fmt [] calls))
      × (verify fmt (run fmt (started policy now) calls).1 ≡ ok (ok tt))
      × ((run fmt (started policy now) calls).0.next_seq ≡ suc (length (spec_run fmt [] calls)))
      × ((run fmt (started policy now) calls).0.head ≡ last_hash genesis (spec_run fmt [] calls))
unfolding verify_records verify_from recover read_segments
run-started fmt laws policy now calls h nulls =
    let k =
      run-Keeps fmt laws (started policy now).0 (started policy now).1 [] calls
        (record {
          older = [];
          newer = [];
          split = refl;
          ascending = tt;
          behind = tt;
          read_older = refl;
          at = now;
          in_live = refl;
          readable = tt;
          written_live = refl;
          counted = refl;
          recovered = refl;
          chained = refl;
          unlimited = h;
        })
        nulls in
    let read =
      read_all-Keeps fmt laws (run fmt (started policy now) calls).0
        (run fmt (started policy now) calls).1 (spec_run fmt [] calls) k in
    (read, rw read (ap ok k.chained), k.counted, headed fmt laws _ _ _ k)
