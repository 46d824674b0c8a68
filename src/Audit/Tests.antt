-- ===== src/Audit/Tests.antt =====
-- The theorems on the audit trail at concrete records.
mod Codec
use timelakedb.Base.{
  ℕ, ◌*◌, ◌<◌, ◌^◌, ◌≡◌, ◌≢◌, ◌≤◌, ◌⊎◌, ◌↔◌, inl, inr, refl, sym, ap, ◌∙◌, Bool, true, false,
  Option, none, some, List, [], ◌∷◌, ◌++◌, ok, err, arith, length, Has, here, there, Result,
}
use mathlib.Core.List.{append-nil}
use timelakedb.Base.Str.{Str, str, str_eq}
use timelakedb.Visibility.Blank.{is_blank, blank_from, next_byte, bad, start}
use timelakedb.Audit.Record.{
  AuditRecord, HashInput, NewRecord, Formats, Lines, IsReadable, NotNull, genesis, compute_hash,
  verify_records, verify_from, check_link, off_sequence, hex,
}
use timelakedb.Audit.Segments.{Segment, Dir, read_all}
use timelakedb.Audit.Sink.{
  AuditSink, Policy, default_policy, Fault, no_fault, write_failed, sync_failed, rotation_failed,
  prune, verify,
}
use timelakedb.Audit.Log.{AuditLog, gate, unhealthy}
use timelakedb.Audit.Date.{civil_from_days, rfc3339_utc}
use timelakedb.Audit.Calendar.{days_from_civil, IsDate, civil_from_days-days}
use timelakedb.Audit.Chain.{last_hash}
use timelakedb.Audit.Recovery.{Call, appending, reopening, started, run, spec_run, run-started}
use timelakedb.Audit.Tamper.{SelfDelimiting, Collision, verify_records-same_head}
use timelakedb.Audit.Pruning.{prune-recent}
use timelakedb.Audit.Failures.{
  Attempt, required, best_effort, attempts, outcomes, last_failed, Tally, attempts-Tally,
  gate-attempts,
}
use timelakedb.Audit.Settled.{Settled, target}
use timelakedb.Audit.Tests.Codec.{input, entry}

abbrev read_record : Str → Option AuditRecord
read_record [] = none
read_record (b ∷ s) = some (entry.get s).0

abbrev formats : Formats
formats = record {
  input_json = input.put;
  to_json = λ r. 123 ∷ entry.put r;
  from_json = read_record;
  sha256 = λ s. s;
}

bad_stays : (s : Str) → blank_from bad s ≡ false
unfolding blank_from next_byte
bad_stays [] = refl
bad_stays (b ∷ s) = bad_stays s

begun : (s : Str) → is_blank (123 ∷ s) ≡ false
unfolding is_blank blank_from next_byte
begun s = bad_stays s

formats-Lines : Lines formats
formats-Lines = record {
  one_line = λ r. entry.plain r;
  not_blank = λ r. begun (entry.put r);
  read_back = λ r h.
      ap (λ (p : AuditRecord × Str). some p.0)
        (ap entry.get (sym (append-nil (entry.put r))) ∙ entry.get-put r []);
}

formats-SelfDelimiting : SelfDelimiting formats
formats-SelfDelimiting a b s t h k e =
    ap (λ (p : HashInput × Str). p.0) (sym (input.get-put a s) ∙ ap input.get e ∙ input.get-put b t)

abbrev change : NewRecord
change = record {
  principal = str "ops";
  role = str "admin";
  session = none;
  source = some (str "10.0.0.1");
  request_id = none;
  action = str "token.issue";
  target = some (str "t");
  before = none;
  after = some (str "1");
  outcome = str "ok";
}

-- A rotation before each record but the first.
abbrev small : Policy
small = record { rotate_bytes = some 10; rotate_after = none; retain_days = none }

abbrev calls : List Call
calls =
    appending 5 (str "n") change
    ∷ appending 6 (str "n") change
    ∷ reopening 7
    ∷ appending 8 (str "n") change
    ∷ []

none-NotNull : NotNull none
none-NotNull h = cc h

one-NotNull : NotNull (some (str "1"))
one-NotNull h = cc h

run-started_example :
    (read_all formats (run formats (started small 1) calls).1 ≡ ok (spec_run formats [] calls))
    × (verify formats (run formats (started small 1) calls).1 ≡ ok (ok tt))
    × ((run formats (started small 1) calls).0.next_seq ≡ 4)
    × ((run formats (started small 1) calls).0.head ≡ last_hash genesis (spec_run formats [] calls))
run-started_example = run-started formats formats-Lines small 1 calls refl (
  (none-NotNull, one-NotNull),
  ((none-NotNull, one-NotNull), (tt, ((none-NotNull, one-NotNull), tt))),
)

-- A digest that is the same for all, under which a record can be put in another's place.
abbrev weak : Formats
weak = record {
  input_json = input.put;
  to_json = λ r. 123 ∷ entry.put r;
  from_json = read_record;
  sha256 = λ s. [];
}

abbrev signed_by : Str → AuditRecord
signed_by principal = record {
  input = record {
    seq = 1;
    ts = str "now";
    node = str "n";
    principal = principal;
    role = str "admin";
    session = none;
    source = none;
    request_id = none;
    action = str "token.issue";
    target = none;
    before = none;
    after = none;
    outcome = str "ok";
    prev_hash = genesis;
  };
  hash = str "sha256:";
}

signed_verifies : (principal : Str) → verify_records weak (signed_by principal ∷ []) ≡ ok tt
unfolding verify_records verify_from check_link off_sequence compute_hash hex str_eq
signed_verifies principal = refl

verify_records-same_head_example :
    (◌≡◌ {A = List AuditRecord} (signed_by (str "a") ∷ []) (signed_by (str "b") ∷ []))
    ⊎ Collision weak
verify_records-same_head_example =
    verify_records-same_head weak (signed_by (str "a") ∷ []) (signed_by (str "b") ∷ [])
      formats-SelfDelimiting ((none-NotNull, none-NotNull), tt) ((none-NotNull, none-NotNull), tt)
      (signed_verifies (str "a")) (signed_verifies (str "b")) refl

abbrev sink : AuditSink
sink = (started default_policy 1).0

abbrev dir : Dir
dir = (started default_policy 1).1

abbrev log : AuditLog
log = record {
  node = str "n";
  fail_open = false;
  healthy = true;
  records_total = 0;
  unrecorded_total = 0;
  sink = sink;
}

abbrev tries : List Attempt
tries =
    required no_fault 5 change
    ∷ required sync_failed 6 change
    ∷ best_effort (write_failed 3) 7 change
    ∷ []

attempts-Tally_example :
    Tally log (attempts formats (log, dir) tries).0 (outcomes formats (log, dir) tries)
attempts-Tally_example = attempts-Tally formats log dir tries (omega arith, omega arith)

gate-attempts_example :
    (gate (attempts formats (log, dir) tries).0 ≡ err unhealthy)
    ↔ ((last_failed false (outcomes formats (log, dir) tries) ≡ true) × (log.fail_open ≡ false))
gate-attempts_example = gate-attempts formats log dir tries (omega arith, omega arith) refl

-- One day is configured, the segment is 89 days old.
abbrev rotated : ℕ × Segment
rotated = (4, record { content = []; modified = 1000000000 * 86400 })

abbrev pruned : Dir
pruned = record { rotated = rotated ∷ []; live = none }

abbrev one_day : Policy
one_day = record { rotate_bytes = none; rotate_after = none; retain_days = some 1 }

one_day-seconds : (d : ℕ) → one_day.retain_days ≡ some d → d * 86400 < 2 ^ 64
one_day-seconds d h = let e : 1 ≡ d = cc h in omega (arith, e)

prune-recent_example :
    Has (prune one_day (1000000000 * 86400 * 90) pruned).rotated rotated
    × ((prune one_day (1000000000 * 86400 * 90) pruned).live ≡ none)
prune-recent_example =
    prune-recent one_day (1000000000 * 86400 * 90) pruned rotated one_day-seconds (here refl)
      (omega arith)

civil_from_days-days_example :
    (days_from_civil (civil_from_days 20782) ≡ 20782) × IsDate (civil_from_days 20782)
civil_from_days-days_example = civil_from_days-days 20782

civil : civil_from_days 20782 ≡ (2026, 11, 25)
unfolding civil_from_days
civil = refl
