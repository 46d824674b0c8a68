-- ===== src/Audit/Sink.antt =====
-- `AuditSink` of crates/audit/src/lib.rs. The time of a call is an argument. A step on the disk fails
-- where the argument `Fault` says so; a rotation fails before it renames the segment or not at all.
use timelakedb.Base.{
  ℕ, suc, ◌+◌, ◌-◌, ◌*◌, ◌%◌, ◌^◌, Bool, true, false, not, Option, none, some, List, [], ◌∷◌, ◌++◌,
  ltb, leb, ◌==◌, max, if◌then◌else◌, Result, ok, err, ◌>>=◌, length, retain, any, take,
}
use mathlib.Core.Option
use timelakedb.Base.Str.{Str}
use timelakedb.Audit.Record.{
  NewRecord, HashInput, AuditRecord, AuditBreak, Formats, genesis, compute_hash, verify_records,
}
use timelakedb.Audit.Date.{rfc3339_utc}
use timelakedb.Audit.Segments.{Segment, Dir, AuditError, disk_failed, read_all}

-- Times are nanoseconds.
pub record Policy : Type 0 where
  pub rotate_bytes : Option ℕ
  pub rotate_after : Option ℕ
  pub retain_days : Option ℕ

abbrev pub min_retention_days : ℕ
min_retention_days = 90

abbrev pub default_policy : Policy
default_policy = record {
  rotate_bytes = some (64 * 1024 * 1024);
  rotate_after = none;
  retain_days = none;
}

abbrev pub effective_retain_days : Policy → Option ℕ
effective_retain_days p = Option.map (λ d. max d min_retention_days) p.retain_days

pub record AuditSink : Type 0 where
  pub next_seq : ℕ
  pub head : Str
  pub policy : Policy
  pub written : ℕ
  pub opened : ℕ

pub data Fault : Type 0 where
  no_fault rotation_failed : Fault
  write_failed : ℕ → Fault
  sync_failed : Fault

-- The number behind the last record and its hash.
unfoldable pub recover : ℕ × Str → List AuditRecord → ℕ × Str
recover s [] = s
recover s (rec ∷ records) = recover (suc rec.input.seq, rec.hash) records

abbrev pub created : ℕ → Option Segment → Segment
created now none = record { content = []; modified = now }
created now (some seg) = seg

unfoldable pub open_with : Formats → Policy → ℕ → Dir → Result AuditError AuditSink × Dir
open_with fmt policy now dir = elim (read_all fmt dir) [
  | err e ↦ (err e, dir)
  | ok records ↦
      let live = created now dir.live in
      let last = recover (1, genesis) records in
      (
        ok (record {
          next_seq = last.0;
          head = last.1;
          policy = policy;
          written = length live.content;
          opened = now;
        }),
        record dir { live = some live },
      )
]

abbrev pub past : Option ℕ → ℕ → Bool
past none n = false
past (some limit) n = ltb limit n

abbrev pub reached : Option ℕ → ℕ → Bool
reached none n = false
reached (some limit) n = leb limit n

unfoldable pub should_rotate : ℕ → ℕ → AuditSink → Bool
should_rotate now next s =
    if s.written == 0
    then false
    else if past s.policy.rotate_bytes (s.written + next)
    then true
    else reached s.policy.rotate_after (now - s.opened)

-- A segment whose last write is more than this many days ago.
abbrev pub outlived : ℕ → ℕ → Segment → Bool
outlived now days seg = ltb (seg.modified + days * 86400 % 2 ^ 64 * 1000000000) now

unfoldable pub prune : Policy → ℕ → Dir → Dir
prune policy now dir = elim (effective_retain_days policy) [
  | none ↦ dir
  | some days ↦ record dir { rotated = retain (λ e. not (outlived now days e.1)) dir.rotated }
]

-- The live segment under the number of its last record, and a new one.
unfoldable pub rotate : ℕ → AuditSink → Dir → AuditSink × Dir
rotate now s dir =
    let last = s.next_seq - 1 in
    if any (λ e. e.0 == last) dir.rotated then (s, dir) else (
      record s { written = 0; opened = now },
      prune s.policy now (record {
        rotated = dir.rotated ++ (last, created now dir.live) ∷ [];
        live = some (record { content = []; modified = now });
      }),
    )

-- Bytes at the end of the live segment.
abbrev pub write_live : ℕ → Str → Dir → Dir
write_live now bytes dir = record dir {
  live = some (record { content = (created now dir.live).content ++ bytes; modified = now });
}

abbrev pub new_input : ℕ → Str → NewRecord → ℕ → Str → HashInput
new_input now node nr seq head = record {
  seq = seq;
  ts = rfc3339_utc now;
  node = node;
  principal = nr.principal;
  role = nr.role;
  session = nr.session;
  source = nr.source;
  request_id = nr.request_id;
  action = nr.action;
  target = nr.target;
  before = nr.before;
  after = nr.after;
  outcome = nr.outcome;
  prev_hash = head;
}

-- The record numbered `seq` behind the hash `head`.
abbrev pub new_record : Formats → ℕ → Str → NewRecord → ℕ → Str → AuditRecord
new_record fmt now node nr seq head =
    let input = new_input now node nr seq head in
    record { input = input; hash = compute_hash fmt input }

-- The line written, and what a failure leaves of it.
unfoldable pub write_record :
    Fault
    → ℕ
    → Str
    → AuditRecord
    → AuditSink
    → Dir
    → Result AuditError AuditRecord × AuditSink × Dir
write_record (write_failed n) now line rec s dir =
    (err disk_failed, s, write_live now (take n line) dir)
write_record sync_failed now line rec s dir = (err disk_failed, s, write_live now line dir)
write_record fault now line rec s dir = (
  ok rec,
  record s { written = s.written + length line; next_seq = suc rec.input.seq; head = rec.hash },
  write_live now line dir,
)

unfoldable pub append :
    Formats
    → Fault
    → ℕ
    → Str
    → NewRecord
    → AuditSink
    → Dir
    → Result AuditError AuditRecord × AuditSink × Dir
append fmt fault now node nr s dir =
    let rec = new_record fmt now node nr s.next_seq s.head in
    let line = fmt.to_json rec ++ 10 ∷ [] in
    let (s', dir') = rotate now s dir in
    if should_rotate now (length line) s
    then elim fault [
      | rotation_failed ↦ (err disk_failed, s, dir)
      | other ↦ write_record other now line rec s' dir'
    ]
    else write_record fault now line rec s dir

abbrev pub count : AuditSink → ℕ
count s = s.next_seq - 1

abbrev pub verify : Formats → Dir → Result AuditError (Result AuditBreak (Unit {0}))
verify fmt dir = read_all fmt dir >>= λ records. ok (verify_records fmt records)
