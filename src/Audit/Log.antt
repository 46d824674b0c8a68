-- ===== src/Audit/Log.antt =====
-- `AuditLog` of crates/audit/src/lib.rs: the sink with its health, shared by the admin handlers. The lock
-- makes each call one step.
use timelakedb.Base.{ℕ, ◌+◌, ◌%◌, ◌^◌, Bool, true, false, ◌||◌, if◌then◌else◌, Result, ok, err}
use timelakedb.Base.Str.{Str}
use timelakedb.Audit.Record.{NewRecord, AuditRecord, Formats}
use timelakedb.Audit.Segments.{Dir, AuditError}
use timelakedb.Audit.Sink.{Policy, AuditSink, Fault, open_with, append, count}

pub data AuditUnavailable : Type 0 where
  unhealthy : AuditUnavailable
  append_failed : AuditError → AuditUnavailable

pub record AuditLog : Type 0 where
  pub node : Str
  pub fail_open : Bool
  pub healthy : Bool
  pub records_total : ℕ
  pub unrecorded_total : ℕ
  pub sink : AuditSink

unfoldable pub open_log : Formats → Str → Bool → Policy → ℕ → Dir → Result AuditError AuditLog × Dir
open_log fmt node fail_open policy now dir =
    let (opened, dir') = open_with fmt policy now dir in
    elim opened [
      | err e ↦ (err e, dir')
      | ok sink ↦ (
        ok (record {
          node = node;
          fail_open = fail_open;
          healthy = true;
          records_total = count sink;
          unrecorded_total = 0;
          sink = sink;
        }),
        dir',
      )
    ]

unfoldable pub gate : AuditLog → Result AuditUnavailable (Unit {0})
gate l = if l.healthy || l.fail_open then ok tt else err unhealthy

-- The log after an append.
abbrev pub noted :
    AuditLog
    → Result AuditError AuditRecord × AuditSink × Dir
    → Result AuditUnavailable AuditRecord × AuditLog × Dir
noted l (ok rec, sink, dir) = (
  ok rec,
  record l { sink = sink; records_total = (l.records_total + 1) % 2 ^ 64; healthy = true },
  dir,
)
noted l (err e, sink, dir) = (err (append_failed e), record l { sink = sink; healthy = false }, dir)

-- `AuditLog::record`
unfoldable pub record_event :
    Formats
    → Fault
    → ℕ
    → NewRecord
    → AuditLog
    → Dir
    → Result AuditUnavailable AuditRecord × AuditLog × Dir
record_event fmt fault now nr l dir = noted l (append fmt fault now l.node nr l.sink dir)

-- A failure is counted.
abbrev pub shouted : Result AuditUnavailable AuditRecord × AuditLog × Dir → AuditLog × Dir
shouted (ok rec, l, dir) = (l, dir)
shouted (err e, l, dir) = (record l { unrecorded_total = (l.unrecorded_total + 1) % 2 ^ 64 }, dir)

unfoldable pub record_best_effort :
    Formats → Fault → ℕ → NewRecord → AuditLog → Dir → AuditLog × Dir
record_best_effort fmt fault now nr l dir = shouted (record_event fmt fault now nr l dir)
