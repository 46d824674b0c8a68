-- ===== src/Audit/Settled.antt =====
-- What an append of crates/audit/src/lib.rs leaves in the sink and on disk, whichever step fails.
use timelakedb.Base.{ℕ, ◌≡◌, [], ◌∷◌, ◌++◌, ok, err, Result, length, ◌⊎◌, take, if◌then◌else◌}
use timelakedb.Base.Str.{Str}
use timelakedb.Audit.Record.{AuditRecord, NewRecord, Formats}
use timelakedb.Audit.Segments.{Dir, AuditError}
use timelakedb.Audit.Sink.{
  AuditSink, Fault, rotation_failed, write_failed, sync_failed, rotate, write_live, should_rotate,
  new_record,
}
use timelakedb.Audit.Failures.{Advances}

abbrev line_of : Formats → ℕ → Str → NewRecord → AuditSink → Str
line_of fmt now node nr s = fmt.to_json (new_record fmt now node nr s.next_seq s.head) ++ 10 ∷ []

-- The sink and the directory that the line goes to: a segment that is due is rotated first.
abbrev pub target : Formats → ℕ → Str → NewRecord → AuditSink → Dir → AuditSink × Dir
target fmt now node nr s dir =
    if should_rotate now (length (line_of fmt now node nr s)) s then rotate now s dir else (s, dir)

-- What an append that failed has left of its line on disk: nothing if the rotation failed, what was
-- written of it if the write failed, all of it if only the sync did.
abbrev Left : Fault → ℕ → Str → Dir → Dir → Dir → Type 0
Left fault now line dir at dir' =
    ((fault ≡ rotation_failed) × (dir' ≡ dir))
    ⊎ (((n : ℕ) × (fault ≡ write_failed n) × (dir' ≡ write_live now (take n line) at))
        ⊎ ((fault ≡ sync_failed) × (dir' ≡ write_live now line at)))

abbrev pub Settled :
    Formats
    → Fault
    → ℕ
    → Str
    → NewRecord
    → AuditSink
    → Dir
    → Dir
    → Result AuditError AuditRecord × AuditSink × Dir
    → Type 0
Settled fmt fault now node nr s dir at (err e, s', dir') =
    Advances fmt now node nr s (err e, s', dir')
    × Left fault now (line_of fmt now node nr s) dir at dir'
Settled fmt fault now node nr s dir at (ok rec, s', dir') =
    Advances fmt now node nr s (ok rec, s', dir')
    × (dir' ≡ write_live now (line_of fmt now node nr s) at)
