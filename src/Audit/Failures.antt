-- ===== src/Audit/Failures.antt =====
-- Failed appends of crates/audit/src/lib.rs: what the sink and the log remember of them.
use timelakedb.Base.{
  ℕ, suc, ◌+◌, ◌%◌, ◌^◌, ◌<◌, ◌&&◌, ◌≡◌, ◌≢◌, ◌↔◌, refl, sym, ◌∙◌, ap, Bool, true, false, not, ◌||◌,
  List, [], ◌∷◌, ◌++◌, ok, err, Result, length, arith, if_elim, if◌then◌else◌,
}
use timelakedb.Base.Str.{Str}
use timelakedb.Audit.Record.{AuditRecord, NewRecord, Formats}
use timelakedb.Audit.Segments.{Dir, AuditError, disk_failed}
use timelakedb.Audit.Sink.{
  AuditSink, Fault, no_fault, rotation_failed, write_failed, sync_failed, append, rotate,
  should_rotate, write_record, new_record,
}
use timelakedb.Audit.Trail.{rotate-same}
use timelakedb.Audit.Log.{
  AuditLog, AuditUnavailable, unhealthy, gate, noted, shouted, record_event, record_best_effort,
}

-- What an append makes of the end of the chain: a record in the next place, or nothing.
abbrev pub Advances :
    Formats
    → ℕ
    → Str
    → NewRecord
    → AuditSink
    → Result AuditError AuditRecord × AuditSink × Dir
    → Type 0
Advances fmt now node nr s (err e, s', dir') = (s'.next_seq ≡ s.next_seq) × (s'.head ≡ s.head)
Advances fmt now node nr s (ok rec, s', dir') =
    (rec ≡ new_record fmt now node nr s.next_seq s.head)
    × (s'.next_seq ≡ suc s.next_seq)
    × (s'.head ≡ rec.hash)

write-Advances :
    (fmt : Formats) (fault : Fault) (now : ℕ) (node : Str) (nr : NewRecord) (s t : AuditSink)
    (line : Str) (dir : Dir)
    → t.next_seq ≡ s.next_seq
    → t.head ≡ s.head
    → Advances fmt now node nr s
        (write_record fault now line (new_record fmt now node nr s.next_seq s.head) t dir)
unfolding write_record
write-Advances fmt no_fault now node nr s t line dir h k = (refl, refl, refl)
write-Advances fmt rotation_failed now node nr s t line dir h k = (refl, refl, refl)
write-Advances fmt (write_failed n) now node nr s t line dir h k = (h, k)
write-Advances fmt sync_failed now node nr s t line dir h k = (h, k)

rotated-Advances :
    (fmt : Formats) (fault : Fault) (now : ℕ) (node : Str) (nr : NewRecord) (s : AuditSink)
    (line : Str) (dir : Dir)
    → Advances fmt now node nr s (elim fault [
      | rotation_failed ↦ (err disk_failed, s, dir)
      | other ↦
          write_record other now line
            (new_record fmt now node nr s.next_seq s.head)
            (rotate now s dir).0
            (rotate now s dir).1
    ])
rotated-Advances fmt no_fault now node nr s line dir =
    write-Advances fmt no_fault now node nr s (rotate now s dir).0 line (rotate now s dir).1
      (rotate-same now s dir).0 (rotate-same now s dir).1
rotated-Advances fmt rotation_failed now node nr s line dir = (refl, refl)
rotated-Advances fmt (write_failed n) now node nr s line dir =
    write-Advances fmt (write_failed n) now node nr s (rotate now s dir).0 line (rotate now s dir).1
      (rotate-same now s dir).0 (rotate-same now s dir).1
rotated-Advances fmt sync_failed now node nr s line dir =
    write-Advances fmt sync_failed now node nr s (rotate now s dir).0 line (rotate now s dir).1
      (rotate-same now s dir).0 (rotate-same now s dir).1

pub append-Advances :
    (fmt : Formats) (fault : Fault) (now : ℕ) (node : Str) (nr : NewRecord) (s : AuditSink)
    (dir : Dir)
    → Advances fmt now node nr s (append fmt fault now node nr s dir)
unfolding append
append-Advances fmt fault now node nr s dir =
    let line = fmt.to_json (new_record fmt now node nr s.next_seq s.head) ++ 10 ∷ [] in
    if_elim (Advances fmt now node nr s) (should_rotate now (length line) s)
      (λ e. rotated-Advances fmt fault now node nr s line dir)
      (λ e. write-Advances fmt fault now node nr s s line dir refl refl)

-- A call to the log: a record that is required, or one written if it can be.
pub data Attempt : Type 0 where
  required best_effort : Fault → ℕ → NewRecord → Attempt

abbrev after : Formats → AuditLog × Dir → Attempt → AuditLog × Dir
after fmt (l, dir) (required fault now nr) =
    ((record_event fmt fault now nr l dir).1, (record_event fmt fault now nr l dir).2)
after fmt (l, dir) (best_effort fault now nr) = record_best_effort fmt fault now nr l dir

abbrev pub attempts : Formats → AuditLog × Dir → List Attempt → AuditLog × Dir
attempts fmt state [] = state
attempts fmt state (a ∷ rest) = attempts fmt (after fmt state a) rest

-- How an attempt went: the call may not fail, and the append did.
abbrev Outcome : Type 0
Outcome = Bool × Bool

abbrev failed : Result AuditError AuditRecord → Bool
failed (ok rec) = false
failed (err e) = true

abbrev outcome : Formats → AuditLog × Dir → Attempt → Outcome
outcome fmt (l, dir) (required fault now nr) =
    (false, failed (append fmt fault now l.node nr l.sink dir).0)
outcome fmt (l, dir) (best_effort fault now nr) =
    (true, failed (append fmt fault now l.node nr l.sink dir).0)

abbrev pub outcomes : Formats → AuditLog × Dir → List Attempt → List Outcome
outcomes fmt state [] = []
outcomes fmt state (a ∷ rest) = outcome fmt state a ∷ outcomes fmt (after fmt state a) rest

abbrev pub written : List Outcome → ℕ
written [] = 0
written (o ∷ rest) = if o.1 then written rest else suc (written rest)

abbrev pub dropped : List Outcome → ℕ
dropped [] = 0
dropped (o ∷ rest) = if o.0 && o.1 then suc (dropped rest) else dropped rest

-- The last append failed, `before` being the one ahead of these.
abbrev pub last_failed : Bool → List Outcome → Bool
last_failed before [] = before
last_failed before (o ∷ rest) = last_failed o.1 rest

-- The log `m` that the outcomes lead to from `l`.
pub record Tally (l m : AuditLog) (outs : List Outcome) : Type 0 where
  pub advanced : m.sink.next_seq ≡ l.sink.next_seq + written outs
  pub recorded : m.records_total ≡ (l.records_total + written outs) % 2 ^ 64
  pub unrecorded : m.unrecorded_total ≡ (l.unrecorded_total + dropped outs) % 2 ^ 64
  pub health : m.healthy ≡ not (last_failed (not l.healthy) outs)
  pub policy : m.fail_open ≡ l.fail_open

abbrev pub Bounded : AuditLog → Type 0
Bounded l = (l.records_total < 2 ^ 64) × (l.unrecorded_total < 2 ^ 64)

module _ (fmt : Formats) (now : ℕ) (nr : NewRecord) (l : AuditLog) (h : Bounded l) where
  noted-Tally :
      (r : Result AuditError AuditRecord × AuditSink × Dir)
      → Advances fmt now l.node nr l.sink r
      → Tally l (noted l r).1 ((false, failed r.0) ∷ [])
  noted-Tally (ok rec, s, dir) a = record {
    advanced = omega (arith, a.1);
    recorded = refl;
    unrecorded = omega (arith, h.0, h.1);
    health = refl;
    policy = refl;
  }
  noted-Tally (err e, s, dir) a = record {
    advanced = omega (arith, a.0);
    recorded = omega (arith, h.0, h.1);
    unrecorded = omega (arith, h.0, h.1);
    health = refl;
    policy = refl;
  }

  shouted-Tally :
      (r : Result AuditError AuditRecord × AuditSink × Dir)
      → Advances fmt now l.node nr l.sink r
      → Tally l (shouted (noted l r)).0 ((true, failed r.0) ∷ [])
  shouted-Tally (ok rec, s, dir) a = record {
    advanced = omega (arith, a.1);
    recorded = refl;
    unrecorded = omega (arith, h.0, h.1);
    health = refl;
    policy = refl;
  }
  shouted-Tally (err e, s, dir) a = record {
    advanced = omega (arith, a.0);
    recorded = omega (arith, h.0, h.1);
    unrecorded = refl;
    health = refl;
    policy = refl;
  }

step-Tally :
    (fmt : Formats) (l : AuditLog) (dir : Dir) (a : Attempt)
    → Bounded l
    → Tally l (after fmt (l, dir) a).0 (outcome fmt (l, dir) a ∷ [])
unfolding record_event record_best_effort
step-Tally fmt l dir (required fault now nr) h =
    noted-Tally fmt now nr l h (append fmt fault now l.node nr l.sink dir)
      (append-Advances fmt fault now l.node nr l.sink dir)
step-Tally fmt l dir (best_effort fault now nr) h =
    shouted-Tally fmt now nr l h (append fmt fault now l.node nr l.sink dir)
      (append-Advances fmt fault now l.node nr l.sink dir)

admitted_ne : ◌≢◌ {A = Result AuditUnavailable (Unit {0})} (ok tt) (err unhealthy)
admitted_ne h = cc h

refused :
    (f o : Bool)
    → (◌≡◌ {A = Result AuditUnavailable (Unit {0})}
        (if not f || o then ok tt else err unhealthy)
        (err unhealthy))
      ↔ ((f ≡ true) × (o ≡ false))
refused true true = (λ h. absurd (admitted_ne h), λ h. ground arith)
refused true false = (λ h. (refl, refl), λ h. refl)
refused false o = (λ h. absurd (admitted_ne h), λ h. ground arith)

not-not : (b : Bool) → not (not b) ≡ b
not-not true = refl
not-not false = refl

join-Tally :
    (l m n : AuditLog) (o : Outcome) (outs : List Outcome)
    → Tally l m (o ∷ [])
    → Tally m n outs
    → Tally l n (o ∷ outs)
join-Tally l m n o outs a b = record {
  advanced = ground (arith, a.advanced, b.advanced);
  recorded = ground (arith, a.recorded, b.recorded);
  unrecorded = ground (arith, a.unrecorded, b.unrecorded);
  health = b.health ∙ ap (λ x. not (last_failed x outs)) (ap not a.health ∙ not-not o.1);
  policy = b.policy ∙ a.policy;
}

-- From counters that fit 64 bits, however many attempts fail and whichever: the chain has
-- advanced by the records written, the counters tell the records written and the ones dropped,
-- modulo 2^64, and the log is healthy exactly if the last append did not fail.
pub attempts-Tally :
    (fmt : Formats) (l : AuditLog) (dir : Dir) (tries : List Attempt)
    → Bounded l
    → Tally l (attempts fmt (l, dir) tries).0 (outcomes fmt (l, dir) tries)
attempts-Tally fmt l dir [] h = record {
  advanced = omega arith;
  recorded = omega (arith, h.0);
  unrecorded = omega (arith, h.1);
  health = sym (not-not l.healthy);
  policy = refl;
}
attempts-Tally fmt l dir (a ∷ tries) h =
    let first = step-Tally fmt l dir a h in
    let (m, dir') = after fmt (l, dir) a in
    join-Tally l m (attempts fmt (m, dir') tries).0 (outcome fmt (l, dir) a)
      (outcomes fmt (m, dir') tries) first
      (attempts-Tally fmt m dir' tries
        (omega (arith, first.recorded), omega (arith, first.unrecorded)))

-- Behind any attempts on a healthy log whose counters fit 64 bits, a mutation is refused exactly
-- if the last append failed and the log does not fail open.
pub gate-attempts :
    (fmt : Formats) (l : AuditLog) (dir : Dir) (tries : List Attempt)
    → Bounded l
    → l.healthy ≡ true
    → (gate (attempts fmt (l, dir) tries).0 ≡ err unhealthy)
      ↔ ((last_failed false (outcomes fmt (l, dir) tries) ≡ true) × (l.fail_open ≡ false))
unfolding gate
gate-attempts fmt l dir tries h healthy =
    let t = attempts-Tally fmt l dir tries h in
    let last =
      t.health ∙ ap (λ b. not (last_failed (not b) (outcomes fmt (l, dir) tries))) healthy in
    rw (last, t.policy) (refused (last_failed false (outcomes fmt (l, dir) tries)) l.fail_open)
