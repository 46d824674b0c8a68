-- ===== src/Audit/Trail.antt =====
-- What the files of a trail in crates/audit/src/lib.rs hold: the invariant of the sink and its files,
-- without faults and without retention.
use timelakedb.Base.{
  ℕ, suc, ◌+◌, ◌-◌, ◌<◌, ◌≡◌, refl, sym, ◌∙◌, ap, inl, inr, true, false, none, some, List, [], ◌∷◌,
  ◌++◌, map, ok, ◌==◌, if_elim, arith, length, length-append, any, All, All-append, Bool-cases,
  List-cases,
}
use mathlib.Core.List.{append_assoc, append-nil}
use timelakedb.Base.Str.{Str}
use timelakedb.Base.Ascending.{Ascending, Ascending-append, sort_by-Ascending}
use timelakedb.Audit.Record.{
  AuditRecord, NewRecord, Formats, Lines, IsReadable, NotNull, genesis, verify_from, compute_hash,
}
use timelakedb.Audit.Segments.{Segment, Dir, read_segments, read_all}
use timelakedb.Audit.Sink.{
  created, AuditSink, Policy, no_fault, recover, rotate, prune, should_rotate, write_record, append,
  new_record,
}
use timelakedb.Audit.Lines.{encode, encode-append, read_segment-encode, read_segments-append}
use timelakedb.Audit.Chain.{recover-append, verify_from-append}

pub record Keeps (fmt : Formats) (s : AuditSink) (dir : Dir) (log : List AuditRecord) : Type 0 where
  pub older : List AuditRecord
  pub newer : List AuditRecord
  pub split : log ≡ older ++ newer
  pub ascending : Ascending dir.rotated
  pub behind : All (λ e. e.0 + length newer < s.next_seq) dir.rotated
  pub read_older : read_segments fmt (map (λ e. e.1) dir.rotated) ≡ ok older
  pub at : ℕ
  pub in_live : dir.live ≡ some (record { content = encode fmt newer; modified = at })
  pub readable : All IsReadable newer
  pub written_live : s.written ≡ length (encode fmt newer)
  pub counted : s.next_seq ≡ suc (length log)
  pub recovered : recover (1, genesis) log ≡ (s.next_seq, s.head)
  pub chained : verify_from fmt genesis none log ≡ ok tt
  pub unlimited : s.policy.retain_days ≡ none

map-last :
    (m : List (ℕ × Segment)) (e : ℕ × Segment)
    → map (λ e. e.1) (m ++ e ∷ []) ≡ map (λ e. e.1) m ++ e.1 ∷ []
map-last [] e = refl
map-last (d ∷ m) e = ap (◌∷◌ d.1) (map-last m e)

module _ (fmt : Formats) (laws : Lines fmt) where
  pub read_all-Keeps :
      (s : AuditSink) (dir : Dir) (log : List AuditRecord)
      → Keeps fmt s dir log
      → read_all fmt dir ≡ ok log
  unfolding read_all
  read_all-Keeps s dir log k =
      rw (sort_by-Ascending dir.rotated k.ascending, k.in_live, k.split)
        (read_segments-append fmt (map (λ e. e.1) dir.rotated) _ k.older k.newer k.read_older
          (read_segment-encode fmt laws k.newer _ refl k.readable))

absent :
    (last : ℕ) (m : List (ℕ × Segment)) → All (λ e. e.0 < last) m → any (λ e. e.0 == last) m ≡ false
absent last [] h = refl
absent last (e ∷ m) h = ground (arith, absent last m h.1)

prune-unlimited : (p : Policy) (now : ℕ) (dir : Dir) → p.retain_days ≡ none → prune p now dir ≡ dir
unfolding prune
prune-unlimited p now dir h = rw h refl

-- The sink and the files behind a rotation.
abbrev rotated_sink : ℕ → AuditSink → AuditSink
rotated_sink now s = record s { written = 0; opened = now }

abbrev rotated_dir : ℕ → AuditSink → Dir → Dir
rotated_dir now s dir = record {
  rotated = dir.rotated ++ (s.next_seq - 1, created now dir.live) ∷ [];
  live = some (record { content = []; modified = now });
}

rotate-fresh :
    (now : ℕ) (s : AuditSink) (dir : Dir)
    → s.policy.retain_days ≡ none
    → any (λ e. e.0 == s.next_seq - 1) dir.rotated ≡ false
    → rotate now s dir ≡ (rotated_sink now s, rotated_dir now s dir)
unfolding rotate
rotate-fresh now s dir h k = rw (k, prune-unlimited s.policy now (rotated_dir now s dir) h) refl

pub rotate-same :
    (now : ℕ) (s : AuditSink) (dir : Dir)
    → ((rotate now s dir).0.next_seq ≡ s.next_seq) × ((rotate now s dir).0.head ≡ s.head)
unfolding rotate
rotate-same now s dir =
    if_elim (λ (p : AuditSink × Dir). (p.0.next_seq ≡ s.next_seq) × (p.0.head ≡ s.head))
      (any (λ e. e.0 == s.next_seq - 1) dir.rotated) (λ e. (refl, refl)) (λ e. (refl, refl))

below_last :
    (n l : ℕ) (m : List (ℕ × Segment)) → 0 < l → All (λ e. e.0 + l < n) m → All (λ e. e.0 < n - 1) m
below_last n l [] p h = tt
below_last n l (e ∷ m) p h = (omega arith, below_last n l m p h.1)

below_next :
    (n l : ℕ) (m : List (ℕ × Segment)) → All (λ e. e.0 + l < n) m → All (λ e. e.0 + 0 < n) m
below_next n l [] h = tt
below_next n l (e ∷ m) h = (omega arith, below_next n l m h.1)

below_more :
    (n l n' l' : ℕ) (m : List (ℕ × Segment))
    → n' ≡ suc n
    → l' ≡ l + 1
    → All (λ e. e.0 + l < n) m
    → All (λ e. e.0 + l' < n') m
below_more n l n' l' [] p q h = tt
below_more n l n' l' (e ∷ m) p q h = (omega arith, below_more n l n' l' m p q h.1)

module _ (fmt : Formats) (laws : Lines fmt) where
  rotate-Keeps :
      (now : ℕ) (s : AuditSink) (dir : Dir) (log : List AuditRecord) (k : Keeps fmt s dir log)
      → 0 < length k.newer
      → Keeps fmt (rotate now s dir).0 (rotate now s dir).1 log
  rotate-Keeps now s dir log k p =
      let below : All (λ e. e.0 < s.next_seq - 1) dir.rotated =
        below_last s.next_seq (length k.newer) dir.rotated p k.behind in
      rw (rotate-fresh now s dir k.unlimited (absent (s.next_seq - 1) dir.rotated below)) (record {
        older = log;
        newer = [];
        split = sym (append-nil log);
        ascending =
            Ascending-append dir.rotated (s.next_seq - 1) (created now dir.live) k.ascending below;
        behind =
            All-append (λ e. e.0 + 0 < s.next_seq) dir.rotated _
              (below_next s.next_seq (length k.newer) dir.rotated k.behind)
              (omega (arith, k.counted), tt);
        read_older =
            rw (map-last dir.rotated (s.next_seq - 1, created now dir.live), k.in_live, k.split)
              (read_segments-append fmt (map (λ e. e.1) dir.rotated) _ k.older k.newer k.read_older
                (read_segment-encode fmt laws k.newer _ refl k.readable));
        at = now;
        in_live = refl;
        readable = tt;
        written_live = refl;
        counted = k.counted;
        recovered = k.recovered;
        chained = k.chained;
        unlimited = k.unlimited;
      })

  write-Keeps :
      (now : ℕ) (s : AuditSink) (dir : Dir) (log : List AuditRecord) (rec : AuditRecord)
      → Keeps fmt s dir log
      → rec.input.seq ≡ s.next_seq
      → rec.input.prev_hash ≡ s.head
      → compute_hash fmt rec.input ≡ rec.hash
      → IsReadable rec
      → Keeps fmt
          (write_record no_fault now (fmt.to_json rec ++ 10 ∷ []) rec s dir).1
          (write_record no_fault now (fmt.to_json rec ++ 10 ∷ []) rec s dir).2
          (log ++ rec ∷ [])
  unfolding write_record
  write-Keeps now s dir log rec k numbered linked hashed readable = record {
    older = k.older;
    newer = k.newer ++ rec ∷ [];
    split = rw k.split (append_assoc k.older k.newer (rec ∷ []));
    ascending = k.ascending;
    behind =
        below_more s.next_seq (length k.newer) (suc rec.input.seq) (length (k.newer ++ rec ∷ []))
          dir.rotated (ap suc numbered) (length-append k.newer (rec ∷ [])) k.behind;
    read_older = k.read_older;
    at = now;
    in_live = rw (k.in_live, encode-append fmt k.newer rec) refl;
    readable = All-append IsReadable k.newer (rec ∷ []) k.readable (readable, tt);
    written_live =
        rw (k.written_live, encode-append fmt k.newer rec)
          (sym (length-append (encode fmt k.newer) (fmt.to_json rec ++ 10 ∷ [])));
    counted = omega (arith, numbered, k.counted, length-append log (rec ∷ []));
    recovered = recover-append (1, genesis) log rec;
    chained =
        verify_from-append fmt 1 genesis none log rec (inl refl) k.chained
          (k.recovered ∙ cc (numbered, linked)) hashed;
    unlimited = k.unlimited;
  }

  nonempty :
      (s : AuditSink) (dir : Dir) (log : List AuditRecord) (k : Keeps fmt s dir log) (now next : ℕ)
      → should_rotate now next s ≡ true
      → 0 < length k.newer
  unfolding should_rotate
  nonempty s dir log k now next h = elim (List-cases k.newer) [
    | inl e ↦
        let empty : s.written ≡ 0 = k.written_live ∙ ap (λ l. length (encode fmt l)) e in
        absurd (ground arith)
    | inr (r, rest, e) ↦ rw e (omega arith)
  ]

  -- An append without a fault adds its record to the trail.
  pub append-Keeps :
      (now : ℕ) (node : Str) (nr : NewRecord) (s : AuditSink) (dir : Dir) (log : List AuditRecord)
      → Keeps fmt s dir log
      → NotNull nr.before
      → NotNull nr.after
      → Keeps fmt
          (append fmt no_fault now node nr s dir).1
          (append fmt no_fault now node nr s dir).2
          (log ++ new_record fmt now node nr s.next_seq s.head ∷ [])
  unfolding append
  append-Keeps now node nr s dir log k b a =
      let rec : AuditRecord = new_record fmt now node nr s.next_seq s.head in
      elim (Bool-cases (should_rotate now (length (fmt.to_json rec ++ 10 ∷ [])) s)) [
        | inl e ↦ rw e (
            write-Keeps now (rotate now s dir).0 (rotate now s dir).1 log rec
              (rotate-Keeps now s dir log k (nonempty s dir log k now _ e))
              (sym (rotate-same now s dir).0) (sym (rotate-same now s dir).1) refl (b, a))
        | inr e ↦ rw e (write-Keeps now s dir log rec k refl refl refl (b, a))
      ]
