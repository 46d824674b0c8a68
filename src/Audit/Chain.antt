-- ===== src/Audit/Chain.antt =====
-- `verify_records` and the recovery of a trail's end in crates/audit/src/lib.rs, as a record is added.
use timelakedb.Base.{
  ℕ, suc, ◌≡◌, refl, sym, ◌∙◌, ap, subst, ◌≢◌, ◌⊎◌, inl, inr, Option, none, some, List, [], ◌∷◌,
  ◌++◌, ok, err, Result, arith,
}
use timelakedb.Base.Str.{Str, str_eq_iff}
use timelakedb.Audit.Record.{
  AuditRecord, AuditBreak, Formats, check_link, off_sequence, verify_from, compute_hash,
}
use timelakedb.Audit.Sink.{recover}

-- The hash that the record behind these has to carry.
abbrev pub last_hash : Str → List AuditRecord → Str
last_hash prev [] = prev
last_hash prev (r ∷ records) = last_hash r.hash records

pub recover-head :
    (n : ℕ) (prev : Str) (records : List AuditRecord)
    → (recover (n, prev) records).1 ≡ last_hash prev records
unfolding recover
recover-head n prev [] = refl
recover-head n prev (r ∷ records) = recover-head (suc r.input.seq) r.hash records

pub recover-append :
    (s : ℕ × Str) (records : List AuditRecord) (r : AuditRecord)
    → recover s (records ++ r ∷ []) ≡ (suc r.input.seq, r.hash)
unfolding recover
recover-append s [] r = refl
recover-append s (q ∷ records) r = recover-append (suc q.input.seq, q.hash) records r

pub result_cases :
    (m : Result AuditBreak (Unit {0})) → ((b : AuditBreak) × (m ≡ err b)) ⊎ (m ≡ ok tt)
result_cases (ok tt) = inr refl
result_cases (err b) = inl (b, refl)

pub err_not_ok : (b : AuditBreak) → ◌≢◌ {A = Result AuditBreak (Unit {0})} (err b) (ok tt)
err_not_ok b h = cc h

-- The number wanted of the next record, if one is.
abbrev Wants : Option ℕ → ℕ → Type 0
Wants want n = (want ≡ none) ⊎ (want ≡ some n)

off_sequence-Wants : (want : Option ℕ) (n : ℕ) → Wants want n → off_sequence want n ≡ none
unfolding off_sequence
off_sequence-Wants want n (inl e) = rw e refl
off_sequence-Wants want n (inr e) = rw e (ground arith)

check_link-linked :
    (fmt : Formats) (prev : Str) (want : Option ℕ) (r : AuditRecord)
    → Wants want r.input.seq
    → r.input.prev_hash ≡ prev
    → compute_hash fmt r.input ≡ r.hash
    → check_link fmt prev want r ≡ ok tt
unfolding check_link
check_link-linked fmt prev want r w h k =
    rw
      (
        check_link,
        off_sequence-Wants want r.input.seq w,
        (str_eq_iff r.input.prev_hash prev).1 h,
        (str_eq_iff (compute_hash fmt r.input) r.hash).1 k,
      )
      refl

pub verify_from_cons :
    (fmt : Formats) (prev : Str) (want : Option ℕ) (r : AuditRecord) (records : List AuditRecord)
    → check_link fmt prev want r ≡ ok tt
    → verify_from fmt prev want (r ∷ records)
      ≡ verify_from fmt r.hash (some (suc r.input.seq)) records
unfolding verify_from
verify_from_cons fmt prev want r records h = rw (verify_from, h) refl

pub verify_from_broken :
    (fmt : Formats) (prev : Str) (want : Option ℕ) (r : AuditRecord) (records : List AuditRecord)
    (b : AuditBreak)
    → check_link fmt prev want r ≡ err b
    → verify_from fmt prev want (r ∷ records) ≡ err b
unfolding verify_from
verify_from_broken fmt prev want r records b h = rw (verify_from, h) refl

-- A chain goes on with a record of the next number, behind the last hash.
pub verify_from-append :
    (fmt : Formats) (n : ℕ) (prev : Str) (want : Option ℕ) (records : List AuditRecord)
    (r : AuditRecord)
    → Wants want n
    → verify_from fmt prev want records ≡ ok tt
    → recover (n, prev) records ≡ (r.input.seq, r.input.prev_hash)
    → compute_hash fmt r.input ≡ r.hash
    → verify_from fmt prev want (records ++ r ∷ []) ≡ ok tt
unfolding verify_from recover
verify_from-append fmt n prev want [] r w v e h =
    let here : n ≡ r.input.seq = ap (λ p. p.0) e in
    rw
      (
        verify_from,
        check_link-linked fmt prev want r (subst (Wants want) here w) (sym (ap (λ p. p.1) e)) h,
      )
      refl
verify_from-append fmt n prev want (q ∷ records) r w v e h =
    elim (result_cases (check_link fmt prev want q)) [
      | inl (b, c) ↦
          absurd (err_not_ok b (sym (verify_from_broken fmt prev want q records b c) ∙ v))
      | inr c ↦
          verify_from_cons fmt prev want q (records ++ r ∷ []) c
          ∙ verify_from-append fmt (suc q.input.seq) q.hash (some (suc q.input.seq)) records r
              (inr refl) (sym (verify_from_cons fmt prev want q records c) ∙ v) e h
    ]
