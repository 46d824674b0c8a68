-- ===== src/Catalog/Commit/Progress.antt =====
-- The commit of crates/catalog/src/lib.rs, all its attempts together.
use timelakedb.Base.{
  ℕ, zero, suc, ◌+◌, ◌≤◌, ◌<◌, ◌≡◌, ◌≢◌, refl, ◌⊎◌, inl, inr, Bool, List, [], ◌∷◌, ◌++◌, arith,
  length, err, Bool-cases,
}
use mathlib.Core.List.{append-nil}
use timelakedb.Store.{resource_busy, Objects}
use timelakedb.Catalog.Entry.{ManifestEntry}
use timelakedb.Catalog.Manifest.{Codec}
use timelakedb.Catalog.Commit.{
  Catalog, Update, Rivals, stale, rivals_now, rivals_later, land_all, commit_attempts,
  commit_guarded, max_commit_attempts,
}
use timelakedb.Catalog.Commit.Log.{
  max_entries, IsManifest, IsView, IsView-append, IsCurrent, IsCurrent-IsView, landed, grow,
}
use timelakedb.Catalog.Commit.Writes.{put-fresh, land_all-landed}
use timelakedb.Catalog.Commit.Steps.{stale-true, attempt_stale, attempt_won}
use timelakedb.Catalog.Commit.Outcome.{Outcome, Outcome-later, rival_updates}
use timelakedb.Catalog.Commit.Attempt.{IsCurrent-or-behind, room, win-Outcome, lose-step}

-- The rounds in which another node lands an update, wherever they stand.
abbrev pub busy_rounds : Rivals → ℕ
busy_rounds [] = 0
busy_rounds (([], []) ∷ rest) = busy_rounds rest
busy_rounds ((x ∷ a, b) ∷ rest) = suc (busy_rounds rest)
busy_rounds (([], y ∷ b) ∷ rest) = suc (busy_rounds rest)

busy_rounds-later : (rivals : Rivals) → busy_rounds (rivals_later rivals) ≤ busy_rounds rivals
busy_rounds-later [] = omega arith
busy_rounds-later (([], []) ∷ rest) = omega arith
busy_rounds-later ((x ∷ a, b) ∷ rest) = omega arith
busy_rounds-later (([], y ∷ b) ∷ rest) = omega arith

module _ (c : Codec) (u : Update) (fenced : Bool) where
  commit_attempts-Outcome :
      (n : ℕ) (rivals : Rivals) (log : List ManifestEntry) (store : Objects c.Blob) (cat : Catalog)
      → IsManifest c store log
      → IsView cat log
      → length log + length (rival_updates rivals) + 1 < max_entries
      → Outcome c log rivals u fenced (commit_attempts c n rivals u fenced store cat)
  unfolding commit_attempts landed
  commit_attempts-Outcome zero rivals log store cat h v l = record {
    us = [];
    left = rival_updates rivals;
    rivals_split = refl;
    manifest = rw append-nil h;
    view = rw append-nil v;
    reason = inr refl;
  }
  commit_attempts-Outcome (suc n) rivals log store cat h v l =
      elim (Bool-cases (stale fenced u cat)) [
        | inl s ↦ rw (attempt_stale c n rivals u fenced store cat s) (record {
          us = [];
          left = rival_updates rivals;
          rivals_split = refl;
          manifest = rw append-nil h;
          view = rw append-nil v;
          reason = inl (refl, (stale-true fenced u cat s).0, (stale-true fenced u cat s).1);
        })
        | inr s ↦
            let (a, b) = rivals_now rivals in
            let r = room rivals log l in
            let h₁ = land_all-landed c a store log h r.0 in
            let v₁ = IsView-append (landed (length log) a) v in
            elim (IsCurrent-or-behind cat (grow log a) v₁.folded v₁.ahead v₁.split v₁.head
              v₁.memory) [
                | inl now ↦ win-Outcome c u fenced n rivals log store cat h₁ r.1 now s
                | inr behind ↦
                    let (store', now, step, h', v') =
                      lose-step c u fenced n rivals log store cat h₁ v₁ behind s r.2 in
                    rw step (
                      Outcome-later c u fenced log rivals _ (
                        commit_attempts-Outcome n (rivals_later rivals) (grow log (a ++ b)) store'
                          now h' (IsCurrent-IsView v') r.3))
              ]
      ]

  -- With a current catalog, an attempt that no rival forestalls is enough.
  quiet :
      (n : ℕ) (rivals : Rivals) (log : List ManifestEntry) (store : Objects c.Blob) (cat : Catalog)
      → (rivals_now rivals).0 ≡ []
      → IsManifest c store log
      → IsCurrent cat log
      → length log + 1 < max_entries
      → (commit_attempts c (suc n) rivals u fenced store cat).2 ≢ err resource_busy
  unfolding land_all
  quiet n [] log store cat e h v l = elim (Bool-cases (stale fenced u cat)) [
    | inl s ↦ rw (attempt_stale c n [] u fenced store cat s) (ground arith)
    | inr s ↦
        rw
          (attempt_won c n [] u fenced store cat _ s
            (put-fresh c store log cat.seq _ h v.head (omega (arith, v.head))))
          (ground arith)
  ]
  quiet n (([], b) ∷ rest) log store cat e h v l = elim (Bool-cases (stale fenced u cat)) [
    | inl s ↦ rw (attempt_stale c n (([], b) ∷ rest) u fenced store cat s) (ground arith)
    | inr s ↦
        rw
          (attempt_won c n (([], b) ∷ rest) u fenced store cat _ s
            (put-fresh c store log cat.seq _ h v.head (omega (arith, v.head))))
          (ground arith)
  ]
  quiet n ((x ∷ a, b) ∷ rest) log store cat e h v l = absurd (cc e)

  -- An attempt settles the commit, or leaves a current catalog to the next one.
  attempt-cases :
      (n : ℕ) (rivals : Rivals) (log : List ManifestEntry) (store : Objects c.Blob) (cat : Catalog)
      → IsManifest c store log
      → IsView cat log
      → length log + length (rival_updates rivals) + 1 < max_entries
      → ((commit_attempts c (suc n) rivals u fenced store cat).2 ≢ err resource_busy)
        ⊎ ((store' : Objects c.Blob) × (now : Catalog) × (commit_attempts c
                (suc n)
                rivals
                u
                fenced
                store
                cat
              ≡ commit_attempts c n (rivals_later rivals) u fenced store' now)
            × IsManifest c store' (grow log ((rivals_now rivals).0 ++ (rivals_now rivals).1))
            × IsCurrent now (grow log ((rivals_now rivals).0 ++ (rivals_now rivals).1)))
  attempt-cases n rivals log store cat h v l = elim (Bool-cases (stale fenced u cat)) [
    | inl s ↦ inl (rw (attempt_stale c n rivals u fenced store cat s) (ground arith))
    | inr s ↦
        let (a, b) = rivals_now rivals in
        let r = room rivals log l in
        let h₁ = land_all-landed c a store log h r.0 in
        let v₁ = IsView-append (landed (length log) a) v in
        elim (IsCurrent-or-behind cat (grow log a) v₁.folded v₁.ahead v₁.split v₁.head v₁.memory) [
          | inl now ↦ inl (
              rw
                (attempt_won c n rivals u fenced store cat _ s (
                  put-fresh c (land_all c a store) (grow log a) cat.seq _ h₁ now.head
                    (omega (arith, now.head, r.1))))
                (ground arith))
          | inr behind ↦ inr (lose-step c u fenced n rivals log store cat h₁ v₁ behind s r.2)
        ]
  ]

  current_suffices :
      (n : ℕ) (rivals : Rivals) (log : List ManifestEntry) (store : Objects c.Blob) (cat : Catalog)
      → IsManifest c store log
      → IsCurrent cat log
      → length log + length (rival_updates rivals) + 1 < max_entries
      → busy_rounds rivals < n
      → (commit_attempts c n rivals u fenced store cat).2 ≢ err resource_busy
  current_suffices zero rivals log store cat h v l f = absurd (omega arith)
  current_suffices (suc n) [] log store cat h v l f =
      quiet n [] log store cat refl h v (omega (arith, l))
  current_suffices (suc n) (([], []) ∷ rest) log store cat h v l f =
      quiet n (([], []) ∷ rest) log store cat refl h v (omega (arith, l))
  current_suffices (suc n) ((x ∷ a, b) ∷ rest) log store cat h v l f =
      elim (attempt-cases n ((x ∷ a, b) ∷ rest) log store cat h (IsCurrent-IsView v) l) [
        | inl settled ↦ settled
        | inr (store', now, step, h', v') ↦ rw step (
            current_suffices n rest (grow log ((x ∷ a) ++ b)) store' now h' v'
              (room ((x ∷ a, b) ∷ rest) log l).3 (omega arith))
      ]
  current_suffices (suc n) (([], y ∷ b) ∷ rest) log store cat h v l f =
      elim (attempt-cases n (([], y ∷ b) ∷ rest) log store cat h (IsCurrent-IsView v) l) [
        | inl settled ↦ settled
        | inr (store', now, step, h', v') ↦ rw step (
            current_suffices n rest (grow log (y ∷ b)) store' now h' v'
              (room (([], y ∷ b) ∷ rest) log l).3 (omega arith))
      ]

  attempts_suffice :
      (n : ℕ) (rivals : Rivals) (log : List ManifestEntry) (store : Objects c.Blob) (cat : Catalog)
      → IsManifest c store log
      → IsView cat log
      → length log + length (rival_updates rivals) + 1 < max_entries
      → busy_rounds rivals + 1 < n
      → (commit_attempts c n rivals u fenced store cat).2 ≢ err resource_busy
  attempts_suffice zero rivals log store cat h v l f = absurd (omega arith)
  attempts_suffice (suc n) rivals log store cat h v l f =
      elim (attempt-cases n rivals log store cat h v l) [
        | inl settled ↦ settled
        | inr (store', now, step, h', v') ↦ rw step (
            current_suffices n (rivals_later rivals) _ store' now h' v' (room rivals log l).3
              (omega (arith, f, busy_rounds-later rivals)))
      ]

  -- A commit on a store that holds a log, by a node that has folded a first part of it, while other
  -- nodes land updates before and after each of its puts. If it returns a number, then the log has
  -- grown by a first part of those updates and then by the committed entry at that number, each once
  -- and in order, so that nothing anyone committed is overwritten; the node has folded all of it;
  -- and if the commit is fenced, every path that it removes was still there just before it. If it
  -- returns an error, the log has grown by the others' updates alone, and the error is either a
  -- fence that found a path gone or the end of the attempts.
  pub commit_guarded-Outcome :
      (rivals : Rivals) (log : List ManifestEntry) (store : Objects c.Blob) (cat : Catalog)
      → IsManifest c store log
      → IsView cat log
      → length log + length (rival_updates rivals) + 1 < max_entries
      → Outcome c log rivals u fenced (commit_guarded c rivals u fenced store cat)
  unfolding commit_guarded
  commit_guarded-Outcome = commit_attempts-Outcome max_commit_attempts

  -- A commit on a store that holds a log, by a node that has folded a first part of it, while other
  -- nodes land updates in at most 98 of its rounds, whichever those are, and the log stays below the
  -- entries that a manifest can number: it never gives up, so that it lands or a fence refuses it.
  pub commit_guarded-ne-busy :
      (rivals : Rivals) (log : List ManifestEntry) (store : Objects c.Blob) (cat : Catalog)
      → IsManifest c store log
      → IsView cat log
      → length log + length (rival_updates rivals) + 1 < max_entries
      → busy_rounds rivals ≤ 98
      → (commit_guarded c rivals u fenced store cat).2 ≢ err resource_busy
  unfolding commit_guarded
  commit_guarded-ne-busy rivals log store cat h v l f =
      attempts_suffice max_commit_attempts rivals log store cat h v l (omega arith)
