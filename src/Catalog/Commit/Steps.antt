-- ===== src/Catalog/Commit/Steps.antt =====
-- One attempt of the commit loop of crates/catalog/src/lib.rs, by how it ends.
use timelakedb.Base.{ℕ, suc, ◌+◌, ◌≡◌, ◌≢◌, ap, Bool, true, false, none, ok, err, arith}
use timelakedb.Store.{already_exists, Objects, put_if_absent}
use timelakedb.Catalog.Entry.{apply_entry, first_absent}
use timelakedb.Catalog.Manifest.{Codec}
use timelakedb.Catalog.Manifest.Paths.{manifest_path}
use timelakedb.Catalog.Commit.{
  Catalog, Update, Rivals, entry_at, stale, rivals_now, rivals_later, catch_up, land_all,
  commit_attempts,
}

pub stale-true :
    (fenced : Bool) (u : Update) (cat : Catalog)
    → stale fenced u cat ≡ true
    → (fenced ≡ true) × (first_absent cat.memory.files u.remove_paths ≢ none)
unfolding stale
stale-true fenced u cat h = ground arith

pub stale-false :
    (fenced : Bool) (u : Update) (cat : Catalog)
    → stale fenced u cat ≡ false
    → fenced ≡ true
    → first_absent cat.memory.files u.remove_paths ≡ none
unfolding stale
stale-false fenced u cat h f = ground arith

-- The catalog after a won put, and after a lost one.
abbrev pub after_win : Update → Catalog → Catalog
after_win u cat = record cat {
  seq = cat.seq + 1;
  memory = apply_entry cat.memory (entry_at (cat.seq + 1) u);
}

abbrev pub after_loss : Catalog → Catalog
after_loss cat = record cat { commit_conflicts = cat.commit_conflicts + 1 }

module _ (c : Codec) (n : ℕ) (rivals : Rivals) (u : Update) (fenced : Bool) (store : Objects c.Blob)
    (cat : Catalog) where
  abbrev pub attempt : Objects c.Blob × Bool
  attempt =
      put_if_absent (manifest_path (cat.seq + 1)) (c.to_vec (entry_at (cat.seq + 1) u))
        (land_all c (rivals_now rivals).0 store)

  won : {store' : Objects c.Blob} (b : Bool) → attempt ≡ (store', b) → attempt.1 ≡ b
  won b p = ap (λ (r : Objects c.Blob × Bool). r.1) p

  kept : {store' : Objects c.Blob} (b : Bool) → attempt ≡ (store', b) → attempt.0 ≡ store'
  kept b p = ap (λ (r : Objects c.Blob × Bool). r.0) p

  pub attempt_stale :
      stale fenced u cat ≡ true
      → commit_attempts c (suc n) rivals u fenced store cat ≡ (store, cat, err already_exists)
  unfolding commit_attempts
  attempt_stale h = rw (h, commit_attempts)

  pub attempt_won :
      (store' : Objects c.Blob)
      → stale fenced u cat ≡ false
      → attempt ≡ (store', true)
      → commit_attempts c (suc n) rivals u fenced store cat
        ≡ (store', after_win u cat, ok (cat.seq + 1))
  unfolding commit_attempts
  attempt_won store' h p = rw (h, commit_attempts) (rw (won true p) (rw (kept true p)))

  pub attempt_lost :
      (store' : Objects c.Blob) (now : Catalog)
      → stale fenced u cat ≡ false
      → attempt ≡ (store', false)
      → catch_up c (land_all c (rivals_now rivals).1 store') (after_loss cat) ≡ ok now
      → commit_attempts c (suc n) rivals u fenced store cat
        ≡ commit_attempts c n
            (rivals_later rivals)
            u
            fenced
            (land_all c (rivals_now rivals).1 store')
            now
  unfolding commit_attempts
  attempt_lost store' now h p q =
      rw (h, commit_attempts) (rw (won false p) (rw (kept false p) (rw q (rw (kept false p)))))
