-- ===== src/Catalog/Commit/Attempt.antt =====
-- One attempt of the commit loop of crates/catalog/src/lib.rs in terms of the shared log.
use timelakedb.Base.{
  ℕ, suc, ◌+◌, ◌<◌, ◌≡◌, ap, sym, ◌∙◌, ◌⊎◌, inl, inr, Bool, false, List, [], ◌∷◌, ◌++◌, arith,
  length, length-append,
}
use mathlib.Core.List.{append-nil}
use timelakedb.Store.{Objects}
use timelakedb.Catalog.Entry.{ManifestEntry, Memory, empty, apply_entry}
use timelakedb.Catalog.Manifest.{Codec}
use timelakedb.Catalog.Commit.{
  Catalog, Update, Rivals, entry_at, stale, rivals_now, rivals_later, land_all, commit_attempts,
}
use timelakedb.Catalog.Commit.Log.{
  replay, replay-append, max_entries, IsManifest, IsView, IsView-append, IsCurrent, landed,
  length-landed, grow, grow-grow,
}
use timelakedb.Catalog.Commit.Reads.{caught_up, catch_up-replay}
use timelakedb.Catalog.Commit.Writes.{put-taken, put-fresh, IsManifest-append, land_all-landed}
use timelakedb.Catalog.Commit.Steps.{stale-false, after_loss, attempt_won, attempt_lost}
use timelakedb.Catalog.Commit.Outcome.{Outcome, rival_updates, rivals-split}

pub IsCurrent-or-behind :
    (cat : Catalog) (log folded ahead : List ManifestEntry)
    → folded ++ ahead ≡ log
    → cat.seq ≡ length folded
    → cat.memory ≡ replay empty folded
    → IsCurrent cat log ⊎ (cat.seq < length log)
IsCurrent-or-behind cat log folded [] p h m =
    let q = sym (append-nil folded) ∙ p in
    inl (record { head = h ∙ ap length q; memory = m ∙ ap (replay empty) q })
IsCurrent-or-behind cat log folded (e ∷ ahead) p h m =
    inr (omega (arith, length-append folded (e ∷ ahead), ap length p))

length-grow :
    (log : List ManifestEntry) (us : List Update) → length (grow log us) ≡ length log + length us
length-grow log us =
    omega (arith, length-append log (landed (length log) us), length-landed (length log) us)

-- What the rounds of an attempt leave for the later ones.
pub room :
    (rivals : Rivals) (log : List ManifestEntry)
    → length log + length (rival_updates rivals) + 1 < max_entries
    → (length log + length (rivals_now rivals).0 < max_entries)
      × (length (grow log (rivals_now rivals).0) + 1 < max_entries)
      × (length (grow log (rivals_now rivals).0) + length (rivals_now rivals).1 < max_entries)
      × (length (grow log ((rivals_now rivals).0 ++ (rivals_now rivals).1))
            + length (rival_updates (rivals_later rivals))
            + 1
          < max_entries)
room rivals log h =
    let (a, b) = rivals_now rivals in
    let later = rival_updates (rivals_later rivals) in
    omega (
      arith,
      length-grow log a,
      length-grow log (a ++ b),
      length-append a b,
      length-append a (b ++ later),
      length-append b later,
      ap length (rivals-split rivals),
    )

module _ (c : Codec) (u : Update) (fenced : Bool) where
  IsView-loss :
      {cat : Catalog} {log : List ManifestEntry} → IsView cat log → IsView (after_loss cat) log
  IsView-loss v = record {
    folded = v.folded;
    ahead = v.ahead;
    split = v.split;
    head = v.head;
    memory = v.memory;
  }

  -- The put wins when the catalog is current, and its entry is folded at once.
  pub win-Outcome :
      (n : ℕ) (rivals : Rivals) (log : List ManifestEntry) (store : Objects c.Blob) (cat : Catalog)
      → IsManifest c (land_all c (rivals_now rivals).0 store) (grow log (rivals_now rivals).0)
      → length (grow log (rivals_now rivals).0) + 1 < max_entries
      → IsCurrent cat (grow log (rivals_now rivals).0)
      → stale fenced u cat ≡ false
      → Outcome c log rivals u fenced (commit_attempts c (suc n) rivals u fenced store cat)
  unfolding entry_at replay
  win-Outcome n rivals log store cat h l v s =
      let a = (rivals_now rivals).0 in
      let e = entry_at (cat.seq + 1) u in
      rw
        (attempt_won c n rivals u fenced store cat _ s (
          put-fresh c (land_all c a store) (grow log a) cat.seq (c.to_vec e) h v.head
            (omega arith)))
        (record {
          us = a;
          left = (rivals_now rivals).1 ++ rival_updates (rivals_later rivals);
          rivals_split = rivals-split rivals;
          numbered = omega arith;
          manifest =
              IsManifest-append c (land_all c a store) (grow log a) e h (omega arith) (omega arith)
                l;
          current = record {
            head = omega (arith, length-append (grow log a) (e ∷ []));
            memory = sym (
                replay-append empty (grow log a) (e ∷ [])
                ∙ ap (λ (m : Memory). apply_entry m e) (sym v.memory));
          };
          inputs = λ f. rw (← v.memory) (stale-false fenced u cat s f);
        })

  -- The put is lost when the catalog is behind. It catches up, and goes on from there.
  pub lose-step :
      (n : ℕ) (rivals : Rivals) (log : List ManifestEntry) (store : Objects c.Blob) (cat : Catalog)
      → let (a, b) = rivals_now rivals in
        IsManifest c (land_all c a store) (grow log a)
        → IsView cat (grow log a)
        → cat.seq < length (grow log a)
        → stale fenced u cat ≡ false
        → length (grow log a) + length b < max_entries
        → (store' : Objects c.Blob) × (now : Catalog) × (commit_attempts c
              (suc n)
              rivals
              u
              fenced
              store
              cat
            ≡ commit_attempts c n (rivals_later rivals) u fenced store' now)
          × IsManifest c store' (grow log (a ++ b))
          × IsCurrent now (grow log (a ++ b))
  lose-step n rivals log store cat h v behind s l =
      let (a, b) = rivals_now rivals in
      let e = grow-grow log a b in
      let mine = land_all c a store in
      let theirs = land_all c b mine in
      let h₁ = land_all-landed c b mine (grow log a) h l in
      let v₁ = IsView-loss (IsView-append (landed (length (grow log a)) b) v) in
      let log₁ = grow (grow log a) b in
      (
        theirs,
        caught_up c theirs log₁ (after_loss cat),
        attempt_lost c n rivals u fenced store cat mine _ s
            (put-taken c mine (grow log a) cat.seq _ h behind)
            (catch_up-replay c theirs log₁ (after_loss cat) h₁ v₁),
        (rw e at h₁),
        record { head = ap length e; memory = ap (replay empty) e },
      )
