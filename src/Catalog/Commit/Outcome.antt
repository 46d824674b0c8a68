-- ===== src/Catalog/Commit/Outcome.antt =====
-- What a commit of crates/catalog/src/lib.rs does to the shared log, whatever other nodes commit
-- while it runs.
use timelakedb.Base.{
  ℕ, ◌+◌, ◌≡◌, ◌≢◌, refl, ◌⊎◌, Bool, true, none, List, [], ◌∷◌, ◌++◌, length, Result, ok, err,
}
use mathlib.Core.List.{append_assoc}
use timelakedb.Store.{IoError, already_exists, resource_busy, Objects}
use timelakedb.Catalog.Entry.{ManifestEntry, empty, first_absent}
use timelakedb.Catalog.Manifest.{Codec}
use timelakedb.Catalog.Commit.{Catalog, Update, Rivals, entry_at, rivals_now, rivals_later}
use timelakedb.Catalog.Commit.Log.{replay, IsManifest, IsView, IsCurrent, grow, grow-grow}

-- All that the other nodes may land, in order.
abbrev pub rival_updates : Rivals → List Update
rival_updates [] = []
rival_updates ((a, b) ∷ rest) = a ++ (b ++ rival_updates rest)

-- The commit landed at `n`: behind the log it started from and the updates `us` that others landed
-- first, with nothing lost, and its catalog has folded all of that. A fenced commit's inputs were
-- all there just before it.
pub record Committed (c : Codec) (log : List ManifestEntry) (rivals : Rivals) (u : Update)
    (fenced : Bool) (store : Objects c.Blob) (cat : Catalog) (n : ℕ) : Type 1 where
  pub us : List Update
  pub left : List Update
  pub rivals_split : us ++ left ≡ rival_updates rivals
  pub numbered : n ≡ length (grow log us) + 1
  pub manifest : IsManifest c store (grow log us ++ entry_at n u ∷ [])
  pub current : IsCurrent cat (grow log us ++ entry_at n u ∷ [])
  pub inputs : fenced ≡ true → first_absent (replay empty (grow log us)).files u.remove_paths ≡ none

-- The commit failed: nothing of it is in the log. It was fenced and an input was gone, or it lost
-- every attempt.
pub record Refused (c : Codec) (log : List ManifestEntry) (rivals : Rivals) (u : Update)
    (fenced : Bool) (store : Objects c.Blob) (cat : Catalog) (e : IoError) : Type 1 where
  pub us : List Update
  pub left : List Update
  pub rivals_split : us ++ left ≡ rival_updates rivals
  pub manifest : IsManifest c store (grow log us)
  pub view : IsView cat (grow log us)
  pub reason :
      (e ≡ already_exists) × (fenced ≡ true) × (first_absent cat.memory.files u.remove_paths ≢ none)
      ⊎ (e ≡ resource_busy)

abbrev pub Outcome :
    (c : Codec)
    → List ManifestEntry
    → Rivals
    → Update
    → Bool
    → Objects c.Blob × Catalog × Result IoError ℕ
    → Type 1
Outcome c log rivals u fenced (store, cat, ok n) = Committed c log rivals u fenced store cat n
Outcome c log rivals u fenced (store, cat, err e) = Refused c log rivals u fenced store cat e

pub rivals-split :
    (rivals : Rivals)
    → (rivals_now rivals).0 ++ ((rivals_now rivals).1 ++ rival_updates (rivals_later rivals))
      ≡ rival_updates rivals
rivals-split [] = refl
rivals-split ((a, b) ∷ rest) = refl

split-later :
    (rivals : Rivals) (us left : List Update)
    → us ++ left ≡ rival_updates (rivals_later rivals)
    → ((rivals_now rivals).0 ++ (rivals_now rivals).1 ++ us) ++ left ≡ rival_updates rivals
split-later [] us left h = h
split-later ((a, b) ∷ rest) us left h = simp append_assoc (rw h)

module _ (c : Codec) (u : Update) (fenced : Bool) where
  -- One round of rivals before and one after a lost put, in front of an outcome.
  pub Outcome-later :
      (log : List ManifestEntry) (rivals : Rivals) (r : Objects c.Blob × Catalog × Result IoError ℕ)
      → Outcome c
          (grow log ((rivals_now rivals).0 ++ (rivals_now rivals).1))
          (rivals_later rivals)
          u
          fenced
          r
      → Outcome c log rivals u fenced r
  Outcome-later log rivals (store, cat, ok n) o =
      let a = (rivals_now rivals).0 in
      let b = (rivals_now rivals).1 in
      let e = grow-grow log (a ++ b) o.us in
      record {
        us = a ++ b ++ o.us;
        left = o.left;
        rivals_split = split-later rivals o.us o.left o.rivals_split;
        numbered = rw e at o.numbered;
        manifest = rw e at o.manifest;
        current = rw e at o.current;
        inputs = rw e at o.inputs;
      }
  Outcome-later log rivals (store, cat, err x) o =
      let a = (rivals_now rivals).0 in
      let b = (rivals_now rivals).1 in
      let e = grow-grow log (a ++ b) o.us in
      record {
        us = a ++ b ++ o.us;
        left = o.left;
        rivals_split = split-later rivals o.us o.left o.rivals_split;
        manifest = rw e at o.manifest;
        view = rw e at o.view;
        reason = o.reason;
      }
