-- ===== src/Catalog/Commit/Log.antt =====
-- The log that a store's manifest objects spell, and what it means for a catalog to be in step
-- with a part of it (crates/catalog/src/lib.rs).
use timelakedb.Base.{
  ℕ, suc, ◌+◌, ◌^◌, ◌≤◌, ◌<◌, ◌≡◌, refl, ap, sym, ◌∙◌, none, some, List, [], ◌∷◌, ◌++◌, map, arith,
  length, length-append, All,
}
use mathlib.Core.List.{append_assoc, append-nil}
use timelakedb.Base.Str.{Str}
use timelakedb.Store.{Objects, list, lookup}
use timelakedb.Catalog.Entry.{manifest_format_version, ManifestEntry, Memory, empty, apply_entry}
use timelakedb.Catalog.Manifest.{Codec}
use timelakedb.Catalog.Manifest.Paths.{manifest_dir, manifest_path}
use timelakedb.Catalog.Commit.{Catalog, Update, entry_at}

-- The entries folded in log order.
unfoldable pub replay : Memory → List ManifestEntry → Memory
replay m [] = m
replay m (e ∷ log) = replay (apply_entry m e) log

-- Numbered from `k` on, with no gap, in a format that this binary reads.
abbrev pub IsNumbered : ℕ → List ManifestEntry → Type 0
IsNumbered k [] = Unit
IsNumbered k (e ∷ log) = (e.seq ≡ k) × (e.format ≤ manifest_format_version) × IsNumbered (suc k) log

abbrev pub paths : List ManifestEntry → List Str
paths = map (λ e. manifest_path e.seq)

-- A key has at most twelve digits.
abbrev pub max_entries : ℕ
max_entries = 10 ^ 12

module _ (c : Codec) where
  abbrev pub IsStored : Objects c.Blob → ManifestEntry → Type 0
  IsStored store e = lookup (manifest_path e.seq) store ≡ some (c.to_vec e)

-- The store's manifest objects are exactly the entries of the log.
pub record IsManifest (c : Codec) (store : Objects c.Blob) (log : List ManifestEntry) : Type 1 where
  pub numbered : IsNumbered 1 log
  pub listed : list manifest_dir store ≡ paths log
  pub stored : All (λ e. lookup (manifest_path e.seq) store ≡ some (c.to_vec e)) log
  pub fresh : (n : ℕ) → length log < n → n < max_entries → lookup (manifest_path n) store ≡ none
  pub bounded : length log < max_entries

-- The catalog has folded the first `seq` entries of the log, and no other.
pub record IsView (cat : Catalog) (log : List ManifestEntry) : Type 0 where
  pub folded : List ManifestEntry
  pub ahead : List ManifestEntry
  pub split : folded ++ ahead ≡ log
  pub head : cat.seq ≡ length folded
  pub memory : cat.memory ≡ replay empty folded

-- It has folded them all.
pub record IsCurrent (cat : Catalog) (log : List ManifestEntry) : Type 0 where
  pub head : cat.seq ≡ length log
  pub memory : cat.memory ≡ replay empty log

pub IsCurrent-IsView :
    {cat : Catalog} {log : List ManifestEntry} → IsCurrent cat log → IsView cat log
IsCurrent-IsView {log = log} v = record {
  folded = log;
  ahead = [];
  split = append-nil log;
  head = v.head;
  memory = v.memory;
}

pub IsView-append :
    {cat : Catalog} {log : List ManifestEntry} (more : List ManifestEntry)
    → IsView cat log
    → IsView cat (log ++ more)
IsView-append more v = record {
  folded = v.folded;
  ahead = v.ahead ++ more;
  split = sym (append_assoc v.folded v.ahead more) ∙ ap (λ l. l ++ more) v.split;
  head = v.head;
  memory = v.memory;
}

pub replay-append :
    (m : Memory) (log more : List ManifestEntry)
    → replay m (log ++ more) ≡ replay (replay m log) more
unfolding replay
replay-append m [] more = refl
replay-append m (e ∷ log) more = replay-append (apply_entry m e) log more

pub IsNumbered-append :
    (k : ℕ) (log more : List ManifestEntry)
    → IsNumbered k log
    → IsNumbered (k + length log) more
    → IsNumbered k (log ++ more)
IsNumbered-append k [] more h r = let e : k + 0 ≡ k = omega arith in rw e at r
IsNumbered-append k (e ∷ log) more h r =
    let p : k + suc (length log) ≡ suc k + length log = omega arith in
    (h.0, h.1, IsNumbered-append (suc k) log more h.2 (rw p at r))

pub IsNumbered-ahead :
    (k : ℕ) (log more : List ManifestEntry)
    → IsNumbered k (log ++ more)
    → IsNumbered (k + length log) more
IsNumbered-ahead k [] more h = let e : k + 0 ≡ k = omega arith in rw e h
IsNumbered-ahead k (e ∷ log) more h =
    let p : k + suc (length log) ≡ suc k + length log = omega arith in
    rw p (IsNumbered-ahead (suc k) log more h.2)

pub IsNumbered-folded :
    (k : ℕ) (log more : List ManifestEntry) → IsNumbered k (log ++ more) → IsNumbered k log
IsNumbered-folded k [] more h = tt
IsNumbered-folded k (e ∷ log) more h = (h.0, h.1, IsNumbered-folded (suc k) log more h.2)

-- The entries of updates that land one after another on a log of length `k`.
unfoldable pub landed : ℕ → List Update → List ManifestEntry
landed k [] = []
landed k (u ∷ us) = entry_at (suc k) u ∷ landed (suc k) us

pub length-landed : (k : ℕ) (us : List Update) → length (landed k us) ≡ length us
unfolding landed
length-landed k [] = refl
length-landed k (u ∷ us) = ap suc (length-landed (suc k) us)

pub landed-append :
    (k : ℕ) (us vs : List Update) → landed k (us ++ vs) ≡ landed k us ++ landed (k + length us) vs
unfolding landed
landed-append k [] vs = let e : k + 0 ≡ k = omega arith in rw e refl
landed-append k (u ∷ us) vs =
    let e : k + suc (length us) ≡ suc k + length us = omega arith in
    rw e (ap (◌∷◌ (entry_at (suc k) u)) (landed-append (suc k) us vs))

-- The log after the updates land.
abbrev pub grow : List ManifestEntry → List Update → List ManifestEntry
grow log us = log ++ landed (length log) us

pub grow-grow :
    (log : List ManifestEntry) (us vs : List Update) → grow (grow log us) vs ≡ grow log (us ++ vs)
grow-grow log us vs =
    let n : length (grow log us) ≡ length log + length us =
      omega (arith, length-append log (landed (length log) us), length-landed (length log) us) in
    rw (landed-append (length log) us vs)
      (rw n (append_assoc log (landed (length log) us) (landed (length log + length us) vs)))
