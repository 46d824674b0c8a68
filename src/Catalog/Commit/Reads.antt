-- ===== src/Catalog/Commit/Reads.antt =====
-- `load` and `catch_up` of crates/catalog/src/lib.rs fold the log exactly.
use timelakedb.Base.{
  ℕ, suc, ◌+◌, ◌≤◌, ◌≡◌, refl, ap, sym, ◌∙◌, List, [], ◌∷◌, ◌++◌, map, max, arith, lt→ltb, le→ltb,
  length, length-append, All, All-folded, All-ahead, Result, ok, err, ◌>>=◌,
}
use mathlib.Core.List.{map-append}
use mathlib.Core.Path.{ap₂, subst}
use timelakedb.Base.Str.{Str}
use timelakedb.Store.{Objects, get}
use timelakedb.Catalog.Entry.{manifest_format_version, ManifestEntry, Memory, empty, apply_entry}
use timelakedb.Catalog.Manifest.{Codec, read_entry}
use timelakedb.Catalog.Manifest.Paths.{manifest_path}
use timelakedb.Catalog.Commit.{
  Catalog, load_from, load, newer_entries, sort_by_seq, apply_newer, catch_up,
}
use timelakedb.Catalog.Commit.Log.{
  replay, replay-append, IsNumbered, IsNumbered-ahead, IsNumbered-folded, paths, IsStored,
  IsManifest, IsView,
}

abbrev with_seq : ManifestEntry → ℕ × ManifestEntry
with_seq e = (e.seq, e)

bind_ok {ℓ κ} : {E : Type ℓ} {A : Type κ} (m : Result E A) → (m >>= λ a. ok a) ≡ m
bind_ok (ok a) = refl
bind_ok (err e) = refl

module _ (c : Codec) (store : Objects c.Blob) where
  read_entry-stored :
      (e : ManifestEntry)
      → IsStored c store e
      → e.format ≤ manifest_format_version
      → read_entry c store (manifest_path e.seq) ≡ ok e
  unfolding read_entry get
  read_entry-stored e h f = rw h (rw (c.from_slice-to_vec e) (rw (le→ltb _ _ f)))

  load_from-paths :
      (k : ℕ) (log : List ManifestEntry) (m : Memory)
      → IsNumbered (suc k) log
      → All (IsStored c store) log
      → load_from c store (paths log) (k, m) ≡ ok (k + length log, replay m log)
  unfolding load_from replay
  load_from-paths k [] m h s = let e : k + 0 ≡ k = omega arith in rw e
  load_from-paths k (e ∷ log) m h s =
      let p : max k e.seq ≡ suc k = omega arith in
      let q : k + suc (length log) ≡ suc k + length log = omega arith in
      rw (read_entry-stored e s.0 h.1)
        (rw (p, q) (load_from-paths (suc k) log (apply_entry m e) h.2 s.1))

  newer-folded :
      (k head : ℕ) (log : List ManifestEntry) (rest : List Str)
      → IsNumbered (suc k) log
      → All (IsStored c store) log
      → k + length log ≤ head
      → newer_entries c store head (paths log ++ rest) ≡ newer_entries c store head rest
  unfolding newer_entries
  newer-folded k head [] rest h s b = refl
  newer-folded k head (e ∷ log) rest h s b = rw (read_entry-stored e s.0 h.1) (
      rw (newer-folded (suc k) head log rest h.2 s.1 (omega arith))
        (rw (le→ltb head e.seq (omega arith)) (bind_ok (newer_entries c store head rest))))

  newer-ahead :
      (k head : ℕ) (log : List ManifestEntry)
      → IsNumbered (suc k) log
      → All (IsStored c store) log
      → head ≤ k
      → newer_entries c store head (paths log) ≡ ok (map with_seq log)
  unfolding newer_entries
  newer-ahead k head [] h s b = refl
  newer-ahead k head (e ∷ log) h s b = rw (read_entry-stored e s.0 h.1) (
      rw (newer-ahead (suc k) head log h.2 s.1 (omega arith))
        (rw (lt→ltb head e.seq (omega arith))))

sort_by_seq-numbered :
    (k : ℕ) (log : List ManifestEntry)
    → IsNumbered k log
    → sort_by_seq (map with_seq log) ≡ map with_seq log
unfolding sort_by_seq
sort_by_seq-numbered k [] h = refl
sort_by_seq-numbered k (e ∷ []) h = refl
sort_by_seq-numbered k (e ∷ f ∷ log) h =
    rw (sort_by_seq-numbered (suc k) (f ∷ log) h.2) (ground arith)

apply_newer-numbered :
    (k : ℕ) (log : List ManifestEntry) (m : Memory)
    → IsNumbered (suc k) log
    → apply_newer (map with_seq log) (k, m) ≡ (k + length log, replay m log)
unfolding apply_newer replay
apply_newer-numbered k [] m h = let e : k + 0 ≡ k = omega arith in rw e
apply_newer-numbered k (e ∷ log) m h =
    let p : max k e.seq ≡ suc k = omega arith in
    let q : k + suc (length log) ≡ suc k + length log = omega arith in
    rw q (rw (p, apply_newer) (apply_newer-numbered (suc k) log (apply_entry m e) h.2))

suc_add : (n : ℕ) → suc n ≡ 1 + n
suc_add n = omega arith

module _ (c : Codec) (store : Objects c.Blob) (log : List ManifestEntry) where
  -- `load` on a store that holds a log folds every entry of it, in order, and its head is the last.
  pub load-replay :
      IsManifest c store log
      → load c store
        ≡ ok (record { seq = length log; memory = replay empty log; commit_conflicts = 0 })
  unfolding load
  load-replay h = rw h.listed (
      rw (load_from-paths c store 0 log empty h.numbered h.stored)
        (let e : 0 + length log ≡ length log = omega arith in rw e))

  -- The state of a catalog that has caught up.
  abbrev pub caught_up : Catalog → Catalog
  caught_up cat = record cat { seq = length log; memory = replay empty log }

  ahead-IsNumbered :
      (cat : Catalog)
      → IsManifest c store log
      → (v : IsView cat log) → IsNumbered (1 + length v.folded) v.ahead
  ahead-IsNumbered cat h v = IsNumbered-ahead 1 v.folded v.ahead (rw v.split h.numbered)

  newer_entries-view :
      (cat : Catalog)
      → IsManifest c store log
      → (v : IsView cat log) → newer_entries c store cat.seq (paths log) ≡ ok (map with_seq v.ahead)
  newer_entries-view cat h v =
      let stored = subst (λ l. All (IsStored c store) l) (sym v.split) h.stored in
      let numbered = subst (IsNumbered 1) (sym v.split) h.numbered in
      rw (v.head, ← v.split)
        (rw map-append (
          newer-folded c store 0 (length v.folded) v.folded (paths v.ahead)
            (IsNumbered-folded 1 v.folded v.ahead numbered)
            (All-folded (IsStored c store) v.folded v.ahead stored) (omega arith)
          ∙ newer-ahead c store (length v.folded) (length v.folded) v.ahead
              (rw (suc_add (length v.folded)) (IsNumbered-ahead 1 v.folded v.ahead numbered))
              (All-ahead (IsStored c store) v.folded v.ahead stored) (omega arith)))

  folded-all :
      (cat : Catalog)
      → IsManifest c store log
      → (v : IsView cat log)
      → apply_newer (map with_seq v.ahead) (cat.seq, cat.memory) ≡ (length log, replay empty log)
  folded-all cat h v =
      rw (v.head, v.memory)
        (apply_newer-numbered (length v.folded) v.ahead (replay empty v.folded)
            (rw (suc_add (length v.folded)) (ahead-IsNumbered cat h v))
          ∙ ap₂ (λ (n : ℕ) (m : Memory). (n, m))
              (sym (length-append v.folded v.ahead) ∙ ap length v.split)
              (sym (replay-append empty v.folded v.ahead) ∙ ap (replay empty) v.split))

  -- `catch_up` takes a catalog that has folded any first part of the log to the state that a fresh
  -- load of the store has: nothing is applied twice and nothing is skipped.
  pub catch_up-replay :
      (cat : Catalog)
      → IsManifest c store log
      → IsView cat log
      → catch_up c store cat ≡ ok (caught_up cat)
  unfolding catch_up
  catch_up-replay cat h v = rw h.listed (
      rw (newer_entries-view cat h v) (
        rw (sort_by_seq-numbered (1 + length v.folded) v.ahead (ahead-IsNumbered cat h v))
          (rw (folded-all cat h v))))
