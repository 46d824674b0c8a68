-- ===== src/Catalog/Fold.antt =====
-- What one manifest entry does to the state that is folded from the log
-- (crates/catalog/src/lib.rs, `apply_entry`), table by table.
use timelakedb.Base.{
  ◌≡◌, refl, ap, sym, ◌∙◌, Bool, true, false, not, ◌&&◌, none, List, [], ◌∷◌, ◌++◌, arith,
  if◌then◌else◌, any, any-append, any-retain, retain, Bool-cases, inl, inr, Option-cases,
}
use mathlib.Core.List.{append_assoc, append-nil}
use timelakedb.Base.Str.{Str, str_eq, str_eq_iff}
use timelakedb.Base.Dict
use timelakedb.Base.Dict.{
  Dict, pair_key, pair_eq, get-update, get-remove, get-insert, get-map_values,
}
use timelakedb.Catalog.Entry.{
  FileMeta, Tombstone, DroppedTable, ManifestEntry, Files, Memory, contains, remove_all, add_file,
  add_all, note_all, drop_all, apply_entry,
}
use timelakedb.Catalog.Queries.{or_default, files_for, tombstones_for, declared_schema}

-- The files of a table.
abbrev at : Str × Str → Files → List FileMeta
at k files = or_default (Dict.get k files)

abbrev pub kept_by : List Str → List FileMeta → List FileMeta
kept_by paths = retain (λ f. not (contains paths f.path))

abbrev pub of_table : Str × Str → List FileMeta → List FileMeta
of_table k = retain (λ f. pair_eq (f.db, f.table) k)

abbrev pub drops : Str × Str → List DroppedTable → Bool
drops k = any (λ d. pair_eq (d.db, d.table) k)

retain-true {ℓ} : {A : Type ℓ} (xs : List A) → retain (λ x. true) xs ≡ xs
retain-true [] = refl
retain-true (x ∷ xs) = ap (◌∷◌ x) (retain-true xs)

at-add_file :
    (k : Str × Str) (f : FileMeta) (files : Files)
    → at k (add_file f files) ≡ at k files ++ of_table k (f ∷ [])
unfolding add_file
at-add_file k f files = rw get-update (elim (Option-cases (Dict.get k files)) [
  | inl h ↦ rw h (ground arith)
  | inr (l, h) ↦ rw h (ground (arith, append-nil l))
])

at-add_all :
    (k : Str × Str) (fs : List FileMeta) (files : Files)
    → at k (add_all fs files) ≡ at k files ++ of_table k fs
unfolding add_all
at-add_all k [] files = rw append-nil
at-add_all k (f ∷ fs) files =
    rw (at-add_all k fs (add_file f files), at-add_file k f files)
      (ground (arith, append_assoc (at k files) (f ∷ []) (of_table k fs), append-nil (at k files)))

at-remove_all :
    (k : Str × Str) (paths : List Str) (files : Files)
    → at k (remove_all paths files) ≡ kept_by paths (at k files)
unfolding remove_all
at-remove_all k [] files = sym (retain-true (at k files))
at-remove_all k (p ∷ paths) files =
    rw get-map_values
      (elim (Option-cases (Dict.get k files)) [ inl h ↦ rw h refl | inr (l, h) ↦ rw h refl ])

at-drop_all :
    (k : Str × Str) (ds : List DroppedTable) (m : Memory)
    → at k (drop_all ds m).files ≡ (if drops k ds then [] else at k m.files)
unfolding drop_all
at-drop_all k [] m = refl
at-drop_all k (d ∷ ds) m = rw (at-drop_all k ds _) (rw get-remove (ground arith))

-- The files of a table after an entry is applied: none if the entry drops the table; else those
-- that it does not remove, followed by those that it adds to the table.
pub files_for-apply_entry :
    (db table : Str) (e : ManifestEntry) (m : Memory)
    → files_for db table (apply_entry m e) ≡ (
        if drops (db, table) e.drop_tables
        then []
        else kept_by e.remove_paths (files_for db table m) ++ of_table (db, table) e.add_files)
unfolding files_for apply_entry
files_for-apply_entry db table e m = rw at-drop_all (rw at-add_all (rw at-remove_all))

abbrev of_key : Str × Str → List Tombstone → List Tombstone
of_key k = retain (λ t. pair_eq (t.db, t.table) k)

of_key-purged :
    (k : Str × Str) (d : DroppedTable) (ts : List Tombstone)
    → of_key k (retain (λ t. not (str_eq t.db d.db && str_eq t.table d.table)) ts)
      ≡ (if pair_eq (d.db, d.table) k then [] else of_key k ts)
of_key-purged k d [] = ground arith
of_key-purged k d (t ∷ ts) = ground (
  arith,
  of_key-purged k d ts,
  str_eq_iff t.db d.db,
  str_eq_iff t.table d.table,
  str_eq_iff t.db k.0,
  str_eq_iff t.table k.1,
  str_eq_iff d.db k.0,
  str_eq_iff d.table k.1,
)

of_key-drop_all :
    (k : Str × Str) (ds : List DroppedTable) (m : Memory)
    → of_key k (drop_all ds m).tombstones ≡ (if drops k ds then [] else of_key k m.tombstones)
unfolding drop_all
of_key-drop_all k [] m = refl
of_key-drop_all k (d ∷ ds) m =
    rw (of_key-drop_all k ds _) (rw (of_key-purged k d m.tombstones) (ground arith))

declared-drop_all :
    (k : Str × Str) (ds : List DroppedTable) (m : Memory)
    → Dict.get k (drop_all ds m).declared ≡ (if drops k ds then none else Dict.get k m.declared)
unfolding drop_all
declared-drop_all k [] m = refl
declared-drop_all k (d ∷ ds) m = rw (declared-drop_all k ds _) (rw get-remove (ground arith))

-- A table that an entry drops is gone, whatever else the entry carries: no file, no tombstone and
-- no declaration of it is left.
pub drop_purges :
    (db table : Str) (e : ManifestEntry) (m : Memory)
    → drops (db, table) e.drop_tables ≡ true
    → (files_for db table (apply_entry m e) ≡ [])
      × (tombstones_for db table (apply_entry m e) ≡ [])
      × (declared_schema db table (apply_entry m e) ≡ none)
unfolding files_for tombstones_for declared_schema apply_entry
drop_purges db table e m h = (
  rw (at-drop_all (db, table)) (rw h),
  rw (of_key-drop_all (db, table)) (rw h),
  rw (declared-drop_all (db, table)) (rw h),
)

-- No two tombstones of the folded state have one id.
abbrev has_id : Str → List Tombstone → Bool
has_id id = any (λ x. str_eq x.id id)

abbrev pub DistinctIds : List Tombstone → Type 0
DistinctIds [] = Unit
DistinctIds (t ∷ ts) = (any (λ x. str_eq x.id t.id) ts ≡ false) × DistinctIds ts

DistinctIds-snoc :
    (ts : List Tombstone) (t : Tombstone)
    → DistinctIds ts
    → has_id t.id ts ≡ false
    → DistinctIds (ts ++ t ∷ [])
DistinctIds-snoc [] t d h = (refl, tt)
DistinctIds-snoc (s ∷ ts) t d h = (
  rw any-append (ground (arith, str_eq_iff s.id t.id, str_eq_iff t.id s.id)),
  DistinctIds-snoc ts t d.1 (ground arith),
)

note_all-DistinctIds : (new ts : List Tombstone) → DistinctIds ts → DistinctIds (note_all new ts)
unfolding note_all
note_all-DistinctIds [] ts d = d
note_all-DistinctIds (t ∷ new) ts d = elim (Bool-cases (has_id t.id ts)) [
  | inl old ↦ rw old (note_all-DistinctIds new ts d)
  | inr fresh ↦ rw fresh (note_all-DistinctIds new (ts ++ t ∷ []) (DistinctIds-snoc ts t d fresh))
]

retain-DistinctIds :
    (p : Tombstone → Bool) (ts : List Tombstone) → DistinctIds ts → DistinctIds (retain p ts)
retain-DistinctIds p [] d = tt
retain-DistinctIds p (t ∷ ts) d = elim (Bool-cases (p t)) [
  | inl e ↦ rw e (any-retain (λ x. str_eq x.id t.id) p ts d.0, retain-DistinctIds p ts d.1)
  | inr e ↦ rw e (retain-DistinctIds p ts d.1)
]

drop_all-DistinctIds :
    (ds : List DroppedTable) (m : Memory)
    → DistinctIds m.tombstones
    → DistinctIds (drop_all ds m).tombstones
unfolding drop_all
drop_all-DistinctIds [] m d = d
drop_all-DistinctIds (x ∷ ds) m d = drop_all-DistinctIds ds _ (retain-DistinctIds _ m.tombstones d)

-- Applying an entry, whatever tombstones it carries, keeps the ids of the tombstones distinct.
pub apply_entry-DistinctIds :
    (e : ManifestEntry) (m : Memory)
    → DistinctIds m.tombstones
    → DistinctIds (apply_entry m e).tombstones
unfolding apply_entry
apply_entry-DistinctIds e m d =
    drop_all-DistinctIds e.drop_tables _ (note_all-DistinctIds e.tombstones m.tombstones d)

files_for-adds :
    (db table : Str) (e : ManifestEntry) (m : Memory)
    → e.remove_paths ≡ []
    → e.drop_tables ≡ []
    → files_for db table (apply_entry m e)
      ≡ files_for db table m ++ of_table (db, table) e.add_files
files_for-adds db table e m r d =
    files_for-apply_entry db table e m
    ∙ simp (d, r)
        (ap (λ l. l ++ of_table (db, table) e.add_files) (retain-true (files_for db table m)))

-- Applying an entry that removes nothing and drops no table a second time is no no-op: the files
-- that it adds to a table are then listed twice.
pub apply_entry_twice :
    (db table : Str) (e : ManifestEntry) (m : Memory)
    → e.remove_paths ≡ []
    → e.drop_tables ≡ []
    → files_for db table (apply_entry (apply_entry m e) e)
      ≡ files_for db table m ++ of_table (db, table) e.add_files ++ of_table (db, table) e.add_files
apply_entry_twice db table e m r d =
    files_for-adds db table e (apply_entry m e) r d
    ∙ ap (λ l. l ++ of_table (db, table) e.add_files) (files_for-adds db table e m r d)
