-- ===== src/Catalog/Commit.antt =====
-- crates/catalog/src/lib.rs: `Catalog`: load, catch_up and the commit loop. The nodes that share
-- the store act between a node's accesses to it: `Rivals` lists, for each attempt, the updates
-- that others land before its put and, after a lost put, before its catch-up.
pub mod Log
pub mod Reads
pub mod Writes
mod Steps
pub mod Outcome
mod Attempt
pub mod Progress
-- pub mod Tests
use timelakedb.Base.{
  ℕ, zero, suc, ◌+◌, Bool, true, false, ◌&&◌, Option, none, some, List, [], ◌∷◌, ◌++◌, map, max,
  ltb, leb, if◌then◌else◌, Result, ok, err, ◌>>=◌, length, is_some,
}
use timelakedb.Base.Str.{Str}
use timelakedb.Store.{IoError, already_exists, resource_busy, Objects, get, put_if_absent, list}
use timelakedb.Catalog.Entry.{
  FileMeta, Tombstone, TableSchema, DroppedTable, manifest_format_version, ManifestEntry, Memory,
  empty, apply_entry, first_absent,
}
use timelakedb.Catalog.Manifest.{Codec, read_entry}
use timelakedb.Catalog.Manifest.Paths.{manifest_dir, manifest_path}

pub record Catalog : Type 0 where
  pub seq : ℕ
  pub memory : Memory
  pub commit_conflicts : ℕ

-- What a commit carries: the lists that `commit_guarded` takes.
pub record Update : Type 0 where
  pub add_files : List FileMeta
  pub remove_paths : List Str
  pub tombstones : List Tombstone
  pub schema_decls : List TableSchema
  pub drop_tables : List DroppedTable

abbrev pub Rivals : Type 0
Rivals = List (List Update × List Update)

abbrev pub max_commit_attempts : ℕ
max_commit_attempts = 100

unfoldable pub stamp : ℕ → Tombstone → Tombstone
stamp seq t = record t { created_seq = seq }

-- The entry that an update becomes at the sequence number it lands at.
unfoldable pub entry_at : ℕ → Update → ManifestEntry
unfolding stamp
entry_at seq u = record {
  format = manifest_format_version;
  seq = seq;
  add_files = u.add_files;
  remove_paths = u.remove_paths;
  tombstones = map (stamp seq) u.tombstones;
  schema_decls = u.schema_decls;
  drop_tables = u.drop_tables;
}

-- The empty lists of a commit that carries nothing.
abbrev pub plain : Update
plain = record {
  add_files = [];
  remove_paths = [];
  tombstones = [];
  schema_decls = [];
  drop_tables = [];
}

-- A fenced commit whose inputs are not all there any more.
unfoldable pub stale : Bool → Update → Catalog → Bool
stale fenced u cat = fenced && is_some (first_absent cat.memory.files u.remove_paths)

-- `newer.sort_by_key(|(seq, _)| *seq)`, a stable sort.
unfoldable pub insert_by_seq :
    ℕ × ManifestEntry → List (ℕ × ManifestEntry) → List (ℕ × ManifestEntry)
insert_by_seq x [] = x ∷ []
insert_by_seq x (y ∷ ys) =
    let rest = insert_by_seq x ys in if leb x.0 y.0 then x ∷ y ∷ ys else y ∷ rest

unfoldable pub sort_by_seq : List (ℕ × ManifestEntry) → List (ℕ × ManifestEntry)
unfolding insert_by_seq
sort_by_seq [] = []
sort_by_seq (x ∷ xs) = insert_by_seq x (sort_by_seq xs)

unfoldable pub apply_newer : List (ℕ × ManifestEntry) → ℕ × Memory → ℕ × Memory
apply_newer [] (head, m) = (head, m)
apply_newer ((seq, e) ∷ rest) (head, m) = apply_newer rest (max head seq, apply_entry m e)

abbrev pub rivals_now : Rivals → List Update × List Update
rivals_now [] = ([], [])
rivals_now (r ∷ rest) = r

abbrev pub rivals_later : Rivals → Rivals
rivals_later [] = []
rivals_later (r ∷ rest) = rest

module _ (c : Codec) where
  unfoldable pub load_from : Objects c.Blob → List Str → ℕ × Memory → Result IoError (ℕ × Memory)
  load_from store [] s = ok s
  load_from store (p ∷ paths) (seq, m) = do
    entry ← read_entry c store p
    load_from store paths (max seq entry.seq, apply_entry m entry)

  unfoldable pub load : Objects c.Blob → Result IoError Catalog
  unfolding load_from
  load store = do
    (seq, m) ← load_from store (list manifest_dir store) (0, empty)
    ok (record { seq = seq; memory = m; commit_conflicts = 0 })

  unfoldable pub newer_entries :
      Objects c.Blob → ℕ → List Str → Result IoError (List (ℕ × ManifestEntry))
  newer_entries store head [] = ok []
  newer_entries store head (p ∷ paths) = do
    entry ← read_entry c store p
    rest ← newer_entries store head paths
    ok (if ltb head entry.seq then (entry.seq, entry) ∷ rest else rest)

  -- `catch_up_locked`
  unfoldable pub catch_up : Objects c.Blob → Catalog → Result IoError Catalog
  unfolding newer_entries sort_by_seq apply_newer
  catch_up store cat = do
    newer ← newer_entries store cat.seq (list manifest_dir store)
    let (head, m) = apply_newer (sort_by_seq newer) (cat.seq, cat.memory)
    ok (record cat { seq = head; memory = m })

  -- What another node's commit leaves in the store: its entry at the next free sequence number.
  unfoldable pub land : Update → Objects c.Blob → Objects c.Blob
  land u store =
      let seq = suc (length (list manifest_dir store)) in
      (put_if_absent (manifest_path seq) (c.to_vec (entry_at seq u)) store).0

  unfoldable pub land_all : List Update → Objects c.Blob → Objects c.Blob
  unfolding land
  land_all [] store = store
  land_all (u ∷ us) store = land_all us (land u store)

  -- The loop of `commit_guarded`, on the attempts left: the store and the catalog after it, and
  -- what it returns.
  unfoldable pub commit_attempts :
      ℕ
      → Rivals
      → Update
      → Bool
      → Objects c.Blob
      → Catalog
      → Objects c.Blob × Catalog × Result IoError ℕ
  commit_attempts zero rivals u fenced store cat = (store, cat, err resource_busy)
  commit_attempts (suc n) rivals u fenced store cat =
      let seq = cat.seq + 1 in
      let entry = entry_at seq u in
      let (store', won) =
        put_if_absent (manifest_path seq) (c.to_vec entry) (land_all (rivals_now rivals).0 store) in
      let lost = land_all (rivals_now rivals).1 store' in
      let cat' : Catalog = record cat { commit_conflicts = cat.commit_conflicts + 1 } in
      elim (stale fenced u cat) [
        | true ↦ (store, cat, err already_exists)
        | false ↦ elim won [
          | true ↦ (store', record cat { seq = seq; memory = apply_entry cat.memory entry }, ok seq)
          | false ↦ elim (catch_up lost cat') [
            | err e ↦ (lost, cat', err e)
            | ok now ↦ commit_attempts n (rivals_later rivals) u fenced lost now
          ]
        ]
      ]

  unfoldable pub commit_guarded :
      Rivals
      → Update
      → Bool
      → Objects c.Blob
      → Catalog
      → Objects c.Blob × Catalog × Result IoError ℕ
  unfolding commit_attempts
  commit_guarded = commit_attempts max_commit_attempts

  unfoldable pub commit :
      Rivals
      → List FileMeta
      → List Str
      → Objects c.Blob
      → Catalog
      → Objects c.Blob × Catalog × Result IoError ℕ
  unfolding commit_guarded
  commit rivals add_files remove_paths =
      commit_guarded rivals (record plain { add_files = add_files; remove_paths = remove_paths })
        false

  unfoldable pub commit_add :
      Rivals
      → List FileMeta
      → Objects c.Blob
      → Catalog
      → Objects c.Blob × Catalog × Result IoError ℕ
  unfolding commit
  commit_add rivals add_files = commit rivals add_files []

  unfoldable pub commit_replace :
      Rivals
      → List FileMeta
      → List Str
      → Objects c.Blob
      → Catalog
      → Objects c.Blob × Catalog × Result IoError ℕ
  unfolding commit_guarded
  commit_replace rivals add_files remove_paths =
      commit_guarded rivals (record plain { add_files = add_files; remove_paths = remove_paths })
        true

  unfoldable pub commit_tombstone :
      Rivals → Tombstone → Objects c.Blob → Catalog → Objects c.Blob × Catalog × Result IoError ℕ
  unfolding commit_guarded
  commit_tombstone rivals t = commit_guarded rivals (record plain { tombstones = t ∷ [] }) false

  unfoldable pub commit_schema :
      Rivals → TableSchema → Objects c.Blob → Catalog → Objects c.Blob × Catalog × Result IoError ℕ
  unfolding commit_guarded
  commit_schema rivals s = commit_guarded rivals (record plain { schema_decls = s ∷ [] }) false

  unfoldable pub commit_drop :
      Rivals → Str → Str → Objects c.Blob → Catalog → Objects c.Blob × Catalog × Result IoError ℕ
  unfolding commit_guarded
  commit_drop rivals db table =
      commit_guarded rivals (record plain { drop_tables = record { db = db; table = table } ∷ [] })
        false
