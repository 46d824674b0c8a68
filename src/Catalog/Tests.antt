-- ===== src/Catalog/Tests.antt =====
-- The theorems of the catalog at concrete stores, and runs of its operations.
use timelakedb.Base.{
  ◌≡◌, ◌≢◌, refl, true, none, some, List, [], ◌∷◌, ◌++◌, ok, err, arith, length, if◌then◌else◌,
}
use timelakedb.Base.Int.{pos}
use timelakedb.Base.Str.{str, str_eq, str_ltb}
use Prim.Native.String.{String}
use timelakedb.Store.{Objects, list, resource_busy, already_exists, put_if_absent, get, starts_with}
use timelakedb.Catalog.Entry.{
  FileMeta, Tombstone, ManifestEntry, Memory, empty, apply_entry, first_absent,
}
use timelakedb.Catalog.Manifest.{Codec, read_entry}
use timelakedb.Catalog.Manifest.Paths.{manifest_path}
use timelakedb.Catalog.Queries.{files_for, tombstones_for, declared_schema}
use timelakedb.Catalog.Fold.{
  kept_by, of_table, drops, files_for-apply_entry, drop_purges, DistinctIds,
  apply_entry-DistinctIds, apply_entry_twice,
}
use timelakedb.Base.Dict
use timelakedb.Catalog.Commit.{
  entry_at, stale, Catalog, Update, Rivals, plain, land_all, load, catch_up, commit_guarded,
}
use timelakedb.Catalog.Commit.Log.{IsManifest, IsView, landed, replay}
use timelakedb.Catalog.Commit.Writes.{IsManifest-empty, land_all-landed}
use timelakedb.Catalog.Commit.Reads.{load-replay, catch_up-replay, caught_up}
use timelakedb.Catalog.Commit.Outcome.{Outcome}
use timelakedb.Catalog.Commit.Progress.{commit_guarded-Outcome, commit_guarded-ne-busy}

-- Entries kept as they are.
abbrev kept : Codec
kept = record {
  Blob = ManifestEntry;
  to_vec = λ e. e;
  from_slice = some;
  from_slice-to_vec = λ e. refl;
}

abbrev file : String → FileMeta
file path = record {
  db = str "db";
  table = str "cpu";
  partition = str "2026080809";
  path = str path;
  rows = 10;
  size_bytes = 1000;
  min_ts_ns = pos 0;
  max_ts_ns = pos 9;
}

abbrev flush : Update
flush = record plain { add_files = file "f1" ∷ file "f2" ∷ [] }

abbrev merge : Update
merge = record plain { add_files = file "c1" ∷ []; remove_paths = str "f1" ∷ str "f2" ∷ [] }

abbrev rival_merge : Update
rival_merge = record plain { add_files = file "c2" ∷ []; remove_paths = str "f1" ∷ str "f2" ∷ [] }

-- A store with one flush, and a node that has not read it yet.
abbrev log : List ManifestEntry
log = landed 0 (flush ∷ [])

abbrev store : Objects ManifestEntry
store = land_all kept (flush ∷ []) []

abbrev node : Catalog
node = record { seq = 0; memory = empty; commit_conflicts = 0 }

store-IsManifest : IsManifest kept store log
store-IsManifest = land_all-landed kept (flush ∷ []) [] [] (IsManifest-empty kept) (omega arith)

node-IsView : IsView node log
unfolding replay
node-IsView = record { folded = []; ahead = log; split = refl; head = refl; memory = refl }

abbrev race : Rivals
race = ([], []) ∷ (rival_merge ∷ [], []) ∷ []

load-replay_example :
    load kept store
    ≡ ok (record { seq = length log; memory = replay empty log; commit_conflicts = 0 })
load-replay_example = load-replay kept store log store-IsManifest

catch_up-replay_example : catch_up kept store node ≡ ok (caught_up kept store log node)
catch_up-replay_example = catch_up-replay kept store log node store-IsManifest node-IsView

commit_guarded-Outcome_example :
    Outcome kept log race merge true (commit_guarded kept race merge true store node)
unfolding landed
commit_guarded-Outcome_example =
    commit_guarded-Outcome kept merge true race log store node store-IsManifest node-IsView
      (omega arith)

commit_guarded-ne-busy_example :
    (commit_guarded kept race merge true store node).2 ≢ err resource_busy
unfolding landed
commit_guarded-ne-busy_example =
    commit_guarded-ne-busy kept merge true race log store node store-IsManifest node-IsView
      (omega arith) (omega arith)

abbrev deleted : Tombstone
deleted = record {
  id = str "t1";
  db = str "db";
  table = str "cpu";
  tag_equals = [];
  min_ts_ns = none;
  max_ts_ns = none;
  created_seq = 0;
}

abbrev full : Memory
full = record {
  files = ((str "db", str "cpu"), file "f1" ∷ []) ∷ [];
  tombstones = deleted ∷ [];
  declared = [];
}

abbrev noting : Update
noting = record plain { add_files = file "f3" ∷ []; tombstones = deleted ∷ deleted ∷ [] }

abbrev dropping : Update
dropping = record noting { drop_tables = record { db = str "db"; table = str "cpu" } ∷ [] }

files_for-apply_entry_example :
    files_for (str "db") (str "cpu") (apply_entry full (entry_at 2 merge)) ≡ (
      if drops (str "db", str "cpu") (entry_at 2 merge).drop_tables
      then []
      else kept_by (entry_at 2 merge).remove_paths (files_for (str "db") (str "cpu") full)
        ++ of_table (str "db", str "cpu") (entry_at 2 merge).add_files)
files_for-apply_entry_example = files_for-apply_entry (str "db") (str "cpu") (entry_at 2 merge) full

drop_purges_example :
    (files_for (str "db") (str "cpu") (apply_entry full (entry_at 2 dropping)) ≡ [])
    × (tombstones_for (str "db") (str "cpu") (apply_entry full (entry_at 2 dropping)) ≡ [])
    × (declared_schema (str "db") (str "cpu") (apply_entry full (entry_at 2 dropping)) ≡ none)
unfolding entry_at str_eq
drop_purges_example = drop_purges (str "db") (str "cpu") (entry_at 2 dropping) full refl

apply_entry-DistinctIds_example : DistinctIds (apply_entry full (entry_at 2 noting)).tombstones
apply_entry-DistinctIds_example = apply_entry-DistinctIds (entry_at 2 noting) full (refl, tt)

apply_entry_twice_example :
    files_for
      (str "db")
      (str "cpu")
      (apply_entry (apply_entry full (entry_at 2 noting)) (entry_at 2 noting))
    ≡ files_for (str "db") (str "cpu") full
      ++ of_table (str "db", str "cpu") (entry_at 2 noting).add_files
      ++ of_table (str "db", str "cpu") (entry_at 2 noting).add_files
unfolding entry_at
apply_entry_twice_example =
    apply_entry_twice (str "db") (str "cpu") (entry_at 2 noting) full refl refl

-- The losing compactor of a race is refused and adds nothing.
loser_is_refused : (commit_guarded kept race merge true store node).2 ≡ err already_exists
unfolding commit_guarded catch_up read_entry landed list put_if_absent get land_all entry_at stale
    first_absent apply_entry manifest_path str_eq str_ltb starts_with Dict.get Dict.insert
    Dict.remove Dict.update Dict.map_values replay
loser_is_refused = refl
