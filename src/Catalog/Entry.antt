-- ===== src/Catalog/Entry.antt =====
-- crates/catalog/src/lib.rs: what a manifest entry carries, and how one is folded into memory.
use timelakedb.Base.{
  ℕ, Bool, false, not, ◌&&◌, ◌||◌, Option, none, some, List, [], ◌∷◌, ◌++◌, any, retain,
  if◌then◌else◌,
}
use timelakedb.Base.Int.{ℤ}
use timelakedb.Base.Str.{Str, str_eq}
use timelakedb.Base.Dict
use timelakedb.Base.Dict.{Dict, pair_key}

pub record FileMeta : Type 0 where
  pub db : Str
  pub table : Str
  pub partition : Str
  pub path : Str
  pub rows : ℕ
  pub size_bytes : ℕ
  pub min_ts_ns : ℤ
  pub max_ts_ns : ℤ

pub record Tombstone : Type 0 where
  pub id : Str
  pub db : Str
  pub table : Str
  pub tag_equals : List (Str × Str)
  pub min_ts_ns : Option ℤ
  pub max_ts_ns : Option ℤ
  pub created_seq : ℕ

pub data ColumnType : Type 0 where
  float integer unsigned boolean string : ColumnType

pub record TableColumn : Type 0 where
  pub name : Str
  pub ty : ColumnType
  pub tag : Bool

pub record TableSchema : Type 0 where
  pub db : Str
  pub table : Str
  pub columns : List TableColumn

pub record DroppedTable : Type 0 where
  pub db : Str
  pub table : Str

-- `MANIFEST_FORMAT_VERSION`
abbrev pub manifest_format_version : ℕ
manifest_format_version = 1

pub record ManifestEntry : Type 0 where
  pub format : ℕ
  pub seq : ℕ
  pub add_files : List FileMeta
  pub remove_paths : List Str
  pub tombstones : List Tombstone
  pub schema_decls : List TableSchema
  pub drop_tables : List DroppedTable

abbrev pub Files : Type 0
Files = Dict (Str × Str) (List FileMeta)

abbrev pub Declared : Type 0
Declared = Dict (Str × Str) TableSchema

-- The three maps that the log is folded into.
pub record Memory : Type 0 where
  pub files : Files
  pub tombstones : List Tombstone
  pub declared : Declared

abbrev pub empty : Memory
empty = record { files = []; tombstones = []; declared = [] }

abbrev pub contains : List Str → Str → Bool
contains paths p = any (λ q. str_eq q p) paths

unfoldable pub declare_all : List TableSchema → Declared → Declared
declare_all [] declared = declared
declare_all (s ∷ rest) declared = declare_all rest (Dict.insert (s.db, s.table) s declared)

unfoldable pub remove_all : List Str → Files → Files
remove_all [] files = files
remove_all (p ∷ paths) files =
    Dict.map_values (retain (λ f. not (contains (p ∷ paths) f.path))) files

unfoldable pub add_file : FileMeta → Files → Files
add_file f = Dict.update (f.db, f.table) [] (λ list. list ++ f ∷ [])

unfoldable pub add_all : List FileMeta → Files → Files
unfolding add_file
add_all [] files = files
add_all (f ∷ rest) files = add_all rest (add_file f files)

unfoldable pub note_all : List Tombstone → List Tombstone → List Tombstone
note_all [] tombstones = tombstones
note_all (t ∷ rest) tombstones =
    note_all rest
      (if any (λ x. str_eq x.id t.id) tombstones then tombstones else tombstones ++ t ∷ [])

unfoldable pub drop_all : List DroppedTable → Memory → Memory
drop_all [] m = m
drop_all (d ∷ rest) m = drop_all rest (record {
  files = Dict.remove (d.db, d.table) m.files;
  tombstones = retain (λ t. not (str_eq t.db d.db && str_eq t.table d.table)) m.tombstones;
  declared = Dict.remove (d.db, d.table) m.declared;
})

-- `apply_entry`: schemas, removals, adds, tombstones, and drops last.
unfoldable pub apply_entry : Memory → ManifestEntry → Memory
unfolding declare_all remove_all add_all note_all drop_all
apply_entry m e = drop_all e.drop_tables (record {
  files = add_all e.add_files (remove_all e.remove_paths m.files);
  tombstones = note_all e.tombstones m.tombstones;
  declared = declare_all e.schema_decls m.declared;
})

unfoldable pub holds_path : Str → Files → Bool
holds_path path [] = false
holds_path path ((k, list) ∷ files) = any (λ f. str_eq f.path path) list || holds_path path files

-- The first path that no table holds any more, if there is one.
unfoldable pub first_absent : Files → List Str → Option Str
unfolding holds_path
first_absent files [] = none
first_absent files (p ∷ paths) =
    if not (holds_path p files) then some p else first_absent files paths
