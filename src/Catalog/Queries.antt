-- ===== src/Catalog/Queries.antt =====
-- crates/catalog/src/lib.rs: what the catalog answers from memory.
use timelakedb.Base.{
  ℕ, ◌+◌, Bool, ◌&&◌, ◌||◌, Option, none, some, List, [], ◌∷◌, ◌++◌, map, ◌==◌, if◌then◌else◌,
  length, retain,
}
use timelakedb.Base.Str.{Str, str_eq, str_ltb}
use timelakedb.Base.Dict
use timelakedb.Base.Dict.{Dict, pair_key}
use timelakedb.Base.Sort.{sort_by}
use timelakedb.Catalog.Entry.{FileMeta, Tombstone, TableSchema, Memory}

abbrev pub or_default {ℓ} : {A : Type ℓ} → Option (List A) → List A
or_default none = []
or_default (some l) = l

unfoldable pub files_for : Str → Str → Memory → List FileMeta
files_for db table m = or_default (Dict.get (db, table) m.files)

unfoldable pub tombstones_for : Str → Str → Memory → List Tombstone
tombstones_for db table m = retain (λ t. str_eq t.db db && str_eq t.table table) m.tombstones

unfoldable pub declared_schema : Str → Str → Memory → Option TableSchema
declared_schema db table m = Dict.get (db, table) m.declared

abbrev pub values {ℓ} : {V : Type ℓ} → Dict (Str × Str) V → List V
values [] = []
values ((k, v) ∷ rest) = v ∷ values rest

abbrev pub keys {ℓ} : {V : Type ℓ} → Dict (Str × Str) V → List (Str × Str)
keys [] = []
keys ((k, v) ∷ rest) = k ∷ keys rest

unfoldable pub declared_schemas : Memory → List TableSchema
declared_schemas m = values m.declared

abbrev pub flatten {ℓ} : {A : Type ℓ} → List (List A) → List A
flatten [] = []
flatten (l ∷ rest) = l ++ flatten rest

unfoldable pub all_files : Memory → List FileMeta
all_files m = flatten (values m.files)

-- `dedup`: runs of equal names become one.
unfoldable pub dedup : List Str → List Str
dedup [] = []
dedup (x ∷ []) = x ∷ []
dedup (x ∷ y ∷ rest) = let out = dedup (y ∷ rest) in if str_eq x y then out else x ∷ out

unfoldable pub tables_for : Str → Memory → List Str
unfolding dedup
tables_for db m =
    dedup (sort_by str_ltb (map (λ k. k.1) (retain (λ k. str_eq k.0 db) (keys m.files))))

unfoldable pub databases : Memory → List Str
unfolding dedup
databases m = dedup (sort_by str_ltb (map (λ k. k.0) (keys m.files)))

abbrev pub sum : List ℕ → ℕ
sum [] = 0
sum (n ∷ rest) = n + sum rest

unfoldable pub file_count : Memory → ℕ
file_count m = sum (map length (values m.files))

pub record TableStorage : Type 0 where
  pub db : Str
  pub table : Str
  pub files : ℕ
  pub bytes : ℕ
  pub rows : ℕ

-- The totals of one table's files.
unfoldable pub storage_of : (Str × Str) × List FileMeta → TableStorage
storage_of ((db, table), metas) = record {
  db = db;
  table = table;
  files = length metas;
  bytes = sum (map (λ m. m.size_bytes) metas);
  rows = sum (map (λ m. m.rows) metas);
}

unfoldable pub storage_before : TableStorage → TableStorage → Bool
storage_before a b = str_ltb a.db b.db || (str_eq a.db b.db && str_ltb a.table b.table)

unfoldable pub storage_summary : Memory → List TableStorage
unfolding storage_of storage_before
storage_summary m = sort_by storage_before (map storage_of m.files)

pub data Level : Type 0 where
  flushed compacted rewritten : Level

-- The part of the path behind its last slash.
unfoldable pub basename : Str → Str → Str
basename name [] = name
basename name (c ∷ rest) = basename (if c == b'/' then rest else name) rest

-- The level by the first byte of the name.
unfoldable pub level_of_name : Str → Level
level_of_name [] = flushed
level_of_name (c ∷ name) = if c == b'c' then compacted else if c == b't' then rewritten else flushed

unfoldable pub level_of : Str → Level
unfolding basename level_of_name
level_of path = level_of_name (basename path path)

pub record LevelCounts : Type 0 where
  pub flushed : ℕ
  pub compacted : ℕ
  pub rewritten : ℕ

unfoldable pub count_level : Level → LevelCounts → LevelCounts
count_level flushed n = record n { flushed = n.flushed + 1 }
count_level compacted n = record n { compacted = n.compacted + 1 }
count_level rewritten n = record n { rewritten = n.rewritten + 1 }

unfoldable pub count_levels : List FileMeta → LevelCounts → LevelCounts
unfolding level_of count_level
count_levels [] n = n
count_levels (f ∷ rest) n = count_levels rest (count_level (level_of f.path) n)

unfoldable pub level_counts : Memory → LevelCounts
unfolding all_files count_levels
level_counts m = count_levels (all_files m) (record { flushed = 0; compacted = 0; rewritten = 0 })
