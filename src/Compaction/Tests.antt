-- ===== src/Compaction/Tests.antt =====
-- The theorems on compaction at concrete files.
use timelakedb.Base.{ℕ, ◌≡◌, refl, none, some, List, [], ◌∷◌, map, arith}
use timelakedb.Base.Int.{pos}
use timelakedb.Base.Str.{str}
use timelakedb.Base.Sort.{sort_by, insert_by}
use timelakedb.Catalog.Entry.{FileMeta}
use timelakedb.Compaction.Trigger.{overlap, trigger_for, range_of, has_overlap, overlap_in, reaches}
use timelakedb.Compaction.Overlap.{any_pair, overlaps, has_overlap-any_pair}

abbrev file : ℕ → ℕ → FileMeta
file from to = record {
  db = str "db";
  table = str "cpu";
  partition = str "2026080809";
  path = str "f";
  rows = 10;
  size_bytes = 1000;
  min_ts_ns = pos from;
  max_ts_ns = pos to;
}

-- A wide file behind two narrow ones that lie in it.
abbrev nested : List FileMeta
nested = file 20 30 ∷ file 40 50 ∷ file 10 100 ∷ []

has_overlap-any_pair_example : has_overlap nested ≡ any_pair overlaps (map range_of nested)
has_overlap-any_pair_example = has_overlap-any_pair nested (omega arith)

nested_overlap : trigger_for nested 4 ≡ some overlap
unfolding trigger_for has_overlap overlap_in reaches sort_by insert_by
nested_overlap = refl

-- Files that touch at an instant.
touching : trigger_for (file 10 20 ∷ file 20 30 ∷ []) 4 ≡ none
unfolding trigger_for has_overlap overlap_in reaches sort_by insert_by
touching = refl
