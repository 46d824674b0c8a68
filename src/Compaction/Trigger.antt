-- ===== src/Compaction/Trigger.antt =====
-- `trigger_for` and `has_overlap` of crates/server/src/compaction.rs.
use timelakedb.Base.{
  ℕ, Bool, true, false, not, ◌&&◌, ◌||◌, Option, none, some, List, [], ◌∷◌, map, length, ltb, leb,
  max, if◌then◌else◌,
}
use timelakedb.Base.Int.{ℤ, ltb_ℤ, max_ℤ}
use timelakedb.Base.Sort.{sort_by}
use timelakedb.Catalog.Entry.{FileMeta}

pub data Trigger : Type 0 where
  file_count overlap : Trigger

-- The order of pairs.
abbrev pub range_before : ℤ × ℤ → ℤ × ℤ → Bool
range_before a b = ltb_ℤ a.0 b.0 || (not (ltb_ℤ b.0 a.0) && ltb_ℤ a.1 b.1)

abbrev pub range_of : FileMeta → ℤ × ℤ
range_of f = (f.min_ts_ns, f.max_ts_ns)

-- A range, in the order of their starts, that starts before the furthest end so far.
unfoldable pub reaches : ℤ → List (ℤ × ℤ) → Bool
reaches furthest_end [] = false
reaches furthest_end ((start, stop) ∷ ranges) =
    let rest = reaches (max_ℤ furthest_end stop) ranges in
    if ltb_ℤ start furthest_end then true else rest

-- Over the sorted ranges.
unfoldable pub overlap_in : List (ℤ × ℤ) → Bool
overlap_in [] = false
overlap_in ((start, stop) ∷ ranges) = reaches stop ranges

unfoldable pub has_overlap : List FileMeta → Bool
has_overlap files =
    if ltb (length files) 2 then false else overlap_in (sort_by range_before (map range_of files))

unfoldable pub trigger_for : List FileMeta → ℕ → Option Trigger
trigger_for files min_files =
    if leb (max min_files 2) (length files)
    then some file_count
    else if has_overlap files
    then some overlap
    else none
