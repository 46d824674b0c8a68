-- ===== src/Router/Shards.antt =====
-- How crates/server/src/router.rs splits a body of line protocol into shards.
use timelakedb.Base.{
  ℕ, zero, suc, ◌%◌, Bool, false, ◌||◌, Option, none, some, List, [], ◌∷◌, ◌++◌, ◌==◌,
  if◌then◌else◌, Result, ok, err,
}
use timelakedb.Base.Str.{Str}
use timelakedb.Compaction.Owner.{mix}
use timelakedb.Ingest.Parse.{skipped}

-- Up to the first comma or space that no backslash stands before.
unfoldable pub measurement_prefix : Str → Str
measurement_prefix [] = []
measurement_prefix (b ∷ []) = if b == 44 || b == 32 then [] else b ∷ []
measurement_prefix (b ∷ n ∷ s) =
    let behind = measurement_prefix s in
    let plain = measurement_prefix (n ∷ s) in
    if b == 92 then b ∷ n ∷ behind else if b == 44 || b == 32 then [] else b ∷ plain

unfoldable pub line_measurement : Str → Option Str
unfolding measurement_prefix
line_measurement [] = none
line_measurement (b ∷ s) = some (measurement_prefix (b ∷ s))

unfoldable pub shard_of : Str → Str → ℕ → ℕ
shard_of db measurement n = mix (mix (mix 0xcbf29ce484222325 db) (0 ∷ [])) measurement % n

-- `split_inclusive('\n')`, behind the part `line` of the first piece.
unfoldable pub split_inclusive : Str → Str → List Str
split_inclusive [] [] = []
split_inclusive (a ∷ line) [] = (a ∷ line) ∷ []
split_inclusive line (b ∷ s) =
    let ended = split_inclusive [] s in
    let longer = split_inclusive (line ++ b ∷ []) s in
    if b == 10 then (line ++ b ∷ []) ∷ ended else longer

-- A byte ahead of a trimmed text.
abbrev pub kept_ahead : Bool → ℕ → Str → Str
kept_ahead ends b [] = if ends then [] else b ∷ []
kept_ahead ends b (c ∷ s) = b ∷ c ∷ s

-- `trim_end_matches(['\n', '\r'])`
unfoldable pub trim_ends : Str → Str
trim_ends [] = []
trim_ends (b ∷ s) = kept_ahead (b == 10 || b == 13) b (trim_ends s)

unfoldable pub ends_with_feed : Str → Bool
ends_with_feed [] = false
ends_with_feed (b ∷ []) = b == 10
ends_with_feed (b ∷ c ∷ s) = ends_with_feed (c ∷ s)

-- The line as it is forwarded.
unfoldable pub ended : Str → Str
unfolding ends_with_feed
ended line = if ends_with_feed line then line else line ++ 10 ∷ []

-- `shards[idx].push_str(line)`; the index is below the number of shards.
unfoldable pub push_at : ℕ → Str → List Str → List Str
push_at i line [] = []
push_at zero line (s ∷ shards) = (s ++ line) ∷ shards
push_at (suc i) line (s ∷ shards) = s ∷ push_at i line shards

-- The measurement that a line is routed by: none, if it is missing or empty.
abbrev pub routed : Option Str → Option Str
routed none = none
routed (some []) = none
routed (some (b ∷ s)) = some (b ∷ s)

-- The lines dealt out to `n` shards; the error is a line without a measurement.
unfoldable pub group_lines : Str → ℕ → List Str → List Str → Result Str (List Str)
unfolding line_measurement shard_of trim_ends ended push_at
group_lines db n [] shards = ok shards
group_lines db n (line ∷ lines) shards =
    let same = group_lines db n lines shards in
    let trimmed = trim_ends line in
    if skipped trimmed then same else elim (routed (line_measurement trimmed)) [
      | none ↦ err trimmed
      | some m ↦ group_lines db n lines (push_at (shard_of db m n) (ended line) shards)
    ]
