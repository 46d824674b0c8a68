-- ===== src/Audit/Segments.antt =====
-- The files of a trail in crates/audit/src/lib.rs. A rotated segment is known by the number in its
-- name, whose twelve digits make the order of the names the order of the numbers below 10^12.
use timelakedb.Base.{
  ℕ, Option, none, some, List, [], ◌∷◌, ◌++◌, map, if◌then◌else◌, Result, ok, err, ◌>>=◌,
}
use timelakedb.Base.Text.{lines_from}
use timelakedb.Base.Str.{Str}
use timelakedb.Base.Sort.{sort_by}
use timelakedb.Base.Dict.{Dict}
use timelakedb.Base.Ascending.{by_number}
use timelakedb.Visibility.Blank.{is_blank}
use timelakedb.Audit.Record.{AuditRecord, Formats}

-- A file and the time of its last write.
pub record Segment : Type 0 where
  pub content : Str
  pub modified : ℕ

-- The rotated segments and the live one.
pub record Dir : Type 0 where
  pub rotated : Dict ℕ Segment
  pub live : Option Segment

pub data AuditError : Type 0 where
  corrupt_record disk_failed : AuditError

unfoldable pub read_lines : Formats → List Str → Result AuditError (List AuditRecord)
read_lines fmt [] = ok []
read_lines fmt (line ∷ lines) =
    let rest = read_lines fmt lines in
    if is_blank line then rest else elim (fmt.from_json line) [
      | none ↦ err corrupt_record
      | some rec ↦ rest >>= λ out. ok (rec ∷ out)
    ]

-- A line that is not UTF-8 is refused as one that is no record is.
unfoldable pub read_segment : Formats → Segment → Result AuditError (List AuditRecord)
unfolding lines_from
read_segment fmt seg = read_lines fmt (lines_from [] seg.content)

abbrev pub rotated_segments : Dir → List (ℕ × Segment)
rotated_segments dir = sort_by by_number dir.rotated

abbrev pub live_segment : Option Segment → List Segment
live_segment none = []
live_segment (some seg) = seg ∷ []

abbrev pub segments_in_order : Dir → List Segment
segments_in_order dir = map (λ e. e.1) (rotated_segments dir) ++ live_segment dir.live

unfoldable pub read_segments : Formats → List Segment → Result AuditError (List AuditRecord)
read_segments fmt [] = ok []
read_segments fmt (seg ∷ segs) =
    let rest = read_segments fmt segs in
    read_segment fmt seg >>= λ records. rest >>= λ out. ok (records ++ out)

unfoldable pub read_all : Formats → Dir → Result AuditError (List AuditRecord)
read_all fmt dir = read_segments fmt (segments_in_order dir)
