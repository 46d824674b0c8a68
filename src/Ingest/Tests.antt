-- ===== src/Ingest/Tests.antt =====
-- The theorem on accepted rows at a concrete line, and lines that are refused.
use timelakedb.Base.{◌≡◌, ◌≢◌, refl, none, [], ◌∷◌, All, ok, err, arith}
use timelakedb.Base.Int.{pos}
use timelakedb.Base.Str.{str, str_eq}
use timelakedb.Base.Text.{lines_from, strip_cr, trim, drop_white, behind_white, behind_white_back}
use timelakedb.Wal.Bytes.{utf8_from, utf8_next}
use timelakedb.Buffer.Columns.{int, text}
use timelakedb.Buffer.Table.{ParsedLine}
use timelakedb.Ingest.Scan.{
  take_bytes, take_escaped, reject_reserved_key, reserved_tag, timestamp_overflow,
}
use timelakedb.Ingest.Value.{
  digits, parse_i64, take_quoted, take_token, strip_last, parse_token, take_field_value,
}
use timelakedb.Ingest.Parse.{
  parse_lines, parse_each, trim_cr, parse_line, parse_tags, parse_fields, checked_mul,
  parse_timestamp,
}
use timelakedb.Ingest.Scan.{out_of_fuel}
use timelakedb.Ingest.Ends.{parse_line-ne-out_of_fuel}
use timelakedb.Ingest.Rows.{IsRow, parse_lines-IsRow}

abbrev row : ParsedLine
row = record {
  table = str "m n";
  tags = (str "host", str "a,b") ∷ [];
  fields = (str "v", int (pos 1)) ∷ (str "s", text (str "q\"")) ∷ [];
  timestamp_ns = pos 7000;
}

accepted :
    parse_lines (λ s. none) (pos 1000) (pos 5) (str "m\\ n,host=a\\,b v=1i,s=\"q\\\"\" 7")
    ≡ ok (row ∷ [])
unfolding parse_lines parse_each trim_cr parse_line parse_tags parse_fields checked_mul
    parse_timestamp take_bytes take_escaped reject_reserved_key digits parse_i64 take_quoted
    take_token strip_last parse_token take_field_value lines_from strip_cr trim drop_white
    behind_white behind_white_back utf8_from utf8_next str_eq
accepted = refl

parse_lines-IsRow_example : All IsRow (row ∷ [])
parse_lines-IsRow_example =
    parse_lines-IsRow (λ s. none) (pos 1000) (pos 5) (str "m\\ n,host=a\\,b v=1i,s=\"q\\\"\" 7")
      (row ∷ []) (omega arith) accepted

-- The key of the time column.
reserved :
    parse_lines (λ s. none) (pos 1) (pos 5) (str "m,time=a v=1i")
    ≡ err (record { line_no = 1; problem = reserved_tag (str "time") })
unfolding parse_lines parse_each trim_cr parse_line parse_tags parse_fields take_bytes take_escaped
    reject_reserved_key lines_from strip_cr utf8_from utf8_next str_eq
reserved = refl

-- A time that does not fit.
too_late :
    parse_lines (λ s. none) (pos 1000000000) (pos 5) (str "m v=t 9223372037")
    ≡ err (record { line_no = 1; problem = timestamp_overflow })
unfolding parse_lines parse_each trim_cr parse_line parse_tags parse_fields checked_mul
    parse_timestamp take_bytes take_escaped reject_reserved_key digits parse_i64 take_token
    parse_token take_field_value lines_from strip_cr trim drop_white behind_white behind_white_back
    utf8_from utf8_next str_eq
too_late = refl

parse_line-ne-out_of_fuel_example :
    parse_line (λ s. none) (pos 1) (pos 5) (str "m,a=b,c=d v=1i,w=t") ≢ err out_of_fuel
parse_line-ne-out_of_fuel_example =
    parse_line-ne-out_of_fuel (λ s. none) (pos 1) (pos 5) (str "m,a=b,c=d v=1i,w=t")
