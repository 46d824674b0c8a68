-- ===== src/Ingest/Printed/Tests.antt =====
-- The round trip of crates/ingest/src/lib.rs at two concrete rows.
use mathlib.Core.Option
use timelakedb.Base.{
  ◌≡◌, ◌≢◌, refl, ap, Bool, true, false, Option, some, List, [], ◌∷◌, Result, ok, All, arith,
}
use timelakedb.Base.Int.{pos, negsuc}
use timelakedb.Base.Str.{Str, str}
use timelakedb.Base.Decimal.{decimal, digits_from, decimal-IsDigit, decimal-ne-nil}
use timelakedb.Wal.Bytes.{utf8_from}
use timelakedb.Buffer.Columns.{F64, bits, from_i64, from_u64, float, int, uint, boolean, text}
use timelakedb.Buffer.Table.{ParsedLine}
use timelakedb.Ingest.Value.{digits}
use timelakedb.Ingest.Parse.{ParseError, parse_lines}
use timelakedb.Ingest.Print.{to_line_protocol}
use timelakedb.Ingest.Printed.Numbers.{digits-decimal}
use timelakedb.Ingest.Printed.Values.{IsNumeral, digit-IsNumeral}
use timelakedb.Ingest.Printed.Line.{IsPrintable}
use timelakedb.Ingest.Printed.Whole.{parse_lines-to_line_protocol}

-- Floats that are whole and not negative.
abbrev parse_whole : Str → Option F64
parse_whole s = Option.map bits (digits 0 s)

abbrev print_whole : F64 → Str
print_whole (bits n) = decimal n
print_whole (from_i64 z) = []
print_whole (from_u64 n) = []

abbrev is_whole : F64 → Bool
is_whole (bits n) = true
is_whole (from_i64 z) = false
is_whole (from_u64 n) = false

whole_reads_back : (x : F64) → is_whole x ≡ true → parse_whole (print_whole x) ≡ some x
whole_reads_back (bits n) h = ap (Option.map bits) (digits-decimal n)
whole_reads_back (from_i64 z) h = absurd (cc h)
whole_reads_back (from_u64 n) h = absurd (cc h)

whole_decimal_form :
    (x : F64) → is_whole x ≡ true → All IsNumeral (print_whole x) × (print_whole x ≢ [])
whole_decimal_form (bits n) h = (digit-IsNumeral (decimal n) (decimal-IsDigit n), decimal-ne-nil n)
whole_decimal_form (from_i64 z) h = absurd (cc h)
whole_decimal_form (from_u64 n) h = absurd (cc h)

abbrev cpu : ParsedLine
cpu = record {
  table = str "m n";
  tags = (str "a=b", str "c, d") ∷ (str "e", []) ∷ [];
  fields =
      (str "f", float (bits 2)) ∷ (str "i", int (negsuc 4)) ∷ (str "s", text (str "q\"\\")) ∷ [];
  timestamp_ns = negsuc 6;
}

abbrev up : ParsedLine
up = record {
  table = str "up";
  tags = [];
  fields = (str "u", uint 7) ∷ (str "b", boolean true) ∷ [];
  timestamp_ns = pos 9;
}

printed :
    to_line_protocol print_whole (cpu ∷ up ∷ [])
    ≡ str "m\\ n,a\\=b=c\\,\\ d,e= f=2,i=-5i,s=\"q\\\"\\\\\" -7\nup u=7u,b=t 9\n"
unfolding to_line_protocol digits_from
printed = refl

cpu-IsPrintable :
    IsPrintable parse_whole print_whole is_whole whole_reads_back whole_decimal_form cpu
unfolding utf8_from
cpu-IsPrintable = ground arith

up-IsPrintable : IsPrintable parse_whole print_whole is_whole whole_reads_back whole_decimal_form up
unfolding utf8_from
up-IsPrintable = ground arith

parse_lines-to_line_protocol_example :
    ◌≡◌ {A = Result ParseError (List ParsedLine)}
      (parse_lines parse_whole (pos 1) (pos 5) (to_line_protocol print_whole (cpu ∷ up ∷ [])))
      (ok (cpu ∷ up ∷ []))
parse_lines-to_line_protocol_example =
    parse_lines-to_line_protocol parse_whole print_whole is_whole whole_reads_back
      whole_decimal_form (cpu ∷ up ∷ []) (pos 5) (cpu-IsPrintable, (up-IsPrintable, tt))
