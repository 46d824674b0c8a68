-- ===== src/Router/Tests.antt =====
-- A write of crates/server/src/router.rs that is done, and writes that send nothing.
use timelakedb.Base.{
  ℕ, ◌≡◌, refl, Option, none, some, List, [], ◌∷◌, length, get_elem?, ok, if◌then◌else◌,
}
use timelakedb.Base.Int.{ℤ, pos}
use timelakedb.Base.Str.{Str, str, str_eq, str_ltb}
use timelakedb.Base.Text.{lines_from, strip_cr, trim, drop_white, behind_white, behind_white_back}
use timelakedb.Wal.Bytes.{utf8_from, utf8_next}
use timelakedb.Buffer.Table.{ParsedLine}
use timelakedb.Compaction.Owner.{mix}
use timelakedb.Ingest.Scan.{take_bytes, take_escaped, reject_reserved_key}
use timelakedb.Ingest.Value.{
  digits, parse_i64, take_token, strip_last, parse_token, take_field_value,
}
use timelakedb.Ingest.Parse.{
  parse_lines, parse_each, trim_cr, parse_line, parse_tags, parse_fields, checked_mul,
  parse_timestamp, precision_multiplier,
}
use timelakedb.Router.Shards.{
  split_inclusive, measurement_prefix, line_measurement, shard_of, group_lines,
}
use timelakedb.Router.Write.{
  Target, RouterStats, WriteRequest, Forward, forward_of, plain_body, multiplier, database_of,
  write,
}
use timelakedb.Base.Sort.{insert_by, sort_by}
use timelakedb.Router.Queries.{RouterState, QueryTarget, Reply, with_queriers, rotation_from, sql}
use timelakedb.Router.Dealt.{picked}
use timelakedb.Router.Accepted.{Arrived, write-Arrived}

abbrev two : List Target
two =
    record { id = str "a"; write_url = str "http://a:1/api/v3/write_lp" }
    ∷ record { id = str "b"; write_url = str "http://b:1/api/v3/write_lp" }
    ∷ []

abbrev request : WriteRequest
request = record {
  db = some (str "poc");
  bucket = none;
  precision = some (str "s");
  content_encoding = none;
  authorization = some (str "Bearer t");
  body = str "cpu v=1i 5\n# a comment\nmem,host=a v=t\ndisk v=2i";
}

abbrev zeroes : RouterStats
zeroes = record { forwarded = 0; forward_errors = 0; rejected = 0 }

abbrev accepts : Forward → Option ℕ
accepts f = some 204

done : (write accepts (λ s. none) (λ s. none) request two zeroes).status ≡ 204
unfolding write group_lines split_inclusive measurement_prefix mix parse_lines parse_each trim_cr
    parse_line parse_tags parse_fields checked_mul parse_timestamp take_bytes take_escaped
    reject_reserved_key digits parse_i64 take_token strip_last parse_token take_field_value
    lines_from strip_cr trim drop_white behind_white behind_white_back utf8_from utf8_next str_eq
    precision_multiplier
done = refl

write-Arrived_example :
    (text : Str) × (mult : ℤ) × (rows : List ParsedLine) × (plain_body (λ s. none) request
      ≡ some text)
    × (multiplier request.precision ≡ some mult)
    × (parse_lines (λ s. none) mult (pos 9) text ≡ ok rows)
    × ((i : ℕ) (t : Target)
        → get_elem? two i ≡ some t
        → (shard : Str) × (parse_lines (λ s. none) mult (pos 9) shard
            ≡ ok (
                picked
                  (database_of request.db request.bucket)
                  (length two)
                  i
                  (split_inclusive [] text)
                  rows))
          × Arrived accepts
              (write accepts (λ s. none) (λ s. none) request two zeroes)
              (forward_of request t)
              shard)
write-Arrived_example =
    write-Arrived accepts (λ s. none) (λ s. none) request two zeroes (pos 9) done

-- A bad field in the last line: nothing is sent, and the refusal is counted.
abbrev poisoned : WriteRequest
poisoned = record request { body = str "cpu v=1i 5\nmem v=oops" }

poison_sends_nothing :
    write accepts (λ s. none) (λ s. none) poisoned two zeroes
    ≡ record { sent = []; stats = record zeroes { rejected = 1 }; status = 400 }
unfolding write parse_lines parse_each trim_cr parse_line parse_tags parse_fields checked_mul
    parse_timestamp take_bytes take_escaped reject_reserved_key digits parse_i64 take_token
    strip_last parse_token take_field_value lines_from strip_cr trim drop_white behind_white
    behind_white_back utf8_from utf8_next str_eq precision_multiplier
poison_sends_nothing = refl

-- Two spellings of one table are two measurements to the router, which may send them to two ingesters.
spellings_differ :
    (line_measurement (str "k=v v=1i") ≡ some (str "k=v"))
    × (line_measurement (str "k\\=v v=1i") ≡ some (str "k\\=v"))
unfolding line_measurement
spellings_differ = (refl, refl)

spellings_part :
    (shard_of (str "poc") (str "k=v") 3 ≡ 0) × (shard_of (str "poc") (str "k\\=v") 3 ≡ 1)
unfolding shard_of mix
spellings_part = (refl, refl)

-- Two queriers, the second one ahead at its turn; it is down, and the other one answers.
abbrev router : RouterState
router = with_queriers 33554432 [] ((str "q2", str "b:2") ∷ (str "q1", str "a:1") ∷ [])

abbrev first_up : QueryTarget → Option Reply
first_up q = if str_eq q.id (str "q1") then some (200, some (str "rows")) else none

second_turn :
    ((sql first_up (sql first_up router).0).1 ≡ (200, some (str "rows")))
    × ((sql first_up (sql first_up router).0).0.query_errors ≡ 1)
    × ((sql first_up (sql first_up router).0).0.next_querier ≡ 2)
unfolding sql with_queriers rotation_from insert_by sort_by str_ltb str_eq
second_turn = (refl, refl, refl)
