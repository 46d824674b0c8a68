-- ===== src/Router/Write.antt =====
-- The write handler of crates/server/src/router.rs. The decompression is a parameter, and so is what an
-- ingester answers: a status, or nothing if it cannot be reached.
use timelakedb.Base.{
  ℕ, ◌+◌, ◌%◌, ◌^◌, Bool, false, ◌&&◌, Option, none, some, List, [], ◌∷◌, length, leb, ltb, map,
  replicate, if◌then◌else◌, Result, ok, err,
}
use timelakedb.Base.Int.{ℤ, pos}
use timelakedb.Base.Str.{Str, str, str_eq}
use timelakedb.Wal.Bytes.{is_utf8}
use timelakedb.Buffer.Columns.{F64}
use timelakedb.Buffer.Table.{ParsedLine}
use timelakedb.Ingest.Parse.{ParseError, precision_multiplier, parse_lines}
use timelakedb.Router.Shards.{split_inclusive, group_lines}

pub record Target : Type 0 where
  pub id : Str
  pub write_url : Str

-- The counters that a write moves, atomic `u64`s.
pub record RouterStats : Type 0 where
  pub forwarded : ℕ
  pub forward_errors : ℕ
  pub rejected : ℕ

pub record WriteRequest : Type 0 where
  pub db : Option Str
  pub bucket : Option Str
  pub precision : Option Str
  pub content_encoding : Option Str
  pub authorization : Option Str
  pub body : Str

-- One shard on its way to an ingester.
pub record Forward : Type 0 where
  pub url : Str
  pub db : Str
  pub precision : Option Str
  pub authorization : Option Str
  pub body : Str

-- A status is answered, after the shards that were sent.
pub record Written : Type 0 where
  pub sent : List Forward
  pub stats : RouterStats
  pub status : ℕ

abbrev pub answer : RouterStats → ℕ → Written
answer stats status = record { sent = []; stats = stats; status = status }

abbrev pub reject : RouterStats → Written
reject stats = answer (record stats { rejected = (stats.rejected + 1) % 2 ^ 64 }) 400

abbrev pub ahead : Forward → Written → Written
ahead f w = record w { sent = f ∷ w.sent }

-- What is done with an ingester's answer, `rest` being the shards behind.
abbrev pub answered : Forward → RouterStats → Option ℕ → Written → Written
answered f stats none rest = record {
  sent = f ∷ [];
  stats = record stats { forward_errors = (stats.forward_errors + 1) % 2 ^ 64 };
  status = 502;
}
answered f stats (some status) rest =
    if leb 200 status && ltb status 300 then ahead f rest else record {
      sent = f ∷ [];
      stats = record stats { forward_errors = (stats.forward_errors + 1) % 2 ^ 64 };
      status = status;
    }

abbrev pub counted : RouterStats → RouterStats
counted stats = record stats { forwarded = (stats.forwarded + 1) % 2 ^ 64 }

abbrev pub to_lower : ℕ → ℕ
to_lower c = if leb 65 c && leb c 90 then c + 32 else c

abbrev pub is_gzip : Option Str → Bool
is_gzip none = false
is_gzip (some v) = str_eq (map to_lower v) (str "gzip")

-- The first of the two parameters that is there, empty if neither is.
abbrev pub database_of : Option Str → Option Str → Str
database_of (some db) bucket = db
database_of none (some bucket) = bucket
database_of none none = []

abbrev pub multiplier : Option Str → Option ℤ
multiplier none = some (pos 1)
multiplier (some p) = precision_multiplier p

-- The body as it was before a gzip compression.
abbrev pub plain_body : (Str → Option Str) → WriteRequest → Option Str
plain_body gunzip r = if is_gzip r.content_encoding then gunzip r.body else some r.body

abbrev pub forward_of : WriteRequest → Target → Str → Forward
forward_of r t sub = record {
  url = t.write_url;
  db = database_of r.db r.bucket;
  precision = r.precision;
  authorization = r.authorization;
  body = sub;
}

module _ (send : Forward → Option ℕ) where
  -- The loop over the shards and their targets. An empty shard is not sent.
  unfoldable pub forward_shards :
      (Target → Str → Forward) → List Target → List Str → RouterStats → Written
  forward_shards forward [] shards stats = answer stats 204
  forward_shards forward (t ∷ targets) [] stats = answer stats 204
  forward_shards forward (t ∷ targets) ([] ∷ shards) stats =
      forward_shards forward targets shards stats
  forward_shards forward (t ∷ targets) ((b ∷ sub) ∷ shards) stats =
      answered (forward t (b ∷ sub)) stats (send (forward t (b ∷ sub)))
        (forward_shards forward targets shards (counted stats))

  -- What is done with the shards.
  abbrev pub forwarded_shards :
      (Target → Str → Forward) → List Target → Result Str (List Str) → RouterStats → Written
  forwarded_shards forward targets (err line) stats = reject stats
  forwarded_shards forward targets (ok shards) stats = forward_shards forward targets shards stats

  -- What is done with a body that was parsed.
  abbrev pub validated :
      WriteRequest → List Target → Str → Result ParseError (List ParsedLine) → RouterStats → Written
  validated r targets text (err e) stats = reject stats
  validated r targets text (ok rows) stats =
      forwarded_shards (forward_of r) targets
        (group_lines (database_of r.db r.bucket) (length targets) (split_inclusive [] text)
          (replicate (length targets) []))
        stats

  abbrev pub scaled_by :
      (Str → Option F64) → WriteRequest → List Target → Str → Option ℤ → RouterStats → Written
  scaled_by parse_f64 r targets text none stats = reject stats
  scaled_by parse_f64 r targets text (some mult) stats =
      validated r targets text (parse_lines parse_f64 mult (pos 0) text) stats

  abbrev pub decoded :
      (Str → Option F64) → WriteRequest → List Target → Option Str → RouterStats → Written
  decoded parse_f64 r targets none stats = answer stats 400
  decoded parse_f64 r targets (some text) stats =
      if is_utf8 text
      then scaled_by parse_f64 r targets text (multiplier r.precision) stats
      else answer stats 400

  abbrev pub with_targets :
      (Str → Option F64) → (Str → Option Str) → WriteRequest → List Target → RouterStats → Written
  with_targets parse_f64 gunzip r [] stats = answer stats 503
  with_targets parse_f64 gunzip r (t ∷ targets) stats =
      decoded parse_f64 r (t ∷ targets) (plain_body gunzip r) stats

  abbrev pub with_database :
      (Str → Option F64)
      → (Str → Option Str)
      → WriteRequest
      → List Target
      → RouterStats
      → Str
      → Written
  with_database parse_f64 gunzip r targets stats [] = answer stats 400
  with_database parse_f64 gunzip r targets stats (b ∷ db) =
      with_targets parse_f64 gunzip r targets stats

  unfoldable pub write :
      (Str → Option F64) → (Str → Option Str) → WriteRequest → List Target → RouterStats → Written
  unfolding forward_shards
  write parse_f64 gunzip r targets stats =
      with_database parse_f64 gunzip r targets stats (database_of r.db r.bucket)
