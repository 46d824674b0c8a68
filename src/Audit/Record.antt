-- ===== src/Audit/Record.antt =====
-- The records of crates/audit/src/lib.rs, their hashes and `verify_records`. SHA-256 and the JSON of a
-- record are parameters; a JSON value is its text. Sequence numbers stay below 2^64.
use timelakedb.Base.{
  ℕ, suc, ◌/◌, ◌%◌, ◌+◌, ◌≡◌, ◌≢◌, false, not, ◌||◌, Option, none, some, List, [], ◌∷◌, ◌++◌, ltb,
  ◌==◌, if◌then◌else◌, Result, ok, err, any,
}
use timelakedb.Base.Str.{Str, str, str_eq}
use timelakedb.Visibility.Blank.{is_blank}

pub record NewRecord : Type 0 where
  pub principal : Str
  pub role : Str
  pub session : Option Str
  pub source : Option Str
  pub request_id : Option Str
  pub action : Str
  pub target : Option Str
  pub before : Option Str
  pub after : Option Str
  pub outcome : Str

-- What a hash is computed over: a record without its `hash`.
pub record HashInput : Type 0 where
  pub seq : ℕ
  pub ts : Str
  pub node : Str
  pub principal : Str
  pub role : Str
  pub session : Option Str
  pub source : Option Str
  pub request_id : Option Str
  pub action : Str
  pub target : Option Str
  pub before : Option Str
  pub after : Option Str
  pub outcome : Str
  pub prev_hash : Str

pub record AuditRecord : Type 0 where
  pub input : HashInput
  pub hash : Str

-- serde_json's texts and SHA-256.
pub record Formats : Type 0 where
  pub input_json : HashInput → Str
  pub to_json : AuditRecord → Str
  pub from_json : Str → Option AuditRecord
  pub sha256 : Str → Str

-- The JSON value `null` is read back as an absent one, so a record that can be read back has none.
abbrev pub NotNull : Option Str → Type 0
NotNull v = v ≢ some (str "null")

abbrev pub IsReadable : AuditRecord → Type 0
IsReadable r = NotNull r.input.before × NotNull r.input.after

-- What the trail relies on: a record's text is one line that is not blank and reads back.
pub record Lines (fmt : Formats) : Type 0 where
  pub one_line : (r : AuditRecord) → any (λ b. b == 10 || b == 13) (fmt.to_json r) ≡ false
  pub not_blank : (r : AuditRecord) → is_blank (fmt.to_json r) ≡ false
  pub read_back : (r : AuditRecord) → IsReadable r → fmt.from_json (fmt.to_json r) ≡ some r

abbrev pub genesis : Str
genesis = str "sha256:genesis"

-- A digit of `{b:02x}`.
abbrev pub hex_digit : ℕ → ℕ
hex_digit n = if ltb n 10 then 48 + n else 87 + n

unfoldable pub hex : Str → Str
hex [] = []
hex (b ∷ s) = hex_digit (b / 16) ∷ hex_digit (b % 16) ∷ hex s

-- The bytes that are hashed.
abbrev pub hashed_bytes : Formats → HashInput → Str
hashed_bytes fmt i = fmt.input_json i ++ i.prev_hash

unfoldable pub compute_hash : Formats → HashInput → Str
compute_hash fmt i = str "sha256:" ++ hex (fmt.sha256 (hashed_bytes fmt i))

pub data Reason : Type 0 where
  expected_seq : ℕ → Reason
  prev_mismatch edited : Reason

pub record AuditBreak : Type 0 where
  pub seq : ℕ
  pub reason : Reason

-- A number other than the expected one.
unfoldable pub off_sequence : Option ℕ → ℕ → Option ℕ
off_sequence none seq = none
off_sequence (some want) seq = if seq == want then none else some want

-- The test of one record behind `prev`.
unfoldable pub check_link : Formats → Str → Option ℕ → AuditRecord → Result AuditBreak (Unit {0})
check_link fmt prev want r = elim (off_sequence want r.input.seq) [
  | some w ↦ err (record { seq = r.input.seq; reason = expected_seq w })
  | none ↦
      if not (str_eq r.input.prev_hash prev)
      then err (record { seq = r.input.seq; reason = prev_mismatch })
      else if not (str_eq (compute_hash fmt r.input) r.hash)
      then err (record { seq = r.input.seq; reason = edited })
      else ok tt
]

unfoldable pub verify_from :
    Formats → Str → Option ℕ → List AuditRecord → Result AuditBreak (Unit {0})
verify_from fmt prev want [] = ok tt
verify_from fmt prev want (r ∷ records) =
    let rest = verify_from fmt r.hash (some (suc r.input.seq)) records in
    elim (check_link fmt prev want r) [ err b ↦ err b | ok u ↦ rest ]

unfoldable pub verify_records : Formats → List AuditRecord → Result AuditBreak (Unit {0})
verify_records fmt records = verify_from fmt genesis none records
