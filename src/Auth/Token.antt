-- ===== src/Auth/Token.antt =====
-- The tokens of crates/auth/src/token.rs. SHA-256 is a parameter.
use timelakedb.Base.{
  ℕ, Bool, true, false, not, ◌||◌, ◌&&◌, Option, none, some, List, [], ◌∷◌, ltb, find,
  if◌then◌else◌, Result, ok, err, map,
}
use timelakedb.Base.Str.{Str, str, str_eq, str_ltb}
use timelakedb.Base.Sort.{sort_by}
use timelakedb.Base.Dict
use timelakedb.Base.Dict.{Dict, str_key}
use timelakedb.Audit.Record.{hex}
use timelakedb.Base.Text.{trim}
use timelakedb.Auth.Header.{to_ascii_lowercase}

pub data Scope : Type 0 where
  read write read_write : Scope

unfoldable pub parse_scope : Str → Option Scope
parse_scope s =
    if str_eq s (str "read")
    then some read
    else if str_eq s (str "write")
    then some write
    else if str_eq s (str "read_write") || (str_eq s (str "readwrite") || str_eq s (str "rw"))
    then some read_write
    else none

abbrev pub scope_as_str : Scope → Str
scope_as_str read = str "read"
scope_as_str write = str "write"
scope_as_str read_write = str "read_write"

abbrev pub allows_read : Scope → Bool
allows_read read = true
allows_read write = false
allows_read read_write = true

abbrev pub allows_write : Scope → Bool
allows_write read = false
allows_write write = true
allows_write read_write = true

pub data DataAuthMode : Type 0 where
  off optional required : DataAuthMode

unfoldable pub parse_mode : Str → Option DataAuthMode
unfolding trim
parse_mode s =
    let word = map to_ascii_lowercase (trim s) in
    if str_eq word (str "off") || str_eq word []
    then some off
    else if str_eq word (str "optional") || str_eq word (str "want")
    then some optional
    else if str_eq word (str "required") || (str_eq word (str "require") || str_eq word (str "on"))
    then some required
    else none

pub record TokenRecord : Type 0 where
  pub id : Str
  pub description : Str
  pub hash : Str
  pub scope : Scope
  pub databases : List Str
  pub authorizations : List Str
  pub created_by : Str
  pub created_at_secs : ℕ
  pub expires_at_secs : Option ℕ
  pub revoked : Bool
  pub last_used_secs : Option ℕ

abbrev pub unexpired : Option ℕ → ℕ → Bool
unexpired none now = true
unexpired (some e) now = ltb now e

unfoldable pub is_valid_at : TokenRecord → ℕ → Bool
is_valid_at r now = not r.revoked && unexpired r.expires_at_secs now

pub record TokenIdentity : Type 0 where
  pub id : Str
  pub description : Str
  pub scope : Scope
  pub databases : List Str
  pub authorizations : List Str

pub data TokenError : Type 0 where
  missing invalid forbidden : TokenError

-- Hexadecimal SHA-256.
abbrev pub hash_token : (Str → Str) → Str → Str
hash_token sha256 secret = hex (sha256 secret)

-- The tokens by their digests.
abbrev pub TokenIndex : Type 0
TokenIndex = Dict Str TokenRecord

abbrev pub collect : TokenIndex → List TokenRecord → TokenIndex
collect index [] = index
collect index (r ∷ records) = collect (Dict.insert r.hash r index) records

unfoldable pub from_records : List TokenRecord → TokenIndex
from_records records = collect [] records

abbrev pub insert_token : TokenRecord → TokenIndex → TokenIndex
insert_token r index = Dict.insert r.hash r index

abbrev pub by_hash : Str × TokenRecord → Str × TokenRecord → Bool
by_hash a b = str_ltb a.0 b.0

-- In the order of the digests.
unfoldable pub records : TokenIndex → List TokenRecord
records index = map (λ e. e.1) (sort_by by_hash index)

-- The first entry with this id, in the order of the digests.
unfoldable pub by_id : Str → TokenIndex → Option (Str × TokenRecord)
by_id id index = find (λ e. str_eq e.1.id id) (sort_by by_hash index)

abbrev pub identity_of : TokenRecord → TokenIdentity
identity_of r = record {
  id = r.id;
  description = r.description;
  scope = r.scope;
  databases = r.databases;
  authorizations = r.authorizations;
}

unfoldable pub verify : (Str → Str) → TokenIndex → Str → ℕ → Result TokenError TokenIdentity
verify sha256 index secret now =
    let digest = hash_token sha256 secret in
    elim (Dict.get digest index) [
      | none ↦ err invalid
      | some r ↦
          if str_eq r.hash digest && is_valid_at r now then ok (identity_of r) else err invalid
    ]
