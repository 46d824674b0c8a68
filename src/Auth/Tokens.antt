-- ===== src/Auth/Tokens.antt =====
-- The data-plane tokens of `Auth` in crates/auth/src/lib.rs: the index in memory and the file in the
-- object store that the nodes share. The JSON of the records and the hash of bytes are parameters, as is
-- SHA-256. `now` is the time in seconds, `instant` a monotonic clock in nanoseconds. Whether a call of the
-- store succeeds is an argument.
use timelakedb.Base.{
  ℕ, ◌+◌, ◌-◌, ◌%◌, ◌^◌, Bool, true, false, not, Option, none, some, List, [], ◌∷◌, ◌++◌, leb, ◌==◌,
  if◌then◌else◌, Result, ok, err, take,
}
use timelakedb.Base.Str.{Str, str}
use timelakedb.Base.Dict
use timelakedb.Base.Dict.{Dict, str_key}
use timelakedb.Catalog.Manifest.Paths.{padded}
use timelakedb.Base.Text.{trim}
use timelakedb.Auth.Header.{token_from_authorization, credential_is_blank}
use timelakedb.Auth.Base64.{base64url}
use timelakedb.Auth.Token.{
  Scope, DataAuthMode, off, TokenRecord, TokenIdentity, TokenError, invalid, TokenIndex, hash_token,
  from_records, insert_token, records, by_id, verify,
}
use timelakedb.Auth.Guard.{Action, Decision, decide}

pub record Library : Type 0 where
  pub sha256 : Str → Str
  pub to_json : List TokenRecord → Str
  pub from_json : Str → Option (List TokenRecord)
  pub bytes_hash : Str → ℕ

pub record Auth : Type 0 where
  pub tokens : TokenIndex
  pub tokens_loaded_hash : Option ℕ
  pub token_miss_reload_at : Option ℕ
  pub token_reloads_total : ℕ

pub data StoreError : Type 0 where
  unavailable invalid_data : StoreError

-- The object of the tokens, if it is there.
abbrev pub File : Type 0
File = Option Str

unfoldable pub persist_tokens :
    Library → Bool → Auth → File → Result StoreError (Unit {0}) × Auth × File
persist_tokens lib writable auth file =
    let bytes = lib.to_json (records auth.tokens) in
    if writable
    then (ok tt, record auth { tokens_loaded_hash = some (lib.bytes_hash bytes) }, some bytes)
    else (err unavailable, auth, file)

-- The bytes of the object, none if it is not there.
abbrev pub bytes_of : File → Str
bytes_of none = []
bytes_of (some bytes) = bytes

abbrev pub parse_records : Library → Str → Option (List TokenRecord)
parse_records lib [] = some []
parse_records lib (b ∷ bytes) = lib.from_json (b ∷ bytes)

abbrev pub holds : Option ℕ → ℕ → Bool
holds none hash = false
holds (some loaded) hash = loaded == hash

unfoldable pub reload_tokens : Library → Bool → Auth → File → Result StoreError Bool × Auth
reload_tokens lib readable auth file =
    let bytes = bytes_of file in
    let hash = lib.bytes_hash bytes in
    if not readable
    then (err unavailable, auth)
    else if holds auth.tokens_loaded_hash hash
    then (ok false, auth)
    else elim (parse_records lib bytes) [
      | none ↦ (err invalid_data, auth)
      | some found ↦ (
        ok true,
        record auth {
          tokens = from_records found;
          tokens_loaded_hash = some hash;
          token_reloads_total = (auth.token_reloads_total + 1) % 2 ^ 64;
        },
      )
    ]

abbrev pub due : Option ℕ → ℕ → Bool
due none instant = true
due (some at) instant = leb 1000000000 (instant - at)

-- A second at least after the last reload for an unknown token.
unfoldable pub on_miss_reload_due : ℕ → Auth → Bool × Auth
on_miss_reload_due instant auth =
    if due auth.token_miss_reload_at instant
    then (true, record auth { token_miss_reload_at = some instant })
    else (false, auth)

abbrev pub token_prefix : Str
token_prefix = str "tldb_"

-- `raw` is what the random generator filled in.
abbrev pub generate_secret : Str → Str
generate_secret raw = token_prefix ++ base64url raw

abbrev pub new_token :
    Library → Str → ℕ → Str → Scope → List Str → List Str → Option ℕ → Str → TokenRecord
new_token lib secret now description scope databases authorizations expires_at_secs created_by =
    record {
      id = str "tok-" ++ padded 1 now ++ str "-" ++ take 8 (hash_token lib.sha256 secret);
      description = trim description;
      hash = hash_token lib.sha256 secret;
      scope = scope;
      databases = databases;
      authorizations = authorizations;
      created_by = created_by;
      created_at_secs = now;
      expires_at_secs = expires_at_secs;
      revoked = false;
      last_used_secs = none;
    }

-- The token is in the index also if the file cannot be written.
unfoldable pub issue_token :
    Library
    → Bool
    → Str
    → ℕ
    → Str
    → Scope
    → List Str
    → List Str
    → Option ℕ
    → Str
    → Auth
    → File
    → Result StoreError (Str × TokenRecord) × Auth × File
issue_token lib writable raw now description scope databases authorizations expires_at_secs
      created_by auth file =
    let secret = generate_secret raw in
    let r =
      new_token lib secret now description scope databases authorizations expires_at_secs
        created_by in
    let (done, auth', file') =
      persist_tokens lib writable (record auth { tokens = insert_token r auth.tokens }) file in
    elim done [ err e ↦ (err e, auth', file') | ok u ↦ (ok (secret, r), auth', file') ]

abbrev pub revoked_in : Str → TokenRecord → Auth → Auth
revoked_in key r auth = record auth {
  tokens = Dict.insert key (record r { revoked = true }) auth.tokens;
}

unfoldable pub revoke_token :
    Library → Bool → Str → Auth → File → Result StoreError Bool × Auth × File
revoke_token lib writable id auth file = elim (by_id id auth.tokens) [
  | none ↦ (ok false, auth, file)
  | some (key, r) ↦
      let (done, auth', file') = persist_tokens lib writable (revoked_in key r auth) file in
      if r.revoked
      then (ok false, auth, file)
      else elim done [ err e ↦ (err e, auth', file') | ok u ↦ (ok true, auth', file') ]
]

-- The answer behind a reload, `e` being the first one.
abbrev pub answer :
    Library
    → ℕ
    → Str
    → TokenError
    → Result StoreError Bool × Auth
    → Result TokenError TokenIdentity × Auth
answer lib now secret e (ok true, auth) = (verify lib.sha256 auth.tokens secret now, auth)
answer lib now secret e (ok false, auth) = (err e, auth)
answer lib now secret e (err problem, auth) = (err e, auth)

abbrev pub on_unknown :
    Library
    → Bool
    → ℕ
    → Str
    → File
    → TokenError
    → Bool × Auth
    → Result TokenError TokenIdentity × Auth
on_unknown lib readable now secret file e (false, auth) = (err e, auth)
on_unknown lib readable now secret file e (true, auth) =
    answer lib now secret e (reload_tokens lib readable auth file)

-- An unknown token may have been issued elsewhere: the file is read again, once a second.
unfoldable pub verify_token :
    Library → Bool → ℕ → ℕ → Str → Auth → File → Result TokenError TokenIdentity × Auth
verify_token lib readable now instant secret auth file =
    elim (verify lib.sha256 auth.tokens secret now) [
      | ok identity ↦ (ok identity, auth)
      | err e ↦ on_unknown lib readable now secret file e (on_miss_reload_due instant auth)
    ]

-- What a header presents.
unfoldable pub presented :
    Library → Bool → ℕ → ℕ → Str → Auth → File → Option (Result TokenError TokenIdentity) × Auth
presented lib readable now instant header auth file = elim (token_from_authorization header) [
  | some secret ↦
      let (verified, auth') = verify_token lib readable now instant secret auth file in
      (some verified, auth')
  | none ↦ (if credential_is_blank header then none else some (err invalid), auth)
]

unfoldable pub decide_data :
    Library
    → Bool
    → ℕ
    → ℕ
    → DataAuthMode
    → Option Str
    → Action
    → Str
    → Auth
    → File
    → Result TokenError Decision × Auth
decide_data lib readable now instant off authorization action db auth file =
    (decide off none action db, auth)
decide_data lib readable now instant mode none action db auth file =
    (decide mode none action db, auth)
decide_data lib readable now instant mode (some header) action db auth file =
    let (p, auth') = presented lib readable now instant header auth file in
    (decide mode p action db, auth')
