-- ===== src/Auth/Sessions.antt =====
-- Principals, logins and sessions of `Auth` in crates/auth/src/lib.rs. Argon2 is a parameter, random strings
-- are arguments, `instant` is a monotonic clock in nanoseconds and `now` the time in seconds.
use timelakedb.Base.{
  ℕ, suc, ◌+◌, ◌-◌, ◌*◌, ◌%◌, ◌^◌, min, Bool, false, not, ◌||◌, ◌&&◌, Option, none, some, [], ◌∷◌,
  leb, ltb, ◌==◌, if◌then◌else◌, Result, ok, err, retain,
}
use timelakedb.Base.Str.{Str, str, str_eq}
use timelakedb.Base.Dict
use timelakedb.Base.Dict.{Dict, str_key}
use timelakedb.Auth.Header.{eq_ignore_ascii_case}

pub data Role : Type 0 where
  viewer operator admin : Role

pub record Principal : Type 0 where
  pub username : Str
  pub role : Role
  pub password_hash : Str
  pub must_change_password : Bool
  pub created_at_secs : ℕ
  pub last_login_secs : Option ℕ
  pub is_default_credential : Bool

pub record SessionInfo : Type 0 where
  pub username : Str
  pub role : Role
  pub must_change_password : Bool
  pub csrf : Str
  pub id : Str

pub record Session : Type 0 where
  pub info : SessionInfo
  pub created : ℕ
  pub last_seen : ℕ

pub record Failures : Type 0 where
  pub count : ℕ
  pub last : ℕ

pub record Admins : Type 0 where
  pub principals : Dict Str Principal
  pub sessions : Dict Str Session
  pub failures : Dict Str Failures
  pub logins_total : ℕ
  pub login_failures_total : ℕ

-- Argon2: the hash of a password with a salt, and the test of a password against a hash, which no
-- password passes if the hash cannot be read.
pub record Argon2 : Type 0 where
  pub hash_password : Str → Str → Option Str
  pub verify_password : Str → Str → Bool

pub data LoginError : Type 0 where
  invalid_login : LoginError
  rate_limited : ℕ → LoginError

abbrev pub second : ℕ
second = 1000000000

abbrev pub session_idle : ℕ
session_idle = 30 * 60 * second

abbrev pub session_absolute : ℕ
session_absolute = 12 * 60 * 60 * second

abbrev pub free_attempts : ℕ
free_attempts = 3

abbrev pub max_backoff : ℕ
max_backoff = 300 * second

-- The wait after this many failures.
abbrev pub wait_for : ℕ → ℕ
wait_for count = min (2 ^ min (count - free_attempts - 1) 8 * second) max_backoff

unfoldable pub backoff : Str → ℕ → Admins → Option ℕ
backoff username instant a = elim (Dict.get username a.failures) [
  | none ↦ none
  | some f ↦
      let since = instant - f.last in
      if leb f.count free_attempts
      then none
      else if ltb since (wait_for f.count)
      then some (wait_for f.count - since)
      else none
]

abbrev pub failed_again : ℕ → Failures → Failures
failed_again instant f = record { count = (f.count + 1) % 2 ^ 32; last = instant }

abbrev pub checked : Argon2 → Str → Option Principal → Option Principal
checked argon password none = none
checked argon password (some p) =
    if argon.verify_password p.password_hash password then some p else none

abbrev pub new_session : Str → Str → ℕ → Principal → Session
new_session csrf id instant p = record {
  info = record {
    username = p.username;
    role = p.role;
    must_change_password = p.must_change_password;
    csrf = csrf;
    id = id;
  };
  created = instant;
  last_seen = instant;
}

abbrev pub logged_in : Str → ℕ → Dict Str Principal → Dict Str Principal
logged_in username now principals = elim (Dict.get username principals) [
  | none ↦ principals
  | some p ↦ Dict.insert username (record p { last_login_secs = some now }) principals
]

-- Whether the principals can be written makes no difference to a login.
unfoldable pub login :
    Argon2
    → Str
    → Str
    → Str
    → ℕ
    → ℕ
    → Str
    → Str
    → Admins
    → Result LoginError (Str × SessionInfo) × Admins
login argon token csrf id instant now username password a = elim (backoff username instant a) [
  | some wait ↦ (
    err (rate_limited wait),
    record a { login_failures_total = (a.login_failures_total + 1) % 2 ^ 64 },
  )
  | none ↦ elim (checked argon password (Dict.get username a.principals)) [
    | none ↦ (
      err invalid_login,
      record a {
        failures =
            Dict.update username (record { count = 0; last = instant }) (failed_again instant)
              a.failures;
        login_failures_total = (a.login_failures_total + 1) % 2 ^ 64;
      },
    )
    | some p ↦
        let s = new_session csrf id instant p in
        (
          ok (token, s.info),
          record a {
            principals = logged_in username now a.principals;
            sessions = Dict.insert token s a.sessions;
            failures = Dict.remove username a.failures;
            logins_total = (a.logins_total + 1) % 2 ^ 64;
          },
        )
  ]
]

-- A session that has not been used for too long, or that is too old.
abbrev pub expired : ℕ → Session → Bool
expired instant s =
    ltb session_absolute (instant - s.created) || ltb session_idle (instant - s.last_seen)

unfoldable pub session : Str → ℕ → Admins → Option SessionInfo × Admins
session token instant a = elim (Dict.get token a.sessions) [
  | none ↦ (none, a)
  | some s ↦
      if expired instant s then (none, record a { sessions = Dict.remove token a.sessions }) else (
        some s.info,
        record a { sessions = Dict.insert token (record s { last_seen = instant }) a.sessions },
      )
]

unfoldable pub logout : Str → Admins → Option SessionInfo × Admins
logout token a = elim (Dict.get token a.sessions) [
  | none ↦ (none, a)
  | some s ↦ (some s.info, record a { sessions = Dict.remove token a.sessions })
]

pub data PasswordError : Type 0 where
  too_short is_default_or_name not_new no_such_principal wrong_password not_hashed not_persisted :
      PasswordError

abbrev pub min_password_len : ℕ
min_password_len = 8

-- `chars().count()`: the bytes that begin a character.
unfoldable pub chars_count : Str → ℕ
chars_count [] = 0
chars_count (b ∷ s) = let n = chars_count s in if leb 0x80 b && leb b 0xbf then n else suc n

-- `trim_end_matches(['\r', '\n'])`
unfoldable pub trim_line_end : Str → Str
trim_line_end [] = []
trim_line_end (b ∷ s) =
    let rest = trim_line_end s in
    elim rest [ [] ↦ if b == 13 || b == 10 then [] else b ∷ [] | c ∷ t ↦ b ∷ c ∷ t ]

abbrev pub refusal : Str → Str → Str → Option PasswordError
refusal username old new =
    if ltb (chars_count new) min_password_len
    then some too_short
    else if str_eq new (str "admin") || eq_ignore_ascii_case new username
    then some is_default_or_name
    else if str_eq new old
    then some not_new
    else none

-- Sessions are dropped only once the principals are written.
abbrev pub with_hash :
    Bool → Str → Admins → Principal → Option Str → Result PasswordError (Unit {0}) × Admins
with_hash writable username a p none = (err not_hashed, a)
with_hash writable username a p (some hash) =
    let changed =
      Dict.insert username
        (record p {
          password_hash = hash;
          must_change_password = false;
          is_default_credential = false;
        })
        a.principals in
    if writable
    then (
      ok tt,
      record a {
        principals = changed;
        sessions = retain (λ e. not (str_eq e.1.info.username username)) a.sessions;
      },
    )
    else (err not_persisted, record a { principals = changed })

abbrev pub of_principal :
    Argon2
    → Str
    → Bool
    → Str
    → Str
    → Str
    → Admins
    → Option Principal
    → Result PasswordError (Unit {0}) × Admins
of_principal argon salt writable username old new a none = (err no_such_principal, a)
of_principal argon salt writable username old new a (some p) =
    if not (argon.verify_password p.password_hash old)
    then (err wrong_password, a)
    else with_hash writable username a p (argon.hash_password salt new)

abbrev pub unless_refused :
    Admins
    → Option PasswordError
    → Result PasswordError (Unit {0}) × Admins
    → Result PasswordError (Unit {0}) × Admins
unless_refused a (some e) done = (err e, a)
unless_refused a none done = done

unfoldable pub change_password :
    Argon2 → Str → Bool → Str → Str → Str → Admins → Result PasswordError (Unit {0}) × Admins
change_password argon salt writable username old new a =
    let clean = trim_line_end new in
    unless_refused a (refusal username old clean)
      (of_principal argon salt writable username old clean a (Dict.get username a.principals))
