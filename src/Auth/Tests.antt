-- ===== src/Auth/Tests.antt =====
-- The theorems on tokens at concrete records and headers.
use timelakedb.Base.{
  ℕ, zero, suc, ◌≡◌, ◌≢◌, ◌↔◌, refl, sym, ap, ◌∙◌, Bool, true, false, Option, none, some, List, [],
  ◌∷◌, ok, err, arith,
}
use mathlib.Core.List.{append-nil}
use timelakedb.Base.Str.{Str, str, str_eq}
use timelakedb.Base.Sort.{sort_by, insert_by}
use timelakedb.Base.Codec.{Code, number, text, list, option, both, made_of}
use timelakedb.Base.Dict
use timelakedb.Audit.Record.{hex}
use timelakedb.Wal.Bytes.{utf8_from, utf8_next}
use timelakedb.Base.Text.{trim, drop_white, behind_white, behind_white_back}
use timelakedb.Auth.Header.{token_from_authorization, split_once, credential, basic_password}
use timelakedb.Auth.Base64.{base64url, base64_decode, decode_chunks, val}
use timelakedb.Auth.Token.{
  Scope, read, write, read_write, TokenRecord, invalid, required, hash_token, by_id, identity_of,
  records,
}
use timelakedb.Auth.Guard.{reading}
use timelakedb.Auth.Tokens.{
  Library, Auth, reload_tokens, revoke_token, verify_token, decide_data, persist_tokens,
}
use timelakedb.Auth.Admission.{Admits, decide_data-Admits}
use timelakedb.Auth.Revocation.{ReadsBack, Check, after_checks, revoke_token-reload_tokens}
use timelakedb.Auth.Sessions.{
  Argon2, Principal, Session, SessionInfo, Admins, admin, session, change_password, chars_count,
  trim_line_end,
}
use timelakedb.Auth.Rotation.{change_password-session}
use timelakedb.Auth.Roundtrip.{base64_decode-base64url}

abbrev scope_number : Scope → ℕ
scope_number read = 0
scope_number write = 1
scope_number read_write = 2

abbrev number_scope : ℕ → Scope
number_scope zero = read
number_scope (suc zero) = write
number_scope (suc (suc n)) = read_write

scope_back : (s : Scope) → number_scope (scope_number s) ≡ s
scope_back read = refl
scope_back write = refl
scope_back read_write = refl

abbrev bool_number : Bool → ℕ
bool_number false = 0
bool_number true = 1

abbrev number_bool : ℕ → Bool
number_bool zero = false
number_bool (suc n) = true

bool_back : (b : Bool) → number_bool (bool_number b) ≡ b
bool_back false = refl
bool_back true = refl

abbrev scope_code : Code Scope
scope_code = made_of number number_scope scope_number scope_back

abbrev bool_code : Code Bool
bool_code = made_of number number_bool bool_number bool_back

abbrev Parts : Type 0
Parts =
    ((Str × (Str × Str)) × (Scope × (List Str × List Str)))
    × ((Str × ℕ) × (Option ℕ × (Bool × Option ℕ)))

abbrev make_token : Parts → TokenRecord
make_token
      (
        ((id, (description, hash)), (scope, (databases, authorizations))),
        ((by, at), (expires, (revoked, used))),
      ) =
    record {
      id = id;
      description = description;
      hash = hash;
      scope = scope;
      databases = databases;
      authorizations = authorizations;
      created_by = by;
      created_at_secs = at;
      expires_at_secs = expires;
      revoked = revoked;
      last_used_secs = used;
    }

abbrev token_parts : TokenRecord → Parts
token_parts r = (
  ((r.id, (r.description, r.hash)), (r.scope, (r.databases, r.authorizations))),
  ((r.created_by, r.created_at_secs), (r.expires_at_secs, (r.revoked, r.last_used_secs))),
)

abbrev token_code : Code TokenRecord
token_code =
    made_of
      (both (both (both text (both text text)) (both scope_code (both (list text) (list text))))
        (both (both text number) (both (option number) (both bool_code (option number)))))
      make_token token_parts (λ r. refl)

abbrev read_tokens : Str → Option (List TokenRecord)
read_tokens [] = none
read_tokens (b ∷ s) = some ((list token_code).get s).0

-- A digest that leaves a secret as it is.
abbrev lib : Library
lib = record {
  sha256 = λ s. s;
  to_json = λ rs. 91 ∷ (list token_code).put rs;
  from_json = read_tokens;
  bytes_hash = λ s. 0;
}

lib-ReadsBack : ReadsBack lib
lib-ReadsBack = record {
  read_back = λ rs.
      ap (λ (p : List TokenRecord × Str). some p.0)
        (ap (list token_code).get (sym (append-nil ((list token_code).put rs)))
          ∙ (list token_code).get-put rs []);
  not_empty = λ rs h. cc h;
}

abbrev secret : Str
secret = str "k"

abbrev entry : TokenRecord
entry = record {
  id = str "tok-1";
  description = str "grafana";
  hash = str "6b";
  scope = read;
  databases = str "db" ∷ [];
  authorizations = [];
  created_by = str "admin";
  created_at_secs = 1;
  expires_at_secs = some 100;
  revoked = false;
  last_used_secs = none;
}

-- A node that has read the file, and one that has not.
abbrev node : Auth
node = record {
  tokens = (str "6b", entry) ∷ [];
  tokens_loaded_hash = some 0;
  token_miss_reload_at = none;
  token_reloads_total = 0;
}

abbrev other : Auth
other = record {
  tokens = [];
  tokens_loaded_hash = none;
  token_miss_reload_at = none;
  token_reloads_total = 0;
}

found : by_id (str "tok-1") node.tokens ≡ some (hash_token lib.sha256 secret, entry)
unfolding by_id sort_by insert_by str_eq hex
found = refl

reread :
    (reload_tokens lib true other (revoke_token lib true (str "tok-1") node none).2).0 ≡ ok true
unfolding revoke_token persist_tokens reload_tokens by_id records sort_by insert_by str_eq
reread = refl

-- Another token is asked for first, a second time after more than a second.
abbrev since : List Check
since = (true, 20, 0, str "x") ∷ (false, 30, 1500000000, str "y") ∷ []

revoke_token-reload_tokens_example :
    let file' = (revoke_token lib true (str "tok-1") node none).2 in
    let b' = after_checks lib since (reload_tokens lib true other file').1 file' in
    (verify_token lib true 50 3000000000 secret b' file').0 ≡ err invalid
revoke_token-reload_tokens_example =
    revoke_token-reload_tokens lib (str "tok-1") secret entry node other none since true 50
      3000000000 lib-ReadsBack (refl, tt, tt) found refl reread

decide_data-Admits_example :
    ((decide_data lib true 50 0 required (some (str "Token k")) reading (str "db") node none).0
      ≡ ok (record { identity = some (identity_of entry); granted = none }))
    ↔ Admits lib
        (decide_data lib true 50 0 required
          (some (str "Token k"))
          reading
          (str "db")
          node
          none).1.tokens
        50
        (str "Token k")
        reading
        (str "db")
        (record { identity = some (identity_of entry); granted = none })
decide_data-Admits_example =
    decide_data-Admits lib true 50 0 (str "Token k") reading (str "db") node none
      (record { identity = some (identity_of entry); granted = none })

base64_decode-base64url_example : base64_decode (base64url (str "u:pw")) ≡ some (str "u:pw")
base64_decode-base64url_example =
    base64_decode-base64url (str "u:pw")
      (omega arith, (omega arith, (omega arith, (omega arith, tt))))

-- A Basic credential's password is the token.
basic : token_from_authorization (str "Basic dXNlcjpwYXNz") ≡ some (str "pass")
unfolding token_from_authorization split_once trim drop_white behind_white behind_white_back
    credential basic_password base64_decode decode_chunks val utf8_from utf8_next str_eq
basic = refl

-- A revocation that could not be written is not written by a second call either.
not_written_again :
    (revoke_token lib true (str "tok-1") (revoke_token lib false (str "tok-1") node none).1 none).2
    ≡ none
unfolding revoke_token persist_tokens by_id records sort_by insert_by str_eq Dict.insert
not_written_again = refl

abbrev plain : Argon2
plain = record { hash_password = λ salt password. some password; verify_password = str_eq }

abbrev person : Str → Principal
person name = record {
  username = name;
  role = admin;
  password_hash = str "old";
  must_change_password = true;
  created_at_secs = 1;
  last_login_secs = none;
  is_default_credential = false;
}

abbrev seen : Str → SessionInfo
seen name = record {
  username = name;
  role = admin;
  must_change_password = true;
  csrf = str "c";
  id = str "i";
}

abbrev session_of : Str → Session
session_of name = record { info = seen name; created = 1; last_seen = 1 }

abbrev before : Admins
before = record {
  principals = (str "ann", person (str "ann")) ∷ (str "bob", person (str "bob")) ∷ [];
  sessions = (str "t1", session_of (str "ann")) ∷ (str "t2", session_of (str "bob")) ∷ [];
  failures = [];
  logins_total = 2;
  login_failures_total = 0;
}

abbrev after : Admins
after = record before {
  principals =
      (
        str "ann",
        record (person (str "ann")) {
          password_hash = str "new-secret";
          must_change_password = false;
        },
      )
      ∷ (str "bob", person (str "bob"))
      ∷ [];
  sessions = (str "t2", session_of (str "bob")) ∷ [];
}

changed :
    change_password plain (str "salt") true (str "ann") (str "old") (str "new-secret") before
    ≡ (ok tt, after)
unfolding change_password chars_count trim_line_end Dict.get Dict.insert str_eq
changed = refl

still_open : (session (str "t2") 5 after).0 ≡ some (seen (str "bob"))
unfolding session Dict.get str_eq
still_open = refl

change_password-session_example : str "bob" ≢ str "ann"
change_password-session_example =
    change_password-session plain (str "salt") true (str "ann") (str "old") (str "new-secret")
      (str "t2") 5 before after (seen (str "bob")) changed still_open
