-- ===== src/Auth/Header.antt =====
-- `token_from_authorization` and `credential_is_blank` of crates/auth/src/token.rs, and the string
-- operations they use.
use timelakedb.Base.{
  ℕ, ◌+◌, Bool, true, false, not, ◌||◌, ◌&&◌, Option, none, some, [], ◌∷◌, leb, ◌==◌, if◌then◌else◌,
  map,
}
use timelakedb.Base.Options.{◌>>=◌}
use timelakedb.Base.Text.{trim}
use timelakedb.Base.Str.{Str, str, str_eq}
use timelakedb.Wal.Bytes.{is_utf8}
use timelakedb.Auth.Base64.{base64_decode}

abbrev pub to_ascii_lowercase : ℕ → ℕ
to_ascii_lowercase c = if leb 65 c && leb c 90 then c + 32 else c

abbrev pub eq_ignore_ascii_case : Str → Str → Bool
eq_ignore_ascii_case s t = str_eq (map to_ascii_lowercase s) (map to_ascii_lowercase t)

-- `split_once` at an ASCII character.
unfoldable pub split_once : ℕ → Str → Option (Str × Str)
split_once c [] = none
split_once c (b ∷ s) =
    let rest = split_once c s in
    if b == c then some ([], s) else elim rest [ none ↦ none | some (l, r) ↦ some (b ∷ l, r) ]

-- What a `Basic` credential holds behind the user's name.
unfoldable pub basic_password : Str → Option Str
unfolding base64_decode split_once
basic_password s = do
  decoded ← base64_decode s
  text ← (if is_utf8 decoded then some decoded else none)
  (user, password) ← split_once 58 text
  some password

abbrev pub nonempty : Str → Option Str
nonempty [] = none
nonempty (b ∷ s) = some (b ∷ s)

abbrev pub is_bearer_or_token : Str → Bool
is_bearer_or_token scheme =
    eq_ignore_ascii_case scheme (str "bearer") || eq_ignore_ascii_case scheme (str "token")

abbrev pub is_basic : Str → Bool
is_basic scheme = eq_ignore_ascii_case scheme (str "basic")

unfoldable pub credential : Str → Str → Option Str
unfolding basic_password
credential scheme [] = none
credential scheme (b ∷ rest) =
    if is_bearer_or_token scheme
    then some (b ∷ rest)
    else if is_basic scheme
    then (do password ← basic_password (b ∷ rest); nonempty password)
    else none

unfoldable pub token_from_authorization : Str → Option Str
unfolding split_once trim credential
token_from_authorization header = do
  (scheme, rest) ← split_once 32 header
  credential scheme (trim rest)

abbrev pub is_empty : Str → Bool
is_empty [] = true
is_empty (b ∷ s) = false

abbrev pub or_whole : Str → Option (Str × Str) → Str × Str
or_whole header none = (header, [])
or_whole header (some p) = p

abbrev pub blank_password : Option Str → Bool
blank_password none = false
blank_password (some password) = is_empty password

unfoldable pub blank_credential : Str → Str → Bool
unfolding basic_password
blank_credential scheme rest =
    if not (is_bearer_or_token scheme) && not (is_basic scheme)
    then false
    else if is_empty rest
    then true
    else if is_basic scheme
    then blank_password (basic_password rest)
    else false

unfoldable pub credential_is_blank : Str → Bool
unfolding split_once trim blank_credential
credential_is_blank header =
    let (scheme, rest) = or_whole header (split_once 32 header) in
    blank_credential scheme (trim rest)
