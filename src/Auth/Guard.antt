-- ===== src/Auth/Guard.antt =====
-- `decide` of crates/auth/src/guard.rs.
use timelakedb.Base.{
  Bool, true, not, ◌||◌, Option, none, some, List, [], ◌∷◌, any, if◌then◌else◌, Result, ok, err,
}
use timelakedb.Base.Str.{Str, str_eq}
use timelakedb.Auth.Token.{
  DataAuthMode, off, optional, required, TokenIdentity, TokenError, missing, forbidden, Scope,
  allows_read, allows_write,
}

pub data Action : Type 0 where
  reading writing : Action

pub record Decision : Type 0 where
  pub identity : Option TokenIdentity
  pub granted : Option (List Str)

abbrev pub anonymous : Decision
anonymous = record { identity = none; granted = none }

unfoldable pub allows_database : List Str → Str → Bool
allows_database [] database = true
allows_database (d ∷ databases) database = any (λ name. str_eq name database) (d ∷ databases)

abbrev pub permits : Action → Scope → Bool
permits reading scope = allows_read scope
permits writing scope = allows_write scope

abbrev pub granted_to : List Str → Option (List Str)
granted_to [] = none
granted_to (a ∷ authorizations) = some (a ∷ authorizations)

-- With a verified credential.
unfoldable pub decide_identity : TokenIdentity → Action → Str → Result TokenError Decision
decide_identity identity action database =
    if not (permits action identity.scope) || not (allows_database identity.databases database)
    then err forbidden
    else ok (record { identity = some identity; granted = granted_to identity.authorizations })

unfoldable pub decide :
    DataAuthMode
    → Option (Result TokenError TokenIdentity)
    → Action
    → Str
    → Result TokenError Decision
unfolding decide_identity
decide off presented action database = ok anonymous
decide mode (some (ok identity)) action database = decide_identity identity action database
decide mode (some (err e)) action database = err e
decide optional none action database = ok anonymous
decide required none action database = err missing
