-- ===== src/Auth/Rotation.antt =====
-- What a change of password in crates/auth/src/lib.rs does to the sessions.
use timelakedb.Base.{
  ℕ, ◌≡◌, ◌≢◌, refl, sym, ◌∙◌, ap, subst, inl, inr, Bool, not, Option, none, some, [], ◌∷◌, if_elim,
  Result, ok, err, retain, All, arith, Bool-cases, Option-cases,
}
use timelakedb.Base.Str.{Str, str_eq, str_eq_iff}
use timelakedb.Base.Dict
use timelakedb.Base.Dict.{Dict, str_key}
use timelakedb.Auth.Sessions.{
  Admins, Session, SessionInfo, Argon2, PasswordError, Principal, session, expired, change_password,
  refusal, with_hash, of_principal, unless_refused, trim_line_end,
}

-- No session of this user.
abbrev NoneOf : Str → Dict Str Session → Type 0
NoneOf username sessions = All (λ e. e.1.info.username ≢ username) sessions

retain-NoneOf :
    (username : Str) (l : Dict Str Session)
    → NoneOf username (retain (λ e. not (str_eq e.1.info.username username)) l)
retain-NoneOf username [] = tt
retain-NoneOf username (e ∷ l) =
    if_elim (NoneOf username) (not (str_eq e.1.info.username username))
      (λ h. (
        (λ k. ground (arith, (str_eq_iff e.1.info.username username).1 k)),
        retain-NoneOf username l,
      ))
      (λ h. retain-NoneOf username l)

get-NoneOf :
    (username token : Str) (l : Dict Str Session) (s : Session)
    → NoneOf username l
    → Dict.get token l ≡ some s
    → s.info.username ≢ username
unfolding Dict.get
get-NoneOf username token [] s h e = absurd (cc e)
get-NoneOf username token ((j, t) ∷ l) s h e = elim (Bool-cases (str_eq j token)) [
  | inl f ↦
      let found : ◌≡◌ {A = Option Session} (some t) (some s) = rw f at e in
      let same : t ≡ s = cc found in (λ k. h.0 (ap (λ x. x.info.username) same ∙ k))
  | inr f ↦ get-NoneOf username token l s h.1 (rw f at e)
]

-- A result that is no error has no session of this user.
abbrev Done : Str → Result PasswordError (Unit {0}) × Admins → Type 0
Done username (ok u, a) = NoneOf username a.sessions
Done username (err e, a) = Unit

with_hash-Done :
    (writable : Bool) (username : Str) (a : Admins) (p : Principal) (hash : Option Str)
    → Done username (with_hash writable username a p hash)
with_hash-Done writable username a p none = tt
with_hash-Done writable username a p (some hash) =
    if_elim (Done username) writable (λ w. retain-NoneOf username a.sessions) (λ w. tt)

of_principal-Done :
    (argon : Argon2) (salt : Str) (writable : Bool) (username old new : Str) (a : Admins)
    (p : Option Principal)
    → Done username (of_principal argon salt writable username old new a p)
of_principal-Done argon salt writable username old new a none = tt
of_principal-Done argon salt writable username old new a (some p) =
    if_elim (Done username) (not (argon.verify_password p.password_hash old)) (λ f. tt)
      (λ f. with_hash-Done writable username a p (argon.hash_password salt new))

unless_refused-Done :
    (username : Str) (a : Admins) (e : Option PasswordError)
    (done : Result PasswordError (Unit {0}) × Admins)
    → Done username done
    → Done username (unless_refused a e done)
unless_refused-Done username a (some e) done h = tt
unless_refused-Done username a none done h = h

change_password-Done :
    (argon : Argon2) (salt : Str) (writable : Bool) (username old new : Str) (a : Admins)
    → Done username (change_password argon salt writable username old new a)
unfolding change_password
change_password-Done argon salt writable username old new a =
    unless_refused-Done username a (refusal username old (trim_line_end new)) _ (
      of_principal-Done argon salt writable username old (trim_line_end new) a
        (Dict.get username a.principals))

absent : (i : SessionInfo) → ◌≢◌ {A = Option SessionInfo} none (some i)
absent i h = cc h

-- Behind a change of password that succeeds, no token of a session that the user had opens one, at any time.
pub change_password-session :
    (argon : Argon2) (salt : Str) (writable : Bool) (username old new token : Str) (instant : ℕ)
    (a m : Admins) (i : SessionInfo)
    → change_password argon salt writable username old new a ≡ (ok tt, m)
    → (session token instant m).0 ≡ some i
    → i.username ≢ username
unfolding session
change_password-session argon salt writable username old new token instant a m i changed h =
    let none_left : NoneOf username m.sessions =
      subst (Done username) changed (change_password-Done argon salt writable username old new a) in
    elim (Option-cases (Dict.get token m.sessions)) [
      | inl e ↦ absurd (absent i (sym (rw (session, e) refl) ∙ h))
      | inr (s, e) ↦ elim (Bool-cases (expired instant s)) [
        | inl f ↦ absurd (absent i (sym (rw (session, e, f) refl) ∙ h))
        | inr f ↦
            let found : ◌≡◌ {A = Option SessionInfo} (some s.info) (some i) =
              sym (rw (session, e, f) refl) ∙ h in
            let same : s.info ≡ i = cc found in
            (λ k.
              get-NoneOf username token m.sessions s none_left e (ap (λ x. x.username) same ∙ k))
      ]
    ]
