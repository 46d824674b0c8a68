-- ===== src/Auth/Admission.antt =====
-- Which requests `Auth::decide_data` of crates/auth/src/lib.rs lets pass.
use timelakedb.Base.{
  ℕ, ◌≡◌, ◌≢◌, ◌↔◌, refl, sym, ◌∙◌, ap, inl, inr, Bool, true, not, ◌||◌, none, some, Result, ok,
  err, arith, Bool-cases, Option-cases,
}
use timelakedb.Base.Str.{Str}
use timelakedb.Base.Dict.{str_key}
use timelakedb.Auth.Header.{token_from_authorization, credential_is_blank}
use timelakedb.Auth.Token.{
  required, TokenRecord, TokenIdentity, TokenError, invalid, missing, forbidden, TokenIndex,
  identity_of, verify,
}
use timelakedb.Auth.Guard.{
  Action, Decision, decide, decide_identity, permits, allows_database, granted_to,
}
use timelakedb.Auth.Tokens.{Library, Auth, File, verify_token, presented, decide_data}
use timelakedb.Auth.Verified.{verify-Live, Live-verify, verified, verify_token-after, Live}

-- The header of a request, the token in it, and a live record of the token in the index.
pub record Admits (lib : Library) (index : TokenIndex) (now : ℕ) (header : Str) (action : Action)
    (db : Str) (d : Decision) : Type 0 where
  pub secret : Str
  pub token : token_from_authorization header ≡ some secret
  pub entry : TokenRecord
  pub live : Live lib.sha256 index secret now entry
  pub permitted : permits action entry.scope ≡ true
  pub database : allows_database entry.databases db ≡ true
  pub decided :
      d ≡ record { identity = some (identity_of entry); granted = granted_to entry.authorizations }

not_decided : (e : TokenError) (d : Decision) → ◌≢◌ {A = Result TokenError Decision} (err e) (ok d)
not_decided e d h = cc h

decided_as : (a b : Decision) → ◌≡◌ {A = Result TokenError Decision} (ok a) (ok b) → b ≡ a
decided_as a b h = cc h

decide_identity-permits :
    (i : TokenIdentity) (action : Action) (db : Str) (d : Decision)
    → decide_identity i action db ≡ ok d
    → (permits action i.scope ≡ true)
      × (allows_database i.databases db ≡ true)
      × (d ≡ record { identity = some i; granted = granted_to i.authorizations })
unfolding decide_identity
decide_identity-permits i action db d h =
    elim (Bool-cases (not (permits action i.scope) || not (allows_database i.databases db))) [
      | inl e ↦ absurd (not_decided forbidden d (sym (rw (decide_identity, e) refl) ∙ h))
      | inr e ↦ (
        ground arith,
        ground arith,
        decided_as (record { identity = some i; granted = granted_to i.authorizations }) d
            (sym (rw (decide_identity, e) refl) ∙ h),
      )
    ]

permitted-decide_identity :
    (i : TokenIdentity) (action : Action) (db : Str)
    → permits action i.scope ≡ true
    → allows_database i.databases db ≡ true
    → decide_identity i action db
      ≡ ok (record { identity = some i; granted = granted_to i.authorizations })
unfolding decide_identity
permitted-decide_identity i action db p q = rw (decide_identity, p, q) refl

module _ (lib : Library) (readable : Bool) (now instant : ℕ) (header : Str) (action : Action)
    (db : Str) (auth : Auth) (file : File) where
  with_token :
      (secret : Str)
      → token_from_authorization header ≡ some secret
      → decide_data lib readable now instant required (some header) action db auth file ≡ (
        decide required (some (verify_token lib readable now instant secret auth file).0) action db,
        (verify_token lib readable now instant secret auth file).1,
      )
  unfolding decide_data presented
  with_token secret e = rw (decide_data, presented, e) refl

  without_token :
      (d : Decision)
      → token_from_authorization header ≡ none
      → (decide_data lib readable now instant required (some header) action db auth file).0 ≢ ok d
  unfolding decide_data presented decide
  without_token d e h = elim (Bool-cases (credential_is_blank header)) [
    | inl b ↦ not_decided missing d (sym (rw (decide_data, presented, e, b) refl) ∙ h)
    | inr b ↦ not_decided invalid d (sym (rw (decide_data, presented, e, b) refl) ∙ h)
  ]

  with_identity :
      (secret : Str) (i : TokenIdentity) (d : Decision)
      → token_from_authorization header ≡ some secret
      → verify lib.sha256
          (verify_token lib readable now instant secret auth file).1.tokens
          secret
          now
        ≡ ok i
      → decide_identity i action db ≡ ok d
      → Admits lib
          (verify_token lib readable now instant secret auth file).1.tokens
          now
          header
          action
          db
          d
  with_identity secret i d e v h =
      let (r, live, is) =
        verify-Live lib.sha256 (verify_token lib readable now instant secret auth file).1.tokens
          secret now i v in
      let (p, q, decided) = decide_identity-permits (identity_of r) action db d (rw is h) in
      record {
        secret = secret;
        token = e;
        entry = r;
        live = live;
        permitted = p;
        database = q;
        decided = decided;
      }

  admitted_by :
      (d : Decision)
      → (decide_data lib readable now instant required (some header) action db auth file).0 ≡ ok d
      → Admits lib
          (decide_data lib readable now instant required (some header) action db auth file).1.tokens
          now
          header
          action
          db
          d
  unfolding decide
  admitted_by d h = elim (Option-cases (token_from_authorization header)) [
    | inl e ↦ absurd (without_token d e h)
    | inr (secret, e) ↦
        let answered = verify_token-after lib readable now instant secret auth file in
        let same = with_token secret e in
        elim (verified (
          verify lib.sha256 (verify_token lib readable now instant secret auth file).1.tokens secret
            now)) [
              | inl (p, v) ↦ absurd (not_decided p d (sym (rw (same, answered, v) refl) ∙ h))
              | inr (i, v) ↦
                  rw same (with_identity secret i d e v (sym (rw (same, answered, v) refl) ∙ h))
            ]
  ]

  passing :
      (d : Decision)
      → Admits lib
          (decide_data lib readable now instant required (some header) action db auth file).1.tokens
          now
          header
          action
          db
          d
      → (decide_data lib readable now instant required (some header) action db auth file).0 ≡ ok d
  unfolding decide
  passing d a =
      let same = with_token a.secret a.token in
      let answered = verify_token-after lib readable now instant a.secret auth file in
      let live = rw same at a.live in
      ap (λ p. p.0) same
      ∙ rw
          (
            answered,
            Live-verify lib.sha256
                (verify_token lib readable now instant a.secret auth file).1.tokens a.secret now
                a.entry live,
          )
          (permitted-decide_identity (identity_of a.entry) action db a.permitted a.database)
      ∙ ap ok (sym a.decided)

-- Where credentials are required, a request with a header passes exactly if the header holds a token that
-- has a live record in the index, as the index is after the call, and the record's scope and databases
-- allow the action; the decision is the record's identity and authorizations.
pub decide_data-Admits :
    (lib : Library) (readable : Bool) (now instant : ℕ) (header : Str) (action : Action) (db : Str)
    (auth : Auth) (file : File) (d : Decision)
    → ((decide_data lib readable now instant required (some header) action db auth file).0 ≡ ok d)
      ↔ Admits lib
          (decide_data lib readable now instant required (some header) action db auth file).1.tokens
          now
          header
          action
          db
          d
decide_data-Admits lib readable now instant header action db auth file d = (
  admitted_by lib readable now instant header action db auth file d,
  passing lib readable now instant header action db auth file d,
)
