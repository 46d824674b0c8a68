-- ===== src/Auth/Verified.antt =====
-- What `Auth::verify_token` of crates/auth/src/lib.rs answers.
use timelakedb.Base.{
  ℕ, ◌+◌, ◌%◌, ◌^◌, ◌≡◌, ◌≢◌, refl, sym, ◌∙◌, ap, inl, inr, ◌⊎◌, Bool, true, false, not, ◌&&◌,
  Option, none, some, List, if_elim, Result, ok, err, arith, Bool-cases, Option-cases,
}
use timelakedb.Base.Str.{Str, str_eq, str_eq_iff}
use timelakedb.Base.Dict
use timelakedb.Base.Dict.{Dict, str_key}
use timelakedb.Auth.Token.{
  TokenRecord, TokenIdentity, TokenError, invalid, TokenIndex, hash_token, is_valid_at, identity_of,
  from_records, verify,
}
use timelakedb.Auth.Tokens.{
  Library, Auth, File, StoreError, invalid_data, reload_tokens, on_miss_reload_due, verify_token,
  answer, on_unknown, due, holds, parse_records, bytes_of,
}

-- A live record of this secret in the index.
pub record Live (sha256 : Str → Str) (index : TokenIndex) (secret : Str) (now : ℕ) (r : TokenRecord)
    : Type 0 where
  pub indexed : Dict.get (hash_token sha256 secret) index ≡ some r
  pub hashed : r.hash ≡ hash_token sha256 secret
  pub valid : is_valid_at r now ≡ true

refused :
    (e : TokenError) (i : TokenIdentity) → ◌≢◌ {A = Result TokenError TokenIdentity} (err e) (ok i)
refused e i h = cc h

same : (a b : TokenIdentity) → ◌≡◌ {A = Result TokenError TokenIdentity} (ok a) (ok b) → a ≡ b
same a b h = cc h

pub verify-Live :
    (sha256 : Str → Str) (index : TokenIndex) (secret : Str) (now : ℕ) (i : TokenIdentity)
    → verify sha256 index secret now ≡ ok i
    → (r : TokenRecord) × Live sha256 index secret now r × (identity_of r ≡ i)
unfolding verify
verify-Live sha256 index secret now i h =
    elim (Option-cases (Dict.get (hash_token sha256 secret) index)) [
      | inl e ↦ absurd (refused invalid i (sym (rw (verify, e) refl) ∙ h))
      | inr (r, e) ↦
          elim (Bool-cases (str_eq r.hash (hash_token sha256 secret) && is_valid_at r now)) [
            | inr f ↦ absurd (refused invalid i (sym (rw (verify, e, f) refl) ∙ h))
            | inl f ↦ (
              r,
              record {
                indexed = e;
                hashed = (str_eq_iff r.hash (hash_token sha256 secret)).0 (ground arith);
                valid = ground arith;
              },
              same (identity_of r) i (sym (rw (verify, e, f) refl) ∙ h),
            )
          ]
    ]

pub Live-verify :
    (sha256 : Str → Str) (index : TokenIndex) (secret : Str) (now : ℕ) (r : TokenRecord)
    → Live sha256 index secret now r
    → verify sha256 index secret now ≡ ok (identity_of r)
unfolding verify
Live-verify sha256 index secret now r l =
    rw (verify, l.indexed, (str_eq_iff r.hash (hash_token sha256 secret)).1 l.hashed, l.valid) refl

-- What a reload leaves as it was.
abbrev Kept : TokenIndex → Result StoreError Bool × Auth → Type 0
Kept index r = (r.0 ≡ ok true) ⊎ (r.1.tokens ≡ index)

parsed-Kept :
    (lib : Library) (auth : Auth) (hash : ℕ) (found : Option (List TokenRecord))
    → Kept auth.tokens (elim found [
      | none ↦ (err invalid_data, auth)
      | some found ↦ (
        ok true,
        record auth {
          tokens = from_records found;
          tokens_loaded_hash = some hash;
          token_reloads_total = (auth.token_reloads_total + 1) % 2 ^ 64;
        },
      )
    ])
parsed-Kept lib auth hash none = inr refl
parsed-Kept lib auth hash (some found) = inl refl

reload_tokens-Kept :
    (lib : Library) (readable : Bool) (auth : Auth) (file : File)
    → Kept auth.tokens (reload_tokens lib readable auth file)
unfolding reload_tokens
reload_tokens-Kept lib readable auth file =
    if_elim (Kept auth.tokens) (not readable) (λ e. inr refl)
      (λ e.
        if_elim (Kept auth.tokens) (holds auth.tokens_loaded_hash (lib.bytes_hash (bytes_of file)))
          (λ f. inr refl)
          (λ f.
            parsed-Kept lib auth (lib.bytes_hash (bytes_of file))
              (parse_records lib (bytes_of file))))

answer-after :
    (lib : Library) (now : ℕ) (secret : Str) (e : TokenError) (index : TokenIndex)
    (r : Result StoreError Bool × Auth)
    → Kept index r
    → verify lib.sha256 index secret now ≡ err e
    → (answer lib now secret e r).0
      ≡ verify lib.sha256 (answer lib now secret e r).1.tokens secret now
answer-after lib now secret e index (ok true, auth) k h = refl
answer-after lib now secret e index (ok false, auth) (inl k) h = absurd (cc k)
answer-after lib now secret e index (ok false, auth) (inr k) h =
    sym (ap (λ x. verify lib.sha256 x secret now) k ∙ h)
answer-after lib now secret e index (err p, auth) (inl k) h = absurd (cc k)
answer-after lib now secret e index (err p, auth) (inr k) h =
    sym (ap (λ x. verify lib.sha256 x secret now) k ∙ h)

on_unknown-after :
    (lib : Library) (readable : Bool) (now : ℕ) (secret : Str) (file : File) (e : TokenError)
    (m : Bool × Auth)
    → verify lib.sha256 m.1.tokens secret now ≡ err e
    → (on_unknown lib readable now secret file e m).0
      ≡ verify lib.sha256 (on_unknown lib readable now secret file e m).1.tokens secret now
on_unknown-after lib readable now secret file e (false, auth) h = sym h
on_unknown-after lib readable now secret file e (true, auth) h =
    answer-after lib now secret e auth.tokens (reload_tokens lib readable auth file)
      (reload_tokens-Kept lib readable auth file) h

pub on_miss_reload_due-tokens :
    (instant : ℕ) (auth : Auth) → (on_miss_reload_due instant auth).1.tokens ≡ auth.tokens
unfolding on_miss_reload_due
on_miss_reload_due-tokens instant auth =
    if_elim (λ (m : Bool × Auth). m.1.tokens ≡ auth.tokens) (due auth.token_miss_reload_at instant)
      (λ e. refl) (λ e. refl)

pub verified :
    (m : Result TokenError TokenIdentity)
    → ((e : TokenError) × (m ≡ err e)) ⊎ ((i : TokenIdentity) × (m ≡ ok i))
verified (err e) = inl (e, refl)
verified (ok i) = inr (i, refl)

-- The answer is the one that the index gives after the call, whether it was read again or not.
pub verify_token-after :
    (lib : Library) (readable : Bool) (now instant : ℕ) (secret : Str) (auth : Auth) (file : File)
    → (verify_token lib readable now instant secret auth file).0
      ≡ verify lib.sha256
          (verify_token lib readable now instant secret auth file).1.tokens
          secret
          now
unfolding verify_token
verify_token-after lib readable now instant secret auth file =
    elim (verified (verify lib.sha256 auth.tokens secret now)) [
      | inl (e, h) ↦
          rw (verify_token, h)
            (on_unknown-after lib readable now secret file e (on_miss_reload_due instant auth) (
              ap (λ x. verify lib.sha256 x secret now) (on_miss_reload_due-tokens instant auth)
              ∙ h))
      | inr (i, h) ↦ rw (verify_token, h) (sym h)
    ]
