-- ===== src/Auth/Revocation.antt =====
-- How a revocation in crates/auth/src/lib.rs reaches the nodes that share the file of the tokens.
use timelakedb.Base.{
  ℕ, ◌≡◌, ◌≢◌, refl, sym, subst, ◌∙◌, ap, inl, inr, Bool, true, false, not, Option, some, List, [],
  ◌∷◌, map, if_elim, Result, ok, err, arith, Bool-cases, Option-cases, All,
}
use timelakedb.Base.Str.{Str, str_eq, str_eq_iff}
use timelakedb.Base.Sort.{sort_by, All-sort_by}
use timelakedb.Base.Dict
use timelakedb.Base.Dict.{Dict, str_key}
use timelakedb.Auth.Token.{
  TokenRecord, TokenError, invalid, TokenIndex, hash_token, is_valid_at, from_records, collect,
  records, by_hash, by_id, verify,
}
use timelakedb.Auth.Tokens.{
  Library, Auth, File, StoreError, persist_tokens, reload_tokens, revoke_token, holds,
  parse_records, verify_token, answer, on_unknown, on_miss_reload_due,
}
use timelakedb.Auth.Verified.{verified, verify_token-after, on_miss_reload_due-tokens}

-- The JSON of records reads back, and is not empty.
pub record ReadsBack (lib : Library) : Type 0 where
  pub read_back : (rs : List TokenRecord) → lib.from_json (lib.to_json rs) ≡ some rs
  pub not_empty : (rs : List TokenRecord) → lib.to_json rs ≢ []

-- A `BTreeMap` from the records' digests.
abbrev pub IsIndex : TokenIndex → Type 0
IsIndex [] = Unit
IsIndex (e ∷ index) = (e.0 ≡ e.1.hash) × All (λ d. e.0 ≢ d.0) index × IsIndex index

-- No record with this digest is live.
abbrev Dead : Str → TokenRecord → Type 0
Dead key r = r.hash ≡ key → r.revoked ≡ true

abbrev DeadAt : Str → TokenIndex → Type 0
DeadAt key index = (r : TokenRecord) → Dict.get key index ≡ some r → r.revoked ≡ true

DeadAt-verify :
    (sha256 : Str → Str) (index : TokenIndex) (secret : Str) (now : ℕ)
    → DeadAt (hash_token sha256 secret) index
    → verify sha256 index secret now ≡ err invalid
unfolding verify is_valid_at
DeadAt-verify sha256 index secret now h =
    elim (Option-cases (Dict.get (hash_token sha256 secret) index)) [
      | inl e ↦ rw (verify, e) refl
      | inr (r, e) ↦
          let never : is_valid_at r now ≡ false = rw (is_valid_at, h r e) refl in
          rw (verify, e) (ground (arith, never))
    ]

insert-DeadAt :
    (key k : Str) (r : TokenRecord) (index : TokenIndex)
    → Dead key r
    → k ≡ r.hash
    → DeadAt key index
    → DeadAt key (Dict.insert k r index)
insert-DeadAt key k r index d e h s g =
    let looked = sym (Dict.get-insert k key r index) ∙ g in
    elim (Bool-cases (str_eq k key)) [
      | inl f ↦
          let same : ◌≡◌ {A = Option TokenRecord} (some r) (some s) = rw f at looked in
          let is : r ≡ s = cc same in
          sym (ap (λ t. t.revoked) is) ∙ d (sym e ∙ (str_eq_iff k key).0 f)
      | inr f ↦ h s (rw f at looked)
    ]

collect-DeadAt :
    (key : Str) (index : TokenIndex) (rs : List TokenRecord)
    → All (Dead key) rs
    → DeadAt key index
    → DeadAt key (collect index rs)
collect-DeadAt key index [] h k = k
collect-DeadAt key index (r ∷ rs) h k =
    collect-DeadAt key (Dict.insert r.hash r index) rs h.1
      (insert-DeadAt key r.hash r index h.0 refl k)

-- A token is verified: whether the file can be read, the time, the instant and the secret.
abbrev pub Check : Type 0
Check = Bool × ℕ × ℕ × Str

-- What a node keeps of verifying tokens, one after the other.
abbrev pub after_checks : Library → List Check → Auth → File → Auth
after_checks lib [] b file = b
after_checks lib ((readable, now, instant, secret) ∷ calls) b file =
    after_checks lib calls (verify_token lib readable now instant secret b file).1 file

-- The entry of the revoked token is the only one with its digest.
abbrev DeadEntry : Str → Str × TokenRecord → Type 0
DeadEntry key e = Dead key e.1

other_entries :
    (key : Str) (index : TokenIndex)
    → IsIndex index
    → All (λ d. key ≢ d.0) index
    → All (DeadEntry key) index
other_entries key [] h k = tt
other_entries key (e ∷ index) h k =
    ((λ q. absurd (k.0 (sym q ∙ sym h.0))), other_entries key index h.2 k.1)

revoked_entry :
    (key : Str) (r : TokenRecord) (index : TokenIndex)
    → IsIndex index
    → All (DeadEntry key) (Dict.insert key (record r { revoked = true }) index)
unfolding Dict.insert
revoked_entry key r [] h = ((λ q. refl), tt)
revoked_entry key r ((j, s) ∷ index) h = elim (Bool-cases (str_eq j key)) [
  | inl e ↦ rw e (
    (λ q. refl),
    other_entries key index h.2
        (subst (λ x. All (λ d. x ≢ d.0) index) ((str_eq_iff j key).0 e) h.1),
  )
  | inr e ↦ rw e (
    (λ q. absurd (ground (arith, (str_eq_iff j key).1 (h.0 ∙ q)))),
    revoked_entry key r index h.2,
  )
]

entries-records :
    (key : Str) (index : TokenIndex) → All (DeadEntry key) index → All (Dead key) (records index)
unfolding records
entries-records key index h =
    mapped (sort_by by_hash index) (All-sort_by by_hash (DeadEntry key) index h)
  where
    mapped : (l : TokenIndex) → All (DeadEntry key) l → All (Dead key) (map (λ e. e.1) l)
    mapped [] h = tt
    mapped (e ∷ l) h = (h.0, mapped l h.1)

parse_nonempty :
    (lib : Library) (bytes : Str) → bytes ≢ [] → parse_records lib bytes ≡ lib.from_json bytes
parse_nonempty lib [] h = absurd (h refl)
parse_nonempty lib (b ∷ bytes) h = refl

parse_written :
    (lib : Library) (rs : List TokenRecord)
    → ReadsBack lib
    → parse_records lib (lib.to_json rs) ≡ some rs
parse_written lib rs reads =
    parse_nonempty lib (lib.to_json rs) (reads.not_empty rs) ∙ reads.read_back rs

no_record : (key : Str) → DeadAt key []
unfolding Dict.get
no_record key r h = absurd (cc h)

from_records-DeadAt :
    (key : Str) (rs : List TokenRecord) → All (Dead key) rs → DeadAt key (from_records rs)
unfolding from_records
from_records-DeadAt key rs h = collect-DeadAt key [] rs h (no_record key)

unchanged : ◌≢◌ {A = Result StoreError Bool} (ok false) (ok true)
unchanged h = absurd (cc h)

reload_tokens-DeadAt :
    (lib : Library) (key : Str) (rs : List TokenRecord) (b : Auth)
    → ReadsBack lib
    → All (Dead key) rs
    → (reload_tokens lib true b (some (lib.to_json rs))).0 ≡ ok true
    → DeadAt key (reload_tokens lib true b (some (lib.to_json rs))).1.tokens
unfolding reload_tokens
reload_tokens-DeadAt lib key rs b reads h =
    if_elim (λ (m : Result StoreError Bool × Auth). m.0 ≡ ok true → DeadAt key m.1.tokens)
      (holds b.tokens_loaded_hash (lib.bytes_hash (lib.to_json rs))) (λ e q. absurd (unchanged q))
      (λ e. rw (parse_written lib rs reads) (λ q. from_records-DeadAt key rs h))

revoke_token-written :
    (lib : Library) (id key : Str) (r : TokenRecord) (auth : Auth) (file : File)
    → by_id id auth.tokens ≡ some (key, r)
    → r.revoked ≡ false
    → (revoke_token lib true id auth file).2
      ≡ some (lib.to_json (records (Dict.insert key (record r { revoked = true }) auth.tokens)))
unfolding revoke_token persist_tokens
revoke_token-written lib id key r auth file found live = rw (revoke_token, found, live) refl

reload_tokens-keeps :
    (lib : Library) (readable : Bool) (key : Str) (rs : List TokenRecord) (b : Auth)
    → ReadsBack lib
    → All (Dead key) rs
    → DeadAt key b.tokens
    → DeadAt key (reload_tokens lib readable b (some (lib.to_json rs))).1.tokens
unfolding reload_tokens
reload_tokens-keeps lib readable key rs b reads h k =
    if_elim (λ (m : Result StoreError Bool × Auth). DeadAt key m.1.tokens) (not readable) (λ e. k)
      (λ e.
        if_elim (λ (m : Result StoreError Bool × Auth). DeadAt key m.1.tokens)
          (holds b.tokens_loaded_hash (lib.bytes_hash (lib.to_json rs))) (λ f. k)
          (λ f. rw (parse_written lib rs reads) (from_records-DeadAt key rs h)))

answer-same :
    (lib : Library) (now : ℕ) (secret : Str) (e : TokenError) (m : Result StoreError Bool × Auth)
    → (answer lib now secret e m).1 ≡ m.1
answer-same lib now secret e (ok true, auth) = refl
answer-same lib now secret e (ok false, auth) = refl
answer-same lib now secret e (err problem, auth) = refl

-- A file that revokes the key, and a node whose index does.
module _ (lib : Library) (key : Str) (rs : List TokenRecord) (reads : ReadsBack lib)
    (dead : All (Dead key) rs) where
  on_unknown-keeps :
      (readable : Bool) (now : ℕ) (secret : Str) (e : TokenError) (m : Bool × Auth)
      → DeadAt key m.1.tokens
      → DeadAt key (on_unknown lib readable now secret (some (lib.to_json rs)) e m).1.tokens
  on_unknown-keeps readable now secret e (false, auth) h = h
  on_unknown-keeps readable now secret e (true, auth) h =
      subst (λ (a : Auth). DeadAt key a.tokens)
        (sym
          (answer-same lib now secret e (reload_tokens lib readable auth (some (lib.to_json rs)))))
        (reload_tokens-keeps lib readable key rs auth reads dead h)

  verify_token-keeps :
      (readable : Bool) (now instant : ℕ) (secret : Str) (b : Auth)
      → DeadAt key b.tokens
      → DeadAt key (verify_token lib readable now instant secret b (some (lib.to_json rs))).1.tokens
  unfolding verify_token
  verify_token-keeps readable now instant secret b h =
      elim (verified (verify lib.sha256 b.tokens secret now)) [
        | inl (e, q) ↦
            rw (verify_token, q)
              (on_unknown-keeps readable now secret e (on_miss_reload_due instant b)
                (subst (DeadAt key) (sym (on_miss_reload_due-tokens instant b)) h))
        | inr (i, q) ↦ rw (verify_token, q) h
      ]

  after_checks-keeps :
      (calls : List Check) (b : Auth)
      → DeadAt key b.tokens
      → DeadAt key (after_checks lib calls b (some (lib.to_json rs))).tokens
  after_checks-keeps [] b h = h
  after_checks-keeps ((readable, now, instant, secret) ∷ calls) b h =
      after_checks-keeps calls (verify_token lib readable now instant secret b _).1
        (verify_token-keeps readable now instant secret b h)

  DeadAt-verify_token :
      (readable : Bool) (now instant : ℕ) (secret : Str) (b : Auth)
      → hash_token lib.sha256 secret ≡ key
      → DeadAt key b.tokens
      → (verify_token lib readable now instant secret b (some (lib.to_json rs))).0 ≡ err invalid
  DeadAt-verify_token readable now instant secret b e h =
      verify_token-after lib readable now instant secret b (some (lib.to_json rs))
      ∙ DeadAt-verify lib.sha256
          (verify_token lib readable now instant secret b (some (lib.to_json rs))).1.tokens secret
          now
          (subst
            (λ k.
              DeadAt k
                (verify_token lib readable now instant secret b (some (lib.to_json rs))).1.tokens)
            (sym e) (verify_token-keeps readable now instant secret b h))

-- A live token is revoked on one node, by its id, whose index has each record once under its
-- digest, and another node reads the changed file of the tokens again. As long as that file is not
-- written again, the other node refuses the token's secret at every time, whatever tokens it has
-- verified since and whether it could then read the file, if the JSON of the records reads back and
-- is not empty.
pub revoke_token-reload_tokens :
    (lib : Library) (id secret : Str) (r : TokenRecord) (a b : Auth) (file : File)
    (calls : List Check) (readable : Bool) (now instant : ℕ)
    → ReadsBack lib
    → IsIndex a.tokens
    → by_id id a.tokens ≡ some (hash_token lib.sha256 secret, r)
    → r.revoked ≡ false
    → (reload_tokens lib true b (revoke_token lib true id a file).2).0 ≡ ok true
    → let file' = (revoke_token lib true id a file).2 in
      let b' = after_checks lib calls (reload_tokens lib true b file').1 file' in
      (verify_token lib readable now instant secret b' file').0 ≡ err invalid
revoke_token-reload_tokens lib id secret r a b file calls readable now instant reads index found
      live =
    let key = hash_token lib.sha256 secret in
    let after = Dict.insert key (record r { revoked = true }) a.tokens in
    let rs = records after in
    let dead = entries-records key after (revoked_entry key r a.tokens index) in
    rw (revoke_token-written lib id key r a file found live) (λ q.
      DeadAt-verify_token lib key rs reads dead readable now instant secret
        (after_checks lib calls (reload_tokens lib true b (some (lib.to_json rs))).1
          (some (lib.to_json rs)))
        refl
        (after_checks-keeps lib key rs reads dead calls _
          (reload_tokens-DeadAt lib key rs b reads dead q)))
