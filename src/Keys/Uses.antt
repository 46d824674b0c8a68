-- ===== src/Keys/Uses.antt =====
-- The cache of crates/store/src/kms_cache.rs uses a key a bounded number of times.
use timelakedb.Base.{
  ℕ, ◌+◌, ◌-◌, ◌*◌, ◌≤◌, ◌≡◌, refl, ap, ◌∙◌, subst, Option, none, some, List, [], ◌∷◌, ◌++◌,
  if◌then◌else◌, if_elim, Result, ok, err, arith,
}
use native.Mathlib.Nat.{mul-add}
use timelakedb.Base.Str.{Str, str_eq}
use timelakedb.Base.Dict.{get, str_key}
use timelakedb.Keys.Cache.{
  EncryptSlot, CachingKms, remember, is_fresh, unwrapped_by, unwrap_cached, unwrap, drawn_key,
  generate_from, generate,
}
use timelakedb.Keys.Calls.{Call, generating, unwrapping, DataKey, times, handed, offers, answers}

times-append :
    (wrapped : Str) (ks ls : List DataKey)
    → times wrapped (ks ++ ls) ≡ times wrapped ks + times wrapped ls
times-append wrapped [] ls = omega arith
times-append wrapped (p ∷ ks) ls = ground (arith, times-append wrapped ks ls)

-- The uses that the slot's key has left, if it is this one.
abbrev pub left : ℕ → Str → Option EncryptSlot → ℕ
left bound wrapped none = 0
left bound wrapped (some s) = if str_eq s.wrapped wrapped then bound - s.uses else 0

module _ {E : Type 0} (inner : Str → Result E Str) (bound : ℕ) (w : Str)
    (some_use : 1 ≤ bound) where
  -- A key in the answer is one of the slot's uses, or one that was drawn.
  abbrev Spent : Option EncryptSlot → Result E DataKey → CachingKms × Result E DataKey → Type 0
  Spent slot drawn p =
      (p.0.max_uses ≡ bound)
      × (times w (handed p.1) + left bound w p.0.slot
          ≤ left bound w slot + bound * times w (handed drawn))

  drawn_key-Spent :
      (now : ℕ) (k : CachingKms) (drawn : Result E DataKey)
      → k.max_uses ≡ bound
      → Spent k.slot drawn (drawn_key now k drawn)
  unfolding remember
  drawn_key-Spent now k (err e) h = (h, omega arith)
  drawn_key-Spent now k (ok (dek, wrapped)) h = (h, ground (arith, some_use))

  generate_from-Spent :
      (now : ℕ) (k : CachingKms) (drawn : Result E DataKey) (slot : Option EncryptSlot)
      → k.slot ≡ slot
      → k.max_uses ≡ bound
      → Spent slot drawn (generate_from now k drawn slot)
  generate_from-Spent now k drawn none e h =
      subst (λ o. Spent o drawn (drawn_key now k drawn)) e (drawn_key-Spent now k drawn h)
  generate_from-Spent now k drawn (some s) e h =
      if_elim (Spent (some s) drawn) (is_fresh k now s) (λ fresh. (h, ground (arith, h)))
        (λ stale.
          subst (λ o. Spent o drawn (drawn_key now k drawn)) e (drawn_key-Spent now k drawn h))

  unwrapped_by-slot :
      (k : CachingKms) (wrapped : Str) (r : Result E Str)
      → ((unwrapped_by k wrapped r).0.slot ≡ k.slot)
        × ((unwrapped_by k wrapped r).0.max_uses ≡ k.max_uses)
  unfolding remember
  unwrapped_by-slot k wrapped (err e) = (refl, refl)
  unwrapped_by-slot k wrapped (ok dek) = (refl, refl)

  unwrap_cached-slot :
      (k : CachingKms) (wrapped : Str) (o : Option Str)
      → ((unwrap_cached inner k wrapped o).0.slot ≡ k.slot)
        × ((unwrap_cached inner k wrapped o).0.max_uses ≡ k.max_uses)
  unwrap_cached-slot k wrapped (some dek) = (refl, refl)
  unwrap_cached-slot k wrapped none = unwrapped_by-slot k wrapped (inner wrapped)

  pub answers-times :
      (calls : List (Call E)) (k : CachingKms)
      → k.max_uses ≡ bound
      → times w (answers inner calls k) ≤ left bound w k.slot + bound * times w (offers calls)
  unfolding generate unwrap
  answers-times [] k h = omega arith
  answers-times (generating now drawn ∷ calls) k h =
      let first = generate_from-Spent now k drawn k.slot refl h in
      let k' = (generate now drawn k).0 in
      omega (
        arith,
        first.1,
        answers-times calls k' first.0,
        times-append w (handed (generate now drawn k).1) (answers inner calls k'),
        ap (λ n. bound * n) (times-append w (handed drawn) (offers calls)),
        mul-add bound (times w (handed drawn)) (times w (offers calls)),
      )
  answers-times (unwrapping wrapped ∷ calls) k h =
      let same = unwrap_cached-slot k wrapped (get wrapped k.unwrapped) in
      subst
        (λ o.
          times w (answers inner calls (unwrap inner wrapped k).0)
          ≤ left bound w o + bound * times w (offers calls))
        same.0 (answers-times calls (unwrap inner wrapped k).0 (same.1 ∙ h))
