-- ===== src/Keys/Faithful.antt =====
-- The cache of crates/store/src/kms_cache.rs answers as the service behind it does.
use timelakedb.Base.{
  ℕ, ◌*◌, ◌≤◌, ◌≡◌, refl, sym, ap, ◌∙◌, subst, Option, none, some, List, [], ◌∷◌, ◌++◌, All, length,
  ltb, if_elim, Bool-cases, inl, inr, Result, ok, err, max, min, arith,
}
use timelakedb.Base.Str.{Str, str_eq, str_eq_iff}
use timelakedb.Base.Dict.{Dict, get, insert, str_key, get-insert}
use timelakedb.Keys.Cache.{
  EncryptSlot, CachingKms, new, remembered, remember, is_fresh, unwrapped_by, unwrap_cached, unwrap,
  drawn_key, generate_from, generate, max_uses_ceiling,
}
use timelakedb.Keys.Calls.{
  Call, generating, unwrapping, DataKey, times, handed, offers, run, answers,
}
use timelakedb.Keys.Uses.{left, answers-times}

module _ {E : Type 0} (inner : Str → Result E Str) where
  -- The service unwraps what it has wrapped.
  abbrev pub IsWrapped : Result E (Str × Str) → Type 0
  IsWrapped (err e) = Unit
  IsWrapped (ok (dek, wrapped)) = inner wrapped ≡ ok dek

  abbrev pub AreWrapped : List (Call E) → Type 0
  AreWrapped [] = Unit
  AreWrapped (generating now drawn ∷ calls) = IsWrapped drawn × AreWrapped calls
  AreWrapped (unwrapping wrapped ∷ calls) = AreWrapped calls

  abbrev IsOpened : DataKey → Type 0
  IsOpened p = inner p.1 ≡ ok p.0

  abbrev SlotOpened : Option EncryptSlot → Type 0
  SlotOpened none = Unit
  SlotOpened (some s) = inner s.wrapped ≡ ok s.dek

  record IsFaithful (bound : ℕ) (k : CachingKms) : Type 0 where
    pub cached : (w d : Str) → get w k.unwrapped ≡ some d → inner w ≡ ok d
    pub slotted : SlotOpened k.slot
    pub same : k.max_uses ≡ bound

  abbrev Agrees : Dict Str Str → Type 0
  Agrees c = (w d : Str) → get w c ≡ some d → inner w ≡ ok d

  nil-Agrees : Agrees []
  unfolding get
  nil-Agrees w d h = absurd (cc h)

  insert-Agrees :
      (wrapped dek : Str) (c : Dict Str Str)
      → inner wrapped ≡ ok dek
      → Agrees c
      → Agrees (insert wrapped dek c)
  insert-Agrees wrapped dek c h k w d e =
      let found = sym (get-insert wrapped w dek c) ∙ e in
      elim (Bool-cases (str_eq wrapped w)) [
        | inl f ↦
            let same : some dek ≡ some d = sym (rw f refl) ∙ found in
            subst (λ x. inner x ≡ ok d) ((str_eq_iff wrapped w).0 f) (h ∙ ap ok (cc same))
        | inr f ↦ k w d (sym (rw f refl) ∙ found)
      ]

  remembered-Agrees :
      (wrapped dek : Str) (c : Dict Str Str)
      → inner wrapped ≡ ok dek
      → Agrees c
      → Agrees (remembered wrapped dek c)
  unfolding remembered
  remembered-Agrees wrapped dek c h k =
      if_elim Agrees (ltb 4096 (length c)) (λ e. insert-Agrees wrapped dek [] h nil-Agrees)
        (λ e. insert-Agrees wrapped dek c h k)

  module _ (bound : ℕ) where
    -- What a call leaves, and what it answers.
    abbrev UnwrappedRight : Str → CachingKms × Result E Str → Type 0
    UnwrappedRight wrapped p = IsFaithful bound p.0 × (p.1 ≡ inner wrapped)

    unwrapped_by-UnwrappedRight :
        (k : CachingKms) (wrapped : Str) (r : Result E Str)
        → inner wrapped ≡ r
        → IsFaithful bound k
        → UnwrappedRight wrapped (unwrapped_by k wrapped r)
    unfolding remember
    unwrapped_by-UnwrappedRight k wrapped (err e) h f = (f, sym h)
    unwrapped_by-UnwrappedRight k wrapped (ok dek) h f = (
      record {
        cached = remembered-Agrees wrapped dek k.unwrapped h f.cached;
        slotted = f.slotted;
        same = f.same;
      },
      sym h,
    )

    unwrap_cached-UnwrappedRight :
        (k : CachingKms) (wrapped : Str) (o : Option Str)
        → get wrapped k.unwrapped ≡ o
        → IsFaithful bound k
        → UnwrappedRight wrapped (unwrap_cached inner k wrapped o)
    unwrap_cached-UnwrappedRight k wrapped (some dek) h f = (
      record { cached = f.cached; slotted = f.slotted; same = f.same },
      sym (f.cached wrapped dek h),
    )
    unwrap_cached-UnwrappedRight k wrapped none h f =
        unwrapped_by-UnwrappedRight k wrapped (inner wrapped) refl f

    unwrap-UnwrappedRight :
        (k : CachingKms) (wrapped : Str)
        → IsFaithful bound k
        → UnwrappedRight wrapped (unwrap inner wrapped k)
    unfolding unwrap
    unwrap-UnwrappedRight k wrapped f =
        unwrap_cached-UnwrappedRight k wrapped (get wrapped k.unwrapped) refl f

    -- What asking for a key leaves, and what it answers.
    abbrev GeneratedRight : CachingKms × Result E DataKey → Type 0
    GeneratedRight p = IsFaithful bound p.0 × All IsOpened (handed p.1)

    drawn_key-GeneratedRight :
        (now : ℕ) (k : CachingKms) (drawn : Result E DataKey)
        → IsWrapped drawn
        → IsFaithful bound k
        → GeneratedRight (drawn_key now k drawn)
    unfolding remember
    drawn_key-GeneratedRight now k (err e) h f = (f, tt)
    drawn_key-GeneratedRight now k (ok (dek, wrapped)) h f = (
      record {
        cached = remembered-Agrees wrapped dek k.unwrapped h f.cached;
        slotted = h;
        same = f.same;
      },
      (h, tt),
    )

    generate_from-GeneratedRight :
        (now : ℕ) (k : CachingKms) (drawn : Result E DataKey) (slot : Option EncryptSlot)
        → SlotOpened slot
        → IsWrapped drawn
        → IsFaithful bound k
        → GeneratedRight (generate_from now k drawn slot)
    generate_from-GeneratedRight now k drawn none o h f = drawn_key-GeneratedRight now k drawn h f
    generate_from-GeneratedRight now k drawn (some s) o h f =
        if_elim GeneratedRight (is_fresh k now s)
          (λ fresh. (record { cached = f.cached; slotted = o; same = f.same }, (o, tt)))
          (λ stale. drawn_key-GeneratedRight now k drawn h f)

    All-IsOpened :
        (ks ls : List DataKey) → All IsOpened ks → All IsOpened ls → All IsOpened (ks ++ ls)
    All-IsOpened [] ls h k = k
    All-IsOpened (p ∷ ks) ls h k = (h.0, All-IsOpened ks ls h.1 k)

    run-IsFaithful :
        (calls : List (Call E)) (k : CachingKms)
        → AreWrapped calls
        → IsFaithful bound k
        → IsFaithful bound (run inner calls k) × All IsOpened (answers inner calls k)
    unfolding run generate
    run-IsFaithful [] k h f = (f, tt)
    run-IsFaithful (generating now drawn ∷ calls) k h f =
        let first = generate_from-GeneratedRight now k drawn k.slot f.slotted h.0 f in
        let later = run-IsFaithful calls (generate now drawn k).0 h.1 first.0 in
        (
          later.0,
          All-IsOpened (handed (generate now drawn k).1)
              (answers inner calls (generate now drawn k).0) first.1 later.1,
        )
    run-IsFaithful (unwrapping wrapped ∷ calls) k h f =
        run-IsFaithful calls (unwrap inner wrapped k).0 h (unwrap-UnwrappedRight k wrapped f).0

  new-IsFaithful :
      (max_age max_uses : ℕ)
      → IsFaithful (min (max max_uses 1) max_uses_ceiling) (new max_age max_uses)
  unfolding new
  new-IsFaithful max_age max_uses = record { cached = nil-Agrees; slotted = tt; same = refl }

  new-slot : (max_age max_uses : ℕ) → (new max_age max_uses).slot ≡ none
  unfolding new
  new-slot max_age max_uses = refl

  -- A cache that has served any calls, of a service that unwraps the keys that it has wrapped, answers
  -- an unwrap as the service would; each key that it has handed out is what the service unwraps from
  -- the wrapped form beside it; and it has handed out a wrapped key at most as often as the clamped
  -- limit for each time that the service had it to give: never, if it did not.
  pub run-IsBounded :
      (max_age max_uses : ℕ) (calls : List (Call E)) (wrapped : Str)
      → AreWrapped calls
      → let keys = answers inner calls (new max_age max_uses) in
        ((unwrap inner wrapped (run inner calls (new max_age max_uses))).1 ≡ inner wrapped)
        × All (λ p. inner p.1 ≡ ok p.0) keys
        × (times wrapped keys
            ≤ min (max max_uses 1) max_uses_ceiling * times wrapped (offers calls))
  run-IsBounded max_age max_uses calls wrapped h =
      let bound = min (max max_uses 1) max_uses_ceiling in
      let k = new max_age max_uses in
      let f : IsFaithful bound k = new-IsFaithful max_age max_uses in
      let (served, opened) = run-IsFaithful bound calls k h f in
      (
        (unwrap-UnwrappedRight bound (run inner calls k) wrapped served).1,
        opened,
        omega (
          arith,
          answers-times inner bound wrapped (omega arith) calls k f.same,
          ap (left bound wrapped) (new-slot max_age max_uses),
        ),
      )
