-- ===== src/Ratelimit/Slots.antt =====
-- The slots of crates/server/src/ratelimit.rs, as single guards come and go.
use timelakedb.Base.{
  ℕ, zero, suc, ◌+◌, ◌-◌, ◌≤◌, ◌<◌, ◌≡◌, refl, sym, ap, ◌∙◌, ◌⊎◌, inl, inr, true, false, Option,
  none, some, List, [], ◌∷◌, leb, ◌==◌, if◌then◌else◌, arith, Bool-cases,
}
use timelakedb.Base.Str.{Str, str_eq, str_eq_iff}
use timelakedb.Base.Dict
use timelakedb.Base.Dict.{Dict, str_key, get-update, get-remove, get-insert}
use mathlib.Core.Option
use timelakedb.Ratelimit.{ClientLimiter, ClientGuard, noop, slot, admit, admit_key, release}

-- The slots of a client among the guards.
abbrev pub held_by : Str → List ClientGuard → ℕ
held_by k [] = 0
held_by k (noop ∷ guards) = held_by k guards
held_by k (slot j ∷ guards) = let rest = held_by k guards in if str_eq j k then suc rest else rest

-- A query that arrives, or one that ends: its guard's place among those held.
pub data Event : Type 0 where
  arrive : Option Str → Event
  leave : ℕ → Event

-- The guard at a place, and the others.
abbrev pub pick : ℕ → List ClientGuard → Option (ClientGuard × List ClientGuard)
pick n [] = none
pick zero (g ∷ guards) = some (g, guards)
pick (suc n) (g ∷ guards) = elim (pick n guards) [
  | none ↦ none
  | some (h, rest) ↦ some (h, g ∷ rest)
]

unfoldable pub step : ClientLimiter × List ClientGuard → Event → ClientLimiter × List ClientGuard
step (l, guards) (arrive key) = elim (admit key l).0 [
  | none ↦ ((admit key l).1, guards)
  | some g ↦ ((admit key l).1, g ∷ guards)
]
step (l, guards) (leave n) = elim (pick n guards) [
  | none ↦ (l, guards)
  | some (g, rest) ↦ (release g l, rest)
]

unfoldable pub run :
    ClientLimiter × List ClientGuard → List Event → ClientLimiter × List ClientGuard
run s [] = s
run s (e ∷ events) = run (step s e) events

-- The map counts each client's slots, has no entry for a client without, and none over the cap.
pub record Counts (limit : ℕ) (l : ClientLimiter) (guards : List ClientGuard) : Type 0 where
  pub same_cap : l.cap ≡ limit
  pub counted :
      (k : Str)
      → Dict.get k l.active ≡ (if held_by k guards == 0 then none else some (held_by k guards))
  pub within : (k : Str) → held_by k guards ≤ limit

get_or-counted :
    (n : ℕ) (o : Option ℕ) → o ≡ (if n == 0 then none else some n) → Option.get_or o 0 ≡ n
get_or-counted n o h = ground arith

-- The entry of a client with a given number of slots.
abbrev pub entry : ℕ → Option ℕ
entry n = if n == 0 then none else some n

kept : (n : ℕ) → (n == 0) ≡ false → entry n ≡ some n
kept n h = rw h refl

last_gone : (n : ℕ) → (n == 0) ≡ true → none ≡ entry n
last_gone n h = rw h refl

module _ (limit : ℕ) (l : ClientLimiter) (guards : List ClientGuard) (k : Str) where
  current : Counts limit l guards → Option.get_or (Dict.get k l.active) 0 ≡ held_by k guards
  current c = get_or-counted (held_by k guards) (Dict.get k l.active) (c.counted k)

  -- A client under its limit gets a slot.
  pub admit_key-free :
      Counts limit l guards
      → held_by k guards < limit
      → (admit_key k l
          ≡ (some (slot k), record l { active = Dict.update k 0 (λ v. v + 1) l.active }))
        × Counts limit (admit_key k l).1 (slot k ∷ guards)
  unfolding admit_key
  admit_key-free c free =
      let full : leb l.cap (Option.get_or (Dict.get k l.active) 0) ≡ false =
        ground (arith, current c, c.same_cap) in
      rw (full, admit_key)
        (
          refl,
          record {
            same_cap = c.same_cap;
            counted =
                λ j. get-update k j 0 (λ v. v + 1) l.active ∙ more j (Bool-cases (str_eq k j));
            within = λ j. elim (Bool-cases (str_eq k j)) [
              | inl e ↦
                  rw e (omega (arith, free, ap (λ i. held_by i guards) ((str_eq_iff k j).0 e)))
              | inr e ↦ rw e (omega (arith, c.within j))
            ];
          },
        )
    where
      more :
          (j : Str)
          → (str_eq k j ≡ true) ⊎ (str_eq k j ≡ false)
          → (if str_eq k j
              then some (Option.get_or (Dict.get j l.active) 0 + 1)
              else Dict.get j l.active)
            ≡ entry (if str_eq k j then suc (held_by j guards) else held_by j guards)
      more j (inl e) =
          rw e
            (ground (arith, get_or-counted (held_by j guards) (Dict.get j l.active) (c.counted j)))
      more j (inr e) = rw e (c.counted j)

  -- A client at its limit is refused, and its slots stay as they are.
  pub admit_key-full :
      Counts limit l guards
      → 0 < limit
      → limit ≤ held_by k guards
      → ((admit_key k l).0 ≡ none) × Counts limit (admit_key k l).1 guards
  unfolding admit_key
  admit_key-full c pos full =
      let stop : leb l.cap (Option.get_or (Dict.get k l.active) 0) ≡ true =
        ground (arith, current c, c.same_cap) in
      rw (stop, admit_key)
        (
          refl,
          record {
            same_cap = c.same_cap;
            counted = λ j. get-update k j 0 (λ v. v) l.active ∙ same j (Bool-cases (str_eq k j));
            within = c.within;
          },
        )
    where
      same :
          (j : Str)
          → (str_eq k j ≡ true) ⊎ (str_eq k j ≡ false)
          → (if str_eq k j
              then some (Option.get_or (Dict.get j l.active) 0)
              else Dict.get j l.active)
            ≡ entry (held_by j guards)
      same j (inl e) =
          rw e (ground (arith, c.counted j, ap (λ i. held_by i guards) ((str_eq_iff k j).0 e)))
      same j (inr e) = rw e (c.counted j)

  -- A slot that is given back.
  pub release-Counts : Counts limit l (slot k ∷ guards) → Counts limit (release (slot k) l) guards
  unfolding release
  release-Counts c = elim (Bool-cases (held_by k guards == 0)) [
    | inl last ↦
        rw (had, release)
          (rw (left, release)
            (rw (last, release)
              (record {
                same_cap = c.same_cap;
                counted = λ j. get-remove k j l.active ∙ gone j last (Bool-cases (str_eq k j));
                within = smaller;
              })))
    | inr more ↦
        rw (had, release)
          (rw (left, release)
            (rw (more, release)
              (record {
                same_cap = c.same_cap;
                counted = λ j.
                    get-insert k j (held_by k guards) l.active
                    ∙ lowered j more (Bool-cases (str_eq k j));
                within = smaller;
              })))
  ]
    where
      self : str_eq k k ≡ true
      self = (str_eq_iff k k).1 refl

      had : Dict.get k l.active ≡ some (suc (held_by k guards))
      had = (rw self at (c.counted k)) ∙ kept (suc (held_by k guards)) (ground arith)

      left : suc (held_by k guards) - 1 ≡ held_by k guards
      left = omega arith

      smaller : (j : Str) → held_by j guards ≤ limit
      smaller j = elim (Bool-cases (str_eq k j)) [
        | inl e ↦ omega (arith, rw e at (c.within j))
        | inr e ↦ rw e at (c.within j)
      ]

      gone :
          (j : Str)
          → (held_by k guards == 0) ≡ true
          → (str_eq k j ≡ true) ⊎ (str_eq k j ≡ false)
          → (if str_eq k j then none else Dict.get j l.active) ≡ entry (held_by j guards)
      gone j last (inl e) = rw e (
          last_gone (held_by k guards) last
          ∙ ap (λ i. entry (held_by i guards)) ((str_eq_iff k j).0 e))
      gone j last (inr e) = rw e (rw e at (c.counted j))

      lowered :
          (j : Str)
          → (held_by k guards == 0) ≡ false
          → (str_eq k j ≡ true) ⊎ (str_eq k j ≡ false)
          → (if str_eq k j then some (held_by k guards) else Dict.get j l.active)
            ≡ entry (held_by j guards)
      lowered j more (inl e) = rw e (
          sym (kept (held_by k guards) more)
          ∙ ap (λ i. entry (held_by i guards)) ((str_eq_iff k j).0 e))
      lowered j more (inr e) = rw e (rw e at (c.counted j))
