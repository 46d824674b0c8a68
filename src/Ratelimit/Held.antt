-- ===== src/Ratelimit/Held.antt =====
-- The slots of crates/server/src/ratelimit.rs against the guards that are held.
use timelakedb.Base.{
  ℕ, zero, suc, ◌<◌, ◌≡◌, refl, sym, ap, ◌∙◌, subst, ◌↔◌, inl, inr, true, false, Option, none, some,
  List, [], ◌∷◌, leb, ◌==◌, if◌then◌else◌, arith, Bool-cases, Option-cases,
}
use timelakedb.Base.Str.{Str, str_eq}
use timelakedb.Base.Dict
use timelakedb.Base.Dict.{Dict, str_key, get-update, get-remove, get-insert}
use timelakedb.Ratelimit.{ClientLimiter, new, ClientGuard, noop, slot, admit, admit_key, release}
use timelakedb.Ratelimit.Slots.{
  entry, held_by, pick, step, run, admit_key-free, admit_key-full, release-Counts, Event, Counts,
  arrive, leave,
}

-- A guard before others.
abbrev behind : Str → ClientGuard → ℕ → ℕ
behind k noop n = n
behind k (slot j) n = if str_eq j k then suc n else n

behind_comm :
    (k : Str) (a b : ClientGuard) (n : ℕ) → behind k a (behind k b n) ≡ behind k b (behind k a n)
behind_comm k noop b n = refl
behind_comm k (slot i) noop n = refl
behind_comm k (slot i) (slot j) n = ground arith

held_by-behind :
    (k : Str) (g : ClientGuard) (guards : List ClientGuard)
    → held_by k (g ∷ guards) ≡ behind k g (held_by k guards)
held_by-behind k noop guards = refl
held_by-behind k (slot j) guards = refl

swap :
    (k : Str) (a b : ClientGuard) (guards : List ClientGuard)
    → held_by k (a ∷ b ∷ guards) ≡ held_by k (b ∷ a ∷ guards)
swap k a b guards =
    held_by-behind k a (b ∷ guards)
    ∙ ap (behind k a) (held_by-behind k b guards)
    ∙ behind_comm k a b (held_by k guards)
    ∙ ap (behind k b) (sym (held_by-behind k a guards))
    ∙ sym (held_by-behind k b (a ∷ guards))

held_by-pick :
    (j : Str) (n : ℕ) (guards : List ClientGuard) (g : ClientGuard) (rest : List ClientGuard)
    → pick n guards ≡ some (g, rest)
    → held_by j (g ∷ rest) ≡ held_by j guards
held_by-pick j n [] g rest h = absurd (cc h)
held_by-pick j zero (x ∷ guards) g rest h =
    let pair : ◌≡◌ {A = ClientGuard × List ClientGuard} (x, guards) (g, rest) = cc h in
    ap (λ p. held_by j (p.0 ∷ p.1)) (sym pair)
held_by-pick j (suc n) (x ∷ guards) g rest h = elim (Option-cases (pick n guards)) [
  | inl e ↦ absurd (cc (rw e at h))
  | inr (p, e) ↦
      let pair : ◌≡◌ {A = ClientGuard × List ClientGuard} (p.0, x ∷ p.1) (g, rest) =
        cc (rw e at h) in
      ap (λ q. held_by j (q.0 ∷ q.1)) (sym pair)
      ∙ swap j p.0 x p.1
      ∙ held_by-behind j x (p.0 ∷ p.1)
      ∙ ap (behind j x) (held_by-pick j n guards p.0 p.1 e)
      ∙ sym (held_by-behind j x guards)
]

-- What an arrival leaves behind.
abbrev Arrived : ℕ → List ClientGuard → Option ClientGuard → ClientLimiter → Type 0
Arrived limit guards none l = Counts limit l guards
Arrived limit guards (some g) l = Counts limit l (g ∷ guards)

with_noop :
    (limit : ℕ) (l : ClientLimiter) (guards : List ClientGuard)
    → Counts limit l guards
    → Counts limit l (noop ∷ guards)
with_noop limit l guards c = record {
  same_cap = c.same_cap;
  counted = c.counted;
  within = c.within;
}

without_noop :
    (limit : ℕ) (l : ClientLimiter) (guards : List ClientGuard)
    → Counts limit l (noop ∷ guards)
    → Counts limit l guards
without_noop limit l guards c = record {
  same_cap = c.same_cap;
  counted = c.counted;
  within = c.within;
}

admit-on : (k : Str) (l : ClientLimiter) → (l.cap == 0) ≡ false → admit (some k) l ≡ admit_key k l
unfolding admit
admit-on k l h = rw h refl

admit-off : (k : Str) (l : ClientLimiter) → (l.cap == 0) ≡ true → admit (some k) l ≡ (some noop, l)
unfolding admit
admit-off k l h = rw h refl

admit-Arrived :
    (limit : ℕ) (l : ClientLimiter) (guards : List ClientGuard) (key : Option Str)
    → Counts limit l guards
    → Arrived limit guards (admit key l).0 (admit key l).1
unfolding admit
admit-Arrived limit l guards none c = with_noop limit l guards c
admit-Arrived limit l guards (some k) c = elim (Bool-cases (l.cap == 0)) [
  | inl off ↦ arrived (sym (admit-off k l off)) (with_noop limit l guards c)
  | inr on ↦ elim (Bool-cases (leb limit (held_by k guards))) [
    | inl full ↦
        let refused =
          admit_key-full limit l guards k c (ground (arith, c.same_cap)) (ground arith) in
        arrived (sym (admit-on k l on))
          (subst (λ g. Arrived limit guards g (admit_key k l).1) (sym refused.0) refused.1)
    | inr free ↦
        let taken = admit_key-free limit l guards k c (ground arith) in
        arrived (sym (admit-on k l on)) (
          subst (λ g. Arrived limit guards g (admit_key k l).1) (sym (ap (λ r. r.0) taken.0))
            taken.1)
  ]
]
  where
    arrived :
        {r q : Option ClientGuard × ClientLimiter}
        → r ≡ q
        → Arrived limit guards r.0 r.1
        → Arrived limit guards q.0 q.1
    arrived e h = subst (λ p. Arrived limit guards p.0 p.1) e h

admit-Counts :
    (limit : ℕ) (l : ClientLimiter) (guards : List ClientGuard) (key : Option Str)
    → Counts limit l guards
    → Counts limit (step (l, guards) (arrive key)).0 (step (l, guards) (arrive key)).1
unfolding step
admit-Counts limit l guards key c = go (admit key l).0 refl (admit-Arrived limit l guards key c)
  where
    go :
        (o : Option ClientGuard)
        → (admit key l).0 ≡ o
        → Arrived limit guards (admit key l).0 (admit key l).1
        → Counts limit (step (l, guards) (arrive key)).0 (step (l, guards) (arrive key)).1
    go none e h = rw (e, step) (subst (λ g. Arrived limit guards g (admit key l).1) e h)
    go (some g) e h = rw (e, step) (subst (λ g. Arrived limit guards g (admit key l).1) e h)

leave-Counts :
    (limit : ℕ) (l : ClientLimiter) (guards : List ClientGuard) (n : ℕ)
    → Counts limit l guards
    → Counts limit (step (l, guards) (leave n)).0 (step (l, guards) (leave n)).1
unfolding step release
leave-Counts limit l guards n c = elim (Option-cases (pick n guards)) [
  | inl e ↦ rw (e, step) c
  | inr (p, e) ↦
      rw (e, step)
        (given_back p.0 p.1 (record {
          same_cap = c.same_cap;
          counted = λ k. c.counted k ∙ ap entry (sym (held_by-pick k n guards p.0 p.1 e));
          within = λ k. omega (arith, c.within k, held_by-pick k n guards p.0 p.1 e);
        }))
]
  where
    given_back :
        (g : ClientGuard) (rest : List ClientGuard)
        → Counts limit l (g ∷ rest)
        → Counts limit (release g l) rest
    given_back noop rest d = without_noop limit l rest d
    given_back (slot k) rest d = release-Counts limit l rest k d

step-Counts :
    (limit : ℕ) (l : ClientLimiter) (guards : List ClientGuard) (e : Event)
    → Counts limit l guards
    → Counts limit (step (l, guards) e).0 (step (l, guards) e).1
step-Counts limit l guards (arrive key) c = admit-Counts limit l guards key c
step-Counts limit l guards (leave n) c = leave-Counts limit l guards n c

run-Counts :
    (limit : ℕ) (l : ClientLimiter) (guards : List ClientGuard) (events : List Event)
    → Counts limit l guards
    → Counts limit (run (l, guards) events).0 (run (l, guards) events).1
unfolding run
run-Counts limit l guards [] c = c
run-Counts limit l guards (e ∷ events) c =
    run-Counts limit (step (l, guards) e).0 (step (l, guards) e).1 events
      (step-Counts limit l guards e c)

-- After any arrivals and ends of queries, in any order, no client holds more slots than the cap, and the
-- map has an entry for exactly the clients that hold some, with their number.
pub run-new-Counts :
    (limit : ℕ) (events : List Event)
    → Counts limit (run (new limit, []) events).0 (run (new limit, []) events).1
unfolding Dict.get
run-new-Counts limit events =
    run-Counts limit (new limit) [] events
      (record { same_cap = refl; counted = λ k. refl; within = λ k. omega arith })

refused-Counts :
    (limit : ℕ) (l : ClientLimiter) (guards : List ClientGuard) (k : Str)
    → Counts limit l guards
    → 0 < limit
    → ((admit (some k) l).0 ≡ none) ↔ (held_by k guards ≡ limit)
refused-Counts limit l guards k c pos =
    let on : admit (some k) l ≡ admit_key k l = admit-on k l (ground (arith, c.same_cap)) in
    elim (Bool-cases (leb limit (held_by k guards))) [
      | inl full ↦
          let stop = admit_key-full limit l guards k c pos (ground arith) in
          rw on (λ h. ground (arith, c.within k), λ h. stop.0)
      | inr free ↦
          let taken = admit_key-free limit l guards k c (ground arith) in
          rw on (λ h. absurd (cc (sym h ∙ ap (λ r. r.0) taken.0)), λ h. ground arith)
    ]

-- In a state that events lead to, and with the cap on, a query of a client is refused exactly if the
-- client holds as many slots as the cap.
pub admit-refused :
    (limit : ℕ) (events : List Event) (k : Str)
    → 0 < limit
    → ((admit (some k) (run (new limit, []) events).0).0 ≡ none)
      ↔ (held_by k (run (new limit, []) events).1 ≡ limit)
admit-refused limit events k pos =
    refused-Counts limit (run (new limit, []) events).0 (run (new limit, []) events).1 k
      (run-new-Counts limit events) pos
