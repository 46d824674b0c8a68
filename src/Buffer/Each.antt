-- ===== src/Buffer/Each.antt =====
-- What every column of a map satisfies, through the writes and the padding of crates/buffer/src/lib.rs.
use timelakedb.Base.{
  ◌≡◌, sym, ap, ◌∙◌, subst, inl, inr, Bool, true, false, Option, some, List, [], ◌∷◌, Option-cases,
  Bool-cases, any, ◌||◌, arith,
}
use timelakedb.Base.Str.{Str, str_eq, str_eq_iff}
use timelakedb.Base.Dict.{Dict, get, insert, str_key, get-insert}
use timelakedb.Buffer.Table.{pad_named}

abbrev pub Each : {C : Type 0} → (Str → C → Type 0) → Dict Str C → Type 0
Each {C} R cols = (k : Str) (c : C) → get k cols ≡ some c → R k c

pub some-same : {A : Type 0} (a b : A) → ◌≡◌ {A = Option A} (some a) (some b) → a ≡ b
some-same a b h = cc h

pub insert-Each :
    {C : Type 0} (R : Str → C → Type 0) (k : Str) (c : C) (cols : Dict Str C)
    → R k c
    → ((j : Str) (d : C) → str_eq k j ≡ false → get j cols ≡ some d → R j d)
    → Each R (insert k c cols)
insert-Each R k c cols new old j d h = elim (Bool-cases (str_eq k j)) [
  | inl e ↦
      let found = rw e at (sym (get-insert k j c cols) ∙ h) in
      subst (λ i. R i d) ((str_eq_iff k j).0 e) (subst (R k) (some-same c d found) new)
  | inr e ↦ old j d e (rw e at (sym (get-insert k j c cols) ∙ h))
]

-- The name is one of the names.
abbrev pub named : List Str → Str → Bool
named names k = any (λ n. str_eq n k) names

moved : (a b c : Bool) → ((a || b) || c) ≡ true → (b || (a || c)) ≡ true
moved a b c h = ground arith

-- Padding every named column brings the named ones from `Q` to `P`.
pub pad_named-Each :
    {C : Type 0} (pad : C → C) (P Q : C → Type 0) (done names : List Str) (cols after : Dict Str C)
    → ((c : C) → Q c → P (pad c))
    → ((c : C) → P c → Q c)
    → Each (λ k c. Q c × (named done k ≡ true → P c)) cols
    → pad_named pad names cols ≡ some after
    → Each (λ k c. (named names k || named done k) ≡ true → P c) after
unfolding pad_named
pad_named-Each pad P Q done [] cols after to back old h k c g =
    (old k c (ap (get k) (some-same cols after h) ∙ g)).1
pad_named-Each {C} pad P Q done (n ∷ names) cols after to back old h k c g =
    elim (Option-cases (get n cols)) [
      | inl e ↦ absurd (cc (rw (e, pad_named) at h))
      | inr (c0, e) ↦
          let good = to c0 (old n c0 e).0 in
          let next =
            insert-Each (λ j d. Q d × (named (n ∷ done) j ≡ true → P d)) n (pad c0) cols
              (back (pad c0) good, λ m. good)
              (λ j d ne q. ((old j d q).0, λ m. (old j d q).1 (rw ne at m))) in
          λ m.
            pad_named-Each pad P Q (n ∷ done) names (insert n (pad c0) cols) after to back next
              (rw (e, pad_named) at h) k c g (moved (str_eq n k) (named names k) (named done k) m)
    ]
