-- ===== src/Base/Ascending.antt =====
-- Dictionaries with ascending numbers as keys, which a listing in the order of the keys leaves as they
-- are.
use Prim.Native.Nat.{ℕ, ◌≤◌, ◌<◌}
use mathlib.Core.Path.{◌≡◌, refl}
use mathlib.Core.Bool.{Bool}
use mathlib.Core.List.{List, [], ◌∷◌, ◌++◌}
use native.Mathlib.Omega.{arith}
use timelakedb.Base.Tests.{ltb, le→ltb, ◌==◌, ==_iff, if_elim}
use timelakedb.Base.Lists.{retain, All, All-append}
use timelakedb.Base.Sort.{sort_by, insert_by}
use timelakedb.Base.Dict.{Dict, update, number_key}

abbrev pub Ascending {ℓ} : {V : Type ℓ} → Dict ℕ V → Type ℓ
Ascending [] = Unit
Ascending (e ∷ log) = All (λ d. e.0 < d.0) log × Ascending log

pub All-retain {ℓ κ} :
    {A : Type ℓ} (P : A → Type κ) (p : A → Bool) (l : List A) → All P l → All P (retain p l)
All-retain P p [] h = tt
All-retain P p (x ∷ l) h =
    if_elim (All P) (p x) (λ e. (h.0, All-retain P p l h.1)) (λ e. All-retain P p l h.1)

pub Ascending-retain {ℓ} :
    {V : Type ℓ} (p : ℕ × V → Bool) (m : Dict ℕ V) → Ascending m → Ascending (retain p m)
Ascending-retain p [] h = tt
Ascending-retain p (x ∷ m) h =
    if_elim Ascending (p x) (λ e. (All-retain _ p m h.0, Ascending-retain p m h.1))
      (λ e. Ascending-retain p m h.1)

pub All-update {ℓ κ} :
    {V : Type ℓ} (P : ℕ × V → Type κ) (g : ℕ) (d : V) (f : V → V) (m : Dict ℕ V)
    → P (g, f d)
    → ((j : ℕ) (v : V) → j ≡ g → P (j, v) → P (j, f v))
    → All P m
    → All P (update g d f m)
unfolding update
All-update P g d f [] new old h = (new, tt)
All-update P g d f ((j, v) ∷ m) new old h =
    if_elim (All P) (j == g) (λ e. (old j v ((==_iff j g).0 e) h.0, h.1))
      (λ e. (h.0, All-update P g d f m new old h.1))

pub Ascending-update {ℓ} :
    {V : Type ℓ} (g : ℕ) (d : V) (f : V → V) (m : Dict ℕ V)
    → Ascending m
    → All (λ e. e.0 ≤ g) m
    → Ascending (update g d f m)
unfolding update
Ascending-update g d f [] h k = (tt, tt)
Ascending-update g d f ((j, v) ∷ m) h k =
    if_elim Ascending (j == g) (λ e. h)
      (λ e. (
        All-update (λ q. j < q.0) g d f m (ground arith) (λ i w q l. l) h.0,
        Ascending-update g d f m h.1 k.1,
      ))

-- The order of the keys.
abbrev pub by_number {ℓ} : {V : Type ℓ} → ℕ × V → ℕ × V → Bool
by_number a b = ltb a.0 b.0

insert_by-first {ℓ} :
    {V : Type ℓ} (e : ℕ × V) (m : Dict ℕ V)
    → All (λ d. e.0 < d.0) m
    → insert_by by_number e m ≡ e ∷ m
unfolding insert_by
insert_by-first e [] h = refl
insert_by-first e (d ∷ m) h = rw (le→ltb d.0 e.0 (omega arith)) refl

pub sort_by-Ascending {ℓ} : {V : Type ℓ} (m : Dict ℕ V) → Ascending m → sort_by by_number m ≡ m
unfolding sort_by
sort_by-Ascending [] h = refl
sort_by-Ascending (e ∷ m) h = rw (sort_by-Ascending m h.1, sort_by) (insert_by-first e m h.0)

pub Ascending-append {ℓ} :
    {V : Type ℓ} (m : Dict ℕ V) (g : ℕ) (v : V)
    → Ascending m
    → All (λ e. e.0 < g) m
    → Ascending (m ++ (g, v) ∷ [])
Ascending-append [] g v h k = (tt, tt)
Ascending-append (e ∷ m) g v h k =
    (All-append (λ d. e.0 < d.0) m ((g, v) ∷ []) h.0 (k.0, tt), Ascending-append m g v h.1 k.1)
