-- ===== src/Visibility/Shorter.antt =====
-- What the parser of crates/query/src/visibility.rs leaves of its input, and its fuel.
use timelakedb.Base.{
  ℕ, zero, suc, ◌+◌, ◌*◌, ◌≤◌, ◌<◌, ◌≡◌, ◌≢◌, refl, Bool, Option, none, some, [], ◌∷◌, arith,
  length, Result, ok, err, ◌>>=◌, ◌==◌, if◌then◌else◌, if_elim, ◌||◌, List-cases, inl, inr, ap,
}
use timelakedb.Base.Str.{Str}
use timelakedb.Visibility.Blank.{is_blank}
use timelakedb.Visibility.{
  LabelError, out_of_fuel, empty_token, holds, push_byte, Auths, skip_ws, token_bytes, quoted,
  quoted_term, bare_term, close_paren, mixes, combine, is_op, expression, operators, term, finish,
  evaluate,
}

-- The parse did not run out of fuel, and it left fewer than `n` bytes.
abbrev Leaves : ℕ → Result LabelError (Bool × Str) → Type 0
Leaves n (ok (v, s)) = length s < n
Leaves n (err e) = e ≢ out_of_fuel

length-skip_ws : (s : Str) → length (skip_ws s) ≤ length s
unfolding skip_ws
length-skip_ws [] = omega arith
length-skip_ws (c ∷ s) = ground (arith, length-skip_ws s)

length-token_bytes : (s : Str) → length (token_bytes s).0 + length (token_bytes s).1 ≡ length s
unfolding token_bytes
length-token_bytes [] = refl
length-token_bytes (c ∷ s) = ground (arith, length-token_bytes s)

-- A term leaves fewer bytes than it was given.
Leaves-bare_term : (auths : Auths) (s : Str) → Leaves (length s) (bare_term auths s)
unfolding bare_term
Leaves-bare_term auths s =
    if_elim (Leaves (length s)) (length (token_bytes s).0 == 0) (λ e. λ p. cc p)
      (λ e. ground (arith, length-token_bytes s))

abbrev LeavesToken : ℕ → Result LabelError (Str × Str) → Type 0
LeavesToken n (ok (tok, s)) = length s < n
LeavesToken n (err e) = e ≢ out_of_fuel

LeavesToken-mono :
    (n m : ℕ) (r : Result LabelError (Str × Str)) → n ≤ m → LeavesToken n r → LeavesToken m r
LeavesToken-mono n m (ok r) l h = omega arith
LeavesToken-mono n m (err e) l h = h

LeavesToken-quoted : (tok s : Str) → LeavesToken (length s) (quoted tok s)
unfolding quoted
LeavesToken-quoted tok [] = λ p. cc p
LeavesToken-quoted tok (c ∷ []) =
    if_elim (LeavesToken 1) (c == b'"') (λ e. omega arith)
      (λ e. if_elim (LeavesToken 1) (c == b'\\') (λ e. λ p. cc p) (λ e. λ p. cc p))
LeavesToken-quoted tok (c ∷ d ∷ s) =
    let n = suc (suc (length s)) in
    let escaped =
      LeavesToken-mono (length s) n _ (omega arith) (LeavesToken-quoted (push_byte tok d) s) in
    let plain =
      LeavesToken-mono (suc (length s)) n _ (omega arith)
        (LeavesToken-quoted (push_byte tok c) (d ∷ s)) in
    if_elim (LeavesToken n) (c == b'"') (λ e. omega arith)
      (λ e.
        if_elim (LeavesToken n) (c == b'\\')
          (λ e. if_elim (LeavesToken n) (d == b'"' || d == b'\\') (λ e. escaped) (λ e. λ p. cc p))
          (λ e. plain))

Leaves-quoted_term : (auths : Auths) (s : Str) → Leaves (length s) (quoted_term auths s)
unfolding quoted_term
Leaves-quoted_term auths s = go (quoted [] s) (LeavesToken-quoted [] s)
  where
    go :
        (r : Result LabelError (Str × Str))
        → LeavesToken (length s) r
        → Leaves
            (length s)
            (r >>= λ p. if length p.0 == 0 then err empty_token else ok (holds auths p.0, p.1))
    go (ok (tok, rest)) h = if_elim (Leaves (length s)) (length tok == 0) (λ e. λ p. cc p) (λ e. h)
    go (err e) h = h

Leaves-close_paren : (v : Bool) (s : Str) → Leaves (length s) (close_paren v s)
unfolding close_paren
Leaves-close_paren v [] = λ p. cc p
Leaves-close_paren v (c ∷ s) =
    if_elim (Leaves (suc (length s))) (c == b')') (λ e. omega arith) (λ e. λ p. cc p)

Leaves-mono : (n m : ℕ) (r : Result LabelError (Bool × Str)) → n ≤ m → Leaves n r → Leaves m r
Leaves-mono n m (ok r) l h = omega arith
Leaves-mono n m (err e) l h = h

-- The rest of a bind runs on fewer bytes.
Leaves-bind :
    (n m : ℕ) (r : Result LabelError (Bool × Str)) (f : Bool × Str → Result LabelError (Bool × Str))
    → Leaves n r
    → ((p : Bool × Str) → length p.1 < n → Leaves m (f p))
    → Leaves m (r >>= f)
Leaves-bind n m (ok p) f h k = k p h
Leaves-bind n m (err e) f h k = h

-- The bytes behind the first one that is no white space.
shorter : (s : Str) {c : ℕ} {rest : Str} → skip_ws s ≡ c ∷ rest → length rest < length s
shorter s e = omega (arith, length-skip_ws s, ap length e)

mutual
  unfolding expression operators term

  Leaves-expression :
      (f : ℕ) (auths : Auths) (s : Str)
      → 2 * length s + 1 < f
      → Leaves (length s) (expression f auths s)
  Leaves-expression zero auths s h = absurd (omega arith)
  Leaves-expression (suc f) auths s h =
      Leaves-bind (length s) (length s) (term f auths s) _ (Leaves-term f auths s (omega arith))
        (λ p l.
          Leaves-mono _ _ (operators f auths p.0 none p.1) (omega arith)
            (Leaves-operators f auths p.0 none p.1 (omega arith)))

  Leaves-operators :
      (f : ℕ) (auths : Auths) (acc : Bool) (level : Option ℕ) (s : Str)
      → 2 * length s < f
      → Leaves (length s + 1) (operators f auths acc level s)
  Leaves-operators zero auths acc level s h = absurd (omega arith)
  Leaves-operators (suc f) auths acc level s h = elim (List-cases (skip_ws s)) [
    | inl e ↦ rw (e, operators) (omega arith)
    | inr (op, rest, e) ↦
        let less = shorter s e in
        rw (e, operators)
          (if_elim (Leaves (length s + 1)) (is_op op)
            (λ p.
              if_elim (Leaves (length s + 1)) (mixes level op) (λ m. λ q. cc q)
                (λ m.
                  Leaves-bind (length rest) (length s + 1) (term f auths rest) _
                    (Leaves-term f auths rest (omega arith))
                    (λ r l.
                      Leaves-mono _ _ (operators f auths (combine op acc r.0) (some op) r.1)
                        (omega arith)
                        (Leaves-operators f auths (combine op acc r.0) (some op) r.1
                          (omega arith)))))
            (λ p. omega arith))
  ]

  Leaves-term :
      (f : ℕ) (auths : Auths) (s : Str) → 2 * length s < f → Leaves (length s) (term f auths s)
  Leaves-term zero auths s h = absurd (omega arith)
  Leaves-term (suc f) auths s h = elim (List-cases (skip_ws s)) [
    | inl e ↦ rw (e, term) (λ q. cc q)
    | inr (c, rest, e) ↦
        let less = shorter s e in
        rw (e, term)
          (if_elim (Leaves (length s)) (c == b'(')
            (λ p.
              Leaves-bind (length rest) (length s) (expression f auths rest) _
                (Leaves-expression f auths rest (omega arith))
                (λ r l.
                  Leaves-mono _ _ (close_paren r.0 (skip_ws r.1))
                    (omega (arith, length-skip_ws r.1)) (Leaves-close_paren r.0 (skip_ws r.1))))
            (λ p.
              if_elim (Leaves (length s)) (c == b'"')
                (λ q.
                  Leaves-mono _ _ (quoted_term auths rest) (omega arith)
                    (Leaves-quoted_term auths rest))
                (λ q.
                  Leaves-mono _ _ (bare_term auths (c ∷ rest)) (omega arith)
                    (Leaves-bare_term auths (c ∷ rest)))))
  ]

finish-ne-out_of_fuel : (r : Bool × Str) → finish r ≢ err out_of_fuel
unfolding finish
finish-ne-out_of_fuel (v, s) = elim (List-cases (skip_ws s)) [
  | inl e ↦ rw (e, finish) (λ q. cc q)
  | inr (c, rest, e) ↦ rw (e, finish) (λ q. cc q)
]

-- The fuel that `evaluate` gives is enough for every label.
pub evaluate-ne-out_of_fuel : (expr : Str) (auths : Auths) → evaluate expr auths ≢ err out_of_fuel
unfolding evaluate
evaluate-ne-out_of_fuel expr auths =
    if_elim (λ r. r ≢ err out_of_fuel) (is_blank expr) (λ e. λ q. cc q)
      (λ e.
        go (expression (2 * length expr + 2) auths expr)
          (Leaves-expression (2 * length expr + 2) auths expr (omega arith)))
  where
    go :
        (r : Result LabelError (Bool × Str))
        → Leaves (length expr) r
        → (r >>= finish) ≢ err out_of_fuel
    go (ok p) h = finish-ne-out_of_fuel p
    go (err e) h = λ q. h (cc q)
