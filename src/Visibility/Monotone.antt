-- ===== src/Visibility/Monotone.antt =====
-- A label of crates/query/src/visibility.rs under two sets of authorizations.
use timelakedb.Base.{
  ℕ, zero, suc, ◌+◌, ◌*◌, ◌≡◌, Bool, true, false, Option, none, some, [], ◌∷◌, arith, length,
  Result, ok, err, ◌>>=◌, ◌==◌, if◌then◌else◌, List-cases, inl, inr, Bool-cases,
}
use timelakedb.Base.Str.{Str}
use timelakedb.Visibility.{
  LabelError, empty_token, Auths, holds, skip_ws, token_bytes, quoted, quoted_term, bare_term,
  close_paren, mixes, combine, is_op, expression, operators, term, finish, evaluate, is_visible,
}
use timelakedb.Visibility.Blank.{is_blank}

-- The two parses end alike, with the same error or at the same place, and the first value is at
-- most the second.
data Below : Result LabelError (Bool × Str) → Result LabelError (Bool × Str) → Type 0 where
  both_ok : {v w : Bool} {s : Str} → (v ≡ true → w ≡ true) → Below (ok (v, s)) (ok (w, s))
  both_err : {e : LabelError} → Below (err e) (err e)

Below-if :
    (b : Bool) {x y x' y' : Result LabelError (Bool × Str)}
    → Below x x'
    → Below y y'
    → Below (if b then x else y) (if b then x' else y')
Below-if true h k = h
Below-if false h k = k

Below-bind :
    {r r' : Result LabelError (Bool × Str)} (f g : Bool × Str → Result LabelError (Bool × Str))
    → Below r r'
    → ((v w : Bool) (s : Str) → (v ≡ true → w ≡ true) → Below (f (v, s)) (g (w, s)))
    → Below (r >>= f) (r' >>= g)
Below-bind f g (both_ok {v} {w} {s} h) k = k v w s h
Below-bind f g both_err k = both_err

module _ (auths more : Auths)
    (sub : (tok : Str) → holds auths tok ≡ true → holds more tok ≡ true) where
  Below-quoted_term : (s : Str) → Below (quoted_term auths s) (quoted_term more s)
  unfolding quoted_term
  Below-quoted_term s = go (quoted [] s)
    where
      go :
          (r : Result LabelError (Str × Str))
          → Below
              (r >>= λ p. if length p.0 == 0 then err empty_token else ok (holds auths p.0, p.1))
              (r >>= λ p. if length p.0 == 0 then err empty_token else ok (holds more p.0, p.1))
      go (ok (tok, rest)) = Below-if (length tok == 0) both_err (both_ok (sub tok))
      go (err e) = both_err

  Below-bare_term : (s : Str) → Below (bare_term auths s) (bare_term more s)
  unfolding bare_term
  Below-bare_term s =
      Below-if (length (token_bytes s).0 == 0) both_err (both_ok (sub (token_bytes s).0))

  Below-close_paren :
      (v w : Bool) (s : Str) → (v ≡ true → w ≡ true) → Below (close_paren v s) (close_paren w s)
  unfolding close_paren
  Below-close_paren v w [] h = both_err
  Below-close_paren v w (c ∷ s) h = Below-if (c == b')') (both_ok h) both_err

  combine_mono :
      (op : ℕ) (v w x y : Bool)
      → (v ≡ true → w ≡ true)
      → (x ≡ true → y ≡ true)
      → combine op v x ≡ true
      → combine op w y ≡ true
  combine_mono op v w x y h k = ground arith

  mutual
    unfolding expression operators term

    Below-expression : (f : ℕ) (s : Str) → Below (expression f auths s) (expression f more s)
    Below-expression zero s = both_err
    Below-expression (suc f) s =
        Below-bind _ _ (Below-term f s) (λ v w rest h. Below-operators f v w none rest h)

    Below-operators :
        (f : ℕ) (v w : Bool) (level : Option ℕ) (s : Str)
        → (v ≡ true → w ≡ true)
        → Below (operators f auths v level s) (operators f more w level s)
    Below-operators zero v w level s h = both_err
    Below-operators (suc f) v w level s h = elim (List-cases (skip_ws s)) [
      | inl e ↦ rw (e, operators) (both_ok h)
      | inr (op, rest, e) ↦
          rw (e, operators)
            (Below-if (is_op op)
              (Below-if (mixes level op) both_err (
                Below-bind _ _ (Below-term f rest) (λ x y after k.
                  Below-operators f (combine op v x) (combine op w y) (some op) after
                    (combine_mono op v w x y h k))))
              (both_ok h))
    ]

    Below-term : (f : ℕ) (s : Str) → Below (term f auths s) (term f more s)
    Below-term zero s = both_err
    Below-term (suc f) s = elim (List-cases (skip_ws s)) [
      | inl e ↦ rw (e, term) both_err
      | inr (c, rest, e) ↦
          rw (e, term)
            (Below-if (c == b'(')
              (Below-bind _ _ (Below-expression f rest)
                (λ v w after h. Below-close_paren v w (skip_ws after) h))
              (Below-if (c == b'"') (Below-quoted_term rest) (Below-bare_term (c ∷ rest))))
    ]

  value : Result LabelError Bool → Bool
  value r = elim r [ ok v ↦ v | err _ ↦ false ]

  value-finish :
      {r r' : Result LabelError (Bool × Str)}
      → Below r r'
      → value (r >>= finish) ≡ true
      → value (r' >>= finish) ≡ true
  unfolding value finish
  value-finish (both_ok {v} {w} {s} h) = elim (List-cases (skip_ws s)) [
    | inl e ↦ rw (e, finish) h
    | inr (c, rest, e) ↦ rw (e, finish) (λ q. q)
  ]
  value-finish both_err = λ q. q

  -- A session that holds every authorization of another sees every row that the other sees,
  -- whatever the label's text.
  pub is_visible_mono : (expr : Str) → is_visible expr auths ≡ true → is_visible expr more ≡ true
  unfolding is_visible evaluate value
  is_visible_mono expr = elim (Bool-cases (is_blank expr)) [
    | inl e ↦ rw (e, is_visible, evaluate) (λ q. q)
    | inr e ↦
        rw (e, is_visible, evaluate) (value-finish (Below-expression (2 * length expr + 2) expr))
  ]
