-- ===== src/Visibility/Printed.antt =====
-- The evaluator of crates/query/src/visibility.rs on a printed label, token by token.
use timelakedb.Base.{
  ℕ, zero, suc, ◌+◌, ◌*◌, ◌≤◌, ◌≡◌, refl, ap, subst, ◌∙◌, Bool, true, false, ◌&&◌, ◌||◌,
  if◌then◌else◌, Option, none, some, [], ◌∷◌, ◌++◌, arith, length, length-append, ok, ◌>>=◌, ◌==◌,
  All,
}
use mathlib.Core.List.{append_assoc, append-nil}
use timelakedb.Base.Str.{Str}
use timelakedb.Visibility.{
  Auths, skip_ws, is_token_byte, token_bytes, bare_term, close_paren, mixes, combine, is_op,
  expression, operators, term, finish, evaluate, is_ascii_whitespace,
}
use timelakedb.Visibility.Blank.{is_blank, blank_from, next_byte, start, bad}
use timelakedb.Visibility.Labels.{
  Term, token, paren, Level, level, Terms, end, more, print_term, print, print_terms, meaning_term,
  meaning, all_hold, any_holds, IsTerm, IsLevel, AreTerms,
}

mutual
  cost_term : Term → ℕ
  cost_term (token c s) = 1
  cost_term (paren l) = 1 + cost l

  cost : Level → ℕ
  cost (level op t ts) = 1 + cost_term t + cost_terms ts

  cost_terms : Terms → ℕ
  cost_terms end = 1
  cost_terms (more t ts) = 1 + cost_term t + cost_terms ts

-- No token goes on in what follows.
abbrev Stops : Str → Type 0
Stops [] = Unit
Stops (c ∷ s) = is_token_byte c ≡ false

-- A level ends at what follows.
abbrev Ends : Str → Type 0
Ends [] = Unit
Ends (c ∷ s) = c ≡ b')'

token_bytes-append :
    (s rest : Str)
    → All (λ b. is_token_byte b ≡ true) s
    → Stops rest
    → token_bytes (s ++ rest) ≡ (s, rest)
unfolding token_bytes
token_bytes-append [] [] h k = refl
token_bytes-append [] (c ∷ rest) h k = rw k
token_bytes-append (c ∷ s) rest h k = rw h.0 (rw (token_bytes-append s rest h.1 k))

-- A token byte is no white space, no parenthesis and no quote.
token_byte_plain :
    (c : ℕ)
    → is_token_byte c ≡ true
    → (is_ascii_whitespace c ≡ false) × ((c == b'(') ≡ false) × ((c == b'"') ≡ false)
unfolding is_token_byte is_ascii_whitespace
token_byte_plain c h = ground arith

op_plain : (c : ℕ) → is_op c ≡ true → (is_ascii_whitespace c ≡ false) × (is_token_byte c ≡ false)
unfolding is_token_byte is_ascii_whitespace
op_plain c h = ground arith

skip_ws-plain : (c : ℕ) (s : Str) → is_ascii_whitespace c ≡ false → skip_ws (c ∷ s) ≡ c ∷ s
unfolding skip_ws
skip_ws-plain c s h = rw h

Ends-Stops : (s : Str) → Ends s → Stops s
unfolding is_token_byte
Ends-Stops [] h = tt
Ends-Stops (c ∷ s) h = rw h refl

Stops-terms :
    (op : ℕ) (ts : Terms) (rest : Str)
    → is_op op ≡ true
    → Ends rest
    → Stops (print_terms op ts ++ rest)
Stops-terms op end rest h k = Ends-Stops rest k
Stops-terms op (more t ts) rest h k = (op_plain op h).1

skip_ws-nil : skip_ws [] ≡ []
unfolding skip_ws
skip_ws-nil = refl

mixes-same : (op : ℕ) → mixes (some op) op ≡ false
unfolding mixes
mixes-same op = ground arith

suc-ne-zero : (n : ℕ) → (suc n == 0) ≡ false
suc-ne-zero n = ground arith

skip_ws-paren : (s : Str) → skip_ws (b'(' ∷ s) ≡ b'(' ∷ s
unfolding is_ascii_whitespace
skip_ws-paren s = skip_ws-plain b'(' s refl

skip_ws-close : (s : Str) → skip_ws (b')' ∷ s) ≡ b')' ∷ s
unfolding is_ascii_whitespace
skip_ws-close s = skip_ws-plain b')' s refl

-- What a level means once the terms so far have come to `acc`.
abbrev joined : Auths → ℕ → Bool → Terms → Bool
joined auths op acc ts = if op == b'&' then acc && all_hold auths ts else acc || any_holds auths ts

joined-end : (auths : Auths) (op : ℕ) (acc : Bool) → acc ≡ joined auths op acc end
joined-end auths op acc = ground arith

joined_by :
    (o a b all some_one : Bool)
    → (if o
        then (if o then a && b else a || b) && all
        else (if o then a && b else a || b) || some_one)
      ≡ (if o then a && (b && all) else a || (b || some_one))
joined_by o a b all some_one = ground arith

joined-more :
    (auths : Auths) (op : ℕ) (acc : Bool) (t : Term) (ts : Terms)
    → joined auths op (combine op acc (meaning_term auths t)) ts ≡ joined auths op acc (more t ts)
joined-more auths op acc t ts =
    joined_by (op == b'&') acc (meaning_term auths t) (all_hold auths ts) (any_holds auths ts)

mutual
  unfolding expression operators term cost bare_term close_paren mixes

  term-print :
      (auths : Auths) (t : Term) (f : ℕ) (rest : Str)
      → IsTerm t
      → cost_term t ≤ f
      → Stops rest
      → term f auths (print_term t ++ rest) ≡ ok (meaning_term auths t, rest)
  term-print auths (token c s) zero rest w h k = absurd (omega arith)
  term-print auths (token c s) (suc f) rest w h k =
      let plain = token_byte_plain c w.0 in
      rw (skip_ws-plain c (s ++ rest) plain.0, term)
        (rw plain.1 (
          rw plain.2 (rw (token_bytes-append (c ∷ s) rest w k) (rw (suc-ne-zero (length s)) refl))))
  term-print auths (paren l) zero rest w h k = absurd (omega arith)
  term-print auths (paren l) (suc f) rest w h k =
      rw (skip_ws-paren ((print l ++ b')' ∷ []) ++ rest), term)
        (rw (append_assoc (print l) (b')' ∷ []) rest) (
          rw (expression-print auths l f (b')' ∷ rest) w (omega arith) refl)
            (rw (skip_ws-close rest) refl)))

  expression-print :
      (auths : Auths) (l : Level) (f : ℕ) (rest : Str)
      → IsLevel l
      → cost l ≤ f
      → Ends rest
      → expression f auths (print l ++ rest) ≡ ok (meaning auths l, rest)
  expression-print auths (level op t ts) zero rest w h k = absurd (omega arith)
  expression-print auths (level op t ts) (suc f) rest w h k =
      rw (append_assoc (print_term t) (print_terms op ts) rest) (
        rw
          (term-print auths t f (print_terms op ts ++ rest) w.1 (omega arith)
            (Stops-terms op ts rest w.0 k))
          (operators-print auths ts op f (meaning_term auths t) none rest w.2 (omega arith) k w.0
            refl))

  operators-print :
      (auths : Auths) (ts : Terms) (op f : ℕ) (acc : Bool) (now : Option ℕ) (rest : Str)
      → AreTerms ts
      → cost_terms ts ≤ f
      → Ends rest
      → is_op op ≡ true
      → mixes now op ≡ false
      → operators f auths acc now (print_terms op ts ++ rest) ≡ ok (joined auths op acc ts, rest)
  operators-print auths end op zero acc now rest w h k o m = absurd (omega arith)
  operators-print auths end op (suc f) acc now [] w h k o m =
      rw (skip_ws-nil, operators) (ap (λ v. ok (v, [])) (joined-end auths op acc))
  operators-print auths end op (suc f) acc now (c ∷ rest) w h k o m =
      rw k (
        rw (skip_ws-close rest, operators)
          (ap (λ v. ok (v, b')' ∷ rest)) (joined-end auths op acc)))
  operators-print auths (more t ts) op zero acc now rest w h k o m = absurd (omega arith)
  operators-print auths (more t ts) op (suc f) acc now rest w h k o m =
      rw
        (
          skip_ws-plain op ((print_term t ++ print_terms op ts) ++ rest) (op_plain op o).0,
          operators,
        )
        (rw o (
          rw m (
            rw (append_assoc (print_term t) (print_terms op ts) rest) (
              rw
                (term-print auths t f (print_terms op ts ++ rest) w.0 (omega arith)
                  (Stops-terms op ts rest o k))
                (operators-print auths ts op f (combine op acc (meaning_term auths t)) (some op)
                    rest w.1 (omega arith) k o (mixes-same op)
                  ∙ ap (λ v. ok (v, rest)) (joined-more auths op acc t ts))))))

blank_from-bad : (s : Str) → blank_from bad s ≡ false
unfolding blank_from next_byte
blank_from-bad [] = refl
blank_from-bad (c ∷ s) = blank_from-bad s

-- A token byte is not white.
next_byte-start : (c : ℕ) → is_token_byte c ≡ true → next_byte start c ≡ bad
unfolding next_byte is_token_byte
next_byte-start c h = ground arith

is_blank-term : (t : Term) (rest : Str) → IsTerm t → is_blank (print_term t ++ rest) ≡ false
unfolding is_blank blank_from next_byte
is_blank-term (token c s) rest w =
    ap (λ z. blank_from z (s ++ rest)) (next_byte-start c w.0) ∙ blank_from-bad (s ++ rest)
is_blank-term (paren l) rest w = blank_from-bad ((print l ++ b')' ∷ []) ++ rest)

mutual
  unfolding cost

  cost_term-bound : (t : Term) → cost_term t + 1 ≤ 2 * length (print_term t)
  cost_term-bound (token c s) = omega arith
  cost_term-bound (paren l) = omega (arith, cost-bound l, length-append (print l) (b')' ∷ []))

  cost-bound : (l : Level) → cost l ≤ 2 * length (print l) + 1
  cost-bound (level op t ts) = omega (
    arith,
    cost_term-bound t,
    cost_terms-bound op ts,
    length-append (print_term t) (print_terms op ts),
  )

  cost_terms-bound : (op : ℕ) (ts : Terms) → cost_terms ts ≤ 2 * length (print_terms op ts) + 1
  cost_terms-bound op end = omega arith
  cost_terms-bound op (more t ts) = omega (
    arith,
    cost_term-bound t,
    cost_terms-bound op ts,
    length-append (print_term t) (print_terms op ts),
  )

finish-nil : (v : Bool) → finish (v, []) ≡ ok v
unfolding finish skip_ws
finish-nil v = refl

expression-whole :
    (auths : Auths) (l : Level) (f : ℕ)
    → IsLevel l
    → cost l ≤ f
    → expression f auths (print l) ≡ ok (meaning auths l, [])
expression-whole auths l f w h =
    subst (λ s. expression f auths s ≡ ok (meaning auths l, [])) (append-nil (print l))
      (expression-print auths l f [] w h tt)

-- A label of tokens, `&`, `|` and parentheses, one operator to a level, evaluates without an error to
-- what it means for the session's authorizations: every term of a level of `&` holds, or some term of
-- a level of `|`.
pub evaluate-print :
    (auths : Auths) (l : Level) → IsLevel l → evaluate (print l) auths ≡ ok (meaning auths l)
unfolding evaluate
evaluate-print auths (level op t ts) w =
    let l = level op t ts in
    rw (is_blank-term t (print_terms op ts) w.1, evaluate)
      (ap (λ r. r >>= finish)
          (expression-whole auths l (2 * length (print l) + 2) w (omega (arith, cost-bound l)))
        ∙ finish-nil (meaning auths l))
