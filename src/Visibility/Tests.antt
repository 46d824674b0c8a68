-- ===== src/Visibility/Tests.antt =====
-- The theorems on visibility labels at concrete labels, and runs of the evaluator.
use timelakedb.Base.{◌≡◌, ◌≢◌, refl, true, false, [], ◌∷◌, Bool, ◌||◌, ok, err}
use timelakedb.Base.Str.{str, str_eq}
use timelakedb.Visibility.{
  Auths, holds, evaluate, is_visible, out_of_fuel, mixed_operators, expression, skip_ws, bare_term,
  quoted_term, quoted, push_byte, token_bytes, is_token_byte, finish, mixes, is_ascii_whitespace,
}
use timelakedb.Visibility.Blank.{is_blank, blank_from, next_byte}
use timelakedb.Visibility.Shorter.{evaluate-ne-out_of_fuel}
use timelakedb.Visibility.Monotone.{is_visible_mono}
use timelakedb.Visibility.Labels.{token, paren, Level, level, end, more, print, meaning}
use timelakedb.Visibility.Printed.{evaluate-print}

abbrev analyst : Auths
analyst = str "ops" ∷ str "audit" ∷ []

abbrev chief : Auths
chief = str "admin" ∷ analyst

-- `(ops&audit)|admin`
abbrev guarded : Level
guarded =
    level b'|' (paren (level b'&' (token b'o' (str "ps")) (more (token b'a' (str "udit")) end)))
      (more (token b'a' (str "dmin")) end)

evaluate-ne-out_of_fuel_example : evaluate (str "((a&b)|\"c\"") analyst ≢ err out_of_fuel
evaluate-ne-out_of_fuel_example = evaluate-ne-out_of_fuel (str "((a&b)|\"c\"") analyst

evaluate-print_example : evaluate (print guarded) analyst ≡ ok (meaning analyst guarded)
unfolding is_token_byte
evaluate-print_example = evaluate-print analyst guarded (
  refl,
  (refl, (refl, (refl, (refl, tt))), ((refl, (refl, (refl, (refl, (refl, tt))))), tt)),
  ((refl, (refl, (refl, (refl, (refl, tt))))), tt),
)

or_true : (a b : Bool) → b ≡ true → (a || b) ≡ true
or_true false b h = h
or_true true b h = refl

is_visible_mono_example : is_visible (str "ops|x") chief ≡ true
unfolding is_visible evaluate expression skip_ws bare_term token_bytes is_token_byte finish mixes
    str_eq is_blank is_ascii_whitespace blank_from next_byte
is_visible_mono_example =
    is_visible_mono analyst chief
      (λ tok h. or_true (str_eq (str "admin") tok) (holds analyst tok) h) (str "ops|x") refl

-- Operators that are mixed without parentheses show a row to nobody.
mixed : evaluate (str "ops&audit|admin") chief ≡ err mixed_operators
unfolding is_visible evaluate expression skip_ws bare_term token_bytes is_token_byte finish mixes
    str_eq is_blank is_ascii_whitespace blank_from next_byte
mixed = refl

-- A quoted token beyond ASCII, here `é`, is not the authorization of the same name.
beyond_ascii : evaluate (b'"' ∷ 0xc3 ∷ 0xa9 ∷ b'"' ∷ []) ((0xc3 ∷ 0xa9 ∷ []) ∷ []) ≡ ok false
unfolding is_visible evaluate expression skip_ws bare_term quoted_term quoted push_byte token_bytes
    is_token_byte finish mixes str_eq is_blank is_ascii_whitespace blank_from next_byte
beyond_ascii = refl
