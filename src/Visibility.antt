-- ===== src/Visibility.antt =====
-- crates/query/src/visibility.rs: the evaluation of a row's visibility label. The parser's position
-- is the input that is left; an error keeps its kind and not the text of its message. Recursion
-- is on fuel.
pub mod Blank
pub mod Shorter
pub mod Monotone
pub mod Labels
pub mod Printed
mod Tests
use timelakedb.Base.{
  ℕ, zero, suc, ◌+◌, ◌*◌, ◌/◌, ◌%◌, Bool, true, false, ◌&&◌, ◌||◌, Option, none, some, List, [],
  ◌∷◌, ◌++◌, ltb, leb, ◌==◌, if◌then◌else◌, Result, ok, err, ◌>>=◌, length, any,
}
use timelakedb.Base.Str.{Str, str_eq}
use Blank.{is_blank}

pub data LabelError : Type 0 where
  trailing_input mixed_operators unclosed_paren unclosed_quote bad_escape empty_token
        expected_token :
      LabelError
  out_of_fuel : LabelError

-- The session's authorization set.
abbrev pub Auths : Type 0
Auths = List Str

abbrev pub holds : Auths → Str → Bool
holds auths tok = any (λ a. str_eq a tok) auths

-- `is_ascii_whitespace`
unfoldable pub is_ascii_whitespace : ℕ → Bool
is_ascii_whitespace c = c == 32 || (c == 9 || (c == 10 || (c == 12 || c == 13)))

unfoldable pub skip_ws : Str → Str
unfolding is_ascii_whitespace
skip_ws [] = []
skip_ws (c ∷ s) = let rest = skip_ws s in if is_ascii_whitespace c then rest else c ∷ s

unfoldable pub is_token_byte : ℕ → Bool
is_token_byte c =
    (leb b'A' c && leb c b'Z')
    || (leb b'a' c && leb c b'z')
    || (leb b'0' c && leb c b'9')
    || (c == b'_' || (c == b'-' || (c == b'.' || (c == b':' || c == b'/'))))

-- The token bytes in front, and what follows them.
unfoldable pub token_bytes : Str → Str × Str
unfolding is_token_byte
token_bytes [] = ([], [])
token_bytes (c ∷ s) =
    let rest = token_bytes s in if is_token_byte c then (c ∷ rest.0, rest.1) else ([], c ∷ s)

-- `tok.push(c as char)`: the byte as a code point, in UTF-8.
unfoldable pub push_byte : Str → ℕ → Str
push_byte tok c = tok ++ (if ltb c 128 then c ∷ [] else (192 + c / 64) ∷ (128 + c % 64) ∷ [])

-- The rest of a quoted token, behind its opening quote.
unfoldable pub quoted : Str → Str → Result LabelError (Str × Str)
unfolding push_byte
quoted tok [] = err unclosed_quote
quoted tok (c ∷ []) =
    if c == b'"' then ok (tok, []) else if c == b'\\' then err bad_escape else err unclosed_quote
quoted tok (c ∷ d ∷ s) =
    let escaped = quoted (push_byte tok d) s in
    let plain = quoted (push_byte tok c) (d ∷ s) in
    if c == b'"'
    then ok (tok, d ∷ s)
    else if c == b'\\'
    then (if d == b'"' || d == b'\\' then escaped else err bad_escape)
    else plain

unfoldable pub quoted_term : Auths → Str → Result LabelError (Bool × Str)
unfolding quoted
quoted_term auths s = do
  (tok, rest) ← quoted [] s
  if length tok == 0 then err empty_token else ok (holds auths tok, rest)

unfoldable pub bare_term : Auths → Str → Result LabelError (Bool × Str)
unfolding token_bytes
bare_term auths s =
    let (tok, rest) = token_bytes s in
    if length tok == 0 then err expected_token else ok (holds auths tok, rest)

-- The closing parenthesis behind an inner expression.
unfoldable pub close_paren : Bool → Str → Result LabelError (Bool × Str)
close_paren v [] = err unclosed_paren
close_paren v (c ∷ s) = if c == b')' then ok (v, s) else err unclosed_paren

abbrev pub is_op : ℕ → Bool
is_op c = c == b'&' || c == b'|'

-- An operator that differs from the one that its level has.
unfoldable pub mixes : Option ℕ → ℕ → Bool
mixes none op = false
mixes (some prev) op = if prev == op then false else true

abbrev pub combine : ℕ → Bool → Bool → Bool
combine op acc rhs = if op == b'&' then acc && rhs else acc || rhs

unfoldable mutual
  pub expression : ℕ → Auths → Str → Result LabelError (Bool × Str)
  expression zero auths s = err out_of_fuel
  expression (suc f) auths s = do (acc, rest) ← term f auths s; operators f auths acc none rest

  -- The loop of `expression`.
  pub operators : ℕ → Auths → Bool → Option ℕ → Str → Result LabelError (Bool × Str)
  operators zero auths acc level s = err out_of_fuel
  operators (suc f) auths acc level s = elim (skip_ws s) [
    | [] ↦ ok (acc, [])
    | op ∷ rest ↦
        if is_op op
        then (if mixes level op then err mixed_operators else do
          (rhs, after) ← term f auths rest
          operators f auths (combine op acc rhs) (some op) after)
        else ok (acc, op ∷ rest)
  ]

  pub term : ℕ → Auths → Str → Result LabelError (Bool × Str)
  term zero auths s = err out_of_fuel
  term (suc f) auths s = elim (skip_ws s) [
    | [] ↦ err expected_token
    | c ∷ rest ↦
        if c == b'('
        then (do (v, after) ← expression f auths rest; close_paren v (skip_ws after))
        else if c == b'"'
        then quoted_term auths rest
        else bare_term auths (c ∷ rest)
  ]

-- The whole label must be read.
unfoldable pub finish : Bool × Str → Result LabelError Bool
finish (v, s) = elim (skip_ws s) [ [] ↦ ok v | _ ∷ _ ↦ err trailing_input ]

unfoldable pub evaluate : Str → Auths → Result LabelError Bool
unfolding is_blank finish
evaluate expr auths =
    if is_blank expr then ok true else do r ← expression (2 * length expr + 2) auths expr; finish r

unfoldable pub is_visible : Str → Auths → Bool
is_visible expr auths = elim (evaluate expr auths) [ ok v ↦ v | err _ ↦ false ]
