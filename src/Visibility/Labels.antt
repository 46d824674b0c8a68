-- ===== src/Visibility/Labels.antt =====
-- The labels that crates/query/src/visibility.rs reads, as trees, and what they mean. A level of a label joins its terms by one operator; a term is a token or a level in
-- parentheses.
use timelakedb.Base.{ℕ, ◌≡◌, Bool, true, false, ◌&&◌, ◌||◌, ◌==◌, if◌then◌else◌, [], ◌∷◌, ◌++◌, All}
use timelakedb.Base.Str.{Str}
use timelakedb.Visibility.{Auths, holds, is_token_byte, is_op}

mutual
  pub data Term : Type 0 where
    token : ℕ → Str → Term
    paren : Level → Term

  pub data Level : Type 0 where
    level : ℕ → Term → Terms → Level

  pub data Terms : Type 0 where
    end : Terms
    more : Term → Terms → Terms

abbrev mutual
  pub print_term : Term → Str
  print_term (token c s) = c ∷ s
  print_term (paren l) = b'(' ∷ (print l ++ b')' ∷ [])

  pub print : Level → Str
  print (level op t ts) = print_term t ++ print_terms op ts

  pub print_terms : ℕ → Terms → Str
  print_terms op end = []
  print_terms op (more t ts) = op ∷ (print_term t ++ print_terms op ts)

-- Every term of an `&` level holds, and some term of another one.
abbrev mutual
  pub meaning_term : Auths → Term → Bool
  meaning_term auths (token c s) = holds auths (c ∷ s)
  meaning_term auths (paren l) = meaning auths l

  pub meaning : Auths → Level → Bool
  meaning auths (level op t ts) =
      let every = meaning_term auths t && all_hold auths ts in
      let some_one = meaning_term auths t || any_holds auths ts in
      if op == b'&' then every else some_one

  pub all_hold : Auths → Terms → Bool
  all_hold auths end = true
  all_hold auths (more t ts) = meaning_term auths t && all_hold auths ts

  pub any_holds : Auths → Terms → Bool
  any_holds auths end = false
  any_holds auths (more t ts) = meaning_term auths t || any_holds auths ts

abbrev mutual
  -- Tokens are made of token bytes, and a level's operator is `&` or `|`.
  pub IsTerm : Term → Type 0
  IsTerm (token c s) = (is_token_byte c ≡ true) × All (λ b. is_token_byte b ≡ true) s
  IsTerm (paren l) = IsLevel l

  pub IsLevel : Level → Type 0
  IsLevel (level op t ts) = (is_op op ≡ true) × IsTerm t × AreTerms ts

  pub AreTerms : Terms → Type 0
  AreTerms end = Unit
  AreTerms (more t ts) = IsTerm t × AreTerms ts
