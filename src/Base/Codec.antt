-- ===== src/Base/Codec.antt =====
-- A simple text format for test data, which reads back what it writes: numbers in unary, and what
-- is made of them.
use timelakedb.Base.{
  ℕ, zero, suc, ◌≡◌, refl, ◌∙◌, ap, Bool, false, ◌||◌, Option, none, some, List, [], ◌∷◌, ◌++◌, any,
  any-append, ◌==◌, length, if◌then◌else◌,
}
use mathlib.Core.List.{append_assoc}
use timelakedb.Base.Str.{Str}

abbrev pub breaks_line : ℕ → Bool
breaks_line b = b == 10 || b == 13

pub record Code (A : Type 0) : Type 0 where
  pub put : A → Str
  pub get : Str → A × Str
  pub get-put : (a : A) (rest : Str) → get (put a ++ rest) ≡ (a, rest)
  pub plain : (a : A) → any breaks_line (put a) ≡ false

abbrev put_number : ℕ → Str
put_number zero = 44 ∷ []
put_number (suc n) = 49 ∷ put_number n

abbrev get_number : Str → ℕ × Str
get_number [] = (0, [])
get_number (b ∷ s) = let (n, rest) = get_number s in if b == 49 then (suc n, rest) else (0, s)

pub get_number-put : (n : ℕ) (rest : Str) → get_number (put_number n ++ rest) ≡ (n, rest)
get_number-put zero rest = refl
get_number-put (suc n) rest = rw (get_number-put n rest) refl

pub plain_number : (n : ℕ) → any breaks_line (put_number n) ≡ false
plain_number zero = refl
plain_number (suc n) = plain_number n

abbrev pub number : Code ℕ
number = record {
  put = put_number;
  get = get_number;
  get-put = get_number-put;
  plain = plain_number;
}

module _ {A : Type 0} (c : Code A) where
  abbrev put_all : List A → Str
  put_all [] = []
  put_all (a ∷ l) = c.put a ++ put_all l

  abbrev get_all : ℕ → Str → List A × Str
  get_all zero s = ([], s)
  get_all (suc n) s = let (a, more) = c.get s in let (l, rest) = get_all n more in (a ∷ l, rest)

  pub get_all-put : (l : List A) (rest : Str) → get_all (length l) (put_all l ++ rest) ≡ (l, rest)
  get_all-put [] rest = refl
  get_all-put (a ∷ l) rest =
      rw
        (
          append_assoc (c.put a) (put_all l) rest,
          c.get-put a (put_all l ++ rest),
          get_all-put l rest,
        )
        refl

  pub plain_all : (l : List A) → any breaks_line (put_all l) ≡ false
  plain_all [] = refl
  plain_all (a ∷ l) = rw (any-append breaks_line (c.put a) (put_all l), c.plain a) (plain_all l)

  abbrev pub list : Code (List A)
  list = record {
    put = λ l. put_number (length l) ++ put_all l;
    get = λ s. get_all (get_number s).0 (get_number s).1;
    get-put = λ l rest.
        rw
          (
            append_assoc (put_number (length l)) (put_all l) rest,
            get_number-put (length l) (put_all l ++ rest),
          )
          (get_all-put l rest);
    plain = λ l.
        rw (any-append breaks_line (put_number (length l)) (put_all l), plain_number (length l))
          (plain_all l);
  }

  abbrev of_list : List A → Option A
  of_list [] = none
  of_list (a ∷ l) = some a

  abbrev to_list : Option A → List A
  to_list none = []
  to_list (some a) = a ∷ []

  pub to_list-of : (o : Option A) → of_list (to_list o) ≡ o
  to_list-of none = refl
  to_list-of (some a) = refl

  abbrev pub option : Code (Option A)
  option = record {
    put = λ o. list.put (to_list o);
    get = λ s. (of_list (list.get s).0, (list.get s).1);
    get-put = λ o rest. rw (list.get-put (to_list o) rest, to_list-of o) refl;
    plain = λ o. list.plain (to_list o);
  }

module _ {A B : Type 0} (c : Code A) (d : Code B) where
  abbrev pub both : Code (A × B)
  both = record {
    put = λ p. c.put p.0 ++ d.put p.1;
    get = λ s. (((c.get s).0, (d.get (c.get s).1).0), (d.get (c.get s).1).1);
    get-put = λ p rest.
        rw
          (
            append_assoc (c.put p.0) (d.put p.1) rest,
            c.get-put p.0 (d.put p.1 ++ rest),
            d.get-put p.1 rest,
          )
          refl;
    plain = λ p. rw (any-append breaks_line (c.put p.0) (d.put p.1), c.plain p.0) (d.plain p.1);
  }

-- Of values that are made of a coded part.
module _ {A R : Type 0} (c : Code A) (make : A → R) (part : R → A)
    (make-part : (r : R) → make (part r) ≡ r) where
  abbrev pub made_of : Code R
  made_of = record {
    put = λ r. c.put (part r);
    get = λ s. (make (c.get s).0, (c.get s).1);
    get-put = λ r rest.
        ap (λ (q : A × Str). (make q.0, q.1)) (c.get-put (part r) rest)
        ∙ ap (λ x. (x, rest)) (make-part r);
    plain = λ r. c.plain (part r);
  }

abbrev pub text : Code Str
text = list number
