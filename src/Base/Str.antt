-- ===== src/Base/Str.antt =====
-- A Rust string is its UTF-8 bytes. Comparison is by bytes, as `str`'s `Eq` and `Ord` are.
use Prim.Native.Nat.{ℕ}
use Prim.Native.Char.{code}
use Prim.Native.String.{String}
use mathlib.Core.Path.{◌≡◌, refl}
use mathlib.Core.Logic.{◌↔◌}
use mathlib.Core.Bool.{Bool, true, false, ◌&&◌, ◌||◌}
use mathlib.Core.List.{List, [], ◌∷◌, ◌++◌}
use native.Mathlib.Omega.{arith}
use timelakedb.Base.Tests.{ltb, ◌==◌}
use timelakedb.Base.Lists.{length}

abbrev pub Str : Type 0
Str = List ℕ

-- The bytes of an ASCII literal.
abbrev pub str : String → Str
str String.[] = []
str (String.◌∷◌ c s) = code c ∷ str s

-- `a == b`.
unfoldable pub str_eq : Str → Str → Bool
str_eq [] [] = true
str_eq [] (b ∷ t) = false
str_eq (a ∷ s) [] = false
str_eq (a ∷ s) (b ∷ t) = (a == b) && str_eq s t

pub str_eq_iff : (s t : Str) → (str_eq s t ≡ true) ↔ (s ≡ t)
unfolding str_eq
str_eq_iff [] [] = ground arith
str_eq_iff [] (b ∷ t) = ground arith
str_eq_iff (a ∷ s) [] = ground arith
str_eq_iff (a ∷ s) (b ∷ t) = ground (arith, str_eq_iff s t)

-- `a < b`.
unfoldable pub str_ltb : Str → Str → Bool
str_ltb [] [] = false
str_ltb [] (b ∷ t) = true
str_ltb (a ∷ s) [] = false
str_ltb (a ∷ s) (b ∷ t) = ltb a b || ((a == b) && str_ltb s t)

pub str_ltb-append_left : (p s t : Str) → str_ltb (p ++ s) (p ++ t) ≡ str_ltb s t
unfolding str_ltb
str_ltb-append_left [] s t = refl
str_ltb-append_left (a ∷ p) s t = ground (arith, str_ltb-append_left p s t)

-- Of two strings of one length, what follows them does not change a strict order.
pub str_ltb-append_right :
    (s t u v : Str) → length s ≡ length t → str_ltb s t ≡ true → str_ltb (s ++ u) (t ++ v) ≡ true
unfolding str_ltb
str_ltb-append_right [] [] u v e h = ground arith
str_ltb-append_right [] (b ∷ t) u v e h = absurd (omega arith)
str_ltb-append_right (a ∷ s) [] u v e h = absurd (omega arith)
str_ltb-append_right (a ∷ s) (b ∷ t) u v e h =
    ground (arith, str_ltb-append_right s t u v (omega arith))

pub str_ltb_irrefl : (s : Str) → str_ltb s s ≡ false
unfolding str_ltb
str_ltb_irrefl [] = refl
str_ltb_irrefl (a ∷ s) = ground (arith, str_ltb_irrefl s)

pub str_ltb_asymm : (s t : Str) → str_ltb s t ≡ true → str_ltb t s ≡ false
unfolding str_ltb
str_ltb_asymm [] [] h = refl
str_ltb_asymm [] (b ∷ t) h = refl
str_ltb_asymm (a ∷ s) [] h = ground arith
str_ltb_asymm (a ∷ s) (b ∷ t) h = ground (arith, str_ltb_asymm s t)

pub str_ltb_trans : (s t u : Str) → str_ltb s t ≡ true → str_ltb t u ≡ true → str_ltb s u ≡ true
unfolding str_ltb
str_ltb_trans [] [] u h k = absurd (cc h)
str_ltb_trans [] (b ∷ t) [] h k = absurd (cc k)
str_ltb_trans [] (b ∷ t) (c ∷ u) h k = refl
str_ltb_trans (a ∷ s) [] u h k = absurd (cc h)
str_ltb_trans (a ∷ s) (b ∷ t) [] h k = absurd (cc k)
str_ltb_trans (a ∷ s) (b ∷ t) (c ∷ u) h k = ground (arith, str_ltb_trans s t u)

-- Of two strings that are not equal, one is less.
pub str_ltb_total : (s t : Str) → str_ltb s t ≡ false → str_eq s t ≡ false → str_ltb t s ≡ true
unfolding str_ltb str_eq
str_ltb_total [] [] h k = absurd (cc k)
str_ltb_total [] (b ∷ t) h k = absurd (cc h)
str_ltb_total (a ∷ s) [] h k = refl
str_ltb_total (a ∷ s) (b ∷ t) h k = ground (arith, str_ltb_total s t)
