-- ===== src/Base/Decimal.antt =====
-- The decimal digits of a number: `to_string` of an unsigned integer.
use Prim.Native.Nat.{ℕ, zero, suc, ◌+◌, ◌/◌, ◌%◌, ◌≤◌}
use mathlib.Core.List.{[], ◌∷◌}
use mathlib.Core.Logic.{◌≢◌}
use native.Mathlib.Omega.{arith}
use timelakedb.Base.Tests.{ltb, if◌then◌else◌, if_elim}
use timelakedb.Base.Lists.{All}
use timelakedb.Base.Str.{Str}

-- The digits of `n` ahead of those in `behind`. Each step drops a digit, so `n` steps are enough.
unfoldable pub digits_from : ℕ → ℕ → Str → Str
digits_from zero n behind = (48 + n % 10) ∷ behind
digits_from (suc fuel) n behind =
    let rest = digits_from fuel (n / 10) ((48 + n % 10) ∷ behind) in
    if ltb n 10 then (48 + n) ∷ behind else rest

unfoldable pub decimal : ℕ → Str
unfolding digits_from
decimal n = digits_from n n []

abbrev pub IsDigit : ℕ → Type 0
IsDigit b = (48 ≤ b) × (b ≤ 57)

digits_from-IsDigit :
    (fuel n : ℕ) (behind : Str) → All IsDigit behind → All IsDigit (digits_from fuel n behind)
unfolding digits_from
digits_from-IsDigit zero n behind h = (omega arith, h)
digits_from-IsDigit (suc fuel) n behind h =
    if_elim (All IsDigit) (ltb n 10) (λ e. (ground arith, h))
      (λ e. digits_from-IsDigit fuel (n / 10) ((48 + n % 10) ∷ behind) (omega arith, h))

pub decimal-IsDigit : (n : ℕ) → All IsDigit (decimal n)
unfolding decimal
decimal-IsDigit n = digits_from-IsDigit n n [] tt

digits_from-ne-nil : (fuel n : ℕ) (behind : Str) → digits_from fuel n behind ≢ []
unfolding digits_from
digits_from-ne-nil zero n behind = λ h. cc h
digits_from-ne-nil (suc fuel) n behind =
    if_elim (λ s. s ≢ []) (ltb n 10) (λ e h. cc h)
      (λ e. digits_from-ne-nil fuel (n / 10) ((48 + n % 10) ∷ behind))

pub decimal-ne-nil : (n : ℕ) → decimal n ≢ []
unfolding decimal
decimal-ne-nil n = digits_from-ne-nil n n []
