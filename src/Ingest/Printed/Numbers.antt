-- ===== src/Ingest/Printed/Numbers.antt =====
-- The integers that crates/ingest/src/lib.rs prints are read back, and their text has no white space.
use timelakedb.Base.{
  ℕ, zero, suc, ◌+◌, ◌-◌, ◌*◌, ◌/◌, ◌%◌, ◌^◌, ◌≤◌, ◌<◌, ◌≡◌, ◌≢◌, refl, sym, ◌∙◌, ap, subst, true,
  Option, none, some, [], ◌∷◌, ltb, if_elim, All, All-append, length, arith,
}
use mathlib.Core.List.{reverse, reverse-append, reverse-reverse}
use timelakedb.Base.Int.{ℤ, pos, negsuc}
use timelakedb.Base.Str.{Str}
use timelakedb.Base.Text.{trim, behind_white, behind_white_back, drop_white}
use timelakedb.Base.Decimal.{decimal, digits_from, IsDigit, decimal-IsDigit, decimal-ne-nil}
use timelakedb.Wal.Bytes.{utf8_from, utf8_next, is_utf8}
use timelakedb.Ingest.Value.{digits, is_digit, parse_i64, parse_u64}
use timelakedb.Ingest.Print.{i64_text}
use timelakedb.Ingest.Rows.{IsI64}

digits_next :
    (n d : ℕ) (behind : Str) → d < 10 → digits n ((48 + d) ∷ behind) ≡ digits (n * 10 + d) behind
unfolding digits
digits_next n d behind h =
    let is : is_digit (48 + d) ≡ true = ground arith in
    let same : 48 + d - 48 ≡ d = omega arith in rw (is, same) refl

digits-digits_from :
    (fuel n : ℕ) (behind : Str) → n ≤ fuel → digits 0 (digits_from fuel n behind) ≡ digits n behind
unfolding digits digits_from
digits-digits_from zero n behind h =
    digits_next 0 (n % 10) behind (omega arith) ∙ ap (λ m. digits m behind) (omega arith)
digits-digits_from (suc fuel) n behind h =
    if_elim (λ s. digits 0 s ≡ digits n behind) (ltb n 10)
      (λ e. digits_next 0 n behind (ground arith) ∙ ap (λ m. digits m behind) (omega arith))
      (λ e.
        digits-digits_from fuel (n / 10) ((48 + n % 10) ∷ behind) (ground arith)
        ∙ (digits_next (n / 10) (n % 10) behind (omega arith)
            ∙ ap (λ m. digits m behind) (omega arith)))

pub digits-decimal : (n : ℕ) → digits 0 (decimal n) ≡ some n
unfolding decimal digits
digits-decimal n = digits-digits_from n n [] (omega arith)

parse_i64-digits :
    (s : Str) (n : ℕ)
    → All IsDigit s
    → s ≢ []
    → digits 0 s ≡ some n
    → n < 2 ^ 63
    → parse_i64 s ≡ some (pos n)
unfolding parse_i64
parse_i64-digits [] n d e h k = absurd (e refl)
parse_i64-digits (c ∷ s) n d e h k = ground (arith, h)

parse_u64-digits :
    (s : Str) (n : ℕ)
    → All IsDigit s
    → s ≢ []
    → digits 0 s ≡ some n
    → n < 2 ^ 64
    → parse_u64 s ≡ some n
unfolding parse_u64
parse_u64-digits [] n d e h k = absurd (e refl)
parse_u64-digits (c ∷ s) n d e h k = ground (arith, h)

pub parse_u64-decimal : (n : ℕ) → n < 2 ^ 64 → parse_u64 (decimal n) ≡ some n
parse_u64-decimal n h =
    parse_u64-digits (decimal n) n (decimal-IsDigit n) (decimal-ne-nil n) (digits-decimal n) h

-- The number behind a minus sign.
parse_i64-minus :
    (s : Str) (n : ℕ)
    → s ≢ []
    → digits 0 s ≡ some (suc n)
    → n < 2 ^ 63
    → parse_i64 (45 ∷ s) ≡ some (negsuc n)
unfolding parse_i64
parse_i64-minus [] n e h k = absurd (e refl)
parse_i64-minus (c ∷ s) n e h k = ground (arith, h)

pub parse_i64-i64_text : (z : ℤ) → IsI64 z → parse_i64 (i64_text z) ≡ some z
unfolding i64_text
parse_i64-i64_text (pos n) h =
    parse_i64-digits (decimal n) n (decimal-IsDigit n) (decimal-ne-nil n) (digits-decimal n) h
parse_i64-i64_text (negsuc n) h =
    parse_i64-minus (decimal (suc n)) n (decimal-ne-nil (suc n)) (digits-decimal (suc n)) h

-- ASCII and not white space.
abbrev pub IsGraphic : ℕ → Type 0
IsGraphic b = (33 ≤ b) × (b < 127)

pub is_utf8-IsGraphic : (s : Str) → All IsGraphic s → is_utf8 s ≡ true
unfolding utf8_from
is_utf8-IsGraphic [] h = refl
is_utf8-IsGraphic (b ∷ s) h =
    let is : ltb b 0x80 ≡ true = ground arith in rw (utf8_next, is) (is_utf8-IsGraphic s h.1)

behind_white-IsGraphic : (s : Str) → All IsGraphic s → behind_white s ≡ none
unfolding behind_white
behind_white-IsGraphic [] h = refl
behind_white-IsGraphic (a ∷ []) h = ground arith
behind_white-IsGraphic (a ∷ b ∷ []) h = ground arith
behind_white-IsGraphic (a ∷ b ∷ c ∷ s) h = ground arith

behind_white_back-IsGraphic : (s : Str) → All IsGraphic s → behind_white_back s ≡ none
unfolding behind_white_back
behind_white_back-IsGraphic [] h = refl
behind_white_back-IsGraphic (a ∷ []) h = ground arith
behind_white_back-IsGraphic (a ∷ b ∷ []) h = ground arith
behind_white_back-IsGraphic (a ∷ b ∷ c ∷ s) h = ground arith

drop_white-none :
    (next : Str → Option Str) (fuel : ℕ) (s : Str) → next s ≡ none → drop_white next fuel s ≡ s
unfolding drop_white
drop_white-none next zero s h = refl
drop_white-none next (suc fuel) s h = rw (drop_white, h) refl

All-reverse : (s : Str) → All IsGraphic s → All IsGraphic (reverse s)
All-reverse [] h = tt
All-reverse (b ∷ s) h =
    subst (All IsGraphic) (sym (reverse-append (b ∷ []) s))
      (All-append IsGraphic (reverse s) (b ∷ []) (All-reverse s h.1) (h.0, tt))

pub trim-IsGraphic : (s : Str) → All IsGraphic s → trim s ≡ s
unfolding trim
trim-IsGraphic s h =
    rw
      (
        drop_white-none behind_white (length s) s (behind_white-IsGraphic s h),
        drop_white-none behind_white_back (length s) (reverse s)
            (behind_white_back-IsGraphic (reverse s) (All-reverse s h)),
      )
      (reverse-reverse s)

pub digit-IsGraphic : (s : Str) → All IsDigit s → All IsGraphic s
digit-IsGraphic [] h = tt
digit-IsGraphic (b ∷ s) h = (omega arith, digit-IsGraphic s h.1)

pub i64_text-IsGraphic : (z : ℤ) → All IsGraphic (i64_text z)
unfolding i64_text
i64_text-IsGraphic (pos n) = digit-IsGraphic (decimal n) (decimal-IsDigit n)
i64_text-IsGraphic (negsuc n) =
    (omega arith, digit-IsGraphic (decimal (suc n)) (decimal-IsDigit (suc n)))

pub i64_text-ne-nil : (z : ℤ) → i64_text z ≢ []
unfolding i64_text
i64_text-ne-nil (pos n) = decimal-ne-nil n
i64_text-ne-nil (negsuc n) = λ h. cc h
