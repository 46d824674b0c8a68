-- ===== src/Wal/Bytes.antt =====
-- Numbers as little-endian bytes, `read_exact` and `String::from_utf8`, as crates/wal/src/lib.rs
-- uses them.
use timelakedb.Base.{
  ℕ, zero, suc, ◌+◌, ◌-◌, ◌*◌, ◌/◌, ◌%◌, ◌^◌, ◌<◌, ◌≡◌, refl, sym, ap, inl, inr, ◌∙◌, Bool, true,
  false, ◌&&◌, Option, none, some, [], ◌∷◌, ◌++◌, arith, length, ltb, leb, ◌==◌, Option-cases,
  if◌then◌else◌,
}
use mathlib.Core.List.{append_assoc}
use timelakedb.Base.Int.{ℤ, pos, negsuc}
use timelakedb.Base.Str.{Str}

-- `n as u32`
abbrev pub u32 : ℕ → ℕ
u32 n = n % 2 ^ 32

-- The low bytes of a number, `to_le_bytes`.
unfoldable pub le_bytes : ℕ → ℕ → Str
le_bytes zero n = []
le_bytes (suc k) n = n % 256 ∷ le_bytes k (n / 256)

-- `from_le_bytes`
unfoldable pub from_le_bytes : Str → ℕ
from_le_bytes [] = 0
from_le_bytes (b ∷ s) = b + 256 * from_le_bytes s

-- An `i64` in two's complement.
unfoldable pub i64_bits : ℤ → ℕ
i64_bits (pos n) = n % 2 ^ 64
i64_bits (negsuc n) = 2 ^ 64 - 1 - n % 2 ^ 64

unfoldable pub bits_i64 : ℕ → ℤ
bits_i64 b = if ltb b (2 ^ 63) then pos b else negsuc (2 ^ 64 - 1 - b)

abbrev pub IsI64 : ℤ → Type 0
IsI64 (pos n) = n < 2 ^ 63
IsI64 (negsuc n) = n < 2 ^ 63

-- The bytes asked for and those behind them; nothing if the input ends before.
unfoldable pub read_exact : ℕ → Str → Option (Str × Str)
read_exact zero s = some ([], s)
read_exact (suc n) [] = none
read_exact (suc n) (c ∷ s) = elim (read_exact n s) [ none ↦ none | some (a, r) ↦ some (c ∷ a, r) ]

pub data Utf8 : Type 0 where
  start one two three after_e0 after_ed after_f0 after_f4 bad : Utf8

unfoldable pub utf8_next : Utf8 → ℕ → Utf8
utf8_next start c =
    if ltb c 0x80
    then start
    else if ltb c 0xc2
    then bad
    else if ltb c 0xe0
    then one
    else if c == 0xe0
    then after_e0
    else if c == 0xed
    then after_ed
    else if ltb c 0xf0
    then two
    else if c == 0xf0
    then after_f0
    else if ltb c 0xf4
    then three
    else if c == 0xf4
    then after_f4
    else bad
utf8_next one c = if leb 0x80 c && leb c 0xbf then start else bad
utf8_next two c = if leb 0x80 c && leb c 0xbf then one else bad
utf8_next three c = if leb 0x80 c && leb c 0xbf then two else bad
utf8_next after_e0 c = if leb 0xa0 c && leb c 0xbf then one else bad
utf8_next after_ed c = if leb 0x80 c && leb c 0x9f then one else bad
utf8_next after_f0 c = if leb 0x90 c && leb c 0xbf then two else bad
utf8_next after_f4 c = if leb 0x80 c && leb c 0x8f then two else bad
utf8_next bad c = bad

unfoldable pub utf8_from : Utf8 → Str → Bool
unfolding utf8_next
utf8_from start [] = true
utf8_from u [] = false
utf8_from u (c ∷ s) = utf8_from (utf8_next u c) s

-- The bytes are UTF-8.
abbrev pub is_utf8 : Str → Bool
is_utf8 = utf8_from start

pub length-le_bytes : (k n : ℕ) → length (le_bytes k n) ≡ k
unfolding le_bytes
length-le_bytes zero n = refl
length-le_bytes (suc k) n = ap suc (length-le_bytes k (n / 256))

pub from_le_bytes-le_bytes : (k n : ℕ) → n < 256 ^ k → from_le_bytes (le_bytes k n) ≡ n
unfolding le_bytes from_le_bytes
from_le_bytes-le_bytes zero n h = omega arith
from_le_bytes-le_bytes (suc k) n h = omega (arith, from_le_bytes-le_bytes k (n / 256) (omega arith))

pub bits_i64-i64_bits : (i : ℤ) → IsI64 i → bits_i64 (i64_bits i) ≡ i
unfolding bits_i64 i64_bits
bits_i64-i64_bits (pos n) h = ground arith
bits_i64-i64_bits (negsuc n) h = ground arith

pub i64_bits-bound : (i : ℤ) → i64_bits i < 2 ^ 64
unfolding i64_bits
i64_bits-bound (pos n) = omega arith
i64_bits-bound (negsuc n) = omega arith

pub read_exact-append : (a r : Str) → read_exact (length a) (a ++ r) ≡ some (a, r)
unfolding read_exact
read_exact-append [] r = refl
read_exact-append (c ∷ a) r = rw (read_exact-append a r) refl

-- What was read, and what is behind it.
pub read_exact-split :
    (n : ℕ) (s a r : Str) → read_exact n s ≡ some (a, r) → (s ≡ a ++ r) × (length a ≡ n)
unfolding read_exact
read_exact-split zero s a r h = (cc h, cc h)
read_exact-split (suc n) [] a r h = absurd (cc h)
read_exact-split (suc n) (c ∷ s) a r h = elim (Option-cases (read_exact n s)) [
  | inl e ↦ absurd (cc (rw (e, read_exact) at h))
  | inr (p, e) ↦
      let back = rw (e, read_exact) at h in
      let rest = read_exact-split n s p.0 p.1 e in
      let pair : ◌≡◌ {A = Str × Str} (c ∷ p.0, p.1) (a, r) = cc back in
      (
        ap (◌∷◌ c) rest.0 ∙ ap (λ q. q.0 ++ q.1) pair,
        ap (λ q. length q.0) (sym pair) ∙ ap suc rest.1,
      )
]

-- More input behind what was read does not change what was read.
pub read_exact-more :
    (n : ℕ) (s t a r : Str)
    → read_exact n s ≡ some (a, r)
    → read_exact n (s ++ t) ≡ some (a, r ++ t)
read_exact-more n s t a r h =
    let (whole, len) = read_exact-split n s a r h in
    rw whole (rw (append_assoc a r t) (rw (sym len) (read_exact-append a (r ++ t))))

-- Nothing is read of an input that is too short, and something of any other.
pub read_exact-short : (n : ℕ) (s : Str) → length s < n → read_exact n s ≡ none
unfolding read_exact
read_exact-short zero s h = absurd (omega arith)
read_exact-short (suc n) [] h = refl
read_exact-short (suc n) (c ∷ s) h = rw (read_exact-short n s (omega arith)) refl

pub none-read_exact : (n : ℕ) (s : Str) → read_exact n s ≡ none → length s < n
unfolding read_exact
none-read_exact zero s h = absurd (cc h)
none-read_exact (suc n) [] h = omega arith
none-read_exact (suc n) (c ∷ s) h = elim (Option-cases (read_exact n s)) [
  | inl e ↦ omega (arith, none-read_exact n s e)
  | inr (p, e) ↦ absurd (cc (rw (e, read_exact) at h))
]
