-- ===== src/Auth/Roundtrip.antt =====
-- The Base64 of crates/auth/src/token.rs decodes what it encodes.
use timelakedb.Base.{
  ℕ, ◌+◌, ◌*◌, ◌/◌, ◌%◌, ◌<◌, ◌≡◌, refl, ap, true, Option, some, [], ◌∷◌, arith, All, retain,
}
use native.Mathlib.Nat.{mod-lt}
use timelakedb.Base.Str.{Str}
use timelakedb.Auth.Base64.{
  alphabet, sextet, base64url, val, kept, byte_of, decode_chunks, base64_decode,
}

val-alphabet : (n : ℕ) → n < 64 → val (alphabet n) ≡ some n
unfolding val
val-alphabet n h = ground arith

kept-alphabet : (n : ℕ) → n < 64 → kept (alphabet n) ≡ true
kept-alphabet n h = ground arith

val-sextet : (n weight : ℕ) → val (sextet n weight) ≡ some (n / weight % 64)
val-sextet n weight = val-alphabet (n / weight % 64) (mod-lt (n / weight) (omega arith))

kept-sextet : (n weight : ℕ) → kept (sextet n weight) ≡ true
kept-sextet n weight = kept-alphabet (n / weight % 64) (mod-lt (n / weight) (omega arith))

retain-base64url : (bytes : Str) → retain kept (base64url bytes) ≡ base64url bytes
unfolding base64url
retain-base64url [] = refl
retain-base64url (a ∷ []) = rw (kept-sextet (a * 65536) 262144, kept-sextet (a * 65536) 4096) refl
retain-base64url (a ∷ b ∷ []) =
    let n = a * 65536 + b * 256 in
    rw (kept-sextet n 262144, kept-sextet n 4096, kept-sextet n 64) refl
retain-base64url (a ∷ b ∷ c ∷ bytes) =
    let n = a * 65536 + b * 256 + c in
    rw
      (
        kept-sextet n 262144,
        kept-sextet n 4096,
        kept-sextet n 64,
        kept-sextet n 1,
        retain-base64url bytes,
      )
      refl

one_byte :
    (a : ℕ)
    → a < 256
    → byte_of (a * 65536 / 262144 % 64 * 262144 + a * 65536 / 4096 % 64 * 4096) 65536 ≡ a
one_byte a h = omega arith

two_bytes :
    (a b : ℕ)
    → a < 256
    → b < 256
    → (a * 65536 + b * 256) / 262144 % 64 * 262144
        + (a * 65536 + b * 256) / 4096 % 64 * 4096
        + (a * 65536 + b * 256) / 64 % 64 * 64
      ≡ a * 65536 + b * 256
two_bytes a b h k = omega arith

three_bytes :
    (n : ℕ)
    → n < 16777216
    → n / 262144 % 64 * 262144 + n / 4096 % 64 * 4096 + n / 64 % 64 * 64 + n / 1 % 64 ≡ n
three_bytes n h = omega arith

pair_of :
    (x y a b : ℕ) → x ≡ a → y ≡ b → ◌≡◌ {A = Option Str} (some (x ∷ y ∷ [])) (some (a ∷ b ∷ []))
pair_of x y a b h k = cc (h, k)

triple_of :
    (x y z a b c : ℕ) (s : Str)
    → x ≡ a
    → y ≡ b
    → z ≡ c
    → ◌≡◌ {A = Option Str} (some (x ∷ y ∷ z ∷ s)) (some (a ∷ b ∷ c ∷ s))
triple_of x y z a b c s h k l = cc (h, k, l)

high_of_two : (a b : ℕ) → a < 256 → b < 256 → (a * 65536 + b * 256) / 65536 % 256 ≡ a
high_of_two a b h k = omega arith

low_of_two : (a b : ℕ) → a < 256 → b < 256 → (a * 65536 + b * 256) / 256 % 256 ≡ b
low_of_two a b h k = omega arith

module _ (a b c : ℕ) (h : a < 256) (k : b < 256) (l : c < 256) where
  first_of_three : (a * 65536 + b * 256 + c) / 65536 % 256 ≡ a
  first_of_three = omega (arith, h, k, l)

  second_of_three : (a * 65536 + b * 256 + c) / 256 % 256 ≡ b
  second_of_three = omega (arith, h, k, l)

  third_of_three : (a * 65536 + b * 256 + c) / 1 % 256 ≡ c
  third_of_three = omega (arith, h, k, l)

decode_chunks-base64url :
    (bytes : Str) → All (λ b. b < 256) bytes → decode_chunks (base64url bytes) ≡ some bytes
unfolding base64url decode_chunks
decode_chunks-base64url [] h = refl
decode_chunks-base64url (a ∷ []) h =
    rw (val-sextet (a * 65536) 262144, val-sextet (a * 65536) 4096)
      (ap (λ x. some (x ∷ [])) (one_byte a h.0))
decode_chunks-base64url (a ∷ b ∷ []) h =
    let n = a * 65536 + b * 256 in
    rw (val-sextet n 262144, val-sextet n 4096, val-sextet n 64, two_bytes a b h.0 h.1.0)
      (pair_of (n / 65536 % 256) (n / 256 % 256) a b (high_of_two a b h.0 h.1.0)
        (low_of_two a b h.0 h.1.0))
decode_chunks-base64url (a ∷ b ∷ c ∷ bytes) h =
    let n = a * 65536 + b * 256 + c in
    let small : n < 16777216 = omega (arith, h.0, h.1.0, h.1.1.0) in
    rw
      (
        val-sextet n 262144,
        val-sextet n 4096,
        val-sextet n 64,
        val-sextet n 1,
        decode_chunks-base64url bytes h.1.1.1,
        three_bytes n small,
      )
      (triple_of (n / 65536 % 256) (n / 256 % 256) (n / 1 % 256) a b c bytes
        (first_of_three a b c h.0 h.1.0 h.1.1.0) (second_of_three a b c h.0 h.1.0 h.1.1.0)
        (third_of_three a b c h.0 h.1.0 h.1.1.0))

-- Any bytes, each below 256, that are encoded are decoded to themselves.
pub base64_decode-base64url :
    (bytes : Str) → All (λ b. b < 256) bytes → base64_decode (base64url bytes) ≡ some bytes
unfolding base64_decode
base64_decode-base64url bytes h = rw (retain-base64url bytes) (decode_chunks-base64url bytes h)
