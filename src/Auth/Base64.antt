-- ===== src/Auth/Base64.antt =====
-- `base64url` and `base64_decode` of crates/auth/src/token.rs. Shifts and masks of a `u32` are written as
-- quotients and remainders, and the `|` of numbers without common bits as their sum.
use timelakedb.Base.{
  ℕ, ◌+◌, ◌-◌, ◌*◌, ◌/◌, ◌%◌, Bool, not, ◌||◌, ◌&&◌, Option, none, some, [], ◌∷◌, leb, ltb, ◌==◌,
  if◌then◌else◌, retain,
}
use timelakedb.Base.Options.{◌>>=◌}
use timelakedb.Base.Str.{Str}

-- The character at an index of the alphabet.
abbrev pub alphabet : ℕ → ℕ
alphabet n =
    if ltb n 26
    then 65 + n
    else if ltb n 52
    then 97 + (n - 26)
    else if ltb n 62
    then 48 + (n - 52)
    else if n == 62
    then 45
    else 95

-- The `i`-th sextet of `n`, by the weight of its last bit.
abbrev pub sextet : ℕ → ℕ → ℕ
sextet n weight = alphabet (n / weight % 64)

unfoldable pub base64url : Str → Str
base64url [] = []
base64url (a ∷ []) = let n = a * 65536 in sextet n 262144 ∷ sextet n 4096 ∷ []
base64url (a ∷ b ∷ []) =
    let n = a * 65536 + b * 256 in sextet n 262144 ∷ sextet n 4096 ∷ sextet n 64 ∷ []
base64url (a ∷ b ∷ c ∷ bytes) =
    let n = a * 65536 + b * 256 + c in
    sextet n 262144 ∷ sextet n 4096 ∷ sextet n 64 ∷ sextet n 1 ∷ base64url bytes

unfoldable pub val : ℕ → Option ℕ
val c =
    if leb 65 c && leb c 90
    then some (c - 65)
    else if leb 97 c && leb c 122
    then some (c - 97 + 26)
    else if leb 48 c && leb c 57
    then some (c - 48 + 52)
    else if c == 43 || c == 45
    then some 62
    else if c == 47 || c == 95
    then some 63
    else none

abbrev pub is_ascii_whitespace : ℕ → Bool
is_ascii_whitespace c = c == 9 || (c == 10 || (c == 12 || (c == 13 || c == 32)))

abbrev pub kept : ℕ → Bool
kept c = not (c == 61) && not (is_ascii_whitespace c)

abbrev pub byte_of : ℕ → ℕ → ℕ
byte_of n weight = n / weight % 256

-- A chunk of one character is refused.
unfoldable pub decode_chunks : Str → Option Str
decode_chunks [] = some []
decode_chunks (a ∷ []) = none
decode_chunks (a ∷ b ∷ []) = do
  x ← val a
  y ← val b
  some (byte_of (x * 262144 + y * 4096) 65536 ∷ [])
decode_chunks (a ∷ b ∷ c ∷ []) = do
  x ← val a
  y ← val b
  z ← val c
  let n = x * 262144 + y * 4096 + z * 64
  some (byte_of n 65536 ∷ byte_of n 256 ∷ [])
decode_chunks (a ∷ b ∷ c ∷ d ∷ s) =
    let rest = decode_chunks s in
    do
      x ← val a
      y ← val b
      z ← val c
      w ← val d
      let n = x * 262144 + y * 4096 + z * 64 + w
      out ← rest
      some (byte_of n 65536 ∷ byte_of n 256 ∷ byte_of n 1 ∷ out)

unfoldable pub base64_decode : Str → Option Str
unfolding decode_chunks
base64_decode s = decode_chunks (retain kept s)
