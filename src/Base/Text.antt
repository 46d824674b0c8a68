-- ===== src/Base/Text.antt =====
-- `str::trim`, and the lines of `str::lines` and `BufRead::lines`, on UTF-8 bytes.
use Prim.Native.Nat.{ℕ, zero, suc}
use mathlib.Core.Bool.{◌||◌, ◌&&◌}
use mathlib.Core.Option.{Option, none, some}
use mathlib.Core.List.{List, [], ◌∷◌, ◌++◌, reverse}
use timelakedb.Base.Tests.{leb, ◌==◌, if◌then◌else◌}
use timelakedb.Base.Lists.{length}
use timelakedb.Base.Str.{Str}

-- What is behind a white space character at the start: those of Unicode, in UTF-8.
unfoldable pub behind_white : Str → Option Str
behind_white [] = none
behind_white (a ∷ s) = if (leb 9 a && leb a 13) || a == 32 then some s else elim s [
  | [] ↦ none
  | b ∷ t ↦ if a == 0xc2 && (b == 0x85 || b == 0xa0) then some t else elim t [
    | [] ↦ none
    | c ∷ u ↦
        if (a == 0xe1 && (b == 0x9a && c == 0x80))
          || ((a == 0xe2
                && ((b == 0x80
                      && ((leb 0x80 c && leb c 0x8a) || (c == 0xa8 || (c == 0xa9 || c == 0xaf))))
                    || (b == 0x81 && c == 0x9f)))
              || (a == 0xe3 && (b == 0x80 && c == 0x80)))
        then some u
        else none
  ]
]

-- The same of a string whose bytes are in the reverse order.
unfoldable pub behind_white_back : Str → Option Str
behind_white_back [] = none
behind_white_back (a ∷ s) = if (leb 9 a && leb a 13) || a == 32 then some s else elim s [
  | [] ↦ none
  | b ∷ t ↦ if b == 0xc2 && (a == 0x85 || a == 0xa0) then some t else elim t [
    | [] ↦ none
    | c ∷ u ↦
        if (c == 0xe1 && (b == 0x9a && a == 0x80))
          || ((c == 0xe2
                && ((b == 0x80
                      && ((leb 0x80 a && leb a 0x8a) || (a == 0xa8 || (a == 0xa9 || a == 0xaf))))
                    || (b == 0x81 && a == 0x9f)))
              || (c == 0xe3 && (b == 0x80 && a == 0x80)))
        then some u
        else none
  ]
]

-- White space dropped at the start, as often as the fuel says.
unfoldable pub drop_white : (Str → Option Str) → ℕ → Str → Str
drop_white next zero s = s
drop_white next (suc fuel) s = elim (next s) [ none ↦ s | some rest ↦ drop_white next fuel rest ]

-- `str::trim`: each step drops a byte at least.
unfoldable pub trim : Str → Str
unfolding drop_white behind_white behind_white_back
trim s =
    let ahead = drop_white behind_white (length s) s in
    reverse (drop_white behind_white_back (length ahead) (reverse ahead))

-- A line without the carriage return at its end.
unfoldable pub strip_cr : Str → Str
strip_cr [] = []
strip_cr (b ∷ s) =
    let rest = strip_cr s in elim s [ [] ↦ if b == 13 then [] else b ∷ [] | _ ∷ _ ↦ b ∷ rest ]

-- What the last line feed leaves.
abbrev pub unended : Str → List Str
unended [] = []
unended (b ∷ line) = (b ∷ line) ∷ []

-- `BufRead::lines`, behind the part `line` of the first one.
unfoldable pub lines_from : Str → Str → List Str
lines_from line [] = unended line
lines_from line (b ∷ s) =
    let ended = lines_from [] s in
    let longer = lines_from (line ++ b ∷ []) s in if b == 10 then strip_cr line ∷ ended else longer
