-- ===== src/Visibility/Blank.antt =====
-- `expr.trim().is_empty()` of crates/query/src/visibility.rs: every character is white space. The
-- state is what has been read of a character of several bytes.
use timelakedb.Base.{ℕ, Bool, true, false, ◌&&◌, ◌||◌, [], ◌∷◌, leb, ◌==◌, if◌then◌else◌}
use timelakedb.Base.Str.{Str}

pub data Within : Type 0 where
  start c2 e1 e1_9a e2 e2_80 e2_81 e3 e3_80 bad : Within

-- The state after one more byte: `start` again at the end of a character, `bad` if it is not white.
unfoldable pub next_byte : Within → ℕ → Within
next_byte start c =
    if (leb 9 c && leb c 13) || c == 32
    then start
    else if c == 0xc2
    then c2
    else if c == 0xe1
    then e1
    else if c == 0xe2
    then e2
    else if c == 0xe3
    then e3
    else bad
next_byte c2 c = if c == 0x85 || c == 0xa0 then start else bad
next_byte e1 c = if c == 0x9a then e1_9a else bad
next_byte e1_9a c = if c == 0x80 then start else bad
next_byte e2 c = if c == 0x80 then e2_80 else if c == 0x81 then e2_81 else bad
next_byte e2_80 c =
    if (leb 0x80 c && leb c 0x8a) || (c == 0xa8 || (c == 0xa9 || c == 0xaf)) then start else bad
next_byte e2_81 c = if c == 0x9f then start else bad
next_byte e3 c = if c == 0x80 then e3_80 else bad
next_byte e3_80 c = if c == 0x80 then start else bad
next_byte bad c = bad

unfoldable pub blank_from : Within → Str → Bool
unfolding next_byte
blank_from start [] = true
blank_from w [] = false
blank_from w (c ∷ s) = blank_from (next_byte w c) s

unfoldable pub is_blank : Str → Bool
unfolding blank_from
is_blank = blank_from start
