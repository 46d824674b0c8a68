-- ===== src/Wal/Fields.antt =====
-- The fields of a frame of crates/wal/src/lib.rs, encoded and read.
use timelakedb.Base.{
  ℕ, ◌^◌, ◌<◌, ◌≤◌, ◌≡◌, refl, ◌∙◌, subst, true, some, ◌++◌, length, ok, arith, le→ltb,
}
use timelakedb.Base.Str.{Str}
use mathlib.Core.List.{append_assoc}
use timelakedb.Wal.Bytes.{
  u32, le_bytes, from_le_bytes, i64_bits, read_exact, is_utf8, IsI64, length-le_bytes,
  from_le_bytes-le_bytes, bits_i64-i64_bits, i64_bits-bound, read_exact-append,
}
use timelakedb.Wal.Frame.{WalError, Frame, encode_frame_body, read_fields}

-- A frame that the log can give back: what its length fields and the reader's checks admit.
pub record IsFrame (f : Frame) : Type 0 where
  pub short_name : length f.db ≤ 4096
  pub utf8 : is_utf8 f.db ≡ true
  pub mult_range : IsI64 f.mult
  pub short_body : length f.body < 2 ^ 32

pub read_number : (k n : ℕ) (s : Str) → read_exact k (le_bytes k n ++ s) ≡ some (le_bytes k n, s)
read_number k n s =
    subst (λ j. read_exact j (le_bytes k n ++ s) ≡ some (le_bytes k n, s)) (length-le_bytes k n)
      (read_exact-append (le_bytes k n) s)

pub length_read : (n : ℕ) → n < 2 ^ 32 → from_le_bytes (le_bytes 4 (u32 n)) ≡ n
length_read n h = from_le_bytes-le_bytes 4 (u32 n) (omega arith) ∙ omega arith

encode-order : (a b c d e s : Str) → a ++ b ++ c ++ d ++ e ++ s ≡ a ++ (b ++ (c ++ (d ++ (e ++ s))))
encode-order a b c d e s =
    append_assoc (a ++ b ++ c ++ d) e s
    ∙ append_assoc (a ++ b ++ c) d (e ++ s)
    ∙ append_assoc (a ++ b) c (d ++ (e ++ s))
    ∙ append_assoc a b (c ++ (d ++ (e ++ s)))

-- A frame's body, whatever follows it.
pub read_fields-encode :
    (short : WalError) (f : Frame) (s : Str)
    → IsFrame f
    → read_fields short (encode_frame_body f ++ s) ≡ ok (f, s)
unfolding read_fields encode_frame_body
read_fields-encode short f s w =
    let name = le_bytes 4 (u32 (length f.db)) in
    let num = le_bytes 8 (i64_bits f.mult) in
    let len = le_bytes 4 (u32 (length f.body)) in
    rw (encode-order name f.db num len f.body s) (
      rw (read_number 4 (u32 (length f.db)) (f.db ++ (num ++ (len ++ (f.body ++ s))))) (
        rw (length_read (length f.db) (omega (arith, w.short_name))) (
          rw (le→ltb 4096 (length f.db) w.short_name) (
            rw (read_exact-append f.db (num ++ (len ++ (f.body ++ s)))) (
              rw (read_number 8 (i64_bits f.mult) (len ++ (f.body ++ s))) (
                rw (read_number 4 (u32 (length f.body)) (f.body ++ s)) (
                  rw (length_read (length f.body) w.short_body) (
                    rw (read_exact-append f.body s) (
                      rw w.utf8 (
                        rw (from_le_bytes-le_bytes 8 (i64_bits f.mult) (i64_bits-bound f.mult))
                          (rw (bits_i64-i64_bits f.mult w.mult_range) refl)))))))))))
