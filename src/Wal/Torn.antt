-- ===== src/Wal/Torn.antt =====
-- A plain generation of crates/wal/src/lib.rs: whole frames and what may follow the last of them.
use timelakedb.Base.{
  ℕ, zero, suc, ◌+◌, ◌-◌, ◌<◌, ◌≤◌, ◌≡◌, refl, sym, ap, ◌∙◌, true, Option, none, some, List, [],
  ◌∷◌, ◌++◌, length, take, length-append, take-append, lt→ltb, ◌==◌, Result, ok, err, arith, All,
}
use timelakedb.Base.Str.{Str}
use mathlib.Core.List.{append_assoc, append-nil}
use timelakedb.Wal.Bytes.{le_bytes, from_le_bytes, read_exact, read_exact-short, length-le_bytes}
use timelakedb.Wal.Frame.{
  WalError, unexpected_eof, invalid, bad_frame_magic, magic, Frame, encode_frame_body, framed,
  read_frame,
}
use timelakedb.Wal.Fields.{IsFrame, read_fields-encode}
use timelakedb.Wal.Local.{read_frame-more, read_frame-ne-none}
use timelakedb.Wal.Replay.{Ended, clean, torn, plain_frames, cut, replay_plaintext}

-- The bytes that `append` writes for a frame, and those of several.
abbrev pub plain_frame : Frame → Str
plain_frame f = le_bytes 4 magic ++ encode_frame_body f

abbrev pub written : List Frame → Str
written [] = []
written (f ∷ fs) = plain_frame f ++ written fs

header_read : (s : Str) → read_exact 4 (le_bytes 4 magic ++ s) ≡ some (le_bytes 4 magic, s)
unfolding le_bytes read_exact
header_read s = refl

header_value : (from_le_bytes (le_bytes 4 magic) == magic) ≡ true
unfolding le_bytes from_le_bytes
header_value = refl

read_frame-plain_frame :
    (f : Frame) (s : Str) → IsFrame f → read_frame (plain_frame f ++ s) ≡ ok (some (f, s))
unfolding read_frame framed
read_frame-plain_frame f s w = rw (append_assoc (le_bytes 4 magic) (encode_frame_body f) s) (
    rw (header_read (encode_frame_body f ++ s), read_frame)
      (rw header_value (rw (read_fields-encode unexpected_eof f s w) refl)))

-- The fuel that is `k` behind some frames.
abbrev pub fuel_for : List Frame → ℕ → ℕ
fuel_for [] k = k
fuel_for (f ∷ fs) k = suc (fuel_for fs k)

pub fuel_for-add : (fs : List Frame) (k : ℕ) → fuel_for fs k ≡ length fs + k
fuel_for-add [] k = omega arith
fuel_for-add (f ∷ fs) k = omega (arith, fuel_for-add fs k)

plain_frames-written :
    (fs : List Frame) (k : ℕ) (tail : Str)
    → All IsFrame fs
    → plain_frames (fuel_for fs k) (written fs ++ tail)
      ≡ (fs ++ (plain_frames k tail).0, (plain_frames k tail).1)
unfolding plain_frames
plain_frames-written [] k tail w = refl
plain_frames-written (f ∷ fs) k tail w = rw (append_assoc (plain_frame f) (written fs) tail) (
    rw (read_frame-plain_frame f (written fs ++ tail) w.0, plain_frames)
      (rw (plain_frames-written fs k tail w.1) refl))

length-written : (fs : List Frame) → length fs ≤ length (written fs)
unfolding le_bytes
length-written [] = omega arith
length-written (f ∷ fs) =
    omega (arith, length-written fs, length-append (plain_frame f) (written fs))

-- The replay of whole frames and a tail that no frame can be read from.
replay_plaintext-ended :
    (fs : List Frame) (tail : Str) (end : Ended)
    → All IsFrame fs
    → ((n : ℕ) → plain_frames (suc n) tail ≡ ([], end))
    → replay_plaintext (written fs ++ tail) ≡ (fs, cut (written fs ++ tail) end)
unfolding replay_plaintext
replay_plaintext-ended fs tail end w h =
    let file = written fs ++ tail in
    let spare = length file - length fs in
    let enough : suc (length file) ≡ fuel_for fs (suc spare) =
      omega
        (arith, fuel_for-add fs (suc spare), length-written fs, length-append (written fs) tail) in
    rw enough
      (rw (plain_frames-written fs (suc spare) tail w) (rw (h spare) (rw (append-nil fs) refl)))

read_frame-short : (tail : Str) → length tail < 4 → read_frame tail ≡ ok none
unfolding read_frame
read_frame-short tail h = rw (read_exact-short 4 tail h, read_frame) refl

-- A tail of less than a frame's four magic bytes is not cut off.
pub replay_plaintext-short :
    (fs : List Frame) (tail : Str)
    → All IsFrame fs
    → length tail < 4
    → replay_plaintext (written fs ++ tail) ≡ (fs, written fs ++ tail)
unfolding plain_frames cut
replay_plaintext-short fs tail w h =
    replay_plaintext-ended fs tail clean w (λ n. rw (read_frame-short tail h, plain_frames) refl)

pub cut-torn : (whole tail : Str) → 0 < length tail → cut (whole ++ tail) (torn tail) ≡ whole
unfolding cut
cut-torn whole tail h =
    let good : length (whole ++ tail) - length tail ≡ length whole =
      omega (arith, length-append whole tail) in
    rw good (
      rw (lt→ltb (length whole) (length (whole ++ tail)) (omega (arith, length-append whole tail)))
        (take-append whole tail))

-- A tail from which no frame can be read is cut off.
replay_plaintext-unread :
    (fs : List Frame) (tail : Str) (e : WalError)
    → All IsFrame fs
    → 0 < length tail
    → read_frame tail ≡ err e
    → replay_plaintext (written fs ++ tail) ≡ (fs, written fs)
unfolding plain_frames
replay_plaintext-unread fs tail e w h k =
    replay_plaintext-ended fs tail (torn tail) w (λ n. rw (k, plain_frames) refl)
    ∙ ap (λ file. (fs, file)) (cut-torn (written fs) tail h)

left_over :
    {f g : Frame} {r s : Str}
    → ◌≡◌ {A = Result WalError (Option (Frame × Str))} (ok (some (f, r))) (ok (some (g, s)))
    → length r ≡ length s
left_over {f} {g} {r} {s} h =
    let pair : ◌≡◌ {A = Frame × Str} (f, r) (g, s) = cc h in ap (λ p. length p.1) pair

-- A frame that is cut off behind its magic bytes is cut off the file, and every frame before it is
-- given back.
pub replay_plaintext-torn :
    (fs : List Frame) (f : Frame) (tail lost : Str)
    → All IsFrame fs
    → IsFrame f
    → tail ++ lost ≡ plain_frame f
    → 4 ≤ length tail
    → 0 < length lost
    → replay_plaintext (written fs ++ tail) ≡ (fs, written fs)
replay_plaintext-torn fs f tail lost w v split h k = go (read_frame tail) refl
  where
    go :
        (o : Result WalError (Option (Frame × Str)))
        → read_frame tail ≡ o
        → replay_plaintext (written fs ++ tail) ≡ (fs, written fs)
    go (ok none) e = absurd (read_frame-ne-none tail h e)
    go (ok (some (g, r))) e =
        let both : ◌≡◌ {A = Result WalError (Option (Frame × Str))} (ok (some (g, r ++ lost)))
            (ok (some (f, []))) =
          sym (read_frame-more tail lost g r e)
          ∙ ap read_frame (split ∙ sym (append-nil (plain_frame f)))
          ∙ read_frame-plain_frame f [] v in
        absurd (omega (arith, length-append r lost, left_over both))
    go (err z) e = replay_plaintext-unread fs tail z w (omega arith) e

bad_magic :
    (k : ℕ) (f : Frame)
    → 0 < k
    → k < 4
    → read_frame (take k (le_bytes 4 magic) ++ plain_frame f) ≡ err (invalid bad_frame_magic)
unfolding read_frame framed read_exact le_bytes from_le_bytes
bad_magic zero f h k = absurd (omega arith)
bad_magic (suc zero) f h k = refl
bad_magic (suc (suc zero)) f h k = refl
bad_magic (suc (suc (suc zero))) f h k = refl
bad_magic (suc (suc (suc (suc n)))) f h k = absurd (omega arith)

-- A frame appended behind one to three bytes of a frame that was cut off is lost: the replay cuts the
-- file off before it.
pub replay_plaintext-lost :
    (fs : List Frame) (f : Frame) (k : ℕ)
    → All IsFrame fs
    → 0 < k
    → k < 4
    → replay_plaintext (written fs ++ (take k (le_bytes 4 magic) ++ plain_frame f))
      ≡ (fs, written fs)
replay_plaintext-lost fs f k w h j =
    replay_plaintext-unread fs (take k (le_bytes 4 magic) ++ plain_frame f)
      (invalid bad_frame_magic) w
      (omega (
        arith,
        length-append (take k (le_bytes 4 magic)) (plain_frame f),
        length-append (le_bytes 4 magic) (encode_frame_body f),
        length-le_bytes 4 magic,
      ))
      (bad_magic k f h j)
