-- ===== src/Wal/Sealed.antt =====
-- An encrypted generation of crates/wal/src/lib.rs: its header, sealed frames and a torn tail.
use timelakedb.Base.{
  ℕ, suc, ◌^◌, ◌<◌, ◌≤◌, ◌≡◌, refl, sym, ap, ◌∙◌, subst, inl, inr, none, some, List, [], ◌∷◌, ◌++◌,
  length, length-append, le→ltb, ok, err, arith, Option-cases,
}
use timelakedb.Base.Str.{Str}
use mathlib.Core.List.{append_assoc, append-nil}
use timelakedb.Wal.Bytes.{
  u32, le_bytes, from_le_bytes, read_exact, read_exact-append, read_exact-short, read_exact-more,
  length-le_bytes,
}
use timelakedb.Wal.Frame.{
  unexpected_eof, invalid, Frame, Aead, encode_frame_body, seal, open_sealed, nonce_bytes, read_len,
  read_frame_encrypted, parse_frame_body, max_ct, body_truncated,
}
use timelakedb.Wal.Fields.{IsFrame, read_fields-encode, read_number, length_read}
use timelakedb.Wal.Replay.{Ended, sealed_frames}
use timelakedb.Wal.Torn.{fuel_for}

-- A ciphertext as `append` writes it.
abbrev pub sealed_frame : Str → Str
sealed_frame ct = le_bytes 4 (u32 (length ct)) ++ ct

-- The bytes that appends of the frames write, from a sequence number on.
pub data Sealed (aead : Aead) (dek : Str) : ℕ → List Frame → Str → Type 0 where
  no_more : {seq : ℕ} → Sealed aead dek seq [] []
  one_more :
      {seq : ℕ} {fs : List Frame} {bytes : Str} (f : Frame) (ct : Str)
      → IsFrame f
      → seal aead dek seq (encode_frame_body f) ≡ ok ct
      → length ct ≤ max_ct
      → Sealed aead dek (suc seq) fs bytes
      → Sealed aead dek seq (f ∷ fs) (sealed_frame ct ++ bytes)

open_sealed-seal :
    (aead : Aead) (dek : Str) (seq : ℕ) (msg ct : Str)
    → seal aead dek seq msg ≡ ok ct
    → open_sealed aead dek seq ct ≡ ok msg
unfolding seal open_sealed
open_sealed-seal aead dek seq msg ct h =
    elim (Option-cases (aead.encrypt dek (nonce_bytes seq) msg (le_bytes 8 seq))) [
      | inl e ↦ absurd (cc (rw (e, seal) at h))
      | inr (c, e) ↦
          let same : c ≡ ct = cc (rw (e, seal) at h) in
          rw (aead.decrypt-encrypt dek (nonce_bytes seq) msg (le_bytes 8 seq) ct (e ∙ ap some same))
            refl
    ]

parse-encode : (f : Frame) → IsFrame f → parse_frame_body (encode_frame_body f) ≡ ok f
unfolding parse_frame_body
parse-encode f w =
    subst (λ s. parse_frame_body s ≡ ok f) (append-nil (encode_frame_body f))
      (rw (read_fields-encode (invalid body_truncated) f [] w, parse_frame_body) refl)

read_len-some :
    (s b r : Str) → read_exact 4 s ≡ some (b, r) → read_len s ≡ ok (some (from_le_bytes b, r))
unfolding read_len read_exact
read_len-some [] b r h = absurd (cc h)
read_len-some (c ∷ s) b r h = rw (h, read_len) refl

read_len-none : (s : Str) → 0 < length s → read_exact 4 s ≡ none → read_len s ≡ err unexpected_eof
unfolding read_len
read_len-none [] k h = absurd (omega arith)
read_len-none (c ∷ s) k h = rw (h, read_len) refl

read_len-number :
    (n : ℕ) (s : Str) → n < 2 ^ 32 → read_len (le_bytes 4 (u32 n) ++ s) ≡ ok (some (n, s))
read_len-number n s h =
    read_len-some (le_bytes 4 (u32 n) ++ s) (le_bytes 4 (u32 n)) s (read_number 4 (u32 n) s)
    ∙ ap (λ m. ok (some (m, s))) (length_read n h)

read_frame_encrypted-sealed :
    (aead : Aead) (dek : Str) (seq : ℕ) (f : Frame) (ct s : Str)
    → IsFrame f
    → seal aead dek seq (encode_frame_body f) ≡ ok ct
    → length ct ≤ max_ct
    → read_frame_encrypted aead dek seq (sealed_frame ct ++ s) ≡ ok (some (f, s))
unfolding read_frame_encrypted
read_frame_encrypted-sealed aead dek seq f ct s w h k =
    rw (append_assoc (le_bytes 4 (u32 (length ct))) ct s) (
      rw (read_len-number (length ct) (ct ++ s) (omega (arith, k)), read_frame_encrypted)
        (rw (le→ltb max_ct (length ct) k) (
          rw (read_exact-append ct s) (
            rw (open_sealed-seal aead dek seq (encode_frame_body f) ct h)
              (rw (parse-encode f w) refl)))))

-- A sealed frame that is cut off is read as the end of the input.
pub read_frame_encrypted-torn :
    (aead : Aead) (dek : Str) (seq : ℕ) (ct tail lost : Str)
    → length ct ≤ max_ct
    → tail ++ lost ≡ sealed_frame ct
    → 0 < length tail
    → 0 < length lost
    → read_frame_encrypted aead dek seq tail ≡ err unexpected_eof
unfolding read_frame_encrypted
read_frame_encrypted-torn aead dek seq ct tail lost k split h j =
    elim (Option-cases (read_exact 4 tail)) [
      | inl e ↦ rw (read_len-none tail h e, read_frame_encrypted) refl
      | inr (p, e) ↦
          let whole = read_exact-more 4 tail lost p.0 p.1 e in
          let both = sym whole ∙ ap (read_exact 4) split ∙ read_number 4 (u32 (length ct)) ct in
          let pair : ◌≡◌ {A = Str × Str} (p.0, p.1 ++ lost) (le_bytes 4 (u32 (length ct)), ct) =
            cc both in
          let len : from_le_bytes p.0 ≡ length ct =
            ap (λ q. from_le_bytes q.0) pair ∙ length_read (length ct) (omega (arith, k)) in
          rw (read_len-some tail p.0 p.1 e, read_frame_encrypted)
            (rw len (
              rw (le→ltb max_ct (length ct) k) (
                rw
                  (read_exact-short (length ct) p.1
                    (omega (arith, length-append p.1 lost, ap (λ q. length q.1) pair)))
                  refl)))
    ]

pub sealed_frames-Sealed :
    {aead : Aead} {dek : Str} {seq : ℕ} {fs : List Frame} {bytes : Str} (k : ℕ) (tail : Str)
    (end : Ended)
    → Sealed aead dek seq fs bytes
    → ((n q : ℕ) → sealed_frames aead dek q (suc n) tail ≡ ([], end))
    → sealed_frames aead dek seq (fuel_for fs (suc k)) (bytes ++ tail) ≡ (fs, end)
unfolding sealed_frames
sealed_frames-Sealed k tail end no_more h = h k _
sealed_frames-Sealed {aead} {dek} {seq} k tail end
      (one_more {fs = fs} {bytes = bytes} f ct w e m rest) h =
    rw (append_assoc (sealed_frame ct) bytes tail) (
      rw (read_frame_encrypted-sealed aead dek seq f ct (bytes ++ tail) w e m, sealed_frames)
        (rw (sealed_frames-Sealed k tail end rest h) refl))

pub length-Sealed :
    {aead : Aead} {dek : Str} {seq : ℕ} {fs : List Frame} {bytes : Str}
    → Sealed aead dek seq fs bytes
    → length fs ≤ length bytes
length-Sealed no_more = omega arith
length-Sealed (one_more {bytes = bytes} f ct w e m rest) = omega (
  arith,
  length-Sealed rest,
  length-append (sealed_frame ct) bytes,
  length-append (le_bytes 4 (u32 (length ct))) ct,
  length-le_bytes 4 (u32 (length ct)),
)
