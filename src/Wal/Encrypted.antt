-- ===== src/Wal/Encrypted.antt =====
-- The replay of a whole encrypted generation of crates/wal/src/lib.rs.
use timelakedb.Base.{
  ℕ, suc, ◌-◌, ◌%◌, ◌^◌, ◌<◌, ◌≤◌, ◌≡◌, refl, ap, ◌∙◌, subst, some, List, [], ◌∷◌, ◌++◌, length,
  length-append, le→ltb, Result, ok, arith,
}
use timelakedb.Base.Str.{Str}
use mathlib.Core.List.{append_assoc, append-nil}
use timelakedb.Wal.Bytes.{
  le_bytes, from_le_bytes, read_exact, read_exact-append, from_le_bytes-le_bytes,
}
use timelakedb.Wal.Frame.{WalError, Frame, Aead, read_frame_encrypted, read_len, max_ct}
use timelakedb.Wal.Fields.{read_number}
use timelakedb.Wal.Replay.{
  wmagic, Ended, clean, torn, sealed_frames, cut, sealed_result, replay_encrypted, read_enc_header,
}
use timelakedb.Wal.Log.{enc_header}
use timelakedb.Wal.Torn.{cut-torn, fuel_for, fuel_for-add}
use timelakedb.Wal.Sealed.{
  Sealed, sealed_frame, sealed_frames-Sealed, length-Sealed, read_frame_encrypted-torn,
}

read_version : (s : Str) → read_exact 1 (1 ∷ s) ≡ some (1 ∷ [], s)
unfolding read_exact
read_version s = refl

magic_value : from_le_bytes (le_bytes 4 wmagic) ≡ wmagic
unfolding from_le_bytes le_bytes
magic_value = refl

version_value : from_le_bytes (1 ∷ []) ≡ 1
unfolding from_le_bytes
version_value = refl

key_length : (n : ℕ) → n ≤ 4096 → from_le_bytes (le_bytes 2 (n % 2 ^ 16)) ≡ n
key_length n h = from_le_bytes-le_bytes 2 (n % 2 ^ 16) (omega arith) ∙ omega arith

-- The key comes back out of a header.
read_enc_header-enc_header :
    (unwrap : Str → Result WalError Str) (wrapped dek s : Str)
    → length wrapped ≤ 4096
    → unwrap wrapped ≡ ok dek
    → read_enc_header unwrap (enc_header wrapped ++ s) ≡ ok (dek, s)
unfolding read_enc_header enc_header
read_enc_header-enc_header unwrap wrapped dek s h k =
    let len = le_bytes 2 (length wrapped % 2 ^ 16) in
    let order : enc_header wrapped ++ s ≡ le_bytes 4 wmagic ++ (1 ∷ (len ++ (wrapped ++ s))) =
      append_assoc (le_bytes 4 wmagic ++ 1 ∷ [] ++ len) wrapped s
      ∙ append_assoc (le_bytes 4 wmagic ++ 1 ∷ []) len (wrapped ++ s)
      ∙ append_assoc (le_bytes 4 wmagic) (1 ∷ []) (len ++ (wrapped ++ s)) in
    rw order (
      rw (read_number 4 wmagic (1 ∷ (len ++ (wrapped ++ s))), read_enc_header)
        (rw magic_value (
          rw (read_version (len ++ (wrapped ++ s))) (
            rw version_value (
              rw (read_number 2 (length wrapped % 2 ^ 16) (wrapped ++ s)) (
                rw (key_length (length wrapped) h) (
                  rw (le→ltb 4096 (length wrapped) h)
                    (rw (read_exact-append wrapped s) (rw k refl)))))))))

-- What `end` leaves of a file, where a replay of it comes to its end.
replay_encrypted-ended :
    (aead : Aead) (unwrap : Str → Result WalError Str) (wrapped dek : Str) {fs : List Frame}
    {bytes : Str} (tail : Str) (end : Ended)
    → length wrapped ≤ 4096
    → unwrap wrapped ≡ ok dek
    → Sealed aead dek 0 fs bytes
    → ((n q : ℕ) → sealed_frames aead dek q (suc n) tail ≡ ([], end))
    → replay_encrypted aead (some unwrap) (enc_header wrapped ++ bytes ++ tail)
      ≡ sealed_result (enc_header wrapped ++ bytes ++ tail) (fs, end)
unfolding replay_encrypted
replay_encrypted-ended aead unwrap wrapped dek {fs} {bytes} tail end h k w e =
    let spare = length (bytes ++ tail) - length fs in
    let enough : suc (length (bytes ++ tail)) ≡ fuel_for fs (suc spare) =
      omega (arith, fuel_for-add fs (suc spare), length-Sealed w, length-append bytes tail) in
    rw (append_assoc (enc_header wrapped) bytes tail) (
      rw (read_enc_header-enc_header unwrap wrapped dek (bytes ++ tail) h k, replay_encrypted)
        (rw enough (rw (sealed_frames-Sealed spare tail end w e) refl)))

-- The frames of a file that ends with a whole frame are given back.
pub replay_encrypted-Sealed :
    (aead : Aead) (unwrap : Str → Result WalError Str) (wrapped dek : Str) {fs : List Frame}
    {bytes : Str}
    → length wrapped ≤ 4096
    → unwrap wrapped ≡ ok dek
    → Sealed aead dek 0 fs bytes
    → replay_encrypted aead (some unwrap) (enc_header wrapped ++ bytes)
      ≡ (ok fs, enc_header wrapped ++ bytes)
unfolding sealed_result cut sealed_frames read_frame_encrypted read_len
replay_encrypted-Sealed aead unwrap wrapped dek {fs} {bytes} h k w =
    subst (λ s. replay_encrypted aead (some unwrap) s ≡ (ok fs, s))
      (append-nil (enc_header wrapped ++ bytes))
      (replay_encrypted-ended aead unwrap wrapped dek [] clean h k w (λ n q. refl))

-- A sealed frame that is cut off anywhere is cut off the file, and every frame before it is given back.
pub replay_encrypted-torn :
    (aead : Aead) (unwrap : Str → Result WalError Str) (wrapped dek : Str) {fs : List Frame}
    {bytes : Str} (ct tail lost : Str)
    → length wrapped ≤ 4096
    → unwrap wrapped ≡ ok dek
    → Sealed aead dek 0 fs bytes
    → length ct ≤ max_ct
    → tail ++ lost ≡ sealed_frame ct
    → 0 < length tail
    → 0 < length lost
    → replay_encrypted aead (some unwrap) (enc_header wrapped ++ bytes ++ tail)
      ≡ (ok fs, enc_header wrapped ++ bytes)
unfolding sealed_result sealed_frames
replay_encrypted-torn aead unwrap wrapped dek {fs} {bytes} ct tail lost h k w m split t l =
    replay_encrypted-ended aead unwrap wrapped dek tail (torn tail) h k w (λ n q.
      rw (read_frame_encrypted-torn aead dek q ct tail lost m split t l, sealed_frames) refl)
    ∙ ap (λ s. (ok fs, s)) (cut-torn (enc_header wrapped ++ bytes) tail t)
