-- ===== src/Wal/Replay.antt =====
-- The replay of one generation's file in crates/wal/src/lib.rs: the frames that it holds, and what the
-- file is cut down to. The loop is on fuel, one more than the file's bytes.
use timelakedb.Base.{
  ℕ, zero, suc, ◌-◌, Option, none, some, List, [], ◌∷◌, length, take, ltb, ◌==◌, if◌then◌else◌,
  Result, ok, err, ◌>>=◌, ok_or,
}
use timelakedb.Base.Str.{Str}
use timelakedb.Wal.Bytes.{from_le_bytes, read_exact}
use timelakedb.Wal.Frame.{
  WalError, unexpected_eof, invalid, no_key, not_a_header, unsupported_version,
  wrapped_key_too_long, unrecognised_magic, magic, Frame, Aead, read_frame, read_frame_encrypted,
}

-- `0x544C_4457`
abbrev pub wmagic : ℕ
wmagic = 1414284375

abbrev pub wal_version : ℕ
wal_version = 1

-- How the loop over a file's frames ended: at its end, at bytes that are cut off, or by an error.
pub data Ended : Type 0 where
  clean out_of_fuel : Ended
  torn : Str → Ended
  broken : WalError → Ended

unfoldable pub plain_frames : ℕ → Str → List Frame × Ended
plain_frames zero s = ([], out_of_fuel)
plain_frames (suc n) s = elim (read_frame s) [
  | ok none ↦ ([], clean)
  | ok (some (f, rest)) ↦ let more = plain_frames n rest in (f ∷ more.0, more.1)
  | err _ ↦ ([], torn s)
]

-- The file after the loop: cut off where the last whole frame ends.
unfoldable pub cut : Str → Ended → Str
cut file (torn rest) =
    let good_end = length file - length rest in
    if ltb good_end (length file) then take good_end file else file
cut file _ = file

unfoldable pub replay_plaintext : Str → List Frame × Str
replay_plaintext file =
    let (frames, end) = plain_frames (suc (length file)) file in (frames, cut file end)

unfoldable pub sealed_frames : Aead → Str → ℕ → ℕ → Str → List Frame × Ended
sealed_frames aead dek seq zero s = ([], out_of_fuel)
sealed_frames aead dek seq (suc n) s = elim (read_frame_encrypted aead dek seq s) [
  | ok none ↦ ([], clean)
  | ok (some (f, rest)) ↦ let more = sealed_frames aead dek (suc seq) n rest in (f ∷ more.0, more.1)
  | err unexpected_eof ↦ ([], torn s)
  | err e ↦ ([], broken e)
]

-- The data key of an encrypted file, and the bytes of its frames.
unfoldable pub read_enc_header : (Str → Result WalError Str) → Str → Result WalError (Str × Str)
read_enc_header unwrap s = do
  (m, s) ← ok_or unexpected_eof (read_exact 4 s)
  if from_le_bytes m == wmagic
      then (do
        (v, s) ← ok_or unexpected_eof (read_exact 1 s)
        if from_le_bytes v == wal_version
            then (do
              (wl, s) ← ok_or unexpected_eof (read_exact 2 s)
              if ltb 4096 (from_le_bytes wl) then err (invalid wrapped_key_too_long) else do
                (wrapped, s) ← ok_or unexpected_eof (read_exact (from_le_bytes wl) s)
                dek ← unwrap wrapped
                ok (dek, s))
            else err (invalid unsupported_version))
      else err (invalid not_a_header)

-- The frames, or the error that refuses the file, and the file afterwards.
unfoldable pub sealed_result : Str → List Frame × Ended → Result WalError (List Frame) × Str
sealed_result file (frames, broken e) = (err e, file)
sealed_result file (frames, end) = (ok frames, cut file end)

unfoldable pub replay_encrypted :
    Aead → Option (Str → Result WalError Str) → Str → Result WalError (List Frame) × Str
replay_encrypted aead none file = (err (invalid no_key), file)
replay_encrypted aead (some unwrap) file = elim (read_enc_header unwrap file) [
  | err e ↦ (err e, file)
  | ok (dek, s) ↦ sealed_result file (sealed_frames aead dek 0 (suc (length s)) s)
]

unfoldable pub peek_magic : Str → Option ℕ
peek_magic file = elim (read_exact 4 file) [ none ↦ none | some (m, rest) ↦ some (from_le_bytes m) ]

unfoldable pub replay_file :
    Aead → Option (Str → Result WalError Str) → Str → Result WalError (List Frame) × Str
replay_file aead cipher file = elim (peek_magic file) [
  | none ↦ (ok [], file)
  | some m ↦
      if m == wmagic
      then replay_encrypted aead cipher file
      else if m == magic
      then (let (frames, after) = replay_plaintext file in (ok frames, after))
      else (err (invalid unrecognised_magic), file)
]
