-- ===== src/Wal/Frame.antt =====
-- The frames of crates/wal/src/lib.rs: a write's encoding and its parsing, plain and sealed. A reader
-- is the input that is left of a file.
use timelakedb.Base.{
  ℕ, ◌*◌, ◌^◌, ◌≡◌, Option, none, some, [], ◌∷◌, ◌++◌, length, ltb, ◌==◌, if◌then◌else◌, Result, ok,
  err, ◌>>=◌, ok_or, replicate,
}
use timelakedb.Base.Int.{ℤ}
use timelakedb.Base.Str.{Str}
use timelakedb.Wal.Bytes.{u32, le_bytes, from_le_bytes, i64_bits, bits_i64, read_exact, is_utf8}

pub data Problem : Type 0 where
  bad_frame_magic db_name_too_long body_truncated db_not_utf8 seal_failed authentication_failed :
      Problem
  unrecognised_magic not_a_header unsupported_version wrapped_key_too_long ciphertext_implausible
        no_key :
      Problem

-- An `io::Error`: the end of the input, `InvalidData` of one of the messages, or another.
pub data WalError : Type 0 where
  unexpected_eof : WalError
  invalid : Problem → WalError
  other : ℕ → WalError

-- `0x544C_4442`
abbrev pub magic : ℕ
magic = 1414284354

abbrev pub max_ct : ℕ
max_ct = 128 * 2 ^ 20

-- A write: its database, the precision's multiplier and the body.
pub record Frame : Type 0 where
  pub db : Str
  pub mult : ℤ
  pub body : Str

-- AES-256-GCM, by key, nonce, message and associated data. What was encrypted decrypts to itself.
pub record Aead : Type 0 where
  pub encrypt : Str → Str → Str → Str → Option Str
  pub decrypt : Str → Str → Str → Str → Option Str
  pub decrypt-encrypt :
      (key nonce msg aad ct : Str)
      → encrypt key nonce msg aad ≡ some ct
      → decrypt key nonce ct aad ≡ some msg

unfoldable pub encode_frame_body : Frame → Str
encode_frame_body f =
    le_bytes 4 (u32 (length f.db))
    ++ f.db
    ++ le_bytes 8 (i64_bits f.mult)
    ++ le_bytes 4 (u32 (length f.body))
    ++ f.body

-- The fields of a frame, and what is behind them; `short` where the input ends before.
unfoldable pub read_fields : WalError → Str → Result WalError (Frame × Str)
read_fields short s = do
  (d, s) ← ok_or short (read_exact 4 s)
  if ltb 4096 (from_le_bytes d) then err (invalid db_name_too_long) else do
    (db, s) ← ok_or short (read_exact (from_le_bytes d) s)
    (m, s) ← ok_or short (read_exact 8 s)
    (b, s) ← ok_or short (read_exact 4 s)
    (body, s) ← ok_or short (read_exact (from_le_bytes b) s)
    if is_utf8 db
        then ok (record { db = db; mult = bits_i64 (from_le_bytes m); body = body }, s)
        else err (invalid db_not_utf8)

unfoldable pub parse_frame_body : Str → Result WalError Frame
parse_frame_body buf = do (f, rest) ← read_fields (invalid body_truncated) buf; ok f

-- A frame of a plain file behind its first four bytes.
unfoldable pub framed : Str → Str → Result WalError (Option (Frame × Str))
framed hdr rest =
    if from_le_bytes hdr == magic
    then (do got ← read_fields unexpected_eof rest; ok (some got))
    else err (invalid bad_frame_magic)

-- The next frame of a plain file, or nothing where it ends.
unfoldable pub read_frame : Str → Result WalError (Option (Frame × Str))
read_frame s = elim (read_exact 4 s) [ none ↦ ok none | some (hdr, rest) ↦ framed hdr rest ]

unfoldable pub nonce_bytes : ℕ → Str
nonce_bytes seq = le_bytes 8 seq ++ replicate 4 0

unfoldable pub seal : Aead → Str → ℕ → Str → Result WalError Str
seal aead dek seq msg =
    ok_or (invalid seal_failed) (aead.encrypt dek (nonce_bytes seq) msg (le_bytes 8 seq))

unfoldable pub open_sealed : Aead → Str → ℕ → Str → Result WalError Str
open_sealed aead dek seq ct =
    ok_or (invalid authentication_failed) (aead.decrypt dek (nonce_bytes seq) ct (le_bytes 8 seq))

-- A length prefix: nothing at the end of the input, an error if it is cut off.
unfoldable pub read_len : Str → Result WalError (Option (ℕ × Str))
read_len [] = ok none
read_len (c ∷ s) = elim (read_exact 4 (c ∷ s)) [
  | none ↦ err unexpected_eof
  | some (b, rest) ↦ ok (some (from_le_bytes b, rest))
]

unfoldable pub read_frame_encrypted : Aead → Str → ℕ → Str → Result WalError (Option (Frame × Str))
read_frame_encrypted aead dek seq s = do
  len ← read_len s
  elim len [
    | none ↦ ok none
    | some (ct_len, rest) ↦ if ltb max_ct ct_len then err (invalid ciphertext_implausible) else do
      (ct, after) ← ok_or unexpected_eof (read_exact ct_len rest)
      pt ← open_sealed aead dek seq ct
      f ← parse_frame_body pt
      ok (some (f, after))
  ]
