-- ===== src/Wal/Tests.antt =====
-- The theorems on the write-ahead log at concrete files.
use timelakedb.Base.{
  ◌≡◌, ◌≢◌, refl, sym, Option, none, some, List, [], ◌∷◌, ◌++◌, ok, take, drop, arith,
}
use timelakedb.Base.Int.{pos}
use timelakedb.Base.Str.{Str, str}
use timelakedb.Wal.Bytes.{le_bytes, i64_bits, utf8_from, utf8_next}
use timelakedb.Wal.Frame.{Frame, Aead, encode_frame_body, seal, magic}
use timelakedb.Wal.Fields.{IsFrame}
use timelakedb.Wal.Replay.{out_of_fuel, plain_frames, replay_plaintext, replay_encrypted}
use timelakedb.Wal.Log.{Dir, Wal, open_wal, enc_header}
use timelakedb.Wal.Torn.{plain_frame, written, replay_plaintext-torn, replay_plaintext-lost}
use timelakedb.Wal.Sealed.{Sealed, no_more, one_more, sealed_frame}
use timelakedb.Wal.Encrypted.{replay_encrypted-torn, replay_encrypted-Sealed}
use timelakedb.Wal.Ends.{plain_frames-ne-out_of_fuel}
use timelakedb.Wal.Recovery.{
  frames, Keeps, Op, append_frame, rotate_file, reclaim, run, run_log, opened, open_wal-run,
}

abbrev first : Frame
first = record { db = str "db"; mult = pos 1; body = str "m v=1 1" }

abbrev second : Frame
second = record { db = str "db"; mult = pos 1000; body = str "m v=2 2" }

first-IsFrame : IsFrame first
unfolding utf8_from utf8_next
first-IsFrame = record {
  short_name = omega arith;
  utf8 = refl;
  mult_range = omega arith;
  short_body = omega arith;
}

second-IsFrame : IsFrame second
unfolding utf8_from utf8_next
second-IsFrame = record {
  short_name = omega arith;
  utf8 = refl;
  mult_range = omega arith;
  short_body = omega arith;
}

sym_some :
    {a b : Str} → ◌≡◌ {A = Option Str} (some a) (some b) → ◌≡◌ {A = Option Str} (some b) (some a)
sym_some h = sym h

-- A cipher that leaves its messages as they are.
abbrev plain_aead : Aead
plain_aead = record {
  encrypt = λ key nonce msg aad. some msg;
  decrypt = λ key nonce ct aad. some ct;
  decrypt-encrypt = λ key nonce msg aad ct h. sym_some h;
}

abbrev wal : Wal
wal = record { generation = 0; enc = none; fail_next = none }

abbrev dir : Dir
dir = (0, []) ∷ []

wal-Keeps : Keeps wal dir ((0, []) ∷ [])
wal-Keeps = record {
  content = refl;
  ascending = (tt, tt);
  upto = (omega arith, tt);
  whole = (tt, tt);
  plain = refl;
  healthy = refl;
}

abbrev ops : List Op
ops = append_frame first ∷ rotate_file ∷ append_frame second ∷ reclaim 0 ∷ append_frame first ∷ []

open_wal-run_example :
    opened (open_wal plain_aead none none (run plain_aead (wal, dir) ops).1).0
    ≡ ok (frames (run_log (0, (0, []) ∷ []) ops).1)
open_wal-run_example =
    open_wal-run plain_aead wal dir ((0, []) ∷ []) ops wal-Keeps
      (first-IsFrame, (tt, (second-IsFrame, (tt, (first-IsFrame, tt)))))

replay_plaintext-torn_example :
    replay_plaintext (written (first ∷ []) ++ take 15 (plain_frame second))
    ≡ (first ∷ [], written (first ∷ []))
unfolding le_bytes encode_frame_body i64_bits
replay_plaintext-torn_example =
    replay_plaintext-torn (first ∷ []) second (take 15 (plain_frame second))
      (drop 15 (plain_frame second)) (first-IsFrame, tt) second-IsFrame refl (omega arith)
      (omega arith)

replay_plaintext-lost_example :
    replay_plaintext (written (first ∷ []) ++ (take 1 (le_bytes 4 magic) ++ plain_frame second))
    ≡ (first ∷ [], written (first ∷ []))
replay_plaintext-lost_example =
    replay_plaintext-lost (first ∷ []) second 1 (first-IsFrame, tt) (omega arith) (omega arith)

plain_frames-ne-out_of_fuel_example : (plain_frames 4 (str "xyz")).1 ≢ out_of_fuel
plain_frames-ne-out_of_fuel_example = plain_frames-ne-out_of_fuel 4 (str "xyz") (omega arith)

first-Sealed :
    Sealed plain_aead (str "key") 0 (first ∷ []) (sealed_frame (encode_frame_body first) ++ [])
unfolding seal encode_frame_body le_bytes i64_bits
first-Sealed = one_more first (encode_frame_body first) first-IsFrame refl (omega arith) no_more

replay_encrypted-torn_example :
    replay_encrypted plain_aead (some (λ w. ok w)) (
      enc_header (str "key")
      ++ (sealed_frame (encode_frame_body first) ++ [])
      ++ take 9 (sealed_frame (str "sealed")))
    ≡ (ok (first ∷ []), enc_header (str "key") ++ (sealed_frame (encode_frame_body first) ++ []))
unfolding le_bytes
replay_encrypted-torn_example =
    replay_encrypted-torn plain_aead (λ w. ok w) (str "key") (str "key") (str "sealed")
      (take 9 (sealed_frame (str "sealed"))) (drop 9 (sealed_frame (str "sealed"))) (omega arith)
      refl first-Sealed (omega arith) refl (omega arith) (omega arith)

replay_encrypted-Sealed_example :
    replay_encrypted plain_aead
      (some (λ w. ok w))
      (enc_header (str "key") ++ (sealed_frame (encode_frame_body first) ++ []))
    ≡ (ok (first ∷ []), enc_header (str "key") ++ (sealed_frame (encode_frame_body first) ++ []))
replay_encrypted-Sealed_example =
    replay_encrypted-Sealed plain_aead (λ w. ok w) (str "key") (str "key") (omega arith) refl
      first-Sealed
