-- ===== src/Wal/Recovery.antt =====
-- A plain log of crates/wal/src/lib.rs and its generations, operation by operation, and its opening.
use timelakedb.Base.{
  ℕ, suc, ◌<◌, ◌≤◌, ◌≡◌, refl, sym, ap, ◌∙◌, subst, inl, inr, Bool, not, ◌&&◌, Option, none, some,
  List, [], ◌∷◌, ◌++◌, retain, leb, ◌==◌, Result, ok, err, arith, All, All-append, Bool-cases,
}
use timelakedb.Base.Str.{Str}
use timelakedb.Base.Dict.{Dict, update}
use mathlib.Core.List.{append_assoc, append-nil}
use timelakedb.Wal.Bytes.{le_bytes, from_le_bytes, read_exact}
use timelakedb.Wal.Frame.{WalError, magic, Frame, Aead}
use timelakedb.Wal.Fields.{IsFrame}
use timelakedb.Wal.Replay.{replay_file, peek_magic, replay_plaintext}
use timelakedb.Wal.Torn.{plain_frame, written, replay_plaintext-short}
use timelakedb.Base.Dict.{number_key}
use timelakedb.Base.Ascending.{
  Ascending, All-retain, Ascending-retain, All-update, Ascending-update, sort_by-Ascending,
}
use timelakedb.Wal.Log.{
  Dir, Wal, append, rotate, delete_generations_upto, open_wal, replay_all, start_generation, extend,
}

-- The frames of each generation.
abbrev pub Log : Type 0
Log = Dict ℕ (List Frame)

abbrev pub files : Log → Dir
files [] = []
files ((g, fs) ∷ log) = (g, written fs) ∷ files log

abbrev pub frames : Log → List Frame
frames [] = []
frames ((g, fs) ∷ log) = fs ++ frames log

-- A plain log whose directory holds `log`.
pub record Keeps (w : Wal) (dir : Dir) (log : Log) : Type 0 where
  pub content : dir ≡ files log
  pub ascending : Ascending log
  pub upto : All (λ e. e.0 ≤ w.generation) log
  pub whole : All (λ e. All IsFrame e.1) log
  pub plain : w.enc ≡ none
  pub healthy : w.fail_next ≡ none

pub data Op : Type 0 where
  append_frame : Frame → Op
  rotate_file : Op
  reclaim : ℕ → Op

-- An operation on the log, and what it does to the frames.
unfoldable pub step : Aead → Wal × Dir → Op → Wal × Dir
step aead (w, dir) (append_frame f) = ((append aead f w dir).1, (append aead f w dir).2)
step aead (w, dir) rotate_file = ((rotate none w dir).1, (rotate none w dir).2)
step aead (w, dir) (reclaim upto) = (w, delete_generations_upto upto w dir)

unfoldable pub step_log : ℕ × Log → Op → ℕ × Log
step_log (g, log) (append_frame f) = (g, update g [] (λ fs. fs ++ f ∷ []) log)
step_log (g, log) rotate_file = (suc g, update (suc g) [] (λ fs. fs) log)
step_log (g, log) (reclaim upto) = (g, retain (λ e. not (leb e.0 upto && not (e.0 == g))) log)

written-append :
    (fs : List Frame) (f : Frame) → written (fs ++ f ∷ []) ≡ written fs ++ plain_frame f
written-append [] f = append-nil (plain_frame f)
written-append (g ∷ fs) f =
    ap (◌++◌ (plain_frame g)) (written-append fs f)
    ∙ sym (append_assoc (plain_frame g) (written fs) (plain_frame f))

files-update :
    (g : ℕ) (add : List Frame → List Frame) (bytes : Str) (log : Log)
    → ((fs : List Frame) → written (add fs) ≡ written fs ++ bytes)
    → files (update g [] add log) ≡ extend g bytes (files log)
unfolding update
files-update g add bytes [] h = ap (λ s. (g, s) ∷ []) (h [])
files-update g add bytes ((j, fs) ∷ log) h = elim (Bool-cases (j == g)) [
  | inl e ↦ rw (e, update) (ap (λ s. (j, s) ∷ files log) (h fs))
  | inr e ↦ rw (e, update) (ap (◌∷◌ (j, written fs)) (files-update g add bytes log h))
]

files-retain :
    (keep : ℕ → Bool) (log : Log)
    → files (retain (λ e. keep e.0) log) ≡ retain (λ e. keep e.0) (files log)
files-retain keep [] = refl
files-retain keep ((g, fs) ∷ log) = elim (Bool-cases (keep g)) [
  | inl e ↦ rw e (ap (◌∷◌ (g, written fs)) (files-retain keep log))
  | inr e ↦ rw e (files-retain keep log)
]

files-All : (P : ℕ → Type 0) (log : Log) → All (λ e. P e.0) log → All (λ e. P e.0) (files log)
files-All P [] h = tt
files-All P (e ∷ log) h = (h.0, files-All P log h.1)

files-Ascending : (log : Log) → Ascending log → Ascending (files log)
files-Ascending [] h = tt
files-Ascending (e ∷ log) h = (files-All (λ j. e.0 < j) log h.0, files-Ascending log h.1)

peek_magic-written : (f : Frame) (s : Str) → peek_magic (plain_frame f ++ s) ≡ some magic
unfolding peek_magic read_exact le_bytes from_le_bytes
peek_magic-written f s = refl

peek_magic-nil : peek_magic [] ≡ none
unfolding peek_magic read_exact
peek_magic-nil = refl

-- Whole frames are given back, and their file is left as it is.
pub replay_plaintext-written :
    (fs : List Frame) → All IsFrame fs → replay_plaintext (written fs) ≡ (fs, written fs)
replay_plaintext-written fs w =
    subst (λ s. replay_plaintext s ≡ (fs, s)) (append-nil (written fs))
      (replay_plaintext-short fs [] w (omega arith))

replay_file-written :
    (aead : Aead) (cipher : Option (Str → Result WalError Str)) (fs : List Frame)
    → All IsFrame fs
    → replay_file aead cipher (written fs) ≡ (ok fs, written fs)
unfolding replay_file
replay_file-written aead cipher [] w = rw (peek_magic-nil, replay_file) refl
replay_file-written aead cipher (f ∷ fs) w =
    rw (peek_magic-written f (written fs), replay_file)
      (rw (replay_plaintext-written (f ∷ fs) w) refl)

replay_all-files :
    (aead : Aead) (cipher : Option (Str → Result WalError Str)) (log : Log)
    → All (λ e. All IsFrame e.1) log
    → replay_all aead cipher (files log) ≡ (ok (frames log), files log)
unfolding replay_all
replay_all-files aead cipher [] w = refl
replay_all-files aead cipher ((g, fs) ∷ log) w =
    rw (replay_file-written aead cipher fs w.0, replay_all)
      (rw (replay_all-files aead cipher log w.1) (
        ap (λ s. (ok (fs ++ frames log), (g, s) ∷ files log))
          (ap (λ r. r.1) (replay_file-written aead cipher fs w.0))))

abbrev pub opened : Result WalError (Wal × List Frame) → Result WalError (List Frame)
opened (ok (w, fs)) = ok fs
opened (err e) = err e

-- Opening a log gives back its frames.
open_wal-Keeps :
    (aead : Aead) (w : Wal) (dir : Dir) (log : Log)
    → Keeps w dir log
    → opened (open_wal aead none none dir).0 ≡ ok (frames log)
unfolding open_wal start_generation
open_wal-Keeps aead w dir log k = rw k.content (
    rw (sort_by-Ascending (files log) (files-Ascending log k.ascending), open_wal, opened)
      (rw (replay_all-files aead none log k.whole) refl))

-- The frames that an operation appends can be given back.
abbrev pub IsOp : Op → Type 0
IsOp (append_frame f) = IsFrame f
IsOp rotate_file = Unit
IsOp (reclaim upto) = Unit

All-later : (g : ℕ) (log : Log) → All (λ e. e.0 ≤ g) log → All (λ e. e.0 ≤ suc g) log
All-later g [] h = tt
All-later g (e ∷ log) h = (omega arith, All-later g log h.1)

step-Keeps :
    (aead : Aead) (w : Wal) (dir : Dir) (log : Log) (op : Op)
    → Keeps w dir log
    → IsOp op
    → ((step aead (w, dir) op).0.generation ≡ (step_log (w.generation, log) op).0)
      × Keeps
          (step aead (w, dir) op).0
          (step aead (w, dir) op).1
          (step_log (w.generation, log) op).1
unfolding step step_log append rotate start_generation delete_generations_upto
step-Keeps aead w dir log (append_frame f) k v = rw k.healthy (
    rw k.plain (
      refl,
      record {
        content =
            ap (extend w.generation (plain_frame f)) k.content
            ∙ sym (
                files-update w.generation (λ fs. fs ++ f ∷ []) (plain_frame f) log
                  (λ fs. written-append fs f));
        ascending = Ascending-update w.generation [] (λ fs. fs ++ f ∷ []) log k.ascending k.upto;
        upto =
            All-update (λ e. e.0 ≤ w.generation) w.generation [] (λ fs. fs ++ f ∷ []) log
              (omega arith) (λ j fs q l. l) k.upto;
        whole =
            All-update (λ e. All IsFrame e.1) w.generation [] (λ fs. fs ++ f ∷ []) log (v, tt)
              (λ j fs q l. All-append IsFrame fs (f ∷ []) l (v, tt)) k.whole;
        plain = refl;
        healthy = refl;
      },
    ))
step-Keeps aead w dir log rotate_file k v = (
  refl,
  record {
    content =
        ap (extend (suc w.generation) []) k.content
        ∙ sym (
            files-update (suc w.generation) (λ fs. fs) [] log
              (λ fs. sym (append-nil (written fs))));
    ascending =
        Ascending-update (suc w.generation) [] (λ fs. fs) log k.ascending
          (All-later w.generation log k.upto);
    upto =
        All-update (λ e. e.0 ≤ suc w.generation) (suc w.generation) [] (λ fs. fs) log (omega arith)
          (λ j fs q l. l) (All-later w.generation log k.upto);
    whole =
        All-update (λ e. All IsFrame e.1) (suc w.generation) [] (λ fs. fs) log tt (λ j fs q l. l)
          k.whole;
    plain = refl;
    healthy = k.healthy;
  },
)
step-Keeps aead w dir log (reclaim upto) k v = (
  refl,
  record {
    content =
        ap (delete_generations_upto upto w) k.content
        ∙ sym (files-retain (λ g. not (leb g upto && not (g == w.generation))) log);
    ascending = Ascending-retain _ log k.ascending;
    upto = All-retain _ _ log k.upto;
    whole = All-retain _ _ log k.whole;
    plain = k.plain;
    healthy = k.healthy;
  },
)

unfoldable pub run : Aead → Wal × Dir → List Op → Wal × Dir
run aead s [] = s
run aead s (op ∷ ops) = run aead (step aead s op) ops

unfoldable pub run_log : ℕ × Log → List Op → ℕ × Log
run_log s [] = s
run_log s (op ∷ ops) = run_log (step_log s op) ops

-- After any appends, rotations and reclaims of a plain log, opening it again gives back, in order,
-- exactly the frames that were in the log or were appended, of the generations that are not reclaimed.
pub open_wal-run :
    (aead : Aead) (w : Wal) (dir : Dir) (log : Log) (ops : List Op)
    → Keeps w dir log
    → All IsOp ops
    → opened (open_wal aead none none (run aead (w, dir) ops).1).0
      ≡ ok (frames (run_log (w.generation, log) ops).1)
unfolding run run_log
open_wal-run aead w dir log [] k v = open_wal-Keeps aead w dir log k
open_wal-run aead w dir log (op ∷ ops) k v =
    let next = step-Keeps aead w dir log op k v.0 in
    open_wal-run aead (step aead (w, dir) op).0 (step aead (w, dir) op).1
      (step_log (w.generation, log) op).1 ops next.1 v.1
    ∙ ap (λ g. ok (frames (run_log (g, (step_log (w.generation, log) op).1) ops).1)) next.0
