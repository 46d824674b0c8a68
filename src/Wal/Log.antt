-- ===== src/Wal/Log.antt =====
-- `Wal` of crates/wal/src/lib.rs. The directory is the generations' files, by their numbers; a file's
-- name is its number. The append handle of a generation is that number. Reads and writes of the disk
-- succeed, but for the error that `fail_next_append` puts in. What a cipher generates is an argument.
use timelakedb.Base.{
  ℕ, suc, ◌+◌, ◌%◌, ◌^◌, not, ◌&&◌, Option, none, some, List, [], ◌∷◌, ◌++◌, leb, ◌==◌, Result, ok,
  err, ◌>>=◌, length, retain,
}
use timelakedb.Base.Str.{Str}
use timelakedb.Base.Sort.{sort_by}
use timelakedb.Base.Dict.{number_key, Dict, update, insert}
use timelakedb.Base.Ascending.{by_number}
use timelakedb.Wal.Bytes.{le_bytes, u32}
use timelakedb.Wal.Frame.{WalError, magic, Frame, Aead, encode_frame_body, seal}
use timelakedb.Wal.Replay.{wmagic, wal_version, replay_file}

abbrev pub Dir : Type 0
Dir = Dict ℕ Str

-- The object store's key, as the log uses it: `unwrap`, and the outcome of the next `generate`, a
-- wrapped key and the key.
pub record WalCipher : Type 0 where
  pub unwrap : Str → Result WalError Str
  pub generated : Result WalError (Str × Str)

pub record Wal : Type 0 where
  pub generation : ℕ
  pub enc : Option (Str × ℕ)
  pub fail_next : Option WalError

-- The generations in the order of their numbers.
abbrev pub list_generations : Dir → Dir
list_generations dir = sort_by by_number dir

-- Every file replayed in turn, up to one that is refused.
unfoldable pub replay_all :
    Aead → Option (Str → Result WalError Str) → Dir → Result WalError (List Frame) × Dir
replay_all aead cipher [] = (ok [], [])
replay_all aead cipher ((g, file) ∷ dir) =
    let more = replay_all aead cipher dir in
    let (got, after) = replay_file aead cipher file in
    elim got [
      | err e ↦ (err e, (g, after) ∷ dir)
      | ok frames ↦ (more.0 >>= λ rest. ok (frames ++ rest), (g, after) ∷ more.1)
    ]

abbrev pub last_generation : Dir → Option ℕ
last_generation [] = none
last_generation ((g, file) ∷ []) = some g
last_generation (e ∷ f ∷ dir) = last_generation (f ∷ dir)

unfoldable pub enc_header : Str → Str
enc_header wrapped =
    le_bytes 4 wmagic ++ wal_version ∷ [] ++ le_bytes 2 (length wrapped % 2 ^ 16) ++ wrapped

-- Bytes written at the end of a generation's file, which is created if it is absent.
abbrev pub extend : ℕ → Str → Dir → Dir
extend g bytes dir = update g [] (λ file. file ++ bytes) dir

-- A fresh generation to append to.
unfoldable pub start_generation : ℕ → Option WalCipher → Dir → Result WalError Wal × Dir
start_generation g none dir =
    (ok (record { generation = g; enc = none; fail_next = none }), extend g [] dir)
start_generation g (some c) dir = elim c.generated [
  | err e ↦ (err e, dir)
  | ok (wrapped, dek) ↦ (
    ok (record { generation = g; enc = some (dek, 0); fail_next = none }),
    extend g (enc_header wrapped) dir,
  )
]

-- The M1 layout's `wal.log` becomes generation 0.
abbrev pub migrate : Option Str → Dir → Dir
migrate none dir = dir
migrate (some file) dir = insert 0 file dir

abbrev pub next_generation : Option WalCipher → Option ℕ → ℕ
next_generation c none = 0
next_generation none (some g) = g
next_generation (some c) (some g) = suc g

abbrev pub unwrap_of : Option WalCipher → Option (Str → Result WalError Str)
unwrap_of none = none
unwrap_of (some c) = some c.unwrap

unfoldable pub open_wal :
    Aead → Option WalCipher → Option Str → Dir → Result WalError (Wal × List Frame) × Dir
open_wal aead cipher legacy dir =
    let gens = list_generations (migrate legacy dir) in
    let (got, after) = replay_all aead (unwrap_of cipher) gens in
    elim got [
      | err e ↦ (err e, after)
      | ok frames ↦
          let (started, dir') =
            start_generation (next_generation cipher (last_generation gens)) cipher after in
          (started >>= λ wal. ok (wal, frames), dir')
    ]

unfoldable pub fail_next_append : WalError → Wal → Wal
fail_next_append e w = record w { fail_next = some e }

unfoldable pub append : Aead → Frame → Wal → Dir → Result WalError (Unit {0}) × Wal × Dir
append aead f w dir = elim w.fail_next [
  | some e ↦ (err e, record w { fail_next = none }, dir)
  | none ↦ elim w.enc [
    | none ↦ (ok tt, w, extend w.generation (le_bytes 4 magic ++ encode_frame_body f) dir)
    | some (dek, seq) ↦ elim (seal aead dek seq (encode_frame_body f)) [
      | err e ↦ (err e, w, dir)
      | ok ct ↦ (
        ok tt,
        record w { enc = some (dek, suc seq) },
        extend w.generation (le_bytes 4 (u32 (length ct)) ++ ct) dir,
      )
    ]
  ]
]

-- The sealed generation. The number goes up before the cipher is asked for the next file's key.
unfoldable pub rotate : Option WalCipher → Wal → Dir → Result WalError ℕ × Wal × Dir
rotate cipher w dir =
    let next = suc w.generation in
    let (started, dir') = start_generation next cipher dir in
    elim started [
      | err e ↦ (err e, record w { generation = next }, dir')
      | ok w' ↦ (ok w.generation, record w { generation = next; enc = w'.enc }, dir')
    ]

unfoldable pub delete_generations_upto : ℕ → Wal → Dir → Dir
delete_generations_upto upto w dir =
    retain (λ e. not (leb e.0 upto && not (e.0 == w.generation))) dir

unfoldable pub size : Dir → ℕ
size [] = 0
size ((g, file) ∷ dir) = length file + size dir
