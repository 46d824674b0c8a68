-- ===== src/Ingest/Scan.antt =====
-- How the parser of crates/ingest/src/lib.rs reads names. The position is the input that is left.
use timelakedb.Base.{ℕ, Bool, ◌||◌, ◌&&◌, List, [], ◌∷◌, any, ◌==◌, if◌then◌else◌, Result, ok, err}
use timelakedb.Base.Str.{Str, str, str_eq}
use timelakedb.Wal.Bytes.{is_utf8}

pub data ParseProblem : Type 0 where
  empty_measurement no_field_set invalid_utf8 unterminated_string empty_value bad_integer
        bad_uinteger bad_float :
      ParseProblem
  bad_timestamp timestamp_overflow out_of_fuel : ParseProblem
  tag_without_value field_without_value reserved_tag reserved_field : Str → ParseProblem

abbrev pub escapable : ℕ → Bool
escapable n = n == 44 || (n == 32 || (n == 61 || n == 92))

abbrev pub stops_at : List ℕ → ℕ → Bool
stops_at stops b = any (λ c. c == b) stops || b == 32

-- The bytes up to a stop or a space, without their escapes, and what is left.
unfoldable pub take_bytes : List ℕ → Str → Str × Str
take_bytes stops [] = ([], [])
take_bytes stops (b ∷ []) = if stops_at stops b then ([], b ∷ []) else (b ∷ [], [])
take_bytes stops (b ∷ n ∷ s) =
    let (escaped, behind) = take_bytes stops s in
    let (plain, rest) = take_bytes stops (n ∷ s) in
    if b == 92 && escapable n
    then (n ∷ escaped, behind)
    else if stops_at stops b
    then ([], b ∷ n ∷ s)
    else (b ∷ plain, rest)

unfoldable pub take_escaped : List ℕ → Str → Result ParseProblem (Str × Str)
unfolding take_bytes
take_escaped stops s =
    let (buf, rest) = take_bytes stops s in if is_utf8 buf then ok (buf, rest) else err invalid_utf8

-- The byte `b`, which has to come.
abbrev pub expect : ℕ → ParseProblem → Str → Result ParseProblem Str
expect b e [] = err e
expect b e (c ∷ s) = if c == b then ok s else err e

abbrev pub reserved_key : Str
reserved_key = str "time"

unfoldable pub reject_reserved_key : ParseProblem → Str → Result ParseProblem (Unit {0})
reject_reserved_key e key = if str_eq key reserved_key then err e else ok tt
