-- ===== src/Buffer/Columns.antt =====
-- The columns of crates/buffer/src/lib.rs: interned tags, and fields whose type the first value fixes.
use timelakedb.Base.{
  ℕ, zero, suc, ◌-◌, ◌%◌, ◌^◌, Bool, true, false, Option, none, some, List, [], ◌∷◌, ◌++◌, length,
  ltb, if◌then◌else◌, Result, ok, err,
}
use timelakedb.Base.Int.{ℤ, pos, negsuc}
use timelakedb.Base.Str.{Str}
use timelakedb.Base.Dict.{Dict, get, insert, str_key}

-- An `f64`: its bits as they were parsed, or the conversion that it comes from. No code here computes
-- with it.
pub data F64 : Type 0 where
  bits : ℕ → F64
  from_i64 : ℤ → F64
  from_u64 : ℕ → F64

-- A parsed field's value (crates/ingest/src/lib.rs).
pub data FieldValue : Type 0 where
  float : F64 → FieldValue
  int : ℤ → FieldValue
  uint : ℕ → FieldValue
  boolean : Bool → FieldValue
  text : Str → FieldValue

-- `Vec::resize(n, None)`: cut off or filled up.
abbrev pub resize : {A : Type 0} → ℕ → List (Option A) → List (Option A)
resize zero v = []
resize (suc n) [] = none ∷ resize n []
resize (suc n) (x ∷ v) = x ∷ resize n v

pub record TagCol : Type 0 where
  pub intern : Dict Str ℤ
  pub values : List Str
  pub keys : List (Option ℤ)

abbrev pub empty_tags : TagCol
empty_tags = record { intern = []; values = []; keys = [] }

-- `n as i32`
abbrev pub as_i32 : ℕ → ℤ
as_i32 n = let m = n % 2 ^ 32 in if ltb m (2 ^ 31) then pos m else negsuc (2 ^ 32 - 1 - m)

unfoldable pub pad_tags_to : ℕ → TagCol → TagCol
pad_tags_to n c = record c { keys = resize n c.keys }

unfoldable pub push_tag : Str → TagCol → TagCol
push_tag v c = elim (get v c.intern) [
  | some key ↦ record c { keys = c.keys ++ some key ∷ [] }
  | none ↦
      let next = as_i32 (length c.values) in
      record {
        intern = insert v next c.intern;
        values = c.values ++ v ∷ [];
        keys = c.keys ++ some next ∷ [];
      }
]

pub data FieldCol : Type 0 where
  f64_col : List (Option F64) → FieldCol
  i64_col : List (Option ℤ) → FieldCol
  u64_col : List (Option ℕ) → FieldCol
  bool_col : List (Option Bool) → FieldCol
  str_col : List (Option Str) → FieldCol

-- `FieldCol::new`
unfoldable pub new_col : FieldValue → FieldCol
new_col (float _) = f64_col []
new_col (int _) = i64_col []
new_col (uint _) = u64_col []
new_col (boolean _) = bool_col []
new_col (text _) = str_col []

unfoldable pub pad_to : ℕ → FieldCol → FieldCol
pad_to n (f64_col v) = f64_col (resize n v)
pad_to n (i64_col v) = i64_col (resize n v)
pad_to n (u64_col v) = u64_col (resize n v)
pad_to n (bool_col v) = bool_col (resize n v)
pad_to n (str_col v) = str_col (resize n v)

unfoldable pub accepts : FieldCol → FieldValue → Bool
accepts (f64_col _) (float _) = true
accepts (f64_col _) (int _) = true
accepts (f64_col _) (uint _) = true
accepts (i64_col _) (int _) = true
accepts (u64_col _) (uint _) = true
accepts (bool_col _) (boolean _) = true
accepts (str_col _) (text _) = true
accepts _ _ = false

-- A value of another type than the column's, or a column that the code takes for granted and is not
-- there.
pub data AppendError : Type 0 where
  type_conflict : Str → FieldValue → AppendError
  panicked : AppendError

unfoldable pub push_value : FieldValue → Str → FieldCol → Result AppendError FieldCol
push_value (float x) col (f64_col c) = ok (f64_col (c ++ some x ∷ []))
push_value (int x) col (f64_col c) = ok (f64_col (c ++ some (from_i64 x) ∷ []))
push_value (uint x) col (f64_col c) = ok (f64_col (c ++ some (from_u64 x) ∷ []))
push_value (int x) col (i64_col c) = ok (i64_col (c ++ some x ∷ []))
push_value (uint x) col (u64_col c) = ok (u64_col (c ++ some x ∷ []))
push_value (boolean x) col (bool_col c) = ok (bool_col (c ++ some x ∷ []))
push_value (text x) col (str_col c) = ok (str_col (c ++ some x ∷ []))
push_value v col c = err (type_conflict col v)

-- The Arrow types that matter here.
pub data DataType : Type 0 where
  float64 int64 uint64 boolean_type utf8 large_utf8 int32 timestamp : DataType
  dictionary : DataType → DataType → DataType

unfoldable pub col_for_datatype : DataType → Option FieldCol
col_for_datatype float64 = some (f64_col [])
col_for_datatype int64 = some (i64_col [])
col_for_datatype uint64 = some (u64_col [])
col_for_datatype boolean_type = some (bool_col [])
col_for_datatype utf8 = some (str_col [])
col_for_datatype large_utf8 = some (str_col [])
col_for_datatype (dictionary _ utf8) = some (str_col [])
col_for_datatype (dictionary _ large_utf8) = some (str_col [])
col_for_datatype _ = none
