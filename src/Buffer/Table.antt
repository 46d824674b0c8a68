-- ===== src/Buffer/Table.antt =====
-- `TableBuffer` of crates/buffer/src/lib.rs: the rows of one table in memory, and the append of a line. An
-- append gives the buffer that it leaves behind also where it fails.
use timelakedb.Base.{
  ℕ, Bool, true, false, Option, none, some, List, [], ◌∷◌, ◌++◌, length, ltb, map, if◌then◌else◌,
  Result, ok, err,
}
use timelakedb.Base.Int.{ℤ}
use timelakedb.Base.Str.{Str, str}
use timelakedb.Base.Dict.{Dict, get, insert, str_key}
use timelakedb.Buffer.Columns.{
  FieldValue, TagCol, empty_tags, pad_tags_to, push_tag, FieldCol, f64_col, i64_col, u64_col,
  bool_col, str_col, new_col, pad_to, accepts, AppendError, type_conflict, panicked, push_value,
  DataType, float64, int64, uint64, boolean_type, utf8, dictionary, int32, timestamp,
  col_for_datatype,
}

-- `ParsedLine` (crates/ingest/src/lib.rs).
pub record ParsedLine : Type 0 where
  pub table : Str
  pub tags : List (Str × Str)
  pub fields : List (Str × FieldValue)
  pub timestamp_ns : ℤ

-- An instant is a number of seconds.
pub record TableBuffer : Type 0 where
  pub times : List ℤ
  pub tag_names : List Str
  pub tags : Dict Str TagCol
  pub field_names : List Str
  pub fields : Dict Str FieldCol
  pub first_write : Option ℕ

abbrev pub row_count : TableBuffer → ℕ
row_count b = length b.times

-- The types that columns were established with.
abbrev pub Established : Type 0
Established = Option (Dict Str DataType)

-- The column made for a name that has none: of the established type, or else of the value's.
unfoldable pub fresh_col : Established → Str → FieldValue → FieldCol
fresh_col none k v = new_col v
fresh_col (some types) k v = elim (get k types) [
  | none ↦ new_col v
  | some t ↦ elim (col_for_datatype t) [ none ↦ new_col v | some c ↦ c ]
]

-- Each field of a line checked against its column, or against the one that the line is about to make.
unfoldable pub validate :
    Established
    → Dict Str FieldCol
    → Dict Str FieldCol
    → List (Str × FieldValue)
    → Result AppendError (Unit {0})
validate est fields pending [] = ok tt
validate est fields pending ((k, v) ∷ rest) =
    let same = validate est fields pending rest in
    elim (get k fields) [
      | some col ↦ if accepts col v then same else err (type_conflict k v)
      | none ↦ elim (get k pending) [
        | some col ↦ if accepts col v then same else err (type_conflict k v)
        | none ↦
            let col = fresh_col est k v in
            let grown = validate est fields (insert k col pending) rest in
            if accepts col v then grown else err (type_conflict k v)
      ]
    ]

-- One tag of the row behind `n` rows.
unfoldable pub put_tag : ℕ → Str × Str → TableBuffer → TableBuffer
put_tag n (k, v) b = elim (get k b.tags) [
  | some col ↦ record b { tags = insert k (push_tag v (pad_tags_to n col)) b.tags }
  | none ↦ record b {
    tag_names = b.tag_names ++ k ∷ [];
    tags = insert k (push_tag v (pad_tags_to n (pad_tags_to n empty_tags))) b.tags;
  }
]

unfoldable pub put_tags : ℕ → List (Str × Str) → TableBuffer → TableBuffer
put_tags n [] b = b
put_tags n (t ∷ ts) b = put_tags n ts (put_tag n t b)

-- The buffer in which a name has a column.
unfoldable pub with_col : ℕ → Established → Str × FieldValue → TableBuffer → TableBuffer × FieldCol
with_col n est (k, v) b = elim (get k b.fields) [
  | some col ↦ (record b { fields = insert k (pad_to n col) b.fields }, pad_to n col)
  | none ↦
      let col = pad_to n (pad_to n (fresh_col est k v)) in
      (record b { field_names = b.field_names ++ k ∷ []; fields = insert k col b.fields }, col)
]

unfoldable pub put_field :
    ℕ → Established → Str × FieldValue → TableBuffer → Result AppendError (Unit {0}) × TableBuffer
put_field n est (k, v) b =
    let (b', col) = with_col n est (k, v) b in
    elim (push_value v k col) [
      | err e ↦ (err e, b')
      | ok pushed ↦ (ok tt, record b' { fields = insert k pushed b'.fields })
    ]

unfoldable pub put_fields :
    ℕ
    → Established
    → List (Str × FieldValue)
    → TableBuffer
    → Result AppendError (Unit {0}) × TableBuffer
put_fields n est [] b = (ok tt, b)
put_fields n est (f ∷ fs) b =
    let (done, b') = put_field n est f b in
    let rest = put_fields n est fs b' in elim done [ err e ↦ (err e, b') | ok _ ↦ rest ]

unfoldable pub pad_tag : ℕ → TagCol → TagCol
pad_tag n c = if ltb (length c.keys) n then record c { keys = c.keys ++ none ∷ [] } else c

-- Each named column filled up; nothing where a name has no column.
unfoldable pub pad_named : {C : Type 0} → (C → C) → List Str → Dict Str C → Option (Dict Str C)
pad_named pad [] cols = some cols
pad_named pad (k ∷ names) cols = elim (get k cols) [
  | none ↦ none
  | some c ↦ pad_named pad names (insert k (pad c) cols)
]

-- The row's time, and the columns that the row does not mention.
unfoldable pub end_row : ℤ → TableBuffer → Result AppendError (Unit {0}) × TableBuffer
end_row time b =
    let times = b.times ++ time ∷ [] in
    let n = length times in
    elim (pad_named (pad_tag n) b.tag_names b.tags) [
      | none ↦ (err panicked, record b { times = times })
      | some tags ↦ elim (pad_named (pad_to n) b.field_names b.fields) [
        | none ↦ (err panicked, record b { times = times; tags = tags })
        | some fields ↦ (ok tt, record b { times = times; tags = tags; fields = fields })
      ]
    ]

abbrev pub begin_write : ℕ → TableBuffer → TableBuffer
begin_write now b = elim b.first_write [ none ↦ record b { first_write = some now } | some t ↦ b ]

unfoldable pub append :
    ℕ → ParsedLine → Established → TableBuffer → Result AppendError (Unit {0}) × TableBuffer
append now line est b = elim (validate est b.fields [] line.fields) [
  | err e ↦ (err e, b)
  | ok _ ↦
      let n = row_count b in
      let (done, b') = put_fields n est line.fields (put_tags n line.tags (begin_write now b)) in
      elim done [ err e ↦ (err e, b') | ok _ ↦ end_row line.timestamp_ns b' ]
]

-- The columns' names and types, in the schema's order; `time` is first.
unfoldable pub column_type : FieldCol → DataType
column_type (f64_col _) = float64
column_type (i64_col _) = int64
column_type (u64_col _) = uint64
column_type (bool_col _) = boolean_type
column_type (str_col _) = utf8

-- A column of the schema: its name, its type and whether it can be null.
pub record Field : Type 0 where
  pub name : Str
  pub data_type : DataType
  pub nullable : Bool

abbrev tag_field : Str → Field
tag_field name = record { name = name; data_type = dictionary int32 utf8; nullable = true }

-- Nothing where a name has no column.
unfoldable pub field_schema : List Str → Dict Str FieldCol → Option (List Field)
field_schema [] cols = some []
field_schema (k ∷ names) cols = elim (get k cols) [
  | none ↦ none
  | some c ↦ elim (field_schema names cols) [
    | none ↦ none
    | some rest ↦ some (record { name = k; data_type = column_type c; nullable = true } ∷ rest)
  ]
]

unfoldable pub schema_only : TableBuffer → Option (List Field)
schema_only b = elim (field_schema b.field_names b.fields) [
  | none ↦ none
  | some fields ↦ some (
      record { name = str "time"; data_type = timestamp; nullable = false }
      ∷ (map tag_field b.tag_names ++ fields))
]
