-- ===== src/Buffer/Tests.antt =====
-- The buffer's theorems at a concrete buffer, and runs of its append.
use timelakedb.Base.{◌≡◌, suc, refl, none, [], ◌∷◌}
use timelakedb.Base.Int.{pos}
use timelakedb.Base.Str.{str, str_eq}
use timelakedb.Base.Dict
use timelakedb.Buffer.Columns.{
  int, text, accepts, new_col, push_value, push_tag, pad_tags_to, pad_to,
}
use timelakedb.Buffer.Table.{
  ParsedLine, TableBuffer, row_count, validate, fresh_col, append, put_tags, put_tag, put_fields,
  put_field, with_col, end_row, pad_named, pad_tag,
}
use timelakedb.Buffer.Even.{IsBuffer}
use timelakedb.Buffer.Rows.{append-IsBuffer}
use timelakedb.Buffer.Atomic.{append-refused}

abbrev nothing : TableBuffer
nothing = record {
  times = [];
  tag_names = [];
  tags = [];
  field_names = [];
  fields = [];
  first_write = none;
}

abbrev first : ParsedLine
first = record {
  table = str "m";
  tags = (str "host", str "a") ∷ [];
  fields = (str "load", int (pos 1)) ∷ [];
  timestamp_ns = pos 100;
}

-- Its field is of another type.
abbrev second : ParsedLine
second = record {
  table = str "m";
  tags = (str "host", str "b") ∷ (str "rack", str "r1") ∷ [];
  fields = (str "load", text (str "high")) ∷ [];
  timestamp_ns = pos 200;
}

abbrev one_row : TableBuffer
one_row = (append 0 first none nothing).1

append-refused_example : (append 1 second none one_row).1 ≡ one_row
unfolding append validate fresh_col put_tags put_tag put_fields put_field with_col end_row pad_named
    pad_tag accepts new_col push_value push_tag pad_tags_to pad_to Dict.get Dict.insert str_eq
append-refused_example = append-refused 1 second none one_row (str "load") (text (str "high")) refl

nothing-IsBuffer : IsBuffer nothing
unfolding Dict.get
nothing-IsBuffer = record {
  tags_even = λ k c h. absurd (cc h);
  fields_even = λ k c h. absurd (cc h);
}

append-IsBuffer_example :
    IsBuffer (append 0 first none nothing).1
    × (row_count (append 0 first none nothing).1 ≡ suc (row_count nothing))
unfolding append validate fresh_col put_tags put_tag put_fields put_field with_col end_row pad_named
    pad_tag accepts new_col push_value push_tag pad_tags_to pad_to Dict.get Dict.insert str_eq
append-IsBuffer_example = append-IsBuffer 0 first none nothing nothing-IsBuffer refl
