-- ===== src/Buffer/Atomic.antt =====
-- The buffer that an append of crates/buffer/src/lib.rs leaves behind where a line is refused.
use timelakedb.Base.{
  ℕ, ◌≡◌, ◌≢◌, length, refl, sym, ap, ◌∙◌, inl, inr, none, List, [], ◌∷◌, ◌++◌, Result, ok, err,
  Option-cases,
}
use timelakedb.Base.Int.{ℤ}
use timelakedb.Base.Str.{Str}
use timelakedb.Base.Dict.{Dict, get, str_key}
use timelakedb.Buffer.Columns.{FieldValue, FieldCol, pad_to, AppendError, type_conflict}
use timelakedb.Buffer.Table.{
  ParsedLine, TableBuffer, row_count, Established, validate, put_tag, put_tags, put_fields, pad_tag,
  pad_named, end_row, begin_write, append,
}
use timelakedb.Buffer.Validated.{blanked, seen, put_fields-validated}

put_tags-fields :
    (n : ℕ) (ts : List (Str × Str)) (b : TableBuffer) → (put_tags n ts b).fields ≡ b.fields
unfolding put_tags put_tag
put_tags-fields n [] b = refl
put_tags-fields n ((k, v) ∷ ts) b = put_tags-fields n ts (put_tag n (k, v) b) ∙ put_tag-fields
  where
    put_tag-fields : (put_tag n (k, v) b).fields ≡ b.fields
    put_tag-fields = elim (Option-cases (get k b.tags)) [
      | inl e ↦ rw (e, put_tag) refl
      | inr (c, e) ↦ rw (e, put_tag) refl
    ]

begin_write-fields : (now : ℕ) (b : TableBuffer) → (begin_write now b).fields ≡ b.fields
begin_write-fields now b = elim (Option-cases b.first_write) [
  | inl e ↦ rw e refl
  | inr (t, e) ↦ rw e refl
]

get-nil : (j : Str) → get {V = FieldCol} j [] ≡ none
unfolding get
get-nil j = refl

seen-none : (fields : Dict Str FieldCol) (j : Str) → blanked (get j fields) ≡ seen fields [] j
unfolding seen
seen-none fields j = elim (Option-cases (get j fields)) [
  | inl e ↦ rw (e, seen) (ap blanked (sym (get-nil j)))
  | inr (c, e) ↦ rw (e, seen) refl
]

end_row-ne-type_conflict :
    (time : ℤ) (b : TableBuffer) (k : Str) (v : FieldValue)
    → (end_row time b).0 ≢ err (type_conflict k v)
unfolding end_row
end_row-ne-type_conflict time b k v =
    let n = length (b.times ++ time ∷ []) in
    elim (Option-cases (pad_named (pad_tag n) b.tag_names b.tags)) [
      | inl e ↦ rw (e, end_row) (λ q. cc q)
      | inr (tags, e) ↦ elim (Option-cases (pad_named (pad_to n) b.field_names b.fields)) [
        | inl q ↦ rw (e, end_row) (rw (q, end_row) (λ p. cc p))
        | inr (fields, q) ↦ rw (e, end_row) (rw (q, end_row) (λ p. cc p))
      ]
    ]

-- A line that is refused for a type leaves the buffer exactly as it was.
pub append-refused :
    (now : ℕ) (line : ParsedLine) (est : Established) (b : TableBuffer) (k : Str) (v : FieldValue)
    → (append now line est b).0 ≡ err (type_conflict k v)
    → (append now line est b).1 ≡ b
unfolding append
append-refused now line est b k v h = go (validate est b.fields [] line.fields) refl
  where
    go :
        (o : Result AppendError (Unit {0}))
        → validate est b.fields [] line.fields ≡ o
        → (append now line est b).1 ≡ b
    go (err z) e = rw (e, append) refl
    go (ok u) e =
        let n = row_count b in
        let ready = put_tags n line.tags (begin_write now b) in
        let agree : (j : Str) → blanked (get j ready.fields) ≡ seen b.fields [] j = λ j.
          ap (λ m. blanked (get j m))
            (put_tags-fields n line.tags (begin_write now b) ∙ begin_write-fields now b)
          ∙ seen-none b.fields j in
        let put = put_fields-validated n est b.fields [] line.fields ready agree e in
        absurd (
          end_row-ne-type_conflict line.timestamp_ns (put_fields n est line.fields ready).1 k v
            (rw (put, append) at (rw (e, append) at h)))
