-- ===== src/Buffer/Even.antt =====
-- The columns of a table buffer of crates/buffer/src/lib.rs while a row is written.
use timelakedb.Base.{
  ℕ, zero, suc, ◌≡◌, refl, ap, ◌∙◌, ◌⊎◌, inl, inr, Bool, true, false, Option, some, List, [], ◌∷◌,
  ◌++◌, ◌||◌, Result, ok, err, Option-cases, any-append, length, length-append, arith,
}
use timelakedb.Base.Str.{Str, str_eq, str_eq_iff}
use timelakedb.Base.Dict.{get, str_key}
use timelakedb.Buffer.Columns.{
  FieldValue, TagCol, empty_tags, pad_tags_to, push_tag, as_i32, resize, FieldCol, f64_col, i64_col,
  u64_col, bool_col, str_col, pad_to, AppendError, push_value,
}
use timelakedb.Buffer.Table.{
  TableBuffer, row_count, Established, put_tag, put_tags, with_col, put_field, put_fields,
}
use timelakedb.Buffer.Each.{Each, insert-Each, named}

abbrev pub col_length : FieldCol → ℕ
col_length (f64_col v) = length v
col_length (i64_col v) = length v
col_length (u64_col v) = length v
col_length (bool_col v) = length v
col_length (str_col v) = length v

-- Every column has a name in the order of columns, and as many entries as there are rows.
pub record IsBuffer (b : TableBuffer) : Type 0 where
  pub tags_even : Each (λ k c. (length c.keys ≡ row_count b) × (named b.tag_names k ≡ true)) b.tags
  pub fields_even :
      Each (λ k c. (col_length c ≡ row_count b) × (named b.field_names k ≡ true)) b.fields

-- A buffer while a row behind `n` rows is written.
pub record Within (n : ℕ) (b : TableBuffer) : Type 0 where
  pub rows : row_count b ≡ n
  pub tags :
      Each
        (λ k c. ((length c.keys ≡ n) ⊎ (length c.keys ≡ suc n)) × (named b.tag_names k ≡ true))
        b.tags
  pub fields : Each (λ k c. named b.field_names k ≡ true) b.fields

length-resize : {A : Type 0} (n : ℕ) (v : List (Option A)) → length (resize n v) ≡ n
length-resize zero v = refl
length-resize (suc n) [] = ap suc (length-resize n [])
length-resize (suc n) (x ∷ v) = ap suc (length-resize n v)

pub col_length-pad_to : (n : ℕ) (c : FieldCol) → col_length (pad_to n c) ≡ n
unfolding pad_to
col_length-pad_to n (f64_col v) = length-resize n v
col_length-pad_to n (i64_col v) = length-resize n v
col_length-pad_to n (u64_col v) = length-resize n v
col_length-pad_to n (bool_col v) = length-resize n v
col_length-pad_to n (str_col v) = length-resize n v

length-push_tag :
    (n : ℕ) (v : Str) (c : TagCol) → length c.keys ≡ n → length (push_tag v c).keys ≡ suc n
unfolding push_tag
length-push_tag n v c h = elim (Option-cases (get v c.intern)) [
  | inl e ↦
      rw (e, push_tag) (omega (arith, length-append c.keys (some (as_i32 (length c.values)) ∷ [])))
  | inr (key, e) ↦ rw (e, push_tag) (omega (arith, length-append c.keys (some key ∷ [])))
]

named-more :
    (names : List Str) (k j : Str) → named names j ≡ true → named (names ++ k ∷ []) j ≡ true
named-more names k j h = any-append (λ n. str_eq n j) names (k ∷ []) ∙ rw h refl

named-last : (names : List Str) (k : Str) → named (names ++ k ∷ []) k ≡ true
named-last names k =
    any-append (λ n. str_eq n k) names (k ∷ [])
    ∙ rw ((str_eq_iff k k).1 refl) (or_true (named names k))
  where
    or_true : (a : Bool) → (a || true) ≡ true
    or_true true = refl
    or_true false = refl

put_tag-Within : (n : ℕ) (k v : Str) (b : TableBuffer) → Within n b → Within n (put_tag n (k, v) b)
unfolding put_tag pad_tags_to
put_tag-Within n k v b w = elim (Option-cases (get k b.tags)) [
  | inr (col, e) ↦
      rw (e, put_tag)
        (record {
          rows = w.rows;
          tags =
              insert-Each _ k _ b.tags
                (
                  inr (length-push_tag n v (pad_tags_to n col) (length-resize n col.keys)),
                  (w.tags k col e).1,
                )
                (λ j d ne q. w.tags j d q);
          fields = w.fields;
        })
  | inl e ↦
      rw (e, put_tag)
        (record {
          rows = w.rows;
          tags =
              insert-Each _ k _ b.tags
                (
                  inr (
                      length-push_tag n v (pad_tags_to n (pad_tags_to n empty_tags))
                        (length-resize n (resize n []))),
                  named-last b.tag_names k,
                )
                (λ j d ne q. ((w.tags j d q).0, named-more b.tag_names k j (w.tags j d q).1));
          fields = w.fields;
        })
]

pub put_tags-Within :
    (n : ℕ) (ts : List (Str × Str)) (b : TableBuffer) → Within n b → Within n (put_tags n ts b)
unfolding put_tags
put_tags-Within n [] b w = w
put_tags-Within n ((k, v) ∷ ts) b w =
    put_tags-Within n ts (put_tag n (k, v) b) (put_tag-Within n k v b w)

with_col-Within :
    (n : ℕ) (est : Established) (k : Str) (v : FieldValue) (b : TableBuffer)
    → Within n b
    → Within n (with_col n est (k, v) b).0
      × (named (with_col n est (k, v) b).0.field_names k ≡ true)
unfolding with_col
with_col-Within n est k v b w = elim (Option-cases (get k b.fields)) [
  | inr (col, e) ↦
      rw (e, with_col)
        (
          record {
            rows = w.rows;
            tags = w.tags;
            fields = insert-Each _ k _ b.fields (w.fields k col e) (λ j d ne q. w.fields j d q);
          },
          w.fields k col e,
        )
  | inl e ↦
      rw (e, with_col)
        (
          record {
            rows = w.rows;
            tags = w.tags;
            fields =
                insert-Each _ k _ b.fields (named-last b.field_names k)
                  (λ j d ne q. named-more b.field_names k j (w.fields j d q));
          },
          named-last b.field_names k,
        )
]

put_field-Within :
    (n : ℕ) (est : Established) (k : Str) (v : FieldValue) (b : TableBuffer)
    → Within n b
    → Within n (put_field n est (k, v) b).1
unfolding put_field
put_field-Within n est k v b w = go (push_value v k (with_col n est (k, v) b).1) refl
  where
    go :
        (o : Result AppendError FieldCol)
        → push_value v k (with_col n est (k, v) b).1 ≡ o
        → Within n (put_field n est (k, v) b).1
    go (err z) e = rw (e, put_field) (with_col-Within n est k v b w).0
    go (ok c) e =
        let made = with_col-Within n est k v b w in
        rw (e, put_field)
          (record {
            rows = made.0.rows;
            tags = made.0.tags;
            fields = insert-Each _ k c _ made.1 (λ j d ne q. made.0.fields j d q);
          })

pub put_fields-Within :
    (n : ℕ) (est : Established) (fs : List (Str × FieldValue)) (b : TableBuffer)
    → Within n b
    → Within n (put_fields n est fs b).1
unfolding put_fields
put_fields-Within n est [] b w = w
put_fields-Within n est ((k, v) ∷ fs) b w =
    let put = put_field-Within n est k v b w in
    go put (put_fields-Within n est fs (put_field n est (k, v) b).1 put)
      (put_field n est (k, v) b).0 refl
  where
    go :
        Within n (put_field n est (k, v) b).1
        → Within n (put_fields n est fs (put_field n est (k, v) b).1).1
        → (o : Result AppendError (Unit {0})) → (put_field n est (k, v) b).0 ≡ o
        → Within n (put_fields n est ((k, v) ∷ fs) b).1
    go put rest (err z) e = rw (e, put_fields) put
    go put rest (ok u) e = rw (e, put_fields) rest
