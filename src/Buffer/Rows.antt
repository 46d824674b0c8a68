-- ===== src/Buffer/Rows.antt =====
-- The lengths of the columns after an append of crates/buffer/src/lib.rs.
use timelakedb.Base.{
  ℕ, suc, ◌≡◌, refl, ap, ◌∙◌, ◌⊎◌, inl, inr, Bool, true, false, none, some, List, [], ◌∷◌, ◌++◌,
  ◌||◌, Result, ok, err, Option-cases, length, length-append, arith, lt→ltb, le→ltb,
}
use timelakedb.Base.Int.{ℤ}
use timelakedb.Base.Str.{Str}
use timelakedb.Base.Dict.{Dict, get, insert, str_key}
use timelakedb.Buffer.Columns.{TagCol, pad_to, AppendError}
use timelakedb.Buffer.Table.{
  ParsedLine, TableBuffer, row_count, Established, validate, put_tags, put_fields, pad_tag,
  pad_named, end_row, begin_write, append,
}
use timelakedb.Buffer.Each.{Each, insert-Each, pad_named-Each, named, some-same}
use timelakedb.Buffer.Even.{
  col_length, IsBuffer, Within, col_length-pad_to, put_tags-Within, put_fields-Within,
}

pad_tag-even :
    (n : ℕ) (c : TagCol)
    → (length c.keys ≡ n) ⊎ (length c.keys ≡ suc n)
    → length (pad_tag (suc n) c).keys ≡ suc n
unfolding pad_tag
pad_tag-even n c (inl e) =
    rw (lt→ltb (length c.keys) (suc n) (omega arith), pad_tag)
      (omega (arith, length-append c.keys (none ∷ [])))
pad_tag-even n c (inr e) = rw (le→ltb (length c.keys) (suc n) (omega arith), pad_tag) e

-- A name stays in the names through the padding.
pad_named-named :
    {C : Type 0} (pad : C → C) (all names : List Str) (cols after : Dict Str C)
    → Each (λ k c. named all k ≡ true) cols
    → pad_named pad names cols ≡ some after
    → Each (λ k c. named all k ≡ true) after
unfolding pad_named
pad_named-named pad all [] cols after w h k c g = w k c (ap (get k) (some-same cols after h) ∙ g)
pad_named-named {C} pad all (n ∷ names) cols after w h k d g = elim (Option-cases (get n cols)) [
  | inl e ↦ absurd (cc (rw (e, pad_named) at h))
  | inr (c, e) ↦
      pad_named-named pad all names (insert n (pad c) cols) after
        (insert-Each (λ k d. named all k ≡ true) n (pad c) cols (w n c e) (λ j d ne q. w j d q))
        (rw (e, pad_named) at h) k d g
]

or_left : (a : Bool) → a ≡ true → (a || false) ≡ true
or_left a h = ground arith

end_row-IsBuffer :
    (n : ℕ) (time : ℤ) (b : TableBuffer)
    → Within n b
    → (end_row time b).0 ≡ ok tt
    → IsBuffer (end_row time b).1 × (row_count (end_row time b).1 ≡ suc n)
unfolding end_row
end_row-IsBuffer n time b w h =
    let m = length (b.times ++ time ∷ []) in
    let rows : m ≡ suc n = omega (arith, length-append b.times (time ∷ []), w.rows) in
    elim (Option-cases (pad_named (pad_tag m) b.tag_names b.tags)) [
      | inl e ↦ absurd (cc (rw (e, end_row) at h))
      | inr (tags, e) ↦ elim (Option-cases (pad_named (pad_to m) b.field_names b.fields)) [
        | inl q ↦ absurd (cc (rw (q, end_row) at (rw (e, end_row) at h)))
        | inr (fields, q) ↦
            rw (e, end_row)
              (rw (q, end_row)
                (
                  record {
                    tags_even = λ k c g.
                        let name =
                          pad_named-named (pad_tag m) b.tag_names b.tag_names b.tags tags
                            (λ k c g. (w.tags k c g).1) e k c g in
                        (
                          pad_named-Each (pad_tag m) (λ c. length c.keys ≡ m)
                              (λ c. (length c.keys ≡ n) ⊎ (length c.keys ≡ suc n)) [] b.tag_names
                              b.tags tags (λ c l. rw rows (pad_tag-even n c l))
                              (λ c l. inr (l ∙ rows))
                              (λ k c g. ((w.tags k c g).0, λ no. absurd (cc no))) e k c g
                              (or_left (named b.tag_names k) name),
                          name,
                        );
                    fields_even = λ k c g.
                        let name =
                          pad_named-named (pad_to m) b.field_names b.field_names b.fields fields
                            w.fields q k c g in
                        (
                          pad_named-Each (pad_to m) (λ c. col_length c ≡ m) (λ c. Unit) []
                              b.field_names b.fields fields (λ c l. col_length-pad_to m c)
                              (λ c l. tt) (λ k c g. (tt, λ no. absurd (cc no))) q k c g
                              (or_left (named b.field_names k) name),
                          name,
                        );
                  },
                  rows,
                ))
      ]
    ]

begin_write-Within :
    (now : ℕ) (b : TableBuffer) → IsBuffer b → Within (row_count b) (begin_write now b)
begin_write-Within now b w = elim (Option-cases b.first_write) [
  | inl e ↦ rw e (record {
    rows = refl;
    tags = λ k c g. (inl (w.tags_even k c g).0, (w.tags_even k c g).1);
    fields = λ k c g. (w.fields_even k c g).1;
  })
  | inr (t, e) ↦ rw e (record {
    rows = refl;
    tags = λ k c g. (inl (w.tags_even k c g).0, (w.tags_even k c g).1);
    fields = λ k c g. (w.fields_even k c g).1;
  })
]

-- An append that succeeds adds one row, and leaves every tag and field column with one entry for each row
-- and a place in the order of the columns, if they had that before.
pub append-IsBuffer :
    (now : ℕ) (line : ParsedLine) (est : Established) (b : TableBuffer)
    → IsBuffer b
    → (append now line est b).0 ≡ ok tt
    → IsBuffer (append now line est b).1 × (row_count (append now line est b).1 ≡ suc (row_count b))
unfolding append
append-IsBuffer now line est b w h = go (validate est b.fields [] line.fields) refl
  where
    put :
        (o : Result AppendError (Unit {0})) (u : Unit {0})
        → validate est b.fields [] line.fields ≡ ok u
        → (put_fields
            (row_count b)
            est
            line.fields
            (put_tags (row_count b) line.tags (begin_write now b))).0
          ≡ o
        → IsBuffer (append now line est b).1
          × (row_count (append now line est b).1 ≡ suc (row_count b))
    put (err z) u e q = absurd (cc (rw (q, append) at (rw (e, append) at h)))
    put (ok x) u e q =
        let n = row_count b in
        let ready = put_tags n line.tags (begin_write now b) in
        let within =
          put_fields-Within n est line.fields ready
            (put_tags-Within n line.tags (begin_write now b) (begin_write-Within now b w)) in
        rw (e, append)
          (rw (q, append)
            (end_row-IsBuffer n line.timestamp_ns (put_fields n est line.fields ready).1 within
              (rw (q, append) at (rw (e, append) at h))))

    go :
        (o : Result AppendError (Unit {0}))
        → validate est b.fields [] line.fields ≡ o
        → IsBuffer (append now line est b).1
          × (row_count (append now line est b).1 ≡ suc (row_count b))
    go (err z) e = absurd (cc (rw (e, append) at h))
    go (ok u) e = put _ u e refl
