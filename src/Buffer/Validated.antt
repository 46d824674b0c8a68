-- ===== src/Buffer/Validated.antt =====
-- The validation of a line in crates/buffer/src/lib.rs, and the writes that follow it.
use timelakedb.Base.{
  ℕ, ◌≡◌, refl, sym, ap, ◌∙◌, ◌⊎◌, inl, inr, Bool, true, false, Option, none, some, List, [], ◌∷◌,
  if◌then◌else◌, Result, ok, err, Option-cases, Bool-cases,
}
use timelakedb.Base.Str.{Str, str_eq, str_eq_iff}
use timelakedb.Base.Dict.{Dict, get, insert, str_key, get-insert}
use timelakedb.Buffer.Columns.{
  FieldValue, float, int, uint, boolean, text, FieldCol, f64_col, i64_col, u64_col, bool_col,
  str_col, pad_to, accepts, AppendError, type_conflict, push_value,
}
use timelakedb.Buffer.Table.{
  TableBuffer, Established, fresh_col, validate, with_col, put_field, put_fields,
}

-- A column without its values: its type.
abbrev pub blank : FieldCol → FieldCol
blank (f64_col _) = f64_col []
blank (i64_col _) = i64_col []
blank (u64_col _) = u64_col []
blank (bool_col _) = bool_col []
blank (str_col _) = str_col []

abbrev pub blanked : Option FieldCol → Option FieldCol
blanked none = none
blanked (some c) = some (blank c)

accepts-blank : (c : FieldCol) (v : FieldValue) → accepts (blank c) v ≡ accepts c v
unfolding accepts
accepts-blank (f64_col _) v = refl
accepts-blank (i64_col _) v = refl
accepts-blank (u64_col _) v = refl
accepts-blank (bool_col _) v = refl
accepts-blank (str_col _) v = refl

blank-pad_to : (n : ℕ) (c : FieldCol) → blank (pad_to n c) ≡ blank c
unfolding pad_to
blank-pad_to n (f64_col _) = refl
blank-pad_to n (i64_col _) = refl
blank-pad_to n (u64_col _) = refl
blank-pad_to n (bool_col _) = refl
blank-pad_to n (str_col _) = refl

-- A column takes a value that it accepts, and keeps its type.
push_value-accepted :
    (c : FieldCol) (v : FieldValue) (k : Str)
    → accepts c v ≡ true
    → (d : FieldCol) × (push_value v k c ≡ ok d) × (blank d ≡ blank c)
unfolding accepts push_value
push_value-accepted (f64_col l) (float x) k h = (_, refl, refl)
push_value-accepted (f64_col l) (int x) k h = (_, refl, refl)
push_value-accepted (f64_col l) (uint x) k h = (_, refl, refl)
push_value-accepted (f64_col l) (boolean x) k h = absurd (cc h)
push_value-accepted (f64_col l) (text x) k h = absurd (cc h)
push_value-accepted (i64_col l) (float x) k h = absurd (cc h)
push_value-accepted (i64_col l) (int x) k h = (_, refl, refl)
push_value-accepted (i64_col l) (uint x) k h = absurd (cc h)
push_value-accepted (i64_col l) (boolean x) k h = absurd (cc h)
push_value-accepted (i64_col l) (text x) k h = absurd (cc h)
push_value-accepted (u64_col l) (float x) k h = absurd (cc h)
push_value-accepted (u64_col l) (int x) k h = absurd (cc h)
push_value-accepted (u64_col l) (uint x) k h = (_, refl, refl)
push_value-accepted (u64_col l) (boolean x) k h = absurd (cc h)
push_value-accepted (u64_col l) (text x) k h = absurd (cc h)
push_value-accepted (bool_col l) (float x) k h = absurd (cc h)
push_value-accepted (bool_col l) (int x) k h = absurd (cc h)
push_value-accepted (bool_col l) (uint x) k h = absurd (cc h)
push_value-accepted (bool_col l) (boolean x) k h = (_, refl, refl)
push_value-accepted (bool_col l) (text x) k h = absurd (cc h)
push_value-accepted (str_col l) (float x) k h = absurd (cc h)
push_value-accepted (str_col l) (int x) k h = absurd (cc h)
push_value-accepted (str_col l) (uint x) k h = absurd (cc h)
push_value-accepted (str_col l) (boolean x) k h = absurd (cc h)
push_value-accepted (str_col l) (text x) k h = (_, refl, refl)

-- The column that a value goes to.
column : Established → Option FieldCol → Str → FieldValue → FieldCol
column est none k v = fresh_col est k v
column est (some c) k v = c

accepts-same : (c d : FieldCol) (v : FieldValue) → blank c ≡ blank d → accepts c v ≡ accepts d v
accepts-same c d v h = sym (accepts-blank c v) ∙ ap (λ e. accepts e v) h ∙ accepts-blank d v

with_col-column :
    (n : ℕ) (est : Established) (k : Str) (v : FieldValue) (b : TableBuffer)
    → (blank (with_col n est (k, v) b).1 ≡ blank (column est (get k b.fields) k v))
      × ((with_col n est (k, v) b).0.fields ≡ insert k (with_col n est (k, v) b).1 b.fields)
unfolding with_col column
with_col-column n est k v b = elim (Option-cases (get k b.fields)) [
  | inl e ↦
      rw (e, with_col)
        (blank-pad_to n (pad_to n (fresh_col est k v)) ∙ blank-pad_to n (fresh_col est k v), refl)
  | inr (c, e) ↦ rw (e, with_col) (blank-pad_to n c, refl)
]

-- A field that its column accepts is put, and the column keeps its type.
put_field-accepted :
    (n : ℕ) (est : Established) (k : Str) (v : FieldValue) (b : TableBuffer)
    → accepts (column est (get k b.fields) k v) v ≡ true
    → ((put_field n est (k, v) b).0 ≡ ok tt)
      × ((j : Str)
          → blanked (get j (put_field n est (k, v) b).1.fields) ≡ (
              if str_eq k j
              then some (blank (column est (get k b.fields) k v))
              else blanked (get j b.fields)))
unfolding put_field
put_field-accepted n est k v b h =
    let made = with_col-column n est k v b in
    let (d, push, same) =
      push_value-accepted (with_col n est (k, v) b).1 v k (accepts-same _ _ v made.0 ∙ h) in
    rw (push, put_field)
      (
        refl,
        λ j.
            ap blanked (get-insert k j d (with_col n est (k, v) b).0.fields)
            ∙ others d j made.1 (same ∙ made.0),
      )
  where
    others :
        (d : FieldCol) (j : Str)
        → (with_col n est (k, v) b).0.fields ≡ insert k (with_col n est (k, v) b).1 b.fields
        → blank d ≡ blank (column est (get k b.fields) k v)
        → blanked (if str_eq k j then some d else get j (with_col n est (k, v) b).0.fields) ≡ (
            if str_eq k j
            then some (blank (column est (get k b.fields) k v))
            else blanked (get j b.fields))
    others d j into same = elim (Bool-cases (str_eq k j)) [
      | inl e ↦ rw e (ap some same)
      | inr e ↦ rw e (
          ap blanked
            (ap (get j) into ∙ get-insert k j (with_col n est (k, v) b).1 b.fields ∙ rw e refl))
    ]

-- The type that a name has for the validation: of its column, or of the one that is pending.
unfoldable pub seen : Dict Str FieldCol → Dict Str FieldCol → Str → Option FieldCol
seen fields pending k = elim (get k fields) [
  | some c ↦ some (blank c)
  | none ↦ blanked (get k pending)
]

-- What a validated field leaves to validate.
record Validated (est : Established) (fields pending : Dict Str FieldCol) (k : Str) (v : FieldValue)
    (rest : List (Str × FieldValue)) : Type 0 where
  col : FieldCol
  accepted : accepts col v ≡ true
  found :
      seen fields pending k ≡ some (blank col)
      ⊎ ((seen fields pending k ≡ none) × (col ≡ fresh_col est k v))
  later : Dict Str FieldCol
  grown :
      (j : Str)
      → seen fields later j ≡ (if str_eq k j then some (blank col) else seen fields pending j)
  valid : validate est fields later rest ≡ ok tt

if_accepted :
    (b : Bool) (r : Result AppendError (Unit {0})) (e : AppendError)
    → (if b then r else err e) ≡ ok tt
    → (b ≡ true) × (r ≡ ok tt)
if_accepted true r e h = (refl, h)
if_accepted false r e h = absurd (cc h)

validate-Validated :
    (est : Established) (fields pending : Dict Str FieldCol) (k : Str) (v : FieldValue)
    (rest : List (Str × FieldValue))
    → validate est fields pending ((k, v) ∷ rest) ≡ ok tt
    → Validated est fields pending k v rest
unfolding validate seen
validate-Validated est fields pending k v rest h = elim (Option-cases (get k fields)) [
  | inr (c, e) ↦
      let (taken, on) =
        if_accepted (accepts c v) (validate est fields pending rest) (type_conflict k v)
          (rw (e, validate) at h) in
      let have : seen fields pending k ≡ some (blank c) = rw (e, seen) refl in
      record {
        col = c;
        accepted = taken;
        found = inl have;
        later = pending;
        grown = same pending c have;
        valid = on;
      }
  | inl e ↦ elim (Option-cases (get k pending)) [
    | inr (c, q) ↦
        let (taken, on) =
          if_accepted (accepts c v) (validate est fields pending rest) (type_conflict k v)
            (rw (q, validate) at (rw (e, validate) at h)) in
        let have : seen fields pending k ≡ some (blank c) = rw (e, seen) (rw q refl) in
        record {
          col = c;
          accepted = taken;
          found = inl have;
          later = pending;
          grown = same pending c have;
          valid = on;
        }
    | inl q ↦
        let (taken, on) =
          if_accepted (accepts (fresh_col est k v) v)
            (validate est fields (insert k (fresh_col est k v) pending) rest) (type_conflict k v)
            (rw (q, validate) at (rw (e, validate) at h)) in
        let have : seen fields pending k ≡ none = rw (e, seen) (rw q refl) in
        record {
          col = fresh_col est k v;
          accepted = taken;
          found = inr (have, refl);
          later = insert k (fresh_col est k v) pending;
          grown = grow (fresh_col est k v) e;
          valid = on;
        }
  ]
]
  where
    same :
        (pending : Dict Str FieldCol) (c : FieldCol)
        → seen fields pending k ≡ some (blank c)
        → (j : Str)
        → seen fields pending j ≡ (if str_eq k j then some (blank c) else seen fields pending j)
    same pending c have j = elim (Bool-cases (str_eq k j)) [
      | inl e ↦ rw e (ap (seen fields pending) (sym ((str_eq_iff k j).0 e)) ∙ have)
      | inr e ↦ rw e refl
    ]

    grow :
        (c : FieldCol)
        → get k fields ≡ none
        → (j : Str)
        → seen fields (insert k c pending) j
          ≡ (if str_eq k j then some (blank c) else seen fields pending j)
    grow c e j = elim (Bool-cases (str_eq k j)) [
      | inl p ↦
          let gone : get j fields ≡ none =
            ap (λ i. get i fields) (sym ((str_eq_iff k j).0 p)) ∙ e in
          rw p (rw (gone, seen) (ap blanked (get-insert k j c pending) ∙ rw p refl))
      | inr p ↦ rw p (elim (Option-cases (get j fields)) [
        | inl q ↦ rw (q, seen) (ap blanked (get-insert k j c pending) ∙ rw p refl)
        | inr (d, q) ↦ rw (q, seen) refl
      ])
    ]

-- The column that a validated field goes to has the type it was validated against.
column-Validated :
    {est : Established} {fields pending : Dict Str FieldCol} {k : Str} {v : FieldValue}
    {rest : List (Str × FieldValue)} (w : Validated est fields pending k v rest)
    (o : Option FieldCol)
    → blanked o ≡ seen fields pending k
    → blank (column est o k v) ≡ blank w.col
unfolding column
column-Validated w none h = elim w.found [
  | inl q ↦ absurd (cc (h ∙ q))
  | inr q ↦ ap blank (sym q.1)
]
column-Validated w (some c) h = elim w.found [ inl q ↦ cc (h ∙ q) | inr q ↦ absurd (cc (h ∙ q.0)) ]

pub put_fields-validated :
    (n : ℕ) (est : Established) (fields pending : Dict Str FieldCol) (fs : List (Str × FieldValue))
    (b : TableBuffer)
    → ((j : Str) → blanked (get j b.fields) ≡ seen fields pending j)
    → validate est fields pending fs ≡ ok tt
    → (put_fields n est fs b).0 ≡ ok tt
unfolding put_fields
put_fields-validated n est fields pending [] b agree h = refl
put_fields-validated n est fields pending ((k, v) ∷ fs) b agree h =
    let w = validate-Validated est fields pending k v fs h in
    let col = column-Validated w (get k b.fields) (agree k) in
    let put = put_field-accepted n est k v b (accepts-same _ _ v col ∙ w.accepted) in
    let after : (j : Str)
        → blanked (get j (put_field n est (k, v) b).1.fields) ≡ seen fields w.later j =
      λ j. put.1 j ∙ ap2 j (ap some col) (agree j) ∙ sym (w.grown j) in
    rw (put.0, put_fields)
      (put_fields-validated n est fields w.later fs (put_field n est (k, v) b).1 after w.valid)
  where
    ap2 :
        (j : Str) {x y : Option FieldCol} {a c : Option FieldCol}
        → x ≡ y
        → a ≡ c
        → (if str_eq k j then x else a) ≡ (if str_eq k j then y else c)
    ap2 j p q = elim (Bool-cases (str_eq k j)) [ inl e ↦ rw e p | inr e ↦ rw e q ]
