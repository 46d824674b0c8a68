-- ===== src/Audit/Tamper.antt =====
-- What `verify_records` of crates/audit/src/lib.rs finds out: two trails that verify and end with the
-- same hash are the same, but for a collision of SHA-256.
use timelakedb.Base.{
  ℕ, suc, ◌%◌, ◌≡◌, ◌≢◌, refl, sym, ◌∙◌, ap, ◌⊎◌, inl, inr, Option, none, some, List, [], ◌∷◌, ◌++◌,
  ok, drop, get_elem?, arith, All, Bool-cases, Option-cases,
}
use timelakedb.Base.Str.{Str, str, str_eq, str_eq_iff}
use timelakedb.Audit.Record.{
  AuditRecord, HashInput, Formats, IsReadable, NotNull, genesis, hex, hex_digit, hashed_bytes,
  compute_hash, check_link, expected_seq, prev_mismatch, edited, off_sequence, verify_from,
  verify_records,
}
use timelakedb.Audit.Chain.{
  last_hash, verify_from_cons, verify_from_broken, result_cases, err_not_ok,
}

-- Two byte strings with one digest.
abbrev pub Collision : Formats → Type 0
Collision fmt = (a : Str) × (b : Str) × (a ≢ b) × (hex (fmt.sha256 a) ≡ hex (fmt.sha256 b))

-- The text of a hash input ends where its object ends, and tells its fields.
abbrev pub SelfDelimiting : Formats → Type 0
SelfDelimiting fmt =
    (a b : HashInput) (s t : Str)
    → NotNull a.before × NotNull a.after
    → NotNull b.before × NotNull b.after
    → fmt.input_json a ++ s ≡ fmt.input_json b ++ t
    → a ≡ b

-- The newest record first.
abbrev newest_hash : List AuditRecord → Str
newest_hash [] = genesis
newest_hash (r ∷ older) = r.hash

abbrev Linked : Formats → List AuditRecord → Type 0
Linked fmt [] = Unit
Linked fmt (r ∷ older) =
    (r.input.prev_hash ≡ newest_hash older) × (compute_hash fmt r.input ≡ r.hash) × Linked fmt older

abbrev onto : List AuditRecord → List AuditRecord → List AuditRecord
onto [] older = older
onto (r ∷ records) older = onto records (r ∷ older)

onto_twice : (a b : List AuditRecord) → onto (onto a b) [] ≡ onto b a
onto_twice [] b = refl
onto_twice (r ∷ a) b = onto_twice a (r ∷ b)

All-onto :
    (a b : List AuditRecord) → All IsReadable a → All IsReadable b → All IsReadable (onto a b)
All-onto [] b h k = k
All-onto (r ∷ a) b h k = All-onto a (r ∷ b) h.1 (h.0, k)

newest_hash-onto : (a b : List AuditRecord) → newest_hash (onto a b) ≡ last_hash (newest_hash b) a
newest_hash-onto [] b = refl
newest_hash-onto (r ∷ a) b = newest_hash-onto a (r ∷ b)

check_link-links :
    (fmt : Formats) (prev : Str) (want : Option ℕ) (r : AuditRecord)
    → check_link fmt prev want r ≡ ok tt
    → (r.input.prev_hash ≡ prev) × (compute_hash fmt r.input ≡ r.hash)
unfolding check_link
check_link-links fmt prev want r h = elim (Option-cases (off_sequence want r.input.seq)) [
  | inr (w, e) ↦ absurd (
      err_not_ok (record { seq = r.input.seq; reason = expected_seq w })
        (sym (rw (check_link, e) refl) ∙ h))
  | inl e ↦ elim (Bool-cases (str_eq r.input.prev_hash prev)) [
    | inr f ↦ absurd (
        err_not_ok (record { seq = r.input.seq; reason = prev_mismatch })
          (sym (rw (check_link, e, f) refl) ∙ h))
    | inl f ↦ elim (Bool-cases (str_eq (compute_hash fmt r.input) r.hash)) [
      | inr g ↦ absurd (
          err_not_ok (record { seq = r.input.seq; reason = edited })
            (sym (rw (check_link, e, f, g) refl) ∙ h))
      | inl g ↦ (
        (str_eq_iff r.input.prev_hash prev).0 f,
        (str_eq_iff (compute_hash fmt r.input) r.hash).0 g,
      )
    ]
  ]
]

Linked-onto :
    (fmt : Formats) (want : Option ℕ) (records older : List AuditRecord)
    → Linked fmt older
    → verify_from fmt (newest_hash older) want records ≡ ok tt
    → Linked fmt (onto records older)
Linked-onto fmt want [] older l h = l
Linked-onto fmt want (r ∷ records) older l h =
    elim (result_cases (check_link fmt (newest_hash older) want r)) [
      | inl (b, e) ↦
          absurd
            (err_not_ok b (sym (verify_from_broken fmt (newest_hash older) want r records b e) ∙ h))
      | inr e ↦
          let links = check_link-links fmt (newest_hash older) want r e in
          Linked-onto fmt (some (suc r.input.seq)) records (r ∷ older) (links.0, links.1, l)
            (sym (verify_from_cons fmt (newest_hash older) want r records e) ∙ h)
    ]

-- A hash is not the genesis, whose sixth letter is no digit.
hex-ne-genesis : (s : Str) → hex s ≢ str "genesis"
unfolding hex
hex-ne-genesis [] h = absurd (cc h)
hex-ne-genesis (a ∷ []) h = absurd (cc (ap (λ l. get_elem? l 2) h))
hex-ne-genesis (a ∷ b ∷ []) h = absurd (cc (ap (λ l. get_elem? l 4) h))
hex-ne-genesis (a ∷ b ∷ c ∷ s) h =
    let sixth : hex_digit (c % 16) ≡ 105 = cc (ap (λ l. get_elem? l 5) h) in ground arith

hashed-ne-genesis : (fmt : Formats) (i : HashInput) → compute_hash fmt i ≢ genesis
unfolding compute_hash
hashed-ne-genesis fmt i h = hex-ne-genesis (fmt.sha256 (hashed_bytes fmt i)) (ap (λ l. drop 7 l) h)

same_digest :
    (fmt : Formats) (i j : HashInput)
    → compute_hash fmt i ≡ compute_hash fmt j
    → hex (fmt.sha256 (hashed_bytes fmt i)) ≡ hex (fmt.sha256 (hashed_bytes fmt j))
unfolding compute_hash
same_digest fmt i j h = ap (λ l. drop 7 l) h

same_record : (a b : AuditRecord) → a.input ≡ b.input → a.hash ≡ b.hash → a ≡ b
same_record a b h k = cc (h, k)

module _ (fmt : Formats) (law : SelfDelimiting fmt) where
  same-Linked :
      (a b : List AuditRecord)
      → Linked fmt a
      → Linked fmt b
      → All IsReadable a
      → All IsReadable b
      → newest_hash a ≡ newest_hash b
      → (a ≡ b) ⊎ Collision fmt
  same-Linked [] [] k l h i e = inl refl
  same-Linked [] (r ∷ b) k l h i e = absurd (hashed-ne-genesis fmt r.input (l.1 ∙ sym e))
  same-Linked (r ∷ a) [] k l h i e = absurd (hashed-ne-genesis fmt r.input (k.1 ∙ e))
  same-Linked (r ∷ a) (q ∷ b) k l h i e =
      let digests = same_digest fmt r.input q.input (k.1 ∙ e ∙ sym l.1) in
      elim (Bool-cases (str_eq (hashed_bytes fmt r.input) (hashed_bytes fmt q.input))) [
        | inr f ↦ inr (
          hashed_bytes fmt r.input,
          hashed_bytes fmt q.input,
          λ g.
              ground
                (arith, (str_eq_iff (hashed_bytes fmt r.input) (hashed_bytes fmt q.input)).1 g),
          digests,
        )
        | inl f ↦
            let inputs : r.input ≡ q.input =
              law r.input q.input r.input.prev_hash q.input.prev_hash h.0 i.0
                ((str_eq_iff (hashed_bytes fmt r.input) (hashed_bytes fmt q.input)).0 f) in
            elim (same-Linked a b k.2 l.2 h.1 i.1 (sym k.0 ∙ ap (λ j. j.prev_hash) inputs ∙ l.0)) [
              | inr c ↦ inr c
              | inl g ↦ inl (cc (same_record r q inputs e, g))
            ]
      ]

  chain :
      (records : List AuditRecord)
      → verify_records fmt records ≡ ok tt
      → Linked fmt (onto records [])
  unfolding verify_records
  chain records v = Linked-onto fmt none records [] tt v

-- Two lists of records without a JSON null that verify and end with the same hash are equal, or
-- show a collision of SHA-256, if the text of what is hashed tells its fields and where it ends:
-- whoever knows the last hash sees that a record was edited, dropped, added or moved.
pub verify_records-same_head :
    (fmt : Formats) (a b : List AuditRecord)
    → SelfDelimiting fmt
    → All IsReadable a
    → All IsReadable b
    → verify_records fmt a ≡ ok tt
    → verify_records fmt b ≡ ok tt
    → last_hash genesis a ≡ last_hash genesis b
    → (a ≡ b) ⊎ Collision fmt
verify_records-same_head fmt a b law h i v w e =
    elim (same-Linked fmt law (onto a []) (onto b []) (chain fmt law a v) (chain fmt law b w)
      (All-onto a [] h tt) (All-onto b [] i tt)
      (newest_hash-onto a [] ∙ e ∙ sym (newest_hash-onto b []))) [
        | inr c ↦ inr c
        | inl g ↦ inl (sym (onto_twice a []) ∙ ap (λ l. onto l []) g ∙ onto_twice b [])
      ]
