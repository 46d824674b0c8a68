-- ===== src/Audit/Lines.antt =====
-- A segment of crates/audit/src/lib.rs that holds whole records reads back as they are.
use timelakedb.Base.{
  ◌≡◌, ◌≢◌, refl, sym, ap, false, ◌||◌, List, [], ◌∷◌, ◌++◌, map, ◌==◌, Result, ok, err, ◌>>=◌, any,
  All, arith, Bool-cases, inl, inr,
}
use timelakedb.Base.Str.{Str}
use mathlib.Core.List.{append_assoc, append-nil}
use timelakedb.Audit.Record.{AuditRecord, Formats, Lines, IsReadable}
use timelakedb.Base.Text.{strip_cr, lines_from}
use timelakedb.Audit.Segments.{read_lines, read_segment, read_segments, Segment, AuditError}

-- The lines of records.
abbrev pub encode : Formats → List AuditRecord → Str
encode fmt [] = []
encode fmt (r ∷ records) = fmt.to_json r ++ 10 ∷ encode fmt records

pub encode-append :
    (fmt : Formats) (records : List AuditRecord) (r : AuditRecord)
    → encode fmt (records ++ r ∷ []) ≡ encode fmt records ++ (fmt.to_json r ++ 10 ∷ [])
encode-append fmt [] r = refl
encode-append fmt (q ∷ records) r =
    rw (encode-append fmt records r)
      (sym (append_assoc (fmt.to_json q) (10 ∷ encode fmt records) _))

strip_cr-plain : (s : Str) → any (λ b. b == 10 || b == 13) s ≡ false → strip_cr s ≡ s
unfolding strip_cr
strip_cr-plain [] h = refl
strip_cr-plain (b ∷ []) h = ground arith
strip_cr-plain (b ∷ c ∷ s) h = ap (◌∷◌ b) (strip_cr-plain (c ∷ s) (ground arith))

-- A line feed behind a line without one.
lines_from-line :
    (line t s : Str)
    → any (λ b. b == 10 || b == 13) t ≡ false
    → lines_from line (t ++ 10 ∷ s) ≡ strip_cr (line ++ t) ∷ lines_from [] s
unfolding lines_from
lines_from-line line [] s h = rw (append-nil line) refl
lines_from-line line (b ∷ t) s h = elim (Bool-cases (b == 10)) [
  | inl e ↦ absurd (ground arith)
  | inr e ↦
      rw (e, lines_from-line (line ++ b ∷ []) t s (ground arith), append_assoc line (b ∷ []) t) refl
]

module _ (fmt : Formats) (laws : Lines fmt) where
  lines_from-encode :
      (records : List AuditRecord) → lines_from [] (encode fmt records) ≡ map fmt.to_json records
  unfolding lines_from
  lines_from-encode [] = refl
  lines_from-encode (r ∷ records) =
      rw
        (
          lines_from-line [] (fmt.to_json r) (encode fmt records) (laws.one_line r),
          strip_cr-plain (fmt.to_json r) (laws.one_line r),
          lines_from-encode records,
        )
        refl

  read_lines-encode :
      (records : List AuditRecord)
      → All IsReadable records
      → read_lines fmt (map fmt.to_json records) ≡ ok records
  unfolding read_lines
  read_lines-encode [] h = refl
  read_lines-encode (r ∷ records) h =
      rw (laws.not_blank r, laws.read_back r h.0, read_lines-encode records h.1) refl

  pub read_segment-encode :
      (records : List AuditRecord) (seg : Segment)
      → seg.content ≡ encode fmt records
      → All IsReadable records
      → read_segment fmt seg ≡ ok records
  unfolding read_segment
  read_segment-encode records seg e h =
      rw (e, lines_from-encode records) (read_lines-encode records h)

pub ok_injective : {A : Type 0} (x y : A) → ◌≡◌ {A = Result AuditError A} (ok x) (ok y) → x ≡ y
ok_injective x y h = cc h

pub err_ne_ok : {A : Type 0} (e : AuditError) (x : A) → ◌≢◌ {A = Result AuditError A} (err e) (ok x)
err_ne_ok e x h = cc h

behind :
    (m rest rest' : Result AuditError (List AuditRecord)) (x y : List AuditRecord)
    → (m >>= λ u. rest >>= λ v. ok (u ++ v)) ≡ ok x
    → ((v : List AuditRecord) → rest ≡ ok v → rest' ≡ ok (v ++ y))
    → (m >>= λ u. rest' >>= λ v. ok (u ++ v)) ≡ ok (x ++ y)
behind (err e) rest rest' x y h k = absurd (err_ne_ok e x h)
behind (ok u) (err e) rest' x y h k = absurd (err_ne_ok e x h)
behind (ok u) (ok v) rest' x y h k =
    rw (k v refl, sym (ok_injective (u ++ v) x h)) (ap ok (sym (append_assoc u v y)))

pub read_segments-append :
    (fmt : Formats) (a : List Segment) (s : Segment) (x y : List AuditRecord)
    → read_segments fmt a ≡ ok x
    → read_segment fmt s ≡ ok y
    → read_segments fmt (a ++ s ∷ []) ≡ ok (x ++ y)
unfolding read_segments
read_segments-append fmt [] s x y h k = rw (k, sym (ok_injective [] x h)) (ap ok (append-nil y))
read_segments-append fmt (t ∷ a) s x y h k =
    behind (read_segment fmt t) (read_segments fmt a) (read_segments fmt (a ++ s ∷ [])) x y h
      (λ v e. read_segments-append fmt a s v y e k)
