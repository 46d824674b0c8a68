-- ===== src/Wal/Local.antt =====
-- Readers that give the same result when more input follows what they read, as those of
-- crates/wal/src/lib.rs do.
use timelakedb.Base.{
  ℕ, ◌≡◌, refl, ap, ◌∙◌, inl, inr, Bool, true, false, Option, none, some, ◌++◌, ltb, ◌==◌,
  Bool-cases, ◌≢◌, ◌≤◌, arith, length, if_elim, if◌then◌else◌, Result, ok, err, ◌>>=◌, ok_or,
  Option-cases,
}
use timelakedb.Base.Str.{Str}
use timelakedb.Wal.Bytes.{read_exact, from_le_bytes, is_utf8, read_exact-more, none-read_exact}
use timelakedb.Wal.Frame.{WalError, Frame, magic, unexpected_eof, read_fields, framed, read_frame}

abbrev pub IsLocal : {A : Type 0} → (Str → Result WalError (A × Str)) → Type 0
IsLocal {A} p = (s t : Str) (a : A) (r : Str) → p s ≡ ok (a, r) → p (s ++ t) ≡ ok (a, r ++ t)

read_exact-IsLocal : (e : WalError) (n : ℕ) → IsLocal (λ s. ok_or e (read_exact n s))
read_exact-IsLocal e n s t a r h = elim (Option-cases (read_exact n s)) [
  | inl q ↦ absurd (cc (rw q at h))
  | inr (p, q) ↦
      let back = rw q at h in
      let pair : ◌≡◌ {A = Str × Str} p (a, r) = cc back in
      rw (read_exact-more n s t a r (q ∙ ap some pair)) refl
]

bind-IsLocal :
    {A B : Type 0} (p : Str → Result WalError (A × Str)) (q : A → Str → Result WalError (B × Str))
    → IsLocal p
    → ((a : A) → IsLocal (q a))
    → IsLocal (λ s. p s >>= λ x. q x.0 x.1)
bind-IsLocal {A} {B} p q l k s t b r h = go (p s) refl h
  where
    go :
        (o : Result WalError (A × Str))
        → p s ≡ o
        → (o >>= λ x. q x.0 x.1) ≡ ok (b, r)
        → (p (s ++ t) >>= λ x. q x.0 x.1) ≡ ok (b, r ++ t)
    go (ok (a, s')) e g = rw (l s t a s' e) (k a s' t b r g)
    go (err z) e g = absurd (cc g)

if-IsLocal :
    {A : Type 0} (b : Bool) (p q : Str → Result WalError (A × Str))
    → IsLocal p
    → IsLocal q
    → IsLocal (λ s. if b then p s else q s)
if-IsLocal true p q l k = l
if-IsLocal false p q l k = k

err-IsLocal : {A : Type 0} (e : WalError) → IsLocal {A = A} (λ s. err e)
err-IsLocal e s t a r h = absurd (cc h)

ok-IsLocal : {A : Type 0} (a : A) → IsLocal {A = A} (λ s. ok (a, s))
ok-IsLocal {A} a s t b r h =
    let pair : ◌≡◌ {A = A × Str} (a, s) (b, r) = cc h in ap (λ q. ok (q.0, q.1 ++ t)) pair

pub read_fields-IsLocal : (short : WalError) → IsLocal (read_fields short)
unfolding read_fields
read_fields-IsLocal short = bind-IsLocal _ _ (read_exact-IsLocal short 4) (λ d.
    if-IsLocal (ltb 4096 (from_le_bytes d)) _ _ (err-IsLocal _) (
      bind-IsLocal _ _ (read_exact-IsLocal short (from_le_bytes d)) (λ db.
        bind-IsLocal _ _ (read_exact-IsLocal short 8) (λ m.
          bind-IsLocal _ _ (read_exact-IsLocal short 4) (λ b.
            bind-IsLocal _ _ (read_exact-IsLocal short (from_le_bytes b))
              (λ body. if-IsLocal (is_utf8 db) _ _ (ok-IsLocal _) (err-IsLocal _)))))))

abbrev found : Frame × Str → Result WalError (Option (Frame × Str))
found got = ok (some got)

framed-more :
    (hdr s t : Str) (f : Frame) (r : Str)
    → framed hdr s ≡ ok (some (f, r))
    → framed hdr (s ++ t) ≡ ok (some (f, r ++ t))
unfolding framed
framed-more hdr s t f r h = elim (Bool-cases (from_le_bytes hdr == magic)) [
  | inl e ↦ rw (e, framed) (go (read_fields unexpected_eof s) refl (rw (e, framed) at h))
  | inr e ↦ absurd (cc (rw (e, framed) at h))
]
  where
    go :
        (o : Result WalError (Frame × Str))
        → read_fields unexpected_eof s ≡ o
        → (o >>= found) ≡ ok (some (f, r))
        → (read_fields unexpected_eof (s ++ t) >>= found) ≡ ok (some (f, r ++ t))
    go (ok p) e g =
        let pair : ◌≡◌ {A = Frame × Str} p (f, r) = cc g in
        rw (read_fields-IsLocal unexpected_eof s t f r (e ∙ ap ok pair)) refl
    go (err z) e g = absurd (cc g)

framed-ne-none : (hdr s : Str) → framed hdr s ≢ ok none
unfolding framed
framed-ne-none hdr s =
    if_elim (λ r. r ≢ ok none) (from_le_bytes hdr == magic) (λ e. go (read_fields unexpected_eof s))
      (λ e. λ q. cc q)
  where
    go : (o : Result WalError (Frame × Str)) → (o >>= found) ≢ ok none
    go (ok p) q = cc q
    go (err z) q = cc q

pub read_frame-more :
    (s t : Str) (f : Frame) (r : Str)
    → read_frame s ≡ ok (some (f, r))
    → read_frame (s ++ t) ≡ ok (some (f, r ++ t))
unfolding read_frame
read_frame-more s t f r h = elim (Option-cases (read_exact 4 s)) [
  | inl e ↦ absurd (cc (rw (e, read_frame) at h))
  | inr (p, e) ↦
      rw (read_exact-more 4 s t p.0 p.1 e, read_frame)
        (framed-more p.0 p.1 t f r (rw (e, read_frame) at h))
]

pub read_frame-ne-none : (s : Str) → 4 ≤ length s → read_frame s ≢ ok none
unfolding read_frame
read_frame-ne-none s h = λ q. elim (Option-cases (read_exact 4 s)) [
  | inl e ↦ absurd (omega (arith, none-read_exact 4 s e))
  | inr (p, e) ↦ framed-ne-none p.0 p.1 (rw (e, read_frame) at q)
]
