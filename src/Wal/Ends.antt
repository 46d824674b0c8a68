-- ===== src/Wal/Ends.antt =====
-- The fuel of the replay loop over a plain file of crates/wal/src/lib.rs.
use timelakedb.Base.{
  ℕ, zero, suc, ◌<◌, ◌≤◌, ◌≡◌, ◌≢◌, refl, ap, inl, inr, Option, none, some, ltb, ◌==◌, Result, ok,
  err, ◌>>=◌, ok_or, Option-cases, length, length-append, arith, if_elim,
}
use timelakedb.Base.Str.{Str}
use timelakedb.Wal.Bytes.{read_exact, from_le_bytes, is_utf8, read_exact-split}
use timelakedb.Wal.Frame.{WalError, unexpected_eof, Frame, magic, read_fields, framed, read_frame}
use timelakedb.Wal.Replay.{out_of_fuel, plain_frames}

-- No more is left than there was.
data Leaves {A : Type 0} (n : ℕ) : Result WalError (A × Str) → Type 0 where
  leaves : {a : A} {r : Str} → length r ≤ n → Leaves n (ok (a, r))
  fails : {e : WalError} → Leaves n (err e)

Leaves-read_exact :
    (e : WalError) (k n : ℕ) (s : Str) → length s ≤ n → Leaves n (ok_or e (read_exact k s))
Leaves-read_exact e k n s h = elim (Option-cases (read_exact k s)) [
  | inl q ↦ rw q fails
  | inr (p, q) ↦
      let split = read_exact-split k s p.0 p.1 q in
      rw q (leaves (omega (arith, ap (λ t. length t) split.0, length-append p.0 p.1)))
]

Leaves-bind :
    {A B : Type 0} (n : ℕ) (o : Result WalError (A × Str)) (q : A → Str → Result WalError (B × Str))
    → Leaves n o
    → ((a : A) (s : Str) → length s ≤ n → Leaves n (q a s))
    → Leaves n (o >>= λ x. q x.0 x.1)
Leaves-bind n (ok (a, s)) q (leaves l) k = k a s l
Leaves-bind n (err e) q fails k = fails

Leaves-read_fields :
    (short : WalError) (n : ℕ) (s : Str) → length s ≤ n → Leaves n (read_fields short s)
unfolding read_fields
Leaves-read_fields short n s h = Leaves-bind n _ _ (Leaves-read_exact short 4 n s h) (λ d s l.
    if_elim (Leaves n) (ltb 4096 (from_le_bytes d)) (λ e. fails)
      (λ e. Leaves-bind n _ _ (Leaves-read_exact short (from_le_bytes d) n s l) (λ db s l.
        Leaves-bind n _ _ (Leaves-read_exact short 8 n s l) (λ m s l.
          Leaves-bind n _ _ (Leaves-read_exact short 4 n s l) (λ b s l.
            Leaves-bind n _ _ (Leaves-read_exact short (from_le_bytes b) n s l)
              (λ body s l. if_elim (Leaves n) (is_utf8 db) (λ e. leaves l) (λ e. fails)))))))

-- A frame that is read leaves less.
data Less (n : ℕ) : Result WalError (Option (Frame × Str)) → Type 0 where
  at_end : Less n (ok none)
  less : {f : Frame} {r : Str} → length r < n → Less n (ok (some (f, r)))
  refused : {e : WalError} → Less n (err e)

Less-found :
    (n k : ℕ) (o : Result WalError (Frame × Str))
    → Leaves k o
    → k < n
    → Less n (o >>= λ got. ok (some got))
Less-found n k (ok (f, r)) (leaves l) h = less (omega arith)
Less-found n k (err e) fails h = refused

Less-read_frame : (s : Str) → Less (length s) (read_frame s)
unfolding read_frame framed
Less-read_frame s = elim (Option-cases (read_exact 4 s)) [
  | inl e ↦ rw (e, read_frame) at_end
  | inr (p, e) ↦
      let split = read_exact-split 4 s p.0 p.1 e in
      rw (e, read_frame)
        (if_elim (Less (length s)) (from_le_bytes p.0 == magic)
          (λ q.
            Less-found (length s) (length p.1) (read_fields unexpected_eof p.1)
              (Leaves-read_fields unexpected_eof (length p.1) p.1 (omega arith))
              (omega (arith, ap (λ t. length t) split.0, length-append p.0 p.1, split.1)))
          (λ q. refused))
]

-- The fuel given is enough for every plain file.
pub plain_frames-ne-out_of_fuel :
    (n : ℕ) (s : Str) → length s < n → (plain_frames n s).1 ≢ out_of_fuel
unfolding plain_frames
plain_frames-ne-out_of_fuel zero s h = absurd (omega arith)
plain_frames-ne-out_of_fuel (suc n) s h =
    go (plain_frames-ne-out_of_fuel n) (read_frame s) refl (Less-read_frame s)
  where
    go :
        ((r : Str) → length r < n → (plain_frames n r).1 ≢ out_of_fuel)
        → (o : Result WalError (Option (Frame × Str))) → read_frame s ≡ o
        → Less (length s) o
        → (plain_frames (suc n) s).1 ≢ out_of_fuel
    go rest (ok none) e at_end = rw (e, plain_frames) (λ q. cc q)
    go rest (ok (some (f, r))) e (less l) = rw (e, plain_frames) (rest r (omega arith))
    go rest (err z) e refused = rw (e, plain_frames) (λ q. cc q)
