-- ===== src/Audit/Pruning.antt =====
-- What the retention of crates/audit/src/lib.rs may delete.
use timelakedb.Base.{
  ℕ, ◌+◌, ◌*◌, ◌^◌, ◌≤◌, ◌<◌, ◌≡◌, refl, inl, inr, Bool, true, not, some, List, [], ◌∷◌, arith,
  retain, Has, here, there, Option-cases, if_elim, max,
}
use timelakedb.Audit.Segments.{Segment, Dir}
use timelakedb.Audit.Sink.{Policy, outlived, prune}

Has-retain :
    {A : Type 0} (p : A → Bool) (a : A) (l : List A) → p a ≡ true → Has l a → Has (retain p l) a
Has-retain p a [] h i = elim i [ ]
Has-retain p a (x ∷ l) h (here e) = rw (e, h) (here refl)
Has-retain p a (x ∷ l) h (there i) =
    if_elim (λ m. Has m a) (p x) (λ e. there (Has-retain p a l h i)) (λ e. Has-retain p a l h i)

not-outlived :
    (now d : ℕ) (seg : Segment)
    → d * 86400 < 2 ^ 64
    → now ≤ seg.modified + 90 * 86400 * 1000000000
    → not (outlived now (max d 90) seg) ≡ true
not-outlived now d seg h k = ground arith

-- Retention never deletes a rotated segment that was written to within the last 90 days, however few days
-- are configured, nor the live segment, if the configured days in seconds fit 64 bits.
pub prune-recent :
    (policy : Policy) (now : ℕ) (dir : Dir) (e : ℕ × Segment)
    → ((d : ℕ) → policy.retain_days ≡ some d → d * 86400 < 2 ^ 64)
    → Has dir.rotated e
    → now ≤ e.1.modified + 90 * 86400 * 1000000000
    → Has (prune policy now dir).rotated e × ((prune policy now dir).live ≡ dir.live)
unfolding prune
prune-recent policy now dir e h i k = elim (Option-cases policy.retain_days) [
  | inl n ↦ rw n (i, refl)
  | inr (d, s) ↦ rw s (Has-retain _ e dir.rotated (not-outlived now d e.1 (h d s) k) i, refl)
]
