-- ===== src/Ingest/Printed/Names.antt =====
-- `take_escaped` reads back the names that `escape_into` of crates/ingest/src/lib.rs writes.
use timelakedb.Base.{
  ℕ, ◌≡◌, ◌≢◌, refl, ◌∙◌, ap, Bool, true, false, ◌||◌, ◌&&◌, List, [], ◌∷◌, ◌++◌, ◌==◌, Bool-cases,
  inl, inr, Result, ok, arith,
}
use timelakedb.Base.Str.{Str}
use timelakedb.Wal.Bytes.{is_utf8}
use timelakedb.Ingest.Scan.{ParseProblem, escapable, stops_at, take_bytes, take_escaped}
use timelakedb.Ingest.Print.{escape_into}

-- A backslash stands only before a byte that has no escape.
abbrev pub Plain : Str → Type 0
Plain [] = Unit
Plain (b ∷ []) = b ≢ 92
Plain (b ∷ n ∷ s) = (b ≡ 92 → escapable n ≡ false) × Plain (n ∷ s)

-- The text begins with a byte that ends a name.
abbrev pub Stopped : List ℕ → Str → Type 0
Stopped stops [] = ⊥
Stopped stops (c ∷ s) = (stops_at stops c ≡ true) × ((c == 92) ≡ false)

abbrev escaped : Bool → ℕ → Bool
escaped escape_equals c = c == 44 || (c == 32 || (escape_equals && c == 61))

-- What ends a name is escaped in it.
abbrev pub Covers : Bool → List ℕ → Type 0
Covers escape_equals stops = (b : ℕ) → stops_at stops b ≡ true → escaped escape_equals b ≡ true

abbrev opens_escape : ℕ → Str → Bool
opens_escape b [] = false
opens_escape b (n ∷ s) = b == 92 && escapable n

take_bytes-kept :
    (stops : List ℕ) (b : ℕ) (s : Str)
    → stops_at stops b ≡ false
    → opens_escape b s ≡ false
    → take_bytes stops (b ∷ s) ≡ (b ∷ (take_bytes stops s).0, (take_bytes stops s).1)
unfolding take_bytes
take_bytes-kept stops b [] h k = rw h refl
take_bytes-kept stops b (n ∷ s) h k = rw (h, k) refl

pub take_bytes-Stopped : (stops : List ℕ) (s : Str) → Stopped stops s → take_bytes stops s ≡ ([], s)
unfolding take_bytes
take_bytes-Stopped stops [] h = absurd h
take_bytes-Stopped stops (c ∷ []) h = rw h.0 refl
take_bytes-Stopped stops (c ∷ n ∷ s) h = rw (h.0, h.1) refl

take_bytes-opened :
    (stops : List ℕ) (e : Bool) (b : ℕ) (s : Str)
    → escaped e b ≡ true
    → take_bytes stops (92 ∷ b ∷ s) ≡ (b ∷ (take_bytes stops s).0, (take_bytes stops s).1)
unfolding take_bytes
take_bytes-opened stops e b s h = let can : escapable b ≡ true = ground arith in rw can refl

not_stop :
    (e : Bool) (stops : List ℕ) (b : ℕ)
    → Covers e stops
    → escaped e b ≡ false
    → stops_at stops b ≡ false
not_stop e stops b covers h = elim (Bool-cases (stops_at stops b)) [
  | inl k ↦ absurd (cc (h, covers b k))
  | inr k ↦ k
]

-- A byte that is written bare does not become an escape with what follows it.
opens_escape-escape_into :
    (e : Bool) (b : ℕ) (s rest : Str)
    → Plain (b ∷ s)
    → opens_escape b (escape_into s e ++ rest) ≡ false
unfolding escape_into
opens_escape-escape_into e b [] [] h = refl
opens_escape-escape_into e b [] (c ∷ rest) h = ground arith
opens_escape-escape_into e b (n ∷ s) rest h = ground (arith, h.0)

tail-Plain : (b : ℕ) (s : Str) → Plain (b ∷ s) → Plain s
tail-Plain b [] h = tt
tail-Plain b (n ∷ s) h = h.1

module _ (e : Bool) (stops : List ℕ) (covers : Covers e stops) (rest : Str)
    (ends : Stopped stops rest) where
  take_bytes-escape_into :
      (s : Str) → Plain s → take_bytes stops (escape_into s e ++ rest) ≡ (s, rest)
  unfolding escape_into
  take_bytes-escape_into [] h = take_bytes-Stopped stops rest ends
  take_bytes-escape_into (b ∷ s) h =
      let later = take_bytes-escape_into s (tail-Plain b s h) in
      elim (Bool-cases (escaped e b)) [
        | inl k ↦ rw k (
            take_bytes-opened stops e b (escape_into s e ++ rest) k
            ∙ ap (λ p. (b ∷ p.0, p.1)) later)
        | inr k ↦ rw k (
            take_bytes-kept stops b (escape_into s e ++ rest) (not_stop e stops b covers k)
              (opens_escape-escape_into e b s rest h)
            ∙ ap (λ p. (b ∷ p.0, p.1)) later)
      ]

  pub take_escaped-escape_into :
      (s : Str)
      → Plain s
      → is_utf8 s ≡ true
      → ◌≡◌ {A = Result ParseProblem (Str × Str)}
          (take_escaped stops (escape_into s e ++ rest))
          (ok (s, rest))
  unfolding take_escaped
  take_escaped-escape_into s h u = rw (take_bytes-escape_into s h, u) refl
