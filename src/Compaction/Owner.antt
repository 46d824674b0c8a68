-- ===== src/Compaction/Owner.antt =====
-- Which compactor owns a partition or a rollup, in crates/server/src/compaction.rs.
use timelakedb.Base.{ℕ, ◌*◌, ◌%◌, ◌^◌, Bool, true, List, [], ◌∷◌, leb, ◌==◌, if◌then◌else◌}
use timelakedb.Base.Str.{Str}
use Prim.Native.Nat.{bit_xor}

-- `h ^= b` and `h = h.wrapping_mul(prime)` for each byte.
unfoldable pub mix : ℕ → Str → ℕ
mix h [] = h
mix h (b ∷ s) = mix ((bit_xor h b * 0x100000001b3) % 2 ^ 64) s

-- The chunks behind the first, each behind a zero byte.
unfoldable pub mix_rest : ℕ → List Str → ℕ
mix_rest h [] = h
mix_rest h (c ∷ chunks) = mix_rest (mix (mix h (0 ∷ [])) c) chunks

unfoldable pub fnv1a : List Str → ℕ
fnv1a [] = 0xcbf29ce484222325
fnv1a (c ∷ chunks) = mix_rest (mix 0xcbf29ce484222325 c) chunks

unfoldable pub owns_partition : Str → Str → Str → ℕ → ℕ → Bool
owns_partition db table partition ordinal count =
    if leb count 1 then true else fnv1a (db ∷ table ∷ partition ∷ []) % count == ordinal

unfoldable pub owns_rollup : Str → Str → ℕ → ℕ → Bool
owns_rollup db name ordinal count =
    if leb count 1 then true else fnv1a (db ∷ name ∷ []) % count == ordinal
