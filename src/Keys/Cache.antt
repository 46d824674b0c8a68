-- ===== src/Keys/Cache.antt =====
-- `CachingKms` of crates/store/src/kms_cache.rs. The service behind it is a parameter: what it unwraps, and what it
-- draws when it is asked for a key. An instant is a number of nanoseconds.
use timelakedb.Base.{
  ℕ, ◌+◌, ◌-◌, ◌%◌, ◌^◌, Bool, ◌&&◌, Option, none, some, [], length, ltb, if◌then◌else◌, Result, ok,
  err, max, min,
}
use timelakedb.Base.Str.{Str}
use timelakedb.Base.Dict.{Dict, get, insert, str_key}

abbrev pub max_uses_ceiling : ℕ
max_uses_ceiling = 2 ^ 16

-- Atomic `u64`s.
pub record KmsStats : Type 0 where
  pub generate_calls : ℕ
  pub generate_hits : ℕ
  pub decrypt_calls : ℕ
  pub decrypt_hits : ℕ

pub record EncryptSlot : Type 0 where
  pub dek : Str
  pub wrapped : Str
  pub born : ℕ
  pub uses : ℕ

pub record CachingKms : Type 0 where
  pub max_age : ℕ
  pub max_uses : ℕ
  pub slot : Option EncryptSlot
  pub unwrapped : Dict Str Str
  pub stats : KmsStats

unfoldable pub new : ℕ → ℕ → CachingKms
new max_age max_uses = record {
  max_age = max_age;
  max_uses = min (max max_uses 1) max_uses_ceiling;
  slot = none;
  unwrapped = [];
  stats = record { generate_calls = 0; generate_hits = 0; decrypt_calls = 0; decrypt_hits = 0 };
}

-- The map behind `remember`.
unfoldable pub remembered : Str → Str → Dict Str Str → Dict Str Str
remembered wrapped dek c =
    if ltb 4096 (length c) then insert wrapped dek [] else insert wrapped dek c

unfoldable pub remember : Str → Str → CachingKms → CachingKms
unfolding remembered
remember wrapped dek k = record k { unwrapped = remembered wrapped dek k.unwrapped }

abbrev pub decrypt_hit : CachingKms → CachingKms
decrypt_hit k = record k {
  stats = record k.stats { decrypt_hits = (k.stats.decrypt_hits + 1) % 2 ^ 64 };
}

abbrev pub decrypt_call : CachingKms → CachingKms
decrypt_call k = record k {
  stats = record k.stats { decrypt_calls = (k.stats.decrypt_calls + 1) % 2 ^ 64 };
}

abbrev pub generate_hit : CachingKms → CachingKms
generate_hit k = record k {
  stats = record k.stats { generate_hits = (k.stats.generate_hits + 1) % 2 ^ 64 };
}

abbrev pub generate_call : CachingKms → CachingKms
generate_call k = record k {
  stats = record k.stats { generate_calls = (k.stats.generate_calls + 1) % 2 ^ 64 };
}

-- The slot's key may be handed out again.
abbrev pub is_fresh : CachingKms → ℕ → EncryptSlot → Bool
is_fresh k now s = ltb s.uses k.max_uses && ltb (now - s.born) k.max_age

module _ {E : Type 0} where
  -- What the service answered to a blob that is not cached.
  abbrev pub unwrapped_by : CachingKms → Str → Result E Str → CachingKms × Result E Str
  unwrapped_by k wrapped (err e) = (k, err e)
  unwrapped_by k wrapped (ok dek) = (remember wrapped dek (decrypt_call k), ok dek)

  abbrev pub unwrap_cached :
      (Str → Result E Str) → CachingKms → Str → Option Str → CachingKms × Result E Str
  unwrap_cached inner k wrapped (some dek) = (decrypt_hit k, ok dek)
  unwrap_cached inner k wrapped none = unwrapped_by k wrapped (inner wrapped)

  unfoldable pub unwrap : (Str → Result E Str) → Str → CachingKms → CachingKms × Result E Str
  unfolding remember
  unwrap inner wrapped k = unwrap_cached inner k wrapped (get wrapped k.unwrapped)

  -- A new key fills the slot.
  abbrev pub drawn_key : ℕ → CachingKms → Result E (Str × Str) → CachingKms × Result E (Str × Str)
  drawn_key now k (err e) = (k, err e)
  drawn_key now k (ok (dek, wrapped)) = (
    record (remember wrapped dek (generate_call k)) {
      slot = some (record { dek = dek; wrapped = wrapped; born = now; uses = 1 });
    },
    ok (dek, wrapped),
  )

  abbrev pub generate_from :
      ℕ → CachingKms → Result E (Str × Str) → Option EncryptSlot → CachingKms × Result E (Str × Str)
  generate_from now k drawn none = drawn_key now k drawn
  generate_from now k drawn (some s) =
      if is_fresh k now s
      then (
        record (generate_hit k) { slot = some (record s { uses = s.uses + 1 }) },
        ok (s.dek, s.wrapped),
      )
      else drawn_key now k drawn

  -- `drawn` is what the service gives if it is asked.
  unfoldable pub generate :
      ℕ → Result E (Str × Str) → CachingKms → CachingKms × Result E (Str × Str)
  unfolding remember
  generate now drawn k = generate_from now k drawn k.slot
