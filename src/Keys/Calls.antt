-- ===== src/Keys/Calls.antt =====
-- Calls of the cache of crates/store/src/kms_cache.rs: what they leave, and the keys that are handed out.
use timelakedb.Base.{ℕ, suc, List, [], ◌∷◌, ◌++◌, if◌then◌else◌, Result, ok, err}
use timelakedb.Base.Str.{Str, str_eq}
use timelakedb.Base.Dict.{str_key}
use timelakedb.Keys.Cache.{CachingKms, unwrap, generate}

-- What is asked of the cache, and what the service draws for it.
pub data Call (E : Type 0) : Type 0 where
  generating : ℕ → Result E (Str × Str) → Call E
  unwrapping : Str → Call E

-- A key and its wrapped form.
abbrev pub DataKey : Type 0
DataKey = Str × Str

-- How often a wrapped key stands among these.
abbrev pub times : Str → List DataKey → ℕ
times wrapped [] = 0
times wrapped (p ∷ keys) =
    let rest = times wrapped keys in if str_eq p.1 wrapped then suc rest else rest

module _ {E : Type 0} where
  -- The key that an answer hands out.
  abbrev pub handed : Result E DataKey → List DataKey
  handed (err e) = []
  handed (ok p) = p ∷ []

  -- The keys that the service gives if it is asked.
  abbrev pub offers : List (Call E) → List DataKey
  offers [] = []
  offers (generating now drawn ∷ calls) = handed drawn ++ offers calls
  offers (unwrapping wrapped ∷ calls) = offers calls

module _ {E : Type 0} (inner : Str → Result E Str) where
  unfoldable pub run : List (Call E) → CachingKms → CachingKms
  run [] k = k
  run (generating now drawn ∷ calls) k = run calls (generate now drawn k).0
  run (unwrapping wrapped ∷ calls) k = run calls (unwrap inner wrapped k).0

  -- The keys that are handed out, in order.
  abbrev pub answers : List (Call E) → CachingKms → List DataKey
  answers [] k = []
  answers (generating now drawn ∷ calls) k =
      handed (generate now drawn k).1 ++ answers calls (generate now drawn k).0
  answers (unwrapping wrapped ∷ calls) k = answers calls (unwrap inner wrapped k).0
