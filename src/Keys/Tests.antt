-- ===== src/Keys/Tests.antt =====
-- The theorem on the cache at concrete calls, and a run of it.
use timelakedb.Base.{◌*◌, ◌≤◌, ◌≡◌, refl, All, List, [], ◌∷◌, Result, ok, err, min, max}
use timelakedb.Base.Str.{Str, str, str_eq}
use timelakedb.Base.Dict.{get, insert}
use timelakedb.Keys.Cache.{new, remembered, remember, unwrap, generate, max_uses_ceiling}
use timelakedb.Keys.Calls.{Call, generating, unwrapping, times, offers, run, answers}
use timelakedb.Keys.Faithful.{run-IsBounded}

-- A service that wraps a key by a letter ahead of it.
abbrev open_wrapped : Str → Result Str Str
open_wrapped [] = err (str "empty")
open_wrapped (b ∷ dek) = ok dek

abbrev calls : List (Call Str)
calls =
    generating 0 (ok (str "k1", str "wk1"))
    ∷ generating 5 (ok (str "k2", str "wk2"))
    ∷ generating 6 (ok (str "k3", str "wk3"))
    ∷ unwrapping (str "wk1")
    ∷ unwrapping (str "wk9")
    ∷ generating 200 (ok (str "k4", str "wk4"))
    ∷ []

run-IsBounded_example :
    let keys = answers open_wrapped calls (new 100 2) in
    ((unwrap open_wrapped (str "wk1") (run open_wrapped calls (new 100 2))).1 ≡ ok (str "k1"))
    × All (λ p. open_wrapped p.1 ≡ ok p.0) keys
    × (times (str "wk1") keys ≤ min (max 2 1) max_uses_ceiling * times (str "wk1") (offers calls))
run-IsBounded_example =
    run-IsBounded open_wrapped 100 2 calls (str "wk1") (refl, (refl, (refl, (refl, tt))))

-- The second call is answered by the first key again.
handed_out :
    answers open_wrapped calls (new 100 2)
    ≡ (str "k1", str "wk1")
      ∷ (str "k1", str "wk1")
      ∷ (str "k3", str "wk3")
      ∷ (str "k4", str "wk4")
      ∷ []
unfolding new generate unwrap remembered remember get insert str_eq
handed_out = refl

-- The first key serves twice, the third is drawn next, and the fourth when that is too old.
counted :
    (run open_wrapped calls (new 100 2)).stats
    ≡ record { generate_calls = 3; generate_hits = 1; decrypt_calls = 1; decrypt_hits = 1 }
unfolding run new generate unwrap remembered get insert str_eq
counted = refl
