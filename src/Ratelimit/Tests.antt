-- ===== src/Ratelimit/Tests.antt =====
-- The theorems on the limiter at concrete events.
use timelakedb.Base.{◌≡◌, ◌↔◌, refl, none, some, List, [], ◌∷◌, arith}
use timelakedb.Base.Str.{str, str_eq}
use timelakedb.Base.Dict
use timelakedb.Ratelimit.{new, admit, admit_key, release}
use timelakedb.Ratelimit.Slots.{Event, arrive, leave, run, step, held_by, Counts}
use timelakedb.Ratelimit.Held.{run-new-Counts, admit-refused}

-- Two queries of one client and one of another, one that no client is known of, and an end.
abbrev events : List Event
events =
    arrive (some (str "a"))
    ∷ arrive (some (str "b"))
    ∷ arrive none
    ∷ arrive (some (str "a"))
    ∷ arrive (some (str "a"))
    ∷ leave 2
    ∷ []

run-new-Counts_example : Counts 2 (run (new 2, []) events).0 (run (new 2, []) events).1
run-new-Counts_example = run-new-Counts 2 events

admit-refused_example :
    ((admit (some (str "a")) (run (new 2, []) events).0).0 ≡ none)
    ↔ (held_by (str "a") (run (new 2, []) events).1 ≡ 2)
admit-refused_example = admit-refused 2 events (str "a") (omega arith)

-- The third query of a client is refused, and the other's slot is free again.
third : (run (new 2, []) events).0 ≡ record { cap = 2; active = (str "a", 2) ∷ []; rejected = 1 }
unfolding run step admit admit_key release Dict.get Dict.update Dict.remove Dict.insert str_eq
third = refl
