-- ===== src/Store/Sort.antt =====
-- `out.sort()` of `LocalStore::list` in crates/store/src/lib.rs, on the paths' bytes.
use timelakedb.Base.{◌≡◌, refl, true, List, [], ◌∷◌, ◌++◌, arith, if◌then◌else◌, All}
use timelakedb.Base.Str.{Str, str_ltb}

unfoldable pub sort_insert : Str → List Str → List Str
sort_insert x [] = x ∷ []
sort_insert x (y ∷ ys) = let rest = sort_insert x ys in if str_ltb y x then y ∷ rest else x ∷ y ∷ ys

unfoldable pub sort : List Str → List Str
unfolding sort_insert
sort [] = []
sort (x ∷ xs) = sort_insert x (sort xs)

-- A path after all others is put at the end.
pub sort_insert_last :
    (x : Str) (ys : List Str) → All (λ y. str_ltb y x ≡ true) ys → sort_insert x ys ≡ ys ++ x ∷ []
unfolding sort_insert
sort_insert_last x [] h = refl
sort_insert_last x (y ∷ ys) h = ground (arith, sort_insert_last x ys h.1)
