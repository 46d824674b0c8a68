-- ===== src/Store.antt =====
-- crates/store/src/lib.rs: the object store behind the `Store` trait, as the catalog uses it. A
-- store is the list of its objects, newest first; a blob is whatever the caller serialised.
pub mod Sort
use timelakedb.Base.{
  ◌≡◌, refl, Bool, true, false, ◌&&◌, ◌||◌, Option, none, some, List, [], ◌∷◌, ◌++◌, if◌then◌else◌,
  ok_or, Result, ok, err, ◌==◌, any,
}
use timelakedb.Base.Str.{Str, str, str_eq}
use Sort.{sort, sort_insert}

-- The kinds of `std::io::Error` that the code tells apart.
pub data IoError : Type 0 where
  not_found invalid_data already_exists resource_busy unexpected_eof : IoError

abbrev pub Objects {ℓ} : Type ℓ → Type ℓ
Objects B = List (Str × B)

-- `path` begins with `prefix`.
unfoldable pub starts_with : Str → Str → Bool
starts_with [] path = true
starts_with (a ∷ prefix) [] = false
starts_with (a ∷ prefix) (b ∷ path) = (a == b) && starts_with prefix path

module _ {ℓ} {B : Type ℓ} where
  unfoldable pub lookup : Str → Objects B → Option B
  lookup path [] = none
  lookup path ((p, b) ∷ rest) = if str_eq p path then some b else lookup path rest

  -- `LocalStore::get`
  unfoldable pub get : Str → Objects B → Result IoError B
  unfolding lookup
  get path objects = ok_or not_found (lookup path objects)

  -- `LocalStore::put_if_absent`: the hard link fails if the destination exists, and then nothing
  -- is written.
  unfoldable pub put_if_absent : Str → B → Objects B → Objects B × Bool
  unfolding lookup
  put_if_absent path b objects = elim (lookup path objects) [
    | none ↦ ((path, b) ∷ objects, true)
    | some _ ↦ (objects, false)
  ]

  -- The walk below the directory `prefix`.
  unfoldable pub walk : Str → Objects B → List Str
  walk prefix [] = []
  walk prefix ((p, b) ∷ rest) =
      let found = walk prefix rest in if starts_with (prefix ++ str "/") p then p ∷ found else found

  -- `LocalStore::list`
  unfoldable pub list : Str → Objects B → List Str
  unfolding walk sort
  list prefix objects = sort (walk prefix objects)

  -- A new object below the listed directory takes its place in the listing.
  pub list-put :
      (prefix p : Str) (b : B) (store : Objects B)
      → starts_with (prefix ++ str "/") p ≡ true
      → list prefix ((p, b) ∷ store) ≡ sort_insert p (list prefix store)
  unfolding list
  list-put prefix p b store h = rw h
