-- ===== src/Catalog/Manifest.antt =====
-- crates/catalog/src/lib.rs: the manifest objects, their keys and their format check.
pub mod Paths
use timelakedb.Base.{
  ℕ, ◌≡◌, Bool, true, false, Option, none, some, List, [], ◌∷◌, ◌++◌, ltb, if◌then◌else◌, Result,
  ok, err, ◌>>=◌, ok_or,
}
use timelakedb.Base.Str.{Str}
use timelakedb.Store.{IoError, invalid_data, Objects, get}
use timelakedb.Catalog.Entry.{ManifestEntry, manifest_format_version}

-- `serde_json` over the derived impls: what is written reads back.
pub record Codec : Type 1 where
  pub Blob : Type 0
  pub to_vec : ManifestEntry → Blob
  pub from_slice : Blob → Option ManifestEntry
  pub from_slice-to_vec : (e : ManifestEntry) → from_slice (to_vec e) ≡ some e

-- An entry of a newer format is refused.
unfoldable pub check_format : ManifestEntry → Result IoError ManifestEntry
check_format e = if ltb manifest_format_version e.format then err invalid_data else ok e

module _ (c : Codec) where
  unfoldable pub read_entry : Objects c.Blob → Str → Result IoError ManifestEntry
  unfolding check_format
  read_entry store path = do
    bytes ← get path store
    entry ← ok_or invalid_data (c.from_slice bytes)
    check_format entry
