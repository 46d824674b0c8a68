-- ===== src/Catalog/Commit/Writes.antt =====
-- `put_if_absent` on the next sequence key (crates/catalog/src/lib.rs): it appends to the log, or
-- finds the key taken and changes nothing.
use timelakedb.Base.{
  ℕ, suc, ◌+◌, ◌≤◌, ◌<◌, ◌≡◌, refl, ap, sym, ◌∙◌, Bool, true, false, some, List, [], ◌∷◌, ◌++◌,
  arith, length, length-append, All, All-append,
}
use mathlib.Core.List.{map-append, append_assoc, append-nil}
use mathlib.Core.Path.{subst}
use timelakedb.Base.Str.{str_eq_iff, str_ltb}
use native.Mathlib.Decide.{dec_lt}
use timelakedb.Store.{Objects, list, list-put, lookup, put_if_absent}
use timelakedb.Store.Sort.{sort_insert, sort_insert_last}
use timelakedb.Catalog.Entry.{manifest_format_version, ManifestEntry}
use timelakedb.Catalog.Manifest.{Codec}
use timelakedb.Catalog.Manifest.Paths.{
  manifest_path, manifest_path_mono, manifest_path_ne, manifest_path_gt, manifest_dir,
  manifest_path-starts_with,
}
use timelakedb.Catalog.Commit.{Update, entry_at, land, land_all}
use timelakedb.Catalog.Commit.Log.{
  IsNumbered, IsNumbered-append, paths, max_entries, IsStored, IsManifest, landed,
}

-- Every key of a numbered log is before the key of a later sequence number.
paths_before :
    (k n : ℕ) (log : List ManifestEntry)
    → IsNumbered k log
    → k + length log ≤ n
    → n < max_entries
    → All (λ p. str_ltb p (manifest_path n) ≡ true) (paths log)
paths_before k n [] h b f = tt
paths_before k n (e ∷ log) h b f =
    (manifest_path_mono e.seq n (omega arith) f, paths_before (suc k) n log h.2 (omega arith) f)

module _ (c : Codec) (store : Objects c.Blob) where
  IsStored-after :
      (k n : ℕ) (log : List ManifestEntry) (b : c.Blob)
      → IsNumbered k log
      → k + length log ≤ n
      → n < max_entries
      → All (IsStored c store) log
      → All (IsStored c ((manifest_path n, b) ∷ store)) log
  unfolding lookup
  IsStored-after k n [] b h l f s = tt
  IsStored-after k n (e ∷ log) b h l f s = (
    rw (manifest_path_gt e.seq n (omega arith) f) s.0,
    IsStored-after (suc k) n log b h.2 (omega arith) f s.1,
  )

  -- The key of an entry of the log is taken.
  lookup-taken :
      (k n : ℕ) (log : List ManifestEntry)
      → IsNumbered k log
      → All (IsStored c store) log
      → k ≤ n
      → n < k + length log
      → (b : c.Blob) × (lookup (manifest_path n) store ≡ some b)
  lookup-taken k n [] h s l u = absurd (omega arith)
  lookup-taken k n (e ∷ log) h s l u = elim (dec_lt k n) [
    | yes p ↦ lookup-taken (suc k) n log h.2 s.1 p (omega arith)
    | no p ↦ let q : n ≡ e.seq = omega arith in (c.to_vec e, rw q s.0)
  ]

  pub put-taken :
      (log : List ManifestEntry) (n : ℕ) (b : c.Blob)
      → IsManifest c store log
      → n < length log
      → put_if_absent (manifest_path (n + 1)) b store ≡ (store, false)
  unfolding put_if_absent
  put-taken log n b h l =
      let (old, e) = lookup-taken 1 (n + 1) log h.numbered h.stored (omega arith) (omega arith) in
      rw (e, put_if_absent)

  pub put-fresh :
      (log : List ManifestEntry) (n : ℕ) (b : c.Blob)
      → IsManifest c store log
      → n ≡ length log
      → n + 1 < max_entries
      → put_if_absent (manifest_path (n + 1)) b store ≡ ((manifest_path (n + 1), b) ∷ store, true)
  unfolding put_if_absent
  put-fresh log n b h e l = rw (h.fresh (n + 1) (omega arith) l, put_if_absent)

  pub IsManifest-append :
      (log : List ManifestEntry) (e : ManifestEntry)
      → IsManifest c store log
      → e.seq ≡ length log + 1
      → e.format ≤ manifest_format_version
      → length log + 1 < max_entries
      → IsManifest c ((manifest_path e.seq, c.to_vec e) ∷ store) (log ++ e ∷ [])
  unfolding lookup
  IsManifest-append log e h s f l = record {
    numbered = IsNumbered-append 1 log (e ∷ []) h.numbered (omega arith, f, tt);
    listed =
        list-put manifest_dir (manifest_path e.seq) (c.to_vec e) store
          (manifest_path-starts_with e.seq)
        ∙ ap (sort_insert (manifest_path e.seq)) h.listed
        ∙ sort_insert_last (manifest_path e.seq) (paths log)
            (paths_before 1 e.seq log h.numbered (omega arith) (omega arith))
        ∙ sym (map-append (λ x. manifest_path x.seq) log (e ∷ []));
    stored =
        All-append (IsStored c ((manifest_path e.seq, c.to_vec e) ∷ store)) log (e ∷ [])
          (IsStored-after 1 e.seq log (c.to_vec e) h.numbered (omega arith) (omega arith) h.stored)
          (rw ((str_eq_iff (manifest_path e.seq) (manifest_path e.seq)).1 refl), tt);
    fresh = λ n a b.
        rw (manifest_path_ne e.seq n (omega (arith, length-append log (e ∷ []))) b)
          (h.fresh n (omega (arith, length-append log (e ∷ []))) b);
    bounded = omega (arith, length-append log (e ∷ []));
  }

length-paths : (log : List ManifestEntry) → length (paths log) ≡ length log
length-paths [] = refl
length-paths (e ∷ log) = ap suc (length-paths log)

-- A store with no objects holds the empty log.
pub IsManifest-empty : (c : Codec) → IsManifest c [] []
unfolding list lookup
IsManifest-empty c = record {
  numbered = tt;
  listed = refl;
  stored = tt;
  fresh = λ n a b. refl;
  bounded = omega arith;
}

-- Other nodes' commits append their entries, numbered from the end of the log.
module _ (c : Codec) where
  land_lem :
      (u : Update) (store : Objects c.Blob) (log : List ManifestEntry)
      → IsManifest c store log
      → length log + 1 < max_entries
      → IsManifest c (land c u store) (log ++ entry_at (suc (length log)) u ∷ [])
  unfolding land entry_at
  land_lem u store log h l =
      let p : suc (length (list manifest_dir store)) ≡ length log + 1 =
        rw h.listed (omega (arith, length-paths log)) in
      let q : suc (length log) ≡ length log + 1 = omega arith in
      let e = entry_at (length log + 1) u in
      let landing =
        ap (λ (n : ℕ). (put_if_absent (manifest_path n) (c.to_vec (entry_at n u)) store).0) p
        ∙ ap (λ (r : Objects c.Blob × Bool). r.0)
            (put-fresh c store log (length log) (c.to_vec e) h refl l) in
      subst (λ s. IsManifest c s (log ++ entry_at (suc (length log)) u ∷ [])) (sym landing)
        (rw q (IsManifest-append c store log e h refl (omega arith) l))

  pub land_all-landed :
      (us : List Update) (store : Objects c.Blob) (log : List ManifestEntry)
      → IsManifest c store log
      → length log + length us < max_entries
      → IsManifest c (land_all c us store) (log ++ landed (length log) us)
  unfolding land_all landed
  land_all-landed [] store log h l = rw append-nil h
  land_all-landed (u ∷ us) store log h l =
      let e = entry_at (suc (length log)) u in
      let n : length (log ++ e ∷ []) ≡ suc (length log) =
        omega (arith, length-append log (e ∷ [])) in
      let r =
        land_all-landed us (land c u store) (log ++ e ∷ []) (land_lem u store log h (omega arith))
          (omega arith) in
      rw (append_assoc, n) at r
