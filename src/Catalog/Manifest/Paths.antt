-- ===== src/Catalog/Manifest/Paths.antt =====
-- crates/catalog/src/lib.rs: `manifest_path`, whose twelve digits make the order of the keys the
-- order of the sequence numbers.
use timelakedb.Base.{
  ℕ, zero, suc, ◌+◌, ◌/◌, ◌%◌, ◌^◌, ◌<◌, ◌≡◌, refl, ◌∙◌, sym, true, false, [], ◌∷◌, ◌++◌, arith,
  ◌==◌, if◌then◌else◌, length, length-append,
}
use native.Mathlib.Nat.{pow-suc, pow-zero}
use native.Mathlib.Decide.{dec_lt}
use timelakedb.Store.{starts_with}
use timelakedb.Base.Str.{
  Str, str, str_eq, str_eq_iff, str_ltb, str_ltb-append_left, str_ltb-append_right, str_ltb_irrefl,
}

-- The digits that do not fit the width, for `n` below 10 to the fuel.
unfoldable pub more_digits : ℕ → ℕ → Str
more_digits zero n = []
more_digits (suc fuel) n =
    let rest = more_digits fuel (n / 10) in if n == 0 then [] else rest ++ (48 + n % 10) ∷ []

-- `{n:0w}`: at least `w` digits. A `u64` has at most twenty.
unfoldable pub padded : ℕ → ℕ → Str
unfolding more_digits
padded zero n = more_digits 20 n
padded (suc w) n = padded w (n / 10) ++ (48 + n % 10) ∷ []

abbrev pub manifest_dir : Str
manifest_dir = str "catalog/manifest"

unfoldable pub manifest_path : ℕ → Str
unfolding padded
manifest_path seq = str "catalog/manifest/" ++ padded 12 seq ++ str ".json"

div-lt : (w n : ℕ) → n < 10 ^ suc w → n / 10 < 10 ^ w
div-lt w n h = omega (arith, pow-suc 10 w)

length-padded : (w n : ℕ) → n < 10 ^ w → length (padded w n) ≡ w
unfolding padded more_digits
length-padded zero n h = ground (arith, pow-zero 10)
length-padded (suc w) n h = omega (
  arith,
  length-append (padded w (n / 10)) ((48 + n % 10) ∷ []),
  length-padded w (n / 10) (div-lt w n h),
)

str_ltb_last : (s : Str) (a b : ℕ) → a < b → str_ltb (s ++ a ∷ []) (s ++ b ∷ []) ≡ true
unfolding str_ltb
str_ltb_last s a b h = rw str_ltb-append_left (ground arith)

padded_mono : (w n m : ℕ) → n < m → m < 10 ^ w → str_ltb (padded w n) (padded w m) ≡ true
unfolding padded
padded_mono zero n m h k = absurd (omega (arith, pow-zero 10))
padded_mono (suc w) n m h k = elim (dec_lt (n / 10) (m / 10)) [
  | yes p ↦
      str_ltb-append_right (padded w (n / 10)) (padded w (m / 10)) _ _
        (length-padded w (n / 10) (div-lt w n (omega arith))
          ∙ sym (length-padded w (m / 10) (div-lt w m k)))
        (padded_mono w (n / 10) (m / 10) p (div-lt w m k))
  | no p ↦
      let e : m / 10 ≡ n / 10 = omega arith in
      rw e (str_ltb_last (padded w (n / 10)) (48 + n % 10) (48 + m % 10) (omega arith))
]

-- Of two sequence numbers of at most twelve digits the smaller has the smaller key.
pub manifest_path_mono :
    (n m : ℕ) → n < m → m < 10 ^ 12 → str_ltb (manifest_path n) (manifest_path m) ≡ true
unfolding manifest_path
manifest_path_mono n m h k =
    str_ltb-append_left (str "catalog/manifest/") (padded 12 n ++ str ".json")
      (padded 12 m ++ str ".json")
    ∙ str_ltb-append_right (padded 12 n) (padded 12 m) (str ".json") (str ".json")
        (length-padded 12 n (omega arith) ∙ sym (length-padded 12 m k)) (padded_mono 12 n m h k)

pub manifest_path_ne :
    (n m : ℕ) → n < m → m < 10 ^ 12 → str_eq (manifest_path n) (manifest_path m) ≡ false
manifest_path_ne n m h k = ground (
  arith,
  manifest_path_mono n m h k,
  str_eq_iff (manifest_path n) (manifest_path m),
  str_ltb_irrefl (manifest_path m),
)

pub manifest_path_gt :
    (n m : ℕ) → n < m → m < 10 ^ 12 → str_eq (manifest_path m) (manifest_path n) ≡ false
manifest_path_gt n m h k = ground (
  arith,
  manifest_path_mono n m h k,
  str_eq_iff (manifest_path m) (manifest_path n),
  str_ltb_irrefl (manifest_path m),
)

pub manifest_path-starts_with :
    (n : ℕ) → starts_with (manifest_dir ++ str "/") (manifest_path n) ≡ true
unfolding manifest_path starts_with
manifest_path-starts_with n = refl
