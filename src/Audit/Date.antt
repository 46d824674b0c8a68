-- ===== src/Audit/Date.antt =====
-- `rfc3339_utc` and `civil_from_days` of crates/audit/src/lib.rs. A `SystemTime` is its nanoseconds
-- since 1970: an earlier one counts as 1970, as `unwrap_or_default` makes it.
use timelakedb.Base.{ℕ, ◌+◌, ◌-◌, ◌*◌, ◌/◌, ◌%◌, ◌++◌, ltb, leb, if◌then◌else◌}
use timelakedb.Base.Str.{Str, str}
use timelakedb.Catalog.Manifest.Paths.{padded}

-- The day of its year from 1 March, `yoe` being the year of its era of 400 years.
abbrev pub year_of_era : ℕ → ℕ
year_of_era doe = (doe - doe / 1460 + doe / 36524 - doe / 146096) / 365

abbrev pub day_of_year : ℕ → ℕ → ℕ
day_of_year doe yoe = doe - (365 * yoe + yoe / 4 - yoe / 100)

abbrev pub month_of : ℕ → ℕ
month_of mp = if ltb mp 10 then mp + 3 else mp - 9

-- For days from 1970 on.
unfoldable pub civil_from_days : ℕ → ℕ × ℕ × ℕ
civil_from_days days =
    let z = days + 719468 in
    let era = z / 146097 in
    let doe = z % 146097 in
    let yoe = year_of_era doe in
    let y = yoe + era * 400 in
    let doy = day_of_year doe yoe in
    let mp = (5 * doy + 2) / 153 in
    let d = doy - (153 * mp + 2) / 5 + 1 in
    let m = month_of mp in (if leb m 2 then y + 1 else y, m, d)

unfoldable pub rfc3339_utc : ℕ → Str
rfc3339_utc sys =
    let secs = sys / 1000000000 in
    let micros = sys % 1000000000 / 1000 in
    let sod = secs % 86400 in
    let (y, m, d) = civil_from_days (secs / 86400) in
    padded 4 y
    ++ str "-"
    ++ padded 2 m
    ++ str "-"
    ++ padded 2 d
    ++ str "T"
    ++ padded 2 (sod / 3600)
    ++ str ":"
    ++ padded 2 (sod % 3600 / 60)
    ++ str ":"
    ++ padded 2 (sod % 60)
    ++ str "."
    ++ padded 6 micros
    ++ str "Z"
