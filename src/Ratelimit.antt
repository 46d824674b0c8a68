-- ===== src/Ratelimit.antt =====
-- crates/server/src/ratelimit.rs: how many queries a client holds at once. The lock makes each call
-- one step.
pub mod Slots
pub mod Held
mod Tests
use timelakedb.Base.{ℕ, suc, ◌+◌, ◌-◌, ◌%◌, ◌^◌, Option, none, some, [], leb, ◌==◌, if◌then◌else◌}
use timelakedb.Base.Str.{Str}
use timelakedb.Base.Dict
use timelakedb.Base.Dict.{Dict, str_key}
use mathlib.Core.Option

pub record ClientLimiter : Type 0 where
  pub cap : ℕ
  pub active : Dict Str ℕ
  pub rejected : ℕ

-- `ClientLimiter::new`
abbrev pub new : ℕ → ClientLimiter
new limit = record { cap = limit; active = []; rejected = 0 }

-- What a query holds: nothing, or a slot of the client with this key.
pub data ClientGuard : Type 0 where
  noop : ClientGuard
  slot : Str → ClientGuard

-- `entry(key).or_insert(0)` comes before the test.
unfoldable pub admit_key : Str → ClientLimiter → Option ClientGuard × ClientLimiter
admit_key key l =
    let n = Option.get_or (Dict.get key l.active) 0 in
    if leb l.cap n
    then (
      none,
      record l {
        active = Dict.update key 0 (λ v. v) l.active;
        rejected = (l.rejected + 1) % 2 ^ 64;
      },
    )
    else (some (slot key), record l { active = Dict.update key 0 (λ v. v + 1) l.active })

unfoldable pub admit : Option Str → ClientLimiter → Option ClientGuard × ClientLimiter
admit none l = (some noop, l)
admit (some key) l = if l.cap == 0 then (some noop, l) else admit_key key l

-- `ClientGuard::drop`
unfoldable pub release : ClientGuard → ClientLimiter → ClientLimiter
release noop l = l
release (slot key) l = elim (Dict.get key l.active) [
  | none ↦ l
  | some n ↦
      if n - 1 == 0
      then record l { active = Dict.remove key l.active }
      else record l { active = Dict.insert key (n - 1) l.active }
]
