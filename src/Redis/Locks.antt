-- ===== src/Redis/Locks.antt =====
-- The Lua scripts of src/services/leader.ts, word for word those of src/helpers/redis/mutex.ts, on
-- the one key that they are given. `Lock` is what Redis keeps there: a value and its time to live.
-- Each script runs in one step; its answer 1 is `true`, and 0 is `false`.
use dk_server_foundation.Common.{ℕ, Bool, true, false, Option, none, some, Eq, ◌==◌, if◌then◌else◌}

abbrev pub Lock : Type 0 → Type 0
Lock V = Option (V × ℕ)

abbrev pub holder : {V : Type 0} → Lock V → Option V
holder none = none
holder (some (v, ttl)) = some v

module _ {V : Type 0} ⦃e : Eq V⦄ where
  unfoldable pub acquire_script : V → ℕ → Lock V → Lock V × Bool
  acquire_script value ttl (some held) = (some held, false)
  acquire_script value ttl none = (some (value, ttl), true)

  unfoldable pub renew_script : V → ℕ → Lock V → Lock V × Bool
  renew_script value ttl none = (none, false)
  renew_script value ttl (some (v, t)) =
      if v == value then (some (v, ttl), true) else (some (v, t), false)

  unfoldable pub release_script : V → Lock V → Lock V × Bool
  release_script value none = (none, false)
  release_script value (some (v, t)) = if v == value then (none, true) else (some (v, t), false)
