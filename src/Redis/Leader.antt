-- ===== src/Redis/Leader.antt =====
-- The class `LeaderService` of src/services/leader.ts. A method is split where it awaits an answer
-- from Redis: the request is kept in the service until Redis serves it, and its answer until the
-- method goes on. An answer is `none` if the call failed. `renew_timer` and `retry_timer` say
-- whether a timer will fire, `calls` are the callbacks called, and `next_id` is the `uuid()` that
-- the step takes. Logging is left out.
pub mod Runs
pub mod Safety
pub mod Attempts
pub mod Leadership
pub mod Exclusion
pub mod Tests
use dk_server_foundation.Common.{
  ℕ, Bool, true, false, Option, none, some, List, [], ◌∷◌, ◌++◌, if◌then◌else◌, or_else,
}

pub record LeaderServiceOptions : Type 0 where
  pub ttl_ms : Option ℕ
  pub renewal_interval_ms : Option ℕ
  pub retry_delay_ms : Option ℕ

-- The ACQUIRE of `tryAcquire`, and the RELEASE that it sends if the service stopped meanwhile.
pub data Attempt (V : Type 0) : Type 0 where
  acquiring : V → Attempt V
  answered : Option Bool → Attempt V
  giving_back : V → Attempt V
  given_back : Attempt V

pub data Renewal (V : Type 0) : Type 0 where
  renewing : V → Renewal V
  renewed : Option Bool → Renewal V

-- The RELEASE of `stop`.
pub data Release (V : Type 0) : Type 0 where
  releasing : V → Release V
  released : Release V

pub data Callback : Type 0 where
  became_leader : Callback
  lost_leader : Callback

pub record LeaderService (V : Type 0) : Type 0 where
  pub lock_id : V
  pub is_leader : Bool
  pub running : Bool
  pub renew_timer : Bool
  pub retry_timer : Bool
  pub ttl_ms : ℕ
  pub renewal_interval_ms : ℕ
  pub retry_delay_ms : ℕ
  pub attempt : Option (Attempt V)
  pub renewals : List (Renewal V)
  pub release : Option (Release V)
  pub calls : List Callback

module _ {V : Type 0} where
  unfoldable pub new : V → LeaderServiceOptions → LeaderService V
  new id options = record {
    lock_id = id;
    is_leader = false;
    running = false;
    renew_timer = false;
    retry_timer = false;
    ttl_ms = or_else options.ttl_ms 30000;
    renewal_interval_ms = or_else options.renewal_interval_ms 10000;
    retry_delay_ms = or_else options.retry_delay_ms 5000;
    attempt = none;
    renewals = [];
    release = none;
    calls = [];
  }

  unfoldable pub try_acquire : LeaderService V → LeaderService V
  try_acquire s = if s.running then record s { attempt = some (acquiring s.lock_id) } else s

  -- It throws (`none`) if the service is running.
  unfoldable pub start : LeaderService V → Option (LeaderService V)
  unfolding try_acquire
  start s = if s.running then none else some (try_acquire (record s { running = true }))

  unfoldable pub stop : LeaderService V → LeaderService V
  stop s =
      let stopped : LeaderService V = record s {
        running = false;
        renew_timer = false;
        retry_timer = false;
      } in
      if s.is_leader then record stopped { release = some (releasing s.lock_id) } else stopped

  -- `stop` goes on, also if the RELEASE failed.
  unfoldable pub resume_stop : LeaderService V → LeaderService V
  resume_stop s = record s { release = none; is_leader = false }

  abbrev pub start_renewal : LeaderService V → LeaderService V
  start_renewal s = record s { renew_timer = true }

  abbrev pub retry_later : LeaderService V → LeaderService V
  retry_later s = if s.running then record s { retry_timer = true } else s

  -- `tryAcquire` goes on with the answer of ACQUIRE.
  unfoldable pub resume_acquire : Option Bool → LeaderService V → LeaderService V
  resume_acquire (some true) s =
      if s.running
      then start_renewal
          (record s { attempt = none; is_leader = true; calls = s.calls ++ (became_leader ∷ []) })
      else record s { attempt = some (giving_back s.lock_id) }
  resume_acquire (some false) s = retry_later (record s { attempt = none })
  resume_acquire none s = retry_later (record s { attempt = none })

  unfoldable pub retry : LeaderService V → LeaderService V
  unfolding try_acquire
  retry s = try_acquire (record s { retry_timer = false })

  unfoldable pub renew : LeaderService V → LeaderService V
  renew s = if s.running then record s { renewals = s.renewals ++ (renewing s.lock_id ∷ []) } else s

  unfoldable pub handle_lost_leadership : V → LeaderService V → LeaderService V
  handle_lost_leadership next_id s =
      if s.is_leader
      then record s {
        is_leader = false;
        renew_timer = false;
        calls = s.calls ++ (lost_leader ∷ []);
        lock_id = next_id;
        retry_timer = if s.running then true else s.retry_timer;
      }
      else s

  -- The renewal goes on with the answer of RENEW.
  unfoldable pub resume_renew : Option Bool → V → LeaderService V → LeaderService V
  unfolding handle_lost_leadership
  resume_renew (some true) next_id s = s
  resume_renew (some false) next_id s = handle_lost_leadership next_id s
  resume_renew none next_id s = handle_lost_leadership next_id s
