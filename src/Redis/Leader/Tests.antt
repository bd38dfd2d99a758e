-- ===== src/Redis/Leader/Tests.antt =====
-- A run of two services of src/services/leader.ts: the first becomes leader, and the second is
-- refused. The theorems at inputs.
use dk_server_foundation.Common.{
  ℕ, ◌≡◌, refl, true, none, some, ◌≢◌, nat_eq, nat_beq, nat_beq_iff, if◌then◌else◌, arith,
}
use dk_server_foundation.Redis.Locks.{Lock, holder, acquire_script}
use dk_server_foundation.Redis.Leader.{
  LeaderService, LeaderServiceOptions, new, start, try_acquire, resume_acquire, answered, acquiring,
}
use dk_server_foundation.Redis.Leader.Runs.{
  starts, serves_acquire, resumes_acquire, Steps, done, more,
}
use dk_server_foundation.Redis.Leader.Exclusion.{leader_unique}

abbrev options : LeaderServiceOptions
options = record { ttl_ms = none; renewal_interval_ms = some 9000; retry_delay_ms = none }

abbrev services : ℕ → LeaderService ℕ
services n = new n options

abbrev put : ℕ → LeaderService ℕ → (ℕ → LeaderService ℕ) → ℕ → LeaderService ℕ
put n s ss m = if nat_beq n m then s else ss m

abbrev asking : LeaderService ℕ
asking = record (new 0 options) { running = true; attempt = some (acquiring 0) }

abbrev told : LeaderService ℕ
told = record asking { attempt = some (answered (some true)) }

abbrev leading : LeaderService ℕ
leading = resume_acquire (some true) told

put-stay : (s : LeaderService ℕ) (ss : ℕ → LeaderService ℕ) (m : ℕ) → 0 ≢ m → put 0 s ss m ≡ ss m
put-stay s ss m d = ground (arith, nat_beq_iff 0 m)

abbrev first : ℕ → LeaderService ℕ
first = put 0 asking services

abbrev second : ℕ → LeaderService ℕ
second = put 0 told first

abbrev third : ℕ → LeaderService ℕ
third = put 0 leading second

leads : Steps (λ n k. n) none services (some (0, 30000)) third
unfolding new start try_acquire acquire_script
leads =
    more
      (record {
        n = 0;
        steps = starts (record { not_leader = refl; no_attempt = refl; no_release = refl }) refl;
        stay = put-stay asking services;
      })
      (more (record { n = 0; steps = serves_acquire 0 refl; stay = put-stay told first })
        (more
          (record {
            n = 0;
            steps = resumes_acquire (some true) refl;
            stay = put-stay leading second;
          })
          done))

leader_unique_example :
    (◌≡◌ {A = ℕ} 0 0) × (holder {V = ℕ} (some (0, 30000)) ≡ some (third 0).lock_id)
leader_unique_example =
    leader_unique (λ v. v) (λ n k. n) (λ n k. refl) options (some (0, 30000)) third leads 0 0
      (unfold resume_acquire in refl) (unfold resume_acquire in refl)
      (unfold resume_acquire in refl) (unfold resume_acquire in refl)

abbrev held : Lock ℕ
held = some (3, 500)
