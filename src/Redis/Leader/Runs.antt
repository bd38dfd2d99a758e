-- ===== src/Redis/Leader/Runs.antt =====
-- Steps of services of src/services/leader.ts and of the lock that they share in Redis, where the
-- lock does not expire: calls of `start` and `stop`, timers, Redis serving a request or losing its
-- answer, and a method going on with its answer. `start` is called when an earlier `stop` and
-- `tryAcquire` have ended, and `stop` on a running service, as the mesh service does.
use dk_server_foundation.Common.{
  ℕ, ◌≡◌, ◌≢◌, Bool, true, false, Option, none, some, List, ◌∷◌, ◌++◌, Eq,
}
use dk_server_foundation.Redis.Locks.{Lock, acquire_script, renew_script, release_script}
use dk_server_foundation.Redis.Leader.{
  LeaderService, acquiring, answered, giving_back, given_back, Renewal, renewing, renewed,
  releasing, released, start, stop, resume_stop, resume_acquire, retry, renew, resume_renew,
}

module _ {V : Type 0} where
  pub record IsQuiet (s : LeaderService V) : Type 0 where
    pub not_leader : s.is_leader ≡ false
    pub no_attempt : s.attempt ≡ none
    pub no_release : s.release ≡ none

-- A step of one service, whose k-th `uuid()` is `uuid k`.
pub data ServiceStep {V : Type 0} ⦃e : Eq V⦄ (uuid : ℕ → V)
    : Lock V → LeaderService V → Lock V → LeaderService V → Type 0 where
  starts :
      {l : Lock V} {s t : LeaderService V} → IsQuiet s → start s ≡ some t → ServiceStep uuid l s l t
  stops : {l : Lock V} {s : LeaderService V} → s.running ≡ true → ServiceStep uuid l s l (stop s)
  serves_acquire :
      {l : Lock V} {s : LeaderService V} (id : V)
      → s.attempt ≡ some (acquiring id)
      → ServiceStep uuid l s
          (acquire_script id s.ttl_ms l).0
          (record s { attempt = some (answered (some (acquire_script id s.ttl_ms l).1)) })
  loses_acquire :
      {l : Lock V} {s : LeaderService V} (id : V)
      → s.attempt ≡ some (acquiring id)
      → ServiceStep uuid l s
          (acquire_script id s.ttl_ms l).0
          (record s { attempt = some (answered none) })
  fails_acquire :
      {l : Lock V} {s : LeaderService V} (id : V)
      → s.attempt ≡ some (acquiring id)
      → ServiceStep uuid l s l (record s { attempt = some (answered none) })
  resumes_acquire :
      {l : Lock V} {s : LeaderService V} (reply : Option Bool)
      → s.attempt ≡ some (answered reply)
      → ServiceStep uuid l s l (resume_acquire reply s)
  serves_giving_back :
      {l : Lock V} {s : LeaderService V} (id : V)
      → s.attempt ≡ some (giving_back id)
      → ServiceStep uuid l s (release_script id l).0 (record s { attempt = some given_back })
  fails_giving_back :
      {l : Lock V} {s : LeaderService V} (id : V)
      → s.attempt ≡ some (giving_back id)
      → ServiceStep uuid l s l (record s { attempt = some given_back })
  resumes_giving_back :
      {l : Lock V} {s : LeaderService V}
      → s.attempt ≡ some given_back
      → ServiceStep uuid l s l (record s { attempt = none })
  retries :
      {l : Lock V} {s : LeaderService V} → s.retry_timer ≡ true → ServiceStep uuid l s l (retry s)
  ticks :
      {l : Lock V} {s : LeaderService V} → s.renew_timer ≡ true → ServiceStep uuid l s l (renew s)
  serves_renew :
      {l : Lock V} {s : LeaderService V} (id : V) (xs ys : List (Renewal V))
      → s.renewals ≡ xs ++ (renewing id ∷ ys)
      → ServiceStep uuid l s
          (renew_script id s.ttl_ms l).0
          (record s { renewals = xs ++ (renewed (some (renew_script id s.ttl_ms l).1) ∷ ys) })
  fails_renew :
      {l : Lock V} {s : LeaderService V} (id : V) (xs ys : List (Renewal V))
      → s.renewals ≡ xs ++ (renewing id ∷ ys)
      → ServiceStep uuid l s l (record s { renewals = xs ++ (renewed none ∷ ys) })
  resumes_renew :
      {l : Lock V} {s : LeaderService V} (reply : Option Bool) (k : ℕ) (xs ys : List (Renewal V))
      → s.renewals ≡ xs ++ (renewed reply ∷ ys)
      → ServiceStep uuid l s l (resume_renew reply (uuid k) (record s { renewals = xs ++ ys }))
  serves_release :
      {l : Lock V} {s : LeaderService V} (id : V)
      → s.release ≡ some (releasing id)
      → ServiceStep uuid l s (release_script id l).0 (record s { release = some released })
  fails_release :
      {l : Lock V} {s : LeaderService V} (id : V)
      → s.release ≡ some (releasing id)
      → ServiceStep uuid l s l (record s { release = some released })
  resumes_stop :
      {l : Lock V} {s : LeaderService V}
      → s.release ≡ some released
      → ServiceStep uuid l s l (resume_stop s)

-- A step of the services with numbers: one of them steps, and the others stay.
pub record Step {V : Type 0} ⦃e : Eq V⦄ (uuid : ℕ → ℕ → V) (l : Lock V) (ss : ℕ → LeaderService V)
    (k : Lock V) (ts : ℕ → LeaderService V) : Type 0 where
  pub n : ℕ
  pub steps : ServiceStep (uuid n) l (ss n) k (ts n)
  pub stay : (m : ℕ) → n ≢ m → ts m ≡ ss m

pub data Steps {V : Type 0} ⦃e : Eq V⦄ (uuid : ℕ → ℕ → V)
    : Lock V → (ℕ → LeaderService V) → Lock V → (ℕ → LeaderService V) → Type 0 where
  done : {l : Lock V} {ss : ℕ → LeaderService V} → Steps uuid l ss l ss
  more :
      {l k j : Lock V} {ss ts us : ℕ → LeaderService V}
      → Step uuid l ss k ts
      → Steps uuid k ts j us
      → Steps uuid l ss j us
