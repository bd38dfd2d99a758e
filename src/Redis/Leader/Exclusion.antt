-- ===== src/Redis/Leader/Exclusion.antt =====
-- At most one service of src/services/leader.ts leads, as long as the lock does not expire.
use dk_server_foundation.Common.{
  ℕ, ◌≡◌, ◌≢◌, refl, sym, true, none, some, ◌∷◌, ◌++◌, Eq, arith, nat_beq, nat_beq_iff, Bool-cases,
  inl, inr, ◌∙◌, ap, subst,
}
use dk_server_foundation.Redis.Locks.{Lock, holder, acquire_script, renew_script, release_script}
use dk_server_foundation.Redis.Leader.{
  LeaderService, LeaderServiceOptions, giving_back, given_back, renewed, releasing, new, retry,
}
use dk_server_foundation.Redis.Leader.Runs.{
  ServiceStep, starts, stops, serves_acquire, loses_acquire, fails_acquire, resumes_acquire,
  serves_giving_back, fails_giving_back, resumes_giving_back, retries, ticks, serves_renew,
  fails_renew, resumes_renew, serves_release, fails_release, resumes_stop, Steps, done, more,
}
use dk_server_foundation.Redis.Leader.Safety.{
  IsSafe, KeepsOthers, acquire_script-KeepsOthers, renew_script-holder, release_script-KeepsOthers,
  acquire_script-won, others-IsSafe,
}
use dk_server_foundation.Redis.Leader.Attempts.{
  tries-IsSafe, answered-IsSafe, start-IsSafe, over-IsSafe, acquired-IsSafe,
}
use dk_server_foundation.Redis.Leader.Leadership.{
  stop-IsSafe, renewed-IsSafe, renewals-IsSafe, renew-IsSafe, release-IsSafe, resume_stop-IsSafe,
}

module _ {V : Type 0} ⦃e : Eq V⦄ (owner : V → ℕ) where
  module _ (uuid : ℕ → V) (n : ℕ) (owned : (k : ℕ) → owner (uuid k) ≡ n) where
    ServiceStep-KeepsOthers :
        (l : Lock V) (s : LeaderService V) (k : Lock V) (t : LeaderService V)
        → ServiceStep uuid l s k t
        → IsSafe owner n l s
        → KeepsOthers owner n l k
    ServiceStep-KeepsOthers l s _ _ (starts q f) h = λ id d a. a
    ServiceStep-KeepsOthers l s _ _ (stops q) h = λ id d a. a
    ServiceStep-KeepsOthers l s _ _ (serves_acquire id q) h =
        acquire_script-KeepsOthers owner n id s.ttl_ms l
    ServiceStep-KeepsOthers l s _ _ (loses_acquire id q) h =
        acquire_script-KeepsOthers owner n id s.ttl_ms l
    ServiceStep-KeepsOthers l s _ _ (fails_acquire id q) h = λ id d a. a
    ServiceStep-KeepsOthers l s _ _ (resumes_acquire reply q) h = λ id d a. a
    ServiceStep-KeepsOthers l s _ _ (serves_giving_back id q) h =
        release_script-KeepsOthers owner n id l (h.own_back id q)
    ServiceStep-KeepsOthers l s _ _ (fails_giving_back id q) h = λ id d a. a
    ServiceStep-KeepsOthers l s _ _ (resumes_giving_back q) h = λ id d a. a
    ServiceStep-KeepsOthers l s _ _ (retries q) h = λ id d a. a
    ServiceStep-KeepsOthers l s _ _ (ticks q) h = λ id d a. a
    ServiceStep-KeepsOthers l s _ _ (serves_renew id xs ys q) h =
        λ j d a. renew_script-holder owner id s.ttl_ms l ∙ a
    ServiceStep-KeepsOthers l s _ _ (fails_renew id xs ys q) h = λ id d a. a
    ServiceStep-KeepsOthers l s _ _ (resumes_renew reply k xs ys q) h = λ id d a. a
    ServiceStep-KeepsOthers l s _ _ (serves_release id q) h =
        release_script-KeepsOthers owner n id l (h.own_release id q)
    ServiceStep-KeepsOthers l s _ _ (fails_release id q) h = λ id d a. a
    ServiceStep-KeepsOthers l s _ _ (resumes_stop q) h = λ id d a. a

    ServiceStep-IsSafe :
        (l : Lock V) (s : LeaderService V) (k : Lock V) (t : LeaderService V)
        → ServiceStep uuid l s k t
        → IsSafe owner n l s
        → IsSafe owner n k t
    unfolding retry
    ServiceStep-IsSafe l s _ t (starts q f) h = start-IsSafe owner n l s t q f h
    ServiceStep-IsSafe l s _ _ (stops q) h = stop-IsSafe owner n l s q h
    ServiceStep-IsSafe l s _ _ (serves_acquire id q) h =
        answered-IsSafe owner n l (acquire_script id s.ttl_ms l).0 s id
          (some (acquire_script id s.ttl_ms l).1) q
          (λ x. acquire_script-won owner id s.ttl_ms l (ground (arith, x))) h
    ServiceStep-IsSafe l s _ _ (loses_acquire id q) h =
        answered-IsSafe owner n l (acquire_script id s.ttl_ms l).0 s id none q
          (λ x. ground (arith, x)) h
    ServiceStep-IsSafe l s _ _ (fails_acquire id q) h =
        answered-IsSafe owner n l l s id none q (λ x. ground (arith, x)) h
    ServiceStep-IsSafe l s _ _ (resumes_acquire reply q) h = acquired-IsSafe owner n l s reply q h
    ServiceStep-IsSafe l s _ _ (serves_giving_back id q) h =
        (over-IsSafe owner n l (release_script id l).0 s (giving_back id) q h).0
    ServiceStep-IsSafe l s _ _ (fails_giving_back id q) h =
        (over-IsSafe owner n l l s (giving_back id) q h).0
    ServiceStep-IsSafe l s _ _ (resumes_giving_back q) h =
        (over-IsSafe owner n l l s given_back q h).1
    ServiceStep-IsSafe l s _ _ (retries q) h =
        tries-IsSafe owner n l s (h.waiting q).0 (h.waiting q).1 h
    ServiceStep-IsSafe l s _ _ (ticks q) h = renew-IsSafe owner n l s h
    ServiceStep-IsSafe l s _ _ (serves_renew id xs ys q) h =
        renewals-IsSafe owner n l (renew_script id s.ttl_ms l).0 s
          (xs ++ (renewed (some (renew_script id s.ttl_ms l).1) ∷ ys))
          (renew_script-holder owner id s.ttl_ms l) h
    ServiceStep-IsSafe l s _ _ (fails_renew id xs ys q) h =
        renewals-IsSafe owner n l l s (xs ++ (renewed none ∷ ys)) refl h
    ServiceStep-IsSafe l s _ _ (resumes_renew reply k xs ys q) h =
        renewed-IsSafe owner n l (record s { renewals = xs ++ ys }) reply (uuid k) (owned k)
          (renewals-IsSafe owner n l l s (xs ++ ys) refl h)
    ServiceStep-IsSafe l s _ _ (serves_release id q) h =
        release-IsSafe owner n l (release_script id l).0 s (releasing id) q h
    ServiceStep-IsSafe l s _ _ (fails_release id q) h =
        release-IsSafe owner n l l s (releasing id) q h
    ServiceStep-IsSafe l s _ _ (resumes_stop q) h = resume_stop-IsSafe owner n l s q h

  module _ (uuid : ℕ → ℕ → V) (owned : (n k : ℕ) → owner (uuid n k) ≡ n) where
    Steps-IsSafe :
        (l : Lock V) (ss : ℕ → LeaderService V) (k : Lock V) (ts : ℕ → LeaderService V)
        → Steps uuid l ss k ts
        → ((m : ℕ) → IsSafe owner m l (ss m))
        → (m : ℕ) → IsSafe owner m k (ts m)
    Steps-IsSafe l ss _ _ done h = h
    Steps-IsSafe l ss j us (more {k = k} {ts = ts} a rest) h = Steps-IsSafe k ts j us rest (λ m.
        elim (Bool-cases (nat_beq a.n m)) [
          | inl q ↦
              subst (λ i. IsSafe owner i k (ts i)) ((nat_beq_iff a.n m).0 q)
                (ServiceStep-IsSafe (uuid a.n) a.n (owned a.n) l (ss a.n) k (ts a.n) a.steps
                  (h a.n))
          | inr q ↦
              let d : a.n ≢ m = λ x. ground (arith, nat_beq_iff a.n m, x, q) in
              subst (λ u. IsSafe owner m k u) (sym (a.stay m d))
                (others-IsSafe owner a.n m l k (ss m) d
                  (ServiceStep-KeepsOthers (uuid a.n) a.n (owned a.n) l (ss a.n) k (ts a.n) a.steps
                    (h a.n))
                  (h m))
        ])

    new-IsSafe :
        (m k : ℕ) (options : LeaderServiceOptions) → IsSafe owner m none (new (uuid m k) options)
    unfolding new
    new-IsSafe m k options = record {
      own = owned m k;
      own_attempt = λ id x. ground arith;
      own_back = λ id x. ground arith;
      own_release = λ id x. ground arith;
      kept = λ x. refl;
      leading = λ x. ground arith;
      asking = λ x. ground arith;
      won = λ x. ground arith;
      never_back = λ x. ground arith;
      waiting = λ x. ground arith;
    }

    -- Where different services generate different ids (`owner` tells which service an id is of): in
    -- every run of new services on a free lock, where the lock does not expire, a service is started
    -- only while it neither leads nor has an attempt or a release pending, and stopped only while it
    -- runs: two services that run and lead are the same service, and its id holds the lock.
    pub leader_unique :
        (options : LeaderServiceOptions) (k : Lock V) (ts : ℕ → LeaderService V)
        → Steps uuid none (λ n. new (uuid n 0) options) k ts
        → (n m : ℕ) → (ts n).running ≡ true
        → (ts n).is_leader ≡ true
        → (ts m).running ≡ true
        → (ts m).is_leader ≡ true
        → (n ≡ m) × (holder k ≡ some (ts n).lock_id)
    leader_unique options k ts run n m a b c d =
        let safe : (i : ℕ) → IsSafe owner i k (ts i) =
          Steps-IsSafe none (λ i. new (uuid i 0) options) k ts run (λ i. new-IsSafe i 0 options) in
        let held = ((safe n).leading a b).1 in
        let held' = ((safe m).leading c d).1 in
        let same : (ts n).lock_id ≡ (ts m).lock_id = ground (arith, held, held') in
        (sym (safe n).own ∙ (ap owner same ∙ (safe m).own), held)
