-- ===== src/Redis/Leader/Safety.antt =====
-- What holds of every service of src/services/leader.ts in each run, and what the scripts do to the
-- locks of other services.
use dk_server_foundation.Common.{ℕ, ◌≡◌, ◌≢◌, refl, true, false, none, some, Eq, arith, ◌∙◌}
use dk_server_foundation.Redis.Locks.{Lock, holder, acquire_script, renew_script, release_script}
use dk_server_foundation.Redis.Leader.{LeaderService, acquiring, answered, giving_back, releasing}

-- What holds of one service, `owner` telling which service generated an id: its requests carry its
-- own ids; while it runs, it leads only with the lock held by its id and without an attempt, and an
-- attempt that succeeded holds the lock.
pub record IsSafe {V : Type 0} (owner : V → ℕ) (n : ℕ) (l : Lock V) (s : LeaderService V)
    : Type 0 where
  pub own : owner s.lock_id ≡ n
  pub own_attempt : (id : V) → s.attempt ≡ some (acquiring id) → owner id ≡ n
  pub own_back : (id : V) → s.attempt ≡ some (giving_back id) → owner id ≡ n
  pub own_release : (id : V) → s.release ≡ some (releasing id) → owner id ≡ n
  pub kept : s.running ≡ true → s.release ≡ none
  pub leading :
      s.running ≡ true → s.is_leader ≡ true → (s.attempt ≡ none) × (holder l ≡ some s.lock_id)
  pub asking : s.running ≡ true → (id : V) → s.attempt ≡ some (acquiring id) → id ≡ s.lock_id
  pub won : s.running ≡ true → s.attempt ≡ some (answered (some true)) → holder l ≡ some s.lock_id
  pub never_back : s.running ≡ true → (id : V) → s.attempt ≢ some (giving_back id)
  pub waiting :
      s.retry_timer ≡ true → (s.is_leader ≡ false) × (s.attempt ≡ none) × (s.running ≡ true)

module _ {V : Type 0} ⦃e : Eq V⦄ (owner : V → ℕ) where
  -- The holder stays, or nobody held the lock, or the holder was an id of the service that steps.
  abbrev pub KeepsOthers : ℕ → Lock V → Lock V → Type 0
  KeepsOthers n l k = (id : V) → n ≢ owner id → holder l ≡ some id → holder k ≡ some id

  pub acquire_script-KeepsOthers :
      (n : ℕ) (id : V) (ttl : ℕ) (l : Lock V) → KeepsOthers n l (acquire_script id ttl l).0
  unfolding acquire_script
  acquire_script-KeepsOthers n id ttl none = λ j h k. ground arith
  acquire_script-KeepsOthers n id ttl (some held) = λ j h k. k

  pub renew_script-holder :
      (id : V) (ttl : ℕ) (l : Lock V) → holder (renew_script id ttl l).0 ≡ holder l
  unfolding renew_script
  renew_script-holder id ttl none = refl
  renew_script-holder id ttl (some (v, t)) = ground (arith, e.beq_iff v id)

  pub release_script-KeepsOthers :
      (n : ℕ) (id : V) (l : Lock V) → owner id ≡ n → KeepsOthers n l (release_script id l).0
  unfolding release_script
  release_script-KeepsOthers n id none o = λ j h k. k
  release_script-KeepsOthers n id (some (v, t)) o = λ j h k. ground (arith, e.beq_iff v id)

  pub acquire_script-won :
      (id : V) (ttl : ℕ) (l : Lock V)
      → (acquire_script id ttl l).1 ≡ true
      → holder (acquire_script id ttl l).0 ≡ some id
  unfolding acquire_script
  acquire_script-won id ttl none h = refl
  acquire_script-won id ttl (some held) h = ground arith

  -- A safe service stays safe when another one steps.
  pub others-IsSafe :
      (n m : ℕ) (l k : Lock V) (s : LeaderService V)
      → n ≢ m
      → KeepsOthers n l k
      → IsSafe owner m l s
      → IsSafe owner m k s
  others-IsSafe n m l k s d f h = record {
    own = h.own;
    own_attempt = h.own_attempt;
    own_back = h.own_back;
    own_release = h.own_release;
    kept = h.kept;
    leading = λ r a. ((h.leading r a).0, f s.lock_id (λ q. d (q ∙ h.own)) (h.leading r a).1);
    asking = h.asking;
    won = λ r a. f s.lock_id (λ q. d (q ∙ h.own)) (h.won r a);
    never_back = h.never_back;
    waiting = h.waiting;
  }
