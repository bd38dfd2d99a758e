-- ===== src/Redis/Leader/Attempts.antt =====
-- `start` and `tryAcquire` of src/services/leader.ts keep a service safe.
use dk_server_foundation.Common.{
  ℕ, ◌≡◌, refl, Bool, true, false, Option, none, some, arith, Bool-cases, if-intro, inl, inr, ◌∙◌,
  subst,
}
use dk_server_foundation.Redis.Locks.{Lock, holder}
use dk_server_foundation.Redis.Leader.{
  LeaderService, Attempt, acquiring, answered, given_back, try_acquire, start, resume_acquire,
  retry_later,
}
use dk_server_foundation.Redis.Leader.Runs.{IsQuiet}
use dk_server_foundation.Redis.Leader.Safety.{IsSafe}

module _ {V : Type 0} (owner : V → ℕ) (n : ℕ) where
  pub started-IsSafe :
      (l : Lock V) (s : LeaderService V)
      → IsQuiet s
      → s.running ≡ false
      → IsSafe owner n l s
      → IsSafe owner n l (record s { running = true; attempt = some (acquiring s.lock_id) })
  started-IsSafe l s q z h = record {
    own = h.own;
    own_attempt = λ id a. ground (arith, h.own);
    own_back = λ id a. ground arith;
    own_release = h.own_release;
    kept = λ r. q.no_release;
    leading = λ r a. ground (arith, q.not_leader);
    asking = λ r id a. ground arith;
    won = λ r a. ground arith;
    never_back = λ r id a. ground arith;
    waiting = λ a. ground (arith, z, h.waiting a);
  }

  pub tries-IsSafe :
      (l : Lock V) (s : LeaderService V)
      → s.is_leader ≡ false
      → s.attempt ≡ none
      → IsSafe owner n l s
      → IsSafe owner n l (try_acquire (record s { retry_timer = false }))
  unfolding try_acquire
  tries-IsSafe l s a b h = elim (Bool-cases s.running) [
    | inl r ↦ rw r (record {
      own = h.own;
      own_attempt = λ id x. ground (arith, h.own);
      own_back = λ id x. ground arith;
      own_release = h.own_release;
      kept = λ x. h.kept r;
      leading = λ r x. ground (arith, a);
      asking = λ r id x. ground arith;
      won = λ r x. ground arith;
      never_back = λ r id x. ground arith;
      waiting = λ x. ground arith;
    })
    | inr r ↦ rw r (record {
      own = h.own;
      own_attempt = h.own_attempt;
      own_back = h.own_back;
      own_release = h.own_release;
      kept = λ x. h.kept (r ∙ x);
      leading = λ x. h.leading (r ∙ x);
      asking = λ x. h.asking (r ∙ x);
      won = λ x. h.won (r ∙ x);
      never_back = λ x. h.never_back (r ∙ x);
      waiting = λ x. ground arith;
    })
  ]

  -- The attempt is over, or answered with anything but success, or successful and the holder.
  pub answered-IsSafe :
      (l k : Lock V) (s : LeaderService V) (id : V) (reply : Option Bool)
      → s.attempt ≡ some (acquiring id)
      → (reply ≡ some true → holder k ≡ some id)
      → IsSafe owner n l s
      → IsSafe owner n k (record s { attempt = some (answered reply) })
  answered-IsSafe l k s id reply a f h = record {
    own = h.own;
    own_attempt = λ j x. ground arith;
    own_back = λ j x. ground arith;
    own_release = h.own_release;
    kept = h.kept;
    leading = λ r x. ground (arith, a, h.leading);
    asking = λ r j x. ground arith;
    won = λ r x. ground (arith, h.asking r id a, f);
    never_back = λ r j x. ground arith;
    waiting = λ x. ground (arith, a, h.waiting);
  }

  pub start-IsSafe :
      (l : Lock V) (s t : LeaderService V)
      → IsQuiet s
      → start s ≡ some t
      → IsSafe owner n l s
      → IsSafe owner n l t
  unfolding start try_acquire
  start-IsSafe l s t q f h = elim (Bool-cases s.running) [
    | inl r ↦ absurd (ground (arith, r))
    | inr r ↦
        let same : record s { running = true; attempt = some (acquiring s.lock_id) } ≡ t =
          ground (arith, r) in
        subst (λ u. IsSafe owner n l u) same (started-IsSafe l s q r h)
  ]

  -- An attempt that is over, whatever Redis did to the lock.
  pub over-IsSafe :
      (l k : Lock V) (s : LeaderService V) (x : Attempt V)
      → s.attempt ≡ some x
      → IsSafe owner n l s
      → IsSafe owner n k (record s { attempt = some given_back })
        × IsSafe owner n k (record s { attempt = none })
  over-IsSafe l k s x a h = (
    record {
      own = h.own;
      own_attempt = λ id y. ground arith;
      own_back = λ id y. ground arith;
      own_release = h.own_release;
      kept = h.kept;
      leading = λ y z. ground (arith, a, h.leading y z);
      asking = λ y id z. ground arith;
      won = λ y z. ground arith;
      never_back = λ y id z. ground arith;
      waiting = λ y. ground (arith, a, h.waiting y);
    },
    record {
      own = h.own;
      own_attempt = λ id y. ground arith;
      own_back = λ id y. ground arith;
      own_release = h.own_release;
      kept = h.kept;
      leading = λ y z. ground (arith, a, h.leading y z);
      asking = λ y id z. ground arith;
      won = λ y z. ground arith;
      never_back = λ y id z. ground arith;
      waiting = λ y. ground (arith, a, h.waiting y);
    },
  )

  pub armed-IsSafe :
      (l : Lock V) (s : LeaderService V)
      → s.running ≡ true
      → s.is_leader ≡ false
      → s.attempt ≡ none
      → IsSafe owner n l s
      → IsSafe owner n l (record s { retry_timer = true })
  armed-IsSafe l s r a b h = record {
    own = h.own;
    own_attempt = h.own_attempt;
    own_back = h.own_back;
    own_release = h.own_release;
    kept = h.kept;
    leading = h.leading;
    asking = h.asking;
    won = h.won;
    never_back = h.never_back;
    waiting = λ x. (a, b, r);
  }

  pub refused-IsSafe :
      (l : Lock V) (s : LeaderService V) (reply : Option Bool)
      → s.attempt ≡ some (answered reply)
      → IsSafe owner n l s
      → IsSafe owner n l (retry_later (record s { attempt = none }))
  refused-IsSafe l s reply a h =
      let over : IsSafe owner n l (record s { attempt = none }) =
        (over-IsSafe l l s (answered reply) a h).1 in
      if-intro (IsSafe owner n l) s.running _ _
        (λ r.
          armed-IsSafe l (record s { attempt = none }) r
            (elim (Bool-cases s.is_leader) [ inl b ↦ ground (arith, a, h.leading r b) | inr b ↦ b ])
            refl over)
        (λ r. over)

  pub acquired-IsSafe :
      (l : Lock V) (s : LeaderService V) (reply : Option Bool)
      → s.attempt ≡ some (answered reply)
      → IsSafe owner n l s
      → IsSafe owner n l (resume_acquire reply s)
  unfolding resume_acquire
  acquired-IsSafe l s (some true) a h = elim (Bool-cases s.running) [
    | inl r ↦ rw r (record {
      own = h.own;
      own_attempt = λ id x. ground arith;
      own_back = λ id x. ground arith;
      own_release = h.own_release;
      kept = λ x. h.kept r;
      leading = λ x y. (refl, h.won r a);
      asking = λ x id y. ground arith;
      won = λ x y. ground arith;
      never_back = λ x id y. ground arith;
      waiting = λ x. ground (arith, h.waiting x);
    })
    | inr r ↦ rw r (record {
      own = h.own;
      own_attempt = λ id x. ground arith;
      own_back = λ id x. ground (arith, h.own);
      own_release = h.own_release;
      kept = λ x. h.kept (r ∙ x);
      leading = λ x. ground arith;
      asking = λ x. ground arith;
      won = λ x. ground arith;
      never_back = λ x. ground arith;
      waiting = λ x. ground (arith, h.waiting x);
    })
  ]
  acquired-IsSafe l s (some false) a h = refused-IsSafe l s (some false) a h
  acquired-IsSafe l s none a h = refused-IsSafe l s none a h
