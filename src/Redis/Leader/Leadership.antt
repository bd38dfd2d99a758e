-- ===== src/Redis/Leader/Leadership.antt =====
-- `stop`, the renewals and the loss of leadership of src/services/leader.ts keep a service safe.
use dk_server_foundation.Common.{
  ℕ, ◌≡◌, refl, Bool, true, false, Option, none, some, List, [], ◌∷◌, ◌++◌, arith, Bool-cases,
  if-intro, inl, inr, ◌∙◌,
}
use dk_server_foundation.Redis.Locks.{Lock, holder}
use dk_server_foundation.Redis.Leader.{
  LeaderService, Renewal, renewing, Release, released, stop, resume_stop, renew, resume_renew,
  handle_lost_leadership,
}
use dk_server_foundation.Redis.Leader.Safety.{IsSafe}

module _ {V : Type 0} (owner : V → ℕ) (n : ℕ) where
  pub stop-IsSafe :
      (l : Lock V) (s : LeaderService V)
      → s.running ≡ true
      → IsSafe owner n l s
      → IsSafe owner n l (stop s)
  unfolding stop
  stop-IsSafe l s q h = elim (Bool-cases s.is_leader) [
    | inl r ↦ rw r (record {
      own = h.own;
      own_attempt = h.own_attempt;
      own_back = h.own_back;
      own_release = λ id x. ground (arith, h.own);
      kept = λ x. ground arith;
      leading = λ x. ground arith;
      asking = λ x. ground arith;
      won = λ x. ground arith;
      never_back = λ x. ground arith;
      waiting = λ x. ground arith;
    })
    | inr r ↦ rw r (record {
      own = h.own;
      own_attempt = h.own_attempt;
      own_back = h.own_back;
      own_release = h.own_release;
      kept = λ x. ground arith;
      leading = λ x. ground arith;
      asking = λ x. ground arith;
      won = λ x. ground arith;
      never_back = λ x. ground arith;
      waiting = λ x. ground arith;
    })
  ]

  pub lost-IsSafe :
      (l : Lock V) (s : LeaderService V) (id : V)
      → owner id ≡ n
      → IsSafe owner n l s
      → IsSafe owner n l (handle_lost_leadership id s)
  unfolding handle_lost_leadership
  lost-IsSafe l s id o h =
      if-intro (IsSafe owner n l) s.is_leader _ _
        (λ a. record {
          own = o;
          own_attempt = h.own_attempt;
          own_back = h.own_back;
          own_release = h.own_release;
          kept = h.kept;
          leading = λ x y. ground arith;
          asking = λ x id y. ground (arith, h.leading x a);
          won = λ x y. ground (arith, h.leading x a);
          never_back = h.never_back;
          waiting = λ x. elim (Bool-cases s.running) [
            | inl r ↦ (refl, (h.leading r a).0, r)
            | inr r ↦ ground (arith, r, h.waiting)
          ];
        })
        (λ a. h)

  pub renewed-IsSafe :
      (l : Lock V) (s : LeaderService V) (reply : Option Bool) (id : V)
      → owner id ≡ n
      → IsSafe owner n l s
      → IsSafe owner n l (resume_renew reply id s)
  unfolding resume_renew
  renewed-IsSafe l s (some true) id o h = h
  renewed-IsSafe l s (some false) id o h = lost-IsSafe l s id o h
  renewed-IsSafe l s none id o h = lost-IsSafe l s id o h

  pub renewals-IsSafe :
      (l k : Lock V) (s : LeaderService V) (xs : List (Renewal V))
      → holder k ≡ holder l
      → IsSafe owner n l s
      → IsSafe owner n k (record s { renewals = xs })
  renewals-IsSafe l k s xs q h = record {
    own = h.own;
    own_attempt = h.own_attempt;
    own_back = h.own_back;
    own_release = h.own_release;
    kept = h.kept;
    leading = λ x y. ((h.leading x y).0, q ∙ (h.leading x y).1);
    asking = h.asking;
    won = λ x y. q ∙ h.won x y;
    never_back = h.never_back;
    waiting = h.waiting;
  }

  pub renew-IsSafe :
      (l : Lock V) (s : LeaderService V) → IsSafe owner n l s → IsSafe owner n l (renew s)
  unfolding renew
  renew-IsSafe l s h =
      if-intro (IsSafe owner n l) s.running _ _
        (λ r. renewals-IsSafe l l s (s.renewals ++ (renewing s.lock_id ∷ [])) refl h) (λ r. h)

  -- The RELEASE of `stop` was served, or its answer arrived.
  pub release-IsSafe :
      (l k : Lock V) (s : LeaderService V) (x : Release V)
      → s.release ≡ some x
      → IsSafe owner n l s
      → IsSafe owner n k (record s { release = some released })
  release-IsSafe l k s x a h = record {
    own = h.own;
    own_attempt = h.own_attempt;
    own_back = h.own_back;
    own_release = λ id y. ground arith;
    kept = λ y. ground (arith, a, h.kept y);
    leading = λ y z. ground (arith, a, h.kept y);
    asking = h.asking;
    won = λ y z. ground (arith, a, h.kept y);
    never_back = h.never_back;
    waiting = h.waiting;
  }

  pub resume_stop-IsSafe :
      (l : Lock V) (s : LeaderService V)
      → s.release ≡ some released
      → IsSafe owner n l s
      → IsSafe owner n l (resume_stop s)
  unfolding resume_stop
  resume_stop-IsSafe l s a h = record {
    own = h.own;
    own_attempt = h.own_attempt;
    own_back = h.own_back;
    own_release = λ id y. ground arith;
    kept = λ y. refl;
    leading = λ y z. ground arith;
    asking = h.asking;
    won = h.won;
    never_back = h.never_back;
    waiting = λ y. (refl, (h.waiting y).1, (h.waiting y).2);
  }
