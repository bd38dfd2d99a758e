-- ===== src/Redis/Mutex.antt =====
-- The mutexes of src/helpers/redis/mutex.ts: the attempts of `redisMutexExec` to take one, and
-- `withMutexes`, which takes several in turn. What Redis answers to each ACQUIRE, the clock, and
-- whether the function under one mutex is told that it waited are parameters.
pub mod Acquisition
pub mod Tests
use dk_server_foundation.Common.{
  ℕ, zero, suc, ◌+◌, ◌*◌, Bool, false, ◌||◌, Option, none, some, List, [], ◌∷◌, if◌then◌else◌, ltb,
  or_else,
}

-- The outer option is `none` for a key that the object lacks, the inner one for `undefined`.
pub record MutexOptions : Type 0 where
  pub retry_count : Option (Option ℕ)
  pub retry_delay : Option (Option ℕ)

-- `DefaultMutexOptions` under the caller's options: the spread lets an explicit `undefined` win.
unfoldable pub retry_count : MutexOptions → Option ℕ
retry_count options = or_else options.retry_count (some 30)

unfoldable pub retry_delay : MutexOptions → Option ℕ
retry_delay options = or_else options.retry_delay (some 1000)

-- What becomes of one ACQUIRE: 0, another number, or a rejected promise.
pub data Answer : Type 0 where
  refused acquired rejected : Answer

-- The function runs, told whether it waited; or a `MutexAcquisitionError` is thrown; or the error of
-- Redis is. Each with the number of attempts.
pub data Outcome : Type 0 where
  runs : Bool → ℕ → Outcome
  throws : ℕ → Outcome
  fails : ℕ → Outcome

-- `Date.now() + retryCount * retryDelay`; `none` is NaN.
unfoldable pub deadline : MutexOptions → ℕ → Option ℕ
unfolding retry_count retry_delay
deadline options now = elim (retry_count options) [
  | none ↦ none
  | some count ↦ elim (retry_delay options) [
    | none ↦ none
    | some delay ↦ some (now + count * delay)
  ]
]

-- `now < deadline`, which is false of NaN.
abbrev pub before : ℕ → Option ℕ → Bool
before now none = false
before now (some d) = ltb now d

-- The loop after n attempts; `answer k` is what becomes of ACQUIRE k, and `clock k` is the time when
-- attempt k has failed and its sleep is over. `none` is a loop that goes on past the fuel.
unfoldable pub attempt_loop : (ℕ → Answer) → (ℕ → ℕ) → Option ℕ → ℕ → ℕ → Option Outcome
attempt_loop answer clock deadline_ms zero n = none
attempt_loop answer clock deadline_ms (suc fuel) n =
    let attempts = n + 1 in
    let rest = attempt_loop answer clock deadline_ms fuel attempts in
    elim (answer attempts) [
      | rejected ↦ some (fails attempts)
      | acquired ↦ some (runs (ltb 1 attempts) attempts)
      | refused ↦ if before (clock attempts) deadline_ms then rest else some (throws attempts)
    ]

unfoldable pub redis_mutex_exec : MutexOptions → ℕ → (ℕ → Answer) → (ℕ → ℕ) → ℕ → Option Outcome
unfolding attempt_loop deadline
redis_mutex_exec options now answer clock fuel =
    attempt_loop answer clock (deadline options now) fuel 0

-- What `withMutexes` tells its function, for the first key and those after it, and the variable
-- `didAnyWait` of each of its calls, the outermost first: each call has one of its own.
unfoldable pub with_mutexes {ℓ} : {K : Type ℓ} → (K → Bool) → K → List K → Bool × List Bool
with_mutexes waited current_key [] =
    let did_any_wait = false || waited current_key in (did_any_wait, did_any_wait ∷ [])
with_mutexes waited current_key (key ∷ remaining_keys) =
    let did_any_wait = false || waited current_key in
    let inner = with_mutexes waited key remaining_keys in (inner.0, did_any_wait ∷ inner.1)
