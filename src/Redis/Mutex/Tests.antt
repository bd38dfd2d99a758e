-- ===== src/Redis/Mutex/Tests.antt =====
-- Runs of src/helpers/redis/mutex.ts, and its theorems at inputs.
use dk_server_foundation.Common.{
  ℕ, ◌+◌, ◌*◌, ◌≡◌, refl, true, false, none, some, [], ◌∷◌, ltb, if◌then◌else◌,
}
use dk_server_foundation.Redis.Mutex.{
  MutexOptions, retry_count, retry_delay, Answer, refused, acquired, rejected, runs, fails, throws,
  deadline, attempt_loop, redis_mutex_exec, with_mutexes,
}

abbrev options : MutexOptions
options = record { retry_count = some (some 3); retry_delay = some (some 10) }

-- The third attempt succeeds.
abbrev third : ℕ → Answer
third k = if ltb 2 k then acquired else refused

-- The second attempt meets an error of Redis.
abbrev broken : ℕ → Answer
broken k = if ltb 1 k then rejected else refused

abbrev clock : ℕ → ℕ
clock k = 100 + k * 10

third_runs : redis_mutex_exec options 100 third clock 3 ≡ some (runs true 3)
unfolding redis_mutex_exec attempt_loop deadline retry_count retry_delay
third_runs = refl

broken_fails : redis_mutex_exec options 100 broken clock 3 ≡ some (fails 2)
unfolding redis_mutex_exec attempt_loop deadline retry_count retry_delay
broken_fails = refl

-- With an explicit `undefined` there is one attempt.
undefined_throws :
    redis_mutex_exec (record { retry_count = some none; retry_delay = none }) 100 third clock 3
    ≡ some (throws 1)
unfolding redis_mutex_exec attempt_loop deadline retry_count retry_delay
undefined_throws = refl

-- It waited for the first key only, and is told that it did not wait.
forgets_wait : with_mutexes (λ k. ltb k 2) 1 (2 ∷ (3 ∷ [])) ≡ (false, true ∷ (false ∷ (false ∷ [])))
unfolding with_mutexes
forgets_wait = refl
