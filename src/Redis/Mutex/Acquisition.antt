-- ===== src/Redis/Mutex/Acquisition.antt =====
-- When src/helpers/redis/mutex.ts takes a mutex, and how it ends where it does not.
use dk_server_foundation.Common.{ℕ, ◌≤◌, ◌<◌, ◌≡◌, Option, none, some, if◌then◌else◌, ltb, or_else}
use dk_server_foundation.Redis.Mutex.{
  MutexOptions, retry_count, retry_delay, Answer, refused, acquired, rejected, Outcome, runs,
  throws, fails,
}

abbrev pub Refused : (ℕ → Answer) → ℕ → Type 0
Refused answer n = (j : ℕ) → 0 < j → j ≤ n → answer j ≡ refused

abbrev pub Past : Option ℕ → ℕ → Type 0
Past deadline_ms now = (d : ℕ) → deadline_ms ≡ some d → d ≤ now

-- The function runs at the first attempt that succeeds, told whether there was one before it; the
-- error of Redis is thrown at the first attempt that rejects; the call throws its own error when all
-- attempts until the deadline were refused.
pub IsRight : (ℕ → Answer) → (ℕ → ℕ) → Option ℕ → Outcome → Type 0
IsRight answer clock deadline_ms (runs waited n) =
    (0 < n)
    × (answer n ≡ acquired)
    × ((j : ℕ) → 0 < j → j < n → answer j ≡ refused)
    × (waited ≡ ltb 1 n)
IsRight answer clock deadline_ms (throws n) =
    (0 < n) × Refused answer n × Past deadline_ms (clock n)
IsRight answer clock deadline_ms (fails n) =
    (0 < n) × (answer n ≡ rejected) × ((j : ℕ) → 0 < j → j < n → answer j ≡ refused)

abbrev pub tries : Outcome → ℕ
tries (runs waited n) = n
tries (throws n) = n
tries (fails n) = n

-- The most attempts there are: the retry count, but at least one, and one where the deadline is NaN.
abbrev pub limit : MutexOptions → ℕ
limit options = elim (retry_count options) [
  | none ↦ 1
  | some count ↦ elim (retry_delay options) [
    | none ↦ 1
    | some delay ↦ if ltb 0 count then count else 1
  ]
]

-- Each failed attempt takes at least the retry delay, where there is one.
abbrev pub least_delay : MutexOptions → ℕ
least_delay options = or_else (retry_delay options) 0
