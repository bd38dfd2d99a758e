-- ===== src/DevConsole/Store/Tests.antt =====
-- Runs of the mutex calls of src/devconsole/devconsole.store.ts, and their theorems at inputs.
use dk_server_foundation.Common.{ℕ, ◌≡◌, refl, none, lookup, insert}
use dk_server_foundation.DevConsole.Entries.{DevConsoleMutexEntry, MutexStatus}
use dk_server_foundation.DevConsole.Store.{
  DevConsoleStore, new, add_mutex_pending, update_mutex_released, update_mutex_error,
}
use dk_server_foundation.DevConsole.Store.Mutexes.{
  Steps, adds, releases, stop, more, IsTracked, Steps-IsTracked,
}
use dk_server_foundation.DevConsole.Store.Ending.{Ended, updates-Ended}

abbrev entry : DevConsoleMutexEntry
entry = record {
  id = "a";
  key = "orders";
  status = MutexStatus.pending;
  started_at = 10;
  acquired_at = none;
  released_at = none;
  duration_ms = none;
  wait_duration_ms = none;
  waited = none;
  error = none;
}

abbrev added : DevConsoleStore ℕ
added = add_mutex_pending 0 entry (new 5)

abbrev ended : DevConsoleStore ℕ
ended = update_mutex_released "a" 30 added

steps : Steps (new 5) ended
unfolding new lookup
steps = more (adds 0 entry refl refl refl) (more (releases "a" 30) stop)

Steps-IsTracked_example : IsTracked ended
Steps-IsTracked_example = Steps-IsTracked 5 ended steps

updates-Ended_example :
    Ended "a" MutexStatus.released 30 0 entry added ended
    × Ended "a" MutexStatus.error 30 0 entry added (update_mutex_error "a" "x" 30 added)
    × (update_mutex_released "a" 40 ended ≡ ended)
    × (update_mutex_error "a" "y" 40 ended ≡ ended)
    × (update_mutex_released "a" 40 (update_mutex_error "a" "x" 30 added)
        ≡ update_mutex_error "a" "x" 30 added)
    × (update_mutex_error "a" "y" 40 (update_mutex_error "a" "x" 30 added)
        ≡ update_mutex_error "a" "x" 30 added)
updates-Ended_example =
    updates-Ended "a" "x" "y" 30 40 added 0 entry
      (unfold add_mutex_pending new lookup insert in refl)
      (unfold add_mutex_pending new lookup insert in refl)
