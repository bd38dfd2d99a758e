-- ===== src/DevConsole/Store/Ending.antt =====
-- The end of a mutex in src/devconsole/devconsole.store.ts: `updateMutexReleased` and
-- `updateMutexError`.
use dk_server_foundation.Common.{
  ℕ, String, ◌≡◌, refl, none, some, ◌≢◌, sub_ℕ, or_else, lookup-insert_self, lookup-delete_self,
  lookup, lookup-insert, nat_eq, string_eq, arith, nat_beq_iff,
}
use dk_server_foundation.DevConsole.Entries.{DevConsoleMutexEntry, MutexStatus}
use dk_server_foundation.DevConsole.Store.{
  DevConsoleStore, active_entry, end_entry, fail_entry, update_mutex_released, update_mutex_error,
}

module _ {J : Type 0} where
  -- What the end of an active mutex does: its entry has the status and the duration since it was
  -- acquired, or since it was requested if it never was; it is active no more; the ring buffer and
  -- the other entries stay.
  pub record Ended (id : String) (status : MutexStatus) (now : ℕ) (ref : ℕ)
      (e : DevConsoleMutexEntry) (s t : DevConsoleStore J) : Type 0 where
    pub shown :
        (f : DevConsoleMutexEntry) × (lookup ref t.entries ≡ some f)
        × (f.status ≡ status)
        × (f.duration_ms ≡ some (sub_ℕ now (or_else e.acquired_at e.started_at)))
    pub inactive : lookup id t.active_mutexes ≡ none
    pub buffer : t.mutex_entries ≡ s.mutex_entries
    pub others : (r : ℕ) → ref ≢ r → lookup r t.entries ≡ lookup r s.entries

  active_entry_lem :
      (id : String) (s : DevConsoleStore J) (ref : ℕ) (e : DevConsoleMutexEntry)
      → lookup id s.active_mutexes ≡ some ref
      → lookup ref s.entries ≡ some e
      → active_entry id s ≡ some (ref, e)
  unfolding active_entry
  active_entry_lem id s ref e a b = ground (arith, a, b)

  inactive-unchanged :
      (id text : String) (now : ℕ) (s : DevConsoleStore J)
      → lookup id s.active_mutexes ≡ none
      → (update_mutex_released id now s ≡ s) × (update_mutex_error id text now s ≡ s)
  unfolding active_entry update_mutex_released update_mutex_error
  inactive-unchanged id text now s a = (
    rw (update_mutex_released, active_entry, a) refl,
    rw (update_mutex_error, active_entry, a) refl,
  )

  released-Ended :
      (id : String) (now : ℕ) (s : DevConsoleStore J) (ref : ℕ) (e : DevConsoleMutexEntry)
      → active_entry id s ≡ some (ref, e)
      → Ended id MutexStatus.released now ref e s (update_mutex_released id now s)
  unfolding update_mutex_released
  released-Ended id now s ref e g =
      rw (update_mutex_released, g)
        (record {
          shown = (
            end_entry MutexStatus.released now e,
            lookup-insert_self ref _ s.entries,
            refl,
            refl,
          );
          inactive = lookup-delete_self id s.active_mutexes;
          buffer = refl;
          others = λ r n. ground (
            arith,
            lookup-insert ref r (end_entry MutexStatus.released now e) s.entries,
            nat_beq_iff ref r,
          );
        })

  errored-Ended :
      (id text : String) (now : ℕ) (s : DevConsoleStore J) (ref : ℕ) (e : DevConsoleMutexEntry)
      → active_entry id s ≡ some (ref, e)
      → Ended id MutexStatus.error now ref e s (update_mutex_error id text now s)
  unfolding update_mutex_error
  errored-Ended id text now s ref e g =
      rw (update_mutex_error, g)
        (record {
          shown = (fail_entry text now e, lookup-insert_self ref _ s.entries, refl, refl);
          inactive = lookup-delete_self id s.active_mutexes;
          buffer = refl;
          others = λ r n.
              ground
                (arith, lookup-insert ref r (fail_entry text now e) s.entries, nat_beq_iff ref r);
        })

  -- Releasing an active mutex ends its entry as released, failing it ends its entry as an error,
  -- and after either both calls change nothing for its id, whatever the time and the error.
  pub updates-Ended :
      (id text other : String) (now later : ℕ) (s : DevConsoleStore J) (ref : ℕ)
      (e : DevConsoleMutexEntry)
      → lookup id s.active_mutexes ≡ some ref
      → lookup ref s.entries ≡ some e
      → Ended id MutexStatus.released now ref e s (update_mutex_released id now s)
        × Ended id MutexStatus.error now ref e s (update_mutex_error id text now s)
        × (update_mutex_released id later (update_mutex_released id now s)
            ≡ update_mutex_released id now s)
        × (update_mutex_error id other later (update_mutex_released id now s)
            ≡ update_mutex_released id now s)
        × (update_mutex_released id later (update_mutex_error id text now s)
            ≡ update_mutex_error id text now s)
        × (update_mutex_error id other later (update_mutex_error id text now s)
            ≡ update_mutex_error id text now s)
  updates-Ended id text other now later s ref e a b =
      let g : active_entry id s ≡ some (ref, e) = active_entry_lem id s ref e a b in
      let released = released-Ended id now s ref e g in
      let errored = errored-Ended id text now s ref e g in
      let once =
        inactive-unchanged id other later (update_mutex_released id now s) released.inactive in
      let again =
        inactive-unchanged id other later (update_mutex_error id text now s) errored.inactive in
      (released, errored, once.0, once.1, again.0, again.1)
