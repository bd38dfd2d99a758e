-- ===== src/DevConsole/Store.antt =====
-- The class `DevConsoleStore` of src/devconsole/devconsole.store.ts. A mutex entry is one object
-- that both the ring buffer and the map of active mutexes refer to, and that the updates change:
-- `entries` is the store of these objects, and a reference is a key of it. `now` is `Date.now()`.
-- `events` are the calls of the handler `onEvent`, with what they were given, latest first.
pub mod Mutexes
pub mod Ending
pub mod Tests
use dk_server_foundation.Common.{
  ℕ, String, Bool, false, Option, none, some, List, [], ◌∷◌, Map, lookup, insert, delete, string_eq,
  nat_eq, if◌then◌else◌, or_else, sub_ℕ,
}
use dk_server_foundation.DevConsole.RingBuffer.{RingBuffer, new as new_buffer, push, clear}
use dk_server_foundation.DevConsole.Entries.{
  DevConsoleHttpEntry, DevConsoleSrpcMessage, DevConsoleSrpcConnection, DevConsoleSrpcDisconnection,
  DevConsoleDatabaseQueryEntry, DevConsoleMutexEntry, MutexStatus,
}

pub data Event (J : Type 0) : Type 0 where
  http_entry : DevConsoleHttpEntry J → Event J
  srpc_message : DevConsoleSrpcMessage J → Event J
  srpc_connection : DevConsoleSrpcConnection J → Event J
  srpc_disconnection : DevConsoleSrpcDisconnection → Event J
  db_query : DevConsoleDatabaseQueryEntry J → Event J
  db_query_complete : DevConsoleDatabaseQueryEntry J → Event J
  mutex_pending : DevConsoleMutexEntry → Event J
  mutex_acquired : DevConsoleMutexEntry → Event J
  mutex_released : DevConsoleMutexEntry → Event J
  mutex_error : DevConsoleMutexEntry → Event J
  mutex_failed : DevConsoleMutexEntry → Event J

pub record DevConsoleStore (J : Type 0) : Type 0 where
  pub http_entries : RingBuffer (DevConsoleHttpEntry J)
  pub srpc_messages : RingBuffer (DevConsoleSrpcMessage J)
  pub srpc_connections : Map String (DevConsoleSrpcConnection J)
  pub srpc_disconnected : RingBuffer DevConsoleSrpcDisconnection
  pub db_queries : RingBuffer (DevConsoleDatabaseQueryEntry J)
  pub mutex_entries : RingBuffer ℕ
  pub active_mutexes : Map String ℕ
  pub started_at : ℕ
  pub has_handler : Bool
  pub entries : Map ℕ DevConsoleMutexEntry
  pub events : List (Event J)

-- The assignments of the three updates; `text` is the message of the error, or the text of what was
-- thrown.
abbrev pub acquire_entry : Bool → ℕ → DevConsoleMutexEntry → DevConsoleMutexEntry
acquire_entry waited now entry = record entry {
  status = MutexStatus.acquired;
  acquired_at = some now;
  wait_duration_ms = some (sub_ℕ now entry.started_at);
  waited = some waited;
}

abbrev pub end_entry : MutexStatus → ℕ → DevConsoleMutexEntry → DevConsoleMutexEntry
end_entry status now entry = record entry {
  status = status;
  released_at = some now;
  duration_ms = some (sub_ℕ now (or_else entry.acquired_at entry.started_at));
}

abbrev pub fail_entry : String → ℕ → DevConsoleMutexEntry → DevConsoleMutexEntry
fail_entry text now entry = record (end_entry MutexStatus.error now entry) { error = some text }

module _ {J : Type 0} where
  unfoldable pub new : ℕ → DevConsoleStore J
  new now = record {
    http_entries = new_buffer 500;
    srpc_messages = new_buffer 500;
    srpc_connections = [];
    srpc_disconnected = new_buffer 50;
    db_queries = new_buffer 500;
    mutex_entries = new_buffer 200;
    active_mutexes = [];
    started_at = now;
    has_handler = false;
    entries = [];
    events = [];
  }

  -- `this.onEvent?.(...)`
  abbrev pub on_event : Event J → DevConsoleStore J → DevConsoleStore J
  on_event e s = record s { events = if s.has_handler then e ∷ s.events else s.events }

  unfoldable pub add_http_entry : DevConsoleHttpEntry J → DevConsoleStore J → DevConsoleStore J
  add_http_entry entry s =
      on_event (http_entry entry) (record s { http_entries = push entry s.http_entries })

  unfoldable pub add_srpc_message : DevConsoleSrpcMessage J → DevConsoleStore J → DevConsoleStore J
  add_srpc_message msg s =
      on_event (srpc_message msg) (record s { srpc_messages = push msg s.srpc_messages })

  unfoldable pub add_srpc_connection :
      DevConsoleSrpcConnection J → DevConsoleStore J → DevConsoleStore J
  add_srpc_connection conn s =
      on_event (srpc_connection conn)
        (record s { srpc_connections = insert conn.stream_id conn s.srpc_connections })

  unfoldable pub remove_srpc_connection :
      String → String → String → ℕ → DevConsoleStore J → DevConsoleStore J
  remove_srpc_connection stream_id client_id cause now s =
      let disc : DevConsoleSrpcDisconnection = record {
        stream_id = stream_id;
        client_id = client_id;
        disconnected_at = now;
        cause = cause;
      } in
      on_event (srpc_disconnection disc) (record s {
        srpc_connections = delete stream_id s.srpc_connections;
        srpc_disconnected = push disc s.srpc_disconnected;
      })

  unfoldable pub clear_http_entries : DevConsoleStore J → DevConsoleStore J
  clear_http_entries s = record s { http_entries = clear s.http_entries }

  unfoldable pub clear_srpc_messages : DevConsoleStore J → DevConsoleStore J
  clear_srpc_messages s = record s {
    srpc_messages = clear s.srpc_messages;
    srpc_disconnected = clear s.srpc_disconnected;
  }

  unfoldable pub add_database_query :
      DevConsoleDatabaseQueryEntry J → DevConsoleStore J → DevConsoleStore J
  add_database_query entry s =
      on_event (db_query entry) (record s { db_queries = push entry s.db_queries })

  unfoldable pub complete_database_query :
      DevConsoleDatabaseQueryEntry J → DevConsoleStore J → DevConsoleStore J
  complete_database_query entry s = on_event (db_query_complete entry) s

  unfoldable pub clear_database_queries : DevConsoleStore J → DevConsoleStore J
  clear_database_queries s = record s { db_queries = clear s.db_queries }

  -- `ref` refers to the object `entry` that the caller passes.
  unfoldable pub add_mutex_pending :
      ℕ → DevConsoleMutexEntry → DevConsoleStore J → DevConsoleStore J
  add_mutex_pending ref entry s = on_event (mutex_pending entry) (record s {
    entries = insert ref entry s.entries;
    mutex_entries = push ref s.mutex_entries;
    active_mutexes = insert entry.id ref s.active_mutexes;
  })

  -- The object that an id is active with.
  unfoldable pub active_entry : String → DevConsoleStore J → Option (ℕ × DevConsoleMutexEntry)
  active_entry id s = elim (lookup id s.active_mutexes) [
    | none ↦ none
    | some ref ↦ elim (lookup ref s.entries) [ none ↦ none | some entry ↦ some (ref, entry) ]
  ]

  unfoldable pub update_mutex_acquired : String → Bool → ℕ → DevConsoleStore J → DevConsoleStore J
  update_mutex_acquired id waited now s = elim (active_entry id s) [
    | none ↦ s
    | some (ref, entry) ↦
        on_event (mutex_acquired (acquire_entry waited now entry))
          (record s { entries = insert ref (acquire_entry waited now entry) s.entries })
  ]

  unfoldable pub update_mutex_released : String → ℕ → DevConsoleStore J → DevConsoleStore J
  update_mutex_released id now s = elim (active_entry id s) [
    | none ↦ s
    | some (ref, entry) ↦
        on_event (mutex_released (end_entry MutexStatus.released now entry)) (record s {
          entries = insert ref (end_entry MutexStatus.released now entry) s.entries;
          active_mutexes = delete id s.active_mutexes;
        })
  ]

  unfoldable pub update_mutex_error : String → String → ℕ → DevConsoleStore J → DevConsoleStore J
  update_mutex_error id text now s = elim (active_entry id s) [
    | none ↦ s
    | some (ref, entry) ↦ on_event (mutex_error (fail_entry text now entry)) (record s {
      entries = insert ref (fail_entry text now entry) s.entries;
      active_mutexes = delete id s.active_mutexes;
    })
  ]

  unfoldable pub add_mutex_failed : ℕ → DevConsoleMutexEntry → DevConsoleStore J → DevConsoleStore J
  add_mutex_failed ref entry s =
      on_event (mutex_failed entry) (record s {
        entries = insert ref entry s.entries;
        mutex_entries = push ref s.mutex_entries;
      })

  -- The static `init` and `get`, over the static `instance`.
  unfoldable pub init :
      ℕ → Option (DevConsoleStore J) → Option (DevConsoleStore J) × DevConsoleStore J
  init now (some s) = (some s, s)
  init now none = (some (new now), new now)
