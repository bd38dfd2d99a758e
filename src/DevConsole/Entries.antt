-- ===== src/DevConsole/Entries.antt =====
-- The entries that src/devconsole/devconsole.store.ts keeps. `J` is the type of the values that it
-- types `any`, or as records of headers: it only stores them.
use dk_server_foundation.Common.{ℕ, String, Bool, Option, List, ℤ}

-- The second constructor has the `cause`.
pub data DevConsoleErrorInfo (J : Type 0) : Type 0 where
  error_info : String → String → Option String → List (String × J) → DevConsoleErrorInfo J
  error_info_with :
      DevConsoleErrorInfo J
      → String
      → String
      → Option String
      → List (String × J)
      → DevConsoleErrorInfo J

pub record DevConsoleHttpEntry (J : Type 0) : Type 0 where
  pub id : String
  pub timestamp : ℕ
  pub method : String
  pub url : String
  pub remote_address : String
  pub request_headers : J
  pub request_body : Option String
  pub status_code : ℕ
  pub response_headers : J
  pub response_body : Option String
  pub duration_ms : ℕ
  pub error : Option (DevConsoleErrorInfo J)

pub data Direction : Type 0 where
  inbound : Direction
  outbound : Direction

pub record DevConsoleSrpcMessage (J : Type 0) : Type 0 where
  pub id : String
  pub timestamp : ℕ
  pub stream_id : String
  pub client_id : String
  pub direction : Direction
  pub message_type : String
  pub is_reply : Bool
  pub fields : List (String × J)
  pub error : Option String
  pub is_user_error : Option Bool

pub record DevConsoleSrpcConnection (J : Type 0) : Type 0 where
  pub stream_id : String
  pub client_id : String
  pub client_stream_id : String
  pub app_version : String
  pub address : String
  pub connected_at : ℕ
  pub last_ping_at : ℕ
  pub meta : List (String × J)
  pub message_count : ℕ

pub record DevConsoleSrpcDisconnection : Type 0 where
  pub stream_id : String
  pub client_id : String
  pub disconnected_at : ℕ
  pub cause : String

pub data QueryStatus : Type 0 where
  running : QueryStatus
  ok : QueryStatus
  error : QueryStatus

pub record DevConsoleDatabaseQueryEntry (J : Type 0) : Type 0 where
  pub id : String
  pub timestamp : ℕ
  pub sql : String
  pub params : List J
  pub status : QueryStatus
  pub duration_ms : Option ℕ
  pub error : Option String

pub data MutexStatus : Type 0 where
  pending : MutexStatus
  acquired : MutexStatus
  released : MutexStatus
  error : MutexStatus
  failed : MutexStatus

pub record DevConsoleMutexEntry : Type 0 where
  pub id : String
  pub key : String
  pub status : MutexStatus
  pub started_at : ℕ
  pub acquired_at : Option ℕ
  pub released_at : Option ℕ
  pub duration_ms : Option ℤ
  pub wait_duration_ms : Option ℤ
  pub waited : Option Bool
  pub error : Option String
