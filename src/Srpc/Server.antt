-- ===== src/Srpc/Server.antt =====
-- src/srpc/SrpcServer.ts: the streams of a server, from the upgraded connection to their end. The
-- stream objects are kept in a store under references, since the maps of the server, its pending
-- work and the sockets' handlers share them. Where `handleStreamEstablished` awaits a hook, its
-- `stage` says which. What goes out is recorded in `effects`, latest last: frames, closed sockets,
-- calls of handlers, and invocations that are settled. Logging and tracing are left out.
pub mod Lifecycle
pub mod Tracking
pub mod Requests
pub mod Run
use dk_server_foundation.Common.{
  ℕ, String, Bool, true, false, Option, none, some, List, [], ◌∷◌, ◌++◌, Map, lookup, insert,
  nat_eq, string_eq, if◌then◌else◌, ◌==◌,
}
use dk_server_foundation.Srpc.Messages.{BaseMessage, SrpcDisconnectCause, SrpcError}
use dk_server_foundation.Srpc.ByteStream.{Conn, init}

-- `IQueuedRequest`, with the key that the awaiting `invoke` reads its response from.
pub record QueuedRequest : Type 0 where
  pub exp : ℕ
  pub result_type : String

-- The hook that is awaited: `postEstablishCheck`, `onStreamConnected`, `onStreamActivated`.
pub data Stage : Type 0 where
  checking : Stage
  connecting : Stage
  activating : Stage
  over : Stage

abbrev pub same_stage : Stage → Stage → Bool
same_stage Stage.checking Stage.checking = true
same_stage Stage.connecting Stage.connecting = true
same_stage Stage.activating Stage.activating = true
same_stage Stage.over Stage.over = true
same_stage _ _ = false

-- What `verifyClient` leaves on the request.
pub record StreamInfo (J : Type 0) : Type 0 where
  pub client_stream_id : String
  pub client_id : String
  pub app_version : String
  pub configure_ts : ℕ
  pub protocol_version : ℕ
  pub supersede : Bool
  pub address : String
  pub meta : J

-- `last_ping_at` is `none` for the -1 of a stream that was cleaned up; `listening` says whether the
-- socket's messages are handled.
pub record SrpcStream (J : Type 0) : Type 0 where
  pub id : String
  pub info : StreamInfo J
  pub connected_at : ℕ
  pub is_activated : Bool
  pub last_ping_at : Option ℕ
  pub queue : Map String QueuedRequest
  pub byte_stream : Conn
  pub listening : Bool
  pub stage : Stage

-- Why an invocation of a client failed.
pub data Failure : Type 0 where
  disconnected : Failure
  invalid_response : Failure
  refused : SrpcError → Failure

pub data Effect (J : Type 0) : Type 0 where
  pings : ℕ → Effect J
  closes : ℕ → SrpcDisconnectCause → Effect J
  disconnects : ℕ → SrpcDisconnectCause → Effect J
  handles : ℕ → String → Option (String × J) → Effect J
  replies : ℕ → String → String → J → Effect J
  replies_error : ℕ → String → SrpcError → Effect J
  invokes : ℕ → String → String → J → Effect J
  resolves : String → J → Effect J
  rejects : String → Failure → Effect J

pub record SrpcServer (J : Type 0) : Type 0 where
  pub objects : Map ℕ (SrpcStream J)
  pub streams_by_id : Map String ℕ
  pub streams_by_client_id : Map String ℕ
  pub pending_streams_by_client_id : Map String ℕ
  pub blocked_client_requests : List ℕ
  pub pending_client_requests : Map ℕ (List (BaseMessage J))
  pub effects : List (Effect J)

-- `CLOSE_CODES`
unfoldable pub close_code : SrpcDisconnectCause → ℕ
close_code SrpcDisconnectCause.disconnect = 1000
close_code SrpcDisconnectCause.bad_arg = 4000
close_code SrpcDisconnectCause.conflict = 4001
close_code SrpcDisconnectCause.supersede = 4002
close_code SrpcDisconnectCause.timeout = 4003

abbrev pub is_ref : Option ℕ → ℕ → Bool
is_ref none ref = false
is_ref (some r) ref = r == ref

module _ {J : Type 0} where
  abbrev pub emit : List (Effect J) → SrpcServer J → SrpcServer J
  emit es s = record s { effects = s.effects ++ es }

  abbrev pub stream_of : ℕ → SrpcServer J → Option (SrpcStream J)
  stream_of ref s = lookup ref s.objects

  abbrev pub store : ℕ → SrpcStream J → SrpcServer J → SrpcServer J
  store ref stream s = record s { objects = insert ref stream s.objects }

  -- `lastPingAt < 0`
  abbrev pub is_gone : SrpcStream J → Bool
  is_gone stream = elim stream.last_ping_at [ none ↦ true | some _ ↦ false ]

  -- `getCurrentStreamByClientId` and `isCurrentStream`
  unfoldable pub get_current : String → SrpcServer J → Option ℕ
  get_current client_id s = elim (lookup client_id s.pending_streams_by_client_id) [
    | some ref ↦ some ref
    | none ↦ lookup client_id s.streams_by_client_id
  ]

  unfoldable pub is_current_stream : ℕ → SrpcStream J → SrpcServer J → Bool
  unfolding get_current
  is_current_stream ref stream s = is_ref (get_current stream.info.client_id s) ref

  -- The stream that `attachConnection` makes of an upgraded request.
  unfoldable pub new_stream : String → StreamInfo J → ℕ → SrpcStream J
  unfolding init
  new_stream id info now = record {
    id = id;
    info = info;
    connected_at = now;
    is_activated = false;
    last_ping_at = some now;
    queue = [];
    byte_stream =
        init 2 2
          (record { info = none; objects = []; next_ref = 0; sent = []; disconnect_handlers = [] });
    listening = false;
    stage = Stage.checking;
  }

  -- What is done with the object of a reference.
  abbrev pub with_stream :
      ℕ → (SrpcStream J → SrpcServer J → SrpcServer J) → SrpcServer J → SrpcServer J
  with_stream ref f s = elim (stream_of ref s) [ none ↦ s | some stream ↦ f stream s ]
