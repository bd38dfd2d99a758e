-- ===== src/Srpc/Client.antt =====
-- src/srpc/SrpcClient.ts: the state of a client. Its sockets have references; handlers and timers of
-- a socket name it. What goes out and what is called is recorded in `effects`, latest last. The URL
-- of a connection, the handlers that byte streams attach to a socket, and logging are left out; a
-- secret for the URL is taken to be configured.
pub mod Connection
pub mod Requests
pub mod Run
pub mod Causes
use dk_server_foundation.Common.{
  ℕ, String, Bool, true, false, Option, none, some, List, [], ◌∷◌, ◌++◌, Map, ◌==◌, nat_eq,
  if◌then◌else◌, includes,
}
use dk_server_foundation.Srpc.Messages.{SrpcDisconnectCause}
use dk_server_foundation.Srpc.ByteStream.{Conn}
use dk_server_foundation.Srpc.Server.{QueuedRequest}

-- Why `connect` failed, and why an invocation did.
pub data ConnectFailure : Type 0 where
  superseded : ConnectFailure
  timed_out : ConnectFailure
  refused : ConnectFailure
  failed : SrpcDisconnectCause → ConnectFailure

pub data InvokeFailure : Type 0 where
  disconnected : InvokeFailure
  not_connected : InvokeFailure
  too_late : InvokeFailure
  invalid_response : InvokeFailure
  error : String → InvokeFailure

-- `closes` has the code that is given, if any.
pub data Effect (J : Type 0) : Type 0 where
  opens : ℕ → Bool → Effect J
  closes : ℕ → Option ℕ → Effect J
  terminates : ℕ → Effect J
  pings : ℕ → Effect J
  connected : Effect J
  connect_fails : ConnectFailure → Effect J
  calls_connected : Effect J
  calls_disconnected : SrpcDisconnectCause → Effect J
  handles : String → String → J → Effect J
  replies : String → String → J → Effect J
  replies_unhandled : String → Effect J
  asks : String → Effect J
  sends : String → String → J → Effect J
  resolves : String → J → Effect J
  rejects : String → InvokeFailure → Effect J

-- `connecting` is whether a promise of `connect` waits (`connectResolve`), `reconnecting` whether a
-- `reconnectionTimeout` runs, next to `lost_timers` that it was assigned over; `connect_timers` and `ping_timers` are the sockets whose timers run,
-- `spoken` those whose first message came, and `greeted` those whose further ones are handled.
pub record SrpcClient (J : Type 0) : Type 0 where
  pub ws : Option ℕ
  pub reconnecting : Bool
  pub lost_timers : ℕ
  pub ping_interval : Option ℕ
  pub ping_timers : List ℕ
  pub connect_timers : List ℕ
  pub spoken : List ℕ
  pub greeted : List ℕ
  pub last_pong_ms : Option ℕ
  pub request_queue : Map String QueuedRequest
  pub connecting : Bool
  pub enable_reconnect : Bool
  pub intentional_disconnect : Bool
  pub supersede : Bool
  pub stream_id : String
  pub is_connected : Bool
  pub byte_stream : Conn
  pub effects : List (Effect J)

module _ {J : Type 0} where
  -- The constructor, with `enableReconnect` of its options.
  unfoldable pub new : Bool → SrpcClient J
  new enable_reconnect = record {
    ws = none;
    reconnecting = false;
    lost_timers = 0;
    ping_interval = none;
    ping_timers = [];
    connect_timers = [];
    spoken = [];
    greeted = [];
    last_pong_ms = none;
    request_queue = [];
    connecting = false;
    enable_reconnect = enable_reconnect;
    intentional_disconnect = false;
    supersede = false;
    stream_id = "";
    is_connected = false;
    byte_stream = record {
      info = none;
      objects = [];
      next_ref = 0;
      sent = [];
      disconnect_handlers = [];
    };
    effects = [];
  }

  abbrev pub emit : List (Effect J) → SrpcClient J → SrpcClient J
  emit es c = record c { effects = c.effects ++ es }

  -- On the socket of the client, if it has one.
  abbrev pub on_ws : (ℕ → Effect J) → SrpcClient J → SrpcClient J
  on_ws f c = elim c.ws [ none ↦ c | some ref ↦ emit (f ref ∷ []) c ]

  -- `writeMessage`; `is_open` says whether the socket's `readyState` is OPEN and it takes the message.
  abbrev pub write_message : Bool → (ℕ → Effect J) → SrpcClient J → SrpcClient J
  write_message is_open f c = if is_open then on_ws f c else c

  abbrev pub is_sent : Bool → SrpcClient J → Bool
  is_sent is_open c = if is_open then elim c.ws [ none ↦ false | some _ ↦ true ] else false
