-- ===== src/Srpc/Server/Run.antt =====
-- src/srpc/SrpcServer.ts as events on a server: connections, the hooks' answers, the sockets' events,
-- timers, and the calls of handlers and of `invoke`. An event about an object that does not exist,
-- or that the stream does not await, changes nothing.
pub mod Routing
pub mod Hooks
pub mod Received
pub mod Exclusive
pub mod Order
pub mod Resurrection
pub mod Tests
use dk_server_foundation.Common.{
  ℕ, String, Bool, true, false, not, ◌||◌, Option, none, some, List, [], ◌∷◌, Map, if◌then◌else◌,
}
use dk_server_foundation.Srpc.Messages.{BaseMessage, SrpcError}
use dk_server_foundation.Srpc.ByteStream.Events.{disconnect}
use dk_server_foundation.Srpc.Server.{
  Stage, same_stage, StreamInfo, SrpcStream, SrpcServer, stream_of, store, is_gone, with_stream,
}
use dk_server_foundation.Srpc.Server.Lifecycle.{
  attach_connection, after_check, after_connected, after_failure, to_stage, cleanup_stream,
  terminate_inactive_streams, close,
}
use dk_server_foundation.Srpc.Server.Requests.{
  handle_ws_message, open_client_requests, reply_to_request, reply_with_error, invoke,
}

pub data Event (J : Type 0) : Type 0 where
  attaches : ℕ → String → StreamInfo J → ℕ → Event J
  checks : ℕ → Option Bool → Event J
  connects : ℕ → Bool → Event J
  activates : ℕ → Bool → ℕ → Event J
  receives : ℕ → Option (BaseMessage J) → ℕ → Event J
  ws_closes : ℕ → Event J
  ws_fails : ℕ → Event J
  looks_for_inactive : ℕ → Event J
  closes_server : Event J
  handler_returns : ℕ → String → String → J → Event J
  handler_throws : ℕ → String → SrpcError → Event J
  invokes : ℕ → String → String → String → J → ℕ → ℕ → Event J

module _ {J : Type 0} where
  unfoldable pub check_stream : ℕ → Option Bool → SrpcStream J → SrpcServer J → SrpcServer J
  unfolding after_check after_failure
  check_stream ref answer stream s =
      if same_stage stream.stage Stage.checking
      then elim answer [
        | some rejected ↦ after_check ref stream rejected s
        | none ↦ after_failure ref stream s
      ]
      else s

  unfoldable pub connect_stream : ℕ → Bool → SrpcStream J → SrpcServer J → SrpcServer J
  unfolding after_connected after_failure
  connect_stream ref returned stream s =
      if same_stage stream.stage Stage.connecting
      then if returned then after_connected ref stream s else after_failure ref stream s
      else s

  -- The socket is closed: the server's handler, and those of the byte streams.
  unfoldable pub ws_close : ℕ → SrpcStream J → SrpcServer J → SrpcServer J
  unfolding cleanup_stream disconnect
  ws_close ref stream s =
      cleanup_stream ref none
        (store ref (record stream { byte_stream = disconnect stream.byte_stream }) s)

module _ {J : Type 0} (handlers : Map String String) where
  unfoldable pub after_activated : ℕ → SrpcStream J → ℕ → SrpcServer J → SrpcServer J
  unfolding open_client_requests
  after_activated ref stream now s =
      if is_gone stream || not stream.is_activated
      then store ref (to_stage Stage.over stream) s
      else open_client_requests handlers ref now (store ref (to_stage Stage.over stream) s)

  unfoldable pub activated_stream : ℕ → Bool → ℕ → SrpcStream J → SrpcServer J → SrpcServer J
  unfolding after_activated after_failure
  activated_stream ref returned now stream s =
      if same_stage stream.stage Stage.activating
      then if returned then after_activated ref stream now s else after_failure ref stream s
      else s

  unfoldable pub receive :
      ℕ → Option (BaseMessage J) → ℕ → SrpcStream J → SrpcServer J → SrpcServer J
  unfolding handle_ws_message
  receive ref m now stream s =
      if stream.listening then handle_ws_message handlers ref stream m now s else s

  unfoldable pub step : SrpcServer J → Event J → SrpcServer J
  unfolding attach_connection check_stream connect_stream activated_stream receive cleanup_stream
      ws_close terminate_inactive_streams close reply_to_request reply_with_error invoke
  step s (attaches ref id info now) = attach_connection ref id info now s
  step s (checks ref answer) = with_stream ref (check_stream ref answer) s
  step s (connects ref returned) = with_stream ref (connect_stream ref returned) s
  step s (activates ref returned now) = with_stream ref (activated_stream ref returned now) s
  step s (receives ref m now) = with_stream ref (receive ref m now) s
  step s (ws_closes ref) = with_stream ref (ws_close ref) s
  step s (ws_fails ref) = cleanup_stream ref none s
  step s (looks_for_inactive now) = terminate_inactive_streams now s
  step s closes_server = close s
  step s (handler_returns ref request_id key result) =
      reply_to_request handlers ref request_id key result s
  step s (handler_throws ref request_id error) = reply_with_error ref request_id error s
  step s (invokes ref request_id request_type result_type value now timeout_ms) =
      with_stream ref (invoke ref request_id request_type result_type value now timeout_ms) s

  unfoldable pub run : SrpcServer J → List (Event J) → SrpcServer J
  unfolding step
  run s [] = s
  run s (e ∷ es) = run (step s e) es
