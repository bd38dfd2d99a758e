-- ===== src/Srpc/Client/Run.antt =====
-- src/srpc/SrpcClient.ts as events on a client: its methods, its sockets' events, and its timers.
pub mod Settled
pub mod Connections
pub mod Answers
pub mod Balanced
pub mod Timers
pub mod Tests
use dk_server_foundation.Common.{
  ℕ, String, Bool, Option, List, [], ◌∷◌, ◌++◌, Map, ◌==◌, nat_eq, if◌then◌else◌, includes,
}
use dk_server_foundation.Srpc.Messages.{BaseMessage}
use dk_server_foundation.Srpc.Client.{SrpcClient}
use dk_server_foundation.Srpc.Client.Connection.{
  connect, connect_timeout, reconnect, disconnect, trigger_connection_check,
  handle_initial_handshake, handle_close, handle_error, do_ping_pong,
}
use dk_server_foundation.Srpc.Client.Requests.{handle_message, reply, invoke, request_timeout}

pub data Event (J : Type 0) : Type 0 where
  connects : ℕ → String → Bool → Event J
  connect_times_out : ℕ → Event J
  reconnects : Bool → ℕ → String → Event J
  disconnects : Event J
  checks : Bool → ℕ → Event J
  receives : ℕ → Option (BaseMessage J) → Bool → ℕ → Event J
  closes : ℕ → ℕ → Event J
  fails : ℕ → Event J
  ping_ticks : ℕ → Bool → ℕ → Event J
  handler_returns : String → String → J → Bool → Event J
  invokes : String → String → String → J → ℕ → ℕ → Bool → Event J
  request_times_out : String → Event J

module _ {J : Type 0} (handlers : Map String String) where
  -- The first message of a socket is the handshake; later ones are handled if it went well.
  unfoldable pub receive : ℕ → Option (BaseMessage J) → Bool → ℕ → SrpcClient J → SrpcClient J
  unfolding handle_initial_handshake handle_message
  receive ref m is_open now c =
      if includes c.spoken ref
      then if includes c.greeted ref then handle_message handlers m is_open now c else c
      else handle_initial_handshake ref m is_open now (record c { spoken = c.spoken ++ (ref ∷ []) })

  unfoldable pub step : SrpcClient J → Event J → SrpcClient J
  unfolding connect connect_timeout reconnect disconnect trigger_connection_check receive
      handle_close handle_error do_ping_pong reply invoke request_timeout
  step c (connects ref id supersede) = connect ref id supersede c
  step c (connect_times_out ref) = connect_timeout ref c
  step c (reconnects lost ref id) = reconnect lost ref id c
  step c disconnects = disconnect c
  step c (checks is_open now) = trigger_connection_check is_open now c
  step c (receives ref m is_open now) = receive ref m is_open now c
  step c (closes ref code) = handle_close ref code c
  step c (fails ref) = handle_error ref c
  step c (ping_ticks ref is_open now) = do_ping_pong ref is_open now c
  step c (handler_returns id key result is_open) = reply handlers id key result is_open c
  step c (invokes id type result_type value now timeout_ms is_open) =
      invoke id type result_type value now timeout_ms is_open c
  step c (request_times_out id) = request_timeout id c

  unfoldable pub run : SrpcClient J → List (Event J) → SrpcClient J
  unfolding step
  run c [] = c
  run c (e ∷ es) = run (step c e) es
