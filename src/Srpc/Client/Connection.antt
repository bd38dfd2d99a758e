-- ===== src/Srpc/Client/Connection.antt =====
-- src/srpc/SrpcClient.ts: connecting, and the end of a connection.
use dk_server_foundation.Common.{
  ℕ, String, Bool, true, false, not, ◌&&◌, Option, none, some, [], ◌∷◌, ◌++◌, map, ◌+◌, ◌-◌, ◌==◌,
  nat_eq, if◌then◌else◌, includes, ltb, or_else,
}
use dk_server_foundation.Srpc.Messages.{BaseMessage, SrpcDisconnectCause}
use dk_server_foundation.Srpc.ByteStream.{init}
use dk_server_foundation.Srpc.Server.{is_ref}
use dk_server_foundation.Srpc.Server.Lifecycle.{remove_ref}
use dk_server_foundation.Srpc.Client.{
  ConnectFailure, InvokeFailure, Effect, SrpcClient, emit, on_ws, write_message,
}

abbrev pub is_conflict : SrpcDisconnectCause → Bool
is_conflict SrpcDisconnectCause.conflict = true
is_conflict _ = false

-- `CLOSE_CAUSES`
unfoldable pub parse_disconnect_cause : ℕ → SrpcDisconnectCause
parse_disconnect_cause code =
    if code == 4000
    then SrpcDisconnectCause.bad_arg
    else if code == 4001
    then SrpcDisconnectCause.conflict
    else if code == 4002
    then SrpcDisconnectCause.supersede
    else if code == 4003
    then SrpcDisconnectCause.timeout
    else SrpcDisconnectCause.disconnect

module _ {J : Type 0} where
  -- `connectReject?.(...)`, and forgetting the promise.
  abbrev pub reject_connect : ConnectFailure → SrpcClient J → SrpcClient J
  reject_connect failure c = record c {
    connecting = false;
    effects = c.effects ++ (if c.connecting then Effect.connect_fails failure ∷ [] else []);
  }

  abbrev pub clear_connect_timeout : ℕ → SrpcClient J → SrpcClient J
  clear_connect_timeout ref c = record c { connect_timers = remove_ref ref c.connect_timers }

  abbrev pub clear_ping_interval : SrpcClient J → SrpcClient J
  clear_ping_interval c = record c {
    ping_interval = none;
    ping_timers = elim c.ping_interval [
      | none ↦ c.ping_timers
      | some ref ↦ remove_ref ref c.ping_timers
    ];
  }

  -- `ref` is the new socket and `id` the new `uuid7()`.
  unfoldable pub connect : ℕ → String → Bool → SrpcClient J → SrpcClient J
  unfolding init
  connect ref id supersede c =
      let alone =
        on_ws (λ old. Effect.closes old none) (reject_connect ConnectFailure.superseded c) in
      record (emit (Effect.opens ref supersede ∷ []) alone) {
        ws = some ref;
        reconnecting = false;
        intentional_disconnect = false;
        supersede = false;
        stream_id = id;
        byte_stream = init 1 2 c.byte_stream;
        connect_timers = c.connect_timers ++ (ref ∷ []);
        connecting = true;
      }

  unfoldable pub queue_reconnect : SrpcClient J → SrpcClient J
  queue_reconnect c =
      if c.enable_reconnect
      then record c {
        reconnecting = true;
        lost_timers = if c.reconnecting then c.lost_timers + 1 else c.lost_timers;
      }
      else c

  unfoldable pub connect_timeout : ℕ → SrpcClient J → SrpcClient J
  unfolding queue_reconnect
  connect_timeout ref c =
      if includes c.connect_timers ref
      then queue_reconnect (
          emit (Effect.closes ref none ∷ [])
            (reject_connect ConnectFailure.timed_out (clear_connect_timeout ref c)))
      else c

  -- The timer of `queueReconnect`: the one that is held, or a lost one, which makes that one lost.
  unfoldable pub reconnect : Bool → ℕ → String → SrpcClient J → SrpcClient J
  unfolding connect
  reconnect true ref id c =
      if ltb 0 c.lost_timers
      then connect ref id false (record c {
        reconnecting = false;
        lost_timers = if c.reconnecting then c.lost_timers else c.lost_timers - 1;
      })
      else c
  reconnect false ref id c =
      if c.reconnecting then connect ref id false (record c { reconnecting = false }) else c

  unfoldable pub disconnect : SrpcClient J → SrpcClient J
  disconnect c =
      on_ws (λ ref. Effect.closes ref (some 1000))
        (clear_ping_interval (record c {
          enable_reconnect = false;
          intentional_disconnect = true;
          reconnecting = false;
        }))

  unfoldable pub trigger_connection_check : Bool → ℕ → SrpcClient J → SrpcClient J
  trigger_connection_check is_open now c =
      if c.is_connected
      then write_message is_open Effect.pings (record c { last_pong_ms = some (now - 20000) })
      else c

  -- `handleInitialHandshake` for the first message that a socket receives.
  unfoldable pub handle_initial_handshake :
      ℕ → Option (BaseMessage J) → Bool → ℕ → SrpcClient J → SrpcClient J
  handle_initial_handshake ref m is_open now c =
      let pinged : Bool = elim m [ none ↦ false | some message ↦ message.ping_pong ] in
      let cleared = clear_connect_timeout ref c in
      let written =
        write_message is_open Effect.pings (record cleared { last_pong_ms = some now }) in
      if not (is_ref c.ws ref)
      then c
      else if not pinged
      then emit (Effect.closes ref none ∷ []) cleared
      else record written {
        is_connected = true;
        ping_interval = some ref;
        ping_timers = c.ping_timers ++ (ref ∷ []);
        connecting = false;
        effects =
            (written.effects ++ (if c.connecting then Effect.connected ∷ [] else []))
            ++ (Effect.calls_connected ∷ []);
        greeted = c.greeted ++ (ref ∷ []);
      }

  abbrev pub reject_requests : SrpcClient J → SrpcClient J
  reject_requests c = record c {
    effects =
        c.effects ++ map (λ item. Effect.rejects item.0 InvokeFailure.disconnected) c.request_queue;
    request_queue = [];
  }

  abbrev pub end_connection : SrpcDisconnectCause → SrpcClient J → SrpcClient J
  end_connection cause c = record c {
    is_connected = false;
    ws = none;
    effects = c.effects ++ (if c.is_connected then Effect.calls_disconnected cause ∷ [] else []);
  }

  unfoldable pub handle_disconnect : SrpcDisconnectCause → Bool → SrpcClient J → SrpcClient J
  unfolding queue_reconnect
  handle_disconnect cause suppress_reconnect c =
      if c.reconnecting
      then c
      else reject_requests (
          end_connection cause (
            reject_connect (ConnectFailure.failed cause)
              (clear_ping_interval (if suppress_reconnect then c else queue_reconnect c))))

  unfoldable pub handle_close : ℕ → ℕ → SrpcClient J → SrpcClient J
  unfolding handle_disconnect parse_disconnect_cause
  handle_close ref code c =
      let cause = parse_disconnect_cause code in
      let cleared = clear_connect_timeout ref c in
      if not (is_ref c.ws ref)
      then c
      else if not c.intentional_disconnect && is_conflict cause
      then handle_disconnect cause true (reject_connect ConnectFailure.refused cleared)
      else handle_disconnect cause false cleared

  unfoldable pub handle_error : ℕ → SrpcClient J → SrpcClient J
  unfolding handle_disconnect
  handle_error ref c =
      if not (is_ref c.ws ref)
      then c
      else handle_disconnect SrpcDisconnectCause.disconnect false
          (emit (Effect.terminates ref ∷ []) (clear_connect_timeout ref c))

  unfoldable pub do_ping_pong : ℕ → Bool → ℕ → SrpcClient J → SrpcClient J
  do_ping_pong ref is_open now c =
      if not (includes c.ping_timers ref)
      then c
      else if ltb (or_else c.last_pong_ms 0 + 75000) now
      then on_ws (λ w. Effect.closes w (some 4003)) c
      else write_message is_open Effect.pings c
