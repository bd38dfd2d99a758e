-- ===== src/Srpc/Client/Run/Connections.antt =====
-- Connecting and the end of a connection in src/srpc/SrpcClient.ts keep invocations settled once.
use dk_server_foundation.Common.{
  ℕ, String, refl, Bool, true, false, not, Option, none, some, [], ◌∷◌, ◌++◌, ◌+◌, ◌-◌, string_eq,
  nat_eq, if◌then◌else◌, includes, ltb, or_else, if-intro,
}
use dk_server_foundation.Srpc.Messages.{BaseMessage, SrpcDisconnectCause}
use dk_server_foundation.Srpc.Server.{is_ref}
use dk_server_foundation.Srpc.Client.{
  ConnectFailure, Effect, SrpcClient, emit, on_ws, write_message,
}
use dk_server_foundation.Srpc.Client.Connection.{
  reject_connect, clear_connect_timeout, clear_ping_interval, end_connection, connect,
  queue_reconnect, connect_timeout, disconnect, trigger_connection_check, handle_initial_handshake,
  handle_disconnect, do_ping_pong,
}
use dk_server_foundation.Srpc.Client.Run.Settled.{
  IsBalanced, IsSilent, AreBalanced-silent, AreBalanced-rejections, on_ws-IsBalanced,
  write_message-IsBalanced, maybe-AreBalanced,
}

module _ {J : Type 0} (c : SrpcClient J) (h : IsBalanced c) where
  pub reject_connect-IsBalanced : (f : ConnectFailure) → IsBalanced (reject_connect f c)
  reject_connect-IsBalanced f =
      maybe-AreBalanced c.connecting c.request_queue c.effects (Effect.connect_fails f)
        (λ id. (refl, refl)) h

  pub emit-IsBalanced : (e : Effect J) → IsSilent e → IsBalanced (emit (e ∷ []) c)
  emit-IsBalanced e s = AreBalanced-silent c.request_queue c.effects e s h

  pub queue_reconnect-IsBalanced : IsBalanced (queue_reconnect c)
  unfolding queue_reconnect
  queue_reconnect-IsBalanced = if-intro IsBalanced c.enable_reconnect _ c (λ _. h) (λ _. h)

  pub disconnect-IsBalanced : IsBalanced (disconnect c)
  unfolding disconnect
  disconnect-IsBalanced =
      on_ws-IsBalanced (λ ref. Effect.closes ref (some 1000))
        (clear_ping_interval (record c {
          enable_reconnect = false;
          intentional_disconnect = true;
          reconnecting = false;
        }))
        (λ ref id. (refl, refl)) h

  pub trigger_connection_check-IsBalanced :
      (is_open : Bool) (now : ℕ) → IsBalanced (trigger_connection_check is_open now c)
  unfolding trigger_connection_check
  trigger_connection_check-IsBalanced is_open now =
      if-intro IsBalanced c.is_connected _ c
        (λ _.
          write_message-IsBalanced is_open Effect.pings
            (record c { last_pong_ms = some (now - 20000) }) (λ ref id. (refl, refl)) h)
        (λ _. h)

  pub do_ping_pong-IsBalanced :
      (ref : ℕ) (is_open : Bool) (now : ℕ) → IsBalanced (do_ping_pong ref is_open now c)
  unfolding do_ping_pong
  do_ping_pong-IsBalanced ref is_open now =
      if-intro IsBalanced (not (includes c.ping_timers ref)) c _ (λ _. h)
        (λ _.
          if-intro IsBalanced (ltb (or_else c.last_pong_ms 0 + 75000) now) _ _
            (λ _. on_ws-IsBalanced (λ w. Effect.closes w (some 4003)) c (λ w id. (refl, refl)) h)
            (λ _. write_message-IsBalanced is_open Effect.pings c (λ w id. (refl, refl)) h))

module _ {J : Type 0} (c : SrpcClient J) (h : IsBalanced c) where
  pub connect-IsBalanced :
      (ref : ℕ) (id : String) (supersede : Bool) → IsBalanced (connect ref id supersede c)
  unfolding connect
  connect-IsBalanced ref id supersede =
      let rejected = reject_connect ConnectFailure.superseded c in
      emit-IsBalanced (on_ws (λ old. Effect.closes old none) rejected)
        (on_ws-IsBalanced (λ old. Effect.closes old none) rejected (λ w i. (refl, refl))
          (reject_connect-IsBalanced c h ConnectFailure.superseded))
        (Effect.opens ref supersede) (λ i. (refl, refl))

  pub connect_timeout-IsBalanced : (ref : ℕ) → IsBalanced (connect_timeout ref c)
  unfolding connect_timeout
  connect_timeout-IsBalanced ref =
      let rejected = reject_connect ConnectFailure.timed_out (clear_connect_timeout ref c) in
      if-intro IsBalanced (includes c.connect_timers ref) _ c
        (λ _. queue_reconnect-IsBalanced (emit (Effect.closes ref none ∷ []) rejected) (
          emit-IsBalanced rejected
            (reject_connect-IsBalanced (clear_connect_timeout ref c) h ConnectFailure.timed_out)
            (Effect.closes ref none) (λ i. (refl, refl))))
        (λ _. h)

  pub handle_initial_handshake-IsBalanced :
      (ref : ℕ) (m : Option (BaseMessage J)) (is_open : Bool) (now : ℕ)
      → IsBalanced (handle_initial_handshake ref m is_open now c)
  unfolding handle_initial_handshake
  handle_initial_handshake-IsBalanced ref m is_open now =
      let cleared = clear_connect_timeout ref c in
      let written =
        write_message is_open Effect.pings (record cleared { last_pong_ms = some now }) in
      if-intro IsBalanced (not (is_ref c.ws ref)) c _ (λ _. h)
        (λ _.
          if-intro IsBalanced _ (emit (Effect.closes ref none ∷ []) cleared) _
            (λ _. emit-IsBalanced cleared h (Effect.closes ref none) (λ i. (refl, refl)))
            (λ _.
              AreBalanced-silent written.request_queue
                (written.effects ++ (if c.connecting then Effect.connected ∷ [] else []))
                Effect.calls_connected (λ i. (refl, refl))
                (maybe-AreBalanced c.connecting written.request_queue written.effects
                  Effect.connected (λ i. (refl, refl))
                  (write_message-IsBalanced is_open Effect.pings
                    (record cleared { last_pong_ms = some now }) (λ w i. (refl, refl)) h))))

  pub handle_disconnect-IsBalanced :
      (cause : SrpcDisconnectCause) (suppress : Bool)
      → IsBalanced (handle_disconnect cause suppress c)
  unfolding handle_disconnect
  handle_disconnect-IsBalanced cause suppress =
      let base : SrpcClient J = if suppress then c else queue_reconnect c in
      let based : IsBalanced base =
        if-intro IsBalanced suppress c (queue_reconnect c) (λ _. h)
          (λ _. queue_reconnect-IsBalanced c h) in
      let rejected : SrpcClient J =
        reject_connect (ConnectFailure.failed cause) (clear_ping_interval base) in
      if-intro IsBalanced c.reconnecting c _ (λ _. h)
        (λ _.
          AreBalanced-rejections rejected.request_queue (end_connection cause rejected).effects (
            maybe-AreBalanced rejected.is_connected rejected.request_queue rejected.effects
              (Effect.calls_disconnected cause) (λ i. (refl, refl))
              (reject_connect-IsBalanced (clear_ping_interval base) based
                (ConnectFailure.failed cause))))
