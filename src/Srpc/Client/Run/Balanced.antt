-- ===== src/Srpc/Client/Run/Balanced.antt =====
-- In every run of a client of src/srpc/SrpcClient.ts an invocation is settled once.
use dk_server_foundation.Common.{
  ℕ, String, ◌≡◌, refl, sym, subst, Bool, true, false, not, ◌&&◌, Option, none, List, [], ◌∷◌, ◌++◌,
  Map, lookup, has, ◌+◌, ◌-◌, string_eq, nat_eq, if◌then◌else◌, includes, ltb, if-intro, arith,
  lookup-delete,
}
use text.Mathlib.TextEquality.{eq_iff}
use dk_server_foundation.Srpc.Messages.{BaseMessage, SrpcDisconnectCause}
use dk_server_foundation.Srpc.Server.{is_ref}
use dk_server_foundation.Srpc.Client.{ConnectFailure, Effect, SrpcClient, new, emit}
use dk_server_foundation.Srpc.Client.Connection.{
  is_conflict, parse_disconnect_cause, reject_connect, clear_connect_timeout, reconnect,
  handle_close, handle_error,
}
use dk_server_foundation.Srpc.Client.Requests.{request_timeout}
use dk_server_foundation.Srpc.Client.Run.{
  Event, connects, connect_times_out, reconnects, disconnects, checks, receives, closes, fails,
  ping_ticks, handler_returns, invokes, request_times_out, receive, step, run,
}
use dk_server_foundation.Srpc.Client.Run.Settled.{asked, settled, waits, IsBalanced}
use dk_server_foundation.Srpc.Client.Run.Connections.{
  reject_connect-IsBalanced, emit-IsBalanced, disconnect-IsBalanced,
  trigger_connection_check-IsBalanced, do_ping_pong-IsBalanced, connect-IsBalanced,
  connect_timeout-IsBalanced, handle_initial_handshake-IsBalanced, handle_disconnect-IsBalanced,
}
use dk_server_foundation.Srpc.Client.Run.Answers.{
  reply-IsBalanced, handle_message-IsBalanced, invoke-IsBalanced, request_timeout-IsBalanced,
}

module _ {J : Type 0} where
  module _ (c : SrpcClient J) (h : IsBalanced c) where
    handle_close-IsBalanced : (ref code : ℕ) → IsBalanced (handle_close ref code c)
    unfolding handle_close
    handle_close-IsBalanced ref code =
        let cause = parse_disconnect_cause code in
        let cleared = clear_connect_timeout ref c in
        if-intro IsBalanced (not (is_ref c.ws ref)) c _ (λ _. h)
          (λ _.
            if-intro IsBalanced (not c.intentional_disconnect && is_conflict cause) _ _
              (λ _.
                handle_disconnect-IsBalanced (reject_connect ConnectFailure.refused cleared)
                  (reject_connect-IsBalanced cleared h ConnectFailure.refused) cause true)
              (λ _. handle_disconnect-IsBalanced cleared h cause false))

    handle_error-IsBalanced : (ref : ℕ) → IsBalanced (handle_error ref c)
    unfolding handle_error
    handle_error-IsBalanced ref =
        let cleared = clear_connect_timeout ref c in
        if-intro IsBalanced (not (is_ref c.ws ref)) c _ (λ _. h)
          (λ _.
            handle_disconnect-IsBalanced (emit (Effect.terminates ref ∷ []) cleared)
              (emit-IsBalanced cleared h (Effect.terminates ref) (λ i. (refl, refl)))
              SrpcDisconnectCause.disconnect false)

    reconnect-IsBalanced :
        (lost : Bool) (ref : ℕ) (id : String) → IsBalanced (reconnect lost ref id c)
    unfolding reconnect
    reconnect-IsBalanced true ref id =
        if-intro IsBalanced (ltb 0 c.lost_timers) _ c
          (λ _.
            connect-IsBalanced
              (record c {
                reconnecting = false;
                lost_timers = if c.reconnecting then c.lost_timers else c.lost_timers - 1;
              })
              h ref id false)
          (λ _. h)
    reconnect-IsBalanced false ref id =
        if-intro IsBalanced c.reconnecting _ c
          (λ _. connect-IsBalanced (record c { reconnecting = false }) h ref id false) (λ _. h)

    receive-IsBalanced :
        (handlers : Map String String) (ref : ℕ) (m : Option (BaseMessage J)) (is_open : Bool)
        (now : ℕ)
        → IsBalanced (receive handlers ref m is_open now c)
    unfolding receive
    receive-IsBalanced handlers ref m is_open now =
        if-intro IsBalanced (includes c.spoken ref) _ _
          (λ _.
            if-intro IsBalanced (includes c.greeted ref) _ c
              (λ _. handle_message-IsBalanced c h handlers m is_open now) (λ _. h))
          (λ _.
            handle_initial_handshake-IsBalanced (record c { spoken = c.spoken ++ (ref ∷ []) }) h ref
              m is_open now)

  -- An invocation has an id that no open one has.
  abbrev pub IsFresh : SrpcClient J → Event J → Type 0
  IsFresh c (invokes id type result_type value now timeout_ms is_open) =
      lookup id c.request_queue ≡ none
  IsFresh c _ = Unit

  abbrev pub AreFresh : Map String String → SrpcClient J → List (Event J) → Type 0
  AreFresh handlers c [] = Unit
  AreFresh handlers c (e ∷ es) = IsFresh c e × AreFresh handlers (step handlers c e) es

  step-IsBalanced :
      (handlers : Map String String) (c : SrpcClient J) (e : Event J)
      → IsFresh c e
      → IsBalanced c
      → IsBalanced (step handlers c e)
  unfolding step
  step-IsBalanced handlers c (connects ref id supersede) f h =
      connect-IsBalanced c h ref id supersede
  step-IsBalanced handlers c (connect_times_out ref) f h = connect_timeout-IsBalanced c h ref
  step-IsBalanced handlers c (reconnects lost ref id) f h = reconnect-IsBalanced c h lost ref id
  step-IsBalanced handlers c disconnects f h = disconnect-IsBalanced c h
  step-IsBalanced handlers c (checks is_open now) f h =
      trigger_connection_check-IsBalanced c h is_open now
  step-IsBalanced handlers c (receives ref m is_open now) f h =
      receive-IsBalanced c h handlers ref m is_open now
  step-IsBalanced handlers c (closes ref code) f h = handle_close-IsBalanced c h ref code
  step-IsBalanced handlers c (fails ref) f h = handle_error-IsBalanced c h ref
  step-IsBalanced handlers c (ping_ticks ref is_open now) f h =
      do_ping_pong-IsBalanced c h ref is_open now
  step-IsBalanced handlers c (handler_returns id key result is_open) f h =
      reply-IsBalanced c h handlers id key result is_open
  step-IsBalanced handlers c (invokes id type result_type value now timeout_ms is_open) f h =
      invoke-IsBalanced c h id type result_type value now timeout_ms is_open f
  step-IsBalanced handlers c (request_times_out id) f h = request_timeout-IsBalanced c h id

  run-IsBalanced :
      (handlers : Map String String) (c : SrpcClient J) (es : List (Event J))
      → AreFresh handlers c es
      → IsBalanced c
      → IsBalanced (run handlers c es)
  unfolding run
  run-IsBalanced handlers c [] f h = h
  run-IsBalanced handlers c (e ∷ es) f h =
      run-IsBalanced handlers (step handlers c e) es f.1 (step-IsBalanced handlers c e f.0 h)

  run-append :
      (handlers : Map String String) (c : SrpcClient J) (es : List (Event J)) (e : Event J)
      → run handlers c (es ++ (e ∷ [])) ≡ step handlers (run handlers c es) e
  unfolding run
  run-append handlers c [] e = refl
  run-append handlers c (x ∷ es) e = run-append handlers (step handlers c x) es e

  timed_out-waits :
      (id : String) (c : SrpcClient J) → waits id (request_timeout id c).request_queue ≡ 0
  unfolding request_timeout
  timed_out-waits id c =
      if-intro (λ u. waits id u.request_queue ≡ 0) (has id c.request_queue) _ c
        (λ _. ground (arith, lookup-delete id id c.request_queue, eq_iff id id))
        (λ e. ground (arith, e))

  -- In every run of a new client in which no invocation has the id of an open one, each invocation is
  -- settled once or waits in the queue, whatever connections come and go; and when its timer has
  -- fired, it is settled: as often as the id was asked for.
  pub run-settled :
      (handlers : Map String String) (enable : Bool) (es : List (Event J)) (id : String)
      → AreFresh handlers (new enable) es
      → (asked id (run handlers (new enable) es).effects
          ≡ settled id (run handlers (new enable) es).effects
            + waits id (run handlers (new enable) es).request_queue)
        × (settled id (run handlers (new enable) (es ++ (request_times_out id ∷ []))).effects
            ≡ asked id (run handlers (new enable) (es ++ (request_times_out id ∷ []))).effects)
  unfolding new step lookup
  run-settled handlers enable es id f =
      let balanced : IsBalanced (run handlers (new enable) es) =
        run-IsBalanced handlers (new enable) es f (tt, λ j. refl) in
      let c : SrpcClient J = run handlers (new enable) es in
      (
        balanced.1 id,
        subst (λ u. settled id u.effects ≡ asked id u.effects)
            (sym (run-append handlers (new enable) es (request_times_out id)))
            (ground (arith, (request_timeout-IsBalanced c balanced id).1 id, timed_out-waits id c)),
      )
