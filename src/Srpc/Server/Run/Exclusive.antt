-- ===== src/Srpc/Server/Run/Exclusive.antt =====
-- In every run of a server of src/srpc/SrpcServer.ts a client is reached by one stream at most.
use dk_server_foundation.Common.{
  ℕ, String, ◌≡◌, refl, inl, inr, Bool, true, false, Option, none, some, List, [], ◌∷◌, Map, lookup,
  nat_eq, string_eq, if◌then◌else◌, Option-cases, if-intro,
}
use dk_server_foundation.Srpc.Messages.{BaseMessage, SrpcDisconnectCause}
use dk_server_foundation.Srpc.ByteStream.Events.{disconnect}
use dk_server_foundation.Srpc.Server.{
  Stage, same_stage, SrpcStream, SrpcServer, is_gone, stream_of, new_stream,
}
use dk_server_foundation.Srpc.Server.Lifecycle.{
  attach_connection, after_check, after_connected, after_failure, terminate_inactive_streams, close,
  is_inactive,
}
use dk_server_foundation.Srpc.Server.Requests.{
  handle_stream_data_received, handle_ws_message, reply_to_request, reply_with_error, invoke,
}
use dk_server_foundation.Srpc.Server.Run.{
  Event, attaches, checks, connects, activates, receives, ws_closes, ws_fails, looks_for_inactive,
  closes_server, handler_returns, handler_throws, invokes, check_stream, connect_stream, ws_close,
  after_activated, activated_stream, receive, step, run,
}
use dk_server_foundation.Srpc.Server.Run.Routing.{IsRouted, cleanup_stream-IsRouted}
use dk_server_foundation.Srpc.Server.Run.Received.{received-IsRouted, after_activated-IsRouted}
use dk_server_foundation.Srpc.Server.Run.Hooks.{
  kept-IsRouted, established-IsRouted, after_check-IsRouted, after_failure-IsRouted,
  after_connected-IsRouted, with_stream-IsRouted, cleanup_each-IsRouted,
}

module _ {J : Type 0} where
  -- A new connection is a new object under a new id; no stream that was cleaned up is pinged.
  abbrev pub IsAdmissible : SrpcServer J → Event J → Type 0
  IsAdmissible s (attaches ref id info now) =
      (stream_of ref s ≡ none) × (lookup id s.streams_by_id ≡ none)
  IsAdmissible s (receives ref (some m) now) =
      m.ping_pong ≡ true → (st : SrpcStream J) → stream_of ref s ≡ some st → is_gone st ≡ false
  IsAdmissible s _ = Unit

  abbrev pub AreAdmissible : Map String String → SrpcServer J → List (Event J) → Type 0
  AreAdmissible handlers s [] = Unit
  AreAdmissible handlers s (e ∷ es) =
      IsAdmissible s e × AreAdmissible handlers (step handlers s e) es

  check_stream-IsRouted :
      (ref : ℕ) (answer : Option Bool) (st : SrpcStream J) (s : SrpcServer J)
      → stream_of ref s ≡ some st
      → IsRouted s
      → IsRouted (check_stream ref answer st s)
  unfolding check_stream
  check_stream-IsRouted ref (some rejected) st s q h =
      if-intro IsRouted (same_stage st.stage Stage.checking) (after_check ref st rejected s) s
        (λ _. after_check-IsRouted ref st rejected s q h) (λ _. h)
  check_stream-IsRouted ref none st s q h =
      if-intro IsRouted (same_stage st.stage Stage.checking) (after_failure ref st s) s
        (λ _. after_failure-IsRouted ref st s q h) (λ _. h)

  -- A stage that goes on if its hook returned, and fails otherwise.
  either-IsRouted :
      (ref : ℕ) (test returned : Bool) (st : SrpcStream J) (s t : SrpcServer J)
      → stream_of ref s ≡ some st
      → IsRouted t
      → IsRouted s
      → IsRouted (if test then if returned then t else after_failure ref st s else s)
  either-IsRouted ref test returned st s t q g h =
      if-intro IsRouted test (if returned then t else after_failure ref st s) s
        (λ _.
          if-intro IsRouted returned t (after_failure ref st s) (λ _. g)
            (λ _. after_failure-IsRouted ref st s q h))
        (λ _. h)

module _ {J : Type 0} (handlers : Map String String) where
  receive-IsRouted :
      (ref : ℕ) (m : Option (BaseMessage J)) (now : ℕ) (st : SrpcStream J) (s : SrpcServer J)
      → stream_of ref s ≡ some st
      → IsAdmissible s (receives ref m now)
      → IsRouted s
      → IsRouted (receive handlers ref m now st s)
  unfolding receive handle_ws_message
  receive-IsRouted ref none now st s q a h = if-intro IsRouted st.listening _ s (λ _. h) (λ _. h)
  receive-IsRouted ref (some m) now st s q a h =
      if-intro IsRouted st.listening (handle_stream_data_received handlers ref st m now s) s
        (λ _. received-IsRouted handlers ref st m now s q (λ p. a p st q) h) (λ _. h)

  step-IsRouted :
      (s : SrpcServer J) (e : Event J)
      → IsAdmissible s e
      → IsRouted s
      → IsRouted (step handlers s e)
  unfolding step attach_connection new_stream connect_stream activated_stream ws_close
      terminate_inactive_streams close reply_to_request reply_with_error invoke
  step-IsRouted s (attaches ref id info now) a h =
      established-IsRouted ref (new_stream id info now) s a.0 a.1 refl refl h
  step-IsRouted s (checks ref answer) a h =
      with_stream-IsRouted ref (check_stream ref answer) s
        (λ st q. check_stream-IsRouted ref answer st s q h) h
  step-IsRouted s (connects ref returned) a h =
      with_stream-IsRouted ref (connect_stream ref returned) s
        (λ st q.
          either-IsRouted ref (same_stage st.stage Stage.connecting) returned st s
            (after_connected ref st s) q (after_connected-IsRouted ref st s q h) h)
        h
  step-IsRouted s (activates ref returned now) a h =
      with_stream-IsRouted ref (activated_stream handlers ref returned now) s
        (λ st q.
          either-IsRouted ref (same_stage st.stage Stage.activating) returned st s
            (after_activated handlers ref st now s) q
            (after_activated-IsRouted handlers ref st now s q h) h)
        h
  step-IsRouted s (receives ref m now) a h =
      with_stream-IsRouted ref (receive handlers ref m now) s
        (λ st q. receive-IsRouted ref m now st s q a h) h
  step-IsRouted s (ws_closes ref) a h =
      with_stream-IsRouted ref (ws_close ref) s
        (λ st q. cleanup_stream-IsRouted ref none _ (
          kept-IsRouted ref st (record st { byte_stream = disconnect st.byte_stream }) s q refl refl
            refl refl h))
        h
  step-IsRouted s (ws_fails ref) a h = cleanup_stream-IsRouted ref none s h
  step-IsRouted s (looks_for_inactive now) a h =
      cleanup_each-IsRouted (is_inactive now) SrpcDisconnectCause.timeout s.streams_by_id s h
  step-IsRouted s closes_server a h =
      cleanup_each-IsRouted (λ _. true) SrpcDisconnectCause.disconnect s.streams_by_id s h
  step-IsRouted s (handler_returns ref request_id key result) a h =
      elim (Option-cases (lookup key handlers)) [
        | inl e ↦ rw (reply_to_request, e) h
        | inr (type, e) ↦ rw (reply_to_request, e) h
      ]
  step-IsRouted s (handler_throws ref request_id error) a h = h
  step-IsRouted s (invokes ref request_id request_type result_type value now timeout_ms) a h =
      with_stream-IsRouted ref (invoke ref request_id request_type result_type value now timeout_ms)
        s (λ st q. kept-IsRouted ref st _ s q refl refl refl refl h) h

  -- In every run of a server whose streams are reached by their ids, as in a new one, where new
  -- connections have new ids and no ping comes to a stream that was cleaned up: the maps by id and by
  -- client lead exactly to the live streams, activated and pending ones apart, and a client that has
  -- a pending stream has no activated one.
  pub run-IsRouted :
      (s : SrpcServer J) (es : List (Event J))
      → AreAdmissible handlers s es
      → IsRouted s
      → IsRouted (run handlers s es)
  unfolding run
  run-IsRouted s [] a h = h
  run-IsRouted s (e ∷ es) a h = run-IsRouted (step handlers s e) es a.1 (step-IsRouted s e a.0 h)
