-- ===== src/Srpc/Server/Run/Tests.antt =====
-- Runs of src/srpc/SrpcServer.ts's model at inputs: two connections of one client, requests that
-- arrive early, and a stream that ends. The theorems at inputs.
use dk_server_foundation.Common.{
  ℕ, String, ◌≡◌, refl, true, false, none, some, List, [], ◌∷◌, ◌++◌, Map, lookup, insert, delete,
  arith, map,
}
use dk_server_foundation.Srpc.Messages.{BaseMessage, SrpcDisconnectCause}
use dk_server_foundation.Srpc.Server.Lifecycle.{reject_all}
use dk_server_foundation.Srpc.Server.{Stage, Effect, StreamInfo, SrpcStream, SrpcServer, new_stream}
use dk_server_foundation.Srpc.Server.Requests.{handle_each, open_client_requests}
use dk_server_foundation.Srpc.Server.Tracking.{Tracks}
use dk_server_foundation.Srpc.Server.Run.{
  Event, attaches, checks, connects, activates, receives, ws_closes, looks_for_inactive, run,
}
use dk_server_foundation.Srpc.Server.Run.Routing.{IsRouted}
use dk_server_foundation.Srpc.Server.Run.Exclusive.{run-IsRouted}
use dk_server_foundation.Srpc.Server.Run.Order.{IsRequest, handled, waiting, open-queued}
use dk_server_foundation.Srpc.Server.Run.Resurrection.{ping-close_twice}

abbrev handlers : Map String String
handlers = ("uEchoRequest", "uEchoResponse") ∷ []

abbrev empty : SrpcServer ℕ
empty = record {
  objects = [];
  streams_by_id = [];
  streams_by_client_id = [];
  pending_streams_by_client_id = [];
  blocked_client_requests = [];
  pending_client_requests = [];
  effects = [];
}

abbrev info : StreamInfo ℕ
info = record {
  client_stream_id = "cs";
  client_id = "client";
  app_version = "1";
  configure_ts = 0;
  protocol_version = 2;
  supersede = true;
  address = "::1";
  meta = 0;
}

abbrev message : BaseMessage ℕ
message = record {
  request_id = none;
  reply = false;
  error = none;
  user_error = false;
  ping_pong = true;
  byte_stream_operation = none;
  fields = [];
}

abbrev request : String → ℕ → BaseMessage ℕ
request id value = record message {
  request_id = some id;
  ping_pong = false;
  fields = ("uEchoRequest", value) ∷ [];
}

empty-IsRouted : IsRouted empty
unfolding Tracks lookup
empty-IsRouted = record {
  ids = λ k r. ground arith;
  actives = λ k r. ground arith;
  pendings = λ k r. ground arith;
  exclusive = λ c r e. refl;
}

-- The second connection of the client takes the place of the first.
abbrev superseding : List (Event ℕ)
superseding =
    attaches 0 "s0" info 1000
    ∷ (checks 0 (some false)
        ∷ (connects 0 true ∷ (activates 0 true 1005 ∷ (attaches 1 "s1" info 2000 ∷ []))))

run-superseding : (run handlers empty superseding).effects ≡ (
    Effect.pings 0
    ∷ (Effect.closes 0 SrpcDisconnectCause.supersede
        ∷ (Effect.disconnects 0 SrpcDisconnectCause.supersede ∷ [])))
unfolding run lookup insert delete
run-superseding = refl

run-IsRouted_example : IsRouted (run handlers empty superseding)
run-IsRouted_example =
    run-IsRouted handlers empty superseding
      (unfold run lookup insert delete in ((refl, refl), (tt, (tt, (tt, ((refl, refl), tt))))))
      empty-IsRouted

-- A stream whose hooks have not returned.
abbrev early : SrpcServer ℕ
early = run handlers empty (attaches 0 "s0" info 1000 ∷ (checks 0 (some false) ∷ []))

-- The same stream once it was activated.
abbrev opening : SrpcServer ℕ
opening = run handlers empty (
    attaches 0 "s0" info 1000
    ∷ (checks 0 (some false)
        ∷ (receives 0 (some (request "a" 1)) 1001
            ∷ (receives 0 (some (request "b" 2)) 1002 ∷ (connects 0 true ∷ [])))))

abbrev requests : List (BaseMessage ℕ)
requests = request "a" 1 ∷ (request "b" 2 ∷ [])

abbrev connecting : SrpcStream ℕ
connecting = record (new_stream "s0" info 1000) { listening = true; stage = Stage.connecting }

abbrev activating : SrpcStream ℕ
activating = record connecting { is_activated = true; stage = Stage.activating }

request-IsRequest : (value : ℕ) → IsRequest (request "a" value) × IsRequest (request "b" value)
request-IsRequest value = (
  record { no_ping = refl; no_operation = refl; no_reply = refl; has_id = refl },
  record { no_ping = refl; no_operation = refl; no_reply = refl; has_id = refl },
)

open-queued_example :
    ((handle_each handlers 0 requests 1001 early).effects ≡ early.effects)
    × ((open_client_requests handlers 0 1010 opening).effects
        ≡ opening.effects ++ map (handled handlers 0) requests)
    × (waiting handlers 0 (open_client_requests handlers 0 1010 opening) ≡ [])
open-queued_example =
    open-queued handlers 0 requests 1001 1010 connecting activating early opening
      (unfold run lookup insert delete new_stream in refl)
      (unfold run lookup insert delete new_stream in refl) (unfold run lookup insert delete in refl)
      ((request-IsRequest 1).0, ((request-IsRequest 2).1, tt))
      (unfold run handle_each lookup insert delete in refl)
      (unfold run lookup insert delete new_stream in refl) refl

-- A stream that is terminated because it was silent for too long.
abbrev terminated : SrpcServer ℕ
terminated = run handlers empty (
    attaches 0 "s0" info 1000
    ∷ (checks 0 (some false)
        ∷ (connects 0 true ∷ (activates 0 true 1005 ∷ (looks_for_inactive 90000 ∷ [])))))

abbrev gone : SrpcStream ℕ
gone = record activating { stage = Stage.over; last_ping_at = none }

ping-close_twice_example :
    ((run handlers terminated (ws_closes 0 ∷ [])).effects ≡ terminated.effects)
    × ((run handlers terminated (receives 0 (some message) 90001 ∷ (ws_closes 0 ∷ []))).effects
        ≡ (terminated.effects ++ (Effect.pings 0 ∷ []))
          ++ (Effect.disconnects 0 SrpcDisconnectCause.disconnect ∷ reject_all gone.queue))
ping-close_twice_example =
    ping-close_twice handlers 0 gone message 90001 terminated
      (unfold run lookup insert delete new_stream in refl) refl refl refl
