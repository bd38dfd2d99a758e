-- ===== src/Srpc/Client/Run/Tests.antt =====
-- Runs of src/srpc/SrpcClient.ts's model at inputs: an invocation that is answered and one that is
-- not, and a second call of `connect` within ten seconds. The theorems at inputs.
use dk_server_foundation.Common.{
  ℕ, ◌≡◌, refl, true, false, none, some, List, [], ◌∷◌, ◌++◌, lookup, insert, delete, ◌+◌,
}
use dk_server_foundation.Srpc.Messages.{BaseMessage, SrpcDisconnectCause}
use dk_server_foundation.Srpc.Server.{close_code}
use dk_server_foundation.Srpc.Client.Connection.{parse_disconnect_cause}
use dk_server_foundation.Srpc.Client.Causes.{parse_disconnect_cause-close_code}
use dk_server_foundation.Srpc.Client.{Effect, SrpcClient, new, closes, opens}
use dk_server_foundation.Srpc.Client.Run.{
  Event, connects, connect_times_out, reconnects, receives, invokes, request_times_out, run,
}
use dk_server_foundation.Srpc.Client.Run.Settled.{asked, settled, waits}
use dk_server_foundation.Srpc.Client.Run.Balanced.{run-settled}
use dk_server_foundation.Srpc.Client.Run.Timers.{connect_times_out-reconnects}

abbrev ping : BaseMessage ℕ
ping = record {
  request_id = none;
  reply = false;
  error = none;
  user_error = false;
  ping_pong = true;
  byte_stream_operation = none;
  fields = [];
}

abbrev answer : BaseMessage ℕ
answer = record ping {
  request_id = some "a";
  reply = true;
  ping_pong = false;
  fields = ("uEchoResponse", 7) ∷ [];
}

-- Two invocations, of which the server answers the first.
abbrev calls : List (Event ℕ)
calls =
    connects 0 "s0" false
    ∷ (receives 0 (some ping) true 1000
        ∷ (invokes "a" "uEchoRequest" "uEchoResponse" 1 1001 30000 true
            ∷ (invokes "b" "uEchoRequest" "uEchoResponse" 2 1002 30000 true
                ∷ (receives 0 (some answer) true 1003 ∷ []))))

calls-effects : (run [] (new true) calls).effects ≡ (
    Effect.opens 0 false
    ∷ (Effect.pings 0
        ∷ (Effect.connected
            ∷ (Effect.calls_connected
                ∷ (Effect.asks "a"
                    ∷ (Effect.sends "a" "uEchoRequest" 1
                        ∷ (Effect.asks "b"
                            ∷ (Effect.sends "b" "uEchoRequest" 2
                                ∷ (Effect.resolves "a" 7 ∷ [])))))))))
unfolding run new lookup insert delete
calls-effects = refl

run-settled_example :
    (asked "b" (run [] (new true) calls).effects
      ≡ settled "b" (run [] (new true) calls).effects
        + waits "b" (run [] (new true) calls).request_queue)
    × (settled "b" (run [] (new true) (calls ++ (request_times_out "b" ∷ []))).effects
        ≡ asked "b" (run [] (new true) (calls ++ (request_times_out "b" ∷ []))).effects)
run-settled_example =
    run-settled [] true calls "b"
      (unfold run new lookup insert delete in (tt, (tt, (refl, (refl, (tt, tt))))))

-- Connected over socket 1, while the timer of socket 0 runs.
abbrev twice : SrpcClient ℕ
twice =
    run [] (new true)
      (connects 0 "s0" false ∷ (connects 1 "s1" false ∷ (receives 1 (some ping) true 1000 ∷ [])))

connect_times_out-reconnects_example :
    ((run [] twice (connect_times_out 0 ∷ (reconnects false 2 "s2" ∷ []))).effects
      ≡ ((twice.effects ++ (closes 0 none ∷ [])) ++ (closes 1 none ∷ [])) ++ (opens 2 false ∷ []))
    × (((run [] twice (connect_times_out 0 ∷ (reconnects false 2 "s2" ∷ []))).ws ≡ some 2)
        × ((run [] twice (connect_times_out 0 ∷ (reconnects false 2 "s2" ∷ []))).is_connected
            ≡ true))
connect_times_out-reconnects_example =
    connect_times_out-reconnects [] twice 0 1 2 "s2" (unfold run new in refl)
      (unfold run new in refl) (unfold run new in refl) (unfold run new in refl)
      (unfold run new in refl)

parse_disconnect_cause-close_code_example :
    parse_disconnect_cause (close_code SrpcDisconnectCause.conflict) ≡ SrpcDisconnectCause.conflict
parse_disconnect_cause-close_code_example =
    parse_disconnect_cause-close_code SrpcDisconnectCause.conflict
