-- ===== src/Srpc/Server/Run/Order.antt =====
-- The waiting room for client requests in src/srpc/SrpcServer.ts.
use dk_server_foundation.Common.{
  ℕ, String, ◌≡◌, refl, sym, ap, ◌∙◌, subst, true, false, none, some, is_some, or_else, List, [],
  ◌∷◌, ◌++◌, map, append-nil, append_assoc, All, Map, lookup, delete, includes-filter_ne,
  lookup-insert_self, lookup-delete_self, nat_eq, string_eq, arith, nat_beq_iff,
}
use dk_server_foundation.Srpc.Messages.{BaseMessage, text_of}
use dk_server_foundation.Srpc.Server.{Effect, SrpcStream, SrpcServer, stream_of, emit, with_stream}
use dk_server_foundation.Srpc.Server.Lifecycle.{remove_ref}
use dk_server_foundation.Srpc.Server.Requests.{
  find_request, queue_request, must_wait, dispatch, handle_message, handle_stream_data_received,
  handle_each, open_client_requests,
}

-- A request with an id, and no frame of the framework itself.
pub record IsRequest {J : Type 0} (m : BaseMessage J) : Type 0 where
  pub no_ping : m.ping_pong ≡ false
  pub no_operation : m.byte_stream_operation ≡ none
  pub no_reply : m.reply ≡ false
  pub has_id : is_some (text_of m.request_id) ≡ true

module _ {J : Type 0} (handlers : Map String String) (ref : ℕ) where
  -- The handler that a request is given to.
  abbrev pub handled : BaseMessage J → Effect J
  handled m =
      Effect.handles ref (or_else (text_of m.request_id) "") (find_request handlers m.fields)

  abbrev pub waiting : SrpcServer J → List (BaseMessage J)
  waiting s = or_else (lookup ref s.pending_client_requests) []

  waits_one :
      (st : SrpcStream J) (m : BaseMessage J) (now : ℕ) (s : SrpcServer J)
      → must_wait ref st s ≡ true
      → IsRequest m
      → handle_stream_data_received handlers ref st m now s ≡ queue_request ref m s
  unfolding handle_stream_data_received handle_message
  waits_one st m now s w r = ground (arith, w, r.no_ping, r.no_operation, r.no_reply)

  handles_one :
      (st : SrpcStream J) (m : BaseMessage J) (now : ℕ) (s : SrpcServer J)
      → must_wait ref st s ≡ false
      → IsRequest m
      → handle_stream_data_received handlers ref st m now s ≡ emit (handled m ∷ []) s
  unfolding handle_stream_data_received handle_message dispatch
  handles_one st m now s w r = ground (arith, w, r.no_ping, r.no_operation, r.no_reply, r.has_id)

  -- Requests that arrive while they must wait.
  waits_each :
      (ms : List (BaseMessage J)) (now : ℕ) (st : SrpcStream J) (s : SrpcServer J)
      → stream_of ref s ≡ some st
      → must_wait ref st s ≡ true
      → All IsRequest ms
      → (waiting (handle_each handlers ref ms now s) ≡ waiting s ++ ms)
        × ((handle_each handlers ref ms now s).effects ≡ s.effects)
  unfolding handle_each
  waits_each [] now st s e w h = (sym (append-nil (waiting s)), refl)
  waits_each (m ∷ ms) now st s e w (r, h) =
      let one : with_stream ref (λ stream. handle_stream_data_received handlers ref stream m now) s
          ≡ queue_request ref m s =
        (rw (with_stream, e) refl) ∙ waits_one st m now s w r in
      let (queued, silent) =
        waits_each ms now st (queue_request ref m s) (unfold queue_request in e)
          (unfold queue_request in w) h in
      rw (handle_each, one)
        (
          queued
              ∙ (ap (λ q. q ++ ms)
                    (unfold queue_request in
                      rw (lookup-insert_self ref (waiting s ++ (m ∷ [])) s.pending_client_requests)
                        refl)
                  ∙ append_assoc (waiting s) (m ∷ []) ms),
          silent,
        )

  -- Requests that are let in.
  handles_each :
      (ms : List (BaseMessage J)) (now : ℕ) (st : SrpcStream J) (s : SrpcServer J)
      → stream_of ref s ≡ some st
      → must_wait ref st s ≡ false
      → All IsRequest ms
      → handle_each handlers ref ms now s ≡ emit (map handled ms) s
  unfolding handle_each
  handles_each [] now st s e w h = ap (λ es. record s { effects = es }) (sym (append-nil s.effects))
  handles_each (m ∷ ms) now st s e w (r, h) =
      let one : with_stream ref (λ stream. handle_stream_data_received handlers ref stream m now) s
          ≡ emit (handled m ∷ []) s =
        (rw (with_stream, e) refl) ∙ handles_one st m now s w r in
      rw (handle_each, one)
        (handles_each ms now st (emit (handled m ∷ []) s) e w h
          ∙ ap (λ es. record s { effects = es })
              (append_assoc s.effects (handled m ∷ []) (map handled ms)))

  -- Requests that arrive one after the other while a stream is not activated or its clients' requests
  -- are blocked have no effect; and in any later state in which they still wait behind no others, and
  -- where the stream is activated, opening the waiting room gives each to its handler once, in the
  -- order of arrival, and leaves none behind.
  pub open-queued :
      (ms : List (BaseMessage J)) (now later : ℕ) (st st' : SrpcStream J) (s s' : SrpcServer J)
      → stream_of ref s ≡ some st
      → must_wait ref st s ≡ true
      → waiting s ≡ []
      → All IsRequest ms
      → waiting s' ≡ waiting (handle_each handlers ref ms now s)
      → stream_of ref s' ≡ some st'
      → st'.is_activated ≡ true
      → ((handle_each handlers ref ms now s).effects ≡ s.effects)
        × ((open_client_requests handlers ref later s').effects ≡ s'.effects ++ map handled ms)
        × (waiting (open_client_requests handlers ref later s') ≡ [])
  unfolding open_client_requests
  open-queued ms now later st st' s s' e w empty h same e' act =
      let (queued, silent) = waits_each ms now st s e w h in
      let all_in : waiting s' ≡ ms = same ∙ (queued ∙ ap (λ q. q ++ ms) empty) in
      let opened : SrpcServer J = record s' {
        blocked_client_requests = remove_ref ref s'.blocked_client_requests;
        pending_client_requests = delete ref s'.pending_client_requests;
      } in
      let free : must_wait ref st' opened ≡ false =
        ground (
          arith,
          act,
          includes-filter_ne s'.blocked_client_requests ref ref,
          nat_beq_iff ref ref,
        ) in
      let handled_all : handle_each handlers ref (waiting s') later opened
          ≡ emit (map handled ms) opened =
        subst (λ q. handle_each handlers ref q later opened ≡ emit (map handled ms) opened)
          (sym all_in) (handles_each ms later st' opened e' free h) in
      (
        silent,
        ap (λ u. u.effects) handled_all,
        ap waiting handled_all
            ∙ ap (λ o. or_else o []) (lookup-delete_self ref s'.pending_client_requests),
      )
