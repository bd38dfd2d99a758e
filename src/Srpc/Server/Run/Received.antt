-- ===== src/Srpc/Server/Run/Received.antt =====
-- The messages that src/srpc/SrpcServer.ts receives keep the streams reached by their ids.
use dk_server_foundation.Common.{
  ℕ, String, ◌≡◌, refl, or_else, sym, subst, inl, inr, true, false, not, ◌&&◌, ◌||◌, some, List, [],
  ◌∷◌, Map, lookup, delete, lookup-insert_self, nat_eq, string_eq, arith, Option-cases, if-intro,
}
use dk_server_foundation.Srpc.Messages.{BaseMessage, text_of}
use dk_server_foundation.Srpc.Server.{
  Effect, Stage, SrpcStream, SrpcServer, is_gone, store, stream_of, with_stream,
}
use dk_server_foundation.Srpc.Server.Lifecycle.{remove_ref, to_stage}
use dk_server_foundation.Srpc.Server.Requests.{
  handle_stream_data_received, handle_message, dispatch, handle_reply, queue_request, handle_each,
  must_wait, handle_byte_substream_operation, open_client_requests,
}
use dk_server_foundation.Srpc.Server.Run.{after_activated}
use dk_server_foundation.Srpc.Server.Run.Routing.{live_id, IsRouted}
use dk_server_foundation.Srpc.Server.Run.Hooks.{kept-IsRouted}

-- What a received message keeps: a statement that depends on the stored objects and the maps only,
-- and that any change of the stream keeps that keeps its ids, and whether it is live and activated.
module _ {ℓ} {J : Type 0} (handlers : Map String String) (P : SrpcServer J → Type ℓ) (ref : ℕ)
    (st : SrpcStream J) (m : BaseMessage J) (s : SrpcServer J)
    (indifferent : (s' : SrpcServer J) (es : List (Effect J))
        (waiting : Map ℕ (List (BaseMessage J)))
      → P s'
      → P (record s' { effects = es; pending_client_requests = waiting }))
    (stored : (t : SrpcStream J)
      → t.id ≡ st.id
      → t.info ≡ st.info
      → is_gone t ≡ is_gone st
      → t.is_activated ≡ st.is_activated
      → P (store ref t s))
    (h : P s) where
  handle_reply_keeps : (request_id : String) → P (handle_reply ref st request_id m s)
  unfolding handle_reply
  handle_reply_keeps request_id = elim (Option-cases (lookup request_id st.queue)) [
    | inl e ↦ rw (handle_reply, e) (indifferent s _ s.pending_client_requests h)
    | inr (item, e) ↦
        rw (handle_reply, e)
          (indifferent (store ref (record st { queue = delete request_id st.queue }) s) _
            s.pending_client_requests
            (stored (record st { queue = delete request_id st.queue }) refl refl refl refl))
  ]

  dispatch_keeps : P (dispatch handlers ref st m s)
  unfolding dispatch
  dispatch_keeps = elim (Option-cases (text_of m.request_id)) [
    | inl e ↦ rw (dispatch, e) (indifferent s _ s.pending_client_requests h)
    | inr (id, e) ↦
        rw (dispatch, e)
          (if-intro P m.reply _ _ (λ _. handle_reply_keeps id)
            (λ _. indifferent s _ s.pending_client_requests h))
  ]

  handle_message_keeps : P (handle_message handlers ref st m s)
  unfolding handle_message queue_request
  handle_message_keeps =
      if-intro P (must_wait ref st s && not m.reply) _ _ (λ _. indifferent s s.effects _ h)
        (λ _. dispatch_keeps)

  pub received_keeps :
      (now : ℕ)
      → (m.ping_pong ≡ true → is_gone st ≡ false)
      → P (handle_stream_data_received handlers ref st m now s)
  unfolding handle_stream_data_received
  received_keeps now live =
      if-intro P m.ping_pong _ _
        (λ p.
          indifferent (store ref (record st { last_ping_at = some now }) s) _
            s.pending_client_requests
            (stored (record st { last_ping_at = some now }) refl refl (sym (live p)) refl))
        (λ _. elim (Option-cases m.byte_stream_operation) [
          | inl e ↦ rw e handle_message_keeps
          | inr (op, e) ↦ rw e (
              stored (record st { byte_stream = handle_byte_substream_operation op st.byte_stream })
                refl refl refl refl)
        ])

module _ {J : Type 0} (handlers : Map String String) where
  pub received-IsRouted :
      (ref : ℕ) (st : SrpcStream J) (m : BaseMessage J) (now : ℕ) (s : SrpcServer J)
      → stream_of ref s ≡ some st
      → (m.ping_pong ≡ true → is_gone st ≡ false)
      → IsRouted s
      → IsRouted (handle_stream_data_received handlers ref st m now s)
  received-IsRouted ref st m now s q live h =
      received_keeps handlers IsRouted ref st m s (λ s' es waiting g. g)
        (λ t a b c d. kept-IsRouted ref st t s q a b c d h) h now live

  -- A live stream stays live when a message is received.
  received-live_id :
      (ref : ℕ) (st : SrpcStream J) (m : BaseMessage J) (now : ℕ) (s : SrpcServer J)
      → stream_of ref s ≡ some st
      → is_gone st ≡ false
      → live_id (stream_of ref (handle_stream_data_received handlers ref st m now s)) ≡ some st.id
  received-live_id ref st m now s q live =
      received_keeps handlers (λ s'. live_id (stream_of ref s') ≡ some st.id) ref st m s
        (λ s' es waiting g. g)
        (λ t a b c d. rw (lookup-insert_self ref t s.objects) (ground (arith, a, c, live)))
        (ground (arith, q, live)) now (λ _. live)

  live-stream :
      (ref : ℕ) (id : String) (s : SrpcServer J)
      → live_id (stream_of ref s) ≡ some id
      → (st : SrpcStream J) × (stream_of ref s ≡ some st) × (is_gone st ≡ false) × (st.id ≡ id)
  live-stream ref id s h = elim (Option-cases (stream_of ref s)) [
    | inl e ↦ absurd (ground (arith, e))
    | inr (st, e) ↦ (st, e, ground (arith, e), ground (arith, e))
  ]

  handle_each-IsRouted :
      (ref : ℕ) (ms : List (BaseMessage J)) (now : ℕ) (id : String) (s : SrpcServer J)
      → live_id (stream_of ref s) ≡ some id
      → IsRouted s
      → IsRouted (handle_each handlers ref ms now s)
  unfolding handle_each
  handle_each-IsRouted ref [] now id s l h = h
  handle_each-IsRouted ref (m ∷ ms) now id s l h =
      let (st, e, g, same) = live-stream ref id s l in
      let s' : SrpcServer J = handle_stream_data_received handlers ref st m now s in
      let one : with_stream ref (λ stream. handle_stream_data_received handlers ref stream m now) s
          ≡ s' =
        rw (with_stream, e) refl in
      subst (λ u. IsRouted (handle_each handlers ref ms now u)) (sym one)
        (handle_each-IsRouted ref ms now st.id s' (received-live_id ref st m now s e g)
          (received-IsRouted ref st m now s e (λ _. g) h))

  open_client_requests-IsRouted :
      (ref : ℕ) (now : ℕ) (id : String) (s : SrpcServer J)
      → live_id (stream_of ref s) ≡ some id
      → IsRouted s
      → IsRouted (open_client_requests handlers ref now s)
  unfolding open_client_requests
  open_client_requests-IsRouted ref now id s l h =
      handle_each-IsRouted ref (or_else (lookup ref s.pending_client_requests) []) now id
        (record s {
          blocked_client_requests = remove_ref ref s.blocked_client_requests;
          pending_client_requests = delete ref s.pending_client_requests;
        })
        l h

  pub after_activated-IsRouted :
      (ref : ℕ) (st : SrpcStream J) (now : ℕ) (s : SrpcServer J)
      → stream_of ref s ≡ some st
      → IsRouted s
      → IsRouted (after_activated handlers ref st now s)
  unfolding after_activated
  after_activated-IsRouted ref st now s q h =
      let s' : SrpcServer J = store ref (to_stage Stage.over st) s in
      let kept : IsRouted s' =
        kept-IsRouted ref st (to_stage Stage.over st) s q refl refl refl refl h in
      if-intro IsRouted (is_gone st || not st.is_activated) s' _ (λ _. kept)
        (λ g.
          open_client_requests-IsRouted ref now st.id s'
            (rw (lookup-insert_self ref (to_stage Stage.over st) s.objects) (ground arith)) kept)
