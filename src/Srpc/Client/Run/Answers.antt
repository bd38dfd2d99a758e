-- ===== src/Srpc/Client/Run/Answers.antt =====
-- Messages and invocations in src/srpc/SrpcClient.ts keep invocations settled once.
use dk_server_foundation.Common.{
  ℕ, String, ◌≡◌, refl, ap, Bool, Option, none, some, is_some, Map, lookup, has, ◌+◌, ◌==◌,
  string_eq, nat_eq, if◌then◌else◌, if-intro, Option-cases, inl, inr,
}
use dk_server_foundation.Srpc.Messages.{BaseMessage, text_of}
use dk_server_foundation.Srpc.Server.{QueuedRequest}
use dk_server_foundation.Srpc.Server.Requests.{find_request}
use dk_server_foundation.Srpc.Client.{InvokeFailure, Effect, SrpcClient, is_sent}
use dk_server_foundation.Srpc.Client.Requests.{
  settle, handle_reply, handle_server_request, reply, dispatch, handle_message, invoke,
  request_timeout,
}
use dk_server_foundation.Srpc.Client.Run.Settled.{
  asks_for, settles, IsBalanced, AreBalanced-settle, AreBalanced-ask, AreBalanced-unsent,
  on_ws-IsBalanced, write_message-IsBalanced,
}
use dk_server_foundation.Srpc.Client.Run.Connections.{emit-IsBalanced}

module _ {J : Type 0} where
  settle-once :
      (id : String) (item : QueuedRequest) (m : BaseMessage J) (j : String)
      → (asks_for j (settle id item m) ≡ 0)
        × (settles j (settle id item m) ≡ (if id == j then 1 else 0))
  settle-once id item m j = elim (Option-cases (text_of m.error)) [
    | inr (text, e) ↦ rw (settle, e) (refl, refl)
    | inl e ↦ elim (Option-cases (lookup item.result_type m.fields)) [
      | inl f ↦ rw (settle, e, f) (refl, refl)
      | inr (v, f) ↦ rw (settle, e, f) (refl, refl)
    ]
  ]

  module _ (c : SrpcClient J) (h : IsBalanced c) where
    pub handle_reply-IsBalanced :
        (id : String) (m : BaseMessage J) → IsBalanced (handle_reply id m c)
    unfolding handle_reply
    handle_reply-IsBalanced id m = elim (Option-cases (lookup id c.request_queue)) [
      | inl e ↦
          rw (handle_reply, e)
            (on_ws-IsBalanced (λ ref. Effect.closes ref (some 4000)) c (λ ref i. (refl, refl)) h)
      | inr (item, e) ↦
          rw (handle_reply, e)
            (AreBalanced-settle id c.request_queue c.effects (settle id item m)
              (settle-once id item m) (ap is_some e) h)
    ]

    pub handle_server_request-IsBalanced :
        (handlers : Map String String) (id : String) (m : BaseMessage J) (is_open : Bool)
        → IsBalanced (handle_server_request handlers id m is_open c)
    unfolding handle_server_request
    handle_server_request-IsBalanced handlers id m is_open =
        elim (Option-cases (find_request handlers m.fields)) [
          | inl e ↦
              rw (handle_server_request, e)
                (write_message-IsBalanced is_open (λ ref. Effect.replies_unhandled id) c
                  (λ ref i. (refl, refl)) h)
          | inr (found, e) ↦
              rw (handle_server_request, e)
                (emit-IsBalanced c h (Effect.handles id found.0 found.1) (λ i. (refl, refl)))
        ]

    pub reply-IsBalanced :
        (handlers : Map String String) (id key : String) (result : J) (is_open : Bool)
        → IsBalanced (reply handlers id key result is_open c)
    unfolding reply
    reply-IsBalanced handlers id key result is_open = elim (Option-cases (lookup key handlers)) [
      | inl e ↦ rw (reply, e) h
      | inr (type, e) ↦
          rw (reply, e)
            (write_message-IsBalanced is_open (λ ref. Effect.replies id type result) c
              (λ ref i. (refl, refl)) h)
    ]

    pub dispatch-IsBalanced :
        (handlers : Map String String) (m : BaseMessage J) (is_open : Bool)
        → IsBalanced (dispatch handlers m is_open c)
    unfolding dispatch
    dispatch-IsBalanced handlers m is_open = elim (Option-cases (text_of m.request_id)) [
      | inl e ↦
          rw (dispatch, e)
            (on_ws-IsBalanced (λ ref. Effect.closes ref (some 4000)) c (λ ref i. (refl, refl)) h)
      | inr (id, e) ↦
          rw (dispatch, e)
            (if-intro IsBalanced m.reply _ _ (λ _. handle_reply-IsBalanced id m)
              (λ _. handle_server_request-IsBalanced handlers id m is_open))
    ]

    pub handle_message-IsBalanced :
        (handlers : Map String String) (m : Option (BaseMessage J)) (is_open : Bool) (now : ℕ)
        → IsBalanced (handle_message handlers m is_open now c)
    unfolding handle_message
    handle_message-IsBalanced handlers none is_open now = h
    handle_message-IsBalanced handlers (some m) is_open now =
        if-intro IsBalanced m.ping_pong (record c { last_pong_ms = some now }) _ (λ _. h)
          (λ _. elim (Option-cases m.byte_stream_operation) [
            | inl e ↦ rw e (dispatch-IsBalanced handlers m is_open)
            | inr (op, e) ↦ rw e h
          ])

    pub invoke-IsBalanced :
        (id type result_type : String) (value : J) (now timeout_ms : ℕ) (is_open : Bool)
        → lookup id c.request_queue ≡ none
        → IsBalanced (invoke id type result_type value now timeout_ms is_open c)
    unfolding invoke
    invoke-IsBalanced id type result_type value now timeout_ms is_open n =
        let item : QueuedRequest = record { exp = now + timeout_ms; result_type = result_type } in
        if-intro IsBalanced (is_sent is_open c) _ _
          (λ _. AreBalanced-ask id item type value c.request_queue c.effects n h)
          (λ _.
            AreBalanced-unsent id item InvokeFailure.not_connected c.request_queue c.effects n h)

    pub request_timeout-IsBalanced : (id : String) → IsBalanced (request_timeout id c)
    unfolding request_timeout
    request_timeout-IsBalanced id =
        if-intro IsBalanced (has id c.request_queue) _ c
          (λ e.
            AreBalanced-settle id c.request_queue c.effects
              (Effect.rejects id InvokeFailure.too_late) (λ j. (refl, refl)) e h)
          (λ _. h)
