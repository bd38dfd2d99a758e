-- ===== src/Srpc/Client/Requests.antt =====
-- src/srpc/SrpcClient.ts: messages of the server, and invocations of the server.
use dk_server_foundation.Common.{
  ℕ, String, Bool, Option, none, some, [], ◌∷◌, ◌++◌, Map, lookup, insert, delete, has, ◌+◌, nat_eq,
  string_eq, if◌then◌else◌,
}
use dk_server_foundation.Srpc.Messages.{BaseMessage, text_of}
use dk_server_foundation.Srpc.Server.{QueuedRequest}
use dk_server_foundation.Srpc.Server.Requests.{handle_byte_substream_operation, find_request}
use dk_server_foundation.Srpc.Client.{
  InvokeFailure, Effect, SrpcClient, emit, on_ws, write_message, is_sent,
}

module _ {J : Type 0} where
  -- What a reply makes of an invocation, whose result is read once it is there.
  abbrev pub settle : String → QueuedRequest → BaseMessage J → Effect J
  settle id item m = elim (text_of m.error) [
    | some text ↦ Effect.rejects id (InvokeFailure.error text)
    | none ↦ elim (lookup item.result_type m.fields) [
      | some value ↦ Effect.resolves id value
      | none ↦ Effect.rejects id InvokeFailure.invalid_response
    ]
  ]

  unfoldable pub handle_reply : String → BaseMessage J → SrpcClient J → SrpcClient J
  handle_reply id m c = elim (lookup id c.request_queue) [
    | none ↦ on_ws (λ ref. Effect.closes ref (some 4000)) c
    | some item ↦
        emit (settle id item m ∷ []) (record c { request_queue = delete id c.request_queue })
  ]

  unfoldable pub handle_server_request :
      Map String String → String → BaseMessage J → Bool → SrpcClient J → SrpcClient J
  unfolding find_request
  handle_server_request handlers id m is_open c = elim (find_request handlers m.fields) [
    | some found ↦ emit (Effect.handles id found.0 found.1 ∷ []) c
    | none ↦ write_message is_open (λ ref. Effect.replies_unhandled id) c
  ]

  -- The result of a handler. A handler that throws sends nothing.
  unfoldable pub reply :
      Map String String → String → String → J → Bool → SrpcClient J → SrpcClient J
  reply handlers id key result is_open c = elim (lookup key handlers) [
    | none ↦ c
    | some type ↦ write_message is_open (λ ref. Effect.replies id type result) c
  ]

  unfoldable pub dispatch : Map String String → BaseMessage J → Bool → SrpcClient J → SrpcClient J
  unfolding handle_reply handle_server_request
  dispatch handlers m is_open c = elim (text_of m.request_id) [
    | none ↦ on_ws (λ ref. Effect.closes ref (some 4000)) c
    | some id ↦
        if m.reply then handle_reply id m c else handle_server_request handlers id m is_open c
  ]

  -- `handleMessage`; `none` does not decode.
  unfoldable pub handle_message :
      Map String String → Option (BaseMessage J) → Bool → ℕ → SrpcClient J → SrpcClient J
  unfolding dispatch handle_byte_substream_operation
  handle_message handlers none is_open now c = c
  handle_message handlers (some m) is_open now c =
      if m.ping_pong then record c { last_pong_ms = some now } else elim m.byte_stream_operation [
        | some op ↦ record c { byte_stream = handle_byte_substream_operation op c.byte_stream }
        | none ↦ dispatch handlers m is_open c
      ]

  -- `asks` marks the call; `id` is its `uuid7()`. A request that is not sent leaves the queue again.
  unfoldable pub invoke : String → String → String → J → ℕ → ℕ → Bool → SrpcClient J → SrpcClient J
  invoke id type result_type value now timeout_ms is_open c =
      let item : QueuedRequest = record { exp = now + timeout_ms; result_type = result_type } in
      let queue = insert id item c.request_queue in
      if is_sent is_open c
      then record c {
        request_queue = queue;
        effects = c.effects ++ (Effect.asks id ∷ (Effect.sends id type value ∷ []));
      }
      else record c {
        request_queue = delete id queue;
        effects =
            c.effects ++ (Effect.asks id ∷ (Effect.rejects id InvokeFailure.not_connected ∷ []));
      }

  -- The timer of an invocation.
  unfoldable pub request_timeout : String → SrpcClient J → SrpcClient J
  request_timeout id c =
      if has id c.request_queue
      then record c {
        request_queue = delete id c.request_queue;
        effects = c.effects ++ (Effect.rejects id InvokeFailure.too_late ∷ []);
      }
      else c
