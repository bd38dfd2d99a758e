-- ===== src/Srpc/Server/Requests.antt =====
-- src/srpc/SrpcServer.ts: messages of clients, and invocations of clients. A handler that is called
-- is an effect; its answer is an argument of `reply_to_request`.
use dk_server_foundation.Common.{
  ℕ, String, Bool, not, ◌&&◌, ◌||◌, Option, none, some, List, [], ◌∷◌, ◌++◌, Map, lookup, insert,
  delete, nat_eq, string_eq, if◌then◌else◌, includes, or_else, ◌+◌,
}
use dk_server_foundation.Srpc.Messages.{
  ByteStreamOperation, BaseMessage, SrpcDisconnectCause, SrpcError, text_of,
}
use dk_server_foundation.Srpc.ByteStream.{Conn}
use dk_server_foundation.Srpc.ByteStream.Events.{write_receiver, finish_receiver, destroy_substream}
use dk_server_foundation.Srpc.Server.{
  QueuedRequest, SrpcStream, Failure, Effect, SrpcServer, emit, store, with_stream,
}
use dk_server_foundation.Srpc.Server.Lifecycle.{remove_ref}

-- `handleByteSubstreamOperation`, on the byte streams of the connection.
unfoldable pub handle_byte_substream_operation : ByteStreamOperation → Conn → Conn
handle_byte_substream_operation (ByteStreamOperation.write id data') c = write_receiver id data' c
handle_byte_substream_operation (ByteStreamOperation.finish id) c = finish_receiver id c
handle_byte_substream_operation (ByteStreamOperation.destroy id error) c =
    destroy_substream id error c
handle_byte_substream_operation (ByteStreamOperation.nothing id) c = c

module _ {J : Type 0} where
  -- The loop of `handleClientRequest`: the first registered request type that the message carries.
  unfoldable pub find_request : Map String String → List (String × J) → Option (String × J)
  find_request [] fields = none
  find_request ((key, result_type) ∷ rest) fields = elim (lookup key fields) [
    | some value ↦ some (key, value)
    | none ↦ find_request rest fields
  ]

  unfoldable pub queue_request : ℕ → BaseMessage J → SrpcServer J → SrpcServer J
  queue_request ref m s = record s {
    pending_client_requests =
        insert ref (or_else (lookup ref s.pending_client_requests) [] ++ (m ∷ []))
          s.pending_client_requests;
  }

  -- A reply to an invocation. `invoke` fails if the field that it awaits is missing.
  abbrev pub settle : String → QueuedRequest → BaseMessage J → Effect J
  settle request_id item m = elim (text_of m.error) [
    | some text ↦
        Effect.rejects request_id
          (Failure.refused (record { message = text; is_user_error = m.user_error }))
    | none ↦ elim (lookup item.result_type m.fields) [
      | some value ↦ Effect.resolves request_id value
      | none ↦ Effect.rejects request_id Failure.invalid_response
    ]
  ]

  unfoldable pub handle_reply :
      ℕ → SrpcStream J → String → BaseMessage J → SrpcServer J → SrpcServer J
  handle_reply ref stream request_id m s = elim (lookup request_id stream.queue) [
    | none ↦ emit (Effect.closes ref SrpcDisconnectCause.bad_arg ∷ []) s
    | some item ↦
        emit (settle request_id item m ∷ [])
          (store ref (record stream { queue = delete request_id stream.queue }) s)
  ]

  -- Client requests wait until the stream is activated and its hooks are done.
  abbrev pub must_wait : ℕ → SrpcStream J → SrpcServer J → Bool
  must_wait ref stream s = not stream.is_activated || includes s.blocked_client_requests ref

module _ {J : Type 0} (handlers : Map String String) where
  -- What follows the waiting room in `handleStreamDataReceived`.
  unfoldable pub dispatch : ℕ → SrpcStream J → BaseMessage J → SrpcServer J → SrpcServer J
  unfolding handle_reply find_request
  dispatch ref stream m s = elim (text_of m.request_id) [
    | none ↦ emit (Effect.closes ref SrpcDisconnectCause.bad_arg ∷ []) s
    | some request_id ↦
        if m.reply
        then handle_reply ref stream request_id m s
        else emit (Effect.handles ref request_id (find_request handlers m.fields) ∷ []) s
  ]

  -- After the frames of the framework itself.
  unfoldable pub handle_message : ℕ → SrpcStream J → BaseMessage J → SrpcServer J → SrpcServer J
  unfolding dispatch queue_request
  handle_message ref stream m s =
      if must_wait ref stream s && not m.reply
      then queue_request ref m s
      else dispatch ref stream m s

  unfoldable pub handle_stream_data_received :
      ℕ → SrpcStream J → BaseMessage J → ℕ → SrpcServer J → SrpcServer J
  unfolding handle_message handle_byte_substream_operation
  handle_stream_data_received ref stream m now s =
      if m.ping_pong
      then emit (Effect.pings ref ∷ []) (store ref (record stream { last_ping_at = some now }) s)
      else elim m.byte_stream_operation [
        | some op ↦
            store ref
              (record stream {
                byte_stream = handle_byte_substream_operation op stream.byte_stream;
              })
              s
        | none ↦ handle_message ref stream m s
      ]

  -- `handleWsMessage`: `none` is data that is not binary or that does not decode.
  unfoldable pub handle_ws_message :
      ℕ → SrpcStream J → Option (BaseMessage J) → ℕ → SrpcServer J → SrpcServer J
  unfolding handle_stream_data_received
  handle_ws_message ref stream none now s =
      emit (Effect.closes ref SrpcDisconnectCause.bad_arg ∷ []) s
  handle_ws_message ref stream (some m) now s = handle_stream_data_received ref stream m now s

  -- The loop of `openClientRequests`, over the messages that were queued.
  unfoldable pub handle_each : ℕ → List (BaseMessage J) → ℕ → SrpcServer J → SrpcServer J
  unfolding handle_stream_data_received
  handle_each ref [] now s = s
  handle_each ref (m ∷ ms) now s =
      handle_each ref ms now
        (with_stream ref (λ stream. handle_stream_data_received ref stream m now) s)

  unfoldable pub open_client_requests : ℕ → ℕ → SrpcServer J → SrpcServer J
  unfolding handle_each
  open_client_requests ref now s =
      handle_each ref (or_else (lookup ref s.pending_client_requests) []) now (record s {
        blocked_client_requests = remove_ref ref s.blocked_client_requests;
        pending_client_requests = delete ref s.pending_client_requests;
      })

  -- The promise of `handleClientRequest` is settled: with the handler's result or an error.
  unfoldable pub reply_to_request : ℕ → String → String → J → SrpcServer J → SrpcServer J
  reply_to_request ref request_id key result s = elim (lookup key handlers) [
    | none ↦ s
    | some result_type ↦ emit (Effect.replies ref request_id result_type result ∷ []) s
  ]

module _ {J : Type 0} where
  unfoldable pub reply_with_error : ℕ → String → SrpcError → SrpcServer J → SrpcServer J
  reply_with_error ref request_id error s = emit (Effect.replies_error ref request_id error ∷ []) s

  -- `invoke`; `request_id` is its `uuid7()`, and `prefix` is given as the two keys.
  unfoldable pub invoke :
      ℕ → String → String → String → J → ℕ → ℕ → SrpcStream J → SrpcServer J → SrpcServer J
  invoke ref request_id request_type result_type value now timeout_ms stream s =
      emit (Effect.invokes ref request_id request_type value ∷ []) (
        store ref
          (record stream {
            queue =
                insert request_id (record { exp = now + timeout_ms; result_type = result_type })
                  stream.queue;
          })
          s)
