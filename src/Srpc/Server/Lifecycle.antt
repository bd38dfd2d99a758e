-- ===== src/Srpc/Server/Lifecycle.antt =====
-- src/srpc/SrpcServer.ts: the lifecycle of a stream. Each hook is awaited: what follows it is a
-- function of its own.
use dk_server_foundation.Common.{
  ℕ, String, Bool, true, not, ◌&&◌, ◌||◌, Option, none, some, List, [], ◌∷◌, ◌++◌, map, Map, lookup,
  insert, delete, nat_eq, string_eq, if◌then◌else◌, ◌==◌, filterb, or_else, ltb, leb, ◌+◌,
}
use dk_server_foundation.Srpc.Messages.{SrpcDisconnectCause}
use dk_server_foundation.Srpc.Server.{
  QueuedRequest, Stage, StreamInfo, SrpcStream, Failure, Effect, SrpcServer, emit, stream_of, store,
  is_gone, get_current, is_ref, is_current_stream, new_stream, with_stream,
}

abbrev pub remove_ref : ℕ → List ℕ → List ℕ
remove_ref ref = filterb (λ r. not (r == ref))

-- `if (map.get(id) === stream) map.delete(id)`
abbrev pub delete_own : String → ℕ → Map String ℕ → Map String ℕ
delete_own id ref m = if is_ref (lookup id m) ref then delete id m else m

module _ {J : Type 0} where
  abbrev pub close_effect : ℕ → Option SrpcDisconnectCause → List (Effect J)
  close_effect ref none = []
  close_effect ref (some cause) = Effect.closes ref cause ∷ []

  abbrev pub reject_all : Map String QueuedRequest → List (Effect J)
  reject_all queue = map (λ item. Effect.rejects item.0 Failure.disconnected) queue

  -- What cleaning up a stream sends and calls.
  abbrev pub cleanup_effects : ℕ → SrpcStream J → Option SrpcDisconnectCause → List (Effect J)
  cleanup_effects ref stream force =
      close_effect ref force
      ++ (Effect.disconnects ref (or_else force SrpcDisconnectCause.disconnect)
          ∷ reject_all stream.queue)

  abbrev pub gone_stream : SrpcStream J → SrpcStream J
  gone_stream stream = record stream { last_ping_at = none; queue = [] }

  unfoldable pub cleanup_live :
      ℕ → SrpcStream J → Option SrpcDisconnectCause → SrpcServer J → SrpcServer J
  cleanup_live ref stream force s = record s {
    objects = insert ref (gone_stream stream) s.objects;
    effects = s.effects ++ cleanup_effects ref stream force;
    blocked_client_requests = remove_ref ref s.blocked_client_requests;
    pending_client_requests = delete ref s.pending_client_requests;
    streams_by_id = delete stream.id s.streams_by_id;
    pending_streams_by_client_id =
        delete_own stream.info.client_id ref s.pending_streams_by_client_id;
    streams_by_client_id = delete_own stream.info.client_id ref s.streams_by_client_id;
  }

  unfoldable pub cleanup_stream : ℕ → Option SrpcDisconnectCause → SrpcServer J → SrpcServer J
  unfolding cleanup_live
  cleanup_stream ref force s = elim (stream_of ref s) [
    | none ↦ s
    | some stream ↦ if is_gone stream then s else cleanup_live ref stream force s
  ]

  -- The maps that a new stream is entered in.
  unfoldable pub enter_stream : ℕ → SrpcStream J → SrpcServer J → SrpcServer J
  enter_stream ref stream s = record s {
    objects = insert ref stream s.objects;
    streams_by_id = insert stream.id ref s.streams_by_id;
    pending_streams_by_client_id = insert stream.info.client_id ref s.pending_streams_by_client_id;
    blocked_client_requests = remove_ref ref s.blocked_client_requests ++ (ref ∷ []);
  }

  unfoldable pub handle_stream_established : ℕ → SrpcStream J → SrpcServer J → SrpcServer J
  unfolding get_current cleanup_stream enter_stream
  handle_stream_established ref stream s = elim (get_current stream.info.client_id s) [
    | none ↦ enter_stream ref stream s
    | some existing ↦
        if leb 2 stream.info.protocol_version && not stream.info.supersede
        then emit (Effect.closes ref SrpcDisconnectCause.conflict ∷ [])
            (store ref (record stream { last_ping_at = none; stage = Stage.over }) s)
        else enter_stream ref stream
            (cleanup_stream existing (some SrpcDisconnectCause.supersede) s)
  ]

  -- `attachConnection`; `ref` is the new object, and `id` its `uuid()`.
  unfoldable pub attach_connection : ℕ → String → StreamInfo J → ℕ → SrpcServer J → SrpcServer J
  unfolding handle_stream_established new_stream
  attach_connection ref id info now s = handle_stream_established ref (new_stream id info now) s

  unfoldable pub activate_stream : ℕ → SrpcStream J → SrpcServer J → SrpcServer J
  unfolding is_current_stream
  activate_stream ref stream s =
      if is_gone stream || not (is_current_stream ref stream s) then s else record s {
        objects = insert ref (record stream { is_activated = true }) s.objects;
        pending_streams_by_client_id = delete stream.info.client_id s.pending_streams_by_client_id;
        streams_by_client_id = insert stream.info.client_id ref s.streams_by_client_id;
      }

  abbrev pub to_stage : Stage → SrpcStream J → SrpcStream J
  to_stage stage stream = record stream { stage = stage }

  -- `postEstablishCheck` has answered whether the stream is rejected.
  unfoldable pub after_check : ℕ → SrpcStream J → Bool → SrpcServer J → SrpcServer J
  after_check ref stream rejected s =
      if rejected || is_gone stream
      then store ref (to_stage Stage.over stream) s
      else emit (Effect.pings ref ∷ [])
          (store ref (record stream { listening = true; stage = Stage.connecting }) s)

  -- `onStreamConnected` has returned; `activateStream` activates the stream exactly if it is current.
  unfoldable pub after_connected : ℕ → SrpcStream J → SrpcServer J → SrpcServer J
  unfolding activate_stream
  after_connected ref stream s =
      if is_gone stream || not (is_current_stream ref stream s)
      then store ref (to_stage Stage.over stream) s
      else activate_stream ref (to_stage Stage.activating stream) s

  -- A hook has failed.
  unfoldable pub after_failure : ℕ → SrpcStream J → SrpcServer J → SrpcServer J
  unfolding cleanup_stream
  after_failure ref stream s =
      cleanup_stream ref (some SrpcDisconnectCause.disconnect)
        (store ref (to_stage Stage.over stream) s)

  unfoldable pub cleanup_if :
      (SrpcStream J → Bool) → SrpcDisconnectCause → ℕ → SrpcStream J → SrpcServer J → SrpcServer J
  unfolding cleanup_stream
  cleanup_if test cause ref stream s = if test stream then cleanup_stream ref (some cause) s else s

  -- The streams that `streamsById.values()` gives, each cleaned up if the test holds.
  unfoldable pub cleanup_each :
      (SrpcStream J → Bool) → SrpcDisconnectCause → Map String ℕ → SrpcServer J → SrpcServer J
  unfolding cleanup_if
  cleanup_each test cause [] s = s
  cleanup_each test cause ((id, ref) ∷ rest) s =
      cleanup_each test cause rest (with_stream ref (cleanup_if test cause ref) s)

  -- `stream.lastPingAt < now - 75_000`; -1 is below every time of day.
  abbrev pub is_inactive : ℕ → SrpcStream J → Bool
  is_inactive now stream = elim stream.last_ping_at [ none ↦ true | some t ↦ ltb (t + 75000) now ]

  unfoldable pub terminate_inactive_streams : ℕ → SrpcServer J → SrpcServer J
  unfolding cleanup_each
  terminate_inactive_streams now s =
      cleanup_each (is_inactive now) SrpcDisconnectCause.timeout s.streams_by_id s

  unfoldable pub close : SrpcServer J → SrpcServer J
  unfolding cleanup_each
  close s = cleanup_each (λ _. true) SrpcDisconnectCause.disconnect s.streams_by_id s
