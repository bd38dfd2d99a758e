-- ===== src/Srpc/ByteStream/Events.antt =====
-- src/srpc/SrpcByteStream.ts: frames from the remote side, the methods that Node calls on a stream,
-- timers, and the loss of the connection.
use dk_server_foundation.Common.{
  ℕ, ◌+◌, String, true, false, not, ◌||◌, Option, none, some, List, [], ◌∷◌, ◌++◌, map, lookup,
  insert, nat_eq, if◌then◌else◌, or_else, length, ltb,
}
use dk_server_foundation.Srpc.ByteStream.{
  Chunk, high_water_mark, pending_receiver_max_bytes, StreamError, expired_before_creation,
  exceeded_max_bytes, remote_destroyed, other, PendingReceiver, chunk, eof, done, failed, Substream,
  write, finish, Conn, update, with_info, send, push, cleanup, destroy_object, pending_of,
  receiver_of, sender_of, create_receiver, create_sender,
}

abbrev pub new_pending : PendingReceiver
new_pending = record {
  chunks = [];
  bytes = 0;
  finished = false;
  destroyed_error = none;
  timeout = false;
}

abbrev pub set_pending : ℕ → PendingReceiver → Conn → Conn
set_pending id p = with_info (λ i. record i { pending_receivers = insert id p i.pending_receivers })

abbrev pub fail_pending : StreamError → PendingReceiver → PendingReceiver
fail_pending e p = record p { destroyed_error = some e; chunks = []; bytes = 0 }

-- What one write does to a pending receiver that has not failed.
unfoldable pub buffer_chunk : Chunk → PendingReceiver → PendingReceiver
buffer_chunk data' p =
    if ltb pending_receiver_max_bytes (p.bytes + length data')
    then fail_pending exceeded_max_bytes (record p { timeout = true })
    else record p {
      timeout = true;
      bytes = p.bytes + length data';
      chunks = p.chunks ++ (data' ∷ []);
    }

-- A change of the pending receiver of an id, which is new if there is none; a failed one stays.
unfoldable pub change_pending : ℕ → (PendingReceiver → PendingReceiver) → Conn → Conn
change_pending id f c =
    let p : PendingReceiver = or_else (pending_of id c) new_pending in
    elim p.destroyed_error [ some _ ↦ c | none ↦ set_pending id (f p) c ]

unfoldable pub write_receiver : ℕ → Chunk → Conn → Conn
unfolding change_pending buffer_chunk push
write_receiver id data' c = elim (receiver_of id c) [
  | some ref ↦ push ref (chunk data') c
  | none ↦ change_pending id (buffer_chunk data') c
]

unfoldable pub finish_receiver : ℕ → Conn → Conn
unfolding change_pending push
finish_receiver id c = elim (receiver_of id c) [
  | some ref ↦ push ref eof c
  | none ↦ change_pending id (λ p. record p { finished = true }) c
]

abbrev pub error_text : Option String → StreamError
error_text none = remote_destroyed
error_text (some text) = other text

unfoldable pub destroy_remotely : ℕ → Conn → Conn
unfolding destroy_object update
destroy_remotely ref c =
    destroy_object ref (update ref (λ s. record s { is_remotely_destroyed = true }) c)

-- Receivers are looked for before senders; an unknown id is remembered as destroyed.
unfoldable pub destroy_substream : ℕ → Option String → Conn → Conn
unfolding destroy_remotely
destroy_substream id text c = elim (receiver_of id c) [
  | some ref ↦ destroy_remotely ref c
  | none ↦ elim (sender_of id c) [
    | some ref ↦ destroy_remotely ref c
    | none ↦
        set_pending id (fail_pending (error_text text) (or_else (pending_of id c) new_pending)) c
  ]
]

-- The timer that the first buffered write of a pending receiver sets.
unfoldable pub expire : ℕ → Conn → Conn
expire id c = elim (pending_of id c) [
  | none ↦ c
  | some p ↦ if p.timeout then set_pending id (fail_pending expired_before_creation p) c else c
]

-- `pollForDrain`, given the amount that it reads. While the amount is high another poll follows.
unfoldable pub polled : ℕ → Substream → Substream
polled buffered s =
    if not s.waiting_for_drain || not s.attached
    then s
    else if ltb buffered high_water_mark
    then record s {
      waiting_for_drain = false;
      called = s.called ++ map done s.drain_callbacks;
      drain_callbacks = [];
    }
    else s

unfoldable pub poll_for_drain : ℕ → ℕ → Conn → Conn
unfolding polled update
poll_for_drain ref buffered = update ref (polled buffered)

-- `_write`, given the amount read after the write and the one that the poll reads.
unfoldable pub write_object : ℕ → Chunk → ℕ → ℕ → ℕ → Conn → Conn
unfolding polled update
write_object ref data' callback after later c = elim (lookup ref c.objects) [
  | none ↦ c
  | some s ↦
      if s.attached
      then update ref
          (λ t.
            if ltb after high_water_mark
            then record t { called = t.called ++ (done callback ∷ []) }
            else polled later (record t {
              waiting_for_drain = true;
              drain_callbacks = t.drain_callbacks ++ (callback ∷ []);
            }))
          (send (write s.id data') c)
      else update ref (λ t. record t { called = t.called ++ (failed callback ∷ []) }) c
]

-- `_final`
unfoldable pub final_object : ℕ → ℕ → Conn → Conn
unfolding cleanup update
final_object ref callback c = elim (lookup ref c.objects) [
  | none ↦ c
  | some s ↦
      update ref (λ t. record t { called = t.called ++ (done callback ∷ []) })
        (cleanup ref (if s.attached then send (finish s.id) c else c))
]

-- Node's `end` event, which only receivers listen to.
unfoldable pub end_object : ℕ → Conn → Conn
unfolding cleanup
end_object ref c = elim (lookup ref c.objects) [
  | none ↦ c
  | some s ↦ if s.is_sender then c else cleanup ref c
]

-- Every handler that is attached when the connection is lost runs `handleDisconnect`.
unfoldable pub destroy_all : List ℕ → Conn → Conn
destroy_all [] c = c
destroy_all (ref ∷ refs) c = destroy_all refs (destroy_object ref c)

unfoldable pub disconnect : Conn → Conn
unfolding destroy_all
disconnect c = destroy_all c.disconnect_handlers c

pub data Event : Type 0 where
  creates_receiver : ℕ → Event
  creates_sender : Event
  receives_write : ℕ → Chunk → Event
  receives_finish : ℕ → Event
  receives_destroy : ℕ → Option String → Event
  expires : ℕ → Event
  polls : ℕ → ℕ → Event
  writes : ℕ → Chunk → ℕ → ℕ → ℕ → Event
  finals : ℕ → ℕ → Event
  ends : ℕ → Event
  destroys : ℕ → Event
  disconnects : Event

unfoldable pub step : Event → Conn → Conn
step (creates_receiver id) c = or_else (create_receiver id c) c
step creates_sender c = create_sender c
step (receives_write id data') c = write_receiver id data' c
step (receives_finish id) c = finish_receiver id c
step (receives_destroy id text) c = destroy_substream id text c
step (expires id) c = expire id c
step (polls ref buffered) c = poll_for_drain ref buffered c
step (writes ref data' callback after later) c = write_object ref data' callback after later c
step (finals ref callback) c = final_object ref callback c
step (ends ref) c = end_object ref c
step (destroys ref) c = destroy_object ref c
step disconnects c = disconnect c

unfoldable pub run : List Event → Conn → Conn
run [] c = c
run (e ∷ es) c = run es (step e c)
