-- ===== src/Srpc/ByteStream.antt =====
-- src/srpc/SrpcByteStream.ts: byte streams multiplexed over one connection. The class's objects are
-- kept in a store under references, since the maps of `IByteStreamInfo` and the callers share them.
-- Node's `Duplex` is not part of the source: `push` records what is handed to it, and `destroy`
-- reaches `_destroy`, which acts once. Data are buffers, lists of bytes. The amount buffered by the
-- socket is an argument of each read; a timer that fires is an event.
pub mod Events
pub mod Untouched
pub mod Pending
pub mod Receiving
pub mod Buffering
pub mod Transparency
pub mod Lifecycle
pub mod Tests
use dk_server_foundation.Common.{
  ℕ, suc, ◌+◌, ◌*◌, String, Bool, true, false, not, ◌&&◌, Option, none, some, List, [], ◌∷◌, ◌++◌,
  map, Map, lookup, insert, delete, has, ◌==◌, nat_eq, if◌then◌else◌, filterb, or_else, length, ltb,
}

abbrev pub Chunk : Type 0
Chunk = List ℕ

abbrev pub high_water_mark : ℕ
high_water_mark = 256 * 1024

abbrev pub pending_receiver_max_bytes : ℕ
pending_receiver_max_bytes = 2 * 1024 * 1024

pub data StreamError : Type 0 where
  expired_before_creation : StreamError
  exceeded_max_bytes : StreamError
  remote_destroyed : StreamError
  other : String → StreamError

pub record PendingReceiver : Type 0 where
  pub chunks : List Chunk
  pub bytes : ℕ
  pub finished : Bool
  pub destroyed_error : Option StreamError
  pub timeout : Bool

-- What a receiver was handed by `push`; `eof` is `push(null)`.
pub data Pushed : Type 0 where
  chunk : Chunk → Pushed
  eof : Pushed

-- A write's callback, by its number, and whether it was given an error.
pub data Outcome : Type 0 where
  done : ℕ → Outcome
  failed : ℕ → Outcome

-- `attached` is `this.stream !== null`; callbacks have numbers, and `called` lists those invoked.
pub record Substream : Type 0 where
  pub id : ℕ
  pub attached : Bool
  pub is_sender : Bool
  pub is_locally_destroyed : Bool
  pub is_remotely_destroyed : Bool
  pub drain_callbacks : List ℕ
  pub waiting_for_drain : Bool
  pub pushed : List Pushed
  pub called : List Outcome

pub record Info : Type 0 where
  pub receivers : Map ℕ ℕ
  pub senders : Map ℕ ℕ
  pub next_id : ℕ
  pub step : ℕ
  pub pending_receivers : Map ℕ PendingReceiver

-- What goes out through `IByteStream`.
pub data Frame : Type 0 where
  write : ℕ → Chunk → Frame
  finish : ℕ → Frame
  destroy : ℕ → Frame

pub record Conn : Type 0 where
  pub info : Option Info
  pub objects : Map ℕ Substream
  pub next_ref : ℕ
  pub sent : List Frame
  pub disconnect_handlers : List ℕ

abbrev pub default_info : ℕ → ℕ → Info
default_info next_id step = record {
  receivers = [];
  senders = [];
  next_id = next_id;
  step = step;
  pending_receivers = [];
}

-- `SrpcByteStream.init`
unfoldable pub init : ℕ → ℕ → Conn → Conn
init start_id step c = record c { info = some (or_else c.info (default_info start_id step)) }

abbrev fresh_substream : ℕ → Bool → Substream
fresh_substream id is_sender = record {
  id = id;
  attached = true;
  is_sender = is_sender;
  is_locally_destroyed = false;
  is_remotely_destroyed = false;
  drain_callbacks = [];
  waiting_for_drain = false;
  pushed = [];
  called = [];
}

-- The constructor; the reference of the new object is the `next_ref` before it. The id 0 asks for a
-- sender.
unfoldable pub construct : ℕ → Conn → Conn
construct id c =
    let i : Info = or_else c.info (default_info 1 1) in
    if id == 0
    then record {
      info = some (record i {
        next_id = i.next_id + i.step;
        senders = insert i.next_id c.next_ref i.senders;
      });
      objects = insert c.next_ref (fresh_substream i.next_id true) c.objects;
      next_ref = suc c.next_ref;
      sent = c.sent;
      disconnect_handlers = c.disconnect_handlers ++ (c.next_ref ∷ []);
    }
    else record {
      info = some (record i { receivers = insert id c.next_ref i.receivers });
      objects = insert c.next_ref (fresh_substream id false) c.objects;
      next_ref = suc c.next_ref;
      sent = c.sent;
      disconnect_handlers = c.disconnect_handlers ++ (c.next_ref ∷ []);
    }

-- Changing one object, and the maps.
unfoldable pub update : ℕ → (Substream → Substream) → Conn → Conn
update ref f c = elim (lookup ref c.objects) [
  | none ↦ c
  | some s ↦ record c { objects = insert ref (f s) c.objects }
]

abbrev pub with_info : (Info → Info) → Conn → Conn
with_info f c = elim c.info [ none ↦ c | some i ↦ record c { info = some (f i) } ]

abbrev pub send : Frame → Conn → Conn
send frame c = record c { sent = c.sent ++ (frame ∷ []) }

unfoldable pub push : ℕ → Pushed → Conn → Conn
unfolding update
push ref p = update ref λ s. record s { pushed = s.pushed ++ (p ∷ []) }

abbrev unregister : Substream → Info → Info
unregister s i =
    if s.is_sender
    then record i { senders = delete s.id i.senders }
    else record i { receivers = delete s.id i.receivers }

-- `cleanup`; a second call finds `stream` null, and only calls back.
unfoldable pub cleanup : ℕ → Conn → Conn
cleanup ref c = elim (lookup ref c.objects) [
  | none ↦ c
  | some s ↦
      let closed : Substream = record s {
        attached = false;
        called = s.called ++ map done s.drain_callbacks;
        drain_callbacks = [];
      } in
      if s.attached
      then with_info (unregister s) (record c {
        objects = insert ref closed c.objects;
        disconnect_handlers = filterb (λ r. not (r == ref)) c.disconnect_handlers;
      })
      else record c { objects = insert ref closed c.objects }
]

-- `destroy`, through Node to `_destroy`.
unfoldable pub destroy_object : ℕ → Conn → Conn
unfolding cleanup update
destroy_object ref c = elim (lookup ref c.objects) [
  | none ↦ c
  | some s ↦
      if s.is_locally_destroyed
      then c
      else cleanup ref (
          update ref (λ t. record t { is_locally_destroyed = true })
            (if not s.is_remotely_destroyed && s.attached then send (destroy s.id) c else c))
]

-- The chunks, and then the end, that were buffered for a receiver.
unfoldable pub push_all : ℕ → List Chunk → Conn → Conn
unfolding push
push_all ref [] c = c
push_all ref (x ∷ xs) c = push_all ref xs (push ref (chunk x) c)

unfoldable pub deliver : ℕ → PendingReceiver → Conn → Conn
unfolding destroy_object push_all push
deliver ref p c = elim p.destroyed_error [
  | some _ ↦ destroy_object ref c
  | none ↦ if p.finished then push ref eof (push_all ref p.chunks c) else push_all ref p.chunks c
]

abbrev pub pending_of : ℕ → Conn → Option PendingReceiver
pending_of id c = elim c.info [ none ↦ none | some i ↦ lookup id i.pending_receivers ]

abbrev pub receiver_of : ℕ → Conn → Option ℕ
receiver_of id c = elim c.info [ none ↦ none | some i ↦ lookup id i.receivers ]

abbrev pub sender_of : ℕ → Conn → Option ℕ
sender_of id c = elim c.info [ none ↦ none | some i ↦ lookup id i.senders ]

abbrev pub forget : ℕ → Conn → Conn
forget id = with_info λ i. record i { pending_receivers = delete id i.pending_receivers }

-- A new receiver takes over what was buffered for its id, if anything was.
unfoldable pub adopt : ℕ → ℕ → Option PendingReceiver → Conn → Conn
unfolding deliver
adopt id ref none c = c
adopt id ref (some p) c = deliver ref p (forget id c)

-- `createReceiver`; `none` is the error that the stream exists already.
unfoldable pub create_receiver : ℕ → Conn → Option Conn
unfolding construct adopt
create_receiver id c = elim (receiver_of id c) [
  | some _ ↦ none
  | none ↦ some (adopt id c.next_ref (pending_of id (construct id c)) (construct id c))
]

unfoldable pub create_sender : Conn → Conn
unfolding construct
create_sender c = construct 0 c
