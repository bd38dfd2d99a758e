-- ===== src/Srpc/ByteStream/Lifecycle.antt =====
-- src/srpc/SrpcByteStream.ts: the end of a stream.
use dk_server_foundation.Common.{
  ℕ, ◌≡◌, ◌≢◌, Option, none, includes, true, false, not, ◌&&◌, some, [], ◌∷◌, ◌++◌, map, lookup,
  nat_eq, if◌then◌else◌,
}
use dk_server_foundation.Srpc.ByteStream.{
  Substream, done, destroy, Conn, destroy_object, send, sender_of, receiver_of,
}

-- The object that `destroy` leaves behind.
abbrev pub destroyed : Substream → Substream
destroyed s = record s {
  is_locally_destroyed = true;
  attached = false;
  called = s.called ++ map done s.drain_callbacks;
  drain_callbacks = [];
}

-- The entry of a stream's id in the map of its kind.
abbrev pub entry : Substream → Conn → Option ℕ
entry s c = if s.is_sender then sender_of s.id c else receiver_of s.id c

-- What `destroy` leaves, sends, and does when it is called again. A stream that was attached is in
-- neither map any more and does not hear of the end of the connection; the streams of other ids are
-- where they were.
pub record Destroyed (ref : ℕ) (s : Substream) (c c' : Conn) : Type 0 where
  pub object : lookup ref c'.objects ≡ some (destroyed s)
  pub told :
      c'.sent
      ≡ c.sent ++ (if not s.is_remotely_destroyed && s.attached then destroy s.id ∷ [] else [])
  pub gone : (if s.attached then entry s c' else none) ≡ none
  pub deaf : (s.attached && includes c'.disconnect_handlers ref) ≡ false
  pub others :
      (id : ℕ)
      → s.id ≢ id
      → (sender_of id c' ≡ sender_of id c) × (receiver_of id c' ≡ receiver_of id c)
  pub hearers :
      (r : ℕ) → ref ≢ r → includes c'.disconnect_handlers r ≡ includes c.disconnect_handlers r
  pub once : destroy_object ref c' ≡ c'

abbrev closed : Substream → Substream
closed s = record s {
  attached = false;
  called = s.called ++ map done s.drain_callbacks;
  drain_callbacks = [];
}

tell : Substream → Conn → Conn
tell s c = if not s.is_remotely_destroyed && s.attached then send (destroy s.id) c else c

abbrev mark : Substream → Substream
mark s = record s { is_locally_destroyed = true }
