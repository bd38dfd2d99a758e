-- ===== src/Srpc/ByteStream/Tests.antt =====
-- Runs of src/srpc/SrpcByteStream.ts, and the theorems at inputs.
use dk_server_foundation.Common.{
  ◌≡◌, refl, true, false, none, some, List, [], ◌∷◌, ◌++◌, map, arith, lookup, nat_eq,
}
use dk_server_foundation.Srpc.ByteStream.{Chunk, chunk, eof, Conn, Substream, init}
use dk_server_foundation.Srpc.ByteStream.Events.{
  Event, creates_receiver, receives_write, expires, disconnects, run, finish_receiver,
}
use dk_server_foundation.Srpc.ByteStream.Pending.{AllBounded, run-AllBounded, total}
use dk_server_foundation.Srpc.ByteStream.Receiving.{write_all, received}
use dk_server_foundation.Srpc.ByteStream.Transparency.{
  created, IsNew, received-create_between, received-create_after,
}

abbrev closed : Conn
closed = record { info = none; objects = []; next_ref = 0; sent = []; disconnect_handlers = [] }

-- The client's side of a new connection.
abbrev fresh : Conn
fresh = record closed {
  info =
      some (record { receivers = []; senders = []; next_id = 1; step = 2; pending_receivers = [] });
}

fresh_init : init 1 2 closed ≡ fresh
unfolding init
fresh_init = refl

fresh-IsNew : IsNew 2 fresh
unfolding lookup
fresh-IsNew = record { connected = refl; absent = refl; unbuffered = refl }

fresh-AllBounded : AllBounded fresh
unfolding lookup
fresh-AllBounded id p e = cc

abbrev early : List Chunk
early = (1 ∷ (2 ∷ [])) ∷ []

abbrev late : List Chunk
late = (3 ∷ []) ∷ []

received-create_between_example :
    received 2 (finish_receiver 2 (write_all 2 late (created 2 (write_all 2 early fresh))))
    ≡ some (map chunk (early ++ late) ++ (eof ∷ []))
unfolding total
received-create_between_example =
    received-create_between 2 early late fresh (omega arith) fresh-IsNew (omega arith)

received-create_after_example :
    received 2 (created 2 (finish_receiver 2 (write_all 2 early fresh)))
    ≡ some (map chunk early ++ (eof ∷ []))
unfolding total
received-create_after_example =
    received-create_after 2 early fresh (omega arith) fresh-IsNew (omega arith)

abbrev events : List Event
events = receives_write 2 (1 ∷ []) ∷ (expires 2 ∷ (creates_receiver 2 ∷ (disconnects ∷ [])))

run-AllBounded_example : AllBounded (run events fresh)
run-AllBounded_example = run-AllBounded events fresh fresh-AllBounded

abbrev sender : Substream
sender = record {
  id = 1;
  attached = true;
  is_sender = true;
  is_locally_destroyed = false;
  is_remotely_destroyed = false;
  drain_callbacks = 5 ∷ [];
  waiting_for_drain = true;
  pushed = [];
  called = [];
}

abbrev sending : Conn
sending = record fresh {
  info = some (record {
    receivers = [];
    senders = (1, 0) ∷ [];
    next_id = 3;
    step = 2;
    pending_receivers = [];
  });
  objects = (0, sender) ∷ [];
  next_ref = 1;
  disconnect_handlers = 0 ∷ [];
}
