-- ===== src/Srpc/ByteStream/Transparency.antt =====
-- src/srpc/SrpcByteStream.ts: when a receiver is created makes no difference to what it is handed.
use dk_server_foundation.Common.{
  ℕ, ◌≤◌, ◌≡◌, ap, subst, is_some, ◌∙◌, Bool, true, false, Option, none, some, List, [], ◌∷◌, ◌++◌,
  map, lookup-insert_self, nat_eq, if◌then◌else◌, or_else, arith, Bool-cases, inl, inr, ◌≢◌,
  append-nil,
}
use mathlib.Core.List.{map-append}
use dk_server_foundation.Srpc.ByteStream.{
  Chunk, pending_receiver_max_bytes, PendingReceiver, Pushed, chunk, eof, Substream, Conn,
  construct, fresh_substream, default_info, push, push_all, forget, adopt, deliver, pending_of,
  receiver_of, create_receiver,
}
use dk_server_foundation.Srpc.ByteStream.Events.{new_pending, finish_receiver}
use dk_server_foundation.Srpc.ByteStream.Untouched.{pending_of-construct}
use dk_server_foundation.Srpc.ByteStream.Pending.{total}
use dk_server_foundation.Srpc.ByteStream.Receiving.{
  write_all, received, Receiving, handed, push-Receiving, handed-append, handed-nil,
  push_all-Receiving, write_all-Receiving,
}
use dk_server_foundation.Srpc.ByteStream.Buffering.{
  Buffering, finish_receiver-Buffering, write_all-Buffering,
}

-- Creation hands over what was buffered.
abbrev pub created : ℕ → Conn → Conn
created id c = or_else (create_receiver id c) c

-- The pushes that a buffer stands for.
abbrev pub pushes : List Chunk → Bool → List Pushed
pushes xs done = map chunk xs ++ (if done then eof ∷ [] else [])

construct-Receiving :
    (id : ℕ) (c : Conn)
    → id ≢ 0
    → Receiving id c.next_ref (fresh_substream id false) (construct id c)
unfolding construct
construct-Receiving id c ne = ground (
  arith,
  lookup-insert_self id c.next_ref (or_else c.info (default_info 1 1)).receivers,
  lookup-insert_self c.next_ref (fresh_substream id false) c.objects,
)

forget-Receiving :
    (id j ref : ℕ) (s : Substream) (c : Conn)
    → Receiving id ref s c
    → Receiving id ref s (forget j c)
forget-Receiving id j ref s c h = ground arith

deliver-Receiving :
    (id ref : ℕ) (p : PendingReceiver) (s : Substream) (c : Conn)
    → p.destroyed_error ≡ none
    → Receiving id ref s c
    → Receiving id ref (handed (pushes p.chunks p.finished) s) (deliver ref p c)
unfolding deliver
deliver-Receiving id ref p s c ok h = elim (Bool-cases p.finished) [
  | inl f ↦
      rw (ok, deliver, f)
        (subst (λ t. Receiving id ref t (push ref eof (push_all ref p.chunks c)))
          (handed-append (map chunk p.chunks) (eof ∷ []) s)
          (push-Receiving id ref (handed (map chunk p.chunks) s) eof (push_all ref p.chunks c)
            (push_all-Receiving id ref p.chunks s c h)))
  | inr f ↦
      rw (ok, deliver, f, append-nil (map chunk p.chunks))
        (push_all-Receiving id ref p.chunks s c h)
]

adopt-Receiving :
    (id ref : ℕ) (o : Option PendingReceiver) (s : Substream) (c : Conn)
    → (or_else o new_pending).destroyed_error ≡ none
    → Receiving id ref s c
    → Receiving id ref
        (handed (pushes (or_else o new_pending).chunks (or_else o new_pending).finished) s)
        (adopt id ref o c)
unfolding adopt
adopt-Receiving id ref none s c ok h = rw (handed-nil s) h
adopt-Receiving id ref (some p) s c ok h =
    deliver-Receiving id ref p s (forget id c) ok (forget-Receiving id id ref s c h)

created_lem :
    (id : ℕ) (c : Conn)
    → receiver_of id c ≡ none
    → created id c ≡ adopt id c.next_ref (pending_of id c) (construct id c)
unfolding create_receiver
created_lem id c e =
    rw (e, create_receiver)
      (ap (λ o. adopt id c.next_ref o (construct id c)) (pending_of-construct id id c))

created-Receiving :
    (id : ℕ) (xs : List Chunk) (done : Bool) (c : Conn)
    → id ≢ 0
    → Buffering id xs done c
    → Receiving id c.next_ref (handed (pushes xs done) (fresh_substream id false)) (created id c)
created-Receiving id xs done c ne h =
    rw (created_lem id c h.absent, ← h.chunks, ← h.finished)
      (adopt-Receiving id c.next_ref (pending_of id c) (fresh_substream id false) (construct id c)
        h.unharmed (construct-Receiving id c ne))

received-Receiving :
    (id ref : ℕ) (s : Substream) (c : Conn) → Receiving id ref s c → received id c ≡ some s.pushed
unfolding received
received-Receiving id ref s c h = ground arith

-- A connection on which nothing is known of an id yet.
pub record IsNew (id : ℕ) (c : Conn) : Type 0 where
  pub connected : is_some c.info ≡ true
  pub absent : receiver_of id c ≡ none
  pub unbuffered : pending_of id c ≡ none

IsNew-Buffering : (id : ℕ) (c : Conn) → IsNew id c → Buffering id [] false c
unfolding total
IsNew-Buffering id c n = ground arith

finish-Receiving :
    (id ref : ℕ) (s : Substream) (c : Conn)
    → Receiving id ref s c
    → Receiving id ref (handed (eof ∷ []) s) (finish_receiver id c)
unfolding finish_receiver
finish-Receiving id ref s c h = rw (h.found, finish_receiver) (push-Receiving id ref s eof c h)

-- For an id other than 0 that is new on a connection, where nothing else happens on the connection
-- meanwhile, so that the five-second timer of what is buffered does not fire before the receiver is
-- created: wherever it is created among the writes of its stream, provided that those before it are
-- at most 2 MiB, it is handed every chunk in the order of arrival, and then the end.
pub received-create_between :
    (id : ℕ) (xs ys : List Chunk) (c : Conn)
    → id ≢ 0
    → IsNew id c
    → total xs ≤ pending_receiver_max_bytes
    → received id (finish_receiver id (write_all id ys (created id (write_all id xs c))))
      ≡ some (map chunk (xs ++ ys) ++ (eof ∷ []))
unfolding total
received-create_between id xs ys c ne n fits =
    let d : Conn = write_all id xs c in
    let before : Buffering id xs false d =
      write_all-Buffering id xs [] c (omega arith) (IsNew-Buffering id c n) in
    received-Receiving id d.next_ref _ _ (
      finish-Receiving id d.next_ref _ _
        (write_all-Receiving id d.next_ref ys _ _ (created-Receiving id xs false d ne before)))
    ∙ rw (append-nil (map chunk xs), map-append chunk xs ys)

-- For an id other than 0 that is new on a connection, where nothing else happens on the connection
-- meanwhile, so that the five-second timer of what is buffered does not fire before the receiver is
-- created: if the whole stream, at most 2 MiB, and its end arrive before the receiver is created, it
-- is handed the same chunks and the end.
pub received-create_after :
    (id : ℕ) (xs : List Chunk) (c : Conn)
    → id ≢ 0
    → IsNew id c
    → total xs ≤ pending_receiver_max_bytes
    → received id (created id (finish_receiver id (write_all id xs c)))
      ≡ some (map chunk xs ++ (eof ∷ []))
unfolding total
received-create_after id xs c ne n fits =
    let d : Conn = write_all id xs c in
    let before : Buffering id xs false d =
      write_all-Buffering id xs [] c (omega arith) (IsNew-Buffering id c n) in
    received-Receiving id (finish_receiver id d).next_ref _ _ (
      created-Receiving id xs true (finish_receiver id d) ne
        (finish_receiver-Buffering id xs d before))
