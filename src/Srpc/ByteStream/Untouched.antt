-- ===== src/Srpc/ByteStream/Untouched.antt =====
-- src/srpc/SrpcByteStream.ts: which operations leave the buffers of pending receivers alone.
use mathlib.Core.Option
use dk_server_foundation.Common.{
  ℕ, ◌≡◌, refl, ◌∙◌, none, List, [], ◌∷◌, ◌++◌, lookup, lookup-insert, lookup-delete, ◌==◌, nat_eq,
  if◌then◌else◌, arith, Option-cases, inl, inr,
}
use dk_server_foundation.Srpc.ByteStream.{
  Chunk, PendingReceiver, Pushed, eof, Substream, Conn, construct, update, push, cleanup,
  destroy_object, push_all, forget, deliver, pending_of, create_sender,
}
use dk_server_foundation.Srpc.ByteStream.Events.{
  set_pending, destroy_remotely, poll_for_drain, write_object, final_object, end_object,
  destroy_all, disconnect, polled,
}

-- Operations on objects leave the buffers alone.
module _ (j : ℕ) where
  pub pending_of-update :
      (ref : ℕ) (f : Substream → Substream) (c : Conn)
      → pending_of j (update ref f c) ≡ pending_of j c
  unfolding update
  pending_of-update ref f c = ground arith

  pub pending_of-cleanup : (ref : ℕ) (c : Conn) → pending_of j (cleanup ref c) ≡ pending_of j c
  unfolding cleanup
  pending_of-cleanup ref c = ground arith

  pub pending_of-destroy_object :
      (ref : ℕ) (c : Conn) → pending_of j (destroy_object ref c) ≡ pending_of j c
  unfolding destroy_object
  pending_of-destroy_object ref c = ground arith

  pub pending_of-push :
      (ref : ℕ) (p : Pushed) (c : Conn) → pending_of j (push ref p c) ≡ pending_of j c
  unfolding push
  pending_of-push ref p c = pending_of-update ref _ c

  pub pending_of-push_all :
      (ref : ℕ) (xs : List Chunk) (c : Conn) → pending_of j (push_all ref xs c) ≡ pending_of j c
  unfolding push_all push
  pending_of-push_all ref [] c = refl
  pending_of-push_all ref (x ∷ xs) c = pending_of-push_all ref xs _ ∙ pending_of-update ref _ c

  pub pending_of-construct : (id : ℕ) (c : Conn) → pending_of j (construct id c) ≡ pending_of j c
  unfolding construct lookup
  pending_of-construct id c = ground arith

  pub pending_of-destroy_all :
      (refs : List ℕ) (c : Conn) → pending_of j (destroy_all refs c) ≡ pending_of j c
  unfolding destroy_all
  pending_of-destroy_all [] c = refl
  pending_of-destroy_all (ref ∷ refs) c =
      pending_of-destroy_all refs _ ∙ pending_of-destroy_object ref c

  pub pending_of-deliver :
      (ref : ℕ) (p : PendingReceiver) (c : Conn) → pending_of j (deliver ref p c) ≡ pending_of j c
  unfolding deliver push
  pending_of-deliver ref p c = ground (
    arith,
    pending_of-destroy_object ref c,
    pending_of-push_all ref p.chunks c,
    pending_of-update ref (λ s. record s { pushed = s.pushed ++ (eof ∷ []) })
        (push_all ref p.chunks c),
  )

  pub pending_of-set_pending :
      (id : ℕ) (p : PendingReceiver) (c : Conn)
      → pending_of j (set_pending id p c)
        ≡ (if id == j then Option.map (λ _. p) c.info else pending_of j c)
  pending_of-set_pending id p c = elim (Option-cases c.info) [
    | inl e ↦ ground arith
    | inr (i, e) ↦ ground (arith, lookup-insert id j p i.pending_receivers)
  ]

  pub pending_of-forget :
      (id : ℕ) (c : Conn) → pending_of j (forget id c) ≡ (if id == j then none else pending_of j c)
  pending_of-forget id c = elim (Option-cases c.info) [
    | inl e ↦ ground arith
    | inr (i, e) ↦ ground (arith, lookup-delete id j i.pending_receivers)
  ]

pub pending_of-destroy_remotely :
    (j ref : ℕ) (c : Conn) → pending_of j (destroy_remotely ref c) ≡ pending_of j c
unfolding destroy_remotely
pending_of-destroy_remotely j ref c = ground arith

-- The events that only touch objects.
pub pending_of-write_object :
    (j ref : ℕ) (x : Chunk) (callback after later : ℕ) (c : Conn)
    → pending_of j (write_object ref x callback after later c) ≡ pending_of j c
unfolding write_object
pending_of-write_object j ref x callback after later c = ground arith

pub pending_of-final_object :
    (j ref callback : ℕ) (c : Conn) → pending_of j (final_object ref callback c) ≡ pending_of j c
unfolding final_object
pending_of-final_object j ref callback c = ground arith

pub pending_of-end_object :
    (j ref : ℕ) (c : Conn) → pending_of j (end_object ref c) ≡ pending_of j c
unfolding end_object
pending_of-end_object j ref c = ground arith

pub pending_of-create_sender : (j : ℕ) (c : Conn) → pending_of j (create_sender c) ≡ pending_of j c
unfolding create_sender
pending_of-create_sender j c = pending_of-construct j 0 c

pub pending_of-poll_for_drain :
    (j ref buffered : ℕ) (c : Conn) → pending_of j (poll_for_drain ref buffered c) ≡ pending_of j c
unfolding poll_for_drain
pending_of-poll_for_drain j ref buffered c = pending_of-update j ref (polled buffered) c

pub pending_of-disconnect : (j : ℕ) (c : Conn) → pending_of j (disconnect c) ≡ pending_of j c
unfolding disconnect
pending_of-disconnect j c = pending_of-destroy_all j c.disconnect_handlers c
