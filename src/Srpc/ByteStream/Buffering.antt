-- ===== src/Srpc/ByteStream/Buffering.antt =====
-- src/srpc/SrpcByteStream.ts: what is kept for a receiver before it exists.
use dk_server_foundation.Common.{
  ℕ, ◌+◌, ◌≤◌, ◌≡◌, refl, ap, subst, is_some, ◌∙◌, Bool, true, false, none, List, [], ◌∷◌, ◌++◌,
  nat_eq, or_else, length, arith, append_assoc, append-nil,
}
use dk_server_foundation.Srpc.ByteStream.{
  Chunk, pending_receiver_max_bytes, PendingReceiver, Conn, pending_of, receiver_of,
}
use dk_server_foundation.Srpc.ByteStream.Events.{
  new_pending, set_pending, buffer_chunk, change_pending, write_receiver, finish_receiver,
}
use dk_server_foundation.Srpc.ByteStream.Untouched.{pending_of-set_pending}
use dk_server_foundation.Srpc.ByteStream.Pending.{total, total-append}
use dk_server_foundation.Srpc.ByteStream.Receiving.{write_all}

-- Before it exists: the chunks that were written are buffered.
abbrev pub held : ℕ → Conn → PendingReceiver
held id c = or_else (pending_of id c) new_pending

pub record Buffering (id : ℕ) (xs : List Chunk) (done : Bool) (c : Conn) : Type 0 where
  pub connected : is_some c.info ≡ true
  pub absent : receiver_of id c ≡ none
  pub chunks : (held id c).chunks ≡ xs
  pub bytes : (held id c).bytes ≡ total xs
  pub finished : (held id c).finished ≡ done
  pub unharmed : (held id c).destroyed_error ≡ none

pub set_pending-Buffering :
    (id : ℕ) (xs : List Chunk) (done : Bool) (p : PendingReceiver) (c : Conn)
    → is_some c.info ≡ true
    → receiver_of id c ≡ none
    → p.chunks ≡ xs
    → p.bytes ≡ total xs
    → p.finished ≡ done
    → p.destroyed_error ≡ none
    → Buffering id xs done (set_pending id p c)
set_pending-Buffering id xs done p c info absent chunks bytes finished ok = record {
  connected = ground arith;
  absent = ground arith;
  chunks = ap (λ q. q.chunks) now ∙ chunks;
  bytes = ap (λ q. q.bytes) now ∙ bytes;
  finished = ap (λ q. q.finished) now ∙ finished;
  unharmed = ap (λ q. q.destroyed_error) now ∙ ok;
}
  where
    now : held id (set_pending id p c) ≡ p
    now = ground (arith, pending_of-set_pending id id p c)

pub change_pending-Buffering :
    (id : ℕ) (f : PendingReceiver → PendingReceiver) (c : Conn)
    → (held id c).destroyed_error ≡ none
    → change_pending id f c ≡ set_pending id (f (held id c)) c
unfolding change_pending
change_pending-Buffering id f c e = rw (e, change_pending)

-- A write that fits is added to the buffer.
pub record Added (x : Chunk) (p q : PendingReceiver) : Type 0 where
  pub chunks : q.chunks ≡ p.chunks ++ (x ∷ [])
  pub bytes : q.bytes ≡ p.bytes + length x
  pub finished : q.finished ≡ p.finished
  pub unharmed : q.destroyed_error ≡ p.destroyed_error

pub buffer_chunk-Added :
    (x : Chunk) (p : PendingReceiver)
    → p.bytes + length x ≤ pending_receiver_max_bytes
    → Added x p (buffer_chunk x p)
unfolding buffer_chunk
buffer_chunk-Added x p fits = ground arith

pub write_receiver-Buffering :
    (id : ℕ) (x : Chunk) (xs : List Chunk) (c : Conn)
    → total xs + length x ≤ pending_receiver_max_bytes
    → Buffering id xs false c
    → Buffering id (xs ++ (x ∷ [])) false (write_receiver id x c)
unfolding write_receiver total
write_receiver-Buffering id x xs c fits h =
    let new = buffer_chunk-Added x (held id c) (rw h.bytes fits) in
    rw (h.absent, write_receiver, change_pending-Buffering id (buffer_chunk x) c h.unharmed)
      (set_pending-Buffering id (xs ++ (x ∷ [])) false (buffer_chunk x (held id c)) c h.connected
        h.absent (new.chunks ∙ ap (λ cs. cs ++ (x ∷ [])) h.chunks)
        (new.bytes ∙ omega (arith, h.bytes, total-append xs (x ∷ []))) (new.finished ∙ h.finished)
        (new.unharmed ∙ h.unharmed))

pub finish_receiver-Buffering :
    (id : ℕ) (xs : List Chunk) (c : Conn)
    → Buffering id xs false c
    → Buffering id xs true (finish_receiver id c)
unfolding finish_receiver
finish_receiver-Buffering id xs c h =
    rw
      (
        h.absent,
        finish_receiver,
        change_pending-Buffering id (λ p. record p { finished = true }) c h.unharmed,
      )
      (set_pending-Buffering id xs true (record (held id c) { finished = true }) c h.connected
        h.absent h.chunks h.bytes refl h.unharmed)

pub write_all-Buffering :
    (id : ℕ) (ys xs : List Chunk) (c : Conn)
    → total xs + total ys ≤ pending_receiver_max_bytes
    → Buffering id xs false c
    → Buffering id (xs ++ ys) false (write_all id ys c)
unfolding write_all total
write_all-Buffering id [] xs c fits h = rw (append-nil xs) h
write_all-Buffering id (y ∷ ys) xs c fits h =
    subst (λ zs. Buffering id zs false (write_all id (y ∷ ys) c)) (append_assoc xs (y ∷ []) ys)
      (write_all-Buffering id ys (xs ++ (y ∷ [])) (write_receiver id y c)
        (omega (arith, total-append xs (y ∷ [])))
        (write_receiver-Buffering id y xs c (omega arith) h))
