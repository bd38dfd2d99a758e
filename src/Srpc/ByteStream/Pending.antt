-- ===== src/Srpc/ByteStream/Pending.antt =====
-- src/srpc/SrpcByteStream.ts: what is buffered for receivers that do not exist yet stays within
-- bounds, whatever events come.
use dk_server_foundation.Common.{
  ℕ, ◌+◌, ◌≤◌, ◌≡◌, refl, sym, subst, ◌∙◌, String, Bool, true, false, Option, none, some, List, [],
  ◌∷◌, ◌++◌, ◌==◌, nat_eq, if◌then◌else◌, or_else, length, arith, Option-cases, Bool-cases, inl,
  inr, ◌⊎◌,
}
use dk_server_foundation.Srpc.ByteStream.{
  Chunk, pending_receiver_max_bytes, StreamError, expired_before_creation, PendingReceiver, chunk,
  eof, Conn, construct, push, destroy_object, forget, adopt, pending_of, receiver_of, sender_of,
  create_receiver, create_sender,
}
use dk_server_foundation.Srpc.ByteStream.Events.{
  new_pending, set_pending, fail_pending, buffer_chunk, change_pending, write_receiver,
  finish_receiver, destroy_remotely, destroy_substream, expire, poll_for_drain, write_object,
  final_object, end_object, disconnect, error_text, Event, creates_receiver, creates_sender,
  receives_write, receives_finish, receives_destroy, expires, polls, writes, finals, ends, destroys,
  disconnects, step, run,
}
use dk_server_foundation.Srpc.ByteStream.Untouched.{
  pending_of-destroy_object, pending_of-push, pending_of-construct, pending_of-deliver,
  pending_of-set_pending, pending_of-forget, pending_of-destroy_remotely, pending_of-write_object,
  pending_of-final_object, pending_of-end_object, pending_of-create_sender,
  pending_of-poll_for_drain, pending_of-disconnect,
}

unfoldable pub total : List Chunk → ℕ
total [] = 0
total (x ∷ xs) = length x + total xs

pub total-append : (xs ys : List Chunk) → total (xs ++ ys) ≡ total xs + total ys
unfolding total
total-append [] ys = omega arith
total-append (x ∷ xs) ys = omega (arith, total-append xs ys)

-- What is buffered: its size is counted, never over the limit, and nothing is kept after a failure.
pub record IsBounded (p : PendingReceiver) : Type 0 where
  pub counted : p.bytes ≡ total p.chunks
  pub within : p.bytes ≤ pending_receiver_max_bytes
  pub emptied : (p.destroyed_error ≡ none) ⊎ (p.chunks ≡ [])

abbrev pub AllBounded : Conn → Type 0
AllBounded c = (id : ℕ) (p : PendingReceiver) → pending_of id c ≡ some p → IsBounded p

new_pending-IsBounded : IsBounded new_pending
unfolding total
new_pending-IsBounded = record { counted = refl; within = omega arith; emptied = inl refl }

fail_pending-IsBounded : (e : StreamError) (p : PendingReceiver) → IsBounded (fail_pending e p)
unfolding total
fail_pending-IsBounded e p = record { counted = refl; within = omega arith; emptied = inr refl }

buffer_chunk-IsBounded :
    (x : Chunk) (p : PendingReceiver)
    → p.destroyed_error ≡ none
    → IsBounded p
    → IsBounded (buffer_chunk x p)
unfolding buffer_chunk total
buffer_chunk-IsBounded x p ok h = ground (arith, total-append p.chunks (x ∷ []))

set_pending-AllBounded :
    (id : ℕ) (p : PendingReceiver) (c : Conn)
    → IsBounded p
    → AllBounded c
    → AllBounded (set_pending id p c)
set_pending-AllBounded id p c h all j q e = elim (Bool-cases (id == j)) [
  | inl same ↦
      let same_p : p ≡ q = ground (arith, pending_of-set_pending j id p c) in
      subst IsBounded same_p h
  | inr other ↦ all j q (ground (arith, pending_of-set_pending j id p c))
]

pending-IsBounded :
    (id : ℕ) (c : Conn) → AllBounded c → IsBounded (or_else (pending_of id c) new_pending)
pending-IsBounded id c all = elim (Option-cases (pending_of id c)) [
  | inl e ↦ rw e new_pending-IsBounded
  | inr (p, e) ↦ rw e (all id p e)
]

change_pending-AllBounded :
    (id : ℕ) (f : PendingReceiver → PendingReceiver) (c : Conn)
    → ((p : PendingReceiver) → p.destroyed_error ≡ none → IsBounded p → IsBounded (f p))
    → AllBounded c
    → AllBounded (change_pending id f c)
unfolding change_pending
change_pending-AllBounded id f c keep all =
    elim (Option-cases (or_else (pending_of id c) new_pending).destroyed_error) [
      | inl e ↦
          rw (e, change_pending)
            (set_pending-AllBounded id _ c (keep _ e (pending-IsBounded id c all)) all)
      | inr (x, e) ↦ rw (e, change_pending) all
    ]

-- An operation that leaves the buffers alone keeps them bounded.
same-AllBounded :
    (c d : Conn) → ((j : ℕ) → pending_of j d ≡ pending_of j c) → AllBounded c → AllBounded d
same-AllBounded c d same all j p e = all j p (sym (same j) ∙ e)

adopt-AllBounded :
    (id ref : ℕ) (o : Option PendingReceiver) (c : Conn)
    → AllBounded c
    → AllBounded (adopt id ref o c)
unfolding adopt
adopt-AllBounded id ref none c all = all
adopt-AllBounded id ref (some p) c all = λ j q e.
    all j q
      (ground (arith, sym (pending_of-deliver j ref p (forget id c)) ∙ e, pending_of-forget j id c))

create_receiver-AllBounded :
    (id : ℕ) (c : Conn) → AllBounded c → AllBounded (or_else (create_receiver id c) c)
unfolding create_receiver
create_receiver-AllBounded id c all = elim (Option-cases (receiver_of id c)) [
  | inr (ref, r) ↦ rw (r, create_receiver) all
  | inl r ↦
      rw (r, create_receiver)
        (adopt-AllBounded id c.next_ref (pending_of id (construct id c)) _
          (same-AllBounded c (construct id c) (λ j. pending_of-construct j id c) all))
]

write_receiver-AllBounded :
    (id : ℕ) (x : Chunk) (c : Conn) → AllBounded c → AllBounded (write_receiver id x c)
unfolding write_receiver
write_receiver-AllBounded id x c all = elim (Option-cases (receiver_of id c)) [
  | inr (ref, r) ↦
      rw (r, write_receiver)
        (same-AllBounded c (push ref (chunk x) c) (λ j. pending_of-push j ref (chunk x) c) all)
  | inl r ↦
      rw (r, write_receiver)
        (change_pending-AllBounded id (buffer_chunk x) c (buffer_chunk-IsBounded x) all)
]

finish_receiver-AllBounded : (id : ℕ) (c : Conn) → AllBounded c → AllBounded (finish_receiver id c)
unfolding finish_receiver
finish_receiver-AllBounded id c all = elim (Option-cases (receiver_of id c)) [
  | inr (ref, r) ↦
      rw (r, finish_receiver)
        (same-AllBounded c (push ref eof c) (λ j. pending_of-push j ref eof c) all)
  | inl r ↦
      rw (r, finish_receiver)
        (change_pending-AllBounded id (λ p. record p { finished = true }) c
          (λ p ok h. record { counted = h.counted; within = h.within; emptied = h.emptied }) all)
]

destroy_substream-AllBounded :
    (id : ℕ) (text : Option String) (c : Conn)
    → AllBounded c
    → AllBounded (destroy_substream id text c)
unfolding destroy_substream
destroy_substream-AllBounded id text c all = elim (Option-cases (receiver_of id c)) [
  | inr (ref, r) ↦
      rw (r, destroy_substream)
        (same-AllBounded c (destroy_remotely ref c) (λ j. pending_of-destroy_remotely j ref c) all)
  | inl r ↦ elim (Option-cases (sender_of id c)) [
    | inr (ref, s) ↦
        rw (r, destroy_substream, s)
          (same-AllBounded c (destroy_remotely ref c) (λ j. pending_of-destroy_remotely j ref c)
            all)
    | inl s ↦
        rw (r, destroy_substream, s)
          (set_pending-AllBounded id
            (fail_pending (error_text text) (or_else (pending_of id c) new_pending)) c
            (fail_pending-IsBounded (error_text text) (or_else (pending_of id c) new_pending)) all)
  ]
]

if-AllBounded :
    (b : Bool) (c d : Conn) → AllBounded c → AllBounded d → AllBounded (if b then c else d)
if-AllBounded true c d h k = h
if-AllBounded false c d h k = k

expire-AllBounded : (id : ℕ) (c : Conn) → AllBounded c → AllBounded (expire id c)
unfolding expire
expire-AllBounded id c all = elim (Option-cases (pending_of id c)) [
  | inl e ↦ rw (e, expire) all
  | inr (p, e) ↦
      rw (e, expire)
        (if-AllBounded p.timeout _ c
          (set_pending-AllBounded id (fail_pending expired_before_creation p) c
            (fail_pending-IsBounded expired_before_creation p) all)
          all)
]

step-AllBounded : (e : Event) (c : Conn) → AllBounded c → AllBounded (step e c)
unfolding step
step-AllBounded (creates_receiver id) c all = create_receiver-AllBounded id c all
step-AllBounded creates_sender c all =
    same-AllBounded c (create_sender c) (λ j. pending_of-create_sender j c) all
step-AllBounded (receives_write id x) c all = write_receiver-AllBounded id x c all
step-AllBounded (receives_finish id) c all = finish_receiver-AllBounded id c all
step-AllBounded (receives_destroy id text) c all = destroy_substream-AllBounded id text c all
step-AllBounded (expires id) c all = expire-AllBounded id c all
step-AllBounded (polls ref buffered) c all =
    same-AllBounded c (poll_for_drain ref buffered c)
      (λ j. pending_of-poll_for_drain j ref buffered c) all
step-AllBounded (writes ref x callback after later) c all =
    same-AllBounded c (write_object ref x callback after later c)
      (λ j. pending_of-write_object j ref x callback after later c) all
step-AllBounded (finals ref callback) c all =
    same-AllBounded c (final_object ref callback c) (λ j. pending_of-final_object j ref callback c)
      all
step-AllBounded (ends ref) c all =
    same-AllBounded c (end_object ref c) (λ j. pending_of-end_object j ref c) all
step-AllBounded (destroys ref) c all =
    same-AllBounded c (destroy_object ref c) (λ j. pending_of-destroy_object j ref c) all
step-AllBounded disconnects c all =
    same-AllBounded c (disconnect c) (λ j. pending_of-disconnect j c) all

-- Whatever happens, each pending receiver counts exactly the bytes that it holds, at most
-- 2 MiB, and holds none after it failed.
pub run-AllBounded : (es : List Event) (c : Conn) → AllBounded c → AllBounded (run es c)
unfolding run
run-AllBounded [] c all = all
run-AllBounded (e ∷ es) c all = run-AllBounded es (step e c) (step-AllBounded e c all)
