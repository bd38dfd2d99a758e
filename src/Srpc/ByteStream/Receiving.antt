-- ===== src/Srpc/ByteStream/Receiving.antt =====
-- src/srpc/SrpcByteStream.ts: what a receiver is handed while it exists.
use dk_server_foundation.Common.{
  ℕ, ◌≡◌, subst, Option, none, some, List, [], ◌∷◌, ◌++◌, map, lookup, lookup-insert_self, nat_eq,
  arith, append_assoc, append-nil,
}
use mathlib.Core.Option
use dk_server_foundation.Srpc.ByteStream.{
  Chunk, Pushed, chunk, Substream, Conn, push, push_all, receiver_of,
}
use dk_server_foundation.Srpc.ByteStream.Events.{write_receiver}

-- Frames for one id, as they arrive.
unfoldable pub write_all : ℕ → List Chunk → Conn → Conn
write_all id [] c = c
write_all id (x ∷ xs) c = write_all id xs (write_receiver id x c)

-- What the receiver of an id was handed, if there is one.
unfoldable pub received : ℕ → Conn → Option (List Pushed)
received id c = elim (receiver_of id c) [
  | none ↦ none
  | some ref ↦ Option.map (λ s. s.pushed) (lookup ref c.objects)
]

-- While the receiver exists: it is the object `s` under `ref`.
pub record Receiving (id ref : ℕ) (s : Substream) (c : Conn) : Type 0 where
  pub found : receiver_of id c ≡ some ref
  pub object : lookup ref c.objects ≡ some s

abbrev pub handed : List Pushed → Substream → Substream
handed ps s = record s { pushed = s.pushed ++ ps }

pub push-Receiving :
    (id ref : ℕ) (s : Substream) (p : Pushed) (c : Conn)
    → Receiving id ref s c
    → Receiving id ref (handed (p ∷ []) s) (push ref p c)
unfolding push
push-Receiving id ref s p c h = ground (arith, lookup-insert_self ref (handed (p ∷ []) s) c.objects)

pub handed-append :
    (ps qs : List Pushed) (s : Substream) → handed qs (handed ps s) ≡ handed (ps ++ qs) s
handed-append ps qs s = rw (append_assoc s.pushed ps qs)

pub handed-nil : (s : Substream) → handed [] s ≡ s
handed-nil s = ground (arith, append-nil s.pushed)

pub push_all-Receiving :
    (id ref : ℕ) (xs : List Chunk) (s : Substream) (c : Conn)
    → Receiving id ref s c
    → Receiving id ref (handed (map chunk xs) s) (push_all ref xs c)
unfolding push_all
push_all-Receiving id ref [] s c h = rw (handed-nil s) h
push_all-Receiving id ref (x ∷ xs) s c h =
    subst (λ t. Receiving id ref t (push_all ref (x ∷ xs) c))
      (handed-append (chunk x ∷ []) (map chunk xs) s)
      (push_all-Receiving id ref xs (handed (chunk x ∷ []) s) (push ref (chunk x) c)
        (push-Receiving id ref s (chunk x) c h))

pub write_all-Receiving :
    (id ref : ℕ) (xs : List Chunk) (s : Substream) (c : Conn)
    → Receiving id ref s c
    → Receiving id ref (handed (map chunk xs) s) (write_all id xs c)
unfolding write_all write_receiver
write_all-Receiving id ref [] s c h = rw (handed-nil s) h
write_all-Receiving id ref (x ∷ xs) s c h =
    rw (h.found, write_receiver)
      (subst (λ t. Receiving id ref t (write_all id xs (push ref (chunk x) c)))
        (handed-append (chunk x ∷ []) (map chunk xs) s)
        (write_all-Receiving id ref xs (handed (chunk x ∷ []) s) (push ref (chunk x) c)
          (push-Receiving id ref s (chunk x) c h)))
