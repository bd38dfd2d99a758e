-- ===== src/Srpc/Server/Run/Routing.antt =====
-- The maps of src/srpc/SrpcServer.ts against its stream objects: who is reached by an id.
use dk_server_foundation.Common.{
  ℕ, String, ◌≡◌, refl, inl, inr, true, false, not, ◌||◌, Option, none, some, Map, lookup, insert,
  delete, lookup-insert, lookup-delete, nat_eq, string_eq, arith, nat_beq_iff, if◌then◌else◌, ◌==◌,
  Bool-cases, Option-cases, if-intro,
}
use text.Mathlib.TextEquality.{eq_iff}
use dk_server_foundation.Srpc.Messages.{SrpcDisconnectCause}
use dk_server_foundation.Srpc.Server.{
  SrpcStream, SrpcServer, is_gone, store, stream_of, get_current, is_current_stream,
}
use dk_server_foundation.Srpc.Server.Lifecycle.{
  delete_own, gone_stream, cleanup_live, cleanup_stream, enter_stream, activate_stream,
}
use dk_server_foundation.Srpc.Server.Tracking.{
  Tracks, Tracks-same, Tracks-insert, Tracks-delete, Tracks-delete_own, Tracks-insert_again,
  Tracks-delete_absent,
}

module _ {J : Type 0} where
  -- The keys by which an object is to be reached: none if it is gone.
  abbrev pub live_id : Option (SrpcStream J) → Option String
  live_id none = none
  live_id (some st) = if is_gone st then none else some st.id

  abbrev pub active_client : Option (SrpcStream J) → Option String
  active_client none = none
  active_client (some st) =
      if is_gone st then none else if st.is_activated then some st.info.client_id else none

  abbrev pub pending_client : Option (SrpcStream J) → Option String
  pending_client none = none
  pending_client (some st) =
      if is_gone st then none else if st.is_activated then none else some st.info.client_id

-- The maps lead exactly to the live streams with the id looked up, activated ones in one map and
-- pending ones in the other, and a client has no more than one.
pub record AreRouted {J : Type 0} (objects : Map ℕ (SrpcStream J))
    (by_id active pending : Map String ℕ) : Type 0 where
  pub ids : Tracks by_id (λ r. live_id (lookup r objects))
  pub actives : Tracks active (λ r. active_client (lookup r objects))
  pub pendings : Tracks pending (λ r. pending_client (lookup r objects))
  pub exclusive : (c : String) (r : ℕ) → lookup c pending ≡ some r → lookup c active ≡ none

delete_own-exclusive :
    (k : String) (ref : ℕ) (active pending : Map String ℕ)
    → ((c : String) (r : ℕ) → lookup c pending ≡ some r → lookup c active ≡ none)
    → (c : String) (r : ℕ) → lookup c (delete_own k ref pending) ≡ some r
    → lookup c (delete_own k ref active) ≡ none
delete_own-exclusive k ref active pending h c r e =
    ground (arith, h c r, lookup-delete k c pending, lookup-delete k c active, eq_iff k c)

module _ {J : Type 0} where
  abbrev pub IsRouted : SrpcServer J → Type 0
  IsRouted s =
      AreRouted s.objects s.streams_by_id s.streams_by_client_id s.pending_streams_by_client_id

  lookup-insert_through :
      (f : Option (SrpcStream J) → Option String) (ref : ℕ) (t : SrpcStream J)
      (objects : Map ℕ (SrpcStream J)) (r : ℕ)
      → f (lookup r (insert ref t objects))
        ≡ (if ref == r then f (some t) else f (lookup r objects))
  lookup-insert_through f ref t objects r = ground (arith, lookup-insert ref r t objects)

  same_through :
      (f : Option (SrpcStream J) → Option String) (ref : ℕ) (t : SrpcStream J)
      (objects : Map ℕ (SrpcStream J))
      → f (some t) ≡ f (lookup ref objects)
      → (r : ℕ) → f (lookup r (insert ref t objects)) ≡ f (lookup r objects)
  same_through f ref t objects e r = elim (Bool-cases (ref == r)) [
    | inl q ↦ ground (arith, lookup-insert_through f ref t objects r, nat_beq_iff ref r)
    | inr q ↦ ground (arith, lookup-insert_through f ref t objects r)
  ]

  -- A change of an object that keeps its keys.
  pub store-IsRouted :
      (ref : ℕ) (t : SrpcStream J) (s : SrpcServer J)
      → live_id (some t) ≡ live_id (stream_of ref s)
      → active_client (some t) ≡ active_client (stream_of ref s)
      → pending_client (some t) ≡ pending_client (stream_of ref s)
      → IsRouted s
      → IsRouted (store ref t s)
  store-IsRouted ref t s a b c h = record {
    ids = Tracks-same s.streams_by_id _ _ (same_through live_id ref t s.objects a) h.ids;
    actives =
        Tracks-same s.streams_by_client_id _ _ (same_through active_client ref t s.objects b)
          h.actives;
    pendings =
        Tracks-same s.pending_streams_by_client_id _ _
          (same_through pending_client ref t s.objects c) h.pendings;
    exclusive = h.exclusive;
  }

  pub cleanup_live-IsRouted :
      (ref : ℕ) (st : SrpcStream J) (force : Option SrpcDisconnectCause) (s : SrpcServer J)
      → stream_of ref s ≡ some st
      → is_gone st ≡ false
      → IsRouted s
      → IsRouted (cleanup_live ref st force s)
  unfolding cleanup_live
  cleanup_live-IsRouted ref st force s e g h = record {
    ids =
        Tracks-delete s.streams_by_id _ _ ref st.id
          (lookup-insert_through live_id ref (gone_stream st) s.objects) (ground (arith, e, g))
          h.ids;
    actives =
        Tracks-delete_own s.streams_by_client_id _ _ ref st.info.client_id
          (lookup-insert_through active_client ref (gone_stream st) s.objects)
          (ground (arith, e, g)) h.actives;
    pendings =
        Tracks-delete_own s.pending_streams_by_client_id _ _ ref st.info.client_id
          (lookup-insert_through pending_client ref (gone_stream st) s.objects)
          (ground (arith, e, g)) h.pendings;
    exclusive =
        delete_own-exclusive st.info.client_id ref s.streams_by_client_id
          s.pending_streams_by_client_id h.exclusive;
  }

  pub cleanup_stream-IsRouted :
      (ref : ℕ) (force : Option SrpcDisconnectCause) (s : SrpcServer J)
      → IsRouted s
      → IsRouted (cleanup_stream ref force s)
  unfolding cleanup_stream
  cleanup_stream-IsRouted ref force s h = elim (Option-cases (stream_of ref s)) [
    | inl e ↦ rw (cleanup_stream, e) h
    | inr (st, e) ↦
        rw (cleanup_stream, e)
          (if-intro IsRouted (is_gone st) s (cleanup_live ref st force s) (λ _. h)
            (λ g. cleanup_live-IsRouted ref st force s e g h))
  ]

  pub enter_stream-IsRouted :
      (ref : ℕ) (st : SrpcStream J) (s : SrpcServer J)
      → stream_of ref s ≡ none
      → lookup st.id s.streams_by_id ≡ none
      → get_current st.info.client_id s ≡ none
      → is_gone st ≡ false
      → st.is_activated ≡ false
      → IsRouted s
      → IsRouted (enter_stream ref st s)
  unfolding enter_stream get_current
  enter_stream-IsRouted ref st s e f c g a h = record {
    ids =
        Tracks-insert s.streams_by_id _ _ ref st.id
          (λ r. ground (arith, lookup-insert_through live_id ref st s.objects r, g))
          (ground (arith, e)) f h.ids;
    actives =
        Tracks-same s.streams_by_client_id _ _
          (same_through active_client ref st s.objects (ground (arith, e, g, a))) h.actives;
    pendings =
        Tracks-insert s.pending_streams_by_client_id _ _ ref st.info.client_id
          (λ r. ground (arith, lookup-insert_through pending_client ref st s.objects r, g, a))
          (ground (arith, e)) (ground (arith, c)) h.pendings;
    exclusive = λ k r q. ground (
      arith,
      lookup-insert st.info.client_id k ref s.pending_streams_by_client_id,
      eq_iff st.info.client_id k,
      h.exclusive k r,
      c,
    );
  }

  activated-IsRouted :
      (ref : ℕ) (st t : SrpcStream J) (s : SrpcServer J)
      → stream_of ref s ≡ some st
      → live_id (some t) ≡ live_id (some st)
      → t.info ≡ st.info
      → is_gone st ≡ false
      → is_gone t ≡ false
      → t.is_activated ≡ true
      → IsRouted s
      → AreRouted
          (insert ref t s.objects)
          s.streams_by_id
          (insert t.info.client_id ref s.streams_by_client_id)
          (delete t.info.client_id s.pending_streams_by_client_id)
  unfolding Tracks
  activated-IsRouted ref st t s e a b g i act h = elim (Bool-cases st.is_activated) [
    | inl old ↦
        let free : lookup t.info.client_id s.pending_streams_by_client_id ≡ none =
          elim (Option-cases (lookup t.info.client_id s.pending_streams_by_client_id)) [
            | inl n ↦ n
            | inr (r, q) ↦ ground (
              arith,
              e,
              b,
              g,
              old,
              h.exclusive t.info.client_id r,
              h.actives t.info.client_id ref,
            )
          ] in
        record {
          ids =
              Tracks-same s.streams_by_id _ _
                (same_through live_id ref t s.objects (ground (arith, e, a))) h.ids;
          actives =
              Tracks-insert_again s.streams_by_client_id _ _ ref t.info.client_id
                (same_through active_client ref t s.objects (ground (arith, e, b, g, i, act, old)))
                (ground (arith, e, b, g, old)) h.actives;
          pendings =
              Tracks-delete_absent s.pending_streams_by_client_id _ _ ref t.info.client_id
                (same_through pending_client ref t s.objects (ground (arith, e, b, g, i, act, old)))
                free h.pendings;
          exclusive = λ k r q. ground (
            arith,
            lookup-insert t.info.client_id k ref s.streams_by_client_id,
            lookup-delete t.info.client_id k s.pending_streams_by_client_id,
            eq_iff t.info.client_id k,
            h.exclusive k r,
          );
        }
    | inr new ↦
        let waits : lookup t.info.client_id s.pending_streams_by_client_id ≡ some ref =
          (h.pendings t.info.client_id ref).1 (ground (arith, e, b, g, new)) in
        record {
          ids =
              Tracks-same s.streams_by_id _ _
                (same_through live_id ref t s.objects (ground (arith, e, a))) h.ids;
          actives =
              Tracks-insert s.streams_by_client_id _ _ ref t.info.client_id
                (λ r. ground (arith, lookup-insert_through active_client ref t s.objects r, i, act))
                (ground (arith, e, g, new)) (h.exclusive t.info.client_id ref waits) h.actives;
          pendings =
              Tracks-delete s.pending_streams_by_client_id _ _ ref t.info.client_id
                (λ r.
                  ground (arith, lookup-insert_through pending_client ref t s.objects r, i, act))
                (ground (arith, e, b, g, new)) h.pendings;
          exclusive = λ k r q. ground (
            arith,
            lookup-insert t.info.client_id k ref s.streams_by_client_id,
            lookup-delete t.info.client_id k s.pending_streams_by_client_id,
            eq_iff t.info.client_id k,
            h.exclusive k r,
          );
        }
  ]

  pub activate_stream-IsRouted :
      (ref : ℕ) (st t : SrpcStream J) (s : SrpcServer J)
      → stream_of ref s ≡ some st
      → live_id (some t) ≡ live_id (some st)
      → t.info ≡ st.info
      → is_gone t ≡ is_gone st
      → IsRouted s
      → IsRouted (activate_stream ref t s)
  unfolding activate_stream
  activate_stream-IsRouted ref st t s e a b c h =
      if-intro IsRouted (is_gone t || not (is_current_stream ref t s)) s _ (λ _. h)
        (λ g.
          activated-IsRouted ref st (record t { is_activated = true }) s e a b (ground (arith, c))
            (ground (arith)) refl h)
