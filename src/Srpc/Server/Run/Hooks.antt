-- ===== src/Srpc/Server/Run/Hooks.antt =====
-- The hooks and the end of a stream of src/srpc/SrpcServer.ts keep the streams reached by their ids.
use dk_server_foundation.Common.{
  ℕ, String, ◌≡◌, refl, ap, subst, ◌∙◌, inl, inr, Bool, true, false, not, ◌&&◌, ◌||◌, Option, none,
  some, [], ◌∷◌, Map, lookup, lookup-insert, lookup-delete, nat_eq, string_eq, arith, nat_beq_iff,
  Option-cases, if-intro, leb,
}
use text.Mathlib.TextEquality.{eq_iff}
use dk_server_foundation.Srpc.Messages.{SrpcDisconnectCause}
use dk_server_foundation.Srpc.Server.{
  Stage, SrpcStream, SrpcServer, is_gone, store, stream_of, get_current, is_current_stream,
  with_stream,
}
use dk_server_foundation.Srpc.Server.Lifecycle.{
  gone_stream, cleanup_live, cleanup_stream, enter_stream, handle_stream_established, after_check,
  after_connected, after_failure, to_stage, cleanup_if, cleanup_each,
}
use dk_server_foundation.Srpc.Server.Tracking.{Tracks}
use dk_server_foundation.Srpc.Server.Run.Routing.{
  IsRouted, store-IsRouted, cleanup_stream-IsRouted, cleanup_live-IsRouted, enter_stream-IsRouted,
  activate_stream-IsRouted,
}

module _ {J : Type 0} where
  -- The current stream of a client is live.
  current-live :
      (c : String) (r : ℕ) (s : SrpcServer J)
      → get_current c s ≡ some r
      → IsRouted s
      → (st : SrpcStream J) × (stream_of r s ≡ some st)
        × (is_gone st ≡ false)
        × (st.info.client_id ≡ c)
  unfolding get_current Tracks
  current-live c r s e h = elim (Option-cases (stream_of r s)) [
    | inl n ↦ absurd (ground (arith, n, h.actives c r, h.pendings c r))
    | inr (st, q) ↦ (
      st,
      q,
      ground (arith, q, h.actives c r, h.pendings c r),
      ground (arith, q, h.actives c r, h.pendings c r),
    )
  ]

  superseded-free :
      (r : ℕ) (st : SrpcStream J) (force : Option SrpcDisconnectCause) (s : SrpcServer J)
      → stream_of r s ≡ some st
      → is_gone st ≡ false
      → get_current st.info.client_id s ≡ some r
      → IsRouted s
      → get_current st.info.client_id (cleanup_live r st force s) ≡ none
  unfolding get_current cleanup_live
  superseded-free r st force s q g e h = ground (
    arith,
    nat_beq_iff r r,
    eq_iff st.info.client_id st.info.client_id,
    lookup-delete st.info.client_id st.info.client_id s.pending_streams_by_client_id,
    lookup-delete st.info.client_id st.info.client_id s.streams_by_client_id,
    h.exclusive st.info.client_id r,
  )

  superseded-IsRouted :
      (ref r : ℕ) (t st : SrpcStream J) (s : SrpcServer J)
      → stream_of ref s ≡ none
      → lookup t.id s.streams_by_id ≡ none
      → get_current t.info.client_id s ≡ some r
      → stream_of r s ≡ some st
      → is_gone st ≡ false
      → st.info.client_id ≡ t.info.client_id
      → is_gone t ≡ false
      → t.is_activated ≡ false
      → IsRouted s
      → IsRouted (enter_stream ref t (cleanup_live r st (some SrpcDisconnectCause.supersede) s))
  superseded-IsRouted ref r t st s n f e q live same g a h =
      let s' : SrpcServer J = cleanup_live r st (some SrpcDisconnectCause.supersede) s in
      enter_stream-IsRouted ref t s'
        (unfold cleanup_live in
          ground (arith, lookup-insert r ref (gone_stream st) s.objects, nat_beq_iff r ref))
        (unfold cleanup_live in ground (arith, lookup-delete st.id t.id s.streams_by_id))
        (subst (λ c. get_current c s' ≡ none) same
          (superseded-free r st _ s q live (ap (λ c. get_current c s) same ∙ e) h))
        g a (cleanup_live-IsRouted r st _ s q live h)

  pub kept-IsRouted :
      (ref : ℕ) (st t : SrpcStream J) (s : SrpcServer J)
      → stream_of ref s ≡ some st
      → t.id ≡ st.id
      → t.info ≡ st.info
      → is_gone t ≡ is_gone st
      → t.is_activated ≡ st.is_activated
      → IsRouted s
      → IsRouted (store ref t s)
  kept-IsRouted ref st t s q a b c d h =
      store-IsRouted ref t s (ground (arith, q, a, c)) (ground (arith, q, b, c, d))
        (ground (arith, q, b, c, d)) h

  pub established-IsRouted :
      (ref : ℕ) (t : SrpcStream J) (s : SrpcServer J)
      → stream_of ref s ≡ none
      → lookup t.id s.streams_by_id ≡ none
      → is_gone t ≡ false
      → t.is_activated ≡ false
      → IsRouted s
      → IsRouted (handle_stream_established ref t s)
  unfolding handle_stream_established cleanup_stream
  established-IsRouted ref t s n f g a h = elim (Option-cases (get_current t.info.client_id s)) [
    | inl e ↦ rw (handle_stream_established, e) (enter_stream-IsRouted ref t s n f e g a h)
    | inr (r, e) ↦
        let (st, q, live, same) = current-live t.info.client_id r s e h in
        rw (handle_stream_established, e)
          (if-intro IsRouted (leb 2 t.info.protocol_version && not t.info.supersede) _ _
            (λ _.
              store-IsRouted ref (record t { last_ping_at = none; stage = Stage.over }) s
                (ground (arith, n)) (ground (arith, n)) (ground (arith, n)) h)
            (λ _.
              rw (cleanup_stream, q, live)
                (superseded-IsRouted ref r t st s n f e q live same g a h)))
  ]

  pub after_check-IsRouted :
      (ref : ℕ) (st : SrpcStream J) (rejected : Bool) (s : SrpcServer J)
      → stream_of ref s ≡ some st
      → IsRouted s
      → IsRouted (after_check ref st rejected s)
  unfolding after_check
  after_check-IsRouted ref st rejected s q h =
      if-intro IsRouted (rejected || is_gone st) _ _
        (λ _. kept-IsRouted ref st (to_stage Stage.over st) s q refl refl refl refl h)
        (λ _.
          kept-IsRouted ref st (record st { listening = true; stage = Stage.connecting }) s q refl
            refl refl refl h)

  pub after_failure-IsRouted :
      (ref : ℕ) (st : SrpcStream J) (s : SrpcServer J)
      → stream_of ref s ≡ some st
      → IsRouted s
      → IsRouted (after_failure ref st s)
  unfolding after_failure
  after_failure-IsRouted ref st s q h =
      cleanup_stream-IsRouted ref (some SrpcDisconnectCause.disconnect)
        (store ref (to_stage Stage.over st) s)
        (kept-IsRouted ref st (to_stage Stage.over st) s q refl refl refl refl h)

  pub after_connected-IsRouted :
      (ref : ℕ) (st : SrpcStream J) (s : SrpcServer J)
      → stream_of ref s ≡ some st
      → IsRouted s
      → IsRouted (after_connected ref st s)
  unfolding after_connected
  after_connected-IsRouted ref st s q h =
      if-intro IsRouted (is_gone st || not (is_current_stream ref st s)) _ _
        (λ _. kept-IsRouted ref st (to_stage Stage.over st) s q refl refl refl refl h)
        (λ _. activate_stream-IsRouted ref st (to_stage Stage.activating st) s q refl refl refl h)

  pub with_stream-IsRouted :
      (ref : ℕ) (f : SrpcStream J → SrpcServer J → SrpcServer J) (s : SrpcServer J)
      → ((st : SrpcStream J) → stream_of ref s ≡ some st → IsRouted (f st s))
      → IsRouted s
      → IsRouted (with_stream ref f s)
  with_stream-IsRouted ref f s g h = elim (Option-cases (stream_of ref s)) [
    | inl e ↦ rw (with_stream, e) h
    | inr (st, e) ↦ rw (with_stream, e) (g st e)
  ]

  cleanup_if-IsRouted :
      (test : SrpcStream J → Bool) (cause : SrpcDisconnectCause) (ref : ℕ) (st : SrpcStream J)
      (s : SrpcServer J)
      → IsRouted s
      → IsRouted (cleanup_if test cause ref st s)
  unfolding cleanup_if
  cleanup_if-IsRouted test cause ref st s h =
      if-intro IsRouted (test st) (cleanup_stream ref (some cause) s) s
        (λ _. cleanup_stream-IsRouted ref (some cause) s h) (λ _. h)

  pub cleanup_each-IsRouted :
      (test : SrpcStream J → Bool) (cause : SrpcDisconnectCause) (refs : Map String ℕ)
      (s : SrpcServer J)
      → IsRouted s
      → IsRouted (cleanup_each test cause refs s)
  unfolding cleanup_each
  cleanup_each-IsRouted test cause [] s h = h
  cleanup_each-IsRouted test cause ((id, ref) ∷ rest) s h =
      cleanup_each-IsRouted test cause rest (with_stream ref (cleanup_if test cause ref) s) (
        with_stream-IsRouted ref (cleanup_if test cause ref) s
          (λ st e. cleanup_if-IsRouted test cause ref st s h) h)
