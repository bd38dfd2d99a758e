-- ===== src/Srpc/Server/Run/Resurrection.antt =====
-- Pings and src/srpc/SrpcServer.ts's mark of a stream that was cleaned up.
use dk_server_foundation.Common.{
  ℕ, String, ◌≡◌, refl, ◌∙◌, ap, true, false, none, some, [], ◌∷◌, ◌++◌, Map, lookup-insert_self,
  nat_eq,
}
use dk_server_foundation.Srpc.Messages.{BaseMessage, SrpcDisconnectCause}
use dk_server_foundation.Srpc.ByteStream.Events.{disconnect}
use dk_server_foundation.Srpc.Server.{
  Effect, SrpcStream, SrpcServer, stream_of, is_gone, emit, store, with_stream,
}
use dk_server_foundation.Srpc.Server.Lifecycle.{
  cleanup_stream, cleanup_live, cleanup_effects, reject_all,
}
use dk_server_foundation.Srpc.Server.Requests.{handle_ws_message, handle_stream_data_received}
use dk_server_foundation.Srpc.Server.Run.{receives, ws_closes, step, receive, ws_close, run}

module _ {J : Type 0} (handlers : Map String String) (ref : ℕ) where
  with_stream_lem :
      (f : SrpcStream J → SrpcServer J → SrpcServer J) (st : SrpcStream J) (s : SrpcServer J)
      → stream_of ref s ≡ some st
      → with_stream ref f s ≡ f st s
  with_stream_lem f st s e = rw (with_stream, e) refl

  cleanup_gone :
      (st : SrpcStream J) (s : SrpcServer J)
      → stream_of ref s ≡ some st
      → is_gone st ≡ true
      → cleanup_stream ref none s ≡ s
  unfolding cleanup_stream
  cleanup_gone st s e g = rw (cleanup_stream, e, g) refl

  cleanup_present :
      (st : SrpcStream J) (s : SrpcServer J)
      → stream_of ref s ≡ some st
      → is_gone st ≡ false
      → (cleanup_stream ref none s).effects ≡ s.effects ++ cleanup_effects ref st none
  unfolding cleanup_stream cleanup_live
  cleanup_present st s e g = rw (cleanup_stream, e, g) refl

  ws_close-gone :
      (st : SrpcStream J) (s : SrpcServer J)
      → stream_of ref s ≡ some st
      → is_gone st ≡ true
      → (step handlers s (ws_closes ref)).effects ≡ s.effects
  unfolding step ws_close
  ws_close-gone st s e g =
      ap (λ u. u.effects)
        (with_stream_lem (ws_close ref) st s e
          ∙ cleanup_gone (record st { byte_stream = disconnect st.byte_stream })
              (store ref (record st { byte_stream = disconnect st.byte_stream }) s)
              (lookup-insert_self ref (record st { byte_stream = disconnect st.byte_stream })
                s.objects)
              g)

  ws_close-present :
      (st : SrpcStream J) (s : SrpcServer J)
      → stream_of ref s ≡ some st
      → is_gone st ≡ false
      → (step handlers s (ws_closes ref)).effects ≡ s.effects ++ cleanup_effects ref st none
  unfolding step ws_close
  ws_close-present st s e g =
      ap (λ u. u.effects) (with_stream_lem (ws_close ref) st s e)
      ∙ cleanup_present (record st { byte_stream = disconnect st.byte_stream })
          (store ref (record st { byte_stream = disconnect st.byte_stream }) s)
          (lookup-insert_self ref (record st { byte_stream = disconnect st.byte_stream }) s.objects)
          g

  pinged :
      (st : SrpcStream J) (m : BaseMessage J) (now : ℕ) (s : SrpcServer J)
      → stream_of ref s ≡ some st
      → st.listening ≡ true
      → m.ping_pong ≡ true
      → step handlers s (receives ref (some m) now)
        ≡ emit (Effect.pings ref ∷ []) (store ref (record st { last_ping_at = some now }) s)
  unfolding step receive handle_ws_message handle_stream_data_received
  pinged st m now s e l p =
      with_stream_lem (receive handlers ref (some m) now) st s e
      ∙ (unfold receive handle_ws_message handle_stream_data_received in rw (l, p) refl)

  -- The end of the socket of a stream that was cleaned up has no effect; but if a ping of the client
  -- was received after the clean-up, it calls the handlers of disconnections again.
  pub ping-close_twice :
      (st : SrpcStream J) (m : BaseMessage J) (now : ℕ) (s : SrpcServer J)
      → stream_of ref s ≡ some st
      → is_gone st ≡ true
      → st.listening ≡ true
      → m.ping_pong ≡ true
      → ((run handlers s (ws_closes ref ∷ [])).effects ≡ s.effects)
        × ((run handlers s (receives ref (some m) now ∷ (ws_closes ref ∷ []))).effects
            ≡ (s.effects ++ (Effect.pings ref ∷ []))
              ++ (Effect.disconnects ref SrpcDisconnectCause.disconnect ∷ reject_all st.queue))
  unfolding run
  ping-close_twice st m now s e g l p =
      let again : SrpcStream J = record st { last_ping_at = some now } in
      (
        ws_close-gone st s e g,
        ap (λ u. (step handlers u (ws_closes ref)).effects) (pinged st m now s e l p)
            ∙ ws_close-present again (emit (Effect.pings ref ∷ []) (store ref again s))
                (lookup-insert_self ref again s.objects) refl,
      )
