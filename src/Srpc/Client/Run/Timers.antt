-- ===== src/Srpc/Client/Run/Timers.antt =====
-- The timer of an attempt to connect in src/srpc/SrpcClient.ts, after another call of `connect`.
use dk_server_foundation.Common.{
  ℕ, String, ◌≡◌, ap, ◌∙◌, true, false, none, some, [], ◌∷◌, ◌++◌, append-nil, Map, includes,
  nat_eq, arith,
}
use dk_server_foundation.Srpc.Client.{SrpcClient, closes, opens}
use dk_server_foundation.Srpc.Client.Connection.{
  connect, queue_reconnect, connect_timeout, reconnect,
}
use dk_server_foundation.Srpc.Client.Run.{connect_times_out, reconnects, step, run}

module _ {J : Type 0} (handlers : Map String String) where
  times_out_lem :
      (c : SrpcClient J) (old : ℕ)
      → includes c.connect_timers old ≡ true
      → c.enable_reconnect ≡ true
      → c.connecting ≡ false
      → ((connect_timeout old c).effects ≡ c.effects ++ (closes old none ∷ []))
        × (((connect_timeout old c).reconnecting ≡ true)
            × (((connect_timeout old c).ws ≡ c.ws)
                × (((connect_timeout old c).is_connected ≡ c.is_connected)
                    × ((connect_timeout old c).connecting ≡ false))))
  unfolding connect_timeout queue_reconnect
  times_out_lem c old t e n = ground (arith, t, e, n, append-nil c.effects)

  reconnect_lem :
      (c : SrpcClient J) (current ref : ℕ) (id : String)
      → c.reconnecting ≡ true
      → c.ws ≡ some current
      → c.connecting ≡ false
      → ((reconnect false ref id c).effects
          ≡ (c.effects ++ (closes current none ∷ [])) ++ (opens ref false ∷ []))
        × (((reconnect false ref id c).ws ≡ some ref)
            × ((reconnect false ref id c).is_connected ≡ c.is_connected))
  unfolding reconnect connect
  reconnect_lem c current ref id r w n = ground (arith, r, w, n, append-nil c.effects)

  -- Where a client is connected and the timer of an earlier attempt to connect still runs: when that
  -- timer fires, the client closes its good connection with the next reconnection and opens another,
  -- while it still says that it is connected.
  pub connect_times_out-reconnects :
      (c : SrpcClient J) (old current ref : ℕ) (id : String)
      → includes c.connect_timers old ≡ true
      → c.ws ≡ some current
      → c.enable_reconnect ≡ true
      → c.connecting ≡ false
      → c.is_connected ≡ true
      → ((run handlers c (connect_times_out old ∷ (reconnects false ref id ∷ []))).effects
          ≡ ((c.effects ++ (closes old none ∷ [])) ++ (closes current none ∷ []))
            ++ (opens ref false ∷ []))
        × (((run handlers c (connect_times_out old ∷ (reconnects false ref id ∷ []))).ws ≡ some ref)
            × ((run handlers c
                  (connect_times_out old ∷ (reconnects false ref id ∷ []))).is_connected
                ≡ true))
  unfolding run step
  connect_times_out-reconnects c old current ref id t w e n i =
      let (es, (r, (s, (k, m)))) = times_out_lem c old t e n in
      let (fs, (u, v)) = reconnect_lem (connect_timeout old c) current ref id r (s ∙ w) m in
      (
        fs ∙ ap (λ l. (l ++ (closes current none ∷ [])) ++ (opens ref false ∷ [])) es,
        (u, v ∙ (k ∙ i)),
      )
