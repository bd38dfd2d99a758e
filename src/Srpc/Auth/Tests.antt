-- ===== src/Srpc/Auth/Tests.antt =====
-- The authorization of an upgrade request of src/srpc at inputs. The HMAC and the text functions are
-- stand-ins, and there is one time.
use Prim.Native.String
use dk_server_foundation.Common.{◌≡◌, refl, true, false, none, some, [], ltb, pos, if◌then◌else◌}
use dk_server_foundation.Srpc.Auth.{
  Builtins, Options, fetch_client_key, distance, generate_query, accepts, rejects, verified,
  verify_client,
}
use dk_server_foundation.Srpc.Auth.Agreement.{query, verify_client-generate_query}

abbrev texts : Builtins
texts = record {
  hmac = λ k m. String.◌++◌ k m;
  number_text = λ n. "1000";
  parse_int = λ s. some (pos 1000);
  is_meta = λ s. false;
  meta_key = λ s. s;
}

abbrev options : Options
options = record {
  client_authorizer = none;
  client_key_fetcher = none;
  standard_key = some "secret";
  clock_drift_ms = 30000;
}

verify_client-generate_query_example :
    (generate_query texts (some "secret") "stream" "client" 1000 2 true []
      ≡ some (query texts "secret" "stream" "client" 1000 2 true))
    × (verify_client texts options (query texts "secret" "stream" "client" 1000 2 true) 4000 ≡ (
        if ltb options.clock_drift_ms (distance 4000 (pos 1000))
        then rejects 403
        else accepts
            (verified texts options (query texts "secret" "stream" "client" 1000 2 true) 4000 [])))
    × (((verified texts options
            (query texts "secret" "stream" "client" 1000 2 true)
            4000
            []).client_stream_id
          ≡ "stream")
        × (((verified texts options
                (query texts "secret" "stream" "client" 1000 2 true)
                4000
                []).client_id
              ≡ "client")
            × ((verified texts options
                  (query texts "secret" "stream" "client" 1000 2 true)
                  4000
                  []).supersede
                ≡ true)))
verify_client-generate_query_example =
    verify_client-generate_query texts "secret" "stream" "client" 1000 2 options 4000 true refl refl
      refl refl refl refl refl (unfold fetch_client_key in refl)
