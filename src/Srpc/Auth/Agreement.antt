-- ===== src/Srpc/Auth/Agreement.antt =====
-- The client of src/srpc/SrpcClient.ts and the server of src/srpc/SrpcServer.ts agree on the query of
-- an upgrade request.
use dk_server_foundation.Common.{
  ℕ, String, ◌≡◌, refl, ap, ◌∙◌, Bool, true, false, not, ◌&&◌, Option, none, some, [], ◌∷◌, ◌++◌,
  Map, lookup, ◌==◌, string_eq, if◌then◌else◌, ltb, pos, eq_refl,
}
use dk_server_foundation.Srpc.Auth.{
  Builtins, client_signable, generate_query, Options, Key, key, fetch_client_key, distance, Verdict,
  allows, denies, fails, unknown, unconfigured, is_given, check_signature, validate_client_auth,
  Upgrade, Verified, accepts, rejects, verified, verify_client,
}

none-elim :
    (o : Option (Map String String → Verdict)) (f : (Map String String → Verdict) → Verdict)
    (v : Verdict)
    → o ≡ none
    → (elim o as (λ _. Verdict) [ some g ↦ f g | none ↦ v ]) ≡ v
none-elim o f v e = ap (λ p. elim p as (λ _. Verdict) [ some g ↦ f g | none ↦ v ]) e

key-elim :
    (k : String) (f : String → Verdict) (x : Key)
    → x ≡ key k
    → (elim x as (λ _. Verdict) [ key j ↦ f j | unknown ↦ denies | unconfigured ↦ fails ]) ≡ f k
key-elim k f x e =
    ap (λ y. elim y as (λ _. Verdict) [ key j ↦ f j | unknown ↦ denies | unconfigured ↦ fails ]) e

given-if {ℓ} : {A : Type ℓ} (b : Bool) (y x : A) → b ≡ true → (if not b then x else y) ≡ y
given-if b y x e = rw e refl

and-intro : {a b : Bool} → a ≡ true → b ≡ true → (a && b) ≡ true
and-intro p q = rw (p, q) refl

given_lem : (x : String) → (x == "") ≡ false → is_given (some x) ≡ true
given_lem x n = rw (is_given, n) refl

abbrev upgrade_of : (Map String String → Verified) → Verdict → Upgrade
upgrade_of f v = elim v as (λ _. Upgrade) [
  | allows added ↦ accepts (f added)
  | denies ↦ rejects 403
  | fails ↦ rejects 500
]

upgrade_of-if :
    (f : Map String String → Verified) (c : Bool)
    → upgrade_of f (if c then denies else allows []) ≡ (if c then rejects 403 else accepts (f []))
upgrade_of-if f true = refl
upgrade_of-if f false = refl

module _ (js : Builtins) (k id cid : String) (t version : ℕ) where
  abbrev signature : String
  signature = js.hmac k (client_signable "1" "0.0.0" (js.number_text t) id cid)

  -- The query of a client that has no metadata.
  abbrev pub query : Bool → Map String String
  query supersede =
      let base : Map String String =
        ("authv", "1")
        ∷ (("appv", "0.0.0")
            ∷ (("ts", js.number_text t)
                ∷ (("id", id)
                    ∷ (("cid", cid)
                        ∷ (("signature", signature) ∷ (("_v", js.number_text version) ∷ [])))))) in
      if supersede then base ++ (("_supersede", "1") ∷ []) else base

  generate_query_lem :
      (supersede : Bool)
      → (k == "") ≡ false
      → generate_query js (some k) id cid t version supersede [] ≡ some (query supersede)
  unfolding generate_query
  generate_query_lem supersede n = rw (generate_query, n) refl

  module _ (options : Options) (now : ℕ) where
    check_signature_lem :
        (supersede : Bool)
        → js.parse_int (js.number_text t) ≡ some (pos t)
        → check_signature js options (query supersede) now k
          ≡ (if ltb options.clock_drift_ms (distance now (pos t)) then denies else allows [])
    unfolding check_signature lookup
    check_signature_lem true p = rw (check_signature, p, eq_refl signature) refl
    check_signature_lem false p = rw (check_signature, p, eq_refl signature) refl

    validate_client_auth_lem :
        (supersede : Bool)
        → (js.number_text t == "") ≡ false
        → (signature == "") ≡ false
        → options.client_authorizer ≡ none
        → fetch_client_key options (some cid) ≡ key k
        → validate_client_auth js options (query supersede) now
          ≡ check_signature js options (query supersede) now k
    unfolding validate_client_auth lookup
    validate_client_auth_lem true n s a f =
        none-elim options.client_authorizer (λ g. g (query true)) _ a
        ∙ (given-if _ _ fails (
              and-intro (and-intro refl refl)
                (and-intro (given_lem (js.number_text t) n) (given_lem signature s)))
            ∙ key-elim k (check_signature js options (query true) now) _ f)
    validate_client_auth_lem false n s a f =
        none-elim options.client_authorizer (λ g. g (query false)) _ a
        ∙ (given-if _ _ fails (
              and-intro (and-intro refl refl)
                (and-intro (given_lem (js.number_text t) n) (given_lem signature s)))
            ∙ key-elim k (check_signature js options (query false) now) _ f)

  verify_client_lem :
      (options : Options) (now : ℕ) (supersede : Bool)
      → (id == "") ≡ false
      → (cid == "") ≡ false
      → verify_client js options (query supersede) now
        ≡ upgrade_of
            (verified js options (query supersede) now)
            (validate_client_auth js options (query supersede) now)
  unfolding verify_client lookup
  verify_client_lem options now true ni nc =
      given-if _ _ (rejects 400) (and-intro (given_lem id ni) (and-intro (given_lem cid nc) refl))
  verify_client_lem options now false ni nc =
      given-if _ _ (rejects 400) (and-intro (given_lem id ni) (and-intro (given_lem cid nc) refl))

  query-fields :
      (options : Options) (now : ℕ) (supersede : Bool)
      → ((verified js options (query supersede) now []).client_stream_id ≡ id)
        × (((verified js options (query supersede) now []).client_id ≡ cid)
            × ((verified js options (query supersede) now []).supersede ≡ supersede))
  unfolding lookup
  query-fields options now true = (refl, (refl, refl))
  query-fields options now false = (refl, (refl, refl))

  -- A server that gives the client's key for its id, and has no authorizer of its own, accepts the
  -- request of a client without metadata exactly if the client's clock is within the drift allowed,
  -- and leaves the client's id and stream id, and whether it supersedes, on the request; where the
  -- texts of the client are not empty and the time is read back as it was written.
  pub verify_client-generate_query :
      (options : Options) (now : ℕ) (supersede : Bool)
      → (k == "") ≡ false
      → (id == "") ≡ false
      → (cid == "") ≡ false
      → (js.number_text t == "") ≡ false
      → (signature == "") ≡ false
      → js.parse_int (js.number_text t) ≡ some (pos t)
      → options.client_authorizer ≡ none
      → fetch_client_key options (some cid) ≡ key k
      → (generate_query js (some k) id cid t version supersede [] ≡ some (query supersede))
        × (verify_client js options (query supersede) now ≡ (
            if ltb options.clock_drift_ms (distance now (pos t))
            then rejects 403
            else accepts (verified js options (query supersede) now [])))
        × (((verified js options (query supersede) now []).client_stream_id ≡ id)
            × (((verified js options (query supersede) now []).client_id ≡ cid)
                × ((verified js options (query supersede) now []).supersede ≡ supersede)))
  verify_client-generate_query options now supersede nk ni nc nt ns p a f = (
    generate_query_lem supersede nk,
    verify_client_lem options now supersede ni nc
        ∙ (ap (upgrade_of (verified js options (query supersede) now)) (
              validate_client_auth_lem options now supersede nt ns a f
              ∙ check_signature_lem options now supersede p)
            ∙ upgrade_of-if (verified js options (query supersede) now)
                (ltb options.clock_drift_ms (distance now (pos t)))),
    query-fields options now supersede,
  )
