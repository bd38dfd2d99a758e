-- ===== src/Srpc/Auth.antt =====
-- src/srpc/SrpcClient.ts and src/srpc/SrpcServer.ts: how a client signs the query of its upgrade
-- request, and how the server checks it. A query is taken to arrive as it was set. Taken as
-- parameters: the HMAC in hexadecimal, JavaScript's text functions, the clock and the hooks.
pub mod Agreement
pub mod Tests
use Prim.Native.String
use dk_server_foundation.Common.{
  ℕ, ◌+◌, ◌-◌, String, Bool, true, false, not, ◌&&◌, ◌||◌, Option, none, some, List, [], ◌∷◌, ◌++◌,
  map, Map, lookup, insert, ◌==◌, string_eq, if◌then◌else◌, or_else, filterb, ltb, ℤ, pos, negsuc,
}
use dk_server_foundation.Srpc.Messages.{text_of}

-- `parse_int` is `parseInt`, `none` for NaN; `is_meta` and `meta_key` are about the prefix "m--".
pub record Builtins : Type 0 where
  pub hmac : String → String → String
  pub number_text : ℕ → String
  pub parse_int : String → Option ℤ
  pub is_meta : String → Bool
  pub meta_key : String → String

abbrev text : List String → String
text [] = ""
text (x ∷ xs) = String.◌++◌ x (text xs)

-- The template of `generateWsUrl`.
abbrev pub client_signable : String → String → String → String → String → String
client_signable authv appv ts stream_id cid =
    text (
      authv ∷ ("\n" ∷ (appv ∷ ("\n" ∷ (ts ∷ ("\n" ∷ (stream_id ∷ ("\n" ∷ (cid ∷ ("\n" ∷ []))))))))))

-- The template of `validateClientAuth`.
abbrev pub server_signable : String → String → String → String → String → String
server_signable authv appv ts id cid =
    text (authv ∷ ("\n" ∷ (appv ∷ ("\n" ∷ (ts ∷ ("\n" ∷ (id ∷ ("\n" ∷ (cid ∷ ("\n" ∷ []))))))))))

abbrev set_all : Map String String → Map String String → Map String String
set_all [] q = q
set_all ((k, v) ∷ rest) q = set_all rest (insert (String.◌++◌ "m--" k) v q)

module _ (js : Builtins) where
  -- The query that `generateWsUrl` makes; `none` is the error that no secret is configured.
  unfoldable pub generate_query :
      Option String
      → String
      → String
      → ℕ
      → ℕ
      → Bool
      → Map String String
      → Option (Map String String)
  generate_query secret id cid now version supersede meta = elim (text_of secret) [
    | none ↦ none
    | some key ↦
        let ts = js.number_text now in
        let base : Map String String =
          ("authv", "1")
          ∷ (("appv", "0.0.0")
              ∷ (("ts", ts)
                  ∷ (("id", id)
                      ∷ (("cid", cid)
                          ∷ (("signature", js.hmac key (client_signable "1" "0.0.0" ts id cid))
                              ∷ (("_v", js.number_text version) ∷ [])))))) in
        some (set_all meta (if supersede then base ++ (("_supersede", "1") ∷ []) else base))
  ]

-- `allows` has what an authorizer adds to the metadata.
pub data Verdict : Type 0 where
  allows : Map String String → Verdict
  denies : Verdict
  fails : Verdict

pub data Key : Type 0 where
  key : String → Key
  unknown : Key
  unconfigured : Key

pub record Options : Type 0 where
  pub client_authorizer : Option (Map String String → Verdict)
  pub client_key_fetcher : Option (Option String → Option String)
  pub standard_key : Option String
  pub clock_drift_ms : ℕ

unfoldable pub fetch_client_key : Options → Option String → Key
fetch_client_key options cid = elim options.client_key_fetcher [
  | some fetch ↦ elim (fetch cid) [ none ↦ unknown | some k ↦ key k ]
  | none ↦ elim (text_of options.standard_key) [ none ↦ unconfigured | some k ↦ key k ]
]

-- `Math.abs(now - ts)`
abbrev pub distance : ℕ → ℤ → ℕ
distance now (pos t) = (now - t) + (t - now)
distance now (negsuc t) = now + (t + 1)

abbrev field : String → Map String String → String
field k q = or_else (lookup k q) "undefined"

-- A text that is present and not empty.
abbrev pub is_given : Option String → Bool
is_given o = elim (text_of o) [ none ↦ false | some _ ↦ true ]

abbrev pub is_set : String → Map String String → Bool
is_set k q = is_given (lookup k q)

module _ (js : Builtins) (options : Options) (q : Map String String) (now : ℕ) where
  -- The checks once the key is there; equal texts are equal buffers.
  unfoldable pub check_signature : String → Verdict
  check_signature k = elim (js.parse_int (field "ts" q)) [
    | none ↦ denies
    | some ts ↦
        if ltb options.clock_drift_ms (distance now ts)
        then denies
        else if or_else (lookup "signature" q) ""
            == js.hmac k (
                server_signable (field "authv" q) (field "appv" q) (field "ts" q) (field "id" q)
                  (field "cid" q))
        then allows []
        else denies
  ]

  unfoldable pub validate_client_auth : Verdict
  unfolding check_signature fetch_client_key
  validate_client_auth = elim options.client_authorizer [
    | some authorize ↦ authorize q
    | none ↦
        if not ((is_set "authv" q && is_set "appv" q) && (is_set "ts" q && is_set "signature" q))
        then fails
        else elim (fetch_client_key options (lookup "cid" q)) [
          | key k ↦ check_signature k
          | unknown ↦ denies
          | unconfigured ↦ fails
        ]
  ]

-- What is left on an upgraded request, or the status of the refusal.
pub record Verified : Type 0 where
  pub client_stream_id : String
  pub client_id : String
  pub app_version : String
  pub configure_ts : Option ℤ
  pub protocol_version : Option ℤ
  pub supersede : Bool
  pub meta : Map String String
  pub added_meta : Map String String

pub data Upgrade : Type 0 where
  accepts : Verified → Upgrade
  rejects : ℕ → Upgrade

module _ (js : Builtins) (options : Options) (q : Map String String) (now : ℕ) where
  abbrev pub verified : Map String String → Verified
  verified added = record {
    client_stream_id = field "id" q;
    client_id = field "cid" q;
    app_version = field "appv" q;
    configure_ts = js.parse_int (or_else (lookup "ts" q) "0");
    protocol_version = js.parse_int (or_else (lookup "_v" q) "1");
    supersede = or_else (lookup "_supersede" q) "" == "1";
    meta = map (λ item. (js.meta_key item.0, item.1)) (filterb (λ item. js.is_meta item.0) q);
    added_meta = added;
  }

  unfoldable pub verify_client : Upgrade
  unfolding validate_client_auth
  verify_client =
      if not (is_set "id" q && (is_set "cid" q && is_set "appv" q))
      then rejects 400
      else elim (validate_client_auth js options q now) [
        | allows added ↦ accepts (verified added)
        | denies ↦ rejects 403
        | fails ↦ rejects 500
      ]
