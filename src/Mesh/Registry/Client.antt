-- ===== src/Mesh/Registry/Client.antt =====
-- The methods of `MeshClientRedisRegistry` in src/services/mesh-client/mesh-client-redis-registry.ts.
-- Metadata is a value or `undefined` (`none`). A method answers `none` where it throws, which it does
-- before it calls Redis.
use dk_server_foundation.Common.{
  ℕ, zero, suc, String, add_some, Bool, true, false, Option, none, some, List, [], ◌∷◌, Map, lookup,
  ◌==◌, nat_eq, string_eq, if◌then◌else◌, or_else, ℤ, pos, negsuc,
}
use dk_server_foundation.Mesh.Registry.{
  RegistrationState, active, pending, Value, Redis, Codec, Reply, json, name, members,
  register_script, activate_script, unregister_script, update_metadata_script, cleanup_node_script,
}

pub data RegisterResult : Type 0 where
  ok : (superseded_node_id : Option ℕ) → RegisterResult
  conflict : (owner_node_id : Option ℕ) → RegisterResult

-- What `tryParse` gives.
pub record Parsed (M : Type 0) : Type 0 where
  pub node_id : ℕ
  pub connected_at : ℕ
  pub metadata : Option M
  pub state : RegistrationState

pub record RegisteredClient (M : Type 0) : Type 0 where
  pub client_id : String
  pub node_id : ℕ
  pub connected_at : ℕ
  pub metadata : Option M

abbrev is_active : RegistrationState → Bool
is_active active = true
is_active pending = false

abbrev is_false : Option Bool → Bool
is_false (some false) = true
is_false _ = false

module _ {M : Type 0} where
  abbrev pub registration : ℕ → M → Bool → RegistrationState → ℕ → Value M
  registration n metadata_json has state now = record {
    node_id = n;
    connected_at = now;
    state = some state;
    has_metadata = some has;
    metadata = metadata_json;
  }

  unfoldable pub to_registered_client : String → Parsed M → Option (RegisteredClient M)
  to_registered_client c parsed =
      if is_active parsed.state
      then some (record {
        client_id = c;
        node_id = parsed.node_id;
        connected_at = parsed.connected_at;
        metadata = parsed.metadata;
      })
      else none

module _ {M T : Type 0} (codec : Codec M T) where
  unfoldable pub try_parse : Value T → Parsed M
  try_parse raw = record {
    node_id = raw.node_id;
    connected_at = raw.connected_at;
    metadata = if is_false raw.has_metadata then none else some (codec.parse raw.metadata);
    state = or_else raw.state active;
  }

  unfoldable pub get_client : String → Redis T → Option (RegisteredClient M)
  unfolding try_parse to_registered_client
  get_client c r = elim (lookup c r.clients) [
    | none ↦ none
    | some raw ↦ to_registered_client c (try_parse raw)
  ]

  -- `listClients`, over `hgetall`.
  unfoldable pub list_entries : Map String (Value T) → List (RegisteredClient M)
  unfolding try_parse to_registered_client
  list_entries [] = []
  list_entries ((c, raw) ∷ all) =
      add_some (to_registered_client c (try_parse raw)) (list_entries all)

  unfoldable pub list_clients : Redis T → List (RegisteredClient M)
  unfolding list_entries
  list_clients r = list_entries r.clients

  -- One round of the loop of `listClientsForNode`.
  unfoldable pub listed : ℕ → String → Option (Value T) → Option (RegisteredClient M)
  unfolding try_parse to_registered_client
  listed n c none = none
  listed n c (some raw) =
      if (try_parse raw).node_id == n then to_registered_client c (try_parse raw) else none

  unfoldable pub list_members : ℕ → List String → Redis T → List (RegisteredClient M)
  list_members n [] r = []
  list_members n (c ∷ cs) r = add_some (listed n c (lookup c r.clients)) (list_members n cs r)

  unfoldable pub list_clients_for_node : ℕ → Redis T → List (RegisteredClient M)
  list_clients_for_node n r = list_members n (members n r) r

  -- The loop of `cleanupNode` over the reply, two places at a time.
  unfoldable pub parse_reply : List (Reply T) → List (RegisteredClient M)
  unfolding try_parse
  parse_reply (json raw ∷ (name c ∷ rest)) =
      record {
        client_id = c;
        node_id = (try_parse raw).node_id;
        connected_at = (try_parse raw).connected_at;
        metadata = (try_parse raw).metadata;
      }
      ∷ parse_reply rest
  parse_reply _ = []

  unfoldable pub cleanup_node : ℕ → Redis T → Redis T × List (RegisteredClient M)
  unfolding cleanup_node_script parse_reply
  cleanup_node n r = let (r', reply) = cleanup_node_script n r in (r', parse_reply reply)

  -- `encodeMetadata`: the JSON text and the flag, or `none` where it throws.
  unfoldable pub encode_metadata : Option M → Option (T × Bool)
  encode_metadata none = some (codec.null, false)
  encode_metadata (some m) = elim (codec.stringify m) [
    | none ↦ none
    | some metadata_json ↦ some (metadata_json, true)
  ]

  -- After a conflict the owner is read once more; `between` is what other nodes do to Redis before
  -- that read.
  unfoldable pub register_result :
      String → (Redis T → Redis T) → Redis T × ℤ → Redis T × RegisterResult
  unfolding try_parse
  register_result c between (r, pos n) = (r, ok (some n))
  register_result c between (r, negsuc zero) = (r, ok none)
  register_result c between (r, negsuc (suc zero)) = (
    between r,
    conflict (elim (lookup c (between r).clients) [
      | none ↦ none
      | some raw ↦ some (try_parse raw).node_id
    ]),
  )
  register_result c between (r, negsuc (suc (suc n))) = (r, ok none)

  -- `registerWithState` once the metadata are encoded.
  unfoldable pub register_encoded :
      String
      → ℕ
      → T × Bool
      → Bool
      → RegistrationState
      → ℕ
      → (Redis T → Redis T)
      → Redis T
      → Redis T × RegisterResult
  unfolding register_result register_script
  register_encoded c n (metadata_json, has) allow_supersede state now between r =
      register_result c between
        (register_script codec c n (registration n metadata_json has state now) allow_supersede r)

  unfoldable pub register_with_state :
      String
      → ℕ
      → Option M
      → Bool
      → RegistrationState
      → ℕ
      → (Redis T → Redis T)
      → Redis T
      → Redis T × Option RegisterResult
  unfolding encode_metadata register_encoded
  register_with_state c n metadata allow_supersede state now between r =
      elim (encode_metadata metadata) [
        | none ↦ (r, none)
        | some encoded ↦
            let (r', result) = register_encoded c n encoded allow_supersede state now between r in
            (r', some result)
      ]

  unfoldable pub register :
      String
      → ℕ
      → Option M
      → Bool
      → ℕ
      → (Redis T → Redis T)
      → Redis T
      → Redis T × Option RegisterResult
  unfolding register_with_state
  register c n metadata allow now between r =
      register_with_state c n metadata allow active now between r

  unfoldable pub reserve :
      String
      → ℕ
      → Option M
      → Bool
      → ℕ
      → (Redis T → Redis T)
      → Redis T
      → Redis T × Option RegisterResult
  unfolding register_with_state
  reserve c n metadata allow now between r =
      register_with_state c n metadata allow pending now between r

  unfoldable pub activate : String → ℕ → Option M → Redis T → Redis T × Option Bool
  unfolding activate_script encode_metadata
  activate c n metadata r = elim (encode_metadata metadata) [
    | none ↦ (r, none)
    | some encoded ↦
        let (r', result) = activate_script codec c n encoded.0 encoded.1 r in
        (r', some (result == 1))
  ]

  unfoldable pub update_metadata : String → ℕ → Option M → Redis T → Redis T × Option Bool
  unfolding update_metadata_script encode_metadata
  update_metadata c n metadata r = elim (encode_metadata metadata) [
    | none ↦ (r, none)
    | some encoded ↦
        let (r', result) = update_metadata_script codec c n encoded.0 encoded.1 r in
        (r', some (result == 1))
  ]

module _ {M : Type 0} where
  unfoldable pub unregister : String → ℕ → Redis M → Redis M × Bool
  unfolding unregister_script
  unregister c n r = let (r', result) = unregister_script c n r in (r', result == 1)
