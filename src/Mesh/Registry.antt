-- ===== src/Mesh/Registry.antt =====
-- src/services/mesh-client/mesh-client-redis-registry.ts: the Redis state behind the class
-- `MeshClientRedisRegistry`, and its five Lua scripts. Redis runs a script as one step.
-- The hash `clientsKey()` maps a client to its value; the set `nodeSetKey(n)` is kept here under n,
-- since the key is the node's number between fixed texts. The values are those that the scripts
-- write. JSON and Lua's cjson are not part of the source: they are a parameter, and so is the type
-- of the texts. The seconds that EXPIRE gave a key last are kept; that a key then expires is left
-- out, and so is metadata nested too deeply for cjson (1000 levels), where a script raises an error.
pub mod Client
pub mod Consistency
pub mod Cleanup
pub mod Ownership
pub mod Listing
pub mod Reading
pub mod Tests
use dk_server_foundation.Common.{
  ℕ, String, Bool, true, false, Option, none, some, List, [], ◌∷◌, ◌++◌, Map, lookup, insert,
  delete, ◌==◌, nat_eq, string_eq, if◌then◌else◌, includes, filterb, not, or_else, ℤ, pos, negsuc,
}

pub data RegistrationState : Type 0 where
  active pending : RegistrationState

-- A value of the hash; `state` and `hasMetadata` may be missing in values that others wrote.
pub record Value (M : Type 0) : Type 0 where
  pub node_id : ℕ
  pub connected_at : ℕ
  pub state : Option RegistrationState
  pub has_metadata : Option Bool
  pub metadata : M

pub record Redis (M : Type 0) : Type 0 where
  pub clients : Map String (Value M)
  pub sets : Map ℕ (List String)
  pub clients_expire : Option ℕ
  pub sets_expire : Map ℕ ℕ

-- `KEY_TTL_SECONDS`
abbrev pub key_ttl_seconds : ℕ
key_ttl_seconds = 86400

-- What the code uses of JSON and of cjson, on metadata M and texts T: `stringify` is
-- `JSON.stringify`, with `none` where it throws or gives `undefined`; `null` is the text 'null';
-- `recode` is the text that `cjson.encode` writes for what `cjson.decode` read; `parse` is
-- `JSON.parse`.
pub record Codec (M T : Type 0) : Type 0 where
  pub stringify : M → Option T
  pub null : T
  pub recode : T → T
  pub parse : T → M

-- `smembers`, `sadd` and `srem` on the set of one node.
-- The table that CLEANUP_NODE returns alternates values and names.
pub data Reply (M : Type 0) : Type 0 where
  json : Value M → Reply M
  name : String → Reply M

module _ {M : Type 0} where
  unfoldable pub members : ℕ → Redis M → List String
  members n r = or_else (lookup n r.sets) []

  unfoldable pub sadd : ℕ → String → Redis M → Redis M
  unfolding members
  sadd n c r = record r {
    sets =
        insert n (if includes (members n r) c then members n r else members n r ++ (c ∷ [])) r.sets;
  }

  unfoldable pub srem : ℕ → String → Redis M → Redis M
  unfolding members
  srem n c r = record r { sets = insert n (filterb (λ d. not (d == c)) (members n r)) r.sets }

  unfoldable pub hset : String → Value M → Redis M → Redis M
  hset c v r = record r { clients = insert c v r.clients }

  unfoldable pub hdel : String → Redis M → Redis M
  hdel c r = record r { clients = delete c r.clients }

  -- EXPIRE on the hash, and on the set of one node.
  abbrev pub expire_clients : Redis M → Redis M
  expire_clients r = record r { clients_expire = some key_ttl_seconds }

  abbrev pub expire_set : ℕ → Redis M → Redis M
  expire_set n r = record r { sets_expire = insert n key_ttl_seconds r.sets_expire }

  -- What REGISTER and ACTIVATE write at their end.
  unfoldable pub register_write : String → ℕ → Value M → Redis M → Redis M
  register_write c n value r = expire_set n (expire_clients (sadd n c (hset c value r)))

  -- The guard that ACTIVATE, UNREGISTER and UPDATE_METADATA share: the script goes on with the
  -- stored value if the node owns the client, and returns 0 otherwise.
  abbrev pub if_owner : String → ℕ → Redis M → (Value M → Redis M) → Redis M × ℕ
  if_owner c n r write = elim (lookup c r.clients) [
    | none ↦ (r, 0)
    | some parsed ↦ if parsed.node_id == n then (write parsed, 1) else (r, 0)
  ]

  pub unregister_script : String → ℕ → Redis M → Redis M × ℕ
  unregister_script c n r = if_owner c n r λ parsed. srem n c (hdel c r)

  -- One round of the loop of CLEANUP_NODE, and the loop over the members read at the start.
  unfoldable pub cleanup_one :
      ℕ → String → Map String (Value M) × List (Reply M) → Map String (Value M) × List (Reply M)
  cleanup_one n c (clients, removed) = elim (lookup c clients) [
    | none ↦ (clients, removed)
    | some parsed ↦
        if parsed.node_id == n
        then (delete c clients, removed ++ (json parsed ∷ (name c ∷ [])))
        else (clients, removed)
  ]

  unfoldable pub cleanup_loop :
      ℕ
      → List String
      → Map String (Value M) × List (Reply M)
      → Map String (Value M) × List (Reply M)
  cleanup_loop n [] acc = acc
  cleanup_loop n (c ∷ cs) acc = cleanup_loop n cs (cleanup_one n c acc)

  pub cleanup_node_script : ℕ → Redis M → Redis M × List (Reply M)
  cleanup_node_script n r =
      let (clients, removed) = cleanup_loop n (members n r) (r.clients, []) in
      (record r { clients = clients; sets = delete n r.sets }, removed)

module _ {M T : Type 0} (codec : Codec M T) where
  -- REGISTER: -1 for a new or a same-node registration, -2 for a conflict, else the node that loses
  -- the client. `value` has the arguments of the script.
  pub register_script : String → ℕ → Value T → Bool → Redis T → Redis T × ℤ
  unfolding register_write
  register_script c n value allow_supersede r =
      let v : Value T = record value { metadata = codec.recode value.metadata } in
      elim (lookup c r.clients) [
        | none ↦ (register_write c n v r, negsuc 0)
        | some parsed ↦
            if parsed.node_id == n
            then (register_write c n v r, negsuc 0)
            else if allow_supersede
            then (register_write c n v (srem parsed.node_id c r), pos parsed.node_id)
            else (r, negsuc 1)
      ]

  pub activate_script : String → ℕ → T → Bool → Redis T → Redis T × ℕ
  unfolding register_write
  activate_script c n metadata_json has r = if_owner c n r λ parsed.
      register_write c n
        (record {
          node_id = parsed.node_id;
          connected_at = parsed.connected_at;
          state = some active;
          has_metadata = some has;
          metadata = codec.recode metadata_json;
        })
        r

  pub update_metadata_script : String → ℕ → T → Bool → Redis T → Redis T × ℕ
  update_metadata_script c n metadata_json has r = if_owner c n r λ parsed. expire_clients (
      hset c
        (record {
          node_id = parsed.node_id;
          connected_at = parsed.connected_at;
          state = some (or_else parsed.state active);
          has_metadata = some has;
          metadata = codec.recode metadata_json;
        })
        r)
