-- ===== src/Mesh/Registry/Tests.antt =====
-- Runs of the registry of src/services/mesh-client/mesh-client-redis-registry.ts, and its theorems
-- at inputs. Metadata and texts are numbers: JSON writes 98 as no text, every other number as the
-- next one, and cjson turns 6 into 7, as it turns an empty array into an empty object.
use dk_server_foundation.Common.{
  ℕ, zero, suc, ◌+◌, ◌==◌, nat_eq, if◌then◌else◌, Option, ◌≡◌, refl, true, false, none, some, List,
  [], ◌∷◌, includes, string_eq, ◌&&◌, is_some, lookup, insert,
}
use dk_server_foundation.Mesh.Registry.{
  active, pending, Redis, Codec, members, sadd, hset, register_write, register_script,
}
use dk_server_foundation.Mesh.Registry.Client.{
  register, reserve, activate, update_metadata, unregister, get_client, cleanup_node,
  list_clients_for_node, register_with_state, register_encoded, encode_metadata,
}
use dk_server_foundation.Mesh.Registry.Consistency.{owned_by, IsConsistent}
use dk_server_foundation.Mesh.Registry.Cleanup.{ids, Cleaned, cleanup_node-Cleaned}
use dk_server_foundation.Mesh.Registry.Ownership.{
  Call, registers, activates, unregisters, cleans, run, run-IsConsistent, Fenced, owner_Fenced,
  RegisteredOr, register-Registered, owner_answer,
}
use dk_server_foundation.Mesh.Registry.Reading.{conveyed, get_client-register, activate-reserve}
use dk_server_foundation.Mesh.Registry.Listing.{ids-list_clients_for_node}

abbrev written : ℕ → Option ℕ
written m = if m == 98 then none else some (m + 1)

abbrev recoded : ℕ → ℕ
recoded t = if t == 6 then 7 else t

abbrev read : ℕ → ℕ
read zero = 0
read (suc t) = t

abbrev codec : Codec ℕ ℕ
codec = record { stringify = written; null = 1; recode = recoded; parse = read }

abbrev empty : Redis ℕ
empty = record { clients = []; sets = []; clients_expire = none; sets_expire = [] }

empty-IsConsistent : IsConsistent empty
unfolding members owned_by lookup
empty-IsConsistent n c = refl

-- Client "a" is active on node 1, with metadata 7.
abbrev one : Redis ℕ
one = record {
  clients =
      (
        "a",
        record {
          node_id = 1;
          connected_at = 50;
          state = some active;
          has_metadata = some true;
          metadata = 8;
        },
      )
      ∷ [];
  sets = (1, "a" ∷ []) ∷ [];
  clients_expire = some 86400;
  sets_expire = (1, 86400) ∷ [];
}

register_first : (register codec "a" 1 (some 7) false 50 (λ s. s) empty).0 ≡ one
unfolding register register_with_state register_encoded encode_metadata register_script
    register_write sadd hset members lookup insert
register_first = refl

abbrev history : List (Call ℕ)
history =
    registers "a" 1 (some 7) true active 50
    ∷ (registers "a" 2 none true pending 60
        ∷ (activates "a" 2 (some 8) ∷ (unregisters "a" 1 ∷ (cleans 2 ∷ []))))

run-IsConsistent_example : IsConsistent (run codec empty history)
run-IsConsistent_example = run-IsConsistent codec empty history empty-IsConsistent

abbrev registered : Redis ℕ
registered = run codec empty (registers "a" 1 (some 7) false active 50 ∷ [])

registered-IsConsistent : IsConsistent registered
registered-IsConsistent =
    run-IsConsistent codec empty (registers "a" 1 (some 7) false active 50 ∷ []) empty-IsConsistent

cleanup_node-Cleaned_example :
    Cleaned 1 registered (cleanup_node codec 1 registered).0 (cleanup_node codec 1 registered).1
cleanup_node-Cleaned_example = cleanup_node-Cleaned codec 1 registered registered-IsConsistent

owner_Fenced_example :
    Fenced
      (owner_answer codec (some 8) (owned_by "a" 2 one))
      one
      (activate codec "a" 2 (some 8) one)
    × Fenced
        (owner_answer codec (some 8) (owned_by "a" 2 one))
        one
        (update_metadata codec "a" 2 (some 8) one)
    × Fenced
        (some (owned_by "a" 2 one))
        one
        ((unregister "a" 2 one).0, some (unregister "a" 2 one).1)
owner_Fenced_example = owner_Fenced codec "a" 2 (some 8) one

register-Registered_example :
    (is_some (register_with_state codec "a" 2 none false active 60 (λ s. s) one).1
      ≡ is_some (encode_metadata codec none))
    × RegisteredOr "a" 2 false one
        (register_with_state codec "a" 2 none false active 60 (λ s. s) one)
register-Registered_example = register-Registered codec "a" 2 none false active 60 one

get_client-register_example :
    get_client codec "a" (register codec "a" 2 (some 5) true 60 (λ s. s) one).0
    ≡ some (record {
      client_id = "a";
      node_id = 2;
      connected_at = 60;
      metadata = conveyed codec (some 5);
    })
get_client-register_example =
    get_client-register codec "a" 2 (some 5) 60 one (unfold encode_metadata in refl)

-- These metadata come back changed.
conveyed_changed : conveyed codec (some 5) ≡ some 6
conveyed_changed = refl

activate-reserve_example :
    (get_client codec "a" (reserve codec "a" 2 none true 60 (λ s. s) one).0 ≡ none)
    × ((activate codec "a" 2 (some 8) (reserve codec "a" 2 none true 60 (λ s. s) one).0).1
        ≡ some true)
    × (get_client codec "a"
          (activate codec "a" 2 (some 8) (reserve codec "a" 2 none true 60 (λ s. s) one).0).0
        ≡ some (record {
          client_id = "a";
          node_id = 2;
          connected_at = 60;
          metadata = conveyed codec (some 8);
        }))
activate-reserve_example =
    activate-reserve codec "a" 2 none (some 8) 60 one (unfold encode_metadata in refl)
      (unfold encode_metadata in refl)

ids-list_clients_for_node_example :
    includes (ids (list_clients_for_node codec 1 registered)) "a"
    ≡ (owned_by "a" 1 registered && is_some (get_client codec "a" registered))
ids-list_clients_for_node_example =
    ids-list_clients_for_node codec 1 "a" registered registered-IsConsistent
