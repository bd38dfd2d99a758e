-- ===== src/Mesh/Registry/Listing.antt =====
-- Listing the clients of a node, in src/services/mesh-client/mesh-client-redis-registry.ts.
use dk_server_foundation.Common.{
  ℕ, String, ◌≡◌, refl, ◌∙◌, Bool, List, [], ◌∷◌, nat_eq, string_eq, includes, ◌&&◌, arith, is_some,
}
use text.Mathlib.TextEquality.{eq_iff}
use dk_server_foundation.Mesh.Registry.{Redis, Codec, members}
use dk_server_foundation.Mesh.Registry.Client.{
  get_client, listed, list_members, list_clients_for_node,
}
use dk_server_foundation.Mesh.Registry.Consistency.{owned_by, IsConsistent}
use dk_server_foundation.Mesh.Registry.Cleanup.{ids}

module _ {M T : Type 0} (codec : Codec M T) where
  abbrev shown : ℕ → String → Redis T → Bool
  shown n c r = owned_by c n r && is_some (get_client codec c r)

  ids-list_members :
      (n : ℕ) (cs : List String) (d : String) (r : Redis T)
      → includes (ids (list_members codec n cs r)) d ≡ (includes cs d && shown n d r)
  unfolding list_members listed get_client owned_by
  ids-list_members n [] d r = refl
  ids-list_members n (c ∷ cs) d r = ground (arith, ids-list_members n cs d r, eq_iff c d)

  -- In a consistent registry `listClientsForNode` names exactly the clients that the node owns and
  -- that `getClient` shows.
  pub ids-list_clients_for_node :
      (n : ℕ) (c : String) (r : Redis T)
      → IsConsistent r
      → includes (ids (list_clients_for_node codec n r)) c
        ≡ (owned_by c n r && is_some (get_client codec c r))
  unfolding list_clients_for_node
  ids-list_clients_for_node n c r h = ids-list_members n (members n r) c r ∙ ground (arith, h n c)
