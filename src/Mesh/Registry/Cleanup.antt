-- ===== src/Mesh/Registry/Cleanup.antt =====
-- CLEANUP_NODE of src/services/mesh-client/mesh-client-redis-registry.ts.
use dk_server_foundation.Common.{
  ℕ, String, ◌≡◌, refl, ◌∙◌, Bool, false, Option, none, some, List, [], ◌∷◌, ◌++◌, Map, lookup,
  lookup-delete, delete, ◌==◌, nat_eq, string_eq, if◌then◌else◌, includes, ◌&&◌, add_some,
  add_some-append, append-nil, append_assoc, map, arith, nat_beq_iff, Option-cases, Bool-cases, inl,
  inr, ap,
}
use text.Mathlib.TextEquality.{eq_iff}
use dk_server_foundation.Mesh.Registry.{
  Value, Redis, Codec, Reply, json, name, members, cleanup_one, cleanup_loop, cleanup_node_script,
}
use dk_server_foundation.Mesh.Registry.Client.{RegisteredClient, parse_reply, cleanup_node}
use dk_server_foundation.Mesh.Registry.Consistency.{owned_by, IsConsistent}

module _ {M : Type 0} where
  -- Whether a hash says that the node owns the client.
  unfoldable pub owns : ℕ → String → Map String (Value M) → Bool
  owns n c clients = elim (lookup c clients) [ none ↦ false | some v ↦ v.node_id == n ]

  lookup-cleanup_one :
      (n : ℕ) (c d : String) (acc : Map String (Value M) × List (Reply M))
      → lookup d (cleanup_one n c acc).0
        ≡ (if c == d && owns n c acc.0 then none else lookup d acc.0)
  unfolding cleanup_one owns
  lookup-cleanup_one n c d (clients, removed) = ground (arith, lookup-delete c d clients)

  lookup-cleanup_loop :
      (n : ℕ) (cs : List String) (d : String) (acc : Map String (Value M) × List (Reply M))
      → lookup d (cleanup_loop n cs acc).0
        ≡ (if includes cs d && owns n d acc.0 then none else lookup d acc.0)
  unfolding cleanup_loop owns
  lookup-cleanup_loop n [] d acc = refl
  lookup-cleanup_loop n (c ∷ cs) d acc = ground (
    arith,
    lookup-cleanup_loop n cs d (cleanup_one n c acc),
    lookup-cleanup_one n c d acc,
    eq_iff c d,
  )

  -- The reply as pairs.
  paired : List (String × Value M) → List (Reply M)
  paired [] = []
  paired ((c, v) ∷ es) = json v ∷ (name c ∷ paired es)

  paired-append : (xs ys : List (String × Value M)) → paired (xs ++ ys) ≡ paired xs ++ paired ys
  unfolding paired
  paired-append [] ys = refl
  paired-append ((c, v) ∷ xs) ys = rw (paired-append xs ys)

  -- What one round removes, and what the loop removes.
  taken : ℕ → String → Map String (Value M) → Option (String × Value M)
  taken n c clients = elim (lookup c clients) [
    | none ↦ none
    | some v ↦ if v.node_id == n then some (c, v) else none
  ]

  swept : ℕ → List String → Map String (Value M) → List (String × Value M)
  swept n [] clients = []
  swept n (c ∷ cs) clients =
      add_some (taken n c clients) (swept n cs (cleanup_one n c (clients, [])).0)

  cleanup_one-paired :
      (n : ℕ) (c : String) (clients : Map String (Value M)) (es : List (String × Value M))
      → cleanup_one n c (clients, paired es)
        ≡ ((cleanup_one n c (clients, [])).0, paired (es ++ add_some (taken n c clients) []))
  unfolding cleanup_one taken
  cleanup_one-paired n c clients es = elim (Option-cases (lookup c clients)) [
    | inl e ↦ rw (e, cleanup_one, taken, append-nil es)
    | inr (v, e) ↦ elim (Bool-cases (v.node_id == n)) [
      | inl same ↦
          rw (e, cleanup_one, taken, same, paired-append es ((c, v) ∷ [])) (unfold paired in refl)
      | inr other ↦ rw (e, cleanup_one, taken, other, append-nil es)
    ]
  ]

  cleanup_loop-paired :
      (n : ℕ) (cs : List String) (clients : Map String (Value M)) (es : List (String × Value M))
      → (cleanup_loop n cs (clients, paired es)).1 ≡ paired (es ++ swept n cs clients)
  unfolding cleanup_loop swept
  cleanup_loop-paired n [] clients es = rw (append-nil es)
  cleanup_loop-paired n (c ∷ cs) clients es =
      ap (λ acc. (cleanup_loop n cs acc).1) (cleanup_one-paired n c clients es)
      ∙ cleanup_loop-paired n cs _ (es ++ add_some (taken n c clients) [])
      ∙ ap paired (append_assoc es _ _ ∙ ap (◌++◌ es) (add_some-append (taken n c clients) _))

  abbrev pub ids : List (RegisteredClient M) → List String
  ids = map (λ x. x.client_id)

  includes-swept :
      (n : ℕ) (cs : List String) (d : String) (clients : Map String (Value M))
      → includes (map (λ x. x.0) (swept n cs clients)) d ≡ (includes cs d && owns n d clients)
  unfolding swept owns taken
  includes-swept n [] d clients = refl
  includes-swept n (c ∷ cs) d clients = ground (
    arith,
    includes-swept n cs d (cleanup_one n c (clients, [])).0,
    lookup-cleanup_one n c d (clients, []),
    eq_iff c d,
  )

  owns-owned_by : (n : ℕ) (d : String) (r : Redis M) → owns n d r.clients ≡ owned_by d n r
  unfolding owns owned_by
  owns-owned_by n d r = refl

  member_owned :
      (n : ℕ) (r : Redis M)
      → IsConsistent r
      → (d : String) → (includes (members n r) d && owns n d r.clients) ≡ owned_by d n r
  member_owned n r h d = ground (arith, h n d, owns-owned_by n d r)

  cleaned_lookup :
      (n : ℕ) (r : Redis M)
      → IsConsistent r
      → (d : String)
      → lookup d (cleanup_loop n (members n r) (r.clients, [])).0
        ≡ (if owned_by d n r then none else lookup d r.clients)
  cleaned_lookup n r h d =
      lookup-cleanup_loop n (members n r) d (r.clients, [])
      ∙ ap (λ b. if b then none else lookup d r.clients) (member_owned n r h d)

  members_cleaned :
      (n m : ℕ) (clients : Map String (Value M)) (r : Redis M) (d : String)
      → includes (members m (record r { clients = clients; sets = delete n r.sets })) d
        ≡ (if n == m then false else includes (members m r) d)
  unfolding members
  members_cleaned n m clients r d = ground (arith, lookup-delete n m r.sets)

  owner_left :
      (n m : ℕ) (r : Redis M)
      → IsConsistent r
      → (d : String)
      → (if n == m then false else includes (members m r) d)
        ≡ owned_by d m (record r {
          clients = (cleanup_loop n (members n r) (r.clients, [])).0;
          sets = delete n r.sets;
        })
  unfolding owned_by
  owner_left n m r h d = ground (arith, h m d, cleaned_lookup n r h d, nat_beq_iff n m)

-- What `cleanupNode` promises.
pub record Cleaned {M T : Type 0} (n : ℕ) (r r' : Redis T) (answer : List (RegisteredClient M))
    : Type 0 where
  pub gone :
      (d : String) → lookup d r'.clients ≡ (if owned_by d n r then none else lookup d r.clients)
  pub answered : (d : String) → includes (ids answer) d ≡ owned_by d n r
  pub consistent : IsConsistent r'

module _ {M T : Type 0} (codec : Codec M T) where
  ids-paired :
      (es : List (String × Value T)) → ids (parse_reply codec (paired es)) ≡ map (λ x. x.0) es
  unfolding parse_reply paired
  ids-paired [] = refl
  ids-paired ((c, v) ∷ es) = rw (ids-paired es)

  -- For a consistent registry, `cleanupNode` removes the clients of the node from the hash, and no
  -- others; its answer names exactly those; and the registry stays consistent.
  pub cleanup_node-Cleaned :
      (n : ℕ) (r : Redis T)
      → IsConsistent r
      → Cleaned n r (cleanup_node codec n r).0 (cleanup_node codec n r).1
  unfolding cleanup_node cleanup_node_script paired
  cleanup_node-Cleaned n r h = record {
    gone = λ d. cleaned_lookup n r h d;
    answered = λ d.
        ap (λ es. includes (ids (parse_reply codec es)) d)
          (cleanup_loop-paired n (members n r) r.clients [])
        ∙ ap (λ xs. includes xs d) (ids-paired _)
        ∙ includes-swept n (members n r) d r.clients
        ∙ member_owned n r h d;
    consistent = λ m d. members_cleaned n m _ r d ∙ owner_left n m r h d;
  }
