-- ===== src/Mesh/Registry/Consistency.antt =====
-- src/services/mesh-client/mesh-client-redis-registry.ts: the hash of clients and the sets of the
-- nodes agree, whatever scripts run in whatever order.
use dk_server_foundation.Common.{
  ℕ, String, ◌≡◌, refl, ◌∙◌, Bool, false, none, some, [], ◌∷◌, ◌++◌, lookup, lookup-insert,
  lookup-delete, ◌==◌, nat_eq, string_eq, if◌then◌else◌, includes, includes-append,
  includes-filter_ne, filterb, not, ◌&&◌, ◌||◌, arith, nat_beq_iff, Option-cases, Bool-cases, inl,
  inr, ◌≢◌,
}
use text.Mathlib.TextEquality.{eq_iff}
use dk_server_foundation.Mesh.Registry.{
  Value, Redis, Codec, members, sadd, srem, hset, hdel, register_write, register_script, if_owner,
  activate_script, unregister_script, update_metadata_script,
}

module _ {M : Type 0} where
  unfoldable pub owned_by : String → ℕ → Redis M → Bool
  owned_by c n r = elim (lookup c r.clients) [ none ↦ false | some v ↦ v.node_id == n ]

  -- A client is in the set of a node exactly if the hash names that node as its owner.
  abbrev pub IsConsistent : Redis M → Type 0
  IsConsistent r = (n : ℕ) (c : String) → includes (members n r) c ≡ owned_by c n r

  pub includes-sadd :
      (n m : ℕ) (c d : String) (r : Redis M)
      → includes (members m (sadd n c r)) d
        ≡ (if n == m then c == d || includes (members m r) d else includes (members m r) d)
  unfolding members sadd
  includes-sadd n m c d r = ground (
    arith,
    lookup-insert n m (if includes (members n r) c then members n r else members n r ++ (c ∷ []))
        r.sets,
    includes-append (members n r) (c ∷ []) d,
    nat_beq_iff n m,
    eq_iff c d,
  )

  pub includes-srem :
      (n m : ℕ) (c d : String) (r : Redis M)
      → includes (members m (srem n c r)) d
        ≡ (if n == m then not (c == d) && includes (members m r) d else includes (members m r) d)
  unfolding members srem
  includes-srem n m c d r = ground (
    arith,
    lookup-insert n m (filterb (λ x. not (x == c)) (members n r)) r.sets,
    includes-filter_ne (members n r) c d,
    nat_beq_iff n m,
  )

  pub owned_by-hset :
      (c d : String) (n : ℕ) (v : Value M) (r : Redis M)
      → owned_by d n (hset c v r) ≡ (if c == d then v.node_id == n else owned_by d n r)
  unfolding owned_by hset
  owned_by-hset c d n v r = ground (arith, lookup-insert c d v r.clients)

  pub owned_by-hdel :
      (c d : String) (n : ℕ) (r : Redis M)
      → owned_by d n (hdel c r) ≡ (if c == d then false else owned_by d n r)
  unfolding owned_by hdel
  owned_by-hdel c d n r = ground (arith, lookup-delete c d r.clients)

  members-hset :
      (n : ℕ) (c : String) (v : Value M) (r : Redis M) → members n (hset c v r) ≡ members n r
  unfolding members hset
  members-hset n c v r = refl

  members-hdel : (n : ℕ) (c : String) (r : Redis M) → members n (hdel c r) ≡ members n r
  unfolding members hdel
  members-hdel n c r = refl

  owned_by-sadd :
      (n m : ℕ) (c d : String) (r : Redis M) → owned_by d m (sadd n c r) ≡ owned_by d m r
  unfolding owned_by sadd
  owned_by-sadd n m c d r = refl

  owned_by-srem :
      (n m : ℕ) (c d : String) (r : Redis M) → owned_by d m (srem n c r) ≡ owned_by d m r
  unfolding owned_by srem
  owned_by-srem n m c d r = refl

  owned_by_of_lookup :
      (c : String) (n : ℕ) (v : Value M) (r : Redis M)
      → lookup c r.clients ≡ some v
      → owned_by c n r ≡ (v.node_id == n)
  unfolding owned_by
  owned_by_of_lookup c n v r e = ground arith

  owned_by_of_missing :
      (c : String) (n : ℕ) (r : Redis M) → lookup c r.clients ≡ none → owned_by c n r ≡ false
  unfolding owned_by
  owned_by_of_missing c n r e = ground arith

  -- Writing a client to a node keeps the agreement, if no other node's set holds the client.
  write-IsConsistent :
      (c : String) (n : ℕ) (v : Value M) (r : Redis M)
      → v.node_id ≡ n
      → ((m : ℕ) (d : String) → c ≢ d → includes (members m r) d ≡ owned_by d m r)
      → ((m : ℕ) → n ≢ m → includes (members m r) c ≡ false)
      → IsConsistent (sadd n c (hset c v r))
  write-IsConsistent c n v r own others alone m d =
      rw
        (
          includes-sadd n m c d (hset c v r),
          owned_by-sadd n m c d (hset c v r),
          owned_by-hset c d m v r,
          members-hset m c v r,
        )
        (ground (arith, others m d, alone m, eq_iff c d, nat_beq_iff n m, nat_beq_iff v.node_id m))

  register_write-IsConsistent :
      (c : String) (n : ℕ) (v : Value M) (r : Redis M)
      → v.node_id ≡ n
      → ((m : ℕ) (d : String) → c ≢ d → includes (members m r) d ≡ owned_by d m r)
      → ((m : ℕ) → n ≢ m → includes (members m r) c ≡ false)
      → IsConsistent (register_write c n v r)
  unfolding register_write members owned_by
  register_write-IsConsistent c n v r own others alone m d =
      write-IsConsistent c n v r own others alone m d

  -- A client that moves leaves the set of its old node first.
  moved-IsConsistent :
      (c : String) (n : ℕ) (v old : Value M) (r : Redis M)
      → v.node_id ≡ n
      → lookup c r.clients ≡ some old
      → IsConsistent r
      → IsConsistent (register_write c n v (srem old.node_id c r))
  moved-IsConsistent c n v old r own e h =
      register_write-IsConsistent c n v (srem old.node_id c r) own
        (λ m d ne.
          rw (includes-srem old.node_id m c d r, owned_by-srem old.node_id m c d r)
            (ground (arith, h m d, eq_iff c d)))
        (λ m _.
          rw (includes-srem old.node_id m c c r)
            (ground (arith, h m c, owned_by_of_lookup c m old r e, eq_iff c c)))

  -- A script behind the owner's guard either changes nothing or writes for the owner.
  pub if_owner_cases {ℓ} :
      (P : Redis M → Type ℓ) (c : String) (n : ℕ) (r : Redis M) (write : Value M → Redis M)
      → P r
      → ((v : Value M) → lookup c r.clients ≡ some v → v.node_id ≡ n → P (write v))
      → P (if_owner c n r write).0
  if_owner_cases P c n r write refused owner = elim (Option-cases (lookup c r.clients)) [
    | inl e ↦ rw (e, if_owner) refused
    | inr (v, e) ↦ elim (Bool-cases (v.node_id == n)) [
      | inl same ↦ rw (e, if_owner, same) (owner v e ((nat_beq_iff _ _).0 same))
      | inr other ↦ rw (e, if_owner, other) refused
    ]
  ]

  owner_write-IsConsistent :
      (c : String) (n : ℕ) (v old : Value M) (r : Redis M)
      → v.node_id ≡ n
      → lookup c r.clients ≡ some old
      → old.node_id ≡ n
      → IsConsistent r
      → IsConsistent (register_write c n v r)
  owner_write-IsConsistent c n v old r own e same h =
      register_write-IsConsistent c n v r own (λ m d _. h m d)
        (λ m ne. h m c ∙ owned_by_of_lookup c m old r e ∙ ground (arith, nat_beq_iff old.node_id m))

  pub unregister_script-IsConsistent :
      (c : String) (n : ℕ) (r : Redis M) → IsConsistent r → IsConsistent (unregister_script c n r).0
  unfolding unregister_script
  unregister_script-IsConsistent c n r h = if_owner_cases IsConsistent c n r _ h (λ v e same m d.
      rw
        (
          includes-srem n m c d (hdel c r),
          members-hdel m c r,
          owned_by-srem n m c d (hdel c r),
          owned_by-hdel c d m r,
        )
        (ground (
          arith,
          h m d,
          h m c,
          owned_by_of_lookup c m v r e,
          eq_iff c d,
          nat_beq_iff n m,
          nat_beq_iff v.node_id m,
        )))

module _ {M T : Type 0} (codec : Codec M T) where
  pub register_script-IsConsistent :
      (c : String) (n : ℕ) (value : Value T) (allow : Bool) (r : Redis T)
      → value.node_id ≡ n
      → IsConsistent r
      → IsConsistent (register_script codec c n value allow r).0
  unfolding register_script
  register_script-IsConsistent c n value allow r own h =
      let v : Value T = record value { metadata = codec.recode value.metadata } in
      elim (Option-cases (lookup c r.clients)) [
        | inl e ↦
            rw (e, register_script)
              (register_write-IsConsistent c n v r own (λ m d _. h m d)
                (λ m _. h m c ∙ owned_by_of_missing c m r e))
        | inr (old, e) ↦ elim (Bool-cases (old.node_id == n)) [
          | inl same ↦
              rw (e, register_script, same)
                (register_write-IsConsistent c n v r own (λ m d _. h m d)
                  (λ m ne.
                    h m c
                    ∙ owned_by_of_lookup c m old r e
                    ∙ ground (arith, nat_beq_iff old.node_id n, nat_beq_iff old.node_id m)))
          | inr other ↦ elim (Bool-cases allow) [
            | inl may ↦ rw (e, register_script, other, may) (moved-IsConsistent c n v old r own e h)
            | inr may_not ↦ rw (e, register_script, other, may_not) h
          ]
        ]
      ]

  pub activate_script-IsConsistent :
      (c : String) (n : ℕ) (metadata : T) (flag : Bool) (r : Redis T)
      → IsConsistent r
      → IsConsistent (activate_script codec c n metadata flag r).0
  unfolding activate_script
  activate_script-IsConsistent c n metadata flag r h =
      if_owner_cases IsConsistent c n r _ h
        (λ v e same. owner_write-IsConsistent c n _ v r same e same h)

  pub update_metadata_script-IsConsistent :
      (c : String) (n : ℕ) (metadata : T) (flag : Bool) (r : Redis T)
      → IsConsistent r
      → IsConsistent (update_metadata_script codec c n metadata flag r).0
  unfolding update_metadata_script members owned_by
  update_metadata_script-IsConsistent c n metadata flag r h =
      if_owner_cases IsConsistent c n r _ h (λ v e same m d.
        rw (members-hset m c _ r, owned_by-hset c d m _ r)
          (ground (arith, h m d, owned_by_of_lookup c m v r e, eq_iff c d)))
