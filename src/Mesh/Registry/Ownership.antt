-- ===== src/Mesh/Registry/Ownership.antt =====
-- Ownership of clients in src/services/mesh-client/mesh-client-redis-registry.ts: what each method
-- answers, whom it affects, and what a reader sees afterwards.
use dk_server_foundation.Common.{
  ℕ, String, ◌≡◌, refl, Bool, true, false, Option, none, some, List, [], ◌∷◌, lookup, lookup-insert,
  is_some, Option-cases, inl, inr, nat_eq, string_eq, arith, nat_beq_iff, ◌≢◌, ◌⊎◌, eq_refl,
}
use text.Mathlib.TextEquality.{eq_iff}
use dk_server_foundation.Mesh.Registry.{
  RegistrationState, Value, Redis, Codec, sadd, srem, hset, register_write, register_script,
}
use dk_server_foundation.Mesh.Registry.Client.{
  RegisterResult, ok, conflict, registration, encode_metadata, register_encoded,
  register_with_state, activate, unregister, update_metadata, cleanup_node,
}
use dk_server_foundation.Mesh.Registry.Consistency.{
  owned_by, IsConsistent, register_script-IsConsistent, activate_script-IsConsistent,
  unregister_script-IsConsistent, update_metadata_script-IsConsistent,
}
use dk_server_foundation.Mesh.Registry.Cleanup.{cleanup_node-Cleaned}

pub data Call (M : Type 0) : Type 0 where
  registers : String → ℕ → Option M → Bool → RegistrationState → ℕ → Call M
  activates : String → ℕ → Option M → Call M
  unregisters : String → ℕ → Call M
  updates : String → ℕ → Option M → Call M
  cleans : ℕ → Call M

module _ {M : Type 0} where
  -- The answer is the expected one, and nothing changes unless that is `true`.
  pub record Fenced (expected : Option Bool) (r : Redis M) (outcome : Redis M × Option Bool)
      : Type 0 where
    pub answer : outcome.1 ≡ expected
    pub unchanged : (expected ≡ some true) ⊎ (outcome.0 ≡ r)

  -- What a registration answers and does, by who owned the client before.
  pub record Registered (c : String) (n : ℕ) (allow : Bool) (r : Redis M)
      (outcome : Redis M × RegisterResult) : Type 0 where
    pub fresh : lookup c r.clients ≡ none → outcome.1 ≡ ok none
    pub again : owned_by c n r ≡ true → outcome.1 ≡ ok none
    pub superseded :
        (m : ℕ) → owned_by c m r ≡ true → n ≢ m → allow ≡ true → outcome.1 ≡ ok (some m)
    pub refused :
        (m : ℕ) → owned_by c m r ≡ true → n ≢ m → allow ≡ false → outcome ≡ (r, conflict (some m))
    pub owned : (old : Option ℕ) → outcome.1 ≡ ok old → owned_by c n outcome.0 ≡ true
    pub others : (d : String) (m : ℕ) → c ≢ d → owned_by d m outcome.0 ≡ owned_by d m r

module _ {M : Type 0} where
  -- A registration that throws changes nothing.
  pub RegisteredOr : String → ℕ → Bool → Redis M → Redis M × Option RegisterResult → Type 0
  RegisteredOr c n allow r (r', none) = r' ≡ r
  RegisteredOr c n allow r (r', some result) = Registered c n allow r (r', result)

module _ {M T : Type 0} (codec : Codec M T) where
  register_state :
      (c : String) (n : ℕ) (encoded : T × Bool) (allow : Bool) (state : RegistrationState) (now : ℕ)
      (r : Redis T)
      → (register_encoded codec c n encoded allow state now (λ s. s) r).0
        ≡ (register_script codec c n (registration n encoded.0 encoded.1 state now) allow r).0
  unfolding register_encoded
  register_state c n encoded allow state now r = ground arith

  pub step : Redis T → Call M → Redis T
  step r (registers c n metadata allow state now) =
      (register_with_state codec c n metadata allow state now (λ s. s) r).0
  step r (activates c n metadata) = (activate codec c n metadata r).0
  step r (unregisters c n) = (unregister c n r).0
  step r (updates c n metadata) = (update_metadata codec c n metadata r).0
  step r (cleans n) = (cleanup_node codec n r).0

  pub run : Redis T → List (Call M) → Redis T
  run r [] = r
  run r (call ∷ calls) = run (step r call) calls

  register_with_state-IsConsistent :
      (c : String) (n : ℕ) (metadata : Option M) (allow : Bool) (state : RegistrationState)
      (now : ℕ) (r : Redis T)
      → IsConsistent r
      → IsConsistent (register_with_state codec c n metadata allow state now (λ s. s) r).0
  unfolding register_with_state
  register_with_state-IsConsistent c n metadata allow state now r h =
      elim (Option-cases (encode_metadata codec metadata)) [
        | inl e ↦ rw (e, register_with_state) h
        | inr ((text, has), e) ↦
            rw (e, register_with_state, register_state c n (text, has) allow state now r)
              (register_script-IsConsistent codec c n (registration n text has state now) allow r
                refl h)
      ]

  activate-IsConsistent :
      (c : String) (n : ℕ) (metadata : Option M) (r : Redis T)
      → IsConsistent r
      → IsConsistent (activate codec c n metadata r).0
  unfolding activate
  activate-IsConsistent c n metadata r h = elim (Option-cases (encode_metadata codec metadata)) [
    | inl e ↦ rw (activate, e) h
    | inr (x, e) ↦ rw (activate, e) (activate_script-IsConsistent codec c n x.0 x.1 r h)
  ]

  update_metadata-IsConsistent :
      (c : String) (n : ℕ) (metadata : Option M) (r : Redis T)
      → IsConsistent r
      → IsConsistent (update_metadata codec c n metadata r).0
  unfolding update_metadata
  update_metadata-IsConsistent c n metadata r h =
      elim (Option-cases (encode_metadata codec metadata)) [
        | inl e ↦ rw (update_metadata, e) h
        | inr (x, e) ↦
            rw (update_metadata, e) (update_metadata_script-IsConsistent codec c n x.0 x.1 r h)
      ]

  step-IsConsistent : (r : Redis T) (call : Call M) → IsConsistent r → IsConsistent (step r call)
  unfolding step unregister
  step-IsConsistent r (registers c n metadata allow state now) h =
      register_with_state-IsConsistent c n metadata allow state now r h
  step-IsConsistent r (activates c n metadata) h = activate-IsConsistent c n metadata r h
  step-IsConsistent r (unregisters c n) h = unregister_script-IsConsistent c n r h
  step-IsConsistent r (updates c n metadata) h = update_metadata-IsConsistent c n metadata r h
  step-IsConsistent r (cleans n) h = (cleanup_node-Cleaned codec n r h).consistent

  -- From a consistent registry, where no key expires (the source lets them, 24 hours after the last
  -- EXPIRE) and cjson can read all metadata: after any sequence of calls by any nodes, a client is in
  -- the set of a node exactly if the hash names that node as its owner.
  pub run-IsConsistent :
      (r : Redis T) (calls : List (Call M)) → IsConsistent r → IsConsistent (run r calls)
  unfolding run
  run-IsConsistent r [] h = h
  run-IsConsistent r (call ∷ calls) h =
      run-IsConsistent (step r call) calls (step-IsConsistent r call h)

  -- `true` or `false` by ownership, unless the metadata cannot be written as JSON.
  abbrev pub owner_answer : Option M → Bool → Option Bool
  owner_answer metadata owns = elim (encode_metadata codec metadata) [
    | none ↦ none
    | some _ ↦ some owns
  ]

  -- Only the owner of a client can activate it, update its metadata or remove it: each of the three
  -- methods answers whether the node owns the client, and changes nothing if it does not. The two
  -- that are given metadata throw instead where JSON cannot write them, and then change nothing;
  -- cjson is taken to read what JSON wrote.
  pub owner_Fenced :
      (c : String) (n : ℕ) (metadata : Option M) (r : Redis T)
      → Fenced (owner_answer metadata (owned_by c n r)) r (activate codec c n metadata r)
        × Fenced (owner_answer metadata (owned_by c n r)) r (update_metadata codec c n metadata r)
        × Fenced (some (owned_by c n r)) r ((unregister c n r).0, some (unregister c n r).1)
  unfolding owned_by activate update_metadata unregister
  owner_Fenced c n metadata r = ground arith

  register_encoded-Registered :
      (c : String) (n : ℕ) (encoded : T × Bool) (allow : Bool) (state : RegistrationState) (now : ℕ)
      (r : Redis T)
      → Registered c n allow r (register_encoded codec c n encoded allow state now (λ s. s) r)
  unfolding register_encoded owned_by register_write sadd srem hset
  register_encoded-Registered c n (text, has) allow state now r =
      let v : Value T = registration n (codec.recode text) has state now in
      record {
        fresh = λ e. ground arith;
        again = λ e. ground arith;
        superseded = λ m e ne a. ground (arith, nat_beq_iff n m);
        refused = λ m e ne a. ground (arith, nat_beq_iff n m);
        owned = λ old e. ground (arith, lookup-insert c c v r.clients, eq_refl c);
        others = λ d m ne. ground (arith, lookup-insert c d v r.clients, eq_iff c d);
      }

  -- A registration, where no other node acts between its conflict and the read that follows and
  -- cjson can read the metadata: it throws exactly if JSON cannot write the metadata, and then
  -- changes nothing. Otherwise it answers the superseded node if another node owned the client and
  -- superseding is allowed; it names the owner and changes nothing if superseding is not allowed; it
  -- answers no superseded node if nobody or the same node owned it. After each success the node owns
  -- the client, and no other client changes hands.
  pub register-Registered :
      (c : String) (n : ℕ) (metadata : Option M) (allow : Bool) (state : RegistrationState)
      (now : ℕ) (r : Redis T)
      → (is_some (register_with_state codec c n metadata allow state now (λ s. s) r).1
          ≡ is_some (encode_metadata codec metadata))
        × RegisteredOr c n allow r
            (register_with_state codec c n metadata allow state now (λ s. s) r)
  unfolding register_with_state RegisteredOr
  register-Registered c n metadata allow state now r =
      elim (Option-cases (encode_metadata codec metadata)) [
        | inl e ↦ (rw (register_with_state, e) refl, rw (register_with_state, e) refl)
        | inr (x, e) ↦ (
          rw (register_with_state, e) refl,
          rw (register_with_state, e) (register_encoded-Registered c n x allow state now r),
        )
      ]
