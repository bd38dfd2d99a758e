-- ===== src/Mesh/Registry/Reading.antt =====
-- What `getClient` of src/services/mesh-client/mesh-client-redis-registry.ts reads of a registration,
-- after JSON and cjson have had the metadata.
use dk_server_foundation.Common.{
  ℕ, String, ◌≡◌, refl, Bool, true, Option, none, some, lookup, lookup-insert_self, nat_eq,
  string_eq, arith, is_some, Option-cases, inl, inr,
}
use dk_server_foundation.Mesh.Registry.{
  RegistrationState, active, pending, Value, Redis, Codec, sadd, srem, hset, register_write,
}
use dk_server_foundation.Mesh.Registry.Client.{
  registration, encode_metadata, register_encoded, register_with_state, register, reserve, activate,
  get_client,
}

module _ {M T : Type 0} (codec : Codec M T) where
  -- What becomes of metadata on the way: JSON writes it, cjson reads and writes it again, and JSON
  -- reads it; `undefined` stays.
  abbrev pub conveyed : Option M → Option M
  conveyed none = none
  conveyed (some m) = elim (codec.stringify m) [
    | none ↦ none
    | some text ↦ some (codec.parse (codec.recode text))
  ]

  lookup-register_with_state :
      (c : String) (n : ℕ) (metadata : Option M) (encoded : T × Bool) (state : RegistrationState)
      (now : ℕ) (r : Redis T)
      → encode_metadata codec metadata ≡ some encoded
      → lookup c (register_with_state codec c n metadata true state now (λ s. s) r).0.clients
        ≡ some (registration n (codec.recode encoded.0) encoded.1 state now)
  unfolding register_with_state register_encoded register_write sadd srem hset
  lookup-register_with_state c n metadata (text, has) state now r e =
      rw (register_with_state, e)
        (ground (
          arith,
          lookup-insert_self c (registration n (codec.recode text) has state now) r.clients,
        ))

  -- The value in the hash that `getClient` reads as these metadata.
  get_client_active :
      (c : String) (v : Value T) (metadata : Option M) (encoded : T × Bool) (r : Redis T)
      → lookup c r.clients ≡ some v
      → v.state ≡ some active
      → v.has_metadata ≡ some encoded.1
      → v.metadata ≡ codec.recode encoded.0
      → encode_metadata codec metadata ≡ some encoded
      → get_client codec c r
        ≡ some (record {
          client_id = c;
          node_id = v.node_id;
          connected_at = v.connected_at;
          metadata = conveyed metadata;
        })
  unfolding get_client encode_metadata
  get_client_active c v none encoded r e st has text written = ground arith
  get_client_active c v (some m) encoded r e st has text written = ground arith

  get_client_pending :
      (c : String) (v : Value T) (r : Redis T)
      → lookup c r.clients ≡ some v
      → v.state ≡ some pending
      → get_client codec c r ≡ none
  unfolding get_client
  get_client_pending c v r e p = ground arith

  -- A client that a node registers, superseding others and with metadata that JSON can write, is
  -- read back by `getClient` at that node, with the metadata that JSON and cjson make of those that
  -- were given; `undefined` is read back as `undefined`.
  pub get_client-register :
      (c : String) (n : ℕ) (metadata : Option M) (now : ℕ) (r : Redis T)
      → is_some (encode_metadata codec metadata) ≡ true
      → get_client codec c (register codec c n metadata true now (λ s. s) r).0
        ≡ some (record {
          client_id = c;
          node_id = n;
          connected_at = now;
          metadata = conveyed metadata;
        })
  unfolding register
  get_client-register c n metadata now r h = elim (Option-cases (encode_metadata codec metadata)) [
    | inl e ↦ ground arith
    | inr (x, e) ↦
        get_client_active c _ metadata x _
          (lookup-register_with_state c n metadata x active now r e) refl refl refl e
  ]

  lookup-activate :
      (c : String) (n : ℕ) (metadata : Option M) (encoded : T × Bool) (old : Value T) (r : Redis T)
      → encode_metadata codec metadata ≡ some encoded
      → lookup c r.clients ≡ some old
      → old.node_id ≡ n
      → ((activate codec c n metadata r).1 ≡ some true)
        × (lookup c (activate codec c n metadata r).0.clients
            ≡ some (
                registration old.node_id
                  (codec.recode encoded.0)
                  encoded.1
                  active
                  old.connected_at))
  unfolding activate register_write sadd hset
  lookup-activate c n metadata (text, has) old r e there own =
      let v : Value T = registration old.node_id (codec.recode text) has active old.connected_at in
      ground (arith, lookup-insert_self c v r.clients)

  -- A client that a node reserves, superseding others, is hidden from `getClient`; when the node
  -- activates it, `getClient` shows it with the time of the reservation and with the metadata that
  -- JSON and cjson make of those of the activation, where JSON can write both metadata.
  pub activate-reserve :
      (c : String) (n : ℕ) (early late : Option M) (now : ℕ) (r : Redis T)
      → is_some (encode_metadata codec early) ≡ true
      → is_some (encode_metadata codec late) ≡ true
      → (get_client codec c (reserve codec c n early true now (λ s. s) r).0 ≡ none)
        × ((activate codec c n late (reserve codec c n early true now (λ s. s) r).0).1 ≡ some true)
        × (get_client codec c
              (activate codec c n late (reserve codec c n early true now (λ s. s) r).0).0
            ≡ some (record {
              client_id = c;
              node_id = n;
              connected_at = now;
              metadata = conveyed late;
            }))
  unfolding reserve
  activate-reserve c n early late now r h k = elim (Option-cases (encode_metadata codec early)) [
    | inl e ↦ absurd (ground arith)
    | inr (x, e) ↦ elim (Option-cases (encode_metadata codec late)) [
      | inl f ↦ absurd (ground arith)
      | inr (y, f) ↦
          let s = (register_with_state codec c n early true pending now (λ t. t) r).0 in
          let there = lookup-register_with_state c n early x pending now r e in
          let after = lookup-activate c n late y _ s f there refl in
          (
            get_client_pending c _ s there refl,
            after.0,
            get_client_active c _ late y _ after.1 refl refl refl f,
          )
    ]
  ]
