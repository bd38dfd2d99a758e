-- ===== src/Srpc/Client/Run/Settled.antt =====
-- Invocations of the server in src/srpc/SrpcClient.ts: how often each is settled.
use dk_server_foundation.Common.{
  ℕ, String, ◌≡◌, refl, sym, subst, append-nil, Bool, true, Option, none, some, List, [], ◌∷◌, ◌++◌,
  map, Map, lookup, insert, delete, has, HasUniqueKeys, insert-HasUniqueKeys, lookup-insert,
  lookup-delete, ◌+◌, ◌==◌, string_eq, nat_eq, if◌then◌else◌, if-intro, arith,
}
use text.Mathlib.TextEquality.{eq_iff}
use dk_server_foundation.Srpc.Server.{QueuedRequest}
use dk_server_foundation.Srpc.Client.{
  Effect, asks, resolves, rejects, sends, InvokeFailure, disconnected, SrpcClient, emit, on_ws,
  write_message,
}

module _ {J : Type 0} (id : String) where
  -- Whether an effect is the call of an invocation, and whether it settles it.
  abbrev pub asks_for : Effect J → ℕ
  asks_for (asks i) = if i == id then 1 else 0
  asks_for _ = 0

  abbrev pub settles : Effect J → ℕ
  settles (resolves i v) = if i == id then 1 else 0
  settles (rejects i f) = if i == id then 1 else 0
  settles _ = 0

  abbrev pub asked : List (Effect J) → ℕ
  asked [] = 0
  asked (e ∷ es) = asks_for e + asked es

  abbrev pub settled : List (Effect J) → ℕ
  settled [] = 0
  settled (e ∷ es) = settles e + settled es

  asked-append : (es fs : List (Effect J)) → asked (es ++ fs) ≡ asked es + asked fs
  asked-append [] fs = omega arith
  asked-append (e ∷ es) fs = omega (arith, asked-append es fs)

  settled-append : (es fs : List (Effect J)) → settled (es ++ fs) ≡ settled es + settled fs
  settled-append [] fs = omega arith
  settled-append (e ∷ es) fs = omega (arith, settled-append es fs)

-- 1 if the invocation is in the queue.
abbrev pub waits : String → Map String QueuedRequest → ℕ
waits id queue = if has id queue then 1 else 0

delete-HasUniqueKeys :
    (k : String) (m : Map String QueuedRequest) → HasUniqueKeys m → HasUniqueKeys (delete k m)
unfolding delete lookup
delete-HasUniqueKeys k [] h = tt
delete-HasUniqueKeys k ((j, w) ∷ m) (h, hs) =
    if-intro HasUniqueKeys (j == k) (delete k m) ((j, w) ∷ delete k m)
      (λ _. delete-HasUniqueKeys k m hs)
      (λ e. (ground (arith, lookup-delete k j m, h), delete-HasUniqueKeys k m hs))

abbrev pub rejections : (J : Type 0) → Map String QueuedRequest → List (Effect J)
rejections J queue = map (λ item. rejects item.0 disconnected) queue

asked-rejections :
    (J : Type 0) (id : String) (queue : Map String QueuedRequest)
    → asked id (rejections J queue) ≡ 0
asked-rejections J id [] = refl
asked-rejections J id ((k, item) ∷ rest) = omega (arith, asked-rejections J id rest)

settled-rejections :
    (J : Type 0) (id : String) (queue : Map String QueuedRequest)
    → HasUniqueKeys queue
    → settled id (rejections J queue) ≡ waits id queue
unfolding lookup
settled-rejections J id [] h = refl
settled-rejections J id ((k, item) ∷ rest) (h, hs) =
    ground (arith, settled-rejections J id rest hs, h, eq_iff k id)

module _ {J : Type 0} where
  abbrev pub AreBalanced : Map String QueuedRequest → List (Effect J) → Type 0
  AreBalanced queue es =
      HasUniqueKeys queue × ((id : String) → asked id es ≡ settled id es + waits id queue)

  abbrev pub IsSilent : Effect J → Type 0
  IsSilent e = (id : String) → (asks_for id e ≡ 0) × (settles id e ≡ 0)

  pub AreBalanced-silent :
      (queue : Map String QueuedRequest) (es : List (Effect J)) (e : Effect J)
      → IsSilent e
      → AreBalanced queue es
      → AreBalanced queue (es ++ (e ∷ []))
  AreBalanced-silent queue es e s (u, h) = (
    u,
    λ id. omega (
      arith,
      h id,
      asked-append id es (e ∷ []),
      settled-append id es (e ∷ []),
      (s id).0,
      (s id).1,
    ),
  )

  -- One effect that settles an invocation which waits.
  pub AreBalanced-settle :
      (id : String) (queue : Map String QueuedRequest) (es : List (Effect J)) (e : Effect J)
      → ((j : String) → (asks_for j e ≡ 0) × (settles j e ≡ (if id == j then 1 else 0)))
      → has id queue ≡ true
      → AreBalanced queue es
      → AreBalanced (delete id queue) (es ++ (e ∷ []))
  AreBalanced-settle id queue es e s q (u, h) = (
    delete-HasUniqueKeys id queue u,
    λ j. ground (
      arith,
      h j,
      asked-append j es (e ∷ []),
      settled-append j es (e ∷ []),
      (s j).0,
      (s j).1,
      lookup-delete id j queue,
      eq_iff id j,
      q,
    ),
  )

  pub AreBalanced-ask :
      (id : String) (item : QueuedRequest) (type : String) (v : J)
      (queue : Map String QueuedRequest) (es : List (Effect J))
      → lookup id queue ≡ none
      → AreBalanced queue es
      → AreBalanced (insert id item queue) (es ++ (asks id ∷ (sends id type v ∷ [])))
  AreBalanced-ask id item type v queue es n (u, h) = (
    insert-HasUniqueKeys id item queue u,
    λ j. ground (
      arith,
      h j,
      asked-append j es (asks id ∷ (sends id type v ∷ [])),
      settled-append j es (asks id ∷ (sends id type v ∷ [])),
      lookup-insert id j item queue,
      eq_iff id j,
      n,
    ),
  )

  pub AreBalanced-unsent :
      (id : String) (item : QueuedRequest) (f : InvokeFailure) (queue : Map String QueuedRequest)
      (es : List (Effect J))
      → lookup id queue ≡ none
      → AreBalanced queue es
      → AreBalanced (delete id (insert id item queue)) (es ++ (asks id ∷ (rejects id f ∷ [])))
  AreBalanced-unsent id item f queue es n (u, h) = (
    delete-HasUniqueKeys id (insert id item queue) (insert-HasUniqueKeys id item queue u),
    λ j. ground (
      arith,
      h j,
      asked-append j es (asks id ∷ (rejects id f ∷ [])),
      settled-append j es (asks id ∷ (rejects id f ∷ [])),
      lookup-delete id j (insert id item queue),
      lookup-insert id j item queue,
      eq_iff id j,
      n,
    ),
  )

  pub AreBalanced-rejections :
      (queue : Map String QueuedRequest) (es : List (Effect J))
      → AreBalanced queue es
      → AreBalanced [] (es ++ rejections J queue)
  unfolding lookup
  AreBalanced-rejections queue es (u, h) = (
    tt,
    λ id. ground (
      arith,
      h id,
      asked-append id es (rejections J queue),
      settled-append id es (rejections J queue),
      asked-rejections J id queue,
      settled-rejections J id queue u,
    ),
  )

  -- Of a client.
  abbrev pub IsBalanced : SrpcClient J → Type 0
  IsBalanced c = AreBalanced c.request_queue c.effects

  on_option-keeps :
      (P : SrpcClient J → Type 0) (f : ℕ → Effect J) (c : SrpcClient J) (o : Option ℕ)
      → P c
      → ((ref : ℕ) → P (emit (f ref ∷ []) c))
      → P (elim o [ none ↦ c | some ref ↦ emit (f ref ∷ []) c ])
  on_option-keeps P f c none h k = h
  on_option-keeps P f c (some ref) h k = k ref

  pub on_ws-IsBalanced :
      (f : ℕ → Effect J) (c : SrpcClient J)
      → ((ref : ℕ) → IsSilent (f ref))
      → IsBalanced c
      → IsBalanced (on_ws f c)
  on_ws-IsBalanced f c s h =
      on_option-keeps IsBalanced f c c.ws h
        (λ ref. AreBalanced-silent c.request_queue c.effects (f ref) (s ref) h)

  pub write_message-IsBalanced :
      (is_open : Bool) (f : ℕ → Effect J) (c : SrpcClient J)
      → ((ref : ℕ) → IsSilent (f ref))
      → IsBalanced c
      → IsBalanced (write_message is_open f c)
  write_message-IsBalanced is_open f c s h =
      if-intro IsBalanced is_open (on_ws f c) c (λ _. on_ws-IsBalanced f c s h) (λ _. h)

  -- One silent effect, or none.
  pub maybe-AreBalanced :
      (b : Bool) (queue : Map String QueuedRequest) (es : List (Effect J)) (e : Effect J)
      → IsSilent e
      → AreBalanced queue es
      → AreBalanced queue (es ++ (if b then e ∷ [] else []))
  maybe-AreBalanced b queue es e s h =
      if-intro (λ fs. AreBalanced queue (es ++ fs)) b (e ∷ []) []
        (λ _. AreBalanced-silent queue es e s h)
        (λ _. subst (AreBalanced queue) (sym (append-nil es)) h)
