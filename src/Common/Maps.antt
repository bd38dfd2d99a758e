-- ===== src/Common/Maps.antt =====
-- A JavaScript `Map` (and a Redis hash) as an association list in insertion order: setting a key
-- that is there keeps its place.
use mathlib.Core.Path.{◌≡◌, refl}
use mathlib.Core.Bool.{Bool}
use mathlib.Core.List.{List, [], ◌∷◌}
use mathlib.Core.Option.{Option, none, some}
use native.Mathlib.Omega.{arith}
use package.dk_server_foundation.Common.Tests.{if◌then◌else◌, Eq, ◌==◌, eq_refl, is_some}

abbrev pub Map {ℓ κ} : Type ℓ → Type κ → Type (ℓ ⊔ κ)
Map K V = List (K × V)

module _ {ℓ κ} {K : Type ℓ} {V : Type κ} ⦃e : Eq K⦄ where
  unfoldable pub lookup : K → Map K V → Option V
  lookup key [] = none
  lookup key ((j, w) ∷ rest) = if j == key then some w else lookup key rest

  unfoldable pub insert : K → V → Map K V → Map K V
  insert key new [] = (key, new) ∷ []
  insert key new ((j, w) ∷ rest) =
      if j == key then (j, new) ∷ rest else (j, w) ∷ insert key new rest

  unfoldable pub delete : K → Map K V → Map K V
  delete k [] = []
  delete k ((j, w) ∷ m) = if j == k then delete k m else (j, w) ∷ delete k m

  abbrev pub has : K → Map K V → Bool
  has k m = is_some (lookup k m)

  pub lookup-insert :
      (k j : K) (v : V) (es : Map K V)
      → lookup j (insert k v es) ≡ (if k == j then some v else lookup j es)
  unfolding insert lookup
  lookup-insert k j v [] = refl
  lookup-insert k j v ((i, x) ∷ m) =
      ground (arith, e.beq_iff k j, e.beq_iff i k, e.beq_iff i j, lookup-insert k j v m)

  pub lookup-delete :
      (k j : K) (m : Map K V) → lookup j (delete k m) ≡ (if k == j then none else lookup j m)
  unfolding lookup delete
  lookup-delete k j [] = ground arith
  lookup-delete k j ((i, w) ∷ m) =
      ground (arith, e.beq_iff k j, e.beq_iff i k, e.beq_iff i j, lookup-delete k j m)

  pub lookup-insert_self : (k : K) (v : V) (m : Map K V) → lookup k (insert k v m) ≡ some v
  lookup-insert_self k v m = simp (lookup-insert, eq_refl)

  pub lookup-delete_self : (k : K) (m : Map K V) → lookup k (delete k m) ≡ none
  lookup-delete_self k m = simp (lookup-delete, eq_refl)

  -- A key stands once, as in every map that `insert` builds.
  abbrev pub HasUniqueKeys : Map K V → Type κ
  HasUniqueKeys [] = Unit
  HasUniqueKeys ((k, v) ∷ m) = (lookup k m ≡ none) × HasUniqueKeys m

  pub insert-HasUniqueKeys :
      (k : K) (v : V) (m : Map K V) → HasUniqueKeys m → HasUniqueKeys (insert k v m)
  unfolding lookup insert
  insert-HasUniqueKeys k v [] h = (refl, tt)
  insert-HasUniqueKeys k v ((j, w) ∷ m) h =
      ground
        (arith, insert-HasUniqueKeys k v m, lookup-insert k j v m, e.beq_iff k j, e.beq_iff j k)

  -- Each entry is what its key finds.
  abbrev pub AllFound : Map K V → Map K V → Type κ
  AllFound [] m = Unit
  AllFound ((k, v) ∷ es) m = (lookup k m ≡ some v) × AllFound es m

  AllFound-cons :
      (j : K) (w : V) (es m : Map K V)
      → lookup j m ≡ none
      → AllFound es m
      → AllFound es ((j, w) ∷ m)
  unfolding lookup
  AllFound-cons j w [] m n h = tt
  AllFound-cons j w ((k, v) ∷ es) m n h =
      (ground (arith, e.beq_iff j k), AllFound-cons j w es m n h.1)

  pub HasUniqueKeys-AllFound : (m : Map K V) → HasUniqueKeys m → AllFound m m
  unfolding lookup
  HasUniqueKeys-AllFound [] h = tt
  HasUniqueKeys-AllFound ((k, v) ∷ m) h =
      (ground (arith, eq_refl k), AllFound-cons k v m m h.0 (HasUniqueKeys-AllFound m h.1))
