-- ===== src/Srpc/Server/Tracking.antt =====
-- Maps from a key to the object that has it, as `streamsById` of src/srpc/SrpcServer.ts.
use dk_server_foundation.Common.{
  ℕ, String, ◌≡◌, ◌↔◌, ◌⊎◌, inl, inr, Option, none, some, Map, lookup, insert, delete,
  lookup-insert, lookup-delete, nat_eq, string_eq, arith, nat_beq_iff, if◌then◌else◌, ◌==◌,
}
use text.Mathlib.TextEquality.{eq_iff}
use dk_server_foundation.Srpc.Server.Lifecycle.{delete_own}

-- A key leads to an object exactly if it is the key that the object has.
unfoldable pub Tracks : Map String ℕ → (ℕ → Option String) → Type 0
Tracks m key = (k : String) (r : ℕ) → (lookup k m ≡ some r) ↔ (key r ≡ some k)

module _ (m : Map String ℕ) (key key' : ℕ → Option String) where
  pub Tracks-same : ((r : ℕ) → key' r ≡ key r) → Tracks m key → Tracks m key'
  unfolding Tracks
  Tracks-same e h k r = ground (arith, e r, h k r)

  module _ (ref : ℕ) (k : String) where
    pub Tracks-insert :
        ((r : ℕ) → key' r ≡ (if ref == r then some k else key r))
        → key ref ≡ none
        → lookup k m ≡ none
        → Tracks m key
        → Tracks (insert k ref m) key'
    unfolding Tracks
    Tracks-insert e a b h j r =
        ground (arith, e r, lookup-insert k j ref m, eq_iff k j, nat_beq_iff ref r, h j r, h k r)

    pub Tracks-delete :
        ((r : ℕ) → key' r ≡ (if ref == r then none else key r))
        → key ref ≡ some k
        → Tracks m key
        → Tracks (delete k m) key'
    unfolding Tracks
    Tracks-delete e a h j r = ground (
      arith,
      e r,
      lookup-delete k j m,
      eq_iff k j,
      nat_beq_iff ref r,
      h j r,
      h k r,
      h k ref,
      h j ref,
    )

    -- Whether the object has the key or none.
    pub Tracks-delete_own :
        ((r : ℕ) → key' r ≡ (if ref == r then none else key r))
        → (key ref ≡ some k) ⊎ (key ref ≡ none)
        → Tracks m key
        → Tracks (delete_own k ref m) key'
    unfolding Tracks
    Tracks-delete_own e (inl a) h j r = ground (
      arith,
      e r,
      lookup-delete k j m,
      eq_iff k j,
      nat_beq_iff ref r,
      h j r,
      h k r,
      h k ref,
      h j ref,
    )
    Tracks-delete_own e (inr a) h j r =
        ground (arith, e r, nat_beq_iff ref r, h j r, h k r, h k ref, h j ref)

    pub Tracks-insert_again :
        ((r : ℕ) → key' r ≡ key r) → key ref ≡ some k → Tracks m key → Tracks (insert k ref m) key'
    unfolding Tracks
    Tracks-insert_again e a h j r =
        ground (arith, e r, lookup-insert k j ref m, eq_iff k j, h j r, h k r, h k ref)

    pub Tracks-delete_absent :
        ((r : ℕ) → key' r ≡ key r) → lookup k m ≡ none → Tracks m key → Tracks (delete k m) key'
    unfolding Tracks
    Tracks-delete_absent e a h j r =
        ground (arith, e r, lookup-delete k j m, eq_iff k j, h j r, h k r)
