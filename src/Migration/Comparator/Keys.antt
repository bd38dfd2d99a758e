-- ===== src/Migration/Comparator/Keys.antt =====
-- src/database/migration/create/comparator.ts: indexes and foreign keys compared with
-- themselves.
use dk_server_foundation.Common.{
  String, ◌≡◌, List, [], string_eq, filterb_none, All-map, All-includes_keys,
}
use dk_server_foundation.Migration.Comparator.{without_keys}

module _ {ℓ} {A : Type ℓ} (key : A → String) where
  pub without_keys_self : (xs : List A) → without_keys key xs xs ≡ []
  unfolding without_keys
  without_keys_self xs = filterb_none _ xs (All-map _ _ xs (λ x h. rw h) (All-includes_keys key xs))
