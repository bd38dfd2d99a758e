-- ===== src/Common.antt =====
-- The names that the other modules share: the libraries', passed on, and those of three children
-- (Boolean tests, lists measured by native numbers, JavaScript maps as association lists).
mod Tests
mod Lists
mod Maps
mod Int
pub use Tests.*
pub use Lists.*
unfoldable pub use Maps.{lookup, insert, delete}
pub use Maps.*
unfoldable pub use Int.{sub_ℕ}
pub use Int.*
pub use Prim.Native.Nat.{ℕ, zero, suc, ◌+◌, ◌-◌, ◌*◌, ◌/◌, ◌%◌, ◌≤◌, ◌<◌}
pub use Prim.Native.String.{String}
pub use mathlib.Core.Path.{◌≡◌, refl, sym, ap, subst, ◌∙◌, fun_ext}
pub use mathlib.Core.Logic.{◌≢◌, ◌↔◌, ◌⊎◌, inl, inr}
pub use mathlib.Core.Bool.{Bool, true, false, not, ◌&&◌, ◌||◌}
pub use mathlib.Core.Option.{Option, none, some}
pub use mathlib.Core.List.{List, [], ◌∷◌, ◌++◌, map, append-nil, append_assoc}
pub use native.Mathlib.Omega.{arith}
