-- ===== src/Migration/Ddl/Schemas/Recreated.antt =====
-- src/database/migration/create/ddl-generator.ts: the enum types that a migration creates anew
-- because they lose values.
use dk_server_foundation.Common.{
  String, ◌≡◌, Bool, false, not, List, [], ◌∷◌, string_eq, ◌==◌, if◌then◌else◌,
}
use dk_server_foundation.Migration.SchemaModel.{EnumModification}
use dk_server_foundation.Migration.Comparator.Renames.{is_empty}
use dk_server_foundation.Migration.Ddl.{Statement, create_type}
use dk_server_foundation.Migration.Ddl.Schemas.Kinds.{replaces}

-- The types that are created anew, in order.
abbrev pub recreated : List Statement → List String
recreated [] = []
recreated (create_type n vs ∷ ss) = n ∷ recreated ss
recreated (_ ∷ ss) = recreated ss

abbrev Keeps : Statement → Type 0
Keeps s = replaces s ≡ false

-- Whether the first change of a type takes values from it.
abbrev pub loses : String → List EnumModification → Bool
loses n [] = false
loses n (m ∷ ms) = if m.type_name == n then not (is_empty m.removed) else loses n ms
