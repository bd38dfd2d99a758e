-- ===== src/Migration/Ddl/Schemas/Created.antt =====
-- src/database/migration/create/ddl-generator.ts: the enum types that a migration creates.
use dk_server_foundation.Common.{String, ◌≡◌, false, List, [], ◌∷◌, ◌++◌, map, includes, string_eq}
use dk_server_foundation.Migration.SchemaModel.{TableSchema, EnumType, TableDiff}
use dk_server_foundation.Migration.Ddl.{Statement, create_enum_type}
use dk_server_foundation.Migration.Ddl.Mysql.{distinct_from}
use dk_server_foundation.Migration.Ddl.Schemas.{column_enums}
use dk_server_foundation.Migration.Ddl.Schemas.Kinds.{creates_enum}

-- The types that are created, in order.
abbrev pub created : List Statement → List String
created [] = []
created (create_enum_type e ∷ ss) = e.type_name ∷ created ss
created (_ ∷ ss) = created ss

-- No name occurs twice.
abbrev pub AreDistinct : List String → Type 0
AreDistinct [] = Unit
AreDistinct (n ∷ ns) = (includes ns n ≡ false) × AreDistinct ns

abbrev type_names : List EnumType → List String
type_names = map (λ e. e.type_name)

-- What is remembered, and what is created, after types that are asked for.
abbrev Remembers : List String → List String → List String × List Statement → Type 0
Remembers seen names (seen', ss) = (seen' ≡ distinct_from seen names) × (seen ++ created ss ≡ seen')

-- The types that new tables need, and those that changed tables gain.
abbrev pub table_enums : List TableSchema → List String
table_enums [] = []
table_enums (t ∷ ts) = type_names (column_enums t.columns) ++ table_enums ts

abbrev pub gained_enums : List TableDiff → List String
gained_enums [] = []
gained_enums (d ∷ ds) = type_names d.added_enum_types ++ gained_enums ds

abbrev IsOther : Statement → Type 0
IsOther s = creates_enum s ≡ false
