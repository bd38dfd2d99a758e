-- ===== src/Migration/Ddl/Postgres.antt =====
-- src/database/migration/create/ddl-generator.ts: `generatePostgresTableDDL`. The enum types that
-- were created so far are handed on.
pub mod Parts
use Prim.Native.String
use dk_server_foundation.Common.{
  String, Bool, true, false, not, ◌&&◌, ◌||◌, Option, none, some, is_some, List, [], ◌∷◌, ◌++◌, map,
  string_eq, if◌then◌else◌, or_else, includes, filterb,
}
use dk_server_foundation.Migration.SchemaModel.{
  ColumnSchema, ColumnModification, EnumType, TableDiff, unplaced,
}
use dk_server_foundation.Migration.Comparator.{truthy}
use dk_server_foundation.Migration.Comparator.Renames.{is_empty}
use dk_server_foundation.Migration.Comparator.Enums.{is_enum}
use dk_server_foundation.Migration.Ddl.{Default, expression, literal, next_value, Statement, text}

-- Creating the types that are not created so far: those, and the statements.
unfoldable pub create_enum_types : List EnumType → List String → List String × List Statement
create_enum_types [] seen = (seen, [])
create_enum_types (e ∷ es) seen =
    let (seen', rest) =
      create_enum_types es
        (if includes seen e.type_name then seen else seen ++ (e.type_name ∷ [])) in
    (seen', if includes seen e.type_name then rest else Statement.create_enum_type e ∷ rest)

abbrev pub drop_constraints : TableDiff → List Statement
drop_constraints d =
    if d.primary_key_changed && not (is_empty (or_else d.old_primary_key []))
    then Statement.drop_primary_key d.table_name
        (or_else d.old_primary_key_constraint_name (text (d.table_name ∷ ("_pkey" ∷ []))))
      ∷ []
    else []

abbrev pub drop_columns : TableDiff → List Statement
drop_columns d = map (λ c. Statement.drop_column d.table_name c.name) d.removed_columns

abbrev pub rename_columns : TableDiff → List Statement
rename_columns d = map (λ r. Statement.rename_column d.table_name r.from r.to) d.renamed_columns

-- 3 to 7: what goes, and renames.
unfoldable pub drop_and_rename : TableDiff → List Statement
drop_and_rename d =
    map (λ k. Statement.drop_foreign_key d.table_name k.name) d.removed_foreign_keys
    ++ (map (λ i. Statement.drop_index d.table_name i.name) d.removed_indexes
        ++ (drop_constraints d ++ (drop_columns d ++ rename_columns d)))

abbrev pub has_default : ColumnSchema → Bool
has_default c = truthy c.default_expression || is_some c.default_value

-- `a ?? b`
abbrev pub or_option {ℓ} : {A : Type ℓ} → Option A → Option A → Option A
or_option none o = o
or_option (some a) o = some a

abbrev pub is_cast : ColumnModification → Bool
is_cast m = is_enum m.new_column && truthy m.new_column.enum_type_name

-- 8: a change of type. A default of an enum goes before it, and comes back after all of them.
unfoldable pub change_type : String → ColumnModification → List Statement
change_type t m =
    if m.type_changed
    then (if is_cast m && has_default m.old_column
        then Statement.drop_default t m.name ∷ []
        else [])
      ++ (Statement.alter_type t m.name m.new_column (is_cast m) ∷ [])
    else []

abbrev pub restored_value : Option String → Option Default
restored_value none = none
restored_value (some v) = some (literal v)

unfoldable pub restored_default : ColumnModification → Option Default
restored_default m =
    let restored = or_option m.new_column.default_expression m.old_column.default_expression in
    if m.type_changed && (is_cast m && has_default m.old_column)
    then if truthy restored
      then some (expression (or_else restored ""))
      else restored_value (or_option m.new_column.default_value m.old_column.default_value)
    else none

unfoldable pub restore_default : String → ColumnModification → List Statement
unfolding restored_default
restore_default t m = elim (restored_default m) [
  | none ↦ []
  | some e ↦ Statement.set_default t m.name e ∷ []
]

-- 9
unfoldable pub change_nullable : String → ColumnModification → List Statement
change_nullable t m =
    if m.nullable_changed then Statement.set_nullable t m.name m.new_column.nullable ∷ [] else []

-- 10
unfoldable pub change_default : String → ColumnModification → List Statement
change_default t m =
    if m.default_changed
    then (if truthy m.new_column.default_expression
        then Statement.set_default t m.name
            (expression (or_else m.new_column.default_expression ""))
        else elim m.new_column.default_value [
          | some v ↦ Statement.set_default t m.name (literal v)
          | none ↦ Statement.drop_default t m.name
        ])
      ∷ []
    else []

abbrev pub sequence_name : String → ColumnModification → String
sequence_name t m = text (t ∷ ("_" ∷ (m.name ∷ ("_seq" ∷ []))))

-- 11
unfoldable pub change_auto_increment : String → ColumnModification → List Statement
change_auto_increment t m =
    if not m.auto_increment_changed
    then []
    else if m.new_column.auto_increment
    then Statement.create_sequence t m.name (sequence_name t m)
      ∷ (Statement.set_default t m.name (next_value (sequence_name t m))
          ∷ (Statement.sync_sequence t m.name (sequence_name t m) ∷ []))
    else if or_else m.old_column.is_identity false
    then Statement.drop_identity t m.name ∷ []
    else Statement.drop_default t m.name
      ∷ (Statement.drop_sequence
            (if truthy m.old_column.sequence_name then m.old_column.sequence_name else none)
            (sequence_name t m)
          ∷ [])

-- A loop over the modified columns.
unfoldable pub for_each :
    (ColumnModification → List Statement) → List ColumnModification → List Statement
for_each f [] = []
for_each f (m ∷ ms) = f m ++ for_each f ms

-- 8 to 11
unfoldable pub change_columns : String → List ColumnModification → List Statement
unfolding change_type restore_default change_nullable change_default change_auto_increment for_each
change_columns t ms =
    for_each (change_type t) ms
    ++ (for_each (restore_default t) ms
        ++ (for_each (change_nullable t) ms
            ++ (for_each (change_default t) ms ++ for_each (change_auto_increment t) ms)))

abbrev pub add_key : TableDiff → List Statement
add_key d =
    if d.primary_key_changed && not (is_empty (or_else d.new_primary_key []))
    then Statement.add_primary_key d.table_name (or_else d.new_primary_key []) ∷ []
    else []

-- 12 to 15
unfoldable pub add_new : TableDiff → List Statement
add_new d =
    map (λ c. Statement.add_column d.table_name c unplaced) d.added_columns
    ++ (add_key d
        ++ (map (Statement.create_index d.table_name) d.added_indexes
            ++ map (Statement.add_foreign_key d.table_name) d.added_foreign_keys))

unfoldable pub generate_postgres_table_ddl : TableDiff → List String → List String × List Statement
unfolding create_enum_types drop_and_rename change_columns add_new
generate_postgres_table_ddl d seen =
    let (seen', created) = create_enum_types d.added_enum_types seen in
    (
      seen',
      created
          ++ (drop_and_rename d ++ (change_columns d.table_name d.modified_columns ++ add_new d)),
    )
