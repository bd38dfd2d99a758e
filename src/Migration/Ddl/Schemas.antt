-- ===== src/Migration/Ddl/Schemas.antt =====
-- src/database/migration/create/ddl-generator.ts: `generateDDL`, from new tables to dropped types.
-- Drops of types are told apart by their texts.
pub mod Kinds
pub mod Parts
pub mod Created
pub mod Order
pub mod Dropped
pub mod Recreated
pub mod Tests
use Prim.Native.String
use dk_server_foundation.Common.{
  String, Bool, true, false, not, ◌&&◌, ◌||◌, Option, none, some, is_some, List, [], ◌∷◌, ◌++◌, map,
  string_eq, ◌==◌, if◌then◌else◌, or_else, includes, filterb, add_some, Map, lookup,
}
use dk_server_foundation.Migration.SchemaModel.{
  Dialect, mysql, postgres, ColumnSchema, ForeignKeySchema, TableSchema, EnumType, EnumModification,
  TableDiff, SchemaDiff,
}
use dk_server_foundation.Migration.Comparator.{truthy, is_postgres}
use dk_server_foundation.Migration.Comparator.Renames.{is_empty}
use dk_server_foundation.Migration.Comparator.Enums.{is_enum, enum_of}
use dk_server_foundation.Migration.Ddl.{Grammar, Statement, text, drop_type_text}
use dk_server_foundation.Migration.Ddl.Mysql.{generate_mysql_table_ddl}
use dk_server_foundation.Migration.Ddl.Postgres.{create_enum_types, generate_postgres_table_ddl}

-- The enum types of a new table's columns.
unfoldable pub column_enums : List ColumnSchema → List EnumType
column_enums [] = []
column_enums (c ∷ cs) = add_some (enum_of c) (column_enums cs)

unfoldable pub create_types_for : Dialect → TableSchema → List String → List String × List Statement
unfolding create_enum_types column_enums
create_types_for mysql table seen = (seen, [])
create_types_for postgres table seen = create_enum_types (column_enums table.columns) seen

-- New tables.
unfoldable pub add_tables : Dialect → List TableSchema → List String → List String × List Statement
unfolding create_types_for
add_tables dialect [] seen = (seen, [])
add_tables dialect (table ∷ tables) seen =
    let (seen', created) = create_types_for dialect table seen in
    let (seen'', rest) = add_tables dialect tables seen' in
    (
      seen'',
      Statement.comment table.name
          ∷ (created
              ++ (Statement.create_table table
                  ∷ (map (Statement.create_index table.name) table.indexes ++ rest))),
    )

-- The foreign keys of new tables, once all tables are there.
unfoldable pub deferred_fks : List TableSchema → List Statement
deferred_fks [] = []
deferred_fks (table ∷ tables) =
    map (Statement.add_foreign_key table.name) table.foreign_keys ++ deferred_fks tables

-- The first change of each enum type.
unfoldable pub enum_mods : List EnumModification → List String → List EnumModification
enum_mods [] seen = []
enum_mods (m ∷ ms) seen =
    let rest = enum_mods ms (if includes seen m.type_name then seen else m.type_name ∷ seen) in
    if includes seen m.type_name then rest else m ∷ rest

abbrev pub old_name : String → String
old_name n = text (n ∷ ("_old" ∷ []))

unfoldable pub change_enum : EnumModification → List Statement
change_enum m =
    if is_empty m.removed
    then map (Statement.add_value m.type_name) m.added
    else Statement.drop_type (old_name m.type_name)
      ∷ (Statement.rename_type m.type_name (old_name m.type_name)
          ∷ (Statement.create_type m.type_name m.new_values ∷ []))

unfoldable pub change_enums : List EnumModification → List Statement
unfolding change_enum
change_enums [] = []
change_enums (m ∷ ms) = change_enum m ++ change_enums ms

-- The old types that are dropped at the end.
unfoldable pub replaced_types : List EnumModification → List String
replaced_types [] = []
replaced_types (m ∷ ms) =
    if is_empty m.removed then replaced_types ms else old_name m.type_name ∷ replaced_types ms

unfoldable pub all_enum_mods : List TableDiff → List EnumModification
all_enum_mods [] = []
all_enum_mods (d ∷ ds) = d.modified_enum_types ++ all_enum_mods ds

abbrev pub schema_enum_mods : SchemaDiff → List EnumModification
schema_enum_mods diff =
    if is_postgres diff.dialect then enum_mods (all_enum_mods diff.modified_tables) [] else []

-- `generateTableDDL`
unfoldable pub generate_table_ddl : Dialect → TableDiff → List String → List String × List Statement
unfolding generate_mysql_table_ddl generate_postgres_table_ddl
generate_table_ddl mysql d seen = (seen, generate_mysql_table_ddl d)
generate_table_ddl postgres d seen = generate_postgres_table_ddl d seen

unfoldable pub modify_tables : Dialect → List TableDiff → List String → List Statement
unfolding generate_table_ddl
modify_tables dialect [] seen = []
modify_tables dialect (d ∷ ds) seen =
    let (seen', changed) = generate_table_ddl dialect d seen in
    Statement.comment d.table_name ∷ (changed ++ modify_tables dialect ds seen')

-- Removed tables: their foreign keys first.
unfoldable pub drop_fks : List TableSchema → List Statement
drop_fks [] = []
drop_fks (table ∷ tables) =
    map (λ k. Statement.drop_foreign_key table.name k.name) table.foreign_keys ++ drop_fks tables

unfoldable pub drop_tables : List TableSchema → List Statement
drop_tables [] = []
drop_tables (table ∷ tables) =
    Statement.comment table.name ∷ (Statement.drop_table table.name ∷ drop_tables tables)

-- The types that modified tables left and that removed tables had.
unfoldable pub left_types : List TableDiff → List String
left_types [] = []
left_types (d ∷ ds) = d.removed_enum_types ++ left_types ds

abbrev type_of : ColumnSchema → Option String
type_of c = if is_enum c && truthy c.enum_type_name then c.enum_type_name else none

unfoldable pub column_types : List ColumnSchema → List String
column_types [] = []
column_types (c ∷ cs) = add_some (type_of c) (column_types cs)

unfoldable pub table_types : List TableSchema → List String
unfolding column_types
table_types [] = []
table_types (t ∷ ts) = column_types t.columns ++ table_types ts

module _ (g : Grammar) where
  abbrev pub drop_texts : List String → List String
  drop_texts = map (drop_type_text g)

  -- Adding the drops that are not scheduled so far.
  unfoldable pub schedule : List String → List String → List String
  schedule scheduled [] = scheduled
  schedule scheduled (n ∷ ns) =
      schedule
        (if includes (drop_texts scheduled) (drop_type_text g n)
          then scheduled
          else scheduled ++ (n ∷ []))
        ns

  -- The types that are dropped at the end: none that a table still uses.
  unfoldable pub dropped_types : SchemaDiff → List String
  unfolding schedule left_types table_types replaced_types all_enum_mods enum_mods
  dropped_types diff =
      if is_postgres diff.dialect
      then filterb
          (λ n.
            not (includes (drop_texts (or_else diff.entity_enum_types [])) (drop_type_text g n)))
          (schedule (replaced_types (schema_enum_mods diff))
            (left_types diff.modified_tables ++ table_types diff.removed_tables))
      else []

  unfoldable pub generate_ddl : SchemaDiff → List Statement
  unfolding add_tables change_enums modify_tables deferred_fks drop_fks drop_tables dropped_types
      all_enum_mods enum_mods
  generate_ddl diff =
      let (seen, added) = add_tables diff.dialect diff.added_tables [] in
      added
      ++ (change_enums (schema_enum_mods diff)
          ++ (modify_tables diff.dialect diff.modified_tables seen
              ++ (deferred_fks diff.added_tables
                  ++ (drop_fks diff.removed_tables
                      ++ (drop_tables diff.removed_tables
                          ++ map Statement.drop_type (dropped_types diff))))))
