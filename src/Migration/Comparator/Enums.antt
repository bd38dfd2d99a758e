-- ===== src/Migration/Comparator/Enums.antt =====
-- src/database/migration/create/comparator.ts: the enum types that columns gain, lose and change.
use dk_server_foundation.Common.{
  String, Bool, true, not, ◌&&◌, ◌||◌, Option, none, some, List, [], ◌∷◌, ◌++◌, Map, lookup, ◌==◌,
  string_eq, if◌then◌else◌, or_else, includes, filterb,
}
use dk_server_foundation.Migration.SchemaModel.{
  ColumnSchema, TableSchema, EnumType, EnumModification,
}
use dk_server_foundation.Migration.Comparator.{option_beq, truthy, column_map}
use dk_server_foundation.Migration.Comparator.Renames.{is_empty}

pub record EnumChanges : Type 0 where
  pub added : List EnumType
  pub removed : List String
  pub modified : List EnumModification

abbrev pub is_enum : ColumnSchema → Bool
is_enum c = c.type == "enum"

-- An entity column with an enum type, values and a (non-empty) type name.
abbrev pub enum_of : ColumnSchema → Option EnumType
enum_of col = elim col.enum_values [
  | none ↦ none
  | some values ↦
      if is_enum col && truthy col.enum_type_name
      then some (record { type_name = or_else col.enum_type_name ""; values = values })
      else none
]

-- The columns that are in both tables, of the same enum type.
unfoldable pub modify_enum :
    String → String → EnumType → Option (List String) → EnumChanges → EnumChanges
modify_enum table column type none changes = changes
modify_enum table column type (some db_values) changes =
    let added = filterb (λ v. not (includes db_values v)) type.values in
    let removed = filterb (λ v. not (includes type.values v)) db_values in
    if is_empty added && is_empty removed then changes else record changes {
      modified =
          changes.modified
          ++ (record {
            type_name = type.type_name;
            added = added;
            removed = removed;
            new_values = type.values;
            table_name = table;
            column_name = column;
          }
              ∷ []);
    }

-- One round of the first loop of `detectEnumChanges`.
unfoldable pub enum_column :
    String → ColumnSchema → Option EnumType → Option ColumnSchema → EnumChanges → EnumChanges
unfolding modify_enum
enum_column table col none db_col changes = changes
enum_column table col (some type) none changes = record changes {
  added = changes.added ++ (type ∷ []);
}
enum_column table col (some type) (some db_col) changes =
    if not (is_enum db_col)
    then record changes { added = changes.added ++ (type ∷ []) }
    else if truthy db_col.enum_type_name
        && not (option_beq db_col.enum_type_name col.enum_type_name)
    then record changes {
      added = changes.added ++ (type ∷ []);
      removed = changes.removed ++ (or_else db_col.enum_type_name "" ∷ []);
    }
    else modify_enum table col.name type db_col.enum_values changes

unfoldable pub enum_columns :
    String → Map String ColumnSchema → List ColumnSchema → EnumChanges → EnumChanges
enum_columns table db [] changes = changes
enum_columns table db (col ∷ cols) changes =
    enum_columns table db cols (enum_column table col (enum_of col) (lookup col.name db) changes)

-- Whether a database column's enum type is left without that column.
abbrev pub is_orphaned : ColumnSchema → Option ColumnSchema → Bool
is_orphaned db_col none = true
is_orphaned db_col (some col) =
    not (is_enum col) || not (option_beq col.enum_type_name db_col.enum_type_name)

-- The second loop.
unfoldable pub orphaned_enums :
    Map String ColumnSchema → List ColumnSchema → List String → List String
orphaned_enums entity [] removed = removed
orphaned_enums entity (db_col ∷ cols) removed =
    let type_name = or_else db_col.enum_type_name "" in
    orphaned_enums entity cols (
      if (is_enum db_col && truthy db_col.enum_type_name)
        && (is_orphaned db_col (lookup db_col.name entity) && not (includes removed type_name))
      then removed ++ (type_name ∷ [])
      else removed)

unfoldable pub detect_enum_changes : TableSchema → TableSchema → EnumChanges
unfolding enum_columns enum_column orphaned_enums
detect_enum_changes entity db =
    let changes =
      enum_columns entity.name (column_map db.columns) entity.columns
        (record { added = []; removed = []; modified = [] }) in
    record changes {
      removed = orphaned_enums (column_map entity.columns) db.columns changes.removed;
    }
