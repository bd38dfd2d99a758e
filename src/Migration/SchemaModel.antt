-- ===== src/Migration/SchemaModel.antt =====
-- src/database/migration/create/schema-model.ts: schemas and their differences. A default value is
-- kept as the text that `String(...)` makes of it, the only thing that the comparison reads.
use dk_server_foundation.Common.{ℕ, String, Bool, Option, List, Map}

pub data Dialect : Type 0 where
  mysql postgres : Dialect

-- `afterColumn`: no clause, `null` (FIRST), or a column.
pub data After : Type 0 where
  unplaced first : After
  behind : String → After

pub record ColumnSchema : Type 0 where
  pub name : String
  pub type : String
  pub size : Option ℕ
  pub scale : Option ℕ
  pub unsigned : Bool
  pub nullable : Bool
  pub auto_increment : Bool
  pub is_primary_key : Bool
  pub default_value : Option String
  pub default_expression : Option String
  pub on_update_expression : Option String
  pub enum_values : Option (List String)
  pub enum_type_name : Option String
  pub is_identity : Option Bool
  pub sequence_name : Option String
  pub ordinal_position : ℕ
  pub after_column : After

pub record IndexSchema : Type 0 where
  pub name : String
  pub columns : List String
  pub unique : Bool
  pub spatial : Bool

pub record ForeignKeySchema : Type 0 where
  pub name : String
  pub columns : List String
  pub referenced_table : String
  pub referenced_columns : List String
  pub on_delete : String
  pub on_update : String

pub record TableSchema : Type 0 where
  pub name : String
  pub columns : List ColumnSchema
  pub indexes : List IndexSchema
  pub foreign_keys : List ForeignKeySchema
  pub primary_key_constraint_name : Option String
  pub skipped_columns : List String

abbrev pub DatabaseSchema : Type 0
DatabaseSchema = Map String TableSchema

pub record ColumnModification : Type 0 where
  pub name : String
  pub old_column : ColumnSchema
  pub new_column : ColumnSchema
  pub type_changed : Bool
  pub nullable_changed : Bool
  pub default_changed : Bool
  pub auto_increment_changed : Bool
  pub on_update_changed : Bool

pub record Rename : Type 0 where
  pub from : String
  pub to : String
  pub column : ColumnSchema

pub record Reorder : Type 0 where
  pub name : String
  pub after : Option String

pub record EnumType : Type 0 where
  pub type_name : String
  pub values : List String

pub record EnumModification : Type 0 where
  pub type_name : String
  pub added : List String
  pub removed : List String
  pub new_values : List String
  pub table_name : String
  pub column_name : String

pub record TableDiff : Type 0 where
  pub table_name : String
  pub added_columns : List ColumnSchema
  pub removed_columns : List ColumnSchema
  pub modified_columns : List ColumnModification
  pub renamed_columns : List Rename
  pub reordered_columns : List Reorder
  pub added_indexes : List IndexSchema
  pub removed_indexes : List IndexSchema
  pub added_foreign_keys : List ForeignKeySchema
  pub removed_foreign_keys : List ForeignKeySchema
  pub primary_key_changed : Bool
  pub new_primary_key : Option (List String)
  pub old_primary_key : Option (List String)
  pub old_primary_key_constraint_name : Option String
  pub added_enum_types : List EnumType
  pub removed_enum_types : List String
  pub modified_enum_types : List EnumModification
  pub entity_columns : List ColumnSchema

pub record SchemaDiff : Type 0 where
  pub dialect : Dialect
  pub pg_schema : Option String
  pub added_tables : List TableSchema
  pub removed_tables : List TableSchema
  pub modified_tables : List TableDiff
  pub entity_enum_types : Option (List String)
