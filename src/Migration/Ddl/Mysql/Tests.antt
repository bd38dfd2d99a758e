-- ===== src/Migration/Ddl/Mysql/Tests.antt =====
-- `generateMySQLTableDDL` of src/database/migration/create/ddl-generator.ts at inputs: the primary
-- key of a table grows by a column, and its AUTO_INCREMENT column moves.
use dk_server_foundation.Common.{
  lookup, String, ◌≡◌, refl, Bool, true, false, not, ◌&&◌, ◌||◌, none, some, [], ◌∷◌, any,
  string_eq, nat_eq,
}
use dk_server_foundation.Migration.SchemaModel.{unplaced, first, behind, ColumnSchema, TableDiff}
use dk_server_foundation.Migration.Ddl.{
  modify_column, drop_primary_key, add_primary_key, add_column,
}
use dk_server_foundation.Migration.Ddl.Mysql.{
  drops_key, reorder_columns, generate_mysql_table_ddl, without_auto_increment,
}
use dk_server_foundation.Migration.Ddl.Mysql.Keyed.{
  defines_auto_increment, stays_keyed, generate_mysql_table_ddl-stays_keyed,
}

abbrev pub column : String → Bool → ColumnSchema
column name auto_increment = record {
  name = name;
  type = "int";
  size = none;
  scale = none;
  unsigned = false;
  nullable = false;
  auto_increment = auto_increment;
  is_primary_key = true;
  default_value = none;
  default_expression = none;
  on_update_expression = none;
  enum_values = none;
  enum_type_name = none;
  is_identity = none;
  sequence_name = none;
  ordinal_position = 1;
  after_column = unplaced;
}

abbrev pub moved : TableDiff
moved = record {
  table_name = "users";
  added_columns = column "tenant" false ∷ [];
  removed_columns = [];
  modified_columns = [];
  renamed_columns = [];
  reordered_columns = record { name = "id"; after = some "tenant" } ∷ [];
  added_indexes = [];
  removed_indexes = [];
  added_foreign_keys = [];
  removed_foreign_keys = [];
  primary_key_changed = true;
  new_primary_key = some ("tenant" ∷ ("id" ∷ []));
  old_primary_key = some ("id" ∷ []);
  old_primary_key_constraint_name = none;
  added_enum_types = [];
  removed_enum_types = [];
  modified_enum_types = [];
  entity_columns = column "tenant" false ∷ (column "id" true ∷ []);
}

-- The column becomes AUTO_INCREMENT again before its key is there.
moved-statements : generate_mysql_table_ddl moved ≡ (
    modify_column "users" (without_auto_increment (column "id" true)) unplaced
    ∷ (drop_primary_key "users" ""
        ∷ (add_column "users" (column "tenant" false) first
            ∷ (modify_column "users" (column "id" true) (behind "tenant")
                ∷ (add_primary_key "users" ("tenant" ∷ ("id" ∷ []))
                    ∷ (modify_column "users" (column "id" true) unplaced ∷ []))))))
unfolding generate_mysql_table_ddl lookup
moved-statements = refl

generate_mysql_table_ddl-stays_keyed_example :
    stays_keyed (not moved.primary_key_changed || drops_key moved) (generate_mysql_table_ddl moved)
    ≡ not (moved.primary_key_changed && any defines_auto_increment (reorder_columns moved))
generate_mysql_table_ddl-stays_keyed_example =
    generate_mysql_table_ddl-stays_keyed moved (λ c. refl)
