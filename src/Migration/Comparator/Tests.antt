-- ===== src/Migration/Comparator/Tests.antt =====
-- The comparison of src/database/migration/create/comparator.ts at inputs. The text functions are
-- stand-ins: these change nothing.
use dk_server_foundation.Common.{
  String, ◌≡◌, refl, true, false, none, some, [], ◌∷◌, lookup, string_eq,
}
use dk_server_foundation.Migration.SchemaModel.{
  postgres, unplaced, ColumnSchema, IndexSchema, TableSchema, DatabaseSchema,
}
use dk_server_foundation.Migration.Comparator.{Builtins}
use dk_server_foundation.Migration.Comparator.Renames.{Prompt}
use dk_server_foundation.Migration.Comparator.Tables.{compare_schemas}
use dk_server_foundation.Migration.Comparator.Unchanged.{compare_schemas_self}

abbrev plain : Builtins
plain = record {
  to_upper_case = λ s. s;
  trim = λ s. s;
  replace_now = λ s. s;
  replace_current_timestamp = λ s. s;
  sort = λ xs. xs;
}

abbrev silent : Prompt
silent _ _ _ = none

abbrev column : String → String → ColumnSchema
column name type = record {
  name = name;
  type = type;
  size = none;
  scale = none;
  unsigned = false;
  nullable = false;
  auto_increment = false;
  is_primary_key = true;
  default_value = none;
  default_expression = none;
  on_update_expression = none;
  enum_values = some ("x" ∷ ("y" ∷ []));
  enum_type_name = some "kind";
  is_identity = none;
  sequence_name = none;
  ordinal_position = 1;
  after_column = unplaced;
}

abbrev by_id : IndexSchema
by_id = record { name = "i"; columns = "id" ∷ []; unique = true; spatial = false }

abbrev by_name : IndexSchema
by_name = record { name = "j"; columns = "name" ∷ []; unique = false; spatial = false }

abbrev users : TableSchema
users = record {
  name = "users";
  columns = column "id" "int" ∷ (column "kind" "enum" ∷ []);
  indexes = by_id ∷ [];
  foreign_keys = [];
  primary_key_constraint_name = none;
  skipped_columns = [];
}

abbrev schema : DatabaseSchema
schema = ("users", users) ∷ []

compare_schemas_self_example :
    ((compare_schemas plain silent postgres true schema schema none).added_tables ≡ [])
    × ((compare_schemas plain silent postgres true schema schema none).removed_tables ≡ [])
    × ((compare_schemas plain silent postgres true schema schema none).modified_tables ≡ [])
unfolding lookup
compare_schemas_self_example =
    compare_schemas_self plain silent postgres true schema none (refl, tt) ((refl, (refl, tt)), tt)
