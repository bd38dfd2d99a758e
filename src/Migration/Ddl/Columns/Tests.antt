-- ===== src/Migration/Ddl/Columns/Tests.antt =====
-- A migration of src/database/migration/create at inputs: a column is added, one is dropped and one
-- that the entity skips is kept. The text functions are stand-ins.
use dk_server_foundation.Common.{◌≡◌, ◌&&◌, ◌||◌, false, none, [], ◌∷◌, includes, string_eq}
use dk_server_foundation.Migration.SchemaModel.{mysql, TableSchema}
use dk_server_foundation.Migration.Comparator.{Builtins}
use dk_server_foundation.Migration.Comparator.Renames.{Prompt, names}
use dk_server_foundation.Migration.Comparator.Tables.{table_diff}
use dk_server_foundation.Migration.Ddl.Mysql.Tests.{column}
use dk_server_foundation.Migration.Ddl.Schemas.{generate_table_ddl}
use dk_server_foundation.Migration.Ddl.Columns.{run}
use dk_server_foundation.Migration.Ddl.Columns.Migrated.{table_diff-columns}

abbrev texts : Builtins
texts = record {
  to_upper_case = λ s. s;
  trim = λ s. s;
  replace_now = λ s. s;
  replace_current_timestamp = λ s. s;
  sort = λ xs. xs;
}

abbrev unasked : Prompt
unasked _ _ _ = none

abbrev entity : TableSchema
entity = record {
  name = "users";
  columns = column "id" false ∷ (column "email" false ∷ []);
  indexes = [];
  foreign_keys = [];
  primary_key_constraint_name = none;
  skipped_columns = "shape" ∷ [];
}

abbrev present : TableSchema
present = record entity {
  columns = column "id" false ∷ (column "phone" false ∷ (column "shape" false ∷ []));
  skipped_columns = [];
}

table_diff-columns_example :
    includes
      (run
        (names present.columns)
        (generate_table_ddl mysql (table_diff texts unasked mysql false entity present) []).1)
      "shape"
    ≡ (includes (names entity.columns) "shape"
        || (includes (names present.columns) "shape" && includes entity.skipped_columns "shape"))
table_diff-columns_example = table_diff-columns texts unasked mysql entity present [] "shape"
