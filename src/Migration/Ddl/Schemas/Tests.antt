-- ===== src/Migration/Ddl/Schemas/Tests.antt =====
-- `generateDDL` of src/database/migration/create/ddl-generator.ts at inputs: two new tables with one
-- enum type, a table that loses its enum type, and one that is removed. The grammar is a stand-in:
-- it leaves names as they are.
use Prim.Native.String
use dk_server_foundation.Common.{
  any, String, ◌≡◌, refl, true, false, not, ◌&&◌, ◌||◌, none, some, [], ◌∷◌, ◌++◌, string_eq,
}
use dk_server_foundation.Migration.SchemaModel.{
  postgres, ColumnSchema, TableSchema, EnumModification, SchemaDiff,
}
use dk_server_foundation.Migration.Ddl.{Grammar, drop_type_text}
use dk_server_foundation.Migration.Ddl.Mysql.Tests.{column, moved}
use dk_server_foundation.Migration.Ddl.Schemas.{dropped_types, generate_ddl}
use dk_server_foundation.Migration.Ddl.Schemas.Recreated.{recreated}
use dk_server_foundation.Migration.Ddl.Schemas.Kinds.{creates_table, drops_table, adds_fk, drops_fk}
use dk_server_foundation.Migration.Ddl.Schemas.Created.{created}
use dk_server_foundation.Migration.Ddl.Schemas.Order.{never_after, generate_ddl-never_after}
use dk_server_foundation.Migration.Ddl.Schemas.Dropped.{
  drops, renames_to, is_orphan, is_used, generate_ddl-drops,
}

abbrev plain : Grammar
plain = record {
  quote = λ n. n;
  qualified_table = λ n. n;
  qualified_type = λ n. n;
  create_table = λ t. t.name;
  create_index = λ t i. i.name;
  add_foreign_key = λ t k. k.name;
  create_enum_type = λ n vs. n ∷ [];
  column_def = λ c. c.name;
  column_type = λ c. c.type;
  escape = λ v. v;
}

abbrev kind : ColumnSchema
kind = record (column "kind" false) {
  type = "enum";
  enum_values = some ("a" ∷ ("b" ∷ []));
  enum_type_name = some "kind";
}

abbrev table : String → TableSchema
table name = record {
  name = name;
  columns = kind ∷ [];
  indexes = [];
  foreign_keys =
      record {
        name = String.◌++◌ name "_fk";
        columns = "kind" ∷ [];
        referenced_table = "kinds";
        referenced_columns = "kind" ∷ [];
        on_delete = "CASCADE";
        on_update = "CASCADE";
      }
      ∷ [];
  primary_key_constraint_name = none;
  skipped_columns = [];
}

abbrev diff : SchemaDiff
diff = record {
  dialect = postgres;
  pg_schema = none;
  added_tables = table "cats" ∷ (table "dogs" ∷ []);
  removed_tables = table "birds" ∷ [];
  modified_tables =
      record moved {
        added_enum_types = record { type_name = "size"; values = "s" ∷ [] } ∷ [];
        removed_enum_types = "colour" ∷ [];
      }
      ∷ [];
  entity_enum_types = some ("kind" ∷ ("size" ∷ []));
}

diff-created : created (generate_ddl plain diff) ≡ ("kind" ∷ ("size" ∷ []))
unfolding generate_ddl drop_type_text
diff-created = refl

diff-dropped : dropped_types plain diff ≡ ("colour" ∷ [])
unfolding dropped_types drop_type_text
diff-dropped = refl

generate_ddl-never_after_example :
    (never_after creates_table adds_fk (generate_ddl plain diff) ≡ true)
    × (never_after drops_fk drops_table (generate_ddl plain diff) ≡ true)
generate_ddl-never_after_example = generate_ddl-never_after plain diff

generate_ddl-drops_example :
    any (drops plain "DROP TYPE IF EXISTS kind") (generate_ddl plain diff) ≡ (
      any (renames_to plain "DROP TYPE IF EXISTS kind") (generate_ddl plain diff)
      || (is_orphan plain "DROP TYPE IF EXISTS kind" diff
          && not (is_used plain "DROP TYPE IF EXISTS kind" diff)))
generate_ddl-drops_example = generate_ddl-drops plain "DROP TYPE IF EXISTS kind" diff refl

-- Two tables have the type that loses a value.
abbrev shrunk : SchemaDiff
shrunk =
    let loss : EnumModification = record {
      type_name = "kind";
      added = [];
      removed = "old" ∷ [];
      new_values = "new" ∷ [];
      table_name = "cats";
      column_name = "kind";
    } in
    record diff {
      modified_tables =
          record moved { modified_enum_types = loss ∷ [] }
          ∷ (record moved { modified_enum_types = loss ∷ [] } ∷ []);
    }

shrunk-recreated : recreated (generate_ddl plain shrunk) ≡ ("kind" ∷ [])
unfolding generate_ddl drop_type_text
shrunk-recreated = refl
