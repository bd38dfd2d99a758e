-- ===== src/Migration/Comparator/Tables.antt =====
-- src/database/migration/create/comparator.ts: the differences of tables and schemas. The warning of
-- the non-interactive mode is left out.
use mathlib.Core.Option
use dk_server_foundation.Common.{
  String, Bool, not, ◌&&◌, Option, none, some, List, [], ◌∷◌, ◌++◌, map, Map, lookup, has,
  string_eq, if◌then◌else◌, or_else, includes, filterb, add_some,
}
use dk_server_foundation.Migration.SchemaModel.{
  Dialect, ColumnSchema, TableSchema, DatabaseSchema, ColumnModification, Rename, TableDiff,
  SchemaDiff,
}
use dk_server_foundation.Migration.Comparator.{
  Builtins, truthy, is_postgres, arrays_equal, compare_column, compare_indexes,
  compare_foreign_keys, column_map,
}
use dk_server_foundation.Migration.Comparator.Renames.{
  Prompt, is_empty, names, drop_name, detect_renames, rename_map_from, detect_reordering_mysql,
}
use dk_server_foundation.Migration.Comparator.Enums.{EnumChanges, is_enum, detect_enum_changes}

module _ (js : Builtins) where
  -- The columns present in both tables, by name.
  unfoldable pub modified_from :
      Map String ColumnSchema → Map String ColumnSchema → List ColumnModification
  modified_from [] db = []
  modified_from ((n, col) ∷ entity) db =
      add_some (Option.bind (lookup n db) (λ db_col. compare_column js col db_col))
        (modified_from entity db)

  unfoldable pub modified_renames : List Rename → Map String ColumnSchema → List ColumnModification
  modified_renames [] db = []
  modified_renames (r ∷ rs) db =
      add_some (Option.bind (lookup r.from db) (λ db_col. compare_column js r.column db_col))
        (modified_renames rs db)

abbrev pub primary_key : TableSchema → List String
primary_key t = names (filterb (λ c. c.is_primary_key) t.columns)

-- The test at the end of `compareTable`.
unfoldable pub is_unchanged : TableDiff → Bool
is_unchanged d =
    (is_empty d.added_columns
      && (is_empty d.removed_columns
          && (is_empty d.modified_columns
              && (is_empty d.renamed_columns && is_empty d.reordered_columns))))
    && ((is_empty d.added_indexes
          && (is_empty d.removed_indexes
              && (is_empty d.added_foreign_keys && is_empty d.removed_foreign_keys)))
        && (not d.primary_key_changed
            && (is_empty d.added_enum_types
                && (is_empty d.removed_enum_types && is_empty d.modified_enum_types))))

-- The columns that only one of the tables has; skipped ones are not dropped.
unfoldable pub candidate_adds : TableSchema → TableSchema → List ColumnSchema
candidate_adds entity db = filterb (λ c. not (has c.name (column_map db.columns))) entity.columns

unfoldable pub candidate_drops : TableSchema → TableSchema → List ColumnSchema
candidate_drops entity db =
    filterb
      (λ c.
        not (has c.name (column_map entity.columns))
        && not (includes entity.skipped_columns c.name))
      db.columns

-- Columns that no rename takes.
unfoldable pub not_targets : List Rename → List ColumnSchema → List ColumnSchema
not_targets [] adds = adds
not_targets (r ∷ rs) adds = not_targets rs (drop_name r.to adds)

unfoldable pub not_sources : List Rename → List ColumnSchema → List ColumnSchema
not_sources [] drops = drops
not_sources (r ∷ rs) drops = not_sources rs (drop_name r.from drops)

module _ (js : Builtins) (prompt : Prompt) (dialect : Dialect) (interactive : Bool) where
  unfoldable pub table_renames : TableSchema → TableSchema → List Rename
  unfolding detect_renames
  table_renames entity db =
      if (not (is_empty (candidate_adds entity db)) && not (is_empty (candidate_drops entity db)))
        && interactive
      then detect_renames js prompt entity.name (candidate_adds entity db)
          (candidate_drops entity db)
      else []

  -- `compareTable` after the renames and before its last test.
  unfoldable pub diff_with : List Rename → TableSchema → TableSchema → TableDiff
  diff_with renames entity db =
      let added = not_targets renames (candidate_adds entity db) in
      let removed = not_sources renames (candidate_drops entity db) in
      let db_map = column_map db.columns in
      let entity_pk = primary_key entity in
      let db_pk = map (λ n. or_else (lookup n (rename_map_from [] renames)) n) (primary_key db) in
      let pk_changed = not (arrays_equal entity_pk db_pk) in
      let enums : EnumChanges =
        if is_postgres dialect
        then detect_enum_changes entity db
        else record { added = []; removed = []; modified = [] } in
      record {
        table_name = entity.name;
        added_columns = added;
        removed_columns = removed;
        modified_columns =
            modified_from js (column_map entity.columns) db_map
            ++ modified_renames js renames db_map;
        renamed_columns = renames;
        reordered_columns =
            if is_postgres dialect
            then []
            else detect_reordering_mysql entity db renames added removed;
        added_indexes = (compare_indexes entity.indexes db.indexes).0;
        removed_indexes = (compare_indexes entity.indexes db.indexes).1;
        added_foreign_keys = (compare_foreign_keys js entity.foreign_keys db.foreign_keys).0;
        removed_foreign_keys = (compare_foreign_keys js entity.foreign_keys db.foreign_keys).1;
        primary_key_changed = pk_changed;
        new_primary_key = if pk_changed then some entity_pk else none;
        old_primary_key = if pk_changed then some (primary_key db) else none;
        old_primary_key_constraint_name =
            if pk_changed then db.primary_key_constraint_name else none;
        added_enum_types = enums.added;
        removed_enum_types = enums.removed;
        modified_enum_types = enums.modified;
        entity_columns = entity.columns;
      }

  unfoldable pub table_diff : TableSchema → TableSchema → TableDiff
  unfolding table_renames diff_with
  table_diff entity db = diff_with (table_renames entity db) entity db

  unfoldable pub compare_table : TableSchema → TableSchema → Option TableDiff
  compare_table entity db =
      if is_unchanged (table_diff entity db) then none else some (table_diff entity db)

  -- The tables of one schema that the other lacks.
  unfoldable pub missing_tables : DatabaseSchema → DatabaseSchema → List TableSchema
  missing_tables [] other = []
  missing_tables ((n, t) ∷ tables) other =
      add_some (if has n other then none else some t) (missing_tables tables other)

  unfoldable pub modified_tables : DatabaseSchema → DatabaseSchema → List TableDiff
  modified_tables [] db = []
  modified_tables ((n, t) ∷ tables) db =
      add_some (Option.bind (lookup n db) (λ db_table. compare_table t db_table))
        (modified_tables tables db)

  abbrev add_enum_name : ColumnSchema → List String → List String
  add_enum_name col names' =
      if is_enum col && truthy col.enum_type_name
      then if includes names' (or_else col.enum_type_name "")
        then names'
        else names' ++ (or_else col.enum_type_name "" ∷ [])
      else names'

  abbrev enum_names : List ColumnSchema → List String → List String
  enum_names [] names' = names'
  enum_names (col ∷ cols) names' = enum_names cols (add_enum_name col names')

  abbrev schema_enum_names : DatabaseSchema → List String → List String
  schema_enum_names [] names' = names'
  schema_enum_names ((n, t) ∷ tables) names' =
      schema_enum_names tables (enum_names t.columns names')

  unfoldable pub compare_schemas : DatabaseSchema → DatabaseSchema → Option String → SchemaDiff
  unfolding missing_tables modified_tables
  compare_schemas entity db pg_schema = record {
    dialect = dialect;
    pg_schema = pg_schema;
    added_tables = missing_tables entity db;
    removed_tables = missing_tables db entity;
    modified_tables = modified_tables entity db;
    entity_enum_types = if is_postgres dialect then some (schema_enum_names entity []) else none;
  }
