-- ===== src/Migration/Comparator/Unchanged.antt =====
-- src/database/migration/create/comparator.ts: a schema compared with itself has no difference.
use mathlib.Core.Option
use dk_server_foundation.Common.{
  String, ◌≡◌, refl, ◌∙◌, ap, Bool, true, Option, none, [], ◌∷◌, lookup, string_eq, if◌then◌else◌,
  arith, HasUniqueKeys, AllFound, HasUniqueKeys-AllFound, nat_eq,
}
use dk_server_foundation.Migration.SchemaModel.{Dialect, TableSchema, DatabaseSchema}
use dk_server_foundation.Migration.Comparator.{
  Builtins, is_postgres, compare_indexes, compare_foreign_keys, index_key, fk_key, column_map,
}
use dk_server_foundation.Migration.Comparator.Renames.{Prompt}
use dk_server_foundation.Migration.Comparator.Enums.{detect_enum_changes}
use dk_server_foundation.Migration.Comparator.Tables.{
  primary_key, is_unchanged, table_renames, table_diff, diff_with, compare_table, missing_tables,
  modified_tables, compare_schemas, not_targets, not_sources, modified_renames,
}
use dk_server_foundation.Migration.Comparator.Keys.{without_keys_self}
use dk_server_foundation.Migration.Comparator.UnchangedColumns.{
  AllDistinct, HasDistinctNames, arrays_equal_refl, modified_from_self, candidate_adds_self,
  candidate_drops_self, map_id, detect_enum_changes_self, detect_reordering_mysql_self,
  column_map-AllFound,
}

module _ (js : Builtins) (prompt : Prompt) (dialect : Dialect) (interactive : Bool) where
  table_renames_self : (t : TableSchema) → table_renames js prompt dialect interactive t t ≡ []
  unfolding table_renames
  table_renames_self t = rw (candidate_adds_self t)

  enums_self :
      (t : TableSchema)
      → HasDistinctNames t.columns
      → (if is_postgres dialect
          then detect_enum_changes t t
          else record { added = []; removed = []; modified = [] })
        ≡ record { added = []; removed = []; modified = [] }
  enums_self t h = ground (arith, detect_enum_changes_self t h)

  is_unchanged-diff_with :
      (t : TableSchema)
      → HasDistinctNames t.columns
      → is_unchanged (diff_with js prompt dialect interactive [] t t) ≡ true
  unfolding diff_with is_unchanged compare_indexes compare_foreign_keys not_targets not_sources
      modified_renames lookup
  is_unchanged-diff_with t h =
      rw
        (
          candidate_adds_self t,
          candidate_drops_self t,
          modified_from_self js (column_map t.columns) (column_map t.columns)
              (column_map-AllFound t.columns),
          detect_reordering_mysql_self t,
          without_keys_self index_key t.indexes,
          without_keys_self (fk_key js) t.foreign_keys,
          enums_self t h,
          map_id (λ n. n) (primary_key t) (λ _. refl),
          arrays_equal_refl (primary_key t),
        )
        (ground arith)

  -- A table whose columns have distinct names, compared with itself, has no difference, in either
  -- dialect and mode, and whatever a user would answer.
  pub compare_table_self :
      (t : TableSchema)
      → HasDistinctNames t.columns
      → compare_table js prompt dialect interactive t t ≡ none
  unfolding compare_table table_diff
  compare_table_self t h =
      let same : is_unchanged (table_diff js prompt dialect interactive t t) ≡ true =
        ap (λ rs. is_unchanged (diff_with js prompt dialect interactive rs t t))
          (table_renames_self t)
        ∙ is_unchanged-diff_with t h in
      ground (arith, same)

  missing_tables_self :
      (es m : DatabaseSchema)
      → AllFound es m
      → missing_tables js prompt dialect interactive es m ≡ []
  unfolding missing_tables
  missing_tables_self [] m h = refl
  missing_tables_self ((n, t) ∷ es) m (h, hs) = rw h (missing_tables_self es m hs)

  modified_tables_self :
      (es m : DatabaseSchema)
      → AllFound es m
      → AllDistinct es
      → modified_tables js prompt dialect interactive es m ≡ []
  unfolding modified_tables Option.bind
  modified_tables_self [] m h d = refl
  modified_tables_self ((n, t) ∷ es) m (h, hs) (d, ds) =
      rw (h, compare_table_self t d) (modified_tables_self es m hs ds)

  -- A schema whose tables stand once each, with columns of distinct names, compared with itself,
  -- has no table to add, to remove or to modify.
  pub compare_schemas_self :
      (s : DatabaseSchema) (pg_schema : Option String)
      → HasUniqueKeys s
      → AllDistinct s
      → ((compare_schemas js prompt dialect interactive s s pg_schema).added_tables ≡ [])
        × ((compare_schemas js prompt dialect interactive s s pg_schema).removed_tables ≡ [])
        × ((compare_schemas js prompt dialect interactive s s pg_schema).modified_tables ≡ [])
  unfolding compare_schemas
  compare_schemas_self s pg_schema u d =
      let found = HasUniqueKeys-AllFound s u in
      (
        missing_tables_self s s found,
        missing_tables_self s s found,
        modified_tables_self s s found d,
      )
