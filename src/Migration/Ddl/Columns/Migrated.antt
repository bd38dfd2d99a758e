-- ===== src/Migration/Ddl/Columns/Migrated.antt =====
-- src/database/migration/create: a migrated table has the entity's columns.
use dk_server_foundation.Common.{
  String, ◌≡◌, refl, sym, ap, subst, ◌∙◌, true, false, not, ◌&&◌, ◌||◌, List, [], ◌∷◌, ◌++◌, map,
  or_else, includes, string_eq, All, All-append, All-over_map, has, lookup, if-intro, arith,
}
use dk_server_foundation.Migration.SchemaModel.{
  Dialect, mysql, postgres, ColumnSchema, TableSchema, TableDiff, unplaced,
}
use dk_server_foundation.Migration.Comparator.{Builtins, column_map}
use dk_server_foundation.Migration.Comparator.Renames.{Prompt, names, is_empty}
use dk_server_foundation.Migration.Comparator.Tables.{
  candidate_adds, candidate_drops, table_renames, diff_with, table_diff, not_targets, not_sources,
}
use dk_server_foundation.Migration.Ddl.{
  Statement, rename_column, add_column, drop_foreign_key, drop_index, create_index, add_foreign_key,
}
use dk_server_foundation.Migration.Ddl.Mysql.{add as mysql_add, without_auto_increment, add_columns}
use dk_server_foundation.Migration.Ddl.Mysql.Parts.{when-All}
use dk_server_foundation.Migration.Ddl.Postgres.{
  create_enum_types, drop_constraints, drop_columns, rename_columns, drop_and_rename,
  change_columns, add_key, add_new, generate_postgres_table_ddl,
}
use dk_server_foundation.Migration.Ddl.Postgres.Parts.{create_enum_types-All, change_columns-All}
use dk_server_foundation.Migration.Ddl.Schemas.{generate_table_ddl}
use dk_server_foundation.Migration.Ddl.Columns.{
  run, run-append, IsIdle, idle-append, append-idle, drop-then-add, mysql-run, has-column_map_from,
  names-filter,
}

abbrev pg_add : TableDiff → ColumnSchema → Statement
pg_add d c = add_column d.table_name c unplaced

module _ (d : TableDiff) (e : d.renamed_columns ≡ []) (cs : List String) where
  drop_and_rename-run : run cs (drop_and_rename d) ≡ run cs (drop_columns d)
  unfolding drop_and_rename
  drop_and_rename-run =
      let fks = map (λ k. drop_foreign_key d.table_name k.name) d.removed_foreign_keys in
      let indexes = map (λ i. drop_index d.table_name i.name) d.removed_indexes in
      idle-append cs fks (indexes ++ (drop_constraints d ++ (drop_columns d ++ rename_columns d))) (
        All-over_map IsIdle (λ k. drop_foreign_key d.table_name k.name) d.removed_foreign_keys
          (λ k ns. refl))
      ∙ (idle-append cs indexes (drop_constraints d ++ (drop_columns d ++ rename_columns d)) (
            All-over_map IsIdle (λ i. drop_index d.table_name i.name) d.removed_indexes
              (λ i ns. refl))
          ∙ (idle-append cs (drop_constraints d) (drop_columns d ++ rename_columns d) (
                when-All IsIdle
                  (d.primary_key_changed && not (is_empty (or_else d.old_primary_key []))) _
                  ((λ ns. refl), tt))
              ∙ append-idle cs (drop_columns d) (rename_columns d) (
                  subst (λ rs. All IsIdle (map (λ r. rename_column d.table_name r.from r.to) rs))
                    (sym e) tt)))

  add_new-run : run cs (add_new d) ≡ run cs (map (pg_add d) d.added_columns)
  unfolding add_new
  add_new-run =
      append-idle cs (map (pg_add d) d.added_columns)
        (add_key d
          ++ (map (create_index d.table_name) d.added_indexes
              ++ map (add_foreign_key d.table_name) d.added_foreign_keys))
        (All-append IsIdle (add_key d)
          (map (create_index d.table_name) d.added_indexes
            ++ map (add_foreign_key d.table_name) d.added_foreign_keys)
          (when-All IsIdle (d.primary_key_changed && not (is_empty (or_else d.new_primary_key [])))
            _ ((λ ns. refl), tt))
          (All-append IsIdle (map (create_index d.table_name) d.added_indexes)
            (map (add_foreign_key d.table_name) d.added_foreign_keys)
            (All-over_map IsIdle (create_index d.table_name) d.added_indexes (λ i ns. refl))
            (All-over_map IsIdle (add_foreign_key d.table_name) d.added_foreign_keys
              (λ k ns. refl))))

module _ (d : TableDiff) (e : d.renamed_columns ≡ []) (cs seen : List String) where
  postgres-run :
      run cs (generate_postgres_table_ddl d seen).1
      ≡ run (run cs (drop_columns d)) (map (pg_add d) d.added_columns)
  unfolding generate_postgres_table_ddl
  postgres-run =
      let changes = change_columns d.table_name d.modified_columns in
      idle-append cs (create_enum_types d.added_enum_types seen).1
        (drop_and_rename d ++ (changes ++ add_new d))
        (create_enum_types-All IsIdle (λ t ns. refl) d.added_enum_types seen)
      ∙ (run-append cs (drop_and_rename d) (changes ++ add_new d)
          ∙ (ap (λ ns. run ns (changes ++ add_new d)) (drop_and_rename-run d e cs)
              ∙ (idle-append (run cs (drop_columns d)) changes (add_new d) (
                    change_columns-All IsIdle d.table_name (λ n c b ns. refl) (λ n f ns. refl)
                      (λ n ns. refl) (λ n b ns. refl) (λ n q ns. refl) (λ n q ns. refl)
                      (λ n ns. refl) (λ o q ns. refl) d.modified_columns)
                  ∙ add_new-run d e (run cs (drop_columns d)))))

  generate_table_ddl-columns :
      (dialect : Dialect) (x : String)
      → includes (run cs (generate_table_ddl dialect d seen).1) x ≡ (
          (includes cs x && not (includes (names d.removed_columns) x))
          || includes (names d.added_columns) x)
  unfolding generate_table_ddl add_columns
  generate_table_ddl-columns mysql x =
      ap (λ ns. includes ns x) (mysql-run d e cs)
      ∙ drop-then-add d (mysql_add d) cs x (λ c ns.
        if-intro (λ u. ns ++ (u.name ∷ []) ≡ ns ++ (c.name ∷ [])) (c.auto_increment && true)
          (without_auto_increment c) c (λ _. refl) (λ _. refl))
  generate_table_ddl-columns postgres x =
      ap (λ ns. includes ns x) postgres-run ∙ drop-then-add d (pg_add d) cs x (λ c ns. refl)

has-column_map :
    (cs : List ColumnSchema) (x : String) → has x (column_map cs) ≡ includes (names cs) x
unfolding column_map lookup
has-column_map cs x = has-column_map_from [] cs x

module _ (js : Builtins) (prompt : Prompt) (dialect : Dialect) (entity db : TableSchema) where
  no_renames : table_renames js prompt dialect false entity db ≡ []
  unfolding table_renames
  no_renames =
      if-intro (λ rs. rs ≡ [])
        ((not (is_empty (candidate_adds entity db)) && not (is_empty (candidate_drops entity db)))
          && false)
        _ [] (λ h. absurd (ground (arith, h))) (λ _. refl)

  adds-names :
      (x : String)
      → includes (names (candidate_adds entity db)) x
        ≡ (includes (names entity.columns) x && not (includes (names db.columns) x))
  unfolding candidate_adds
  adds-names x =
      names-filter (λ n. not (has n (column_map db.columns))) entity.columns x
      ∙ ground (arith, has-column_map db.columns x)

  drops-names :
      (x : String)
      → includes (names (candidate_drops entity db)) x ≡ (
          includes (names db.columns) x
          && (not (includes (names entity.columns) x) && not (includes entity.skipped_columns x)))
  unfolding candidate_drops
  drops-names x =
      names-filter
        (λ n. not (has n (column_map entity.columns)) && not (includes entity.skipped_columns n))
        db.columns x
      ∙ ground (arith, has-column_map entity.columns x)

  diff_with-columns :
      (seen : List String) (x : String)
      → includes
          (run
            (names db.columns)
            (generate_table_ddl dialect (diff_with js prompt dialect false [] entity db) seen).1)
          x
        ≡ (includes (names entity.columns) x
            || (includes (names db.columns) x && includes entity.skipped_columns x))
  unfolding diff_with not_targets not_sources
  diff_with-columns seen x =
      generate_table_ddl-columns (diff_with js prompt dialect false [] entity db) refl
        (names db.columns) seen dialect x
      ∙ ground (arith, adds-names x, drops-names x)

  -- A table that is migrated without asking for renames has afterwards, on either dialect and
  -- whatever the table had, exactly the columns of its entity, and those of its own that the entity
  -- skips.
  pub table_diff-columns :
      (seen : List String) (x : String)
      → includes
          (run
            (names db.columns)
            (generate_table_ddl dialect (table_diff js prompt dialect false entity db) seen).1)
          x
        ≡ (includes (names entity.columns) x
            || (includes (names db.columns) x && includes entity.skipped_columns x))
  unfolding table_diff
  table_diff-columns seen x =
      subst
        (λ rs.
          includes
            (run (names db.columns)
              (generate_table_ddl dialect (diff_with js prompt dialect false rs entity db) seen).1)
            x
          ≡ (includes (names entity.columns) x
              || (includes (names db.columns) x && includes entity.skipped_columns x)))
        (sym no_renames) (diff_with-columns seen x)
