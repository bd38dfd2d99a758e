-- ===== src/Migration/Ddl/Schemas/Kinds.antt =====
-- src/database/migration/create/ddl-generator.ts: what kinds of statements change a table.
use dk_server_foundation.Common.{
  arith, String, ◌≡◌, refl, Bool, true, false, not, ◌&&◌, List, [], ◌++◌, map, or_else, string_eq,
  All, All-append, All-over_map,
}
use dk_server_foundation.Migration.SchemaModel.{ColumnModification, TableDiff, unplaced}
use dk_server_foundation.Migration.Comparator.Renames.{is_empty}
use dk_server_foundation.Migration.Ddl.{
  Statement, create_enum_type, create_table, create_index, add_foreign_key, drop_foreign_key,
  drop_index, drop_column, add_column, rename_column, drop_table, drop_type, rename_type,
  create_type,
}
use dk_server_foundation.Migration.Ddl.Mysql.{
  drop_old, drop_key, change_columns as change_columns_mysql, add_key, restore_auto_increment,
  add_new as add_new_mysql, generate_mysql_table_ddl,
}
use dk_server_foundation.Migration.Ddl.Mysql.Parts.{
  when-All, drop_old-All, drop_key-All, change_columns-All as mysql_change_columns-All, add_key-All,
  restore_auto_increment-All, add_new-All,
}
use dk_server_foundation.Migration.Ddl.Postgres.Parts.{change_columns-All}
use dk_server_foundation.Migration.Ddl.Postgres.{
  drop_and_rename, change_columns, add_new, drop_constraints, drop_columns as pg_drop_columns,
  rename_columns as pg_rename_columns, add_key as pg_add_key,
}

abbrev pub creates_enum : Statement → Bool
creates_enum (create_enum_type e) = true
creates_enum _ = false

abbrev pub creates_table : Statement → Bool
creates_table (create_table t) = true
creates_table _ = false

abbrev pub drops_table : Statement → Bool
drops_table (drop_table t) = true
drops_table _ = false

abbrev pub adds_fk : Statement → Bool
adds_fk (add_foreign_key t k) = true
adds_fk _ = false

abbrev pub drops_fk : Statement → Bool
drops_fk (drop_foreign_key t k) = true
drops_fk _ = false

-- Drops a table, or replaces or drops an enum type.
abbrev pub replaces : Statement → Bool
replaces (drop_table t) = true
replaces (drop_type n) = true
replaces (rename_type n m) = true
replaces (create_type n vs) = true
replaces _ = false

-- A statement that leaves tables and enum types what they are.
abbrev pub IsChange : Statement → Type 0
IsChange s = (creates_enum s ≡ false) × ((creates_table s ≡ false) × (replaces s ≡ false))

pub replaces-drops_table : (s : Statement) → replaces s ≡ false → drops_table s ≡ false
replaces-drops_table (drop_table t) h = absurd (ground (arith, h))
replaces-drops_table _ h = refl

pub generate_mysql_table_ddl-IsChange : (d : TableDiff) → All IsChange (generate_mysql_table_ddl d)
unfolding generate_mysql_table_ddl
generate_mysql_table_ddl-IsChange d =
    let finish = restore_auto_increment d ++ add_new_mysql d in
    All-append IsChange (drop_old d)
      (drop_key d ++ (change_columns_mysql d ++ (add_key d ++ finish)))
      (drop_old-All IsChange d (λ k. (refl, (refl, refl))) (λ i. (refl, (refl, refl))))
      (All-append IsChange (drop_key d) (change_columns_mysql d ++ (add_key d ++ finish))
        (drop_key-All IsChange d (λ c a. (refl, (refl, refl))) (refl, (refl, refl)))
        (All-append IsChange (change_columns_mysql d) (add_key d ++ finish)
          (mysql_change_columns-All IsChange d (λ c a. (refl, (refl, refl)))
            (λ n. (refl, (refl, refl))) (λ n c a. (refl, (refl, refl)))
            (λ c a. (refl, (refl, refl))))
          (All-append IsChange (add_key d) finish (add_key-All IsChange d (refl, (refl, refl))) (
            All-append IsChange (restore_auto_increment d) (add_new_mysql d)
              (restore_auto_increment-All IsChange d (λ c a. (refl, (refl, refl))))
              (add_new-All IsChange d (λ i. (refl, (refl, refl))) (λ k. (refl, (refl, refl))))))))

change_columns-IsChange :
    (t : String) (ms : List ColumnModification) → All IsChange (change_columns t ms)
change_columns-IsChange t =
    change_columns-All IsChange t (λ n c b. (refl, (refl, refl))) (λ n e. (refl, (refl, refl)))
      (λ n. (refl, (refl, refl))) (λ n b. (refl, (refl, refl))) (λ n q. (refl, (refl, refl)))
      (λ n q. (refl, (refl, refl))) (λ n. (refl, (refl, refl))) (λ o q. (refl, (refl, refl)))

drop_and_rename-IsChange : (d : TableDiff) → All IsChange (drop_and_rename d)
unfolding drop_and_rename
drop_and_rename-IsChange d =
    All-append IsChange (map (λ k. drop_foreign_key d.table_name k.name) d.removed_foreign_keys)
      (map (λ i. drop_index d.table_name i.name) d.removed_indexes
        ++ (drop_constraints d ++ (pg_drop_columns d ++ pg_rename_columns d)))
      (All-over_map IsChange (λ k. drop_foreign_key d.table_name k.name) d.removed_foreign_keys
        (λ k. (refl, (refl, refl))))
      (All-append IsChange (map (λ i. drop_index d.table_name i.name) d.removed_indexes)
        (drop_constraints d ++ (pg_drop_columns d ++ pg_rename_columns d))
        (All-over_map IsChange (λ i. drop_index d.table_name i.name) d.removed_indexes
          (λ i. (refl, (refl, refl))))
        (All-append IsChange (drop_constraints d) (pg_drop_columns d ++ pg_rename_columns d)
          (when-All IsChange
            (d.primary_key_changed && not (is_empty (or_else d.old_primary_key []))) _
            ((refl, (refl, refl)), tt))
          (All-append IsChange (pg_drop_columns d) (pg_rename_columns d)
            (All-over_map IsChange (λ c. drop_column d.table_name c.name) d.removed_columns
              (λ c. (refl, (refl, refl))))
            (All-over_map IsChange (λ r. rename_column d.table_name r.from r.to) d.renamed_columns
              (λ r. (refl, (refl, refl)))))))

add_new-IsChange : (d : TableDiff) → All IsChange (add_new d)
unfolding add_new
add_new-IsChange d =
    All-append IsChange (map (λ c. add_column d.table_name c unplaced) d.added_columns)
      (pg_add_key d
        ++ (map (create_index d.table_name) d.added_indexes
            ++ map (add_foreign_key d.table_name) d.added_foreign_keys))
      (All-over_map IsChange (λ c. add_column d.table_name c unplaced) d.added_columns
        (λ c. (refl, (refl, refl))))
      (All-append IsChange (pg_add_key d)
        (map (create_index d.table_name) d.added_indexes
          ++ map (add_foreign_key d.table_name) d.added_foreign_keys)
        (when-All IsChange (d.primary_key_changed && not (is_empty (or_else d.new_primary_key [])))
          _ ((refl, (refl, refl)), tt))
        (All-append IsChange (map (create_index d.table_name) d.added_indexes)
          (map (add_foreign_key d.table_name) d.added_foreign_keys)
          (All-over_map IsChange (create_index d.table_name) d.added_indexes
            (λ i. (refl, (refl, refl))))
          (All-over_map IsChange (add_foreign_key d.table_name) d.added_foreign_keys
            (λ k. (refl, (refl, refl))))))

-- What generatePostgresTableDDL does besides creating enum types.
abbrev pub postgres_changes : TableDiff → List Statement
postgres_changes d =
    drop_and_rename d ++ (change_columns d.table_name d.modified_columns ++ add_new d)

pub postgres_changes-IsChange : (d : TableDiff) → All IsChange (postgres_changes d)
postgres_changes-IsChange d =
    All-append IsChange (drop_and_rename d)
      (change_columns d.table_name d.modified_columns ++ add_new d) (drop_and_rename-IsChange d)
      (All-append IsChange (change_columns d.table_name d.modified_columns) (add_new d)
        (change_columns-IsChange d.table_name d.modified_columns) (add_new-IsChange d))
