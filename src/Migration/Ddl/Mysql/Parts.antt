-- ===== src/Migration/Ddl/Mysql/Parts.antt =====
-- src/database/migration/create/ddl-generator.ts: what holds of the statements in each part of
-- `generateMySQLTableDDL`.
use dk_server_foundation.Common.{
  String, Bool, not, ◌&&◌, List, [], ◌∷◌, ◌++◌, map, if◌then◌else◌, string_eq, filterb, All,
  All-append, All-over_map, if-intro,
}
use dk_server_foundation.Migration.SchemaModel.{
  After, ColumnSchema, IndexSchema, ForeignKeySchema, TableDiff,
}
use dk_server_foundation.Migration.Comparator.Renames.{is_empty}
use dk_server_foundation.Migration.Ddl.{
  Statement, drop_foreign_key, drop_index, drop_primary_key, drop_column, change_column,
  modify_column, add_column, add_primary_key, create_index, add_foreign_key,
}
use dk_server_foundation.Migration.Ddl.Mysql.{
  new_key, drops_key, strip, strip_named, stripped_columns, rest_of_key, drop_old, drop_key,
  drop_columns, rename, rename_columns, is_deferred, modifications, modify, modify_columns, add,
  add_columns, move, reorders, reorder_columns, change_columns, add_key, restore, restore_modified,
  restore_added, restore_renamed, restore_stripped, restore_auto_increment, add_new,
}

-- A list that is there under a test.
pub when-All :
    (P : Statement → Type 0) (b : Bool) (xs : List Statement)
    → All P xs
    → All P (if b then xs else [])
when-All P b xs h = if-intro (All P) b xs [] (λ _. h) (λ _. tt)

module _ (P : Statement → Type 0) (d : TableDiff) where
  pub drop_old-All :
      ((k : String) → P (drop_foreign_key d.table_name k))
      → ((i : String) → P (drop_index d.table_name i))
      → All P (drop_old d)
  unfolding drop_old
  drop_old-All f g =
      All-append P (map (λ k. drop_foreign_key d.table_name k.name) d.removed_foreign_keys)
        (map (λ i. drop_index d.table_name i.name) d.removed_indexes)
        (All-over_map P (λ k. drop_foreign_key d.table_name k.name) d.removed_foreign_keys
          (λ k. f k.name))
        (All-over_map P (λ i. drop_index d.table_name i.name) d.removed_indexes (λ i. g i.name))

  module _ (m : (c : ColumnSchema) (a : After) → P (modify_column d.table_name c a)) where
    pub drop_key-All : P (drop_primary_key d.table_name "") → All P (drop_key d)
    unfolding drop_key
    drop_key-All p =
        when-All P (drops_key d)
          (map (strip d) (stripped_columns d)
            ++ (map (strip_named d) (rest_of_key d) ++ (drop_primary_key d.table_name "" ∷ [])))
          (All-append P (map (strip d) (stripped_columns d))
            (map (strip_named d) (rest_of_key d) ++ (drop_primary_key d.table_name "" ∷ []))
            (All-over_map P (strip d) (stripped_columns d) (λ c. m _ _))
            (All-append P (map (strip_named d) (rest_of_key d))
              (drop_primary_key d.table_name "" ∷ [])
              (All-over_map P (strip_named d) (rest_of_key d) (λ c. m _ _)) (p, tt)))

    pub change_columns-All :
        ((n : String) → P (drop_column d.table_name n))
        → ((n : String) (c : ColumnSchema) (a : After) → P (change_column d.table_name n c a))
        → ((c : ColumnSchema) (a : After) → P (add_column d.table_name c a))
        → All P (change_columns d)
    unfolding change_columns rename_columns modify_columns add_columns reorder_columns
    change_columns-All f g h =
        All-append P (drop_columns d)
          (rename_columns d ++ (modify_columns d ++ (add_columns d ++ reorder_columns d)))
          (All-over_map P (λ c. drop_column d.table_name c.name) d.removed_columns (λ c. f c.name))
          (All-append P (rename_columns d)
            (modify_columns d ++ (add_columns d ++ reorder_columns d))
            (All-over_map P (rename d) d.renamed_columns (λ r. g _ _ _))
            (All-append P (modify_columns d) (add_columns d ++ reorder_columns d)
              (All-over_map P (modify d) (filterb (λ n. not (is_deferred d n)) (modifications d))
                (λ n. m _ _))
              (All-append P (add_columns d) (reorder_columns d)
                (All-over_map P (add d) d.added_columns (λ c. h _ _))
                (All-over_map P (move d) (reorders d d.reordered_columns) (λ r. m _ _)))))

    pub restore_auto_increment-All : All P (restore_auto_increment d)
    unfolding restore_auto_increment
    restore_auto_increment-All =
        All-append P (restore_modified d)
          (restore_added d ++ (restore_renamed d ++ restore_stripped d))
          (All-over_map P (modify d) (filterb (is_deferred d) (modifications d)) (λ n. m _ _))
          (All-append P (restore_added d) (restore_renamed d ++ restore_stripped d)
            (All-over_map P (restore d) (filterb (λ c. c.auto_increment) d.added_columns)
              (λ c. m _ _))
            (All-append P (restore_renamed d) (restore_stripped d)
              (All-over_map P (λ r. restore d r.column)
                (filterb (λ r. r.column.auto_increment && d.primary_key_changed) d.renamed_columns)
                (λ r. m _ _))
              (All-over_map P (λ item. restore d item.1) (if drops_key d then rest_of_key d else [])
                (λ item. m _ _))))

  pub add_key-All : P (add_primary_key d.table_name (new_key d)) → All P (add_key d)
  unfolding add_key
  add_key-All p =
      when-All P (d.primary_key_changed && not (is_empty (new_key d)))
        (add_primary_key d.table_name (new_key d) ∷ []) (p, tt)

  pub add_new-All :
      ((i : IndexSchema) → P (create_index d.table_name i))
      → ((k : ForeignKeySchema) → P (add_foreign_key d.table_name k))
      → All P (add_new d)
  unfolding add_new
  add_new-All f g =
      All-append P (map (create_index d.table_name) d.added_indexes)
        (map (add_foreign_key d.table_name) d.added_foreign_keys)
        (All-over_map P (create_index d.table_name) d.added_indexes f)
        (All-over_map P (add_foreign_key d.table_name) d.added_foreign_keys g)
