-- ===== src/Migration/Ddl/Schemas/Parts.antt =====
-- src/database/migration/create/ddl-generator.ts: what holds of the statements in each part of
-- `generateDDL`.
use dk_server_foundation.Common.{
  String, List, [], ◌∷◌, ◌++◌, map, string_eq, All, All-append, All-map, All-over_map, if-intro,
}
use dk_server_foundation.Migration.SchemaModel.{
  Dialect, mysql, postgres, IndexSchema, ForeignKeySchema, TableSchema, EnumType, EnumModification,
  TableDiff,
}
use dk_server_foundation.Migration.Comparator.Renames.{is_empty}
use dk_server_foundation.Migration.Ddl.{
  Statement, comment, create_enum_type, create_table, create_index, add_foreign_key, drop_type,
  rename_type, create_type, add_value, drop_foreign_key, drop_table,
}
use dk_server_foundation.Migration.Ddl.Mysql.{generate_mysql_table_ddl}
use dk_server_foundation.Migration.Ddl.Postgres.{create_enum_types, generate_postgres_table_ddl}
use dk_server_foundation.Migration.Ddl.Postgres.Parts.{create_enum_types-All}
use dk_server_foundation.Migration.Ddl.Schemas.{
  column_enums, create_types_for, add_tables, deferred_fks, change_enum, change_enums,
  generate_table_ddl, modify_tables, drop_fks, drop_tables,
}
use dk_server_foundation.Migration.Ddl.Schemas.Kinds.{
  IsChange, generate_mysql_table_ddl-IsChange, postgres_changes, postgres_changes-IsChange,
}

module _ (P : Statement → Type 0) where
  pub change_enums-All :
      ((n v : String) → P (add_value n v))
      → ((n : String) → P (drop_type n))
      → ((n m : String) → P (rename_type n m))
      → ((n : String) (vs : List String) → P (create_type n vs))
      → (ms : List EnumModification) → All P (change_enums ms)
  unfolding change_enums change_enum
  change_enums-All a d r c [] = tt
  change_enums-All a d r c (m ∷ ms) =
      All-append P (change_enum m) (change_enums ms)
        (if-intro (All P) (is_empty m.removed) _ _
          (λ _. All-over_map P (add_value m.type_name) m.added (a m.type_name))
          (λ _. (d _, (r _ _, (c _ _, tt)))))
        (change_enums-All a d r c ms)

  pub deferred_fks-All :
      ((t : String) (k : ForeignKeySchema) → P (add_foreign_key t k))
      → (ts : List TableSchema) → All P (deferred_fks ts)
  unfolding deferred_fks
  deferred_fks-All f [] = tt
  deferred_fks-All f (t ∷ ts) =
      All-append P (map (add_foreign_key t.name) t.foreign_keys) (deferred_fks ts)
        (All-over_map P (add_foreign_key t.name) t.foreign_keys (f t.name)) (deferred_fks-All f ts)

  pub drop_fks-All :
      ((t k : String) → P (drop_foreign_key t k)) → (ts : List TableSchema) → All P (drop_fks ts)
  unfolding drop_fks
  drop_fks-All f [] = tt
  drop_fks-All f (t ∷ ts) =
      All-append P (map (λ k. drop_foreign_key t.name k.name) t.foreign_keys) (drop_fks ts)
        (All-over_map P (λ k. drop_foreign_key t.name k.name) t.foreign_keys (λ k. f t.name k.name))
        (drop_fks-All f ts)

  module _ (c : (n : String) → P (comment n)) where
    pub drop_tables-All :
        ((t : String) → P (drop_table t)) → (ts : List TableSchema) → All P (drop_tables ts)
    unfolding drop_tables
    drop_tables-All d [] = tt
    drop_tables-All d (t ∷ ts) = (c t.name, (d t.name, drop_tables-All d ts))

    module _ (e : (type : EnumType) → P (create_enum_type type)) where
      create_types_for-All :
          (dialect : Dialect) (t : TableSchema) (seen : List String)
          → All P (create_types_for dialect t seen).1
      unfolding create_types_for
      create_types_for-All mysql t seen = tt
      create_types_for-All postgres t seen = create_enum_types-All P e (column_enums t.columns) seen

      pub add_tables-All :
          ((t : TableSchema) → P (create_table t))
          → ((t : String) (i : IndexSchema) → P (create_index t i))
          → (dialect : Dialect) (ts : List TableSchema) (seen : List String)
          → All P (add_tables dialect ts seen).1
      unfolding add_tables
      add_tables-All f g dialect [] seen = tt
      add_tables-All f g dialect (t ∷ ts) seen =
          let types = create_types_for dialect t seen in
          let rest = add_tables dialect ts types.0 in
          (
            c t.name,
            All-append P types.1 (create_table t ∷ (map (create_index t.name) t.indexes ++ rest.1))
                (create_types_for-All dialect t seen)
                (
                  f t,
                  All-append P (map (create_index t.name) t.indexes) rest.1
                      (All-over_map P (create_index t.name) t.indexes (g t.name))
                      (add_tables-All f g dialect ts types.0),
                ),
          )

      generate_table_ddl-All :
          ((s : Statement) → IsChange s → P s)
          → (dialect : Dialect) (d : TableDiff) (seen : List String)
          → All P (generate_table_ddl dialect d seen).1
      unfolding generate_table_ddl generate_postgres_table_ddl
      generate_table_ddl-All f mysql d seen =
          All-map IsChange P (generate_mysql_table_ddl d) f (generate_mysql_table_ddl-IsChange d)
      generate_table_ddl-All f postgres d seen =
          All-append P (create_enum_types d.added_enum_types seen).1 (postgres_changes d)
            (create_enum_types-All P e d.added_enum_types seen)
            (All-map IsChange P (postgres_changes d) f (postgres_changes-IsChange d))

      pub modify_tables-All :
          ((s : Statement) → IsChange s → P s)
          → (dialect : Dialect) (ds : List TableDiff) (seen : List String)
          → All P (modify_tables dialect ds seen)
      unfolding modify_tables
      modify_tables-All f dialect [] seen = tt
      modify_tables-All f dialect (d ∷ ds) seen =
          let changed = generate_table_ddl dialect d seen in
          (
            c d.table_name,
            All-append P changed.1 (modify_tables dialect ds changed.0)
                (generate_table_ddl-All f dialect d seen)
                (modify_tables-All f dialect ds changed.0),
          )
