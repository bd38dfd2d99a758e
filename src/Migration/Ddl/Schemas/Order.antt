-- ===== src/Migration/Ddl/Schemas/Order.antt =====
-- src/database/migration/create/ddl-generator.ts: the order of statements in `generateDDL`.
use dk_server_foundation.Common.{
  String, ◌≡◌, refl, Bool, true, false, not, ◌&&◌, ◌||◌, List, [], ◌∷◌, ◌++◌, map, any, All,
  All-append, All-over_map, arith,
}
use dk_server_foundation.Migration.SchemaModel.{SchemaDiff}
use dk_server_foundation.Migration.Ddl.{Grammar, Statement, drop_type}
use dk_server_foundation.Migration.Ddl.Schemas.{
  add_tables, change_enums, schema_enum_mods, modify_tables, deferred_fks, drop_fks, drop_tables,
  dropped_types, generate_ddl,
}
use dk_server_foundation.Migration.Ddl.Schemas.Kinds.{
  creates_table, drops_table, adds_fk, drops_fk, replaces-drops_table,
}
use dk_server_foundation.Migration.Ddl.Schemas.Parts.{
  change_enums-All, deferred_fks-All, drop_fks-All, drop_tables-All, add_tables-All,
  modify_tables-All,
}

-- No statement of the first kind comes after one of the second.
abbrev pub never_after : (Statement → Bool) → (Statement → Bool) → List Statement → Bool
never_after p q [] = true
never_after p q (s ∷ ss) = (not (q s) || not (any p ss)) && never_after p q ss

module _ (p q : Statement → Bool) where
  any_none : (ss : List Statement) → All (λ s. p s ≡ false) ss → any p ss ≡ false
  any_none [] h = refl
  any_none (s ∷ ss) (h, hs) = ground (arith, h, any_none ss hs)

  never_after_lem : (ss : List Statement) → All (λ s. p s ≡ false) ss → never_after p q ss ≡ true
  never_after_lem [] h = refl
  never_after_lem (s ∷ ss) (h, hs) = ground (arith, any_none ss hs, never_after_lem ss hs)

  never_after-append :
      (ss ts : List Statement)
      → All (λ s. q s ≡ false) ss
      → never_after p q ts ≡ true
      → never_after p q (ss ++ ts) ≡ true
  never_after-append [] ts h k = k
  never_after-append (s ∷ ss) ts (h, hs) k = ground (arith, h, never_after-append ss ts hs k)

module _ (g : Grammar) (diff : SchemaDiff) where
  abbrev tables : List String × List Statement
  tables = add_tables diff.dialect diff.added_tables []

  abbrev enums : List Statement
  enums = change_enums (schema_enum_mods diff)

  abbrev modified : List Statement
  modified = modify_tables diff.dialect diff.modified_tables tables.0

  abbrev fks : List Statement
  fks = deferred_fks diff.added_tables

  abbrev drops : List Statement
  drops = drop_fks diff.removed_tables

  abbrev gone : List Statement
  gone = drop_tables diff.removed_tables

  abbrev types : List Statement
  types = map (λ n. drop_type n) (dropped_types g diff)

  abbrev NoCreate : Statement → Type 0
  NoCreate s = creates_table s ≡ false

  abbrev NoDrop : Statement → Type 0
  NoDrop s = drops_table s ≡ false

  tables-created_first : never_after creates_table adds_fk (generate_ddl g diff) ≡ true
  unfolding generate_ddl
  tables-created_first =
      never_after-append creates_table adds_fk tables.1
        (enums ++ (modified ++ (fks ++ (drops ++ (gone ++ types)))))
        (add_tables-All (λ s. adds_fk s ≡ false) (λ n. refl) (λ e. refl) (λ t. refl) (λ t i. refl)
          diff.dialect diff.added_tables [])
        (never_after_lem creates_table adds_fk
          (enums ++ (modified ++ (fks ++ (drops ++ (gone ++ types)))))
          (All-append NoCreate enums (modified ++ (fks ++ (drops ++ (gone ++ types))))
            (change_enums-All NoCreate (λ n v. refl) (λ n. refl) (λ n m. refl) (λ n vs. refl)
              (schema_enum_mods diff))
            (All-append NoCreate modified (fks ++ (drops ++ (gone ++ types)))
              (modify_tables-All NoCreate (λ n. refl) (λ e. refl) (λ s c. c.1.0) diff.dialect
                diff.modified_tables tables.0)
              (All-append NoCreate fks (drops ++ (gone ++ types))
                (deferred_fks-All NoCreate (λ t k. refl) diff.added_tables)
                (All-append NoCreate drops (gone ++ types)
                  (drop_fks-All NoCreate (λ t k. refl) diff.removed_tables)
                  (All-append NoCreate gone types
                    (drop_tables-All NoCreate (λ n. refl) (λ t. refl) diff.removed_tables)
                    (All-over_map NoCreate (λ n. drop_type n) (dropped_types g diff)
                      (λ n. refl))))))))

  fks-dropped_first : never_after drops_fk drops_table (generate_ddl g diff) ≡ true
  unfolding generate_ddl
  fks-dropped_first =
      never_after-append drops_fk drops_table tables.1 _
        (add_tables-All NoDrop (λ n. refl) (λ e. refl) (λ t. refl) (λ t i. refl) diff.dialect
          diff.added_tables [])
        (never_after-append drops_fk drops_table enums _
          (change_enums-All NoDrop (λ n v. refl) (λ n. refl) (λ n m. refl) (λ n vs. refl)
            (schema_enum_mods diff))
          (never_after-append drops_fk drops_table modified _
            (modify_tables-All NoDrop (λ n. refl) (λ e. refl) (λ s c. replaces-drops_table s c.1.1)
              diff.dialect diff.modified_tables tables.0)
            (never_after-append drops_fk drops_table fks _
              (deferred_fks-All NoDrop (λ t k. refl) diff.added_tables)
              (never_after-append drops_fk drops_table drops _
                (drop_fks-All NoDrop (λ t k. refl) diff.removed_tables)
                (never_after_lem drops_fk drops_table (gone ++ types) (
                  All-append (λ s. drops_fk s ≡ false) gone types
                    (drop_tables-All (λ s. drops_fk s ≡ false) (λ n. refl) (λ t. refl)
                      diff.removed_tables)
                    (All-over_map (λ s. drops_fk s ≡ false) (λ n. drop_type n)
                      (dropped_types g diff) (λ n. refl))))))))

  -- Whatever the difference and the dialect: no table is created after a foreign key was added, and
  -- no foreign key is dropped after a table was dropped.
  pub generate_ddl-never_after :
      (never_after creates_table adds_fk (generate_ddl g diff) ≡ true)
      × (never_after drops_fk drops_table (generate_ddl g diff) ≡ true)
  generate_ddl-never_after = (tables-created_first, fks-dropped_first)
