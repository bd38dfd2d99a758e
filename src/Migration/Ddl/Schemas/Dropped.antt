-- ===== src/Migration/Ddl/Schemas/Dropped.antt =====
-- src/database/migration/create/ddl-generator.ts: the enum types that a migration drops.
use dk_server_foundation.Common.{
  String, ◌≡◌, refl, ap, ◌∙◌, Bool, false, not, ◌&&◌, ◌||◌, none, some, List, [], ◌∷◌, ◌++◌, map,
  any, or_else, includes, string_eq, ◌==◌, filterb, Bool-cases, inl, inr, arith, if-intro, All,
}
use text.Mathlib.TextEquality.{eq_iff}
use dk_server_foundation.Migration.SchemaModel.{
  postgres, ColumnSchema, TableSchema, TableDiff, EnumModification, SchemaDiff,
}
use dk_server_foundation.Migration.Comparator.{is_postgres}
use dk_server_foundation.Migration.Comparator.Enums.{is_enum}
use dk_server_foundation.Migration.Ddl.{
  Grammar, Statement, drop_type, rename_type, add_value, drop_type_text,
}
use dk_server_foundation.Migration.Ddl.Schemas.{
  schema_enum_mods, replaced_types, left_types, column_types, table_types, drop_texts, schedule,
  dropped_types, change_enum, change_enums, add_tables, modify_tables, deferred_fks, drop_fks,
  drop_tables, generate_ddl,
}
use dk_server_foundation.Migration.Ddl.Schemas.Kinds.{replaces}
use dk_server_foundation.Migration.Ddl.Schemas.Parts.{
  deferred_fks-All, drop_fks-All, drop_tables-All, add_tables-All, modify_tables-All,
}

any-append :
    (p : Statement → Bool) (xs ys : List Statement) → any p (xs ++ ys) ≡ (any p xs || any p ys)
any-append p [] ys = refl
any-append p (x ∷ xs) ys = ground (arith, any-append p xs ys)

any-nothing :
    (p : Statement → Bool) (xs : List Statement) → All (λ s. p s ≡ false) xs → any p xs ≡ false
any-nothing p [] h = refl
any-nothing p (x ∷ xs) (h, hs) = ground (arith, h, any-nothing p xs hs)

any-skip :
    (p : Statement → Bool) (xs ys : List Statement)
    → All (λ s. p s ≡ false) xs
    → any p (xs ++ ys) ≡ any p ys
any-skip p xs ys h = ground (arith, any-append p xs ys, any-nothing p xs h)

module _ (g : Grammar) (x : String) where
  -- Types are told apart by the texts that drop them.
  abbrev pub is_type : String → Bool
  is_type n = drop_type_text g n == x

  -- A statement that drops the type, and one that gives its name to another.
  abbrev pub drops : Statement → Bool
  drops (drop_type n) = is_type n
  drops _ = false

  abbrev pub renames_to : Statement → Bool
  renames_to (rename_type n m) = is_type m
  renames_to _ = false

  -- Whether a column of a removed table has the type, whether a changed table left it, and whether
  -- an entity's table uses it.
  abbrev pub has_type : ColumnSchema → Bool
  has_type c =
      is_enum c && (elim c.enum_type_name [ none ↦ false | some n ↦ not (n == "") && is_type n ])

  abbrev pub is_orphan : SchemaDiff → Bool
  is_orphan diff =
      any (λ t. any has_type t.columns) diff.removed_tables
      || any (λ d. any is_type d.removed_enum_types) diff.modified_tables

  abbrev pub is_used : SchemaDiff → Bool
  is_used diff = any is_type (or_else diff.entity_enum_types [])

  includes-drop_texts : (ns : List String) → includes (drop_texts g ns) x ≡ any is_type ns
  includes-drop_texts [] = refl
  includes-drop_texts (n ∷ ns) = ground (arith, includes-drop_texts ns)

  names-append : (xs ys : List String) → any is_type (xs ++ ys) ≡ (any is_type xs || any is_type ys)
  names-append [] ys = refl
  names-append (n ∷ xs) ys = ground (arith, names-append xs ys)

  column_types-has_type : (cs : List ColumnSchema) → any is_type (column_types cs) ≡ any has_type cs
  unfolding column_types
  column_types-has_type [] = refl
  column_types-has_type (c ∷ cs) = ground (arith, column_types-has_type cs)

  table_types-has_type :
      (ts : List TableSchema) → any is_type (table_types ts) ≡ any (λ t. any has_type t.columns) ts
  unfolding table_types
  table_types-has_type [] = refl
  table_types-has_type (t ∷ ts) = ground (
    arith,
    names-append (column_types t.columns) (table_types ts),
    column_types-has_type t.columns,
    table_types-has_type ts,
  )

  left_types-is_type :
      (ds : List TableDiff)
      → any is_type (left_types ds) ≡ any (λ d. any is_type d.removed_enum_types) ds
  unfolding left_types
  left_types-is_type [] = refl
  left_types-is_type (d ∷ ds) =
      ground (arith, names-append d.removed_enum_types (left_types ds), left_types-is_type ds)

  schedule-is_type :
      (scheduled ns : List String)
      → any is_type (schedule g scheduled ns) ≡ (any is_type scheduled || any is_type ns)
  unfolding schedule
  schedule-is_type scheduled [] = ground arith
  schedule-is_type scheduled (n ∷ ns) =
      elim (Bool-cases (includes (drop_texts g scheduled) (drop_type_text g n))) [
        | inl h ↦
            rw (schedule, h)
              (ground (
                arith,
                schedule-is_type scheduled ns,
                includes-drop_texts scheduled,
                eq_iff (drop_type_text g n) x,
                h,
              ))
        | inr h ↦
            rw (schedule, h)
              (ground (
                arith,
                schedule-is_type (scheduled ++ (n ∷ [])) ns,
                names-append scheduled (n ∷ []),
              ))
      ]

  unused-is_type :
      (used ns : List String)
      → any is_type (filterb (λ n. not (includes (drop_texts g used) (drop_type_text g n))) ns)
        ≡ (any is_type ns && not (any is_type used))
  unused-is_type used [] = refl
  unused-is_type used (n ∷ ns) =
      ground
        (arith, unused-is_type used ns, includes-drop_texts used, eq_iff (drop_type_text g n) x)

  values-neither :
      (n : String) (vs : List String)
      → (any drops (map (add_value n) vs) ≡ false) × (any renames_to (map (add_value n) vs) ≡ false)
  values-neither n [] = (refl, refl)
  values-neither n (v ∷ vs) = values-neither n vs

  -- Replacing types: what is dropped first is what the old types are then called.
  replaced-renames_to :
      (ms : List EnumModification)
      → (any drops (change_enums ms) ≡ any renames_to (change_enums ms))
        × (any is_type (replaced_types ms) ≡ any renames_to (change_enums ms))
  unfolding change_enums change_enum replaced_types
  replaced-renames_to [] = (refl, refl)
  replaced-renames_to (m ∷ ms) = ground (
    arith,
    replaced-renames_to ms,
    values-neither m.type_name m.added,
    any-append drops (change_enum m) (change_enums ms),
    any-append renames_to (change_enum m) (change_enums ms),
  )

  end-drops : (ns : List String) → any drops (map (λ n. drop_type n) ns) ≡ any is_type ns
  end-drops [] = refl
  end-drops (n ∷ ns) = ground (arith, end-drops ns)

  end-renames_to : (ns : List String) → any renames_to (map (λ n. drop_type n) ns) ≡ false
  end-renames_to [] = refl
  end-renames_to (n ∷ ns) = end-renames_to ns

  replaces-drops : (s : Statement) → replaces s ≡ false → drops s ≡ false
  replaces-drops (drop_type n) h = absurd (ground (arith, h))
  replaces-drops _ h = refl

  replaces-renames_to : (s : Statement) → replaces s ≡ false → renames_to s ≡ false
  replaces-renames_to (rename_type n m) h = absurd (ground (arith, h))
  replaces-renames_to _ h = refl

  -- The types that are dropped at the end.
  dropped_types-is_type :
      (diff : SchemaDiff)
      → diff.dialect ≡ postgres
      → any is_type (dropped_types g diff) ≡ (
          (any renames_to (change_enums (schema_enum_mods diff)) || is_orphan diff)
          && not (is_used diff))
  unfolding dropped_types
  dropped_types-is_type diff p =
      let used = or_else diff.entity_enum_types [] in
      let old = replaced_types (schema_enum_mods diff) in
      let left = left_types diff.modified_tables in
      let gone = table_types diff.removed_tables in
      if-intro
        (λ ns. any is_type ns ≡ (
          (any renames_to (change_enums (schema_enum_mods diff)) || is_orphan diff)
          && not (is_used diff)))
        (is_postgres diff.dialect)
        (filterb (λ n. not (includes (drop_texts g used) (drop_type_text g n)))
          (schedule g old (left ++ gone)))
        []
        (λ _. ground (
          arith,
          unused-is_type used (schedule g old (left ++ gone)),
          schedule-is_type old (left ++ gone),
          names-append left gone,
          (replaced-renames_to (schema_enum_mods diff)).1,
          table_types-has_type diff.removed_tables,
          left_types-is_type diff.modified_tables,
        ))
        (λ n. absurd (ground (arith, n, ap is_postgres p)))

  -- A kind of statement that only the changes of enum types and the end have.
  any-generate_ddl :
      (p : Statement → Bool) (diff : SchemaDiff)
      → ((s : Statement) → replaces s ≡ false → p s ≡ false)
      → ((t : String) → p (Statement.drop_table t) ≡ false)
      → any p (generate_ddl g diff) ≡ (
          any p (change_enums (schema_enum_mods diff))
          || any p (map (λ n. drop_type n) (dropped_types g diff)))
  unfolding generate_ddl
  any-generate_ddl p diff other gone =
      let tables = add_tables diff.dialect diff.added_tables [] in
      let enums = change_enums (schema_enum_mods diff) in
      let modified = modify_tables diff.dialect diff.modified_tables tables.0 in
      let fks = deferred_fks diff.added_tables in
      let unlinked = drop_fks diff.removed_tables in
      let removed = drop_tables diff.removed_tables in
      let types = map (λ n. drop_type n) (dropped_types g diff) in
      let after : any p (modified ++ (fks ++ (unlinked ++ (removed ++ types)))) ≡ any p types =
        any-skip p modified (fks ++ (unlinked ++ (removed ++ types))) (
          modify_tables-All (λ s. p s ≡ false) (λ n. other _ refl) (λ e. other _ refl)
            (λ s c. other s c.1.1) diff.dialect diff.modified_tables tables.0)
        ∙ any-skip p fks (unlinked ++ (removed ++ types))
            (deferred_fks-All (λ s. p s ≡ false) (λ t k. other _ refl) diff.added_tables)
        ∙ any-skip p unlinked (removed ++ types)
            (drop_fks-All (λ s. p s ≡ false) (λ t k. other _ refl) diff.removed_tables)
        ∙ any-skip p removed types
            (drop_tables-All (λ s. p s ≡ false) (λ n. other _ refl) gone diff.removed_tables) in
      any-skip p tables.1 (enums ++ (modified ++ (fks ++ (unlinked ++ (removed ++ types))))) (
        add_tables-All (λ s. p s ≡ false) (λ n. other _ refl) (λ e. other _ refl)
          (λ t. other _ refl) (λ t i. other _ refl) diff.dialect diff.added_tables [])
      ∙ any-append p enums (modified ++ (fks ++ (unlinked ++ (removed ++ types))))
      ∙ ap (λ b. any p enums || b) after

  -- On PostgreSQL a migration drops an enum type, told apart by the text that drops it, exactly if
  -- it renames another type to that name, or if no entity's table uses the type and a column of a
  -- removed table has it or a changed table left it.
  pub generate_ddl-drops :
      (diff : SchemaDiff)
      → diff.dialect ≡ postgres
      → any drops (generate_ddl g diff)
        ≡ (any renames_to (generate_ddl g diff) || (is_orphan diff && not (is_used diff)))
  generate_ddl-drops diff p = ground (
    arith,
    any-generate_ddl drops diff replaces-drops (λ t. refl),
    any-generate_ddl renames_to diff replaces-renames_to (λ t. refl),
    end-drops (dropped_types g diff),
    end-renames_to (dropped_types g diff),
    dropped_types-is_type diff p,
    (replaced-renames_to (schema_enum_mods diff)).0,
  )
