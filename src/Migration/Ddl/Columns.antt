-- ===== src/Migration/Ddl/Columns.antt =====
-- src/database/migration/create: the columns that a table has after a migration, from comparator.ts's
-- difference to ddl-generator.ts's statements.
pub mod Migrated
pub mod Tests
use dk_server_foundation.Common.{
  String, ◌≡◌, refl, sym, ap, subst, ◌∙◌, Bool, true, false, not, ◌&&◌, ◌||◌, List, [], ◌∷◌, ◌++◌,
  map, ◌==◌, if◌then◌else◌, includes, includes-append, includes-filter_ne, string_eq, filterb, All,
  All-append, All-map, All-over_map, has, lookup-insert, insert, Map, inl, inr, Bool-cases,
  if-intro, arith,
}
use text.Mathlib.TextEquality.{eq_iff}
use dk_server_foundation.Migration.SchemaModel.{
  Dialect, mysql, postgres, ColumnSchema, Rename, TableSchema, TableDiff,
}
use dk_server_foundation.Migration.Comparator.{Builtins, column_map, column_map_from}
use dk_server_foundation.Migration.Comparator.Renames.{Prompt, names, is_empty}
use dk_server_foundation.Migration.Ddl.{
  Statement, drop_column, change_column, rename_column, add_column,
}
use dk_server_foundation.Migration.Ddl.Mysql
use dk_server_foundation.Migration.Ddl.Mysql.{
  drop_old, drop_key, rename, rename_columns, is_deferred, modifications, modify, modify_columns,
  add, add_columns, move, reorders, reorder_columns, restore_auto_increment,
  generate_mysql_table_ddl,
}
use dk_server_foundation.Migration.Ddl.Mysql.Parts.{
  drop_old-All, drop_key-All, add_key-All, restore_auto_increment-All, add_new-All,
}

-- The columns of a table after a statement.
abbrev pub columns_after : List String → Statement → List String
columns_after cs (drop_column t n) = filterb (λ c. not (c == n)) cs
columns_after cs (change_column t n c a) = map (λ old. if old == n then c.name else old) cs
columns_after cs (rename_column t n m) = map (λ old. if old == n then m else old) cs
columns_after cs (add_column t c a) = cs ++ (c.name ∷ [])
columns_after cs _ = cs

abbrev pub run : List String → List Statement → List String
run cs [] = cs
run cs (s ∷ ss) = run (columns_after cs s) ss

pub run-append :
    (cs : List String) (ss ts : List Statement) → run cs (ss ++ ts) ≡ run (run cs ss) ts
run-append cs [] ts = refl
run-append cs (s ∷ ss) ts = run-append (columns_after cs s) ss ts

abbrev pub IsIdle : Statement → Type 0
IsIdle s = (cs : List String) → columns_after cs s ≡ cs

pub idle-run : (cs : List String) (ss : List Statement) → All IsIdle ss → run cs ss ≡ cs
idle-run cs [] h = refl
idle-run cs (s ∷ ss) (h, hs) = rw (h cs) (idle-run cs ss hs)

module _ (t : String) where
  run-drops :
      (removed : List ColumnSchema) (cs : List String) (x : String)
      → includes (run cs (map (λ c. drop_column t c.name) removed)) x
        ≡ (includes cs x && not (includes (names removed) x))
  run-drops [] cs x = ground arith
  run-drops (c ∷ removed) cs x = ground (
    arith,
    run-drops removed (filterb (λ n. not (n == c.name)) cs) x,
    includes-filter_ne cs c.name x,
  )

  -- Columns that are added, whatever their definitions and places.
  run-adds :
      (f : ColumnSchema → Statement) (added : List ColumnSchema) (cs : List String) (x : String)
      → ((c : ColumnSchema) (ns : List String) → columns_after ns (f c) ≡ ns ++ (c.name ∷ []))
      → includes (run cs (map f added)) x ≡ (includes cs x || includes (names added) x)
  run-adds f [] cs x h = ground arith
  run-adds f (c ∷ added) cs x h =
      ap (λ ns. includes (run ns (map f added)) x) (h c cs)
      ∙ (ground
          (arith, run-adds f added (cs ++ (c.name ∷ [])) x h, includes-append cs (c.name ∷ []) x))

pub has-column_map_from :
    (m : Map String ColumnSchema) (cs : List ColumnSchema) (x : String)
    → has x (column_map_from m cs) ≡ (has x m || includes (names cs) x)
unfolding column_map_from
has-column_map_from m [] x = ground arith
has-column_map_from m (c ∷ cs) x = ground (
  arith,
  has-column_map_from (insert c.name c m) cs x,
  lookup-insert c.name x c m,
  eq_iff c.name x,
)

pub names-filter :
    (q : String → Bool) (cs : List ColumnSchema) (x : String)
    → includes (names (filterb (λ c. q c.name) cs)) x ≡ (includes (names cs) x && q x)
names-filter q [] x = refl
names-filter q (c ∷ cs) x = ground (arith, names-filter q cs x, eq_iff c.name x)

pub idle-append :
    (cs : List String) (ss ts : List Statement) → All IsIdle ss → run cs (ss ++ ts) ≡ run cs ts
idle-append cs ss ts h = run-append cs ss ts ∙ ap (λ ns. run ns ts) (idle-run cs ss h)

pub append-idle :
    (cs : List String) (ss ts : List Statement) → All IsIdle ts → run cs (ss ++ ts) ≡ run cs ss
append-idle cs ss ts h = run-append cs ss ts ∙ idle-run (run cs ss) ts h

-- Renames that there are none of.
pub none-run :
    (f : Rename → Statement) (rs : List Rename) (cs : List String) (ts : List Statement)
    → rs ≡ []
    → run cs (map f rs ++ ts) ≡ run cs ts
none-run f rs cs ts e = ap (λ l. run cs (map f l ++ ts)) e

-- Dropping and adding, with idle statements between and after.
pub drop-then-add :
    (d : TableDiff) (f : ColumnSchema → Statement) (cs : List String) (x : String)
    → ((c : ColumnSchema) (ns : List String) → columns_after ns (f c) ≡ ns ++ (c.name ∷ []))
    → includes
        (run
          (run cs (map (λ c. drop_column d.table_name c.name) d.removed_columns))
          (map f d.added_columns))
        x
      ≡ ((includes cs x && not (includes (names d.removed_columns) x))
          || includes (names d.added_columns) x)
drop-then-add d f cs x h = ground (
  arith,
  run-adds d.table_name f d.added_columns
      (run cs (map (λ c. drop_column d.table_name c.name) d.removed_columns)) x h,
  run-drops d.table_name d.removed_columns cs x,
)

module _ (d : TableDiff) (e : d.renamed_columns ≡ []) (cs : List String) where
  mysql_changes-run :
      run cs (Mysql.change_columns d) ≡ run (run cs (Mysql.drop_columns d)) (add_columns d)
  unfolding Mysql.change_columns rename_columns modify_columns add_columns reorder_columns
  mysql_changes-run =
      run-append cs (Mysql.drop_columns d)
        (rename_columns d ++ (modify_columns d ++ (add_columns d ++ reorder_columns d)))
      ∙ (none-run (rename d) d.renamed_columns (run cs (Mysql.drop_columns d))
            (modify_columns d ++ (add_columns d ++ reorder_columns d)) e
          ∙ (idle-append (run cs (Mysql.drop_columns d)) (modify_columns d)
                (add_columns d ++ reorder_columns d)
                (All-over_map IsIdle (modify d)
                  (filterb (λ m. not (is_deferred d m)) (modifications d)) (λ m ns. refl))
              ∙ append-idle (run cs (Mysql.drop_columns d)) (add_columns d) (reorder_columns d)
                  (All-over_map IsIdle (move d) (reorders d d.reordered_columns) (λ r ns. refl))))

  pub mysql-run :
      run cs (generate_mysql_table_ddl d) ≡ run (run cs (Mysql.drop_columns d)) (add_columns d)
  unfolding generate_mysql_table_ddl
  mysql-run =
      let finish = Mysql.add_key d ++ (restore_auto_increment d ++ Mysql.add_new d) in
      idle-append cs (drop_old d) (drop_key d ++ (Mysql.change_columns d ++ finish))
        (drop_old-All IsIdle d (λ k ns. refl) (λ i ns. refl))
      ∙ (idle-append cs (drop_key d) (Mysql.change_columns d ++ finish)
            (drop_key-All IsIdle d (λ c a ns. refl) (λ ns. refl))
          ∙ (append-idle cs (Mysql.change_columns d) finish (
                All-append IsIdle (Mysql.add_key d) (restore_auto_increment d ++ Mysql.add_new d)
                  (add_key-All IsIdle d (λ ns. refl))
                  (All-append IsIdle (restore_auto_increment d) (Mysql.add_new d)
                    (restore_auto_increment-All IsIdle d (λ c a ns. refl))
                    (add_new-All IsIdle d (λ i ns. refl) (λ k ns. refl))))
              ∙ mysql_changes-run))
