-- ===== src/Migration/Ddl/Mysql.antt =====
-- src/database/migration/create/ddl-generator.ts: `generateMySQLTableDDL`, in five parts. A column
-- that is AUTO_INCREMENT must have a key, so such definitions are put off until the key is added.
pub mod Parts
pub mod Keyed
pub mod Tests
use dk_server_foundation.Common.{
  String, Bool, true, false, not, ◌&&◌, ◌||◌, Option, none, some, List, [], ◌∷◌, ◌++◌, map, Map,
  lookup, ◌==◌, string_eq, if◌then◌else◌, or_else, includes, find, filterb, add_some,
}
use dk_server_foundation.Migration.SchemaModel.{
  After, unplaced, ColumnSchema, ColumnModification, Rename, Reorder, TableDiff,
}
use dk_server_foundation.Migration.Comparator.Renames.{is_empty, names, rename_map_from}
use dk_server_foundation.Migration.Ddl.{
  Statement, find_after_clause, find_after_clause_for_existing, after_of,
}

abbrev pub without_auto_increment : ColumnSchema → ColumnSchema
without_auto_increment c = record c { auto_increment = false }

-- The definition of a column as long as no key was added.
abbrev pub unless_auto_increment : Bool → ColumnSchema → ColumnSchema
unless_auto_increment b c = if c.auto_increment && b then without_auto_increment c else c

abbrev pub old_key : TableDiff → List String
old_key d = or_else d.old_primary_key []

abbrev pub new_key : TableDiff → List String
new_key d = or_else d.new_primary_key []

abbrev pub drops_key : TableDiff → Bool
drops_key d = d.primary_key_changed && not (is_empty (old_key d))

-- `new Set(names)`
unfoldable pub distinct_from : List String → List String → List String
distinct_from seen [] = seen
distinct_from seen (n ∷ ns) = distinct_from (if includes seen n then seen else seen ++ (n ∷ [])) ns

-- Changed and removed columns of the old key that are AUTO_INCREMENT.
unfoldable pub stripped_columns : TableDiff → List ColumnSchema
stripped_columns d =
    filterb (λ c. includes (old_key d) c.name && c.auto_increment)
      (map (λ m. m.old_column) d.modified_columns ++ d.removed_columns)

-- The other columns of the old key: their name in the database, and the entity's column.
unfoldable pub stripped_rest : TableDiff → List String → List (String × ColumnSchema)
stripped_rest d [] = []
stripped_rest d (n ∷ ns) =
    let entity_name = or_else (lookup n (rename_map_from [] d.renamed_columns)) n in
    add_some
      (if includes (names (stripped_columns d)) n
        then none
        else elim (find (λ c. c.name == entity_name) d.entity_columns) [
          | none ↦ none
          | some c ↦ if c.auto_increment then some (n, c) else none
        ])
      (stripped_rest d ns)

-- 1 and 2: foreign keys and indexes.
unfoldable pub drop_old : TableDiff → List Statement
drop_old d =
    map (λ k. Statement.drop_foreign_key d.table_name k.name) d.removed_foreign_keys
    ++ map (λ i. Statement.drop_index d.table_name i.name) d.removed_indexes

abbrev pub strip : TableDiff → ColumnSchema → Statement
strip d c = Statement.modify_column d.table_name (without_auto_increment c) unplaced

-- Under the name in the database.
abbrev pub strip_named : TableDiff → String × ColumnSchema → Statement
strip_named d item = strip d (record item.1 { name = item.0 })

abbrev pub rest_of_key : TableDiff → List (String × ColumnSchema)
rest_of_key d = stripped_rest d (distinct_from [] (old_key d))

-- 3: the old primary key.
unfoldable pub drop_key : TableDiff → List Statement
unfolding stripped_columns stripped_rest distinct_from
drop_key d =
    if drops_key d
    then map (strip d) (stripped_columns d)
      ++ (map (strip_named d) (rest_of_key d) ++ (Statement.drop_primary_key d.table_name "" ∷ []))
    else []

-- 4
abbrev pub drop_columns : TableDiff → List Statement
drop_columns d = map (λ c. Statement.drop_column d.table_name c.name) d.removed_columns

abbrev pub rename : TableDiff → Rename → Statement
rename d r =
    Statement.change_column d.table_name r.from
      (unless_auto_increment d.primary_key_changed r.column)
      (find_after_clause r.column d (names d.added_columns))

-- 5
unfoldable pub rename_columns : TableDiff → List Statement
unfolding find_after_clause
rename_columns d = map (rename d) d.renamed_columns

abbrev pub renamed_names : TableDiff → List String
renamed_names d = map (λ r. r.to) d.renamed_columns

-- Whether a modification waits for the key.
abbrev pub is_deferred : TableDiff → ColumnModification → Bool
is_deferred d m = m.new_column.auto_increment && (m.auto_increment_changed || d.primary_key_changed)

-- The columns that are modified under their name.
abbrev pub modifications : TableDiff → List ColumnModification
modifications d = filterb (λ m. not (includes (renamed_names d) m.name)) d.modified_columns

abbrev pub modify : TableDiff → ColumnModification → Statement
modify d m =
    Statement.modify_column d.table_name m.new_column (find_after_clause_for_existing m.name d)

-- 6
unfoldable pub modify_columns : TableDiff → List Statement
unfolding find_after_clause_for_existing
modify_columns d = map (modify d) (filterb (λ m. not (is_deferred d m)) (modifications d))

abbrev pub add : TableDiff → ColumnSchema → Statement
add d c =
    Statement.add_column d.table_name (unless_auto_increment true c) (find_after_clause c d [])

-- 7
unfoldable pub add_columns : TableDiff → List Statement
unfolding find_after_clause
add_columns d = map (add d) d.added_columns

-- 8: columns whose place alone changes.
abbrev pub handled_names : TableDiff → List String
handled_names d = renamed_names d ++ (map (λ m. m.name) d.modified_columns ++ names d.added_columns)

unfoldable pub reorders : TableDiff → List Reorder → List (ColumnSchema × After)
reorders d [] = []
reorders d (r ∷ rs) =
    add_some
      (if includes (handled_names d) r.name
        then none
        else elim (find (λ c. c.name == r.name) d.entity_columns) [
          | none ↦ none
          | some c ↦ some (c, after_of r.after)
        ])
      (reorders d rs)

abbrev pub move : TableDiff → ColumnSchema × After → Statement
move d item = Statement.modify_column d.table_name item.0 item.1

unfoldable pub reorder_columns : TableDiff → List Statement
unfolding reorders
reorder_columns d = map (move d) (reorders d d.reordered_columns)

-- 4 to 8
unfoldable pub change_columns : TableDiff → List Statement
unfolding rename_columns modify_columns add_columns reorder_columns
change_columns d =
    drop_columns d
    ++ (rename_columns d ++ (modify_columns d ++ (add_columns d ++ reorder_columns d)))

-- 9
unfoldable pub add_key : TableDiff → List Statement
add_key d =
    if d.primary_key_changed && not (is_empty (new_key d))
    then Statement.add_primary_key d.table_name (new_key d) ∷ []
    else []

abbrev pub restore : TableDiff → ColumnSchema → Statement
restore d c = Statement.modify_column d.table_name c unplaced

abbrev pub restore_modified : TableDiff → List Statement
restore_modified d = map (modify d) (filterb (is_deferred d) (modifications d))

abbrev pub restore_added : TableDiff → List Statement
restore_added d = map (restore d) (filterb (λ c. c.auto_increment) d.added_columns)

abbrev pub restore_renamed : TableDiff → List Statement
restore_renamed d =
    map (λ r. restore d r.column)
      (filterb (λ r. r.column.auto_increment && d.primary_key_changed) d.renamed_columns)

abbrev pub restore_stripped : TableDiff → List Statement
restore_stripped d = map (λ item. restore d item.1) (if drops_key d then rest_of_key d else [])

-- 9b: the definitions that were put off.
unfoldable pub restore_auto_increment : TableDiff → List Statement
unfolding find_after_clause_for_existing stripped_rest distinct_from
restore_auto_increment d =
    restore_modified d ++ (restore_added d ++ (restore_renamed d ++ restore_stripped d))

-- 10 and 11
unfoldable pub add_new : TableDiff → List Statement
add_new d =
    map (Statement.create_index d.table_name) d.added_indexes
    ++ map (Statement.add_foreign_key d.table_name) d.added_foreign_keys

unfoldable pub generate_mysql_table_ddl : TableDiff → List Statement
unfolding drop_old drop_key change_columns add_key restore_auto_increment add_new
generate_mysql_table_ddl d =
    drop_old d
    ++ (drop_key d ++ (change_columns d ++ (add_key d ++ (restore_auto_increment d ++ add_new d))))
