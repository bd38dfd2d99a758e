-- ===== src/Migration/Comparator/Renames.antt =====
-- src/database/migration/create/comparator.ts: the renames and the order of columns. `promptRename`
-- asks the user: it is a parameter, from the table, the added column and the columns on offer to the
-- choice.
use dk_server_foundation.Common.{
  String, Bool, true, false, not, Option, none, some, List, [], ◌∷◌, map, Map, lookup, insert, ◌==◌,
  string_eq, if◌then◌else◌, or_else, includes, filterb, add_some,
}
use dk_server_foundation.Migration.SchemaModel.{ColumnSchema, TableSchema, Rename, Reorder}
use dk_server_foundation.Migration.Comparator.{Builtins, truthy, arrays_equal, types_match}

abbrev pub Prompt : Type 0
Prompt = String → String → List String → Option String

abbrev pub is_empty {ℓ} : {A : Type ℓ} → List A → Bool
is_empty [] = true
is_empty (_ ∷ _) = false

abbrev pub names : List ColumnSchema → List String
names = map (λ c. c.name)

abbrev pub drop_name : String → List ColumnSchema → List ColumnSchema
drop_name n = filterb (λ c. not (c.name == n))

module _ (js : Builtins) (prompt : Prompt) where
  -- The drops that are offered for an added column: those of its type, or else all that remain.
  unfoldable pub compatible_drops : ColumnSchema → List ColumnSchema → List ColumnSchema
  compatible_drops added remaining =
      let same_type = filterb (λ d. types_match js added d) remaining in
      if is_empty same_type then remaining else same_type

  -- The answer for one added column; the user is asked only if there is something to offer, and an
  -- empty answer is none.
  unfoldable pub ask : String → ColumnSchema → List ColumnSchema → Option String
  ask table added remaining =
      let offered = compatible_drops added remaining in
      let answer = prompt table added.name (names offered) in
      if is_empty offered then none else if truthy answer then answer else none

  abbrev pub remaining_after : Option String → List ColumnSchema → List ColumnSchema
  remaining_after none remaining = remaining
  remaining_after (some from) remaining = drop_name from remaining

  abbrev pub rename_to : ColumnSchema → Option String → Option Rename
  rename_to added none = none
  rename_to added (some from) = some (record { from = from; to = added.name; column = added })

  -- `detectRenames`
  unfoldable pub detect_renames : String → List ColumnSchema → List ColumnSchema → List Rename
  detect_renames table [] remaining = []
  detect_renames table (added ∷ adds) remaining =
      add_some (rename_to added (ask table added remaining))
        (detect_renames table adds (remaining_after (ask table added remaining) remaining))

-- `renamedFrom.get(name) || name`
abbrev pub renamed : Map String String → String → String
renamed m n = if truthy (lookup n m) then or_else (lookup n m) n else n

abbrev pub rename_map_from : Map String String → List Rename → Map String String
rename_map_from m [] = m
rename_map_from m (r ∷ rs) = rename_map_from (insert r.from r.to m) rs

-- The loop of `detectReorderingMySQL`, with the column before this one; a place past the end of
-- the database's columns is `undefined`, and so differs.
unfoldable pub reorders : Option String → List String → List String → List Reorder
reorders before [] db = []
reorders before (n ∷ ns) [] = record { name = n; after = before } ∷ reorders (some n) ns []
reorders before (n ∷ ns) (d ∷ ds) =
    add_some (if n == d then none else some (record { name = n; after = before }))
      (reorders (some n) ns ds)

unfoldable pub detect_reordering_mysql :
    TableSchema → TableSchema → List Rename → List ColumnSchema → List ColumnSchema → List Reorder
unfolding reorders
detect_reordering_mysql entity db renames added removed =
    let db_order =
      filterb (λ n. not (includes (names removed) n))
        (map (λ c. renamed (rename_map_from [] renames) c.name) db.columns) in
    let entity_order = filterb (λ n. not (includes (names added) n)) (names entity.columns) in
    if arrays_equal entity_order db_order then [] else reorders none entity_order db_order
