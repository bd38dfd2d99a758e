-- ===== src/Migration/Comparator.antt =====
-- src/database/migration/create/comparator.ts: the functions on single columns, keys and lists.
-- JavaScript's text functions are a parameter (`Builtins`); so is the prompt for renames.
pub mod Renames
pub mod Enums
pub mod Tables
pub mod Keys
pub mod UnchangedColumns
pub mod Unchanged
pub mod Tests
use Prim.Native.String
use dk_server_foundation.Common.{
  ℕ, String, Bool, true, false, not, ◌&&◌, ◌||◌, Option, none, some, List, [], ◌∷◌, map, Map,
  insert, ◌==◌, Eq, nat_eq, string_eq, if◌then◌else◌, is_some, or_else, includes, filterb, ◌≡◌, ◌↔◌,
}
use dk_server_foundation.Migration.SchemaModel.{
  ColumnSchema, IndexSchema, ForeignKeySchema, TableSchema, ColumnModification, Dialect, mysql,
  postgres,
}

-- `toUpperCase`, `trim`, the two `replace` calls on default expressions, and `sort` on texts.
pub record Builtins : Type 0 where
  pub to_upper_case : String → String
  pub trim : String → String
  pub replace_now : String → String
  pub replace_current_timestamp : String → String
  pub sort : List String → List String

abbrev pub option_beq {ℓ} : {A : Type ℓ} ⦃e : Eq A⦄ → Option A → Option A → Bool
option_beq none none = true
option_beq (some a) (some b) = a == b
option_beq _ _ = false

abbrev pub bool_beq : Bool → Bool → Bool
bool_beq true b = b
bool_beq false b = not b

-- A text that is neither `undefined` nor empty.
abbrev pub truthy : Option String → Bool
truthy none = false
truthy (some s) = not (s == "")

abbrev pub is_postgres : Dialect → Bool
is_postgres postgres = true
is_postgres mysql = false

-- `arraysEqual`
unfoldable pub arrays_equal : List String → List String → Bool
arrays_equal [] [] = true
arrays_equal (x ∷ xs) (y ∷ ys) = x == y && arrays_equal xs ys
arrays_equal _ _ = false

unfoldable pub normalize_type_alias : String → String
normalize_type_alias type =
    if type == "integer" then "int" else if type == "numeric" then "decimal" else type

module _ (js : Builtins) where
  unfoldable pub types_match : ColumnSchema → ColumnSchema → Bool
  unfolding arrays_equal
  types_match a b =
      normalize_type_alias a.type == normalize_type_alias b.type
      && (option_beq a.size b.size
          && (option_beq a.scale b.scale
              && (bool_beq a.unsigned b.unsigned
                  && ((if truthy a.enum_type_name || truthy b.enum_type_name
                        then option_beq a.enum_type_name b.enum_type_name
                        else true)
                      && (if is_some a.enum_values || is_some b.enum_values
                          then arrays_equal (js.sort (or_else a.enum_values []))
                              (js.sort (or_else b.enum_values []))
                          else true)))))

  unfoldable pub normalize_default_expression : String → String
  normalize_default_expression expr =
      js.replace_current_timestamp (js.replace_now (js.trim (js.to_upper_case expr)))

  -- The end of `defaultsMatch`: both values, or neither.
  abbrev pub values_match : Option String → Option String → Bool
  values_match none none = true
  values_match (some v) (some w) = v == w
  values_match _ _ = false

  unfoldable pub defaults_match : ColumnSchema → ColumnSchema → Bool
  defaults_match a b =
      if a.auto_increment || b.auto_increment
      then true
      else if not (is_some a.default_value) && not (is_some a.default_expression)
      then true
      else if truthy a.default_expression && truthy b.default_expression
      then normalize_default_expression (or_else a.default_expression "")
        == normalize_default_expression (or_else b.default_expression "")
      else if truthy a.default_expression || truthy b.default_expression
      then false
      else values_match a.default_value b.default_value

  unfoldable pub compare_column : ColumnSchema → ColumnSchema → Option ColumnModification
  compare_column entity_col db_col =
      let type_changed : Bool = not (types_match entity_col db_col) in
      let nullable_changed : Bool = not (bool_beq entity_col.nullable db_col.nullable) in
      let default_changed : Bool = not (defaults_match entity_col db_col) in
      let auto_increment_changed : Bool =
        not (bool_beq entity_col.auto_increment db_col.auto_increment) in
      let on_update_changed : Bool =
        not
          (or_else entity_col.on_update_expression "" == or_else db_col.on_update_expression "") in
      if not type_changed
        && (not nullable_changed
            && (not default_changed && (not auto_increment_changed && not on_update_changed)))
      then none
      else some (record {
        name = entity_col.name;
        old_column = db_col;
        new_column = entity_col;
        type_changed = type_changed;
        nullable_changed = nullable_changed;
        default_changed = default_changed;
        auto_increment_changed = auto_increment_changed;
        on_update_changed = on_update_changed;
      })

-- `columns.join(',')`
unfoldable pub join : List String → String
join [] = ""
join (x ∷ []) = x
join (x ∷ (y ∷ xs)) = String.◌++◌ x (String.◌++◌ "," (join (y ∷ xs)))

abbrev bool_text : Bool → String
bool_text true = "true"
bool_text false = "false"

unfoldable pub index_key : IndexSchema → String
index_key idx =
    String.◌++◌ (join idx.columns) (
      String.◌++◌ ":"
        (String.◌++◌ (bool_text idx.unique) (String.◌++◌ ":" (bool_text idx.spatial))))

-- The items of a list whose key no item of another list has.
unfoldable pub without_keys {ℓ} : {A : Type ℓ} → (A → String) → List A → List A → List A
without_keys key xs ys = filterb (λ x. not (includes (map key ys) (key x))) xs

unfoldable pub compare_indexes :
    List IndexSchema → List IndexSchema → List IndexSchema × List IndexSchema
compare_indexes entity db = (without_keys index_key entity db, without_keys index_key db entity)

module _ (js : Builtins) where
  unfoldable pub normalize_fk_action : String → String
  normalize_fk_action action =
      let upper : String = js.to_upper_case action in
      if upper == "NO ACTION" then "RESTRICT" else upper

  unfoldable pub fk_key : ForeignKeySchema → String
  fk_key fk = String.◌++◌ (join fk.columns) (
      String.◌++◌ "→" (
        String.◌++◌ fk.referenced_table (
          String.◌++◌ "(" (
            String.◌++◌ (join fk.referenced_columns) (
              String.◌++◌ ")/" (
                String.◌++◌ (normalize_fk_action fk.on_delete)
                  (String.◌++◌ "/" (normalize_fk_action fk.on_update))))))))

  unfoldable pub compare_foreign_keys :
      List ForeignKeySchema → List ForeignKeySchema → List ForeignKeySchema × List ForeignKeySchema
  compare_foreign_keys entity db = (without_keys fk_key entity db, without_keys fk_key db entity)

-- `new Map(columns.map(c => [c.name, c]))`
unfoldable pub column_map_from :
    Map String ColumnSchema → List ColumnSchema → Map String ColumnSchema
column_map_from m [] = m
column_map_from m (c ∷ cs) = column_map_from (insert c.name c m) cs

unfoldable pub column_map : List ColumnSchema → Map String ColumnSchema
unfolding column_map_from
column_map cs = column_map_from [] cs
