-- ===== src/Migration/Comparator/UnchangedColumns.antt =====
-- src/database/migration/create/comparator.ts: columns, enum types and orders of columns compared
-- with themselves.
use mathlib.Core.Option
use dk_server_foundation.Common.{
  String, ◌≡◌, refl, ◌∙◌, subst, Bool, true, false, not, ◌||◌, Option, none, some, List, [], ◌∷◌,
  map, Map, lookup, insert, lookup-insert, has, string_eq, if◌then◌else◌, or_else, includes,
  filterb, filterb_none, filterb_keeps, All, All-map, All-always, All-includes_keys, arith, eq_refl,
  HasUniqueKeys, insert-HasUniqueKeys, AllFound, HasUniqueKeys-AllFound, Eq, nat_eq, ◌⊎◌, inl, inr,
  Option-cases,
}
use text.Mathlib.TextEquality.{eq_iff}
use dk_server_foundation.Migration.SchemaModel.{ColumnSchema, TableSchema, DatabaseSchema, EnumType}
use dk_server_foundation.Migration.Comparator.{
  Builtins, option_beq, bool_beq, arrays_equal, types_match, defaults_match, compare_column,
  column_map, column_map_from, values_match, normalize_type_alias, normalize_default_expression,
}
use dk_server_foundation.Migration.Comparator.Renames.{names, detect_reordering_mysql}
use dk_server_foundation.Migration.Comparator.Enums.{
  EnumChanges, enum_of, modify_enum, enum_column, enum_columns, orphaned_enums, detect_enum_changes,
}
use dk_server_foundation.Migration.Comparator.Tables.{
  modified_from, candidate_adds, candidate_drops,
}

pub arrays_equal_refl : (xs : List String) → arrays_equal xs xs ≡ true
unfolding arrays_equal
arrays_equal_refl [] = refl
arrays_equal_refl (x ∷ xs) = ground (arith, eq_iff x x, arrays_equal_refl xs)

option_beq_refl {ℓ} : {A : Type ℓ} ⦃e : Eq A⦄ (o : Option A) → option_beq o o ≡ true
option_beq_refl none = refl
option_beq_refl (some a) = eq_refl a

bool_beq_refl : (b : Bool) → bool_beq b b ≡ true
bool_beq_refl true = refl
bool_beq_refl false = refl

if_true : (b : Bool) {c : Bool} → c ≡ true → (if b then c else true) ≡ true
if_true true h = h
if_true false h = refl

module _ (js : Builtins) where
  types_match_refl : (c : ColumnSchema) → types_match js c c ≡ true
  unfolding types_match
  types_match_refl c = ground (
    arith,
    eq_iff (normalize_type_alias c.type) (normalize_type_alias c.type),
    option_beq_refl c.size,
    option_beq_refl c.scale,
    bool_beq_refl c.unsigned,
    option_beq_refl c.enum_type_name,
    arrays_equal_refl (js.sort (or_else c.enum_values [])),
  )

  values_match_refl : (v : Option String) → values_match js v v ≡ true
  values_match_refl none = refl
  values_match_refl (some v) = eq_refl v

  defaults_match_refl : (c : ColumnSchema) → defaults_match js c c ≡ true
  unfolding defaults_match
  defaults_match_refl c =
      let e : String = normalize_default_expression js (or_else c.default_expression "") in
      ground (arith, eq_iff e e, values_match_refl c.default_value)

  compare_column_self : (c : ColumnSchema) → compare_column js c c ≡ none
  unfolding compare_column
  compare_column_self c = ground (
    arith,
    types_match_refl c,
    defaults_match_refl c,
    bool_beq_refl c.nullable,
    bool_beq_refl c.auto_increment,
    eq_iff (or_else c.on_update_expression "") (or_else c.on_update_expression ""),
  )

  pub modified_from_self :
      (es m : Map String ColumnSchema) → AllFound es m → modified_from js es m ≡ []
  unfolding modified_from Option.bind
  modified_from_self [] m h = refl
  modified_from_self ((n, col) ∷ es) m (h, hs) =
      rw (h, compare_column_self col) (modified_from_self es m hs)

-- The map of a table's columns.
column_map_from-HasUniqueKeys :
    (m : Map String ColumnSchema) (cs : List ColumnSchema)
    → HasUniqueKeys m
    → HasUniqueKeys (column_map_from m cs)
unfolding column_map_from
column_map_from-HasUniqueKeys m [] h = h
column_map_from-HasUniqueKeys m (c ∷ cs) h =
    column_map_from-HasUniqueKeys (insert c.name c m) cs (insert-HasUniqueKeys c.name c m h)

has-column_map_from :
    (n : String) (m : Map String ColumnSchema) (cs : List ColumnSchema)
    → has n (column_map_from m cs) ≡ (has n m || includes (names cs) n)
unfolding column_map_from
has-column_map_from n m [] = ground arith
has-column_map_from n m (c ∷ cs) =
    ground (arith, has-column_map_from n (insert c.name c m) cs, lookup-insert c.name n c m)

-- No two columns of a table have one name.
abbrev pub HasDistinctNames : List ColumnSchema → Type 0
HasDistinctNames [] = Unit
HasDistinctNames (c ∷ cs) = (includes (names cs) c.name ≡ false) × HasDistinctNames cs

lookup-column_map_from_other :
    (n : String) (m : Map String ColumnSchema) (cs : List ColumnSchema)
    → includes (names cs) n ≡ false
    → lookup n (column_map_from m cs) ≡ lookup n m
unfolding column_map_from
lookup-column_map_from_other n m [] h = refl
lookup-column_map_from_other n m (c ∷ cs) h =
    ground
      (arith, lookup-column_map_from_other n (insert c.name c m) cs, lookup-insert c.name n c m)

lookup-column_map_from :
    (m : Map String ColumnSchema) (cs : List ColumnSchema)
    → HasDistinctNames cs
    → All (λ c. lookup c.name (column_map_from m cs) ≡ some c) cs
unfolding column_map_from
lookup-column_map_from m [] h = tt
lookup-column_map_from m (c ∷ cs) (h, hs) = (
  lookup-column_map_from_other c.name (insert c.name c m) cs h
      ∙ ground (arith, lookup-insert c.name c.name c m, eq_refl c.name),
  lookup-column_map_from (insert c.name c m) cs hs,
)

pub candidate_adds_self : (t : TableSchema) → candidate_adds t t ≡ []
unfolding candidate_adds column_map lookup
candidate_adds_self t = filterb_none _ t.columns (
    All-map _ _ t.columns (λ c h. ground (arith, h, has-column_map_from c.name [] t.columns))
      (All-includes_keys (λ c. c.name) t.columns))

pub candidate_drops_self : (t : TableSchema) → candidate_drops t t ≡ []
unfolding candidate_drops column_map lookup
candidate_drops_self t = filterb_none _ t.columns (
    All-map _ _ t.columns (λ c h. ground (arith, h, has-column_map_from c.name [] t.columns))
      (All-includes_keys (λ c. c.name) t.columns))

pub map_id : (f : String → String) (xs : List String) → ((x : String) → f x ≡ x) → map f xs ≡ xs
map_id f [] h = refl
map_id f (x ∷ xs) h = rw (h x, map_id f xs h)

-- Enum types.
includes_self : (vs : List String) → filterb (λ v. not (includes vs v)) vs ≡ []
includes_self vs = filterb_none _ vs (
    All-map _ _ vs (λ v h. rw h)
      (subst (λ ys. All (λ v. includes ys v ≡ true) vs) (map_id (λ v. v) vs (λ _. refl))
        (All-includes_keys (λ v. v) vs)))

modify_enum_self :
    (table column : String) (type : EnumType) (values : Option (List String))
    (changes : EnumChanges)
    → (values ≡ none) ⊎ (values ≡ some type.values)
    → modify_enum table column type values changes ≡ changes
unfolding modify_enum
modify_enum_self table column type none changes h = refl
modify_enum_self table column type (some vs) changes h =
    let same : vs ≡ type.values = ground arith in rw (same, includes_self type.values)

enum_column_self :
    (table : String) (c : ColumnSchema) (changes : EnumChanges)
    → enum_column table c (enum_of c) (some c) changes ≡ changes
unfolding enum_column
enum_column_self table c changes = elim (Option-cases c.enum_values) [
  | inl e ↦ ground arith
  | inr (vs, e) ↦
      let type : EnumType = record { type_name = or_else c.enum_type_name ""; values = vs } in
      ground (
        arith,
        option_beq_refl c.enum_type_name,
        modify_enum_self table c.name type c.enum_values changes (inr e),
      )
]

enum_columns_self :
    (table : String) (m : Map String ColumnSchema) (cs : List ColumnSchema) (changes : EnumChanges)
    → All (λ c. lookup c.name m ≡ some c) cs
    → enum_columns table m cs changes ≡ changes
unfolding enum_columns
enum_columns_self table m [] changes h = refl
enum_columns_self table m (c ∷ cs) changes (h, hs) =
    rw (h, enum_column_self table c changes) (enum_columns_self table m cs changes hs)

orphaned_enums_self :
    (m : Map String ColumnSchema) (cs : List ColumnSchema) (removed : List String)
    → All (λ c. lookup c.name m ≡ some c) cs
    → orphaned_enums m cs removed ≡ removed
unfolding orphaned_enums
orphaned_enums_self m [] removed h = refl
orphaned_enums_self m (c ∷ cs) removed (h, hs) =
    ground (arith, h, option_beq_refl c.enum_type_name, orphaned_enums_self m cs removed hs)

pub detect_enum_changes_self :
    (t : TableSchema)
    → HasDistinctNames t.columns
    → detect_enum_changes t t ≡ record { added = []; removed = []; modified = [] }
unfolding detect_enum_changes column_map
detect_enum_changes_self t h =
    let found = lookup-column_map_from [] t.columns h in
    rw (
      enum_columns_self t.name (column_map_from [] t.columns) t.columns
          (record { added = []; removed = []; modified = [] }) found,
      orphaned_enums_self (column_map_from [] t.columns) t.columns [] found,
    )

pub detect_reordering_mysql_self : (t : TableSchema) → detect_reordering_mysql t t [] [] [] ≡ []
unfolding detect_reordering_mysql lookup
detect_reordering_mysql_self t =
    let kept : filterb (λ n. not (includes [] n)) (names t.columns) ≡ names t.columns =
      filterb_keeps (λ n. not (includes [] n)) (names t.columns)
        (All-always _ (names t.columns) (λ _. refl)) in
    rw (kept, arrays_equal_refl (names t.columns))

-- In every table of a schema the columns have distinct names.
abbrev pub AllDistinct : DatabaseSchema → Type 0
AllDistinct = All (λ e. HasDistinctNames e.1.columns)

pub column_map-AllFound : (cs : List ColumnSchema) → AllFound (column_map cs) (column_map cs)
unfolding column_map
column_map-AllFound cs =
    HasUniqueKeys-AllFound (column_map_from [] cs) (column_map_from-HasUniqueKeys [] cs tt)
