-- ===== src/Migration/Ddl.antt =====
-- src/database/migration/create/ddl-generator.ts: the statements that a difference becomes. A
-- statement is kept as what it says; `render` is its text. The grammar of the dialect, with the
-- schema it is made for, is an interface, that of src/database/schema/grammar/Grammar.ts.
pub mod Mysql
pub mod Postgres
pub mod Schemas
pub mod Columns
use Prim.Native.String
use dk_server_foundation.Common.{
  ℕ, String, Bool, true, false, Option, none, some, List, [], ◌∷◌, ◌++◌, map, ◌==◌, string_eq,
  nat_eq, if◌then◌else◌, or_else, includes, find,
}
use dk_server_foundation.Migration.SchemaModel.{
  Dialect, mysql, postgres, After, unplaced, first, behind, ColumnSchema, IndexSchema,
  ForeignKeySchema, TableSchema, Reorder, EnumType, TableDiff,
}

-- `escape` is `escapeStr`.
pub record Grammar : Type 0 where
  pub quote : String → String
  pub qualified_table : String → String
  pub qualified_type : String → String
  pub create_table : TableSchema → String
  pub create_index : String → IndexSchema → String
  pub add_foreign_key : String → ForeignKeySchema → String
  pub create_enum_type : String → List String → List String
  pub column_def : ColumnSchema → String
  pub column_type : ColumnSchema → String
  pub escape : String → String

-- An expression, a value as text, or the next value of a sequence.
pub data Default : Type 0 where
  expression : String → Default
  literal : String → Default
  next_value : String → Default

pub data Statement : Type 0 where
  comment : String → Statement
  create_enum_type : EnumType → Statement
  create_table : TableSchema → Statement
  create_index : String → IndexSchema → Statement
  add_foreign_key : String → ForeignKeySchema → Statement
  drop_type : String → Statement
  rename_type : String → String → Statement
  create_type : String → List String → Statement
  add_value : String → String → Statement
  drop_foreign_key : String → String → Statement
  drop_index : String → String → Statement
  drop_primary_key : String → String → Statement
  drop_column : String → String → Statement
  change_column : String → String → ColumnSchema → After → Statement
  modify_column : String → ColumnSchema → After → Statement
  add_column : String → ColumnSchema → After → Statement
  add_primary_key : String → List String → Statement
  rename_column : String → String → String → Statement
  alter_type : String → String → ColumnSchema → Bool → Statement
  set_default : String → String → Default → Statement
  drop_default : String → String → Statement
  set_nullable : String → String → Bool → Statement
  create_sequence : String → String → String → Statement
  sync_sequence : String → String → String → Statement
  drop_identity : String → String → Statement
  drop_sequence : Option String → String → Statement
  drop_table : String → Statement

abbrev pub text : List String → String
text [] = ""
text (x ∷ xs) = String.◌++◌ x (text xs)

-- `xs.join(', ')`
unfoldable pub comma_separated : List String → String
comma_separated [] = ""
comma_separated (x ∷ []) = x
comma_separated (x ∷ (y ∷ xs)) = text (x ∷ (", " ∷ (comma_separated (y ∷ xs) ∷ [])))

module _ (g : Grammar) where
  abbrev quoted_value : String → String
  quoted_value v = text ("'" ∷ (g.escape v ∷ ("'" ∷ [])))

  abbrev alter : String → List String → String
  alter t parts = text ("ALTER TABLE " ∷ (g.qualified_table t ∷ parts))

  abbrev after_text : After → String
  after_text unplaced = ""
  after_text first = " FIRST"
  after_text (behind n) = text (" AFTER " ∷ (g.quote n ∷ []))

  -- The argument of `nextval` and `setval`.
  abbrev sequence_text : String → String
  sequence_text seq = quoted_value (g.qualified_type seq)

  abbrev default_text : Default → String
  default_text (expression e) = e
  default_text (literal v) = quoted_value v
  default_text (next_value seq) = text ("nextval(" ∷ (sequence_text seq ∷ (")" ∷ [])))

  abbrev alter_column : String → String → List String → String
  alter_column t n parts = alter t (" ALTER COLUMN " ∷ (g.quote n ∷ parts))

  abbrev max_text : String → String → String
  max_text t n =
      text ("(SELECT MAX(" ∷ (g.quote n ∷ (") FROM " ∷ (g.qualified_table t ∷ (")" ∷ [])))))

  unfoldable pub drop_type_text : String → String
  drop_type_text n = text ("DROP TYPE IF EXISTS " ∷ (g.qualified_type n ∷ []))

  unfoldable pub render : Dialect → Statement → List String
  unfolding drop_type_text comma_separated
  render d (comment n) = text ("\0comment:" ∷ (n ∷ [])) ∷ []
  render d (create_enum_type e) = g.create_enum_type e.type_name e.values
  render d (create_table t) = g.create_table t ∷ []
  render d (create_index t i) = g.create_index t i ∷ []
  render d (add_foreign_key t k) = g.add_foreign_key t k ∷ []
  render d (drop_type n) = drop_type_text n ∷ []
  render d (rename_type n m) =
      text ("ALTER TYPE " ∷ (g.qualified_type n ∷ (" RENAME TO " ∷ (g.quote m ∷ [])))) ∷ []
  render d (create_type n values) =
      text (
        "CREATE TYPE "
        ∷ (g.qualified_type n
            ∷ (" AS ENUM (" ∷ (comma_separated (map quoted_value values) ∷ (")" ∷ [])))))
      ∷ []
  render d (add_value n v) =
      text ("ALTER TYPE " ∷ (g.qualified_type n ∷ (" ADD VALUE " ∷ (quoted_value v ∷ [])))) ∷ []
  render mysql (drop_foreign_key t k) = alter t (" DROP FOREIGN KEY " ∷ (g.quote k ∷ [])) ∷ []
  render postgres (drop_foreign_key t k) = alter t (" DROP CONSTRAINT " ∷ (g.quote k ∷ [])) ∷ []
  render mysql (drop_index t i) = alter t (" DROP INDEX " ∷ (g.quote i ∷ [])) ∷ []
  render postgres (drop_index t i) = text ("DROP INDEX " ∷ (g.qualified_table i ∷ [])) ∷ []
  render mysql (drop_primary_key t k) = alter t (" DROP PRIMARY KEY" ∷ []) ∷ []
  render postgres (drop_primary_key t k) = alter t (" DROP CONSTRAINT " ∷ (g.quote k ∷ [])) ∷ []
  render d (drop_column t n) = alter t (" DROP COLUMN " ∷ (g.quote n ∷ [])) ∷ []
  render d (change_column t n c a) =
      alter t (" CHANGE COLUMN " ∷ (g.quote n ∷ (" " ∷ (g.column_def c ∷ (after_text a ∷ [])))))
      ∷ []
  render d (modify_column t c a) =
      alter t (" MODIFY COLUMN " ∷ (g.column_def c ∷ (after_text a ∷ []))) ∷ []
  render d (add_column t c a) =
      alter t (" ADD COLUMN " ∷ (g.column_def c ∷ (after_text a ∷ []))) ∷ []
  render d (add_primary_key t cs) =
      alter t (" ADD PRIMARY KEY (" ∷ (comma_separated (map g.quote cs) ∷ (")" ∷ []))) ∷ []
  render d (rename_column t n m) =
      alter t (" RENAME COLUMN " ∷ (g.quote n ∷ (" TO " ∷ (g.quote m ∷ [])))) ∷ []
  render d (alter_type t n c false) = alter_column t n (" TYPE " ∷ (g.column_type c ∷ [])) ∷ []
  render d (alter_type t n c true) =
      alter_column t n (
        " TYPE "
        ∷ (g.column_type c ∷ (" USING " ∷ (g.quote n ∷ ("::text::" ∷ (g.column_type c ∷ []))))))
      ∷ []
  render d (set_default t n e) = alter_column t n (" SET DEFAULT " ∷ (default_text e ∷ [])) ∷ []
  render d (drop_default t n) = alter_column t n (" DROP DEFAULT" ∷ []) ∷ []
  render d (set_nullable t n nullable) =
      alter_column t n ((if nullable then " DROP NOT NULL" else " SET NOT NULL") ∷ []) ∷ []
  render d (create_sequence t n seq) =
      text (
        "CREATE SEQUENCE "
        ∷ (g.qualified_table seq
            ∷ (" OWNED BY " ∷ (g.qualified_table t ∷ ("." ∷ (g.quote n ∷ []))))))
      ∷ []
  render d (sync_sequence t n seq) =
      text (
        "SELECT setval("
        ∷ (sequence_text seq
            ∷ (", COALESCE("
                ∷ (max_text t n ∷ (", 1), " ∷ (max_text t n ∷ (" IS NOT NULL)" ∷ [])))))))
      ∷ []
  render d (drop_identity t n) = alter_column t n (" DROP IDENTITY" ∷ []) ∷ []
  render d (drop_sequence actual seq) =
      text ("DROP SEQUENCE IF EXISTS " ∷ (or_else actual (g.qualified_table seq) ∷ [])) ∷ []
  render d (drop_table t) = text ("DROP TABLE " ∷ (g.qualified_table t ∷ [])) ∷ []

-- The nearest column before one, of those that are not excluded.
unfoldable pub place_in : List ColumnSchema → String → List String → After → Option After
place_in [] n excluded after = none
place_in (c ∷ cs) n excluded after =
    let rest = place_in cs n excluded (if includes excluded c.name then after else behind c.name) in
    if c.name == n then some after else rest

unfoldable pub find_after_clause : ColumnSchema → TableDiff → List String → After
unfolding place_in
find_after_clause col d excluded = elim (place_in d.entity_columns col.name excluded first) [
  | some after ↦ after
  | none ↦ if col.ordinal_position == 1 then first else unplaced
]

abbrev pub after_of : Option String → After
after_of none = first
after_of (some n) = behind n

unfoldable pub find_after_clause_for_existing : String → TableDiff → After
find_after_clause_for_existing n d = elim (find (λ r. r.name == n) d.reordered_columns) [
  | some r ↦ after_of r.after
  | none ↦ unplaced
]
