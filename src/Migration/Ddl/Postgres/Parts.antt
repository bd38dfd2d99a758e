-- ===== src/Migration/Ddl/Postgres/Parts.antt =====
-- src/database/migration/create/ddl-generator.ts: what holds of the statements by which
-- `generatePostgresTableDDL` changes columns.
use dk_server_foundation.Common.{
  String, Bool, false, not, ◌&&◌, Option, List, [], ◌∷◌, ◌++◌, if◌then◌else◌, or_else, string_eq,
  includes, All, All-append, if-intro, Option-cases, inl, inr,
}
use dk_server_foundation.Migration.SchemaModel.{EnumType, ColumnSchema, ColumnModification}
use dk_server_foundation.Migration.Comparator.{truthy}
use dk_server_foundation.Migration.Ddl.{
  Default, Statement, create_enum_type, alter_type, set_default, drop_default, set_nullable,
  create_sequence, sync_sequence, drop_identity, drop_sequence,
}
use dk_server_foundation.Migration.Ddl.Mysql.Parts.{when-All}
use dk_server_foundation.Migration.Ddl.Postgres.{
  create_enum_types, is_cast, has_default, change_type, restored_default, restore_default,
  change_nullable, change_default, change_auto_increment, for_each, change_columns,
}

pub create_enum_types-All :
    (P : Statement → Type 0)
    → ((type : EnumType) → P (create_enum_type type))
    → (es : List EnumType) (seen : List String) → All P (create_enum_types es seen).1
unfolding create_enum_types
create_enum_types-All P e [] seen = tt
create_enum_types-All P e (type ∷ es) seen =
    let rest =
      create_enum_types-All P e es
        (if includes seen type.type_name then seen else seen ++ (type.type_name ∷ [])) in
    if-intro (All P) (includes seen type.type_name) _ _ (λ _. rest) (λ _. (e type, rest))

for_each-All :
    (P : Statement → Type 0) (f : ColumnModification → List Statement)
    (ms : List ColumnModification)
    → ((m : ColumnModification) → All P (f m))
    → All P (for_each f ms)
unfolding for_each
for_each-All P f [] h = tt
for_each-All P f (m ∷ ms) h = All-append P (f m) (for_each f ms) (h m) (for_each-All P f ms h)

module _ (P : Statement → Type 0) (t : String)
    (alters : (n : String) (c : ColumnSchema) (b : Bool) → P (alter_type t n c b))
    (sets : (n : String) (e : Default) → P (set_default t n e))
    (unsets : (n : String) → P (drop_default t n))
    (nullables : (n : String) (b : Bool) → P (set_nullable t n b))
    (creates : (n seq : String) → P (create_sequence t n seq))
    (syncs : (n seq : String) → P (sync_sequence t n seq))
    (identities : (n : String) → P (drop_identity t n))
    (drops : (actual : Option String) (seq : String) → P (drop_sequence actual seq)) where
  change_type-All : (m : ColumnModification) → All P (change_type t m)
  unfolding change_type
  change_type-All m = when-All P m.type_changed _ (
      All-append P
        (if is_cast m && has_default m.old_column then drop_default t m.name ∷ [] else []) _
        (when-All P (is_cast m && has_default m.old_column) (drop_default t m.name ∷ [])
          (unsets _, tt))
        (alters _ _ _, tt))

  restore_default-All : (m : ColumnModification) → All P (restore_default t m)
  unfolding restore_default
  restore_default-All m = elim (Option-cases (restored_default m)) [
    | inl e ↦ rw (restore_default, e) tt
    | inr (v, e) ↦ rw (restore_default, e) (sets _ _, tt)
  ]

  change_default-All : (m : ColumnModification) → All P (change_default t m)
  unfolding change_default
  change_default-All m = when-All P m.default_changed _ (
    if-intro P (truthy m.new_column.default_expression) _ _ (λ _. sets _ _)
        (λ _. elim (Option-cases m.new_column.default_value) [
          | inl e ↦ rw e (unsets _)
          | inr (v, e) ↦ rw e (sets _ _)
        ]),
    tt,
  )

  change_auto_increment-All : (m : ColumnModification) → All P (change_auto_increment t m)
  unfolding change_auto_increment
  change_auto_increment-All m =
      if-intro (All P) (not m.auto_increment_changed) [] _ (λ _. tt)
        (λ _.
          if-intro (All P) m.new_column.auto_increment _ _
            (λ _. (creates _ _, (sets _ _, (syncs _ _, tt))))
            (λ _.
              if-intro (All P) (or_else m.old_column.is_identity false) _ _
                (λ _. (identities _, tt)) (λ _. (unsets _, (drops _ _, tt)))))

  pub change_columns-All : (ms : List ColumnModification) → All P (change_columns t ms)
  unfolding change_columns change_nullable
  change_columns-All ms =
      All-append P (for_each (change_type t) ms)
        (for_each (restore_default t) ms
          ++ (for_each (change_nullable t) ms
              ++ (for_each (change_default t) ms ++ for_each (change_auto_increment t) ms)))
        (for_each-All P (change_type t) ms change_type-All)
        (All-append P (for_each (restore_default t) ms)
          (for_each (change_nullable t) ms
            ++ (for_each (change_default t) ms ++ for_each (change_auto_increment t) ms))
          (for_each-All P (restore_default t) ms restore_default-All)
          (All-append P (for_each (change_nullable t) ms)
            (for_each (change_default t) ms ++ for_each (change_auto_increment t) ms)
            (for_each-All P (change_nullable t) ms
              (λ m. when-All P m.nullable_changed _ (nullables _ _, tt)))
            (All-append P (for_each (change_default t) ms) (for_each (change_auto_increment t) ms)
              (for_each-All P (change_default t) ms change_default-All)
              (for_each-All P (change_auto_increment t) ms change_auto_increment-All))))
