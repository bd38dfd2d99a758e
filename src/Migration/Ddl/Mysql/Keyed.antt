-- ===== src/Migration/Ddl/Mysql/Keyed.antt =====
-- src/database/migration/create/ddl-generator.ts: MySQL wants a key for every AUTO_INCREMENT column
-- while the primary key of a table changes.
use dk_server_foundation.Common.{
  ◌≡◌, refl, ap, ◌∙◌, Bool, true, false, not, ◌&&◌, ◌||◌, inl, inr, List, [], ◌∷◌, ◌++◌, map,
  append_assoc, string_eq, any, All, All-append, All-map, All-over_map, All-over_filter, Bool-cases,
  if-intro, arith,
}
use dk_server_foundation.Migration.SchemaModel.{ColumnSchema, TableDiff}
use dk_server_foundation.Migration.Comparator.Renames.{is_empty}
use dk_server_foundation.Migration.Ddl.{
  Statement, change_column, modify_column, add_column, drop_primary_key, add_primary_key,
  drop_column,
}
use dk_server_foundation.Migration.Ddl.Mysql.{
  new_key, drops_key, drop_old, drop_key, rename_columns, modify_columns, modifications,
  is_deferred, add_columns, reorder_columns, change_columns, add_key, restore_auto_increment,
  add_new, generate_mysql_table_ddl, without_auto_increment, unless_auto_increment, modify, strip,
  strip_named, stripped_columns, rest_of_key, drop_columns, rename, add, move, reorders,
}
use dk_server_foundation.Migration.Ddl.Mysql.Parts.{
  drop_old-All, change_columns-All, restore_auto_increment-All, add_key-All, add_new-All,
}

-- A statement that defines an AUTO_INCREMENT column.
abbrev pub defines_auto_increment : Statement → Bool
defines_auto_increment (change_column t n c a) = c.auto_increment
defines_auto_increment (modify_column t c a) = c.auto_increment
defines_auto_increment (add_column t c a) = c.auto_increment
defines_auto_increment _ = false

-- Whether the table has a primary key after a statement.
abbrev key_after : Bool → Statement → Bool
key_after keyed (drop_primary_key t k) = false
key_after keyed (add_primary_key t ns) = true
key_after keyed _ = keyed

-- No statement defines an AUTO_INCREMENT column while there is no primary key.
abbrev pub stays_keyed : Bool → List Statement → Bool
stays_keyed keyed [] = true
stays_keyed keyed (s ∷ ss) =
    (keyed || not (defines_auto_increment s)) && stays_keyed (key_after keyed s) ss

abbrev IsNeutral : Statement → Type 0
IsNeutral s = (k : Bool) → key_after k s ≡ k

abbrev IsQuiet : Statement → Type 0
IsQuiet s = IsNeutral s × (defines_auto_increment s ≡ false)

abbrev Keeps : Statement → Type 0
Keeps s = key_after true s ≡ true

quiet-append :
    (k : Bool) (xs ys : List Statement)
    → All IsQuiet xs
    → stays_keyed k (xs ++ ys) ≡ stays_keyed k ys
quiet-append k [] ys h = refl
quiet-append k (x ∷ xs) ys ((n, q), h) = rw (n k, q) (ground (arith, quiet-append k xs ys h))

neutral-append :
    (k : Bool) (xs ys : List Statement)
    → All IsNeutral xs
    → stays_keyed k (xs ++ ys) ≡ (stays_keyed k xs && stays_keyed k ys)
neutral-append k [] ys h = refl
neutral-append k (x ∷ xs) ys (n, h) = rw (n k) (ground (arith, neutral-append k xs ys h))

-- A key stays unless it is dropped.
keyed-append : (xs : List Statement) → All Keeps xs → stays_keyed true xs ≡ true
keyed-append [] h = refl
keyed-append (x ∷ xs) (n, h) = rw n (keyed-append xs h)

unkeyed_lem :
    (xs : List Statement)
    → All IsNeutral xs
    → stays_keyed false xs ≡ not (any defines_auto_increment xs)
unkeyed_lem [] h = refl
unkeyed_lem (x ∷ xs) (n, h) = rw (n false) (ground (arith, unkeyed_lem xs h))

quiet-then :
    (k : Bool) (xs zs ys : List Statement) (s : Statement)
    → All IsQuiet xs
    → All IsQuiet zs
    → stays_keyed k ((xs ++ (zs ++ (s ∷ []))) ++ ys) ≡ stays_keyed k (s ∷ ys)
quiet-then k xs zs ys s h i =
    ap (stays_keyed k)
      (append_assoc xs (zs ++ (s ∷ [])) ys ∙ ap (λ l. xs ++ l) (append_assoc zs (s ∷ []) ys))
    ∙ (quiet-append k xs (zs ++ (s ∷ ys)) h ∙ quiet-append k zs (s ∷ ys) i)

module _ (d : TableDiff) where
  drop_old-IsQuiet : All IsQuiet (drop_old d)
  drop_old-IsQuiet = drop_old-All IsQuiet d (λ k. (λ b. refl, refl)) (λ i. (λ b. refl, refl))

  drop_key-gone :
      (ys : List Statement) → stays_keyed (drops_key d) (drop_key d ++ ys) ≡ stays_keyed false ys
  unfolding drop_key
  drop_key-gone ys = elim (Bool-cases (drops_key d)) [
    | inl e ↦ rw e (
        quiet-then true (map (strip d) (stripped_columns d)) (map (strip_named d) (rest_of_key d))
          ys (drop_primary_key d.table_name "")
          (All-over_map IsQuiet (strip d) (stripped_columns d) (λ x. (λ k. refl, refl)))
          (All-over_map IsQuiet (strip_named d) (rest_of_key d) (λ x. (λ k. refl, refl))))
    | inr e ↦ rw e refl
  ]

  change_columns-IsNeutral : All IsNeutral (change_columns d)
  change_columns-IsNeutral =
      change_columns-All IsNeutral d (λ c a k. refl) (λ n k. refl) (λ n c a k. refl) (λ c a k. refl)

  unless-quiet :
      (b : Bool) (c : ColumnSchema) → b ≡ true → (unless_auto_increment b c).auto_increment ≡ false
  unless-quiet b c e =
      if-intro (λ u. u.auto_increment ≡ false) (c.auto_increment && b) (without_auto_increment c) c
        (λ _. refl) (λ g. ground (arith, g, e))

  change_columns-unkeyed :
      d.primary_key_changed ≡ true
      → stays_keyed false (change_columns d) ≡ not (any defines_auto_increment (reorder_columns d))
  unfolding change_columns rename_columns modify_columns add_columns reorder_columns
  change_columns-unkeyed c =
      quiet-append false (drop_columns d) _ (
        All-over_map IsQuiet (λ x. drop_column d.table_name x.name) d.removed_columns
          (λ x. (λ k. refl, refl)))
      ∙ (quiet-append false (rename_columns d) _ (
            All-over_map IsQuiet (rename d) d.renamed_columns
              (λ r. (λ k. refl, unless-quiet d.primary_key_changed r.column c)))
          ∙ (quiet-append false (modify_columns d) _ (
                All-over_filter IsQuiet (modify d) (λ m. not (is_deferred d m)) (modifications d)
                  (λ m e. (λ k. refl, ground (arith, e, c))))
              ∙ (quiet-append false (add_columns d) _ (
                    All-over_map IsQuiet (add d) d.added_columns
                      (λ x. (λ k. refl, unless-quiet true x refl)))
                  ∙ unkeyed_lem (reorder_columns d) (
                      All-over_map IsNeutral (move d) (reorders d d.reordered_columns)
                        (λ x k. refl)))))

  abbrev finish : List Statement
  finish = restore_auto_increment d ++ add_new d

  finish-keyed : All Keeps finish
  finish-keyed =
      All-append Keeps (restore_auto_increment d) (add_new d)
        (restore_auto_increment-All Keeps d (λ c a. refl))
        (add_new-All Keeps d (λ i. refl) (λ k. refl))

  same-Keeps : d.primary_key_changed ≡ false → All Keeps (drop_key d)
  unfolding drop_key
  same-Keeps c = rw c tt

  change_columns-Keeps : All Keeps (change_columns d)
  change_columns-Keeps =
      All-map IsNeutral Keeps (change_columns d) (λ s n. n true) change_columns-IsNeutral

  add_key-Keeps : All Keeps (add_key d)
  add_key-Keeps = add_key-All Keeps d refl

  add_key-keyed :
      d.primary_key_changed ≡ true
      → is_empty (new_key d) ≡ false
      → stays_keyed false (add_key d ++ finish) ≡ true
  unfolding add_key
  add_key-keyed c e =
      if-intro (λ ss. stays_keyed false (ss ++ finish) ≡ true)
        (d.primary_key_changed && not (is_empty (new_key d)))
        (add_primary_key d.table_name (new_key d) ∷ []) [] (λ _. keyed-append finish finish-keyed)
        (λ g. absurd (ground (arith, g, c, e)))

  -- Where the entity has a primary key if it changed: from the old key's end to the new one, no
  -- statement defines an AUTO_INCREMENT column, exactly if no column that only moves is one.
  pub generate_mysql_table_ddl-stays_keyed :
      (d.primary_key_changed ≡ true → is_empty (new_key d) ≡ false)
      → stays_keyed (not d.primary_key_changed || drops_key d) (generate_mysql_table_ddl d)
        ≡ not (d.primary_key_changed && any defines_auto_increment (reorder_columns d))
  unfolding generate_mysql_table_ddl
  generate_mysql_table_ddl-stays_keyed h =
      quiet-append _ (drop_old d) _ drop_old-IsQuiet ∙ (elim (Bool-cases d.primary_key_changed) [
        | inl c ↦
            ap (λ k. stays_keyed k (drop_key d ++ (change_columns d ++ (add_key d ++ finish))))
              (ground (arith, c))
            ∙ (drop_key-gone (change_columns d ++ (add_key d ++ finish))
                ∙ (neutral-append false (change_columns d) (add_key d ++ finish)
                      change_columns-IsNeutral
                    ∙ ground (arith, change_columns-unkeyed c, add_key-keyed c (h c), c)))
        | inr c ↦
            ap (λ k. stays_keyed k (drop_key d ++ (change_columns d ++ (add_key d ++ finish))))
              (ground (arith, c))
            ∙ (keyed-append (drop_key d ++ (change_columns d ++ (add_key d ++ finish))) (
                  All-append Keeps (drop_key d) (change_columns d ++ (add_key d ++ finish))
                    (same-Keeps c)
                    (All-append Keeps (change_columns d) (add_key d ++ finish) change_columns-Keeps
                      (All-append Keeps (add_key d) finish add_key-Keeps finish-keyed)))
                ∙ ground (arith, c))
      ])
