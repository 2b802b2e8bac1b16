-- ===== src/Mysql/Catalog/Whole.antt =====
-- The catalog holds what the server answered, whole and in order, or there is an error.
use mathlib.Core.List.{append-nil, append_assoc}
use relvo.Base.{
  text_eq, ℕ, ◌+◌, ◌≤◌, ◌<◌, ◌≡◌, refl, sym, subst, ◌∙◌, inl, inr, Option, none, List, [], ◌∷◌,
  ◌++◌, arith, ◌==◌, if◌then◌else◌, Bool-cases, Result, err, ok, Result-cases, length, Text,
}
use relvo.Data.{Table, Index, Schema}
use relvo.Mysql.Rows.{max_columns}
use relvo.Mysql.Catalog.{
  Cursor, ColumnScan, IndexScan, KeyScan, Metadata, max_metadata, table_of, read_tables,
  mysql_tables, column_of, or_empty, key_of_scan,
}

-- Every row was scanned, and `f` of it is what was kept.
abbrev pub Scanned : {A B : Type 0} → (A → B) → List (Result Text A) → List B → Type 0
Scanned f [] [] = Unit
Scanned f [] (y ∷ ys) = ⊥
Scanned f (err e ∷ scans) ys = ⊥
Scanned f (ok a ∷ scans) [] = ⊥
Scanned f (ok a ∷ scans) (y ∷ ys) = (y ≡ f a) × Scanned f scans ys

-- `out` is what was kept before the loop, and `all` what is kept after it, where the cursor did not
-- fail at its end.
abbrev Extends :
    {A B : Type 0} → (A → B) → List (Result Text A) → Option Text → List B → List B → ℕ → ℕ → Type 0
Extends {A} {B} f scans failure out all count limit =
    (ys : List B) × (all ≡ out ++ ys)
    × Scanned f scans ys
    × (count + length ys ≤ limit)
    × (failure ≡ none)

Extends-cons :
    {A B : Type 0} (f : A → B) (a : A) (scans : List (Result Text A)) (failure : Option Text)
    (out all : List B) (count limit : ℕ)
    → Extends f scans failure (out ++ f a ∷ []) all (count + 1) limit
    → Extends f (ok a ∷ scans) failure out all count limit
Extends-cons f a scans failure out all count limit (ys, e, s, l, n) =
    (f a ∷ ys, e ∙ append_assoc out (f a ∷ []) ys, (refl, s), omega arith, n)

Extends-all :
    {A B : Type 0} (f : A → B) (scans : List (Result Text A)) (failure : Option Text) (all : List B)
    (limit : ℕ)
    → Extends f scans failure [] all 0 limit
    → Scanned f scans all × (length all ≤ limit) × (failure ≡ none)
Extends-all f scans failure all limit (ys, e, s, l, n) =
    let bound : length ys ≤ limit = omega arith in
    subst (λ zs. Scanned f scans zs × (length zs ≤ limit) × (failure ≡ none)) (sym e) (s, bound, n)

read_tables-Extends :
    (count : ℕ) (out all : List Table) (scans : List (Result Text (Text × Text)))
    (failure : Option Text)
    → count ≤ max_metadata
    → read_tables count out scans failure ≡ (all, none)
    → Extends table_of scans failure out all count max_metadata
unfolding read_tables
read_tables-Extends count out all [] failure l h =
    ([], ground (arith, append-nil out), tt, omega arith, ground arith)
read_tables-Extends count out all (err e ∷ scans) failure l h = absurd (ground arith)
read_tables-Extends count out all (ok t ∷ scans) failure l h =
    elim (Bool-cases (count == max_metadata)) [
      | inl full ↦ absurd (ground arith)
      | inr room ↦ Extends-cons table_of t scans failure out all count max_metadata (
          read_tables-Extends (count + 1) (out ++ table_of t ∷ []) all scans failure (ground arith)
            (ground arith))
    ]

-- The indexes of parts, from the last part backwards: adjoining parts of one name are one index, which
-- is unique as its first part says.
abbrev pub join_part : IndexScan → List Index → List Index
join_part p [] = record { name = p.name; columns = or_empty p.column ∷ []; unique = p.unique } ∷ []
join_part p (i ∷ is) =
    if text_eq p.name i.name
    then record { name = p.name; columns = or_empty p.column ∷ i.columns; unique = p.unique } ∷ is
    else record { name = p.name; columns = or_empty p.column ∷ []; unique = p.unique } ∷ i ∷ is

unfoldable pub grouped : List IndexScan → List Index
grouped [] = []
grouped (p ∷ ps) = join_part p (grouped ps)

-- An index before others, of which the first may go on with its parts.
abbrev join_index : Index → List Index → List Index
join_index i [] = i ∷ []
join_index i (j ∷ js) =
    if text_eq i.name j.name then record i { columns = i.columns ++ j.columns } ∷ js else i ∷ j ∷ js

-- What is kept for parts that come behind these indexes.
abbrev regroup : List Index → List Index → List Index
regroup [] later = later
regroup (i ∷ []) later = join_index i later
regroup (i ∷ j ∷ is) later = i ∷ regroup (j ∷ is) later

-- Every row of the indexes was scanned, and these are the indexes of the parts.
abbrev Grouped :
    List (Result Text IndexScan) → Option Text → List Index → List Index → ℕ → ℕ → Type 0
Grouped scans failure out all count limit =
    (ps : List IndexScan) × Scanned (λ p. p) scans ps
    × (all ≡ regroup out (grouped ps))
    × (count + length ps ≤ limit)
    × (failure ≡ none)

-- The list of tables is what the server answered.
pub record WholeTables (m : Metadata) (schema : Text) (ts : List Table) : Type 0 where
  pub cursor : Cursor (Text × Text)
  pub answered : m.tables_of schema ≡ ok cursor
  pub whole : Scanned table_of cursor.scans ts
  pub few : length ts ≤ max_metadata
  pub complete : cursor.failure ≡ none

-- Without an error the cursor of `Tables` did not fail, and it has all tables that the server answered, in order, at most 10000.
pub mysql_tables-Whole :
    (m : Metadata) (schema : Text) (ts : List Table)
    → mysql_tables m schema ≡ (ts, none)
    → WholeTables m schema ts
unfolding mysql_tables
mysql_tables-Whole m schema ts h = elim (Result-cases (m.tables_of schema)) [
  | inr (e, q) ↦ absurd (ground arith)
  | inl (c, q) ↦
      let (s, l, n) =
        Extends-all table_of c.scans c.failure ts max_metadata
          (read_tables-Extends 0 [] ts c.scans c.failure (omega arith) (ground arith)) in
      record { cursor = c; answered = q; whole = s; few = l; complete = n }
]

-- The schema is what the server answered.
pub record WholeSchema (m : Metadata) (schema table : Text) (r : Schema) : Type 0 where
  pub columns : Cursor ColumnScan
  pub columns_answered : m.columns_of schema table ≡ ok columns
  pub columns_whole : Scanned column_of columns.scans r.columns
  pub columns_complete : columns.failure ≡ none
  pub some_columns : 0 < length r.columns
  pub few_columns : length r.columns ≤ max_columns
  pub indexes : Cursor IndexScan
  pub indexes_answered : m.indexes_of schema table ≡ ok indexes
  pub parts : List IndexScan
  pub parts_whole : Scanned (λ p. p) indexes.scans parts
  pub parts_grouped : r.indexes ≡ grouped parts
  pub few_parts : length parts ≤ max_metadata
  pub indexes_complete : indexes.failure ≡ none
  pub keys : Cursor KeyScan
  pub keys_answered : m.keys_of schema table ≡ ok keys
  pub keys_whole : Scanned key_of_scan keys.scans r.foreign_keys
  pub few_keys : length r.foreign_keys ≤ max_metadata
  pub keys_complete : keys.failure ≡ none
