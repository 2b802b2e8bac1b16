-- ===== src/Mysql/Catalog.antt =====
-- internal/database/mysql/mysql.go: `Tables` and `Schema`. What the server answers, through
-- database/sql and the driver, is the argument `Metadata`. Timeouts are answers like any other.
mod Examples
pub mod Whole
use relvo.Base.{
  text_eq, ℕ, ◌+◌, Bool, Option, none, some, List, [], ◌∷◌, ◌++◌, ltb, ◌==◌, if◌then◌else◌, Result,
  err, ok, Text, bytes,
}
use relvo.Data.{Table, Column, Index, ForeignKey, Schema, no_schema}
use relvo.Mysql.Rows.{max_columns}

-- `*sql.Rows` where each row is scanned into the same variables: what `Scan` answers for each row,
-- and `Err` at the end.
pub record Cursor (A : Type 0) : Type 0 where
  pub scans : List (Result Text A)
  pub failure : Option Text

pub record ColumnScan : Type 0 where
  pub name : Text
  pub type : Text
  pub nullable : Text
  pub default : Option Text
  pub key : Text
  pub extra : Text

-- The column of an index part that is an expression is NULL.
pub record IndexScan : Type 0 where
  pub name : Text
  pub column : Option Text
  pub unique : Bool

pub record KeyScan : Type 0 where
  pub name : Text
  pub column : Text
  pub database : Text
  pub table : Text
  pub target : Text

-- The answers to the queries of information_schema, by schema and table.
pub record Metadata : Type 0 where
  pub tables_of : Text → Result Text (Cursor (Text × Text))
  pub columns_of : Text → Text → Result Text (Cursor ColumnScan)
  pub indexes_of : Text → Text → Result Text (Cursor IndexScan)
  pub keys_of : Text → Text → Result Text (Cursor KeyScan)

abbrev pub max_metadata : ℕ
max_metadata = 10000

abbrev pub table_of : Text × Text → Table
table_of (name, kind) = record { name = name; kind = kind }

-- The loop of `Tables`: the tables so far, and the error.
pub read_tables :
    ℕ → List Table → List (Result Text (Text × Text)) → Option Text → List Table × Option Text
read_tables count out [] failure = (out, failure)
read_tables count out (scan ∷ scans) failure =
    let next =
      λ (t : Text × Text). read_tables (count + 1) (out ++ table_of t ∷ []) scans failure in
    if count == max_metadata
    then ([], some (bytes "too many tables"))
    else elim scan [ err e ↦ ([], some e) | ok t ↦ next t ]

-- `Tables`
pub mysql_tables : Metadata → Text → List Table × Option Text
unfolding read_tables
mysql_tables s schema = elim (s.tables_of schema) [
  | err e ↦ ([], some e)
  | ok c ↦ read_tables 0 [] c.scans c.failure
]

abbrev pub column_of : ColumnScan → Column
column_of c = record {
  name = c.name;
  type = c.type;
  nullable = text_eq c.nullable (bytes "YES");
  default = c.default;
  key = c.key;
  extra = c.extra;
}

-- The first loop of `Schema`.
pub read_columns :
    ℕ → List Column → List (Result Text ColumnScan) → Option Text → List Column × Option Text
read_columns count out [] failure = (out, failure)
read_columns count out (err e ∷ scans) failure = (out, some e)
read_columns count out (ok c ∷ scans) failure =
    let rest = read_columns (count + 1) (out ++ column_of c ∷ []) scans failure in
    if ltb max_columns (count + 1)
    then (out ++ column_of c ∷ [], some (bytes "too many columns"))
    else rest

-- The empty name stands for a part that is an expression (`column.String`).
abbrev pub or_empty : Option Text → Text
or_empty none = []
or_empty (some c) = c

abbrev new_index : IndexScan → Index
new_index p = record { name = p.name; columns = or_empty p.column ∷ []; unique = p.unique }

-- A part of an index goes to the last index if that has its name, and to a new one otherwise.
pub add_part : List Index → IndexScan → List Index
add_part [] p = new_index p ∷ []
add_part (i ∷ []) p =
    if text_eq i.name p.name
    then record i { columns = i.columns ++ or_empty p.column ∷ [] } ∷ []
    else i ∷ new_index p ∷ []
add_part (i ∷ j ∷ is) p = i ∷ add_part (j ∷ is) p

-- The second loop of `Schema`.
pub read_indexes :
    ℕ → List Index → List (Result Text IndexScan) → Option Text → List Index × Option Text
unfolding add_part
read_indexes count out [] failure = (out, failure)
read_indexes count out (scan ∷ scans) failure =
    let next = λ (p : IndexScan). read_indexes (count + 1) (add_part out p) scans failure in
    if ltb max_metadata (count + 1)
    then (out, some (bytes "too many index entries"))
    else elim scan [ err e ↦ (out, some e) | ok p ↦ next p ]

abbrev pub key_of_scan : KeyScan → ForeignKey
key_of_scan k = record {
  database = k.database;
  name = k.name;
  column = k.column;
  table = k.table;
  target = k.target;
}

-- The third loop of `Schema`.
pub read_keys :
    ℕ → List ForeignKey → List (Result Text KeyScan) → Option Text → List ForeignKey × Option Text
read_keys count out [] failure = (out, failure)
read_keys count out (scan ∷ scans) failure =
    let next = λ (k : KeyScan). read_keys (count + 1) (out ++ key_of_scan k ∷ []) scans failure in
    if count == max_metadata
    then (out, some (bytes "too many foreign keys"))
    else elim scan [ err e ↦ (out, some e) | ok k ↦ next k ]

-- `Schema`, loop by loop: what was read so far, and the error.
pub schema_keys : Metadata → Text → Text → Schema → Schema × Option Text
unfolding read_keys
schema_keys m schema table r = elim (m.keys_of schema table) [
  | err e ↦ (r, some e)
  | ok c ↦ let (ks, e) = read_keys 0 [] c.scans c.failure in (record r { foreign_keys = ks }, e)
]

pub schema_indexes : Metadata → Text → Text → Schema → Schema × Option Text
unfolding read_indexes
schema_indexes m schema table r = elim (m.indexes_of schema table) [
  | err e ↦ (r, some e)
  | ok c ↦
      let (is, e) = read_indexes 0 [] c.scans c.failure in
      let t = record r { indexes = is } in
      elim e [ some x ↦ (t, some x) | none ↦ schema_keys m schema table t ]
]

pub mysql_schema : Metadata → Text → Text → Schema × Option Text
unfolding read_columns
mysql_schema m schema table = elim (m.columns_of schema table) [
  | err e ↦ (no_schema, some e)
  | ok c ↦
      let (cs, e) = read_columns 0 [] c.scans c.failure in
      let r = record no_schema { columns = cs } in
      elim e [
        | some x ↦ (r, some x)
        | none ↦ elim cs [
          | [] ↦ (r, some (bytes "table " ++ table ++ bytes " not found or not accessible"))
          | c ∷ more ↦ schema_indexes m schema table r
        ]
      ]
]
