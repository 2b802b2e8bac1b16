-- ===== src/Mysql/Catalog/Examples.antt =====
-- A table of two columns, with an index of two parts and a foreign key.
use relvo.Base.{text_eq, ◌≡◌, refl, true, none, some, [], ◌∷◌, map, ok, Text, bytes}
use relvo.Mysql.Catalog.{
  ColumnScan, IndexScan, Metadata, read_tables, mysql_tables, read_columns, add_part, read_indexes,
  read_keys, schema_keys, schema_indexes, mysql_schema,
}

abbrev column_scan : Text → ColumnScan
column_scan n = record {
  name = n;
  type = bytes "int";
  nullable = bytes "NO";
  default = none;
  key = [];
  extra = [];
}

abbrev part : Text → IndexScan
part c = record { name = bytes "both"; column = some c; unique = true }

abbrev server : Metadata
server = record {
  tables_of = λ s. ok (record {
    scans = ok (bytes "orders", bytes "BASE TABLE") ∷ ok (bytes "totals", bytes "VIEW") ∷ [];
    failure = none;
  });
  columns_of = λ s t. ok (record {
    scans = ok (column_scan (bytes "a")) ∷ ok (column_scan (bytes "b")) ∷ [];
    failure = none;
  });
  indexes_of = λ s t.
      ok (record { scans = ok (part (bytes "a")) ∷ ok (part (bytes "b")) ∷ []; failure = none });
  keys_of = λ s t. ok (record {
    scans =
        ok (record {
          name = bytes "fk";
          column = bytes "a";
          database = bytes "shop";
          table = bytes "users";
          target = bytes "id";
        })
        ∷ [];
    failure = none;
  });
}

abbrev shop : Text
shop = bytes "shop"

abbrev orders : Text
orders = bytes "orders"

parts_test :
    map (λ i. i.columns) (mysql_schema server shop orders).0.indexes
    ≡ (bytes "a" ∷ bytes "b" ∷ []) ∷ []
unfolding mysql_schema read_columns read_indexes read_keys schema_indexes schema_keys add_part
    text_eq
parts_test = refl

mysql_tables_test : (mysql_tables server shop).1 ≡ none
unfolding mysql_tables read_tables
mysql_tables_test = refl
