-- ===== src/Mysql/Statement/Examples.antt =====
-- Statements that are built, and the theorems at them.
use relvo.Base.{
  text_eq, String, ◌≡◌, refl, true, false, none, some, [], ◌∷◌, ◌++◌, arith, ok, Text, bytes, pos,
}
use relvo.Data.{Column, Schema, BrowseRequest}
use relvo.Mysql.Statement.{
  quote, Argument, Statement, is_column, clause, clauses, select, order_by, browse_sql,
}
use relvo.Mysql.Statement.Quoting.{read_name, read_name-quote}
use relvo.Mysql.Statement.Injection.{browse_sql_text}

abbrev column : String → String → Column
column n k = record {
  name = bytes n;
  type = bytes "int";
  nullable = false;
  default = none;
  key = bytes k;
  extra = [];
}

abbrev meta : Schema
meta = record {
  columns = column "id" "PRI" ∷ column "a`b" "" ∷ [];
  indexes = record { name = bytes "PRIMARY"; columns = bytes "id" ∷ []; unique = true } ∷ [];
  foreign_keys = [];
}

abbrev asking : Text → BrowseRequest
asking v = record {
  table = bytes "orders";
  filters = record { column = bytes "a`b"; op = bytes "eq"; value = v } ∷ [];
  sort = bytes "id";
  desc = false;
  limit = pos 100;
  offset = pos 0;
}

abbrev built : Text → Statement
built v = record {
  sql =
      bytes
        "SELECT `id`, `a``b` FROM `shop`.`orders` WHERE `a``b` = ? ORDER BY `id` ASC LIMIT ? OFFSET ?";
  arguments = Argument.text v ∷ Argument.number (pos 101) ∷ Argument.number (pos 0) ∷ [];
  notice = bytes "Offset pagination may shift when data changes.";
}

abbrev hostile : Text
hostile = bytes "1; drop table orders"

built_one : browse_sql (bytes "shop") (asking (bytes "1")) meta ≡ ok (built (bytes "1"))
unfolding browse_sql clauses clause select order_by is_column quote text_eq
built_one = refl

built-hostile : browse_sql (bytes "shop") (asking hostile) meta ≡ ok (built hostile)
unfolding browse_sql clauses clause select order_by is_column quote text_eq
built-hostile = refl

read_name-quote_example :
    read_name (quote (bytes "a`b") ++ bytes " = ?") ≡ some (bytes "a`b", bytes " = ?")
read_name-quote_example = read_name-quote (bytes "a`b") (bytes " = ?") (omega arith)

browse_sql_text_example : (built (bytes "1")).sql ≡ (built hostile).sql
browse_sql_text_example =
    browse_sql_text (bytes "shop") (asking (bytes "1")) (asking hostile) meta (built (bytes "1"))
      (built hostile) refl refl refl ((refl, refl), tt) built_one built-hostile
