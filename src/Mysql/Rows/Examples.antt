-- ===== src/Mysql/Rows/Examples.antt =====
-- A result of more rows than were asked for.
use relvo.Base.{text_eq, ◌≡◌, refl, false, none, some, [], ◌∷◌, ok, length, bytes}
use relvo.Mysql.Rows.{
  is_valid, is_binary_type, cut, value, Rows, row_values, read_rows, finish_rows, collect,
}
use relvo.Mysql.Rows.Bounds.{IsBounded, collect-IsBounded}

abbrev numbers : Rows
numbers = record {
  columns = ok (bytes "n" ∷ []);
  types = ok (bytes "INT" ∷ []);
  scans = ok (some (bytes "1") ∷ []) ∷ ok (none ∷ []) ∷ ok (some (bytes "3") ∷ []) ∷ [];
  error = none;
  more_results = false;
  last_error = none;
}

limit_test : length (collect numbers 2).0.rows ≡ 2
unfolding collect finish_rows read_rows row_values value is_binary_type text_eq is_valid cut
limit_test = refl

collect-IsBounded_example : IsBounded 2 (collect numbers 2).0
collect-IsBounded_example = collect-IsBounded numbers 2
