-- ===== src/Demo/Browse/Examples.antt =====
-- A page of three rows of two columns, filtered and sorted; numbers are decimal.
use relvo.Base.{
  text_eq, ℕ, ◌+◌, ◌-◌, ◌*◌, ◌≡◌, refl, true, false, ◌&&◌, Option, none, some, List, [], ◌∷◌, arith,
  ltb, leb, if◌then◌else◌, Text, bytes, pos,
}
use relvo.Data.{Column, Value, BrowseRequest, ResultSet, no_schema, no_result, fresh_browse}
use relvo.Demo.Outcome.{returns, index}
use relvo.Demo.Compare.{
  Sign, below, same, above, flip, Rationals, numeric, compare_text, compare_numbers, compare_values,
}
use relvo.Demo.Browse.{
  DemoTable, DemoStore, Context, check, seeded_table, position, test_of, typed, sort_position,
  insert_row, sort_rows, demo_notice, page_of, before, check_filter, check_filters, pass,
  row_matches, keep_rows, by_first, compare_rows, goes_before, selected_rows, browse_demo,
}
use relvo.Demo.Browse.Pages.{Page, browse_demo-Page}

abbrev digits : ℕ → Text → Option ℕ
digits n [] = some n
digits n (c ∷ s) = if leb 48 c && leb c 57 then digits (n * 10 + (c - 48)) s else none

abbrev order : ℕ → ℕ → Sign
order x y = if ltb x y then below else if ltb y x then above else same

order-flip : (x y : ℕ) → order y x ≡ flip (order x y)
order-flip x y = ground arith

abbrev decimals : Rationals ℕ
decimals = record { set_string = digits 0; cmp = order; cmp_flip = order-flip }

abbrev column : Text → Text → Column
column n t = record { name = n; type = t; nullable = false; default = none; key = []; extra = [] }

abbrev row : Text → Text → List Value
row i n = typed i ∷ typed n ∷ []

abbrev users : DemoTable
users = record {
  schema = record no_schema {
    columns = column (bytes "id") (bytes "int") ∷ column (bytes "name") (bytes "text") ∷ [];
  };
  rows =
      row (bytes "1") (bytes "b") ∷ row (bytes "2") (bytes "a") ∷ row (bytes "10") (bytes "c") ∷ [];
}

abbrev seeded : DemoStore
seeded = record { tables = (bytes "users", users) ∷ []; closed = false }

abbrev large : BrowseRequest
large = record (fresh_browse (pos 1)) {
  table = bytes "users";
  filters = record { column = bytes "id"; op = bytes "gt"; value = bytes "1" } ∷ [];
  sort = bytes "name";
  desc = true;
}

abbrev running : Context
running n = none

abbrev large_page : ResultSet
large_page = record no_result {
  columns = bytes "id" ∷ bytes "name" ∷ [];
  rows = row (bytes "10") (bytes "c") ∷ [];
  has_more = true;
  notice = demo_notice;
}

browse_demo_test : browse_demo decimals running seeded large ≡ returns large_page
unfolding browse_demo check seeded_table selected_rows sort_position position check_filters
    check_filter keep_rows row_matches pass test_of sort_rows insert_row goes_before compare_rows
    by_first before page_of compare_values compare_numbers compare_text numeric index text_eq
browse_demo_test = refl

browse_demo-Page_example : Page decimals seeded large large_page
browse_demo-Page_example =
    browse_demo-Page decimals running seeded large large_page browse_demo_test
