-- ===== src/Mysql/Guard/Examples.antt =====
-- Runs of `validateQuery`, and its theorems at them.
use relvo.Base.{text_eq, is_blank, ◌≤◌, ◌≡◌, refl, ◌≢◌, ◌↔◌, List, ok, err, length, Text, bytes}
use relvo.Mysql.Guard.{
  several, forbidden, out_of_fuel, class_of, skip_quoted, take_word, tokens, check_words,
  max_result_bytes, validate_query,
}
use relvo.Mysql.Guard.Lexing.{Lexed}
use relvo.Mysql.Guard.Decides.{Reads, validate_query_iff, validate_query_total}

select_test : validate_query (bytes "select `a``b` from t where x = 'drop' ; ") ≡ ok tt
unfolding validate_query tokens class_of skip_quoted take_word check_words text_eq is_blank
select_test = refl

drop_test : validate_query (bytes "SELECT 1 into outfile") ≡ err (forbidden (bytes "INTO"))
unfolding validate_query tokens class_of skip_quoted take_word check_words text_eq is_blank
drop_test = refl

abbrev harmless : Text
harmless = bytes "select `a``b` from t where x = 'drop' ; "

abbrev two_statements : Text
two_statements = bytes "select 1; drop table t"

refused_test : validate_query two_statements ≡ err several
unfolding validate_query tokens class_of skip_quoted take_word check_words text_eq is_blank
refused_test = refl

validate_query_iff_example :
    (validate_query harmless ≡ ok tt)
    ↔ ((length harmless ≤ max_result_bytes) × ((ts : List Text) × Lexed harmless ts × Reads ts))
validate_query_iff_example = validate_query_iff harmless

validate_query_total_example : validate_query two_statements ≢ err out_of_fuel
validate_query_total_example = validate_query_total two_statements
