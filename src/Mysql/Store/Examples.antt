-- ===== src/Mysql/Store/Examples.antt =====
-- A server that answers, and one in which a transaction does not begin.
use relvo.Base.{is_blank, ◌≡◌, refl, false, none, some, [], ◌∷◌, err, ok, bytes, pos}
use relvo.Data.{BrowseRequest, fresh_browse}
use relvo.Mysql.Guard.{validate_query}
use relvo.Mysql.Rows.{Rows}
use relvo.Mysql.Rows.Bounds.{IsBounded}
use relvo.Mysql.Store.{
  acquired, discarded, released, executed_raw, Server, mysql_browse, mysql_query, mysql_execute,
}
use relvo.Mysql.Store.Sessions.{outside, Obeys, Never, mysql_query-Obeys}
use relvo.Mysql.Store.Contract.{mysql_browse-IsBounded}

abbrev numbers : Rows
numbers = record {
  columns = ok (bytes "n" ∷ []);
  types = ok (bytes "INT" ∷ []);
  scans = ok (some (bytes "1") ∷ []) ∷ [];
  error = none;
  more_results = false;
  last_error = none;
}

abbrev server : Server
server = record {
  metadata = record {
    tables_of = λ s. err (bytes "none");
    columns_of = λ s t. ok (record {
      scans =
          ok (record {
            name = bytes "n";
            type = bytes "int";
            nullable = bytes "NO";
            default = none;
            key = bytes "PRI";
            extra = [];
          })
          ∷ [];
      failure = none;
    });
    indexes_of = λ s t. ok (record { scans = []; failure = none });
    keys_of = λ s t. ok (record { scans = []; failure = none });
  };
  connector_error = λ s. none;
  ping_error = none;
  select_rows = λ q args. ok numbers;
  conn_error = none;
  begin_error = none;
  query_rows = λ q. ok numbers;
  exec = λ q. ok (pos 1, none);
}

abbrev failing : Server
failing = record server { begin_error = some (bytes "read only transactions are not supported") }

abbrev page : BrowseRequest
page = record (fresh_browse (pos 100)) { table = bytes "t" }

sent_test :
    (mysql_execute server (bytes "delete from t")).0
    ≡ acquired ∷ executed_raw (bytes "delete from t") ∷ discarded ∷ released ∷ []
unfolding mysql_execute is_blank
sent_test = refl

mysql_query-Obeys_example :
    Obeys
      (λ t. (t ≡ bytes "select n from t") × (validate_query t ≡ ok tt))
      Never
      outside
      (mysql_query failing (bytes "select n from t")).0
mysql_query-Obeys_example = mysql_query-Obeys failing (bytes "select n from t")

mysql_browse-IsBounded_example : IsBounded 100 (mysql_browse server (bytes "shop") page).0
mysql_browse-IsBounded_example = mysql_browse-IsBounded server (bytes "shop") page
