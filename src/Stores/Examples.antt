-- ===== src/Stores/Examples.antt =====
-- A connection is opened, and queried, on a server that answers with one row.
use relvo.Base.{
  is_blank, String, ◌≡◌, refl, true, false, none, some, List, [], ◌∷◌, err, ok, Text, bytes, pos,
}
use relvo.Data.{Profile, Action}
use relvo.App.State.{World, App, add_profile, start, add_all, new}
use relvo.App.Perform.Small.{Small}
use relvo.App.Session.History.{Call, run}
use relvo.Mysql.Rows.{Rows}
use relvo.Mysql.Catalog.{}
use relvo.Mysql.Store.{Server}
use relvo.Stores.{Pool, mysql_world, mysql_world-Small}

abbrev one_row : Rows
one_row = record {
  columns = ok (bytes "n" ∷ []);
  types = ok (bytes "INT" ∷ []);
  scans = ok (some (bytes "1") ∷ []) ∷ [];
  error = none;
  more_results = false;
  last_error = none;
}

abbrev server : Server
server = record {
  metadata = record {
    tables_of =
        λ s. ok (record { scans = ok (bytes "t", bytes "BASE TABLE") ∷ []; failure = none });
    columns_of = λ s t. ok (record { scans = []; failure = none });
    indexes_of = λ s t. ok (record { scans = []; failure = none });
    keys_of = λ s t. ok (record { scans = []; failure = none });
  };
  connector_error = λ s. none;
  ping_error = none;
  select_rows = λ q args. ok one_row;
  conn_error = none;
  begin_error = none;
  query_rows = λ q. ok one_row;
  exec = λ q. ok (pos 1, none);
}

abbrev pool : Pool
pool = record {
  is_ip = λ t. false;
  reach = λ t c. server;
  name = λ t. 1;
  server = λ t h. server;
  database = λ h. bytes "shop";
}

abbrev world : World
world = record {
  open_store = λ t c. err [];
  tables = λ t h. err [];
  schema = λ t h n. err [];
  browse = λ t h b. err [];
  query = λ t h q. err [];
  execute = λ t h q. err [];
  close_store = λ t h. none;
  context_error = λ t. none;
  now = λ t. 0;
  random_text = λ t. bytes "00ff";
  read_env = λ t f. err (bytes "no such file");
  lookup_env = λ t n. none;
}

abbrev profile : Profile
profile = record {
  name = bytes "shop";
  env_file = [];
  mapping = [];
  config = record {
    name = bytes "shop";
    host = bytes "db";
    port = bytes "3306";
    user = bytes "reader";
    password = bytes "secret";
    database = bytes "shop";
    socket = [];
    tls = [];
  };
  password_env = [];
  endpoint = none;
}

abbrev asking : String → Text → Text → Action
asking kind connection sql = record {
  type = bytes kind;
  connection = connection;
  table = [];
  filters = [];
  sort = [];
  desc = false;
  page_size = pos 0;
  sql = sql;
}

abbrev opened_app : App
opened_app = (add_profile (start true) profile).0

opened_new : new true (profile ∷ []) ≡ ok opened_app
unfolding new add_profile add_all is_blank
opened_new = refl

abbrev calls : List Call
calls =
    Call.dispatches (asking "connect" (bytes "shop") [])
    ∷ Call.dispatches (asking "query" [] (bytes "select n from t"))
    ∷ []

mysql_world-Small_example : Small (run (mysql_world pool world) opened_app calls).state
mysql_world-Small_example =
    mysql_world-Small pool world true (profile ∷ []) opened_app calls opened_new
