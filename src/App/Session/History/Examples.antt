-- ===== src/App/Session/History/Examples.antt =====
-- A history of calls: a connection is opened, a write is staged, and the theorems hold of it.
use relvo.Base.{
  text_eq, is_blank, String, ◌≡◌, refl, ◌⊎◌, true, false, none, List, [], ◌∷◌, arith, ok, err, Text,
  bytes, pos,
}
use relvo.Data.{Config, Profile, Action, no_schema, no_result, kind_of}
use relvo.Connections.Resolve.{resolve}
use relvo.App.State.{World, App, add_profile, start, add_all, new, begin, finish}
use relvo.App.Perform.{
  has_table, browse, leave, enter, connect_profile, find_profile, stage, act, perform,
}
use relvo.App.Perform.Frame.{writes, Carries, ViewsPaged, Performed, perform-Performed}
use relvo.App.Session.{
  dispatch, setup, matches, reload, show_outcome, after_write, execute_write, approve_begun,
  approve,
}
use relvo.App.Session.Invariant.{Inv, new-Inv}
use relvo.App.Session.Writes.{dispatch-writes, setup-writes, Approved, approve-writes}
use relvo.App.Session.History.Unapproved.{run-Unapproved}
use relvo.App.Session.History.Available.{run-Available}
use relvo.App.Session.History.{Call, step, run, run-new-Inv}

abbrev shop : Config
shop = record {
  name = bytes "shop";
  host = bytes "db";
  port = bytes "3306";
  user = bytes "reader";
  password = bytes "secret";
  database = bytes "shop";
  socket = [];
  tls = [];
}

abbrev profile : Profile
profile = record {
  name = bytes "shop";
  env_file = [];
  mapping = [];
  config = shop;
  password_env = [];
  endpoint = none;
}

abbrev world : World
world = record {
  open_store = λ t c. ok 1;
  tables = λ t h. ok (record { name = bytes "orders"; kind = bytes "BASE TABLE" } ∷ []);
  schema = λ t h n. ok no_schema;
  browse = λ t h b. ok no_result;
  query = λ t h q. ok no_result;
  execute = λ t h q. ok (record no_result { affected = pos 1 });
  close_store = λ t h. none;
  context_error = λ t. none;
  now = λ t. 0;
  random_text = λ t. bytes "00ff";
  read_env = λ t f. err (bytes "no such file");
  lookup_env = λ t n. none;
}

abbrev request : String → Text → Text → Action
request kind connection sql = record {
  type = bytes kind;
  connection = connection;
  table = [];
  filters = [];
  sort = [];
  desc = false;
  page_size = pos 0;
  sql = sql;
}

abbrev connecting : Action
connecting = request "connect" (bytes "shop") []

abbrev writing : Action
writing = request "write" [] (bytes "delete from orders")

abbrev opened_app : App
opened_app = (add_profile (start true) profile).0

abbrev calls : List Call
calls = Call.dispatches connecting ∷ Call.dispatches writing ∷ []

abbrev staged : App
staged = run world opened_app calls

opened_new : new true (profile ∷ []) ≡ ok opened_app
unfolding new add_profile add_all is_blank
opened_new = refl

opened-Inv : Inv opened_app
opened-Inv = new-Inv true (profile ∷ []) opened_app opened_new

staged-Inv : Inv staged
staged-Inv = run-new-Inv world true (profile ∷ []) opened_app calls opened_new

approved_test :
    writes (approve world staged (bytes "00ff")).0.trace ≡ (1, bytes "delete from orders") ∷ []
unfolding approve add_profile is_blank text_eq begin run step dispatch kind_of finish perform
    find_profile connect_profile resolve enter act approve_begun matches execute_write after_write
    show_outcome browse has_table leave stage reload
approved_test = refl

run-new-Inv_example : Inv (run world opened_app calls)
run-new-Inv_example = run-new-Inv world true (profile ∷ []) opened_app calls opened_new

approve-writes_example :
    let b = (approve world staged (bytes "00ff")).0 in
    (writes b.trace ≡ writes staged.trace) ⊎ Approved world staged b (bytes "00ff")
approve-writes_example = approve-writes world staged (bytes "00ff") staged-Inv

dispatch-writes_example : writes (dispatch world staged writing).0.trace ≡ writes staged.trace
dispatch-writes_example = dispatch-writes world staged writing staged-Inv

setup-writes_example : writes (setup world staged profile true).0.trace ≡ writes staged.trace
setup-writes_example = setup-writes world staged profile true staged-Inv

opened-Carries : Carries opened_app.state opened_app opened_app.state
unfolding add_profile is_blank
opened-Carries = ground arith

opened-ViewsPaged : ViewsPaged opened_app.views
unfolding add_profile is_blank
opened-ViewsPaged = tt

perform-Performed_example :
    Performed opened_app opened_app.state (perform world opened_app opened_app.state connecting)
perform-Performed_example =
    perform-Performed world opened_app opened_app.state connecting opened-Carries opened-ViewsPaged

run-Unapproved_example : writes (run world opened_app calls).trace ≡ []
run-Unapproved_example = run-Unapproved world true (profile ∷ []) opened_app calls opened_new tt

staged-open : staged.closed ≡ false
unfolding add_profile is_blank text_eq begin run step dispatch kind_of finish perform find_profile
    connect_profile resolve enter act browse has_table leave stage
staged-open = refl

run-Available_example :
    (staged.op_held ≡ false) × ((begin staged).2 ≡ none) × ((begin staged).0.cancel ≡ true)
run-Available_example =
    run-Available world true (profile ∷ []) opened_app calls opened_new staged-open
