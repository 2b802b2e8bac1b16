-- ===== src/Tui/Keys/Examples.antt =====
-- A write on display that is the pending one.
use relvo.Base.{text_eq, ◌≡◌, refl, true, false, some, [], ◌∷◌, bytes, pos}
use relvo.Data.{PendingWrite, Snapshot, no_schema, no_result, fresh_browse}
use relvo.Tui.Model.{Screen, Model, approves, same_pending}
use relvo.Tui.Keys.{key, approval_key}
use relvo.Tui.Keys.Approval.{Harmless, key-Harmless}

abbrev staged : PendingWrite
staged = record {
  id = bytes "00ff";
  connection = bytes "shop";
  database = bytes "shop";
  sql = bytes "delete from orders";
  expires = 300;
}

abbrev shown : Snapshot
shown = record {
  revision = 3;
  connection = [];
  database = [];
  connections = [];
  tables = [];
  schema = no_schema;
  browse = fresh_browse (pos 100);
  result = no_result;
  busy = false;
  error = [];
  status = [];
  query = false;
  pending = some staged;
  writes_enabled = false;
}

abbrev screen : Screen
screen = record {
  widths = λ s. 10 ∷ 10 ∷ [];
  structure_lines = λ s w. 5;
  lower = λ t. t;
  wrapped = λ t w. 1;
  stamp = λ t. [];
}

abbrev model : Model
model = record {
  snap = shown;
  width = 100;
  height = 30;
  focus = 1;
  tab = 0;
  row = pos 9;
  col = pos 4;
  top = 0;
  left = 0;
  table = pos 0;
  table_top = 0;
  search = [];
  g = false;
  row_mode = false;
  structure_top = pos 0;
  modal = bytes "approve";
  input = bytes "approve";
  sql = [];
  query_draft = [];
  write_draft = [];
  desired_widths = 10 ∷ 10 ∷ [];
  fields = [];
  form_id = 0;
  setup_busy = false;
  field = 0;
  choice = pos 0;
  step = 0;
  filter = record { column = []; op = []; value = [] };
  modal_top = 0;
  help_search = [];
  help_filtering = false;
  pending = some staged;
  notice = [];
  listening = true;
}

approve_test : (approval_key 200 (bytes "enter") model).1 ≡ approves (bytes "00ff") ∷ []
unfolding approval_key same_pending text_eq
approve_test = refl

key-Harmless_example : Harmless (key (λ t. t) screen (bytes "r") model).1
key-Harmless_example = key-Harmless (λ t. t) screen (bytes "r") model
