-- ===== src/Tui/Model/Examples.antt =====
-- A selection past the end of a result of two rows and two columns.
use relvo.Base.{◌≡◌, refl, true, false, none, [], ◌∷◌, arith, ltb, if◌then◌else◌, bytes, pos}
use relvo.Data.{Value, ResultSet, Snapshot, no_schema, no_result, fresh_browse}
use relvo.Tui.Viewport.{bound}
use relvo.Tui.Model.{Screen, Model, clamp, accept}
use relvo.Tui.Model.Newest.{accept-snap}
use relvo.Tui.Model.Clamped.{Shows, clamp-Shows}

abbrev cell : Value
cell = record { truncated = false; text = bytes "7"; null = false; binary = false }

abbrev rows : ResultSet
rows = record no_result {
  columns = bytes "a" ∷ bytes "b" ∷ [];
  rows = (cell ∷ cell ∷ []) ∷ (cell ∷ cell ∷ []) ∷ [];
}

abbrev shown : Snapshot
shown = record {
  revision = 3;
  connection = [];
  database = [];
  connections = [];
  tables = [];
  schema = no_schema;
  browse = fresh_browse (pos 100);
  result = rows;
  busy = false;
  error = [];
  status = [];
  query = false;
  pending = none;
  writes_enabled = false;
}

abbrev screen : Screen
screen = record {
  widths = λ s. 10 ∷ 10 ∷ [];
  structure_lines = λ s w. 5;
  lower = λ t. t;
  wrapped = λ t w. 1;
  stamp = λ t. [];
}

abbrev model : Model
model = record {
  snap = shown;
  width = 100;
  height = 30;
  focus = 1;
  tab = 0;
  row = pos 9;
  col = pos 4;
  top = 0;
  left = 0;
  table = pos 0;
  table_top = 0;
  search = [];
  g = false;
  row_mode = false;
  structure_top = pos 0;
  modal = [];
  input = [];
  sql = [];
  query_draft = [];
  write_draft = [];
  desired_widths = 10 ∷ 10 ∷ [];
  fields = [];
  form_id = 0;
  setup_busy = false;
  field = 0;
  choice = pos 0;
  step = 0;
  filter = record { column = []; op = []; value = [] };
  modal_top = 0;
  help_search = [];
  help_filtering = false;
  pending = none;
  notice = [];
  listening = true;
}

clamp_test : (clamp screen model).row ≡ pos 1
unfolding clamp bound
clamp_test = refl

clamp-Shows_example : Shows screen (clamp screen model)
clamp-Shows_example = clamp-Shows screen model (omega arith) (omega arith)

abbrev stale : Snapshot
stale = record shown { revision = 2; connection = bytes "old" }

accept-snap_example :
    (accept screen stale model).snap
    ≡ (if ltb stale.revision model.snap.revision then model.snap else stale)
accept-snap_example = accept-snap screen stale model
