-- ===== src/Tui/Examples.antt =====
-- Screens with a write to approve, with a form, and with a result; and the theorems at them.
use relvo.Base.{
  text_eq, ℕ, ◌+◌, ◌-◌, ◌≤◌, ◌<◌, ◌≡◌, refl, sym, subst, ◌⊎◌, inl, true, false, none, some, List,
  [], ◌∷◌, ◌++◌, arith, if◌then◌else◌, err, ok, length, Text, bytes, pos, pos_part,
}
use relvo.Data.{Value, ResultSet, PendingWrite, no_schema, no_result}
use relvo.App.State.{World, App, start}
use relvo.App.Perform.Frame.{writes}
use relvo.App.Session.Invariant.{Inv}
use relvo.App.Session.History.{run}
use relvo.Tui.Viewport.{grid_width}
use relvo.Tui.Columns.{used_width, visible_columns}
use relvo.Tui.Columns.Fill.{used_width-visible_columns, Drawn, clamp-Drawn}
use relvo.Tui.Panel.{
  panel_width, preferred_height, panel_bounds, panel_body_height, form_rows, row_of,
  form_viewport_start,
}
use relvo.Tui.Model.{
  Screen, Model, approves, is_modal, clamp, close_modal, open_input, show_pending, same_pending,
}
use relvo.Tui.Model.Dropped.{Dropped}
use relvo.Tui.Keys.{approval_key}
use relvo.Tui.Keys.Approval.{Approves}
use relvo.Tui.Dialog.{Typing, key_press}
use relvo.Tui.Dialog.Place.{form_viewport_start_shows}
use relvo.Tui.Dialog.Press.{approve_stage, dialog_key, update_modal}
use relvo.Tui.Update.{Message, input, new_model, update}
use relvo.Tui.Update.Approves.{update-Approves}
use relvo.Tui.Update.Dropped.{session, session-Dropped}
use relvo.Tui.Update.Enact.{calls, update-writes}

abbrev staged : PendingWrite
staged = record {
  id = bytes "00ff";
  connection = [];
  database = [];
  sql = bytes "delete from orders";
  expires = 300;
}

abbrev world : World
world = record {
  open_store = λ t c. ok 1;
  tables = λ t h. ok (record { name = bytes "orders"; kind = bytes "BASE TABLE" } ∷ []);
  schema = λ t h n. ok no_schema;
  browse = λ t h b. ok no_result;
  query = λ t h q. ok no_result;
  execute = λ t h q. ok (record no_result { affected = pos 1 });
  close_store = λ t h. none;
  context_error = λ t. none;
  now = λ t. 0;
  random_text = λ t. bytes "00ff";
  read_env = λ t f. err (bytes "no such file");
  lookup_env = λ t n. none;
}

abbrev app : App
app = record (start true) {
  store = some 1;
  state = record (start true).state { pending = some staged };
}

app-Inv : Inv app
app-Inv = ground arith

abbrev screen : Screen
screen = record {
  widths = λ s. 10 ∷ 20 ∷ [];
  structure_lines = λ s w. 5;
  lower = λ t. t;
  wrapped = λ t w. 1;
  stamp = λ t. [];
}

abbrev typing : Typing
typing = record { line = λ t. t ++ bytes "x"; area = λ t. t; entry = λ t. t ++ bytes "x" }

abbrev safe : Text → Text
safe t = t

abbrev entering : Message
entering = input (key_press (bytes "enter"))

abbrev asked : Model
asked = record (new_model app.state true screen) { input = bytes "approve" }

approves_test : (update safe screen 200 typing entering asked).1 ≡ approves (bytes "00ff") ∷ []
unfolding update update_modal dialog_key approve_stage approval_key new_model show_pending
    open_input close_modal same_pending text_eq
approves_test = refl

asked_pending : asked.snap.pending ≡ app.state.pending
unfolding new_model show_pending open_input close_modal
asked_pending = refl

update-Approves_example :
    (entering ≡ input (key_press (bytes "enter")))
    × (asked.modal ≡ bytes "approve")
    × (asked.input ≡ bytes "approve")
    × ((p : PendingWrite) × (q : PendingWrite) × (asked.pending ≡ some p)
        × (asked.snap.pending ≡ some q)
        × (same_pending q p ≡ true)
        × ((p.expires ≡ 0) ⊎ (200 ≤ p.expires))
        × (p.id ≡ bytes "00ff"))
    × ((update safe screen 200 typing entering asked).1 ≡ approves (bytes "00ff") ∷ [])
update-Approves_example =
    update-Approves safe screen 200 typing entering asked (bytes "00ff")
      (subst (Approves (bytes "00ff")) (sym approves_test) (inl refl))

update-writes_example :
    let b = run world app (calls (update safe screen 200 typing entering asked).1) in
    (writes b.trace ≡ writes app.trace)
    ⊎ ((p : PendingWrite) × (asked.pending ≡ some p)
        × (asked.modal ≡ bytes "approve")
        × (asked.input ≡ bytes "approve")
        × (entering ≡ input (key_press (bytes "enter")))
        × ((h : ℕ) × (app.store ≡ some h) × (writes b.trace ≡ (h, p.sql) ∷ writes app.trace)))
update-writes_example =
    update-writes safe screen 200 typing entering asked world app app-Inv asked_pending

abbrev pressing : Text → ℕ × Typing × Message
pressing k = (0, typing, input (key_press k))

abbrev keys : List (ℕ × Typing × Message)
keys =
    pressing (bytes "n")
    ∷ pressing (bytes "tab")
    ∷ pressing (bytes "x")
    ∷ pressing (bytes "esc")
    ∷ []

session-Dropped_example : Dropped (session safe screen keys (new_model app.state true screen))
session-Dropped_example = session-Dropped safe screen app.state true keys

abbrev cell : Value
cell = record { truncated = false; text = bytes "7"; null = false; binary = false }

abbrev result : ResultSet
result = record no_result { columns = bytes "a" ∷ bytes "b" ∷ []; rows = (cell ∷ cell ∷ []) ∷ [] }

abbrev browsing : Model
browsing = new_model (record (start true).state { result = result }) true screen

two_columns : browsing.left < length browsing.snap.result.columns
unfolding new_model
two_columns = omega arith

used_width-visible_columns_example :
    used_width (visible_columns browsing) ≡ grid_width browsing.width browsing.focus
used_width-visible_columns_example = used_width-visible_columns browsing two_columns

some_rows : 0 < length browsing.snap.result.rows
unfolding new_model
some_rows = omega arith

some_columns : 0 < length browsing.snap.result.columns
unfolding new_model
some_columns = omega arith

clamp-Drawn_example :
    Drawn (pos_part (clamp screen browsing).col) (visible_columns (clamp screen browsing))
clamp-Drawn_example = clamp-Drawn screen browsing some_rows some_columns

abbrev form : Model
form = record browsing {
  modal = bytes "profile";
  fields = [] ∷ bytes "127.0.0.1" ∷ bytes "3306" ∷ [] ∷ [] ∷ [] ∷ bytes "true" ∷ [];
  field = 6;
}

form-body : 0 < panel_body_height form
unfolding panel_body_height panel_bounds panel_width preferred_height new_model text_eq
form-body = omega arith

form-field : form.field < (if is_modal form "env" then 8 else 7)
unfolding text_eq
form-field = omega arith

form_viewport_start_shows_example :
    let rows = form_rows form 60 in
    let top = form_viewport_start form rows in
    (r : ℕ) × (row_of form.field 0 rows ≡ some r)
    × (top ≤ r)
    × (r < top + panel_body_height form)
    × (top ≤ length rows - panel_body_height form)
form_viewport_start_shows_example = form_viewport_start_shows form 60 form-field form-body
