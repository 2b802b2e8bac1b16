-- ===== src/Tui/Update.antt =====
-- internal/tui/model.go: `newModel`, `click` and `Update`, which has all the messages of the screen.
-- The colors of the screen and the sizes of the text fields are not modelled.
pub mod Approves
pub mod Dropped
pub mod Enact
use relvo.Base.{
  text_eq, ℕ, suc, ◌+◌, ◌-◌, max, Bool, false, not, ◌&&◌, ◌||◌, Option, none, some, List, [], ◌∷◌,
  ◌++◌, ltb, ◌==◌, if◌then◌else◌, length, Text, bytes, is_empty, ℤ, pos, pos_part, ◌+ℤ◌, ◌-ℤ◌,
  ltb_ℤ,
}
use relvo.Data.{Snapshot}
use relvo.Tui.Viewport.{sidebar_width, body_height}
use relvo.Tui.Columns.{visible_columns, hidden_columns, last_visible, column_at}
use relvo.Tui.Model.{
  Screen, Model, Effect, quits, cancels, is_form, tables, clamp, close_modal, open_sql,
  show_pending, note, plain, dispatch, accept,
}
use relvo.Tui.Keys.{minus, open_table, sort, still, focused, key}
use relvo.Tui.Dialog.{
  Typing, Button, wheel_left, wheel_right, is_left, is_wheel_up, Input, key_press, mouse_click,
  mouse_wheel, paste, other_input,
}
use relvo.Tui.Dialog.Press.{update_modal}

-- The messages of `Update`; a result has the text of its error.
pub data Message : Type 0 where
  window_size : ℤ → ℤ → Message
  background_color : Message
  event : Snapshot → Bool → Message
  result : Snapshot → Option Text → Message
  setup : Snapshot → Option Text → ℕ → Bool → Message
  input : Input → Message

-- The model of `newModel` before the pending write is shown.
abbrev pub start : Snapshot → Bool → Screen → Model
start s events screen = record {
  snap = s;
  width = 100;
  height = 30;
  focus = 0;
  tab = 0;
  row = pos 0;
  col = pos 0;
  top = 0;
  left = 0;
  table = pos 0;
  table_top = 0;
  search = [];
  g = false;
  row_mode = false;
  structure_top = pos 0;
  modal = [];
  input = [];
  sql = [];
  query_draft = [];
  write_draft = [];
  desired_widths = screen.widths s;
  fields = [];
  form_id = 0;
  setup_busy = false;
  field = 0;
  choice = pos 0;
  step = 0;
  filter = record { column = []; op = []; value = [] };
  modal_top = 0;
  help_search = [];
  help_filtering = false;
  pending = none;
  notice = [];
  listening = events;
}

-- `newModel`, of a backend with this snapshot; `events` says that it has a channel of events.
unfoldable pub new_model : Snapshot → Bool → Screen → Model
new_model s events screen = elim s.pending [
  | none ↦ start s events screen
  | some p ↦ show_pending p (start s events screen)
]

-- `tabLabels`: the widths of the labels.
abbrev tab_widths : List ℕ
tab_widths =
    length (bytes " 1 Data ") ∷ length (bytes " 2 Structure ") ∷ length (bytes " 3 SQL ") ∷ []

-- The tab `tab` or a later one, whose label is at `x`, the first of them starting at `start`.
tab_at : ℤ → ℕ → ℕ → List ℕ → Option ℕ
tab_at x start tab [] = none
tab_at x start tab (w ∷ ws) =
    let rest = tab_at x (start + w) (suc tab) ws in
    if ltb_ℤ x (pos (start + w)) then some tab else rest

click_tabs : Screen → ℤ → Model → Model × List Effect
unfolding tab_at
click_tabs screen x m = elim (tab_at x 0 0 tab_widths) [
  | none ↦ still m
  | some tab ↦
      if tab == 2 then focused (open_sql false m) else still (clamp screen (record m { tab = tab }))
]

-- The part of `click` on the columns.
click_grid : Screen → ℕ → ℤ → ℤ → Model → Model × List Effect
click_grid screen sidebar x y m =
    let (left, right) = hidden_columns m in
    let header = not (ltb_ℤ y (pos 3)) && ltb_ℤ y (pos 4) in
    let body = not (ltb_ℤ y (pos 4)) && ltb_ℤ y (pos (4 + body_height m.height)) in
    let at_left = not (ltb_ℤ x (pos sidebar)) && ltb_ℤ x (pos (sidebar + 1)) in
    let at_right = not (ltb_ℤ x (pos (m.width - 1))) in
    if header && ltb 0 left && at_left
    then still (clamp screen (record m { col = pos (left - 1) }))
    else if header && ltb 0 right && at_right
    then still (clamp screen (record m { col = pos (last_visible m + 1) }))
    else elim (column_at x sidebar (visible_columns m)) [
      | none ↦ still (clamp screen m)
      | some c ↦
          let n = record m { col = pos c } in
          if header
          then sort n
          else if body
          then still (clamp screen (record n { row = pos m.top +ℤ y -ℤ pos 4 }))
          else still (clamp screen n)
    ]

-- The part of `click` on the tables.
click_tables : Screen → ℤ → Model → Model × List Effect
click_tables screen y m =
    let i = m.table_top + pos_part (y -ℤ pos 4) in
    if not (ltb_ℤ y (pos 4))
      && ltb_ℤ y (pos (4 + body_height m.height))
      && ltb i (length (tables screen m))
    then open_table screen (record m { table = pos i })
    else still m

-- `click`. The width of the sidebar is that of the focus before the click.
pub click : Screen → Button → ℤ → ℤ → Model → Model × List Effect
click screen b x y m =
    let sidebar = sidebar_width m.width m.focus in
    let last = not (ltb_ℤ y (pos (m.height - 1))) in
    let divider =
      ltb 0 sidebar
      && ltb sidebar m.width
      && not (ltb_ℤ x (pos (sidebar - 1)))
      && ltb_ℤ x (pos sidebar) in
    let tabs = not (ltb_ℤ y (pos 1)) && ltb_ℤ y (pos 2) in
    let right = record m { focus = 1 } in
    if not (is_left b)
      || ltb_ℤ x (pos 0)
      || not (ltb_ℤ x (pos m.width))
      || ltb_ℤ y (pos 0)
      || not (ltb_ℤ y (pos m.height))
    then still m
    else if last
    then (if ltb_ℤ x (pos 10)
        then dispatch (plain (bytes "prev")) m
        else if ltb_ℤ x (pos 20)
        then dispatch (plain (bytes "next")) m
        else still m)
    else if divider
    then still m
    else if ltb_ℤ x (pos sidebar)
    then click_tables screen y (record m { focus = 0 })
    else if tabs
    then click_tabs screen (x -ℤ pos sidebar) right
    else if not (m.tab == 0)
    then still right
    else click_grid screen sidebar x y right

-- The wheel outside a dialog, before `clamp`.
turn : Button → ℤ → Model → Model
turn wheel_left x m = record m { col = m.col -ℤ pos 1 }
turn wheel_right x m = record m { col = m.col +ℤ pos 1 }
turn b x m =
    let delta = (if is_wheel_up b then minus 3 else pos 3) in
    let sidebar = sidebar_width m.width m.focus in
    if ltb 0 sidebar && ltb_ℤ x (pos sidebar)
    then record m { table = m.table +ℤ delta }
    else if m.tab == 1
    then record m { structure_top = m.structure_top +ℤ delta }
    else record m { row = m.row +ℤ delta }

-- The second `switch` of `Update`, with no dialog open.
pub browse_input : (Text → Text) → Screen → Input → Model → Model × List Effect
browse_input safe screen (key_press k) m = key safe screen k m
browse_input safe screen (mouse_click b x y) m = click screen b x y m
browse_input safe screen (mouse_wheel b x y) m = still (clamp screen (turn b x m))
browse_input safe screen paste m = still m
browse_input safe screen other_input m = still m

abbrev is_interrupt : Input → Bool
is_interrupt (key_press k) = text_eq k (bytes "ctrl+c")
is_interrupt _ = false

-- The message of a setup that has come to its end.
pub finish_setup : (Text → Text) → Screen → Snapshot → Option Text → ℕ → Bool → Model → Model
finish_setup safe screen s error id test m =
    let n = accept screen s m in
    if not (id == n.form_id) || not (is_form n) then n else elim error [
      | some e ↦ record n {
        setup_busy = false;
        notice = bytes "Connection setup failed: " ++ safe e;
      }
      | none ↦
          if test
          then record n {
            setup_busy = false;
            notice = bytes "Connection test succeeded. Draft not saved; Ctrl+s connects.";
          }
          else record (close_modal (record n { setup_busy = false })) {
            notice = bytes "Connected. Profile added in memory only.";
          }
    ]

-- `Update`. The next event is waited for as long as `listening` holds.
unfoldable pub update : (Text → Text) → Screen → ℕ → Typing → Message → Model → Model × List Effect
update safe screen now typing (window_size w h) m =
    still (clamp screen (record m { width = max 1 (pos_part w); height = max 1 (pos_part h) }))
update safe screen now typing background_color m = still m
update safe screen now typing (event s opened) m =
    still (if opened then accept screen s m else record m { listening = false })
update safe screen now typing (result s error) m =
    let n = accept screen s m in
    if ltb s.revision m.snap.revision
    then still m
    else elim error [ none ↦ still n | some e ↦ still (record n { notice = safe e }) ]
update safe screen now typing (setup s error id test) m =
    still (finish_setup safe screen s error id test m)
update safe screen now typing (input i) m =
    if is_interrupt i
    then (if m.snap.busy || m.setup_busy
        then (note (bytes "Cancellation requested") m, cancels ∷ [])
        else (m, quits ∷ []))
    else if not (is_empty m.modal)
    then update_modal safe screen now typing i m
    else browse_input safe screen i m
