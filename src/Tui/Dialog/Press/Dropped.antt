-- ===== src/Tui/Dialog/Press/Dropped.antt =====
-- The messages to a dialog keep the fields of a form only while it is open.
use relvo.Base.{
  text_eq, ℕ, ◌+◌, ◌≡◌, inl, inr, true, Option, none, some, arith, if◌then◌else◌, Option-cases,
  length, get_elem?, Text, bytes, ℤ, pos, pos_part, ◌-ℤ◌,
}
use relvo.Tui.Viewport.{bound}
use relvo.Tui.Model.{Screen, Model, is_modal, is_form, close_modal, plain}
use relvo.Tui.Model.Dropped.{Dropped, close_modal-Bare, clamp-Bare, dispatch-Bare}
use relvo.Tui.Keys.Dropped.{
  key-Dropped, submit_filter-Bare, submit_profile_lem, approval_key-Dropped,
}
use relvo.Tui.Panel.{panel_bounds, field_at_row}
use relvo.Tui.Dialog.{
  Typing, Input, key_press, mouse_click, mouse_wheel, paste, other_input, commands, choices,
  scroll_modal, click_help, click_panel, search_key, scroll_key,
}
use relvo.Tui.Dialog.Press.{
  Answer, approve_stage, sql_stage, form_stage, find_command, run_command, filter_choice,
  take_choice, choice_stage, edit_stage, filter_stage, find_stage, entry_key, dialog_key,
  update_modal,
}

abbrev DroppedIf : Option Answer → Type 0
DroppedIf none = Unit
DroppedIf (some r) = Dropped r.0

scroll_modal-Dropped :
    (screen : Screen) (d : ℤ) (m : Model) → Dropped m → Dropped (scroll_modal screen d m)
unfolding scroll_modal
scroll_modal-Dropped screen d m h = h

scroll_key-Dropped :
    (screen : Screen) (k : Text) (m : Model) → Dropped m → Dropped (scroll_key screen k m)
unfolding scroll_key scroll_modal
scroll_key-Dropped screen k m h = ground arith

search_key-Dropped :
    (typing : Typing) (k : Text) (m : Model) → Dropped m → Dropped (search_key typing k m).0
unfolding search_key
search_key-Dropped typing k m h = ground arith

click_help-Dropped :
    (screen : Screen) (x y : ℤ) (m : Model) → Dropped m → Dropped (click_help screen x y m).0
unfolding click_help
click_help-Dropped screen x y m h = ground (arith, close_modal-Bare m h)

click_panel-Dropped : (x y : ℤ) (m : Model) → Dropped m → Dropped (click_panel x y m).0
unfolding click_panel
click_panel-Dropped x y m h =
    let c = close_modal-Bare m h in
    elim (Option-cases (field_at_row m (pos_part (y -ℤ pos ((panel_bounds m).y + 4))))) [
      | inl e ↦ ground arith
      | inr (i, e) ↦ ground arith
    ]

approve_stage-Dropped :
    (screen : Screen) (now : ℕ) (k : Text) (m : Model)
    → Dropped m
    → DroppedIf (approve_stage screen now k m)
unfolding approve_stage scroll_modal
approve_stage-Dropped screen now k m h = ground (arith, approval_key-Dropped now k m h)

sql_stage-Dropped :
    (typing : Typing) (k : Text) (m : Model) → Dropped m → Dropped (sql_stage typing k m).0
unfolding sql_stage
sql_stage-Dropped typing k m h = ground (
  arith,
  dispatch-Bare
      (record (plain (if is_modal m "write" then bytes "write" else bytes "query")) { sql = m.sql })
      (record (close_modal m) { focus = 1; tab = 0 }) (close_modal-Bare m h),
)

form_stage-Dropped : (k : Text) (m : Model) → is_form m ≡ true → DroppedIf (form_stage k m)
unfolding form_stage
form_stage-Dropped k m h = ground (arith, submit_profile_lem (text_eq k (bytes "ctrl+t")) m h)

run_command-Dropped :
    (safe : Text → Text) (screen : Screen) (name : Text) (m : Model)
    → Dropped m
    → Dropped (run_command safe screen name m).0
unfolding run_command
run_command-Dropped safe screen name m h =
    let c = close_modal-Bare m h in
    elim (Option-cases (find_command name commands)) [
      | inl e ↦ rw (e, run_command) (inr c)
      | inr (k, e) ↦ rw (e, run_command) (key-Dropped safe screen k _ c)
    ]

filter_choice-Dropped :
    (selected : Text) (m : Model) → Dropped m → Dropped (filter_choice selected m).0
unfolding filter_choice
filter_choice-Dropped selected m h = ground (
  arith,
  submit_filter-Bare (record m { filter = record m.filter { op = selected }; step = 2 }) h,
)

take_choice-Dropped :
    (safe : Text → Text) (screen : Screen) (k selected : Text) (m : Model)
    → Dropped m
    → DroppedIf (take_choice safe screen k selected m)
unfolding take_choice
take_choice-Dropped safe screen k selected m h = ground (
  arith,
  run_command-Dropped safe screen selected m h,
  filter_choice-Dropped selected m h,
  dispatch-Bare
      (record (plain (if text_eq k (bytes "enter") then bytes "connect" else bytes "test")) {
        connection = selected;
      })
      (close_modal m) (close_modal-Bare m h),
)

choice_stage-Dropped :
    (safe : Text → Text) (screen : Screen) (k : Text) (m : Model)
    → Dropped m
    → DroppedIf (choice_stage safe screen k m)
unfolding choice_stage
choice_stage-Dropped safe screen k m h =
    let at = bound m.choice (length (choices screen m)) in
    elim (Option-cases (get_elem? (choices screen m) at)) [
      | inl e ↦ ground arith
      | inr (s, e) ↦
          ground (arith, take_choice-Dropped safe screen k s (record m { choice = pos at }) h)
    ]

edit_stage-Dropped : (typing : Typing) (m : Model) → Dropped m → Dropped (edit_stage typing m).0
unfolding edit_stage
edit_stage-Dropped typing m h = ground arith

filter_stage-Dropped :
    (typing : Typing) (k : Text) (m : Model) → Dropped m → Dropped (filter_stage typing k m).0
unfolding filter_stage
filter_stage-Dropped typing k m h = ground (
  arith,
  edit_stage-Dropped typing m h,
  submit_filter-Bare (record m { filter = record m.filter { value = m.input } }) h,
)

find_stage-Dropped : (screen : Screen) (m : Model) → Dropped m → Dropped (find_stage screen m).0
unfolding find_stage
find_stage-Dropped screen m h =
    let n : Model = record m { search = m.input; table = pos 0; table_top = 0 } in
    inr (clamp-Bare screen (close_modal n) (close_modal-Bare n h))

entry_key-Dropped :
    (safe : Text → Text) (screen : Screen) (typing : Typing) (k : Text) (m : Model)
    → Dropped m
    → Dropped (entry_key safe screen typing k m).0
unfolding entry_key
entry_key-Dropped safe screen typing k m h = ground (
  arith,
  form_stage-Dropped k m,
  find_stage-Dropped screen m h,
  choice_stage-Dropped safe screen k m h,
  filter_stage-Dropped typing k m h,
)

dialog_key-Dropped :
    (safe : Text → Text) (screen : Screen) (now : ℕ) (typing : Typing) (k : Text) (m : Model)
    → Dropped m
    → Dropped (dialog_key safe screen now typing k m).0
unfolding dialog_key
dialog_key-Dropped safe screen now typing k m h = ground (
  arith,
  close_modal-Bare m h,
  search_key-Dropped typing k m h,
  scroll_key-Dropped screen k m h,
  approve_stage-Dropped screen now k m h,
  sql_stage-Dropped typing k m h,
  entry_key-Dropped safe screen typing k m h,
)

pub update_modal-Dropped :
    (safe : Text → Text) (screen : Screen) (now : ℕ) (typing : Typing) (i : Input) (m : Model)
    → Dropped m
    → Dropped (update_modal safe screen now typing i m).0
unfolding update_modal
update_modal-Dropped safe screen now typing (key_press k) m h =
    dialog_key-Dropped safe screen now typing k m h
update_modal-Dropped safe screen now typing (mouse_click b x y) m h = ground (
  arith,
  click_help-Dropped screen x y m h,
  click_panel-Dropped x y m h,
  edit_stage-Dropped typing m h,
)
update_modal-Dropped safe screen now typing (mouse_wheel b x y) m h =
    scroll_modal-Dropped screen _ m h
update_modal-Dropped safe screen now typing paste m h =
    ground (arith, edit_stage-Dropped typing m h)
update_modal-Dropped safe screen now typing other_input m h = edit_stage-Dropped typing m h
