-- ===== src/Tui/Dialog/Press/Only.antt =====
-- Which keys of a dialog can approve or reject a write.
use relvo.Base.{
  text_eq, ℕ, ◌+◌, ◌≡◌, ◌⊎◌, inl, inr, true, Option, none, some, arith, if◌then◌else◌, Option-cases,
  length, get_elem?, Text, bytes, ℤ, pos, pos_part, ◌-ℤ◌,
}
use relvo.Tui.Viewport.{bound}
use relvo.Tui.Model.{Screen, Model, is_modal, close_modal, plain}
use relvo.Tui.Panel.{panel_bounds, field_at_row}
use relvo.Tui.Keys.{approval_key}
use relvo.Tui.Keys.Approval.{
  Harmless, dispatch-Harmless, submit_filter-Harmless, submit_profile-Harmless, key-Harmless,
}
use relvo.Tui.Dialog.{Typing, commands, choices, click_help, click_panel, search_key}
use relvo.Tui.Dialog.Press.{
  Answer, approve_stage, sql_stage, form_stage, find_command, run_command, filter_choice,
  take_choice, choice_stage, edit_stage, filter_stage, find_stage, entry_key, dialog_key,
}

abbrev HarmlessIf : Option Answer → Type 0
HarmlessIf none = Unit
HarmlessIf (some r) = Harmless r.1

search_key-Harmless : (typing : Typing) (k : Text) (m : Model) → Harmless (search_key typing k m).1
unfolding search_key
search_key-Harmless typing k m = ground arith

pub click_help-Harmless :
    (screen : Screen) (x y : ℤ) (m : Model) → Harmless (click_help screen x y m).1
unfolding click_help
click_help-Harmless screen x y m = ground arith

pub click_panel-Harmless : (x y : ℤ) (m : Model) → Harmless (click_panel x y m).1
unfolding click_panel
click_panel-Harmless x y m =
    elim (Option-cases (field_at_row m (pos_part (y -ℤ pos ((panel_bounds m).y + 4))))) [
      | inl e ↦ ground arith
      | inr (i, e) ↦ ground arith
    ]

sql_stage-Harmless : (typing : Typing) (k : Text) (m : Model) → Harmless (sql_stage typing k m).1
unfolding sql_stage
sql_stage-Harmless typing k m = ground (
  arith,
  dispatch-Harmless
      (record (plain (if is_modal m "write" then bytes "write" else bytes "query")) { sql = m.sql })
      (record (close_modal m) { focus = 1; tab = 0 }),
)

form_stage-Harmless : (k : Text) (m : Model) → HarmlessIf (form_stage k m)
unfolding form_stage
form_stage-Harmless k m = ground (arith, submit_profile-Harmless (text_eq k (bytes "ctrl+t")) m)

run_command-Harmless :
    (safe : Text → Text) (screen : Screen) (name : Text) (m : Model)
    → Harmless (run_command safe screen name m).1
unfolding run_command
run_command-Harmless safe screen name m = elim (Option-cases (find_command name commands)) [
  | inl e ↦ rw (e, run_command) tt
  | inr (k, e) ↦ rw (e, run_command) (key-Harmless safe screen k _)
]

filter_choice-Harmless : (selected : Text) (m : Model) → Harmless (filter_choice selected m).1
unfolding filter_choice
filter_choice-Harmless selected m = ground (
  arith,
  submit_filter-Harmless (record m { filter = record m.filter { op = selected }; step = 2 }),
)

take_choice-Harmless :
    (safe : Text → Text) (screen : Screen) (k selected : Text) (m : Model)
    → HarmlessIf (take_choice safe screen k selected m)
unfolding take_choice
take_choice-Harmless safe screen k selected m = ground (
  arith,
  run_command-Harmless safe screen selected m,
  filter_choice-Harmless selected m,
  dispatch-Harmless
      (record (plain (if text_eq k (bytes "enter") then bytes "connect" else bytes "test")) {
        connection = selected;
      })
      (close_modal m),
)

choice_stage-Harmless :
    (safe : Text → Text) (screen : Screen) (k : Text) (m : Model)
    → HarmlessIf (choice_stage safe screen k m)
unfolding choice_stage
choice_stage-Harmless safe screen k m =
    let at = bound m.choice (length (choices screen m)) in
    elim (Option-cases (get_elem? (choices screen m) at)) [
      | inl e ↦ ground arith
      | inr (s, e) ↦
          ground (arith, take_choice-Harmless safe screen k s (record m { choice = pos at }))
    ]

pub edit_stage-Harmless : (typing : Typing) (m : Model) → Harmless (edit_stage typing m).1
unfolding edit_stage
edit_stage-Harmless typing m = ground arith

filter_stage-Harmless :
    (typing : Typing) (k : Text) (m : Model) → Harmless (filter_stage typing k m).1
unfolding filter_stage
filter_stage-Harmless typing k m = ground (
  arith,
  edit_stage-Harmless typing m,
  submit_filter-Harmless (record m { filter = record m.filter { value = m.input } }),
)

entry_key-Harmless :
    (safe : Text → Text) (screen : Screen) (typing : Typing) (k : Text) (m : Model)
    → Harmless (entry_key safe screen typing k m).1
unfolding entry_key find_stage
entry_key-Harmless safe screen typing k m = ground (
  arith,
  form_stage-Harmless k m,
  choice_stage-Harmless safe screen k m,
  filter_stage-Harmless typing k m,
)

-- A key of a dialog does no approval and no rejection, or it is a key of the dialog that approves.
pub dialog_key-cases :
    (safe : Text → Text) (screen : Screen) (now : ℕ) (typing : Typing) (k : Text) (m : Model)
    → Harmless (dialog_key safe screen now typing k m).1
      ⊎ ((is_modal m "approve" ≡ true)
          × (dialog_key safe screen now typing k m ≡ approval_key now k m))
unfolding dialog_key approve_stage
dialog_key-cases safe screen now typing k m = ground (
  arith,
  search_key-Harmless typing k m,
  sql_stage-Harmless typing k m,
  entry_key-Harmless safe screen typing k m,
)
