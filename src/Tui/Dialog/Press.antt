-- ===== src/Tui/Dialog/Press.antt =====
-- internal/tui/modal.go: what `updateModal` does with a key, in the order of the code, and with the
-- other messages. An operation that falls through to the code after it is `none`.
pub mod Only
pub mod Dropped
use relvo.Base.{
  text_eq, is_blank, ℕ, zero, suc, ◌+◌, ◌-◌, ◌%◌, max, String, Bool, true, false, not, ◌&&◌, ◌||◌,
  Option, none, some, List, [], ◌∷◌, ltb, ◌==◌, if◌then◌else◌, length, get_elem?, Text, bytes, pos,
  ◌+ℤ◌, ◌-ℤ◌,
}
use relvo.Data.{PendingWrite}
use relvo.Tui.Viewport.{bound}
use relvo.Tui.Model.{
  Screen, Model, Effect, cancels, is_modal, is_form, clamp, close_modal, plain, dispatch,
}
use relvo.Tui.Keys.{minus, submit_filter, still, focused, key, approval_key, submit_profile}
use relvo.Tui.Dialog.{
  Typing, is_left, is_wheel_up, Input, key_press, mouse_click, mouse_wheel, paste, other_input,
  commands, choices, scroll_modal, click_help, click_panel, search_key, scroll_key,
}

abbrev pub Answer : Type 0
Answer = Model × List Effect

abbrev is_pending : Option PendingWrite → Bool
is_pending none = false
is_pending (some p) = true

-- The dialog that approves a write.
unfoldable pub approve_stage : Screen → ℕ → Text → Model → Option Answer
approve_stage screen now k m =
    let h = max 1 (m.height - 9) in
    if text_eq k (bytes "pgup")
    then some (still (scroll_modal screen (minus h) m))
    else if text_eq k (bytes "pgdown")
    then some (still (scroll_modal screen (pos h) m))
    else if text_eq k (bytes "enter") || (text_eq k (bytes "ctrl+r") && is_pending m.pending)
    then some (approval_key now k m)
    else none

-- The editors of statements.
pub sql_stage : Typing → Text → Model → Answer
sql_stage typing k m =
    if not (text_eq k (bytes "ctrl+enter") || text_eq k (bytes "ctrl+s"))
    then focused (record m { sql = typing.area m.sql })
    else if is_blank m.sql
    then still m
    else dispatch
        (record (plain (if is_modal m "write" then bytes "write" else bytes "query")) {
          sql = m.sql;
        })
        (record (close_modal m) { focus = 1; tab = 0 })

-- The forms; they have fields.
pub form_stage : Text → Model → Option Answer
form_stage k m =
    let is = λ (s : String). text_eq k (bytes s) in
    let n = length m.fields in
    if m.setup_busy
    then some (still m)
    else if is "ctrl+s" || is "ctrl+t"
    then some (submit_profile (is "ctrl+t") m)
    else if is "shift+tab" || is "up"
    then some (focused (record m { field = (m.field + n - 1) % n }))
    else if is "tab" || is "enter" || is "down"
    then some (focused (record m { field = (m.field + 1 + n) % n }))
    else none

find_command : Text → List (Text × Text) → Option Text
find_command name [] = none
find_command name ((n, k) ∷ cs) = if text_eq n name then some k else find_command name cs

-- A command chosen from the palette; every choice is one of `commands`.
pub run_command : (Text → Text) → Screen → Text → Model → Answer
unfolding find_command
run_command safe screen name m =
    let c = close_modal m in
    elim (find_command name commands) [
      | none ↦ still c
      | some k ↦
          let focus = (if text_eq k (bytes "/") || text_eq k (bytes "x") then 1 else c.focus) in
          key safe screen k (record c { focus = focus })
    ]

-- A column, or an operator, chosen for a filter.
pub filter_choice : Text → Model → Answer
filter_choice selected m =
    let column = record m {
      filter = record m.filter { column = selected };
      step = 1;
      choice = pos 0;
    } in
    let op = record m { filter = record m.filter { op = selected }; step = 2 } in
    if m.step == 0
    then still column
    else if text_eq selected (bytes "is-null") || text_eq selected (bytes "not-null")
    then submit_filter op
    else focused op

-- `enter` and `ctrl+t` on a choice.
pub take_choice : (Text → Text) → Screen → Text → Text → Model → Option Answer
take_choice safe screen k selected m =
    let enter = text_eq k (bytes "enter") in
    if is_modal m "connections"
    then some (
        dispatch
          (record (plain (if enter then bytes "connect" else bytes "test")) {
            connection = selected;
          })
          (close_modal m))
    else if is_modal m "palette"
    then some (if enter then run_command safe screen selected m else still m)
    else if is_modal m "filter"
    then some (if enter then filter_choice selected m else still m)
    else none

-- The keys on a list of choices, when it has some.
pub choice_stage : (Text → Text) → Screen → Text → Model → Option Answer
choice_stage safe screen k m =
    let list = choices screen m in
    let n = length list in
    let is = λ (s : String). text_eq k (bytes s) in
    let at = bound m.choice n in
    if n == 0
    then none
    else if is "up" || is "ctrl+k"
    then some (still (record m { choice = pos (bound (m.choice -ℤ pos 1) n) }))
    else if is "down" || is "ctrl+j"
    then some (still (record m { choice = pos (bound (m.choice +ℤ pos 1) n) }))
    else if is "enter" || is "ctrl+t"
    then elim (get_elem? list at) [
      | none ↦ none
      | some selected ↦ take_choice safe screen k selected (record m { choice = pos at })
    ]
    else none

set_at : ℕ → Text → List Text → List Text
set_at i t [] = []
set_at zero t (x ∷ xs) = t ∷ xs
set_at (suc i) t (x ∷ xs) = x ∷ set_at i t xs

-- The end of `updateModal`: the message goes to the text field of the dialog.
pub edit_stage : Typing → Model → Answer
unfolding set_at
edit_stage typing m =
    let typed = typing.line m.input in
    let old : Text = elim (get_elem? m.fields m.field) [ none ↦ [] | some t ↦ t ] in
    if is_modal m "sql" || is_modal m "write"
    then focused (record m { sql = typing.area m.sql })
    else if is_form m
    then (if m.setup_busy
        then still m
        else focused (record m { fields = set_at m.field (typing.entry old) m.fields }))
    else if is_modal m "filter"
    then (if m.step == 2 then focused (record m { input = typed }) else still m)
    else if is_modal m "inspect" || is_modal m "help"
    then still m
    else if text_eq m.input typed
    then focused m
    else focused (record m { input = typed; choice = pos 0 })

-- What comes after the choices.
pub filter_stage : Typing → Text → Model → Answer
filter_stage typing k m =
    if is_modal m "filter" && ltb m.step 2
    then still m
    else if is_modal m "filter" && text_eq k (bytes "enter")
    then submit_filter (record m { filter = record m.filter { value = m.input } })
    else edit_stage typing m

-- `enter` in the search for a table.
pub find_stage : Screen → Model → Answer
find_stage screen m =
    still (clamp screen (close_modal (record m { search = m.input; table = pos 0; table_top = 0 })))

-- The keys of the dialogs that are neither read nor statements.
pub entry_key : (Text → Text) → Screen → Typing → Text → Model → Answer
entry_key safe screen typing k m = elim (if is_form m then form_stage k m else none) [
  | some r ↦ r
  | none ↦
      if is_modal m "find" && text_eq k (bytes "enter")
      then find_stage screen m
      else elim (choice_stage safe screen k m) [ some r ↦ r | none ↦ filter_stage typing k m ]
]

-- The keys of `updateModal`.
unfoldable pub dialog_key : (Text → Text) → Screen → ℕ → Typing → Text → Model → Answer
dialog_key safe screen now typing k m =
    if is_modal m "help" && m.help_filtering
    then search_key typing k m
    else if is_modal m "help" && text_eq k (bytes "/")
    then focused (record m { help_filtering = true; input = m.help_search })
    else if text_eq k (bytes "esc")
    then (close_modal m, if m.setup_busy then cancels ∷ [] else [])
    else if is_modal m "inspect" || is_modal m "help"
    then still (scroll_key screen k m)
    else elim (if is_modal m "approve" then approve_stage screen now k m else none) [
      | some r ↦ r
      | none ↦
          if is_modal m "sql" || is_modal m "write"
          then sql_stage typing k m
          else entry_key safe screen typing k m
    ]

-- `updateModal`
unfoldable pub update_modal : (Text → Text) → Screen → ℕ → Typing → Input → Model → Answer
update_modal safe screen now typing (key_press k) m = dialog_key safe screen now typing k m
update_modal safe screen now typing (mouse_click b x y) m =
    if is_modal m "help" && is_left b
    then click_help screen x y m
    else if (is_form m || is_modal m "inspect") && is_left b
    then click_panel x y m
    else edit_stage typing m
update_modal safe screen now typing (mouse_wheel b x y) m =
    still (scroll_modal screen (if is_wheel_up b then minus 3 else pos 3) m)
update_modal safe screen now typing paste m =
    let typed = typing.line m.input in
    if is_modal m "help" && m.help_filtering
    then focused (record m { input = typed; help_search = typed; modal_top = 0 })
    else edit_stage typing m
update_modal safe screen now typing other_input m = edit_stage typing m
