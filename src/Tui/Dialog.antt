-- ===== src/Tui/Dialog.antt =====
-- internal/tui/modal.go: `choices`, `scrollModal`, `documentLines` and `updateModal`, which has the
-- messages while a dialog is open. What the text fields make of a message depends on their cursors
-- and is the argument `Typing`; `focuses` stands for every command of a text field.
pub mod Press
pub mod Place
use relvo.Base.{
  text_eq, ℕ, ◌+◌, ◌-◌, min, max, String, Bool, true, false, not, ◌&&◌, ◌||◌, none, some, List, [],
  ◌∷◌, ◌++◌, map, ◌==◌, if◌then◌else◌, length, Text, bytes, ℤ, pos, pos_part, ◌+ℤ◌, ◌-ℤ◌, ltb_ℤ,
}
use relvo.Data.{}
use relvo.Tui.Viewport.{}
use relvo.Tui.Model.{Screen, Model, Effect, cancels, is_modal, is_form, fuzzy, close_modal}
use relvo.Tui.Keys.{far, minus, still, focused}
use relvo.Tui.Help.{HelpRow, help_rows, help_display_rows, Bounds, help_bounds, help_body_height}
use relvo.Tui.Panel.{panel_bounds, panel_body_height, field_at_row, detail_lines}

-- The texts of the fields after a message, from those before it.
pub record Typing : Type 0 where
  pub line : Text → Text
  pub area : Text → Text
  pub entry : Text → Text

pub data Button : Type 0 where
  left_button wheel_up wheel_left wheel_right other_button : Button

abbrev pub is_left : Button → Bool
is_left left_button = true
is_left _ = false

abbrev pub is_wheel_up : Button → Bool
is_wheel_up wheel_up = true
is_wheel_up _ = false

-- The messages that reach a dialog.
pub data Input : Type 0 where
  key_press : Text → Input
  mouse_click mouse_wheel : Button → ℤ → ℤ → Input
  paste other_input : Input

-- `operators`
abbrev pub operators : List Text
operators =
    bytes "eq"
    ∷ bytes "ne"
    ∷ bytes "contains"
    ∷ bytes "gt"
    ∷ bytes "gte"
    ∷ bytes "lt"
    ∷ bytes "lte"
    ∷ bytes "is-null"
    ∷ bytes "not-null"
    ∷ []

abbrev command : String → String → Text × Text
command name k = (bytes name, bytes k)

-- `commands`
abbrev pub commands : List (Text × Text)
commands =
    command "Connections" "c"
    ∷ command "New connection (memory only)" "n"
    ∷ command "Environment file and mapping" "e"
    ∷ command "SQL query" "Q"
    ∷ command "Stage SQL write for approval" "W"
    ∷ command "Add filter" "/"
    ∷ command "Primary key lookup" "i"
    ∷ command "Clear filters" "x"
    ∷ command "Sort selected column" "s"
    ∷ command "Refresh" "r"
    ∷ command "Previous database page" "["
    ∷ command "Next database page" "]"
    ∷ command "Increase page size" "+"
    ∷ command "Decrease page size" "-"
    ∷ command "Data view" "1"
    ∷ command "Structure view" "2"
    ∷ command "Toggle row / cell selection" "v"
    ∷ command "Review pending write" "a"
    ∷ command "Help" "?"
    ∷ command "Find table" "find-table"
    ∷ command "Inspect selected row" "inspect-row"
    ∷ command "Follow foreign key (selected column)" "f"
    ∷ command "Cancel current operation" "esc"
    ∷ command "Quit" "q"
    ∷ []

keep_texts : (Text → Bool) → List Text → List Text
keep_texts p [] = []
keep_texts p (t ∷ ts) = let rest = keep_texts p ts in if p t then t ∷ rest else rest

-- `choices`
pub choices : Screen → Model → List Text
unfolding keep_texts
choices screen m =
    if is_modal m "connections"
    then keep_texts (fuzzy screen m.input) m.snap.connections
    else if is_modal m "palette"
    then keep_texts (fuzzy screen m.input) (map (λ c. c.0) commands)
    else if is_modal m "filter" && (m.step == 0)
    then map (λ c. c.name) m.snap.schema.columns
    else if is_modal m "filter" && (m.step == 1)
    then operators
    else []

help_lines : List HelpRow → List Text
help_lines [] = []
help_lines (r ∷ rs) = (r.keys ++ b' ' ∷ b' ' ∷ r.description) ∷ help_lines rs

sum_lines : (Text → ℕ) → List Text → ℕ
sum_lines f [] = 0
sum_lines f (t ∷ ts) = f t + sum_lines f ts

-- The lines of `documentLines` before they are wrapped.
document : Screen → Model → List Text
unfolding help_lines
document screen m =
    if is_modal m "help"
    then help_lines (help_rows screen m)
    else if is_modal m "approve"
    then elim m.pending [
      | none ↦ []
      | some p ↦
          (bytes "Connection: " ++ p.connection)
          ∷ (bytes "Database: " ++ p.database)
          ∷ (bytes "Request: " ++ p.id)
          ∷ (bytes "Expires: " ++ screen.stamp p.expires)
          ∷ []
          ∷ p.sql
          ∷ []
    ]
    else []

-- The number of lines of `documentLines`
pub document_lines : Screen → Model → ℕ
unfolding document sum_lines
document_lines screen m =
    sum_lines (λ t. screen.wrapped t (max 1 (m.width - 6))) (document screen m)

-- The lines of the dialog, and how many of them are seen.
pub extent : Screen → Model → ℕ × ℕ
extent screen m =
    if is_modal m "help"
    then (
      length (help_display_rows screen ((help_bounds screen m).width - 2) m),
      help_body_height screen m,
    )
    else if is_modal m "inspect"
    then (detail_lines screen m (max 1 ((panel_bounds m).width - 2)), panel_body_height m)
    else (document_lines screen m, max 1 (m.height - (if is_modal m "approve" then 9 else 6)))

-- `scrollModal`
unfoldable pub scroll_modal : Screen → ℤ → Model → Model
scroll_modal screen delta m =
    let (lines, body) = extent screen m in
    record m { modal_top = min (pos_part (pos m.modal_top +ℤ delta)) (lines - body) }

-- Is the place outside the box, or on its button to close it?
closes : Bounds → ℤ → ℤ → Bool
closes b x y =
    ltb_ℤ x (pos b.x)
    || not (ltb_ℤ x (pos (b.x + b.width)))
    || ltb_ℤ y (pos b.y)
    || not (ltb_ℤ y (pos (b.y + b.height)))
    || (not (ltb_ℤ y (pos (b.y + 1)))
        && ltb_ℤ y (pos (b.y + 2))
        && not (ltb_ℤ x (pos (b.x + b.width) -ℤ pos 14)))

-- A click on the keybind guide.
pub click_help : Screen → ℤ → ℤ → Model → Model × List Effect
unfolding closes
click_help screen x y m =
    if closes (help_bounds screen m) x y then still (close_modal m) else still m

-- A click on a form or on an inspected row.
pub click_panel : ℤ → ℤ → Model → Model × List Effect
unfolding closes
click_panel x y m =
    let b = panel_bounds m in
    let line = y -ℤ pos (b.y + 4) in
    if closes b x y
    then (close_modal m, if m.setup_busy then cancels ∷ [] else [])
    else if is_form m
        && not m.setup_busy
        && not (ltb_ℤ line (pos 0))
        && ltb_ℤ line (pos (panel_body_height m))
    then elim (field_at_row m (pos_part line)) [
      | none ↦ still m
      | some i ↦ focused (record m { field = i })
    ]
    else still m

-- A key in the guide while its search is edited.
pub search_key : Typing → Text → Model → Model × List Effect
search_key typing k m =
    let typed = typing.line m.input in
    if text_eq k (bytes "esc")
    then still (record m { help_filtering = false; help_search = []; modal_top = 0; input = [] })
    else if text_eq k (bytes "enter")
    then still (record m { help_filtering = false })
    else if text_eq m.input typed
    then focused m
    else focused (record m { input = typed; help_search = typed; modal_top = 0 })

-- The keys that scroll an inspected row and the guide.
pub scroll_key : Screen → Text → Model → Model
scroll_key screen k m =
    let page =
      max 1 (if is_modal m "help" then help_body_height screen m else panel_body_height m) in
    let is = λ (s : String). text_eq k (bytes s) in
    if is "j" || is "down"
    then scroll_modal screen (pos 1) m
    else if is "k" || is "up"
    then scroll_modal screen (minus 1) m
    else if is "pgdown" || is "ctrl+d"
    then scroll_modal screen (pos page) m
    else if is "pgup" || is "ctrl+u"
    then scroll_modal screen (minus page) m
    else if is "home" || is "g"
    then record m { modal_top = 0 }
    else if is "end" || is "G"
    then scroll_modal screen (pos far) m
    else m
