-- ===== src/Tui/Help.antt =====
-- internal/tui/help.go: the rows of the keybind guide, what its search leaves of them, and the box
-- that it is drawn in. `dot` is the middle dot, in UTF-8.
use relvo.Base.{
  trim_space, ℕ, ◌+◌, ◌-◌, ◌/◌, min, max, String, Bool, true, false, ◌||◌, List, [], ◌∷◌, ◌++◌, map,
  ltb, leb, ◌==◌, if◌then◌else◌, length, Text, bytes, is_empty, contains,
}
use relvo.Demo.Compare.{}
use relvo.Tui.Model.{Screen, Model}

pub record Binding : Type 0 where
  pub keys : Text
  pub description : Text

pub record Section : Type 0 where
  pub name : Text
  pub bindings : List Binding

abbrev bind : String → String → Binding
bind k d = record { keys = bytes k; description = bytes d }

abbrev dot : Text
dot = 194 ∷ 183 ∷ []

-- `helpSections`
abbrev pub help_sections : List Section
help_sections =
    (record {
      name = bytes "Navigation";
      bindings =
          bind "tab / shift+tab" "Switch between tables and results"
          ∷ bind "h j k l / arrows" "Move through rows and columns"
          ∷ bind "gg / G" "First / last loaded row"
          ∷ bind "ctrl+d / ctrl+u" "Scroll half a screen"
          ∷ bind "pgdown / pgup" "Scroll a full screen"
          ∷ bind "[ / ]" "Previous / next database page"
          ∷ bind "+ / -" "Change page size by 25"
          ∷ bind "enter" "Open a table or inspect a row"
          ∷ [];
    })
    ∷ (record {
      name = bytes "Explore data";
      bindings =
          bind "/" "Find a table or add an AND filter"
          ∷ bind "i" "Look up a primary key"
          ∷ bind "f" "Follow foreign key (same database)"
          ∷ bind "x" "Clear filters or table search"
          ∷ bind "s" "Sort by selected column"
          ∷ bind "v" "Toggle row / cell selection"
          ∷ bind "1 / 2 / 3" "Data / Structure / SQL"
          ∷ [];
    })
    ∷ (record {
      name = bytes "Connections & SQL";
      bindings =
          bind "c" "Pick or test a connection"
          ∷ bind "n / e" "Add manually / map an .env file"
          ∷ bind "ctrl+s / ctrl+t" "Connect / test draft (test never saves)"
          ∷ record {
            keys = bytes "Q";
            description = bytes "Read query " ++ dot ++ bytes " ctrl+s runs";
          }
          ∷ record {
            keys = bytes "W";
            description = bytes "Stage write " ++ dot ++ bytes " local approval required";
          }
          ∷ record {
            keys = bytes "a";
            description = bytes "Review write " ++ dot ++ bytes " type approve, then Enter";
          }
          ∷ [];
    })
    ∷ (record {
      name = bytes "Application";
      bindings =
          bind "ctrl+p" "Search commands"
          ∷ bind "?" "Open this keybind guide"
          ∷ bind "r" "Refresh the current table"
          ∷ bind "esc" "Close a dialog or clear table search"
          ∷ bind "ctrl+c" "Cancel running work / quit"
          ∷ bind "q" "Quit outside an input"
          ∷ [];
    })
    ∷ []

-- `helpNotes`
abbrev pub help_notes : List Text
help_notes =
    bytes "Mouse: click to select; click headers to sort; wheel to scroll."
    ∷ bytes "SQL drafts are separate and retained until you quit."
    ∷ bytes "Foreign keys require complete, non-NULL values in this database."
    ∷ []

-- `helpRow`
pub record HelpRow : Type 0 where
  pub keys : Text
  pub description : Text
  pub section : Bool
  pub muted : Bool

abbrev blank_row : HelpRow
blank_row = record { keys = []; description = []; section = false; muted = false }

abbrev heading : Text → HelpRow
heading t = record blank_row { keys = t; section = true }

abbrev muted_row : Text → HelpRow
muted_row t = record blank_row { keys = t; muted = true }

abbrev binding_row : Binding → HelpRow
binding_row b = record blank_row { keys = b.keys; description = b.description }

-- The bindings of a section that the search leaves.
matching : Screen → List ℕ → Text → List Binding → List Binding
matching screen query name [] = []
matching screen query name (b ∷ bs) =
    let rest = matching screen query name bs in
    if is_empty query
      || contains (screen.lower (name ++ b' ' ∷ b.keys ++ b' ' ∷ b.description)) query
    then b ∷ rest
    else rest

-- The loop over the sections; an empty row parts two of them.
section_rows : Screen → List ℕ → List HelpRow → List Section → List HelpRow
unfolding matching
section_rows screen query rows [] = rows
section_rows screen query rows (s ∷ ss) = elim (matching screen query s.name s.bindings) [
  | [] ↦ section_rows screen query rows ss
  | b ∷ bs ↦
      section_rows screen query
        (rows
          ++ (if length rows == 0 then [] else blank_row ∷ [])
          ++ heading s.name ∷ map binding_row (b ∷ bs))
        ss
]

-- `helpRows`
pub help_rows : Screen → Model → List HelpRow
unfolding section_rows
help_rows screen m =
    let query = screen.lower (trim_space m.help_search) in
    let found = section_rows screen query [] help_sections in
    let rows = if is_empty query then found ++ blank_row ∷ map muted_row help_notes else found in
    if length rows == 0 then muted_row (bytes "No matching shortcuts") ∷ [] else rows

-- The loop of `helpDisplayRows`: the description goes below the keys.
expand : List HelpRow → List HelpRow
expand [] = []
expand (r ∷ rs) =
    let rest = expand rs in
    if is_empty r.description
    then r ∷ rest
    else heading r.keys ∷ muted_row (bytes "    " ++ r.description) ∷ rest

-- `helpDisplayRows`
pub help_display_rows : Screen → ℕ → Model → List HelpRow
unfolding expand help_rows
help_display_rows screen inner m =
    if leb 46 inner then help_rows screen m else expand (help_rows screen m)

pub record Bounds : Type 0 where
  pub x : ℕ
  pub y : ℕ
  pub width : ℕ
  pub height : ℕ

-- A box of this size in the middle of the screen.
abbrev pub centered : Model → ℕ → ℕ → Bounds
centered m width height = record {
  x = (m.width - width) / 2;
  y = (m.height - height) / 2;
  width = width;
  height = height;
}

-- `helpBounds`
unfoldable pub help_bounds : Screen → Model → Bounds
help_bounds screen m =
    let width = if ltb m.width 8 then m.width else min 96 (max 1 (m.width - 4)) in
    let rows = length (help_display_rows screen (width - 2) m) in
    centered m width (
      if ltb m.height 14 then m.height else min 30 (min (max 10 (rows + 6)) (max 1 (m.height - 4))))

-- `helpBodyHeight`
pub help_body_height : Screen → Model → ℕ
unfolding help_bounds
help_body_height screen m = (help_bounds screen m).height - 6
