-- ===== src/Tui/Model.antt =====
-- internal/tui/model.go and modal.go: the state of the screen, and the parts of it that keys and
-- messages share. A text field of the screen is the text in it; its cursor, focus and styles are not
-- modelled. `Screen` stands for what the drawing decides: widths, wrapped lines, lower case.
mod Examples
mod Newest
pub mod Clamped
pub mod Dropped
use relvo.Base.{
  text_eq, ℕ, zero, suc, ◌+◌, ◌-◌, ◌%◌, ◌^◌, min, String, Bool, true, false, not, ◌&&◌, ◌||◌,
  Option, none, some, List, [], ◌∷◌, ltb, ◌==◌, if◌then◌else◌, length, Text, bytes, ℤ, pos,
  pos_part, ltb_ℤ,
}
use relvo.Data.{Table, Schema, Filter, Profile, Action, PendingWrite, Snapshot, Kind, kind_of}
use relvo.Tui.Viewport.{bound, scroll, scroll_left, body_height, grid_width}

pub record Screen : Type 0 where
  pub widths : Snapshot → List ℕ  -- `cacheWidths`
  pub structure_lines : Schema → ℕ → ℕ  -- the lines of the structure, at a width
  pub lower : Text → List ℕ  -- the code points of `strings.ToLower`
  pub wrapped : Text → ℕ → ℕ  -- the number of lines of `wrapSafe`, at a width
  pub stamp : ℕ → Text  -- `time.Format`

-- `focus` is 0 at the tables and 1 at the results; `tab` is 0 at the data, 1 at the structure, and
-- `modal` the name of the dialog that is open, empty if none is.
pub record Model : Type 0 where
  pub snap : Snapshot
  pub width : ℕ
  pub height : ℕ
  pub focus : ℕ
  pub tab : ℕ
  pub row : ℤ
  pub col : ℤ
  pub top : ℕ
  pub left : ℕ
  pub table : ℤ
  pub table_top : ℕ
  pub search : Text
  pub g : Bool
  pub row_mode : Bool
  pub structure_top : ℤ
  pub modal : Text
  pub input : Text
  pub sql : Text
  pub query_draft : Text
  pub write_draft : Text
  pub desired_widths : List ℕ
  pub fields : List Text
  pub form_id : ℕ
  pub setup_busy : Bool
  pub field : ℕ
  pub choice : ℤ
  pub step : ℕ
  pub filter : Filter
  pub modal_top : ℕ
  pub help_search : Text
  pub help_filtering : Bool
  pub pending : Option PendingWrite
  pub notice : Text
  pub listening : Bool  -- `events` is not nil

-- What a key or a message makes the program do besides changing the model.
pub data Effect : Type 0 where
  quits cancels focuses : Effect
  dispatches : Action → Effect
  approves rejects : Text → Effect
  sets_up : Profile → Bool → ℕ → Effect

abbrev pub is_modal : Model → String → Bool
is_modal m name = text_eq m.modal (bytes name)

abbrev pub is_form : Model → Bool
is_form m = is_modal m "profile" || is_modal m "env"

-- `fuzzy`: do the letters of the query occur in the value in this order?
pub matches : List ℕ → List ℕ → Bool
matches [] vs = true
matches (q ∷ qs) [] = false
matches (q ∷ qs) (v ∷ vs) =
    let taken = matches qs vs in
    let passed = matches (q ∷ qs) vs in if v == q then taken else passed

pub fuzzy : Screen → Text → Text → Bool
unfolding matches
fuzzy screen query value = matches (screen.lower query) (screen.lower value)

keep_tables : (Text → Bool) → List Table → List Table
keep_tables p [] = []
keep_tables p (t ∷ ts) = let rest = keep_tables p ts in if p t.name then t ∷ rest else rest

-- `tables`
pub tables : Screen → Model → List Table
unfolding keep_tables
tables screen m = keep_tables (fuzzy screen m.search) m.snap.tables

nth : List ℕ → ℕ → ℕ
nth [] i = 0
nth (x ∷ xs) zero = x
nth (x ∷ xs) (suc i) = nth xs i

-- `columnWidth`
pub column_width : Model → ℕ → ℕ
unfolding nth
column_width m c = min (grid_width m.width m.focus) (nth m.desired_widths c)

-- `clamp`
pub clamp : Screen → Model → Model
clamp screen m =
    let ts = length (tables screen m) in
    let rows = length m.snap.result.rows in
    let columns = length m.snap.result.columns in
    let body = body_height m.height in
    let grid = grid_width m.width m.focus in
    let table = bound m.table ts in
    let row = bound m.row rows in
    let col = bound m.col columns in
    let lines = screen.structure_lines m.snap.schema grid in
    record m {
      table = pos table;
      row = pos row;
      col = pos col;
      top = scroll m.top row rows body;
      table_top = scroll m.table_top table ts body;
      left = scroll_left (column_width m) grid columns m.left col;
      structure_top =
          if m.tab == 1
          then pos (min (pos_part m.structure_top) (lines - body))
          else m.structure_top;
    }

-- `closeModal`. The draft of a statement is kept, the fields of a form are not.
unfoldable pub close_modal : Model → Model
close_modal m = record m {
  query_draft = if is_modal m "sql" then m.sql else m.query_draft;
  write_draft = if is_modal m "write" then m.sql else m.write_draft;
  form_id = if is_form m then (m.form_id + 1) % 2 ^ 64 else m.form_id;
  setup_busy = if is_form m then false else m.setup_busy;
  modal = [];
  fields = [];
  input = [];
  sql = [];
  modal_top = 0;
}

-- `openInput`
unfoldable pub open_input : Text → Model → Model
open_input kind m = record m { modal = kind; modal_top = 0; input = [] }

-- `openSQL`
pub open_sql : Bool → Model → Model
unfolding close_modal
open_sql write m =
    let c = close_modal m in
    if write
    then record c { modal = bytes "write"; sql = c.write_draft }
    else record c { modal = bytes "sql"; sql = c.query_draft }

-- `showPending`
unfoldable pub show_pending : PendingWrite → Model → Model
unfolding close_modal open_input
show_pending p m = open_input (bytes "approve") (record (close_modal m) { pending = some p })

abbrev pub note : Text → Model → Model
note t m = record m { notice = t }

abbrev pub plain : Text → Action
plain kind = record {
  type = kind;
  connection = [];
  table = [];
  filters = [];
  sort = [];
  desc = false;
  page_size = pos 0;
  sql = [];
}

-- The kinds that `dispatch` refuses for raw query results.
pub refused_raw : Kind → Bool
refused_raw Kind.filter = true
refused_raw Kind.sort = true
refused_raw Kind.next = true
refused_raw Kind.prev = true
refused_raw Kind.page_size = true
refused_raw _ = false

-- `dispatch`
unfoldable pub dispatch : Action → Model → Model × List Effect
unfolding refused_raw
dispatch a m =
    if m.snap.query && refused_raw (kind_of a.type)
    then (note (bytes "Raw query results: edit SQL to filter, sort or paginate") m, [])
    else (note [] m, dispatches a ∷ [])

-- Two pending writes that are equal field by field.
unfoldable pub same_pending : PendingWrite → PendingWrite → Bool
same_pending p q =
    text_eq p.id q.id
    && text_eq p.connection q.connection
    && text_eq p.database q.database
    && text_eq p.sql q.sql
    && (p.expires == q.expires)

abbrev pub same_request : Option PendingWrite → PendingWrite → Bool
same_request none q = false
same_request (some p) q = same_pending p q

eq_ℤ : ℤ → ℤ → Bool
eq_ℤ a b = not (ltb_ℤ a b) && not (ltb_ℤ b a)

abbrev xor : Bool → Bool → Bool
xor true b = not b
xor false b = b

find_table : ℕ → Text → List Table → Option ℕ
find_table i n [] = none
find_table i n (t ∷ ts) = if text_eq t.name n then some i else find_table (suc i) n ts

-- The part of `accept` that follows the tables.
follow_table : Screen → Snapshot → Model → Model
unfolding fuzzy find_table tables
follow_table screen s m =
    let n = if fuzzy screen m.search s.browse.table then m else record m { search = [] } in
    elim (find_table 0 s.browse.table (tables screen n)) [
      | none ↦ n
      | some i ↦ record n { table = pos i }
    ]

-- The part of `accept` that goes back to the first row.
reset_view : Model → Model
unfolding close_modal
reset_view m =
    let n = record m { row = pos 0; col = pos 0; top = 0; left = 0; structure_top = pos 0 } in
    if is_modal n "filter" || is_modal n "inspect" then close_modal n else n

-- The part of `accept` that follows the pending write.
follow_pending : Snapshot → Model → Model
unfolding show_pending close_modal same_pending
follow_pending s m = elim s.pending [
  | some p ↦ if same_request m.pending p || is_form m then m else show_pending p m
  | none ↦ elim m.pending [
    | none ↦ m
    | some q ↦
        let n = record m { pending = none } in if is_modal n "approve" then close_modal n else n
  ]
]

-- `accept`
pub accept : Screen → Snapshot → Model → Model
accept screen s m =
    if ltb s.revision m.snap.revision
    then m
    else let table_changed =
        not (text_eq s.connection m.snap.connection)
        || not (text_eq s.database m.snap.database)
        || not (text_eq s.browse.table m.snap.browse.table) in
      let changed =
        table_changed
        || not (eq_ℤ s.browse.offset m.snap.browse.offset)
        || xor s.query m.snap.query in
      let a = record m { snap = s; desired_widths = screen.widths s } in
      let b = if table_changed then follow_table screen s a else a in
      let c = if changed then reset_view b else b in clamp screen (follow_pending s c)
