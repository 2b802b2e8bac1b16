-- ===== src/Tui/Keys.antt =====
-- internal/tui/model.go: `key`, `move`, `openTable` and `sort`; of modal.go `openProfile`,
-- `openFilter`, `submitFilter`, `submitProfile` and the keys of the dialog that approves a write.
mod Examples
pub mod Approval
pub mod Dropped
use relvo.Base.{
  text_eq, is_blank, ℕ, zero, suc, ◌+◌, ◌-◌, ◌/◌, ◌%◌, ◌^◌, max, String, Bool, true, false, not,
  ◌&&◌, ◌||◌, Option, none, some, List, [], ◌∷◌, ◌++◌, ltb, ◌==◌, if◌then◌else◌, length, Text,
  bytes, is_empty, trim_space, ℤ, pos, pos_part, ◌+ℤ◌, ◌-ℤ◌, max_ℤ, min_ℤ,
}
use relvo.Data.{Config, Column, Filter, Profile, Action}
use relvo.Tui.Viewport.{body_height}
use relvo.Tui.Model.{
  Screen, Model, Effect, quits, cancels, focuses, approves, rejects, sets_up, is_modal, tables,
  clamp, close_modal, open_input, open_sql, show_pending, note, plain, dispatch, same_request,
}
use relvo.Tui.Follow.{follow_foreign_key}

-- `move`
move : ℤ → Model → Model
move n m =
    if m.focus == 0
    then record m { table = m.table +ℤ n }
    else if m.tab == 1
    then record m { structure_top = m.structure_top +ℤ n }
    else record m { row = m.row +ℤ n }

abbrev pub far : ℕ
far = 268435456

abbrev pub minus : ℕ → ℤ
minus n = pos 0 -ℤ pos n

element : {A : Type 0} → List A → ℕ → Option A
element [] i = none
element (x ∷ xs) zero = some x
element (x ∷ xs) (suc i) = element xs i

-- `openTable`
pub open_table : Screen → Model → Model × List Effect
unfolding element
open_table screen m = elim (element (tables screen m) (pos_part m.table)) [
  | none ↦ (m, [])
  | some t ↦
      dispatch (record (plain (bytes "open-table")) { table = t.name })
        (record m { focus = 1; tab = 0 })
]

-- `sort`
pub sort : Model → Model × List Effect
unfolding element
sort m =
    let refused : Model × List Effect =
      (note (bytes "Sorting requires a table, not raw query results") m, []) in
    if m.snap.query then refused else elim (element m.snap.result.columns (pos_part m.col)) [
      | none ↦ refused
      | some c ↦
          dispatch
            (record (plain (bytes "sort")) {
              sort = c;
              desc = text_eq m.snap.browse.sort c && not m.snap.browse.desc;
            })
            m
    ]

abbrev env_defaults : List Text
env_defaults =
    []
    ∷ bytes ".env"
    ∷ bytes "DB_HOST"
    ∷ bytes "DB_PORT"
    ∷ bytes "DB_USERNAME"
    ∷ bytes "DB_PASSWORD"
    ∷ bytes "DB_DATABASE"
    ∷ bytes "DB_TLS"
    ∷ []

abbrev profile_defaults : List Text
profile_defaults = [] ∷ bytes "127.0.0.1" ∷ bytes "3306" ∷ [] ∷ [] ∷ [] ∷ bytes "true" ∷ []

-- `openProfile`
open_profile : Bool → Model → Model
open_profile env m =
    let c = close_modal m in
    record c {
      notice = [];
      form_id = (c.form_id + 1) % 2 ^ 64;
      modal = if env then bytes "env" else bytes "profile";
      field = 0;
      fields = if env then env_defaults else profile_defaults;
    }

primary_column : List Column → Option Text
primary_column [] = none
primary_column (c ∷ cs) = if text_eq c.key (bytes "PRI") then some c.name else primary_column cs

-- `openFilter`
open_filter : Bool → Model → Model × List Effect
unfolding primary_column
open_filter primary m =
    let columns = m.snap.schema.columns in
    let f : Filter = record { column = []; op = bytes "eq"; value = [] } in
    let n = record m { step = 0; choice = min_ℤ m.col (pos (length columns - 1)); filter = f } in
    if m.snap.query || (length columns == 0) || is_empty m.snap.browse.table
    then (note (bytes "Open a table to add filters") m, [])
    else if not primary
    then (open_input (bytes "filter") n, focuses ∷ [])
    else elim (primary_column columns) [
      | none ↦ (note (bytes "This table has no primary key") n, [])
      | some c ↦ (
        open_input (bytes "filter") (record n { filter = record f { column = c }; step = 2 }),
        focuses ∷ [],
      )
    ]

-- `submitFilter`
pub submit_filter : Model → Model × List Effect
submit_filter m =
    dispatch (record (plain (bytes "filter")) { filters = m.snap.browse.filters ++ m.filter ∷ [] })
      (close_modal m)

-- The keys of `key` that have a case.
data Key : Type 0 where
  quit escape switch data_tab structure_tab query_box write_box connections profile_form env_form :
      Key
  palette help find_filter find_table inspect_row primary_filter follow clear sort_column : Key
  row_mode refresh previous next more_rows fewer_rows enter approval : Key
  down up left right half_down half_up page_down page_up home end g : Key
  other : Key

key_of : Text → Key
key_of k =
    let is = λ (s : String). text_eq k (bytes s) in
    if is "q"
    then quit
    else if is "esc"
    then escape
    else if is "tab" || is "shift+tab"
    then switch
    else if is "1"
    then data_tab
    else if is "2"
    then structure_tab
    else if is "3" || is "Q"
    then query_box
    else if is "W"
    then write_box
    else if is "c"
    then connections
    else if is "n"
    then profile_form
    else if is "e"
    then env_form
    else if is "ctrl+p"
    then palette
    else if is "?"
    then help
    else if is "/"
    then find_filter
    else if is "find-table"
    then find_table
    else if is "inspect-row"
    then inspect_row
    else if is "i"
    then primary_filter
    else if is "f"
    then follow
    else if is "x"
    then clear
    else if is "s"
    then sort_column
    else if is "v"
    then row_mode
    else if is "r"
    then refresh
    else if is "["
    then previous
    else if is "]"
    then next
    else if is "+" || is "="
    then more_rows
    else if is "-"
    then fewer_rows
    else if is "enter"
    then enter
    else if is "a"
    then approval
    else if is "j" || is "down"
    then down
    else if is "k" || is "up"
    then up
    else if is "h" || is "left"
    then left
    else if is "l" || is "right"
    then right
    else if is "ctrl+d"
    then half_down
    else if is "ctrl+u"
    then half_up
    else if is "pgdown"
    then page_down
    else if is "pgup"
    then page_up
    else if is "home"
    then home
    else if is "G" || is "end"
    then end
    else if is "g"
    then g
    else other

abbrev sized : ℤ → Action
sized n = record (plain (bytes "page-size")) { page_size = n }

abbrev pub still : Model → Model × List Effect
still m = (m, [])

abbrev pub focused : Model → Model × List Effect
focused m = (m, focuses ∷ [])

enter_key : Screen → Model → Model × List Effect
unfolding open_table
enter_key screen m =
    if m.focus == 0
    then open_table screen m
    else if not (length m.snap.result.rows == 0) && (m.tab == 0)
    then still (clamp screen (record m { modal = bytes "inspect"; modal_top = 0 }))
    else still (clamp screen m)

-- The `switch` of `key`; `gg` says that `g` was pressed twice.
press : (Text → Text) → Screen → Bool → Key → Model → Model × List Effect
press safe screen gg quit m = (m, quits ∷ [])
press safe screen gg escape m = (
  clamp screen (clamp screen (record m { search = [] })),
  if m.snap.busy then cancels ∷ [] else [],
)
press safe screen gg switch m =
    still (clamp screen (clamp screen (record m { focus = 1 - m.focus })))
press safe screen gg data_tab m = still (clamp screen (record m { tab = 0; focus = 1 }))
press safe screen gg structure_tab m = still (clamp screen (record m { tab = 1; focus = 1 }))
press safe screen gg query_box m = focused (open_sql false m)
press safe screen gg write_box m =
    if not m.snap.writes_enabled
    then still (note (bytes "Writes are disabled. Start with write access to stage SQL.") m)
    else focused (open_sql true m)
press safe screen gg connections m =
    focused (open_input (bytes "connections") (record m { choice = pos 0 }))
press safe screen gg profile_form m = focused (open_profile false m)
press safe screen gg env_form m = focused (open_profile true m)
press safe screen gg palette m =
    focused (open_input (bytes "palette") (record m { choice = pos 0 }))
press safe screen gg help m = still (
    clamp screen
      (record m { modal = bytes "help"; modal_top = 0; help_search = []; help_filtering = false }))
press safe screen gg find_filter m =
    if m.focus == 0 then focused (open_input (bytes "find") m) else open_filter false m
press safe screen gg find_table m = focused (open_input (bytes "find") (record m { focus = 0 }))
press safe screen gg inspect_row m = enter_key screen (record m { g = false; focus = 1; tab = 0 })
press safe screen gg primary_filter m = open_filter true m
press safe screen gg follow m = follow_foreign_key safe m
press safe screen gg clear m =
    if m.focus == 1
    then dispatch (plain (bytes "filter")) m
    else still (clamp screen (clamp screen (record m { search = [] })))
press safe screen gg sort_column m = sort m
press safe screen gg row_mode m = still (clamp screen (record m { row_mode = not m.row_mode }))
press safe screen gg refresh m = dispatch (plain (bytes "refresh")) m
press safe screen gg previous m = dispatch (plain (bytes "prev")) m
press safe screen gg next m = dispatch (plain (bytes "next")) m
press safe screen gg more_rows m =
    dispatch (sized (min_ℤ (pos 1000) (max_ℤ (pos 25) (m.snap.browse.limit +ℤ pos 25)))) m
press safe screen gg fewer_rows m =
    dispatch (sized (max_ℤ (pos 1) (m.snap.browse.limit -ℤ pos 25))) m
press safe screen gg enter m = enter_key screen m
press safe screen gg approval m = elim m.snap.pending [
  | none ↦ still (clamp screen m)
  | some p ↦ focused (show_pending p m)
]
press safe screen gg down m = still (clamp screen (move (pos 1) m))
press safe screen gg up m = still (clamp screen (move (minus 1) m))
press safe screen gg left m =
    still (clamp screen (if m.focus == 1 then record m { col = m.col -ℤ pos 1 } else m))
press safe screen gg right m =
    still (clamp screen (if m.focus == 1 then record m { col = m.col +ℤ pos 1 } else m))
press safe screen gg half_down m =
    still (clamp screen (move (pos (max 1 (body_height m.height / 2))) m))
press safe screen gg half_up m =
    still (clamp screen (move (minus (max 1 (body_height m.height / 2))) m))
press safe screen gg page_down m = still (clamp screen (move (pos (body_height m.height)) m))
press safe screen gg page_up m = still (clamp screen (move (minus (body_height m.height)) m))
press safe screen gg home m = still (clamp screen (move (minus far) m))
press safe screen gg end m = still (clamp screen (move (pos far) m))
press safe screen gg g m = still (clamp screen (if gg then move (minus far) m else m))
press safe screen gg other m = still (clamp screen m)

-- `key`
pub key : (Text → Text) → Screen → Text → Model → Model × List Effect
unfolding press key_of
key safe screen k m =
    let is_g = text_eq k (bytes "g") in
    let gg = m.g && is_g in press safe screen gg (key_of k) (record m { g = is_g && not gg })

-- The dialog that approves a write: `enter` and `ctrl+r`. The clock is the argument `now`.
unfoldable pub approval_key : ℕ → Text → Model → Model × List Effect
approval_key now k m =
    if text_eq k (bytes "ctrl+r")
    then elim m.pending [ none ↦ (m, []) | some p ↦ (close_modal m, rejects p.id ∷ []) ]
    else if text_eq k (bytes "enter")
    then elim m.pending [
      | none ↦ (note (bytes "Pending write changed; review it again") m, [])
      | some p ↦
          if not (same_request m.snap.pending p)
          then (note (bytes "Pending write changed; review it again") m, [])
          else if not (p.expires == 0) && ltb p.expires now
          then (note (bytes "Pending write expired") m, [])
          else if not (text_eq m.input (bytes "approve"))
          then (note (bytes "Type exactly approve to execute this write") m, [])
          else (close_modal m, approves p.id ∷ [])
    ]
    else (m, [])

abbrev field_at : Model → ℕ → Text
field_at m i = elim (element m.fields i) [ none ↦ [] | some t ↦ t ]

-- A variable that the form names, unless it is blank or the default one.
mapped : Text → Text → Text → List (Text × Text)
mapped field default value =
    let v = trim_space value in if is_empty v || text_eq v default then [] else (field, v) ∷ []

blank_config : Config
blank_config = record {
  name = [];
  host = [];
  port = [];
  user = [];
  password = [];
  database = [];
  socket = [];
  tls = [];
}

-- `submitProfile`
pub submit_profile : Bool → Model → Model × List Effect
unfolding element mapped blank_config
submit_profile test m =
    let name = trim_space (field_at m 0) in
    let env = is_modal m "env" in
    let from_env : Profile = record {
      name = name;
      env_file = field_at m 1;
      mapping =
          mapped (bytes "host") (bytes "DB_HOST") (field_at m 2)
          ++ mapped (bytes "port") (bytes "DB_PORT") (field_at m 3)
          ++ mapped (bytes "user") (bytes "DB_USERNAME") (field_at m 4)
          ++ mapped (bytes "password") (bytes "DB_PASSWORD") (field_at m 5)
          ++ mapped (bytes "database") (bytes "DB_DATABASE") (field_at m 6)
          ++ mapped (bytes "tls") (bytes "DB_TLS") (field_at m 7);
      config = blank_config;
      password_env = [];
      endpoint = none;
    } in
    let typed : Profile = record from_env {
      env_file = [];
      mapping = [];
      config = record {
        name = name;
        host = field_at m 1;
        port = field_at m 2;
        user = field_at m 3;
        password = field_at m 4;
        database = field_at m 5;
        socket = [];
        tls = field_at m 6;
      };
    } in
    if m.setup_busy
    then (m, [])
    else if is_empty name
    then (note (bytes "A connection name is required") m, [])
    else if env && is_blank (field_at m 1)
    then (note (bytes "An environment file path is required") m, [])
    else (
      record m { setup_busy = true; notice = bytes "Checking connection... Ctrl+c cancels" },
      sets_up (if env then from_env else typed) test m.form_id ∷ [],
    )
