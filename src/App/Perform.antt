-- ===== src/App/Perform.antt =====
-- internal/app/app.go: what one request does, between `begin` and `finish`.
pub mod Frame
pub mod Small
use relvo.Base.{
  text_eq, is_blank, ℕ, ◌+◌, Bool, true, false, not, ◌&&◌, ◌||◌, Option, none, some, List, [], ◌∷◌,
  ◌++◌, ltb, if◌then◌else◌, ok, err, length, any, Text, bytes, is_empty, decimal, ℤ, pos, ◌+ℤ◌,
  ◌-ℤ◌, ltb_ℤ, max_ℤ,
}
use relvo.Data.{
  Config, Table, BrowseRequest, ResultSet, Profile, Action, Snapshot, no_schema, no_result,
  fresh_browse, Kind, kind_of,
}
use relvo.Connections.Resolve.{resolve}
use relvo.App.State.{
  opened, listed, described, browsed, queried, shut, clock, random, World, App, Reply, recover, log,
  panic, redact,
}

unfoldable pub has_table : List Table → Text → Bool
has_table ts name = any (λ t. text_eq t.name name) ts

abbrev row_count : ResultSet → ℕ
row_count r = length r.rows

-- `browse`
unfoldable pub browse : World → App → Snapshot → Reply
browse w a s =
    if is_empty s.browse.table then (a, s, some (bytes "open a table first")) else elim a.store [
      | none ↦ (panic a, s, none)
      | some h ↦
          let b = log (described h s.browse.table) a in
          elim (w.schema a.trace h s.browse.table) [
            | err e ↦ (b, s, some e)
            | ok meta ↦
                let c = log (browsed h s.browse.table) b in
                elim (w.browse b.trace h s.browse) [
                  | err e ↦ (c, s, some e)
                  | ok result ↦ (
                    c,
                    record s {
                      schema = meta;
                      result = result;
                      query = false;
                      status = decimal (row_count result) ++ bytes " rows loaded";
                    },
                    none,
                  )
                ]
          ]
    ]

view_of : Text → List (Text × BrowseRequest) → Option BrowseRequest
view_of k [] = none
view_of k ((j, v) ∷ m) = if text_eq j k then some v else view_of k m

set_view : Text → BrowseRequest → List (Text × BrowseRequest) → List (Text × BrowseRequest)
set_view k v [] = (k, v) ∷ []
set_view k v ((j, u) ∷ m) = if text_eq j k then (k, v) ∷ m else (j, u) ∷ set_view k v m

-- The request to open with: the one that was saved for the connection, for a table that is there.
abbrev start_table : List Table → BrowseRequest → BrowseRequest
start_table ts b = elim ts [
  | [] ↦ b
  | t ∷ _ ↦ if is_empty b.table then record b { table = t.name } else b
]

pub reopen : List (Text × BrowseRequest) → Text → List Table → BrowseRequest
unfolding view_of has_table
reopen views name ts =
    let saved : BrowseRequest = elim (view_of name views) [
      | none ↦ fresh_browse (pos 100)
      | some v ↦ v
    ] in
    start_table ts (if has_table ts saved.table then saved else fresh_browse saved.limit)

-- The old store is closed, and its view kept.
unfoldable pub leave : App → Snapshot → App
unfolding set_view
leave a s = elim a.store [
  | none ↦ a
  | some h ↦ record (log (shut h []) a) { views = set_view s.connection s.browse a.views }
]

-- `connectProfile` once the new store has listed its tables.
unfoldable pub enter : World → App → Snapshot → Config → ℕ → List Table → Reply
unfolding reopen leave browse
enter w a s cfg h ts =
    let b = record (leave a s) { store = some h; password = cfg.password } in
    let t = record s {
      connection = cfg.name;
      database = cfg.database;
      tables = ts;
      schema = no_schema;
      result = no_result;
      query = false;
      pending = none;
      browse = reopen b.views cfg.name ts;
      status = bytes "Connected to " ++ cfg.name;
    } in
    if is_empty t.browse.table
    then (b, t, none)
    else recover (browse w b t) λ c e.
      (c, record t { status = t.status ++ bytes "; table could not be loaded"; error = e }, none)

-- `connectProfile`
unfoldable pub connect_profile : World → App → Snapshot → Profile → Bool → Reply
connect_profile w a s profile test =
    elim (resolve (w.read_env a.trace) (w.lookup_env a.trace) profile) [
      | err e ↦ (a, s, some e)
      | ok cfg ↦
          let b = log (opened cfg) a in
          elim (w.open_store a.trace cfg) [
            | err e ↦ (b, s, some (redact cfg.password e))
            | ok h ↦
                if test
                then (
                  log (shut h []) b,
                  record s { status = bytes "Connection test succeeded: " ++ cfg.name },
                  none,
                )
                else let c = log (listed h []) b in
                  elim (w.tables b.trace h) [
                    | err e ↦ (log (shut h []) c, s, some e)
                    | ok ts ↦ enter w c s cfg h ts
                  ]
          ]
    ]

unfoldable pub find_profile : List Profile → Text → Option Profile
find_profile [] n = none
find_profile (p ∷ ps) n = if text_eq p.name n then some p else find_profile ps n

abbrev max_int : ℤ
max_int = pos 9223372036854775807

-- The kinds that raw query results refuse.
abbrev is_paging : Kind → Bool
is_paging Kind.filter = true
is_paging Kind.clear_filters = true
is_paging Kind.sort = true
is_paging Kind.page_size = true
is_paging Kind.next = true
is_paging Kind.prev = true
is_paging _ = false

abbrev no_table : Snapshot → Snapshot
no_table s = record s {
  browse = fresh_browse (pos 100);
  schema = no_schema;
  result = no_result;
  query = false;
}

pub refresh : World → App → Snapshot → ℕ → Reply
unfolding browse has_table
refresh w a s h =
    let b = log (listed h []) a in
    elim (w.tables a.trace h) [
      | err e ↦ (b, s, some e)
      | ok ts ↦
          let t = record s { tables = ts } in
          if not (has_table ts s.browse.table)
          then (b, record (no_table t) { status = bytes "Table list refreshed" }, none)
          else recover (browse w b t) λ c e. (
            c,
            record t {
              result = no_result;
              query = false;
              status = bytes "Table list refreshed; current table could not reload";
              error = e;
            },
            none,
          )
    ]

pub raw_query : World → App → Snapshot → ℕ → Text → Reply
raw_query w a s h sql =
    if is_blank sql
    then (a, s, some (bytes "SQL is empty"))
    else let b = log (queried h sql) a in
      elim (w.query a.trace h sql) [
        | err e ↦ (b, s, some e)
        | ok r ↦ (
          b,
          record s {
            result = r;
            query = true;
            status =
                bytes "Query returned " ++ decimal (row_count r) ++ bytes " rows (maximum 1000)";
          },
          none,
        )
      ]

abbrev approval_time : ℕ
approval_time = 300000000000

-- `case "write"`. The clock is read only if a write is pending.
unfoldable pub stage : World → App → Snapshot → Text → Reply
stage w a s sql =
    if not s.writes_enabled
    then (
      a,
      s,
      some (
          bytes
            "writes are disabled; restart with --allow-writes and use a suitable database account"),
    )
    else if is_blank sql || ltb 524288 (length sql)
    then (a, s, some (bytes "SQL must contain 1..524288 bytes"))
    else let (b, waiting) : App × Bool = elim s.pending [
      | none ↦ (a, false)
      | some p ↦ (log clock a, ltb (w.now a.trace) p.expires)
    ] in
      if waiting
      then (b, s, some (bytes "a write is already awaiting local approval"))
      else let c = log random b in
        (
          log clock c,
          record s {
            pending = some (record {
              id = w.random_text b.trace;
              connection = s.connection;
              database = s.database;
              sql = sql;
              expires = w.now c.trace + approval_time;
            });
            status =
                bytes
                  "Write staged; review and approve in the local TUI. Nothing has been executed.";
          },
          none,
        )

-- The second `switch` of `perform`, with the store that is connected.
unfoldable pub act : World → App → Snapshot → Action → ℕ → Kind → Reply
unfolding browse refresh raw_query stage has_table
act w a s x h Kind.open_table =
    if not (has_table s.tables x.table)
    then (a, s, some (bytes "unknown table; refresh the table list if it was recently created"))
    else browse w a (record s {
      browse = record (fresh_browse s.browse.limit) { table = x.table; filters = x.filters };
    })
act w a s x h Kind.filter =
    browse w a (record s { browse = record (s.browse) { filters = x.filters; offset = pos 0 } })
act w a s x h Kind.clear_filters =
    browse w a (record s { browse = record (s.browse) { filters = []; offset = pos 0 } })
act w a s x h Kind.sort =
    browse w a
      (record s { browse = record (s.browse) { sort = x.sort; desc = x.desc; offset = pos 0 } })
act w a s x h Kind.page_size =
    if ltb_ℤ x.page_size (pos 1) || ltb_ℤ (pos 1000) x.page_size
    then (a, s, some (bytes "page size must be between 1 and 1000"))
    else browse w a
        (record s { browse = record (s.browse) { limit = x.page_size; offset = pos 0 } })
act w a s x h Kind.next =
    if not s.result.has_more
    then (a, s, none)
    else if ltb_ℤ (max_int -ℤ s.browse.limit) s.browse.offset
    then (a, s, some (bytes "page offset overflow"))
    else browse w a
        (record s { browse = record (s.browse) { offset = s.browse.offset +ℤ s.browse.limit } })
act w a s x h Kind.prev = browse w a (record s {
  browse = record (s.browse) { offset = max_ℤ (pos 0) (s.browse.offset -ℤ s.browse.limit) };
})
act w a s x h Kind.refresh = refresh w a s h
act w a s x h Kind.query = raw_query w a s h x.sql
act w a s x h Kind.write = stage w a s x.sql
act w a s x h _ = (a, s, some (bytes "unknown action " ++ x.type))

abbrev is_connect : Kind → Bool
is_connect Kind.connect = true
is_connect Kind.test = true
is_connect _ = false

abbrev pub is_test : Kind → Bool
is_test Kind.test = true
is_test _ = false

-- `perform`
unfoldable pub perform : World → App → Snapshot → Action → Reply
perform w a s x =
    let k = kind_of x.type in
    elim (w.context_error a.trace) [
      | some e ↦ (a, s, some e)
      | none ↦
          if is_connect k
          then elim (find_profile a.profiles x.connection) [
            | none ↦ (a, s, some (bytes "unknown connection"))
            | some p ↦ connect_profile w a s p (is_test k)
          ]
          else elim a.store [
            | none ↦ (a, s, some (bytes "choose a connection first"))
            | some h ↦
                if s.query && is_paging k
                then (
                  a,
                  s,
                  some (bytes "raw query results are bounded; edit SQL to filter or paginate"),
                )
                else act w a s x h k
          ]
    ]
