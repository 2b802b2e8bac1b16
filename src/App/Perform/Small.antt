-- ===== src/App/Perform/Small.antt =====
-- What the stores promise of the size of a result, and what the session makes of it.
use relvo.Base.{
  ℕ, ◌≤◌, ◌≡◌, inl, inr, Bool, false, none, some, List, [], ◌∷◌, ◌++◌, arith, Option-cases, ok,
  Result-cases, length, Text, bytes, pos, pos_part, ◌+ℤ◌, ◌-ℤ◌, max_ℤ,
}
use relvo.Data.{
  Config, Table, BrowseRequest, ResultSet, Profile, Action, Snapshot, no_schema, no_result,
  fresh_browse, Kind, kind_of,
}
use relvo.Connections.Resolve.{resolve}
use relvo.App.State.{opened, listed, described, Trace, World, App, log}
use relvo.App.Perform.{
  browse, reopen, leave, enter, connect_profile, find_profile, refresh, raw_query, stage, act,
  is_test, perform,
}
use relvo.App.Perform.Frame.{IsPaged, ViewsPaged, reopen-IsPaged, leave-Left}

abbrev pub most_rows : ℕ
most_rows = 1000

-- The contract of the interface `Store`: a page has at most the rows that were asked for, and a query
-- at most 1000.
pub record Contract (w : World) : Type 0 where
  pub browse_small :
      (t : Trace) (h : ℕ) (req : BrowseRequest) (r : ResultSet)
      → w.browse t h req ≡ ok r
      → length r.rows ≤ pos_part req.limit
  pub query_small :
      (t : Trace) (h : ℕ) (sql : Text) (r : ResultSet)
      → w.query t h sql ≡ ok r
      → length r.rows ≤ most_rows

-- The result of a snapshot has at most 1000 rows.
abbrev pub Small : Snapshot → Type 0
Small s = length s.result.rows ≤ most_rows

module _ (w : World) (contract : Contract w) where
  pub browse-Small : (a : App) (s : Snapshot) → IsPaged s.browse → Small s → Small (browse w a s).1
  unfolding browse
  browse-Small a s p h = elim (Option-cases a.store) [
    | inl e ↦ ground arith
    | inr (n, e) ↦ elim (Result-cases (w.schema a.trace n s.browse.table)) [
      | inr (x, q) ↦ ground arith
      | inl (meta, q) ↦
          let b = log (described n s.browse.table) a in
          elim (Result-cases (w.browse b.trace n s.browse)) [
            | inr (x, r) ↦ ground arith
            | inl (res, r) ↦ ground (arith, contract.browse_small b.trace n s.browse res r)
          ]
    ]
  ]

  -- The snapshot of a connection that was entered, before its table is browsed.
  abbrev entered : Snapshot → Config → BrowseRequest → List Table → Snapshot
  entered s cfg first ts = record s {
    connection = cfg.name;
    database = cfg.database;
    tables = ts;
    schema = no_schema;
    result = no_result;
    query = false;
    pending = none;
    browse = first;
    status = bytes "Connected to " ++ cfg.name;
  }

  enter-Small :
      (a : App) (s : Snapshot) (cfg : Config) (h : ℕ) (ts : List Table)
      → IsPaged s.browse
      → ViewsPaged a.views
      → Small (enter w a s cfg h ts).1
  unfolding enter
  enter-Small a s cfg h ts p v =
      let l = leave-Left a s p v in
      let b : App = record (leave a s) { store = some h; password = cfg.password } in
      let paged = reopen-IsPaged (leave a s).views cfg.name ts l.views in
      ground (arith, browse-Small b (entered s cfg (reopen (leave a s).views cfg.name ts) ts) paged)

  pub connect_profile-Small :
      (a : App) (s : Snapshot) (p : Profile) (test : Bool)
      → IsPaged s.browse
      → ViewsPaged a.views
      → Small s
      → Small (connect_profile w a s p test).1
  unfolding connect_profile
  connect_profile-Small a s p test c v small =
      elim (Result-cases (resolve (w.read_env a.trace) (w.lookup_env a.trace) p)) [
        | inr (e, q) ↦ ground arith
        | inl (cfg, q) ↦ elim (Result-cases (w.open_store a.trace cfg)) [
          | inr (e, r) ↦ ground arith
          | inl (h, r) ↦ elim (Result-cases (w.tables (opened cfg ∷ a.trace) h)) [
            | inr (e, t) ↦ ground arith
            | inl (ts, t) ↦
                ground (arith, enter-Small (log (listed h []) (log (opened cfg) a)) s cfg h ts c v)
          ]
        ]
      ]

  refresh-Small :
      (a : App) (s : Snapshot) (h : ℕ) → IsPaged s.browse → Small s → Small (refresh w a s h).1
  unfolding refresh
  refresh-Small a s h c small = elim (Result-cases (w.tables a.trace h)) [
    | inr (e, q) ↦ ground arith
    | inl (ts, q) ↦
        ground (arith, browse-Small (log (listed h []) a) (record s { tables = ts }) c small)
  ]

  raw_query-Small :
      (a : App) (s : Snapshot) (h : ℕ) (sql : Text) → Small s → Small (raw_query w a s h sql).1
  unfolding raw_query
  raw_query-Small a s h sql small = elim (Result-cases (w.query a.trace h sql)) [
    | inr (x, r) ↦ ground arith
    | inl (res, r) ↦ ground (arith, contract.query_small a.trace h sql res r)
  ]

  stage-Small : (a : App) (s : Snapshot) (sql : Text) → Small s → Small (stage w a s sql).1
  unfolding stage
  stage-Small a s sql small = ground arith

  act-Small :
      (a : App) (s : Snapshot) (x : Action) (h : ℕ) (k : Kind)
      → IsPaged s.browse
      → Small s
      → Small (act w a s x h k).1
  unfolding act
  act-Small a s x h Kind.query c small = raw_query-Small a s h x.sql small
  act-Small a s x h Kind.write c small = stage-Small a s x.sql small
  act-Small a s x h Kind.refresh c small = refresh-Small a s h c small
  act-Small a s x h Kind.open_table c small = ground (
    arith,
    browse-Small a (record s {
      browse = record (fresh_browse s.browse.limit) { table = x.table; filters = x.filters };
    }),
  )
  act-Small a s x h Kind.filter c small = ground (
    arith,
    browse-Small a
        (record s { browse = record (s.browse) { filters = x.filters; offset = pos 0 } }),
  )
  act-Small a s x h Kind.clear_filters c small = ground (
    arith,
    browse-Small a (record s { browse = record (s.browse) { filters = []; offset = pos 0 } }),
  )
  act-Small a s x h Kind.sort c small = ground (
    arith,
    browse-Small a
        (record s { browse = record (s.browse) { sort = x.sort; desc = x.desc; offset = pos 0 } }),
  )
  act-Small a s x h Kind.page_size c small = ground (
    arith,
    browse-Small a
        (record s { browse = record (s.browse) { limit = x.page_size; offset = pos 0 } }),
  )
  act-Small a s x h Kind.next c small = ground (
    arith,
    browse-Small a
        (record s { browse = record (s.browse) { offset = s.browse.offset +ℤ s.browse.limit } }),
  )
  act-Small a s x h Kind.prev c small = ground (
    arith,
    browse-Small a (record s {
      browse = record (s.browse) { offset = max_ℤ (pos 0) (s.browse.offset -ℤ s.browse.limit) };
    }),
  )
  act-Small a s x h _ c small = ground arith

  pub perform-Small :
      (a : App) (s : Snapshot) (x : Action)
      → IsPaged s.browse
      → ViewsPaged a.views
      → Small s
      → Small (perform w a s x).1
  unfolding perform
  perform-Small a s x c v small = elim (Option-cases a.store) [
    | inl e ↦ elim (Option-cases (find_profile a.profiles x.connection)) [
      | inl q ↦ ground arith
      | inr (p, q) ↦
          ground (arith, connect_profile-Small a s p (is_test (kind_of x.type)) c v small)
    ]
    | inr (h, e) ↦
        let acted = act-Small a s x h (kind_of x.type) c small in
        elim (Option-cases (find_profile a.profiles x.connection)) [
          | inl q ↦ ground (arith, acted)
          | inr (p, q) ↦
              ground
                (arith, acted, connect_profile-Small a s p (is_test (kind_of x.type)) c v small)
        ]
  ]
