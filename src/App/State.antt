-- ===== src/App/State.antt =====
-- internal/app/app.go: the object `App`, what it calls, and the short critical sections under `mu`.
-- A call of a database store, of the clock, of the random source or of a cancel function is an
-- `Event` of the trace, and every answer is a function of the trace so far, so that no two calls
-- need to agree. `panicked` records what would end the process: a send on the closed channel of
-- events, or the use of a nil store.
use relvo.Base.{
  text_eq, is_blank, ℕ, ◌+◌, ◌%◌, ◌^◌, Bool, true, false, not, ◌||◌, Option, none, some, List, [],
  ◌∷◌, ◌++◌, if◌then◌else◌, Result, ok, err, any, Text, bytes, is_empty, replace_all, pos,
}
use relvo.Data.{
  Config, Table, Schema, BrowseRequest, ResultSet, Profile, Snapshot, no_schema, no_result,
  fresh_browse,
}

pub data Event : Type 0 where
  opened : Config → Event
  listed described browsed queried executed shut : ℕ → Text → Event
  clock random cancelled : Event

abbrev pub Trace : Type 0
Trace = List Event

-- `Options.Open`, the stores that it returns (named by numbers), the context of a request, the
-- files, the environment and the clock.
pub record World : Type 0 where
  pub open_store : Trace → Config → Result Text ℕ
  pub tables : Trace → ℕ → Result Text (List Table)
  pub schema : Trace → ℕ → Text → Result Text Schema
  pub browse : Trace → ℕ → BrowseRequest → Result Text ResultSet
  pub query : Trace → ℕ → Text → Result Text ResultSet
  pub execute : Trace → ℕ → Text → Result Text ResultSet
  pub close_store : Trace → ℕ → Option Text
  pub context_error : Trace → Option Text
  pub now : Trace → ℕ
  pub random_text : Trace → Text
  pub read_env : Trace → Text → Result Text (List (Text × Text))
  pub lookup_env : Trace → Text → Option Text

pub record App : Type 0 where
  pub op_held : Bool  -- the mutex `op`
  pub state : Snapshot
  pub profiles : List Profile
  pub store : Option ℕ
  pub password : Text
  pub views : List (Text × BrowseRequest)
  pub buffer : Option Snapshot  -- the channel `events`, of capacity 1
  pub cancel : Bool  -- is the field `cancel` set?
  pub closed : Bool
  pub trace : Trace
  pub panicked : Bool

-- A snapshot and an error, as `(Snapshot, error)`, with the object after the call.
abbrev pub Reply : Type 0
Reply = App × Snapshot × Option Text

-- What follows a call that succeeded, and what follows one that failed.
abbrev pub guarded : Reply → (App → Snapshot → Reply) → Reply
guarded (a, s, some e) k = (a, s, some e)
guarded (a, s, none) k = k a s

abbrev pub recover : Reply → (App → Text → Reply) → Reply
recover (a, s, none) k = (a, s, none)
recover (a, s, some e) k = k a e

abbrev pub log : Event → App → App
log e a = record a { trace = e ∷ a.trace }

abbrev pub panic : App → App
panic a = record a { panicked = true }

-- uint64
abbrev next_revision : ℕ → ℕ
next_revision n = (n + 1) % 2 ^ 64

-- `publishLocked`: the newest state replaces what is buffered.
unfoldable pub publish : App → App
publish a =
    let s = record (a.state) { revision = next_revision a.state.revision } in
    record a { state = s; buffer = some s; panicked = a.panicked || a.closed }

-- `Cancel`
unfoldable pub cancel : App → App
cancel a = if a.cancel then log cancelled a else a

-- `Events`, as a receive that does not wait.
unfoldable pub receive : App → Option Snapshot × App
receive a = (a.buffer, record a { buffer = none })

abbrev pub has_name : List Profile → Text → Bool
has_name ps n = any (λ p. text_eq p.name n) ps

abbrev pub op_busy : Text
op_busy = bytes "another operation is in progress; cancel it or wait"

abbrev pub app_closed : Text
app_closed = bytes "application is closed"

-- `AddProfile`
unfoldable pub add_profile : App → Profile → App × Option Text
unfolding publish
add_profile a p =
    if a.op_held
    then (a, some (bytes "another operation is in progress"))
    else if a.closed
    then (a, some app_closed)
    else if is_blank p.name
    then (a, some (bytes "connection name is required"))
    else if has_name a.profiles p.name
    then (a, some (bytes "connection " ++ p.name ++ bytes " already exists"))
    else (
      publish (record a {
        profiles = a.profiles ++ p ∷ [];
        state = record (a.state) { connections = a.state.connections ++ p.name ∷ [] };
      }),
      none,
    )

abbrev pub start : Bool → App
start allow_writes = record {
  op_held = false;
  state = record {
    revision = 0;
    connection = [];
    database = [];
    connections = [];
    tables = [];
    schema = no_schema;
    browse = fresh_browse (pos 100);
    result = no_result;
    busy = false;
    error = [];
    status = bytes "Choose a connection with c, add one with n, or open an .env with e";
    query = false;
    pending = none;
    writes_enabled = allow_writes;
  };
  profiles = [];
  store = none;
  password = [];
  views = [];
  buffer = none;
  cancel = false;
  closed = false;
  trace = [];
  panicked = false;
}

-- The loop of `New`.
unfoldable pub add_all : App → List Profile → Result Text App
add_all a [] = ok a
add_all a (p ∷ ps) =
    let (b, error) = add_profile a p in elim error [ some e ↦ err e | none ↦ add_all b ps ]

-- `New`; the opener is part of the world, and is there.
unfoldable pub new : Bool → List Profile → Result Text App
new allow_writes ps = add_all (start allow_writes) ps

-- `begin`
unfoldable pub begin : App → Reply
unfolding publish
begin a =
    if a.op_held
    then (a, a.state, some op_busy)
    else if a.closed
    then (a, a.state, some app_closed)
    else let a' = publish (record a {
      op_held = true;
      cancel = true;
      state = record (a.state) { busy = true; error = [] };
    }) in
      (a', a'.state, none)

abbrev pub redact : Text → Text → Text
redact password message =
    if is_empty password then message else replace_all message password (bytes "[redacted]")

-- `finish`. Calling the cancel function of a context that has ended is an event like any other.
unfoldable pub finish : App → Snapshot → Option Text → Reply
unfolding publish
finish a s error =
    let b = record (log cancelled a) { cancel = false; panicked = a.panicked || not a.cancel } in
    let t : Snapshot = elim error [
      | some e ↦ record (a.state) { error = redact a.password e; busy = false }
      | none ↦ record s { revision = a.state.revision; busy = false }
    ] in
    let c = record (publish (record b { state = t })) { op_held = false } in
    (c, c.state, elim error [ some e ↦ some (redact a.password e) | none ↦ none ])

-- `Close`. `none` stands for waiting on the mutex `op`.
unfoldable pub close : World → App → Option (App × Option Text)
unfolding cancel
close w a =
    let b = cancel a in
    if b.op_held
    then none
    else if b.closed
    then some (b, none)
    else let c = record b { closed = true } in
      some
        (elim c.store [ none ↦ (c, none) | some h ↦ (log (shut h []) c, w.close_store c.trace h) ])

-- `Reject`
unfoldable pub reject : App → Text → App × Option Text
unfolding publish
reject a id =
    if a.op_held
    then (a, some (bytes "another operation is in progress"))
    else if a.closed
    then (a, some app_closed)
    else elim a.state.pending [
      | none ↦ (a, some (bytes "write request is no longer pending"))
      | some p ↦
          if not (text_eq p.id id)
          then (a, some (bytes "write request is no longer pending"))
          else (
            publish (record a {
              state = record (a.state) {
                pending = none;
                status = bytes "Write rejected; nothing was executed";
              };
            }),
            none,
          )
    ]
