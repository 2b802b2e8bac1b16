-- ===== src/App/Session.antt =====
-- internal/app/app.go: the requests, from `begin` to `finish`.
pub mod Invariant
pub mod Writes
pub mod History
use relvo.Base.{
  text_eq, is_blank, ℕ, Bool, false, not, ◌&&◌, none, some, [], ◌∷◌, ◌++◌, ltb, if◌then◌else◌, ok,
  err, Text, bytes, pos, decimal_ℤ,
}
use relvo.Data.{
  ResultSet, Profile, Action, PendingWrite, Snapshot, no_schema, no_result, fresh_browse, Kind,
  kind_of,
}
use relvo.App.State.{
  listed, executed, clock, World, App, Reply, guarded, log, panic, publish, cancel, has_name, begin,
  finish,
}
use relvo.App.Perform.{has_table, browse, connect_profile, perform}

abbrev pub finish_reply : Reply → Reply
finish_reply (a, s, e) = finish a s e

-- `Dispatch`
pub dispatch : World → App → Action → Reply
dispatch w a x =
    let run : Reply = guarded (begin a) (λ b s. finish_reply (perform w b s x)) in
    elim (kind_of x.type) [
      | Kind.state ↦ (a, a.state, none)
      | Kind.cancel ↦ let b = cancel a in (b, b.state, none)
      | _ ↦ run
    ]

-- `Setup`, after `begin`.
pub setup_begun : World → Profile → Bool → App → Snapshot → Reply
setup_begun w p test a s =
    if is_blank p.name
    then finish a s (some (bytes "connection name is required"))
    else if has_name a.profiles p.name
    then finish a s (some (bytes "connection name already exists; choose a new name"))
    else finish_reply (
        guarded (connect_profile w a s p test) λ b t. if test then (b, t, none) else (
          record b { profiles = b.profiles ++ p ∷ [] },
          record t { connections = t.connections ++ p.name ∷ [] },
          none,
        ))

-- `Setup`
pub setup : World → App → Profile → Bool → Reply
setup w a p test = guarded (begin a) (setup_begun w p test)

abbrev pub not_approved : Text
not_approved = bytes "write approval is missing, expired, or no longer matches this connection"

abbrev pub unknown_outcome : Text
unknown_outcome =
    bytes "write failed or its outcome is unknown; inspect the database before retrying: "

-- The tests of `Approve` before the clock is read.
pub matches : Snapshot → PendingWrite → Text → Bool
matches s p id =
    text_eq p.id id
    && s.writes_enabled
    && text_eq p.connection s.connection
    && text_eq p.database s.database

-- The list of tables, and the table that is shown, after a write.
pub reload : World → App → Snapshot → ℕ → Reply
reload w a s h =
    let b = log (listed h []) a in
    elim (w.tables a.trace h) [
      | err e ↦ (b, s, some e)
      | ok ts ↦
          let t = record s { tables = ts } in
          if has_table ts t.browse.table then browse w b t else (
            b,
            record t {
              browse = fresh_browse (pos 100);
              schema = no_schema;
              result = no_result;
              query = false;
            },
            none,
          )
    ]

pub show_outcome : Text → Reply → Reply
show_outcome status (a, s, none) = (a, record s { status = status }, none)
show_outcome status (a, s, some e) = (
  a,
  record s { result = no_result; status = status ++ bytes "; refresh failed, press r to retry" },
  none,
)

pub after_write : World → App → Snapshot → ℕ → ResultSet → Reply
after_write w a s h r =
    let status = bytes "Write executed: " ++ decimal_ℤ r.affected ++ bytes " rows affected" in
    finish_reply (show_outcome status (reload w a (record s { status = status }) h))

-- `Approve`, once the request is known to match: it is consumed, then executed.
pub execute_write : World → PendingWrite → App → Snapshot → Reply
execute_write w p a s =
    let b = publish (record a { state = record (a.state) { pending = none } }) in
    let t = record s { pending = none } in
    elim b.store [
      | none ↦ (panic b, t, none)
      | some h ↦
          let c = log (executed h p.sql) b in
          elim (w.execute b.trace h p.sql) [
            | err e ↦ finish c t (some (unknown_outcome ++ e))
            | ok r ↦ after_write w c t h r
          ]
    ]

-- `Approve`, after `begin`.
pub approve_begun : World → Text → App → Snapshot → Reply
approve_begun w id a s = elim s.pending [
  | none ↦ finish a s (some not_approved)
  | some p ↦
      if not (matches s p id)
      then finish a s (some not_approved)
      else let b = log clock a in
        if ltb p.expires (w.now a.trace)
        then finish b s (some not_approved)
        else execute_write w p b s
]

-- `Approve`
pub approve : World → App → Text → Reply
approve w a id = guarded (begin a) (approve_begun w id)
