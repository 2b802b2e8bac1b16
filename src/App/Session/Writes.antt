-- ===== src/App/Session/Writes.antt =====
-- Which statements are executed: only what a person approved, once, and nothing that a tool asks.
use relvo.Base.{
  ℕ, ◌≤◌, ◌≡◌, refl, sym, ap, ◌∙◌, ◌≢◌, ◌⊎◌, inl, inr, Bool, true, Option, none, some, [], ◌∷◌,
  ◌++◌, arith, ltb, Bool-cases, Option-cases, Result-cases, Text, bytes, text_eq_iff, decimal_ℤ,
}
use relvo.Data.{ResultSet, Profile, Action, PendingWrite, Snapshot}
use relvo.App.State.{listed, clock, World, App, Reply, guarded, log, publish, cancel, begin, finish}
use relvo.App.Perform.Frame.{writes, Carries, connect_profile-Performed, perform-Performed}
use relvo.App.Perform.{browse, connect_profile, perform}
use relvo.App.Session.{
  finish_reply, dispatch, setup_begun, setup, not_approved, matches, reload, show_outcome,
  after_write, execute_write, approve_begun, approve,
}
use relvo.App.Session.Invariant.{
  Inv, log-Inv, begin-Inv, Begun, begin_cases, Inv-Carries, reload-Performed,
  show_outcome-Performed, consumed, consumed-Inv, consumed-Carries, unapproved,
  execute_write_failed, execute_write_done,
}

finish-writes :
    (a : App) (s : Snapshot) (e : Option Text) → writes (finish a s e).0.trace ≡ writes a.trace
unfolding finish publish
finish-writes a s e = refl

finish-pending : (a : App) (s : Snapshot) → (finish a s none).0.state.pending ≡ s.pending
unfolding finish publish
finish-pending a s = refl

finish-pending_failed :
    (a : App) (s : Snapshot) (e : Text) → (finish a s (some e)).0.state.pending ≡ a.state.pending
unfolding finish publish
finish-pending_failed a s e = refl

finish_reply-writes : (r : Reply) → writes (finish_reply r).0.trace ≡ writes r.0.trace
finish_reply-writes (a, s, e) = finish-writes a s e

guarded-writes :
    (a : App) (k : App → Snapshot → Reply)
    → ((b : App) → Begun a b → Inv b → writes (k b b.state).0.trace ≡ writes b.trace)
    → Inv a
    → writes (guarded (begin a) k).0.trace ≡ writes a.trace
guarded-writes a k h v = elim (begin_cases a) [
  | inl (e, q) ↦ rw q
  | inr (b, q, u) ↦ rw q (h b u (rw q at (begin-Inv a v)) ∙ ap writes u.trace)
]

pub cancel-writes : (a : App) → writes (cancel a).trace ≡ writes a.trace
unfolding cancel
cancel-writes a = ground arith

-- On an object that keeps the invariant, `Dispatch` executes no statement, whatever the action asks
-- and however it ends.
pub dispatch-writes :
    (w : World) (a : App) (x : Action) → Inv a → writes (dispatch w a x).0.trace ≡ writes a.trace
unfolding dispatch
dispatch-writes w a x v =
    let served =
      guarded-writes a (λ b s. finish_reply (perform w b s x))
        (λ b u i.
          finish_reply-writes (perform w b b.state x)
          ∙ (perform-Performed w b b.state x (Inv-Carries b i) i.views_paged).frame.written)
        v in
    ground (arith, served, cancel-writes a)

setup_begun-writes :
    (w : World) (p : Profile) (test : Bool) (a : App)
    → Inv a
    → writes (setup_begun w p test a a.state).0.trace ≡ writes a.trace
unfolding setup_begun
setup_begun-writes w p test a v =
    let q = connect_profile-Performed w a a.state p test (Inv-Carries a v) v.views_paged in
    let (b, t, e) = connect_profile w a a.state p test in
    ground (
      arith,
      q.frame.written,
      finish-writes a a.state (some (bytes "connection name is required")),
      finish-writes a a.state (some (bytes "connection name already exists; choose a new name")),
      finish-writes b t e,
      finish-writes (record b { profiles = b.profiles ++ p ∷ [] })
          (record t { connections = t.connections ++ p.name ∷ [] }) none,
    )

-- On an object that keeps the invariant, `Setup` executes no statement, whether it tests or connects.
pub setup-writes :
    (w : World) (a : App) (p : Profile) (test : Bool)
    → Inv a
    → writes (setup w a p test).0.trace ≡ writes a.trace
unfolding setup
setup-writes w a p test v =
    guarded-writes a (setup_begun w p test) (λ b u i. setup_begun-writes w p test b i) v

-- What an approval that executes something was: of the statement that was pending, under its
-- identifier, with writes enabled, in time, and on the store that is open while the snapshot has the
-- connection and the database that it was staged for.
pub record Approved (w : World) (a b : App) (id : Text) : Type 0 where
  pub pending : PendingWrite
  pub staged : a.state.pending ≡ some pending
  pub same_id : pending.id ≡ id
  pub allowed : a.state.writes_enabled ≡ true
  pub same_connection : pending.connection ≡ a.state.connection
  pub same_database : pending.database ≡ a.state.database
  pub in_time : w.now a.trace ≤ pending.expires
  pub handle : ℕ
  pub connected : a.store ≡ some handle
  pub once : writes b.trace ≡ (handle, pending.sql) ∷ writes a.trace
  pub spent : b.state.pending ≡ none

browse-pending : (w : World) (a : App) (s : Snapshot) → (browse w a s).1.pending ≡ s.pending
unfolding browse
browse-pending w a s = ground arith

reload-pending :
    (w : World) (a : App) (s : Snapshot) (h : ℕ) → (reload w a s h).1.pending ≡ s.pending
unfolding reload
reload-pending w a s h = elim (Result-cases (w.tables a.trace h)) [
  | inr (e, q) ↦ ground arith
  | inl (ts, q) ↦ ground (arith, browse-pending w (log (listed h []) a) (record s { tables = ts }))
]

shown-pending :
    (status : Text) (r : Reply)
    → (finish_reply (show_outcome status r)).0.state.pending ≡ r.1.pending
unfolding show_outcome finish publish
shown-pending status (a, s, none) = refl
shown-pending status (a, s, some e) = refl

after_write-pending :
    (w : World) (a : App) (s : Snapshot) (h : ℕ) (r : ResultSet)
    → (after_write w a s h r).0.state.pending ≡ s.pending
unfolding after_write
after_write-pending w a s h r = shown-pending _ _ ∙ reload-pending w a _ h

after_write-writes :
    (w : World) (a : App) (s : Snapshot) (h : ℕ) (r : ResultSet)
    → Inv a
    → a.store ≢ none
    → ((status : Text) → Carries a.state a (record s { status = status }))
    → writes (after_write w a s h r).0.trace ≡ writes a.trace
unfolding after_write
after_write-writes w a s h r v n c =
    let status = bytes "Write executed: " ++ decimal_ℤ r.affected ++ bytes " rows affected" in
    finish_reply-writes _
    ∙ (show_outcome-Performed a a.state status _ (
        reload-Performed w a a.state (record s { status = status }) h n (c status)
          v.views_paged)).frame.written

consumed-writes :
    (h : ℕ) (sql : Text) (a : App) → writes (consumed h sql a).trace ≡ (h, sql) ∷ writes a.trace
unfolding publish
consumed-writes h sql a = refl

consumed-store : (h : ℕ) (sql : Text) (a : App) → (consumed h sql a).store ≡ a.store
unfolding publish
consumed-store h sql a = refl

consumed-pending : (h : ℕ) (sql : Text) (a : App) → (consumed h sql a).state.pending ≡ none
unfolding publish
consumed-pending h sql a = refl

-- What `execute_write` leaves.
execute_write-writes :
    (w : World) (p : PendingWrite) (a : App)
    → Inv a
    → a.op_held ≡ true
    → a.state.pending ≢ none
    → let b = (execute_write w p a a.state).0 in
      (h : ℕ) × (a.store ≡ some h)
      × (writes b.trace ≡ (h, p.sql) ∷ writes a.trace)
      × (b.state.pending ≡ none)
execute_write-writes w p a v held waits = elim (Option-cases a.store) [
  | inl e ↦ absurd ((v.pending waits).1 e)
  | inr (h, e) ↦
      let c = consumed h p.sql a in
      let i = consumed-Inv h p.sql a v held in
      let stored : c.store ≢ none = rw (consumed-store h p.sql a, e) (λ n. cc) in
      elim (Result-cases (w.execute a.trace h p.sql)) [
        | inr (x, q) ↦ rw (execute_write_failed w p a h x e q) (
          h,
          e,
          finish-writes c _ _ ∙ consumed-writes h p.sql a,
          finish-pending_failed c _ _ ∙ consumed-pending h p.sql a,
        )
        | inl (r, q) ↦ rw (execute_write_done w p a h r e q) (
          h,
          e,
          after_write-writes w c (unapproved a) h r i stored (λ s. consumed-Carries h p.sql s a v)
              ∙ consumed-writes h p.sql a,
          after_write-pending w c (unapproved a) h r,
        )
      ]
]

matches_all :
    (s : Snapshot) (p : PendingWrite) (id : Text)
    → matches s p id ≡ true
    → (p.id ≡ id)
      × (s.writes_enabled ≡ true)
      × (p.connection ≡ s.connection)
      × (p.database ≡ s.database)
unfolding matches
matches_all s p id h = ground (
  arith,
  text_eq_iff p.id id,
  text_eq_iff p.connection s.connection,
  text_eq_iff p.database s.database,
)

approve_begun-writes :
    (w : World) (id : Text) (a : App)
    → Inv a
    → a.op_held ≡ true
    → let b = (approve_begun w id a a.state).0 in
      (writes b.trace ≡ writes a.trace) ⊎ Approved w a b id
unfolding approve_begun
approve_begun-writes w id a v held = elim (Option-cases a.state.pending) [
  | inl e ↦ inl (rw (e, approve_begun) (finish-writes a _ _))
  | inr (p, e) ↦ elim (Bool-cases (matches a.state p id)) [
    | inr m ↦ inl (ground (arith, finish-writes a a.state (some not_approved)))
    | inl m ↦ elim (Bool-cases (ltb p.expires (w.now a.trace))) [
      | inl late ↦ inl (ground (arith, finish-writes (log clock a) a.state (some not_approved)))
      | inr timely ↦
          let done = execute_write-writes w p (log clock a) (log-Inv clock a v) held (λ n. cc) in
          let same = matches_all a.state p id m in
          inr (record {
            pending = p;
            staged = e;
            same_id = same.0;
            allowed = same.1;
            same_connection = same.2;
            same_database = same.3;
            in_time = ground arith;
            handle = done.0;
            connected = done.1;
            once = ground (arith, done.2);
            spent = ground (arith, done.3);
          })
    ]
  ]
]

since-Begun :
    {w : World} {a b c : App} {id : Text}
    → Begun a b
    → (writes c.trace ≡ writes b.trace) ⊎ Approved w b c id
    → (writes c.trace ≡ writes a.trace) ⊎ Approved w a c id
since-Begun u (inl e) = inl (e ∙ ap writes u.trace)
since-Begun {w} u (inr p) = inr (record {
  pending = p.pending;
  staged = sym u.pending ∙ p.staged;
  same_id = p.same_id;
  allowed = sym u.enabled ∙ p.allowed;
  same_connection = p.same_connection ∙ u.connection;
  same_database = p.same_database ∙ u.database;
  in_time = rw u.trace at p.in_time;
  handle = p.handle;
  connected = sym u.store ∙ p.connected;
  once = rw u.trace at p.once;
  spent = p.spent;
})

-- On an object that keeps the invariant, an approval executes nothing, or it executes just the
-- pending statement, once, on the store that is open: under its identifier, with writes enabled, not
-- past its time, and while the snapshot has the connection and the database that it was staged for;
-- then no statement is pending.
pub approve-writes :
    (w : World) (a : App) (id : Text)
    → Inv a
    → let b = (approve w a id).0 in (writes b.trace ≡ writes a.trace) ⊎ Approved w a b id
unfolding approve
approve-writes w a id v = elim (begin_cases a) [
  | inl (e, q) ↦ inl (rw q)
  | inr (b, q, u) ↦
      rw q (since-Begun u (approve_begun-writes w id b (rw q at (begin-Inv a v)) u.held))
]
