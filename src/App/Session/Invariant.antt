-- ===== src/App/Session/Invariant.antt =====
-- What holds of the object between any two critical sections, also while a request is under way.
use relvo.Base.{
  text_eq, ℕ, ◌≡◌, refl, sym, ap, subst, ◌≢◌, ◌⊎◌, inl, inr, Bool, true, false, ◌||◌, Option, none,
  some, List, [], ◌∷◌, ◌++◌, map, arith, Bool-cases, Option-cases, ok, err, Result-cases, Text,
  bytes, text_eq_iff, decimal_ℤ,
}
use relvo.Data.{ResultSet, Profile, Action, PendingWrite, Snapshot}
use relvo.App.State.{
  Event, listed, executed, clock, World, App, Reply, guarded, log, publish, cancel, receive,
  has_name, op_busy, app_closed, add_profile, start, add_all, new, begin, finish, close, reject,
}
use relvo.App.Perform.{connect_profile, perform}
use relvo.App.Session.{
  finish_reply, dispatch, setup_begun, setup, not_approved, unknown_outcome, reload, show_outcome,
  after_write, execute_write, approve_begun, approve,
}
use relvo.App.Perform.Frame.{
  IsPaged, Frame, Carries, ViewsPaged, Performed, browse-Performed, connect_profile-Performed,
  perform-Performed,
}

-- Profile names are unique.
abbrev pub Distinct : List Profile → Type 0
Distinct [] = Unit
Distinct (p ∷ ps) = (has_name ps p.name ≡ false) × Distinct ps

abbrev names : List Profile → List Text
names = map (λ p. p.name)

pub record Inv (a : App) : Type 0 where
  pub cancel_held : a.cancel ≡ a.op_held
  pub busy_held : a.state.busy ≡ a.op_held
  pub calm : a.panicked ≡ false
  pub paged : IsPaged a.state.browse
  pub views_paged : ViewsPaged a.views
  pub pending : a.state.pending ≢ none → (a.state.writes_enabled ≡ true) × (a.store ≢ none)
  pub listed : a.state.connections ≡ names a.profiles
  pub distinct : Distinct a.profiles
  pub open_held : a.op_held ≡ true → a.closed ≡ false

has_name-append :
    (ps : List Profile) (p : Profile) (n : Text)
    → has_name (ps ++ p ∷ []) n ≡ (has_name ps n || text_eq p.name n)
has_name-append [] p n = ground arith
has_name-append (q ∷ ps) p n = ground (arith, has_name-append ps p n)

text_eq_sym : (s t : Text) → text_eq s t ≡ text_eq t s
text_eq_sym s t = ground (arith, text_eq_iff s t, text_eq_iff t s)

Distinct-append :
    (ps : List Profile) (p : Profile)
    → Distinct ps
    → has_name ps p.name ≡ false
    → Distinct (ps ++ p ∷ [])
Distinct-append [] p d h = (refl, tt)
Distinct-append (q ∷ ps) p d h =
    ground (arith, has_name-append ps p q.name, text_eq_sym p.name q.name, Distinct-append ps p d.1)

names-append : (ps : List Profile) (p : Profile) → names (ps ++ p ∷ []) ≡ names ps ++ p.name ∷ []
names-append [] p = refl
names-append (q ∷ ps) p = ap (λ r. q.name ∷ r) (names-append ps p)

pub add_profile-Inv : (a : App) (p : Profile) → Inv a → Inv (add_profile a p).0
unfolding add_profile
add_profile-Inv a p v =
    ground (arith, names-append a.profiles p, Distinct-append a.profiles p v.distinct)

start-Inv : (allow : Bool) → Inv (start allow)
start-Inv allow = ground arith

add_all-Inv : (a b : App) (ps : List Profile) → Inv a → add_all a ps ≡ ok b → Inv b
unfolding add_all
add_all-Inv a b [] v e = ground arith
add_all-Inv a b (p ∷ ps) v e = elim (Option-cases (add_profile a p).1) [
  | inl q ↦ add_all-Inv (add_profile a p).0 b ps (add_profile-Inv a p v) (rw (q, add_all) at e)
  | inr (x, q) ↦ absurd (ground arith)
]

pub log-Inv : (e : Event) (a : App) → Inv a → Inv (log e a)
log-Inv e a v = ground arith

pub begin-Inv : (a : App) → Inv a → Inv (begin a).0
unfolding begin
begin-Inv a v = ground arith

-- A request that has begun: the mutex is held, and nothing else changed that a later step reads.
pub record Begun (a b : App) : Type 0 where
  pub held : b.op_held ≡ true
  pub free : a.op_held ≡ false
  pub live : a.closed ≡ false
  pub store : b.store ≡ a.store
  pub profiles : b.profiles ≡ a.profiles
  pub trace : b.trace ≡ a.trace
  pub pending : b.state.pending ≡ a.state.pending
  pub enabled : b.state.writes_enabled ≡ a.state.writes_enabled
  pub connection : b.state.connection ≡ a.state.connection
  pub database : b.state.database ≡ a.state.database
  pub password : b.password ≡ a.password

pub begin_cases :
    (a : App)
    → ((e : Text) × (begin a ≡ (a, a.state, some e)))
      ⊎ ((b : App) × (begin a ≡ (b, b.state, none)) × Begun a b)
unfolding begin
begin_cases a = elim (Bool-cases a.op_held) [
  | inl h ↦ inl (op_busy, rw h)
  | inr h ↦ elim (Bool-cases a.closed) [
    | inl c ↦ inl (app_closed, rw (h, c))
    | inr c ↦ inr ((begin a).0, ground arith, ground arith)
  ]
]

pub Inv-Carries : (a : App) → Inv a → Carries a.state a a.state
Inv-Carries a v = ground arith

-- The end of a request that kept the frame.
finish-Inv :
    (a b : App) (t : Snapshot) (e : Option Text)
    → Inv a
    → a.op_held ≡ true
    → Frame a b
    → Carries a.state b t
    → ViewsPaged b.views
    → Inv (finish b t e).0
unfolding finish
finish-Inv a b t e v h f c w = ground arith

pub new-Inv : (allow : Bool) (ps : List Profile) (a : App) → new allow ps ≡ ok a → Inv a
unfolding new
new-Inv allow ps a e = add_all-Inv (start allow) a ps (start-Inv allow) e

pub cancel-Inv : (a : App) → Inv a → Inv (cancel a)
unfolding cancel
cancel-Inv a v = ground arith

pub receive-Inv : (a : App) → Inv a → Inv (receive a).1
unfolding receive
receive-Inv a v = ground arith

pub close-Inv : (w : World) (a b : App) (e : Option Text) → Inv a → close w a ≡ some (b, e) → Inv b
unfolding close cancel
close-Inv w a b e v h = ground arith

pub reject-Inv : (a : App) (id : Text) → Inv a → Inv (reject a id).0
unfolding reject
reject-Inv a id v = ground arith

perform-Inv :
    (w : World) (a : App) (x : Action)
    → Inv a
    → a.op_held ≡ true
    → Inv (finish_reply (perform w a a.state x)).0
perform-Inv w a x v h =
    let p = perform-Performed w a a.state x (Inv-Carries a v) v.views_paged in
    let (b, t, e) = perform w a a.state x in finish-Inv a b t e v h p.frame p.carries p.views

-- What is done after `begin` keeps the invariant.
guarded-Inv :
    (a : App) (k : App → Snapshot → Reply)
    → Inv a
    → ((b : App) → Inv b → b.op_held ≡ true → Inv (k b b.state).0)
    → Inv (guarded (begin a) k).0
guarded-Inv a k v h = elim (begin_cases a) [
  | inl (e, q) ↦ rw q v
  | inr (b, q, u) ↦ rw q (h b (rw q at (begin-Inv a v)) u.held)
]

pub dispatch-Inv : (w : World) (a : App) (x : Action) → Inv a → Inv (dispatch w a x).0
unfolding dispatch
dispatch-Inv w a x v =
    let run =
      guarded-Inv a (λ b s. finish_reply (perform w b s x)) v (λ b u h. perform-Inv w b x u h) in
    ground (arith, run, cancel-Inv a v)

-- A connection that is added to the profiles together with its name.
joined-Inv :
    (a b : App) (t : Snapshot) (p : Profile)
    → Inv a
    → a.op_held ≡ true
    → has_name a.profiles p.name ≡ false
    → Frame a b
    → Carries a.state b t
    → ViewsPaged b.views
    → Inv
        (finish
          (record b { profiles = b.profiles ++ p ∷ [] })
          (record t { connections = t.connections ++ p.name ∷ [] })
          none).0
unfolding finish
joined-Inv a b t p v h fresh f c w =
    ground (arith, names-append a.profiles p, Distinct-append a.profiles p v.distinct fresh)

setup_begun-Inv :
    (w : World) (p : Profile) (test : Bool) (a : App)
    → Inv a
    → a.op_held ≡ true
    → Inv (setup_begun w p test a a.state).0
unfolding setup_begun
setup_begun-Inv w p test a v h =
    let q = connect_profile-Performed w a a.state p test (Inv-Carries a v) v.views_paged in
    let (b, t, e) = connect_profile w a a.state p test in
    ground (
      arith,
      finish-Inv a a a.state (some (bytes "connection name is required")) v h,
      finish-Inv a a a.state (some (bytes "connection name already exists; choose a new name")) v h,
      finish-Inv a b t e v h q.frame q.carries q.views,
      λ (fresh : has_name a.profiles p.name ≡ false).
          joined-Inv a b t p v h fresh q.frame q.carries q.views,
    )

pub setup-Inv : (w : World) (a : App) (p : Profile) (test : Bool) → Inv a → Inv (setup w a p test).0
unfolding setup
setup-Inv w a p test v = guarded-Inv a _ v (λ b u h. setup_begun-Inv w p test b u h)

pub reload-Performed :
    (w : World) (a : App) (s t : Snapshot) (h : ℕ)
    → a.store ≢ none
    → Carries s a t
    → ViewsPaged a.views
    → Performed a s (reload w a t h)
unfolding reload
reload-Performed w a s t h n c v = elim (Result-cases (w.tables a.trace h)) [
  | inr (e, q) ↦ ground arith
  | inl (ts, q) ↦
      ground (arith, browse-Performed w (log (listed h []) a) s (record t { tables = ts }) n)
]

pub show_outcome-Performed :
    (a : App) (s : Snapshot) (status : Text) (r : Reply)
    → Performed a s r
    → Performed a s (show_outcome status r)
unfolding show_outcome
show_outcome-Performed a s status (b, t, none) p = ground arith
show_outcome-Performed a s status (b, t, some e) p = ground arith

finish_reply-Inv :
    (a : App) (r : Reply)
    → Inv a
    → a.op_held ≡ true
    → Performed a a.state r
    → Inv (finish_reply r).0
finish_reply-Inv a (b, t, e) v h p = finish-Inv a b t e v h p.frame p.carries p.views

-- The object after the approved statement was consumed and executed.
abbrev pub consumed : ℕ → Text → App → App
consumed h sql a =
    log (executed h sql) (publish (record a { state = record (a.state) { pending = none } }))

pub consumed-Inv :
    (h : ℕ) (sql : Text) (a : App) → Inv a → a.op_held ≡ true → Inv (consumed h sql a)
unfolding publish
consumed-Inv h sql a v held = ground arith

-- What is left to do works on the snapshot from before, with the revision that it had.
pub consumed-Carries :
    (h : ℕ) (sql status : Text) (a : App)
    → Inv a
    → Carries
        (consumed h sql a).state
        (consumed h sql a)
        (record (a.state) { pending = none; status = status })
unfolding publish
consumed-Carries h sql status a v = ground arith

after_write-Inv :
    (w : World) (a : App) (s : Snapshot) (h : ℕ) (r : ResultSet)
    → Inv a
    → a.op_held ≡ true
    → a.store ≢ none
    → ((status : Text) → Carries a.state a (record s { status = status }))
    → Inv (after_write w a s h r).0
unfolding after_write
after_write-Inv w a s h r v held n c =
    let status = bytes "Write executed: " ++ decimal_ℤ r.affected ++ bytes " rows affected" in
    finish_reply-Inv a _ v held (
      show_outcome-Performed a a.state status _
        (reload-Performed w a a.state (record s { status = status }) h n (c status) v.views_paged))

abbrev pub unapproved : App → Snapshot
unapproved a = record (a.state) { pending = none }

pub execute_write_failed :
    (w : World) (p : PendingWrite) (a : App) (h : ℕ) (e : Text)
    → a.store ≡ some h
    → w.execute a.trace h p.sql ≡ err e
    → execute_write w p a a.state
      ≡ finish (consumed h p.sql a) (unapproved a) (some (unknown_outcome ++ e))
unfolding execute_write publish
execute_write_failed w p a h e q r = ground arith

pub execute_write_done :
    (w : World) (p : PendingWrite) (a : App) (h : ℕ) (r : ResultSet)
    → a.store ≡ some h
    → w.execute a.trace h p.sql ≡ ok r
    → execute_write w p a a.state ≡ after_write w (consumed h p.sql a) (unapproved a) h r
unfolding execute_write publish
execute_write_done w p a h r q x = ground arith

execute_write-Inv :
    (w : World) (p : PendingWrite) (a : App)
    → Inv a
    → a.op_held ≡ true
    → a.state.pending ≢ none
    → Inv (execute_write w p a a.state).0
unfolding publish
execute_write-Inv w p a v held waits = elim (Option-cases a.store) [
  | inl e ↦ absurd ((v.pending waits).1 e)
  | inr (h, e) ↦
      let i = consumed-Inv h p.sql a v held in
      elim (Result-cases (w.execute a.trace h p.sql)) [
        | inr (x, q) ↦
            subst (λ r. Inv r.0) (sym (execute_write_failed w p a h x e q))
              (finish-Inv (consumed h p.sql a) (consumed h p.sql a) _ _ i held (ground arith)
                (consumed-Carries h p.sql a.state.status a v) i.views_paged)
        | inl (r, q) ↦
            subst (λ r. Inv r.0) (sym (execute_write_done w p a h r e q))
              (after_write-Inv w (consumed h p.sql a) (record (a.state) { pending = none }) h r i
                held (ground arith) (λ x. consumed-Carries h p.sql x a v))
      ]
]

approve_begun-Inv :
    (w : World) (id : Text) (a : App)
    → Inv a
    → a.op_held ≡ true
    → Inv (approve_begun w id a a.state).0
unfolding approve_begun
approve_begun-Inv w id a v held =
    let refused = λ (b : App) (i : Inv b) (h : b.op_held ≡ true).
      finish-Inv b b b.state (some not_approved) i h (ground arith) (Inv-Carries b i)
        i.views_paged in
    elim (Option-cases a.state.pending) [
      | inl e ↦ rw (e, approve_begun) (refused a v held)
      | inr (p, e) ↦ ground (
        arith,
        refused a v held,
        refused (log clock a) (log-Inv clock a v) held,
        execute_write-Inv w p (log clock a) (log-Inv clock a v) held (λ n. cc),
      )
    ]

pub approve-Inv : (w : World) (a : App) (id : Text) → Inv a → Inv (approve w a id).0
unfolding approve
approve-Inv w a id v = guarded-Inv a (approve_begun w id) v (λ b u h. approve_begun-Inv w id b u h)
