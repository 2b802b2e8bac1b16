-- ===== src/App/Perform/Frame.antt =====
-- What `perform` leaves alone, and what it keeps true of the snapshot that it works on.
use relvo.Base.{
  ℕ, ◌≡◌, ◌≢◌, ◌⊎◌, inl, inr, Bool, true, none, some, List, [], ◌∷◌, arith, Option-cases,
  Result-cases, All, Text, pos, ◌≤ℤ◌,
}
use relvo.Data.{Config, Table, BrowseRequest, Profile, Action, Snapshot, Kind, kind_of}
use relvo.Connections.Resolve.{resolve}
use relvo.App.State.{
  opened, listed, described, browsed, queried, executed, shut, clock, random, cancelled, Trace,
  World, App, Reply, log,
}
use relvo.App.Perform.{
  browse, view_of, set_view, start_table, reopen, leave, enter, connect_profile, find_profile,
  max_int, refresh, raw_query, stage, act, is_test, perform,
}

-- The statements that were executed and the store each was executed on, the last first.
abbrev pub writes : Trace → List (ℕ × Text)
writes [] = []
writes (executed h sql ∷ t) = (h, sql) ∷ writes t
writes (opened c ∷ t) = writes t
writes (listed h x ∷ t) = writes t
writes (described h x ∷ t) = writes t
writes (browsed h x ∷ t) = writes t
writes (queried h x ∷ t) = writes t
writes (shut h x ∷ t) = writes t
writes (clock ∷ t) = writes t
writes (random ∷ t) = writes t
writes (cancelled ∷ t) = writes t

-- A page request that every store takes: 1 to 1000 rows, from an offset that an `int` holds.
abbrev pub IsPaged : BrowseRequest → Type 0
IsPaged b = (pos 1 ≤ℤ b.limit) × (b.limit ≤ℤ pos 1000) × (pos 0 ≤ℤ b.offset) × (b.offset ≤ℤ max_int)

-- The object is as before, but for the store, its password, the saved views and the trace.
pub record Frame (a b : App) : Type 0 where
  pub held : b.op_held ≡ a.op_held
  pub state : b.state ≡ a.state
  pub profiles : b.profiles ≡ a.profiles
  pub buffer : b.buffer ≡ a.buffer
  pub cancel : b.cancel ≡ a.cancel
  pub closed : b.closed ≡ a.closed
  pub calm : b.panicked ≡ a.panicked
  pub written : writes b.trace ≡ writes a.trace
  pub connected : a.store ≢ none → b.store ≢ none

-- The snapshot `t` that comes back with `b`, from `s`.
pub record Carries (s : Snapshot) (b : App) (t : Snapshot) : Type 0 where
  pub connections : t.connections ≡ s.connections
  pub enabled : t.writes_enabled ≡ s.writes_enabled
  pub paged : IsPaged t.browse
  pub pending :
      t.pending ≢ none → (t.pending ≡ s.pending) ⊎ ((s.writes_enabled ≡ true) × (b.store ≢ none))

abbrev pub ViewsPaged : List (Text × BrowseRequest) → Type 0
ViewsPaged = All (λ v. IsPaged v.1)

pub record Performed (a : App) (s : Snapshot) (r : Reply) : Type 0 where
  pub frame : Frame a r.0
  pub carries : Carries s r.0 r.1
  pub views : ViewsPaged r.0.views

pub browse-Performed :
    (w : World) (a : App) (s t : Snapshot)
    → a.store ≢ none
    → Carries s a t
    → ViewsPaged a.views
    → Performed a s (browse w a t)
unfolding browse
browse-Performed w a s t n p v = ground arith

set_view-ViewsPaged :
    (k : Text) (v : BrowseRequest) (m : List (Text × BrowseRequest))
    → IsPaged v
    → ViewsPaged m
    → ViewsPaged (set_view k v m)
unfolding set_view
set_view-ViewsPaged k v [] p h = (p, tt)
set_view-ViewsPaged k v ((j, u) ∷ m) p h = ground (arith, set_view-ViewsPaged k v m p h.1)

view_of-IsPaged :
    (k : Text) (m : List (Text × BrowseRequest)) (v : BrowseRequest)
    → ViewsPaged m
    → view_of k m ≡ some v
    → IsPaged v
unfolding view_of
view_of-IsPaged k [] v h e = cc
view_of-IsPaged k ((j, u) ∷ m) v h e = ground (arith, view_of-IsPaged k m v h.1)

start_table-IsPaged : (ts : List Table) (b : BrowseRequest) → IsPaged b → IsPaged (start_table ts b)
start_table-IsPaged ts b h = ground arith

pub reopen-IsPaged :
    (m : List (Text × BrowseRequest)) (k : Text) (ts : List Table)
    → ViewsPaged m
    → IsPaged (reopen m k ts)
unfolding reopen
reopen-IsPaged m k ts h = elim (Option-cases (view_of k m)) [
  | inl e ↦ rw (e, reopen) (start_table-IsPaged ts _ (ground arith))
  | inr (v, e) ↦
      rw (e, reopen) (start_table-IsPaged ts _ (ground (arith, view_of-IsPaged k m v h e)))
]

pub record Left (a b : App) : Type 0 where
  pub held : b.op_held ≡ a.op_held
  pub state : b.state ≡ a.state
  pub profiles : b.profiles ≡ a.profiles
  pub buffer : b.buffer ≡ a.buffer
  pub cancel : b.cancel ≡ a.cancel
  pub closed : b.closed ≡ a.closed
  pub calm : b.panicked ≡ a.panicked
  pub written : writes b.trace ≡ writes a.trace
  pub views : ViewsPaged b.views

pub leave-Left :
    (a : App) (s : Snapshot) → IsPaged s.browse → ViewsPaged a.views → Left a (leave a s)
unfolding leave
leave-Left a s p v = ground (arith, set_view-ViewsPaged s.connection s.browse a.views)

enter-Performed :
    (w : World) (a : App) (s : Snapshot) (cfg : Config) (h : ℕ) (ts : List Table)
    → IsPaged s.browse
    → ViewsPaged a.views
    → Performed a s (enter w a s cfg h ts)
unfolding enter
enter-Performed w a s cfg h ts p v =
    let l = leave-Left a s p v in
    let b = record (leave a s) { store = some h; password = cfg.password } in
    ground (
      arith,
      l,
      reopen-IsPaged (leave a s).views cfg.name ts l.views,
      λ (t : Snapshot). browse-Performed w b s t,
    )

pub connect_profile-Performed :
    (w : World) (a : App) (s : Snapshot) (p : Profile) (test : Bool)
    → Carries s a s
    → ViewsPaged a.views
    → Performed a s (connect_profile w a s p test)
unfolding connect_profile
connect_profile-Performed w a s p test c v =
    elim (Result-cases (resolve (w.read_env a.trace) (w.lookup_env a.trace) p)) [
      | inr (e, q) ↦ ground arith
      | inl (cfg, q) ↦ elim (Result-cases (w.open_store a.trace cfg)) [
        | inr (e, r) ↦ ground arith
        | inl (h, r) ↦ elim (Result-cases (w.tables (opened cfg ∷ a.trace) h)) [
          | inr (e, t) ↦ ground arith
          | inl (ts, t) ↦ ground (
            arith,
            enter-Performed w (log (listed h []) (log (opened cfg) a)) s cfg h ts c.paged v,
          )
        ]
      ]
    ]

refresh-Performed :
    (w : World) (a : App) (s : Snapshot) (h : ℕ)
    → a.store ≢ none
    → Carries s a s
    → ViewsPaged a.views
    → Performed a s (refresh w a s h)
unfolding refresh
refresh-Performed w a s h n c v =
    ground (arith, λ (t : Snapshot). browse-Performed w (log (listed h []) a) s t n)

raw_query-Performed :
    (w : World) (a : App) (s : Snapshot) (h : ℕ) (sql : Text)
    → a.store ≢ none
    → Carries s a s
    → ViewsPaged a.views
    → Performed a s (raw_query w a s h sql)
unfolding raw_query
raw_query-Performed w a s h sql n c v = ground arith

stage-Performed :
    (w : World) (a : App) (s : Snapshot) (sql : Text)
    → a.store ≢ none
    → Carries s a s
    → ViewsPaged a.views
    → Performed a s (stage w a s sql)
unfolding stage
stage-Performed w a s sql n c v = ground arith

act-Performed :
    (w : World) (a : App) (s : Snapshot) (x : Action) (h : ℕ) (k : Kind)
    → a.store ≢ none
    → Carries s a s
    → ViewsPaged a.views
    → Performed a s (act w a s x h k)
unfolding act
act-Performed w a s x h Kind.query n c v = raw_query-Performed w a s h x.sql n c v
act-Performed w a s x h Kind.write n c v = stage-Performed w a s x.sql n c v
act-Performed w a s x h Kind.refresh n c v = refresh-Performed w a s h n c v
act-Performed w a s x h Kind.open_table n c v =
    ground (arith, λ (t : Snapshot). browse-Performed w a s t n)
act-Performed w a s x h Kind.filter n c v =
    ground (arith, λ (t : Snapshot). browse-Performed w a s t n)
act-Performed w a s x h Kind.clear_filters n c v =
    ground (arith, λ (t : Snapshot). browse-Performed w a s t n)
act-Performed w a s x h Kind.sort n c v =
    ground (arith, λ (t : Snapshot). browse-Performed w a s t n)
act-Performed w a s x h Kind.page_size n c v =
    ground (arith, λ (t : Snapshot). browse-Performed w a s t n)
act-Performed w a s x h Kind.next n c v =
    ground (arith, λ (t : Snapshot). browse-Performed w a s t n)
act-Performed w a s x h Kind.prev n c v =
    ground (arith, λ (t : Snapshot). browse-Performed w a s t n)
act-Performed w a s x h _ n c v = ground arith

-- From a snapshot and saved views whose page requests are in range, `perform` executes no statement,
-- changes of the object at most the store, its password, the saved views and the trace, keeps the
-- page requests in range, and leaves a write pending only if it is the one that was pending or if writes are
-- enabled and a store is connected.
pub perform-Performed :
    (w : World) (a : App) (s : Snapshot) (x : Action)
    → Carries s a s
    → ViewsPaged a.views
    → Performed a s (perform w a s x)
unfolding perform
perform-Performed w a s x c v = elim (Option-cases (find_profile a.profiles x.connection)) [
  | inl q ↦
      with_store (λ e. ground arith)
        λ h e. ground (arith, act-Performed w a s x h (kind_of x.type) (λ n. cc) c v)
  | inr (p, q) ↦
      let known = connect_profile-Performed w a s p (is_test (kind_of x.type)) c v in
      with_store (λ e. ground (arith, known))
        λ h e. ground (arith, known, act-Performed w a s x h (kind_of x.type) (λ n. cc) c v)
]
  where
    with_store : {P : Type 0} → (a.store ≡ none → P) → ((h : ℕ) → a.store ≡ some h → P) → P
    with_store f g = elim (Option-cases a.store) [ inl e ↦ f e | inr (h, e) ↦ g h e ]
