-- ===== src/App/Session/History/Small.antt =====
-- The result that the session shows, over stores that keep their contract.
use relvo.Base.{
  decimal_ℤ, ℕ, ◌≡◌, sym, subst, ◌≢◌, inl, inr, Bool, true, Option, none, some, List, [], ◌∷◌, ◌++◌,
  arith, Option-cases, ok, Result-cases, Text, bytes,
}
use relvo.Data.{Profile, Action, PendingWrite, Snapshot}
use relvo.App.State.{
  listed, clock, World, App, Reply, guarded, log, publish, cancel, receive, add_profile, start,
  add_all, new, begin, finish, close, reject,
}
use relvo.App.Perform.{connect_profile, perform}
use relvo.App.Perform.Frame.{IsPaged, connect_profile-Performed, perform-Performed}
use relvo.App.Perform.Small.{Contract, Small, browse-Small, connect_profile-Small, perform-Small}
use relvo.App.Session.{
  finish_reply, dispatch, setup_begun, setup, not_approved, reload, show_outcome, after_write,
  execute_write, approve_begun, approve,
}
use relvo.App.Session.Invariant.{
  Inv, log-Inv, begin-Inv, begin_cases, Inv-Carries, new-Inv, reload-Performed,
  show_outcome-Performed, consumed, consumed-Inv, consumed-Carries, unapproved,
  execute_write_failed, execute_write_done,
}
use relvo.App.Session.History.{Call, step, run, step-Inv}

finish-Small :
    (a : App) (s : Snapshot) (e : Option Text)
    → Small a.state
    → Small s
    → Small (finish a s e).0.state
unfolding finish publish
finish-Small a s none h k = k
finish-Small a s (some e) h k = h

finish_reply-Small :
    (a : App) (r : Reply)
    → Small a.state
    → r.0.state ≡ a.state
    → Small r.1
    → Small (finish_reply r).0.state
finish_reply-Small a (b, t, e) h f k = finish-Small b t e (subst Small (sym f) h) k

begin-Small : (a : App) → Small a.state → Small (begin a).0.state
unfolding begin publish
begin-Small a h = ground arith

cancel-Small : (a : App) → Small a.state → Small (cancel a).state
unfolding cancel
cancel-Small a h = ground arith

guarded-Small :
    (a : App) (k : App → Snapshot → Reply)
    → Inv a
    → Small a.state
    → ((b : App) → Inv b → b.op_held ≡ true → Small b.state → Small (k b b.state).0.state)
    → Small (guarded (begin a) k).0.state
guarded-Small a k v s h = elim (begin_cases a) [
  | inl (e, q) ↦ rw q s
  | inr (b, q, u) ↦ rw q (h b (rw q at (begin-Inv a v)) u.held (rw q at (begin-Small a s)))
]

module _ (w : World) (contract : Contract w) where
  dispatch-Small : (a : App) (x : Action) → Inv a → Small a.state → Small (dispatch w a x).0.state
  unfolding dispatch
  dispatch-Small a x v s =
      let run =
        guarded-Small a (λ b t. finish_reply (perform w b t x)) v s
          (λ b u h k.
            finish_reply-Small b (perform w b b.state x) k
              (perform-Performed w b b.state x (Inv-Carries b u) u.views_paged).frame.state
              (perform-Small w contract b b.state x u.paged u.views_paged k)) in
      ground (arith, run, cancel-Small a s)

  setup_begun-Small :
      (p : Profile) (test : Bool) (a : App)
      → Inv a
      → Small a.state
      → Small (setup_begun w p test a a.state).0.state
  unfolding setup_begun
  setup_begun-Small p test a v s =
      let q =
        (connect_profile-Performed w a a.state p test (Inv-Carries a v) v.views_paged).frame in
      let k = connect_profile-Small w contract a a.state p test v.paged v.views_paged s in
      let (b, t, e) = connect_profile w a a.state p test in
      ground (
        arith,
        finish-Small a a.state (some (bytes "connection name is required")) s s,
        finish-Small a a.state (some (bytes "connection name already exists; choose a new name")) s
            s,
        finish-Small b t e (subst Small (sym q.state) s) k,
        finish-Small (record b { profiles = b.profiles ++ p ∷ [] })
            (record t { connections = t.connections ++ p.name ∷ [] }) none
            (subst Small (sym q.state) s) k,
      )

  reload-Small :
      (a : App) (s : Snapshot) (h : ℕ) → IsPaged s.browse → Small s → Small (reload w a s h).1
  unfolding reload
  reload-Small a s h p k = elim (Result-cases (w.tables a.trace h)) [
    | inr (e, q) ↦ ground arith
    | inl (ts, q) ↦
        ground (arith, browse-Small w contract (log (listed h []) a) (record s { tables = ts }) p k)
  ]

  show_outcome-Small : (status : Text) (r : Reply) → Small r.1 → Small (show_outcome status r).1
  unfolding show_outcome
  show_outcome-Small status (a, s, none) k = k
  show_outcome-Small status (a, s, some e) k = omega arith

  execute_write-Small :
      (p : PendingWrite) (a : App)
      → Inv a
      → a.op_held ≡ true
      → a.store ≢ none
      → Small a.state
      → Small (execute_write w p a a.state).0.state
  unfolding publish after_write
  execute_write-Small p a v held n s = elim (Option-cases a.store) [
    | inl e ↦ absurd (n e)
    | inr (h, e) ↦ elim (Result-cases (w.execute a.trace h p.sql)) [
      | inr (x, q) ↦
          subst (λ r. Small r.0.state) (sym (execute_write_failed w p a h x e q))
            (finish-Small (consumed h p.sql a) (unapproved a) _ s s)
      | inl (r, q) ↦
          let c = consumed h p.sql a in
          let i = consumed-Inv h p.sql a v held in
          let status = bytes "Write executed: " ++ decimal_ℤ r.affected ++ bytes " rows affected" in
          let t : Snapshot = record (unapproved a) { status = status } in
          let shown = show_outcome-Performed c c.state status _ (
            reload-Performed w c c.state t h n (consumed-Carries h p.sql status a v)
              i.views_paged) in
          subst (λ r. Small r.0.state) (sym (execute_write_done w p a h r e q))
            (finish_reply-Small c (show_outcome status (reload w c t h)) s shown.frame.state
              (show_outcome-Small status (reload w c t h) (reload-Small c t h v.paged s)))
    ]
  ]

  approve_begun-Small :
      (id : Text) (a : App)
      → Inv a
      → a.op_held ≡ true
      → Small a.state
      → Small (approve_begun w id a a.state).0.state
  unfolding approve_begun
  approve_begun-Small id a v held s = elim (Option-cases a.state.pending) [
    | inl e ↦ rw (e, approve_begun) (finish-Small a a.state (some not_approved) s s)
    | inr (p, e) ↦ ground (
      arith,
      finish-Small a a.state (some not_approved) s s,
      finish-Small (log clock a) a.state (some not_approved) s s,
      execute_write-Small p (log clock a) (log-Inv clock a v) held ((v.pending (λ n. cc)).1) s,
    )
  ]

  add_profile-Small : (a : App) (p : Profile) → Small a.state → Small (add_profile a p).0.state
  unfolding add_profile publish
  add_profile-Small a p s = ground arith

  step-Small : (a : App) (c : Call) → Inv a → Small a.state → Small (step w a c).state
  unfolding step receive reject publish close cancel setup approve
  step-Small a (Call.adds p) v s = add_profile-Small a p s
  step-Small a (Call.dispatches x) v s = dispatch-Small a x v s
  step-Small a (Call.sets_up p test) v s =
      guarded-Small a (setup_begun w p test) v s (λ b u h k. setup_begun-Small p test b u k)
  step-Small a (Call.approves id) v s =
      guarded-Small a (approve_begun w id) v s (λ b u h k. approve_begun-Small id b u h k)
  step-Small a (Call.rejects id) v s = ground arith
  step-Small a Call.cancels v s = ground arith
  step-Small a Call.receives v s = s
  step-Small a Call.closes v s = ground arith

  run_kept : (a : App) (cs : List Call) → Inv a → Small a.state → Small (run w a cs).state
  unfolding run
  run_kept a [] v s = s
  run_kept a (c ∷ cs) v s = run_kept (step w a c) cs (step-Inv w a c v) (step-Small a c v s)

  add_all-Small :
      (a b : App) (ps : List Profile) → Small a.state → add_all a ps ≡ ok b → Small b.state
  unfolding add_all
  add_all-Small a b [] s e = ground arith
  add_all-Small a b (p ∷ ps) s e =
      ground (arith, add_profile-Small a p s, add_all-Small (add_profile a p).0 b ps)

  -- Over stores that keep their contract, after any history of calls, one after the other, on a new
  -- object, the result that the session shows has at most 1000 rows.
  pub run-Small :
      (allow : Bool) (ps : List Profile) (a : App) (cs : List Call)
      → new allow ps ≡ ok a
      → Small (run w a cs).state
  unfolding new
  run-Small allow ps a cs e =
      run_kept a cs (new-Inv allow ps a e) (add_all-Small (start allow) a ps (omega arith) e)
