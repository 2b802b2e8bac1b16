-- ===== src/App/Session/History/Available.antt =====
-- Every request gives the mutex back, so that the next one can begin.
use relvo.Base.{
  ◌≡◌, refl, sym, subst, ◌≢◌, inl, inr, Bool, true, false, Option, none, some, List, [], ◌∷◌, ◌++◌,
  arith, if◌then◌else◌, Option-cases, ok, Result-cases, Text, bytes,
}
use relvo.Data.{Profile, Action, PendingWrite, Snapshot}
use relvo.App.State.{
  clock, World, App, Reply, guarded, log, publish, cancel, receive, add_profile, start, add_all,
  new, begin, finish, close, reject,
}
use relvo.App.Perform.{connect_profile, perform}
use relvo.App.Session.{
  finish_reply, dispatch, setup_begun, setup, not_approved, after_write, execute_write,
  approve_begun, approve,
}
use relvo.App.Session.Invariant.{
  Inv, begin-Inv, begin_cases, new-Inv, execute_write_failed, execute_write_done,
}
use relvo.App.Session.History.{Call, step, run, step-Inv}

abbrev Free : App → Type 0
Free a = a.op_held ≡ false

finish-Free : (a : App) (s : Snapshot) (e : Option Text) → Free (finish a s e).0
unfolding finish
finish-Free a s e = ground arith

finish_reply-Free : (r : Reply) → Free (finish_reply r).0
finish_reply-Free (a, s, e) = finish-Free a s e

-- What is done after `begin` gives the mutex back.
guarded-Free :
    (a : App) (k : App → Snapshot → Reply)
    → Inv a
    → Free a
    → ((b : App) → Inv b → Free (k b b.state).0)
    → Free (guarded (begin a) k).0
guarded-Free a k v f h = elim (begin_cases a) [
  | inl (e, q) ↦ rw q f
  | inr (b, q, u) ↦ rw q (h b (rw q at (begin-Inv a v)))
]

cancel-Free : (a : App) → Free a → Free (cancel a)
unfolding cancel
cancel-Free a f = ground arith

dispatch-Free : (w : World) (a : App) (x : Action) → Inv a → Free a → Free (dispatch w a x).0
unfolding dispatch
dispatch-Free w a x v f =
    let run =
      guarded-Free a (λ b s. finish_reply (perform w b s x)) v f
        (λ b u. finish_reply-Free (perform w b b.state x)) in
    ground (arith, run, cancel-Free a f)

setup_begun-Free :
    (w : World) (p : Profile) (test : Bool) (a : App) (s : Snapshot)
    → Free (setup_begun w p test a s).0
unfolding setup_begun
setup_begun-Free w p test a s = ground (
  arith,
  finish-Free a s (some (bytes "connection name is required")),
  finish-Free a s (some (bytes "connection name already exists; choose a new name")),
  finish_reply-Free (
      guarded (connect_profile w a s p test) (λ b t. if test then (b, t, none) else (
        record b { profiles = b.profiles ++ p ∷ [] },
        record t { connections = t.connections ++ p.name ∷ [] },
        none,
      ))),
)

execute_write-Free :
    (w : World) (p : PendingWrite) (a : App) → a.store ≢ none → Free (execute_write w p a a.state).0
unfolding after_write
execute_write-Free w p a n = elim (Option-cases a.store) [
  | inl e ↦ absurd (n e)
  | inr (h, e) ↦ elim (Result-cases (w.execute a.trace h p.sql)) [
    | inr (x, q) ↦
        subst (λ r. Free r.0) (sym (execute_write_failed w p a h x e q)) (finish-Free _ _ _)
    | inl (r, q) ↦
        subst (λ r. Free r.0) (sym (execute_write_done w p a h r e q)) (finish_reply-Free _)
  ]
]

approve_begun-Free :
    (w : World) (id : Text) (a : App) → Inv a → Free (approve_begun w id a a.state).0
unfolding approve_begun
approve_begun-Free w id a v = elim (Option-cases a.state.pending) [
  | inl e ↦ rw (e, approve_begun) (finish-Free a a.state (some not_approved))
  | inr (p, e) ↦ ground (
    arith,
    finish-Free a a.state (some not_approved),
    finish-Free (log clock a) a.state (some not_approved),
    execute_write-Free w p (log clock a) ((v.pending (λ n. cc)).1),
  )
]

add_profile-Free : (a : App) (p : Profile) → Free a → Free (add_profile a p).0
unfolding add_profile publish
add_profile-Free a p f = ground arith

reject-Free : (a : App) (id : Text) → Free a → Free (reject a id).0
unfolding reject publish
reject-Free a id f = ground arith

close-Free : (w : World) (a b : App) (e : Option Text) → Free a → close w a ≡ some (b, e) → Free b
unfolding close cancel
close-Free w a b e f h = ground arith

step-Free : (w : World) (a : App) (c : Call) → Inv a → Free a → Free (step w a c)
unfolding step receive setup approve
step-Free w a (Call.adds p) v f = add_profile-Free a p f
step-Free w a (Call.dispatches x) v f = dispatch-Free w a x v f
step-Free w a (Call.sets_up p test) v f =
    guarded-Free a (setup_begun w p test) v f (λ b u. setup_begun-Free w p test b b.state)
step-Free w a (Call.approves id) v f =
    guarded-Free a (approve_begun w id) v f (λ b u. approve_begun-Free w id b u)
step-Free w a (Call.rejects id) v f = reject-Free a id f
step-Free w a Call.cancels v f = cancel-Free a f
step-Free w a Call.receives v f = f
step-Free w a Call.closes v f = elim (Option-cases (close w a)) [
  | inl e ↦ rw (e, step) (cancel-Free a f)
  | inr ((b, x), e) ↦ rw (e, step) (close-Free w a b x f e)
]

run-Free : (w : World) (a : App) (cs : List Call) → Inv a → Free a → Free (run w a cs)
unfolding run
run-Free w a [] v f = f
run-Free w a (c ∷ cs) v f = run-Free w (step w a c) cs (step-Inv w a c v) (step-Free w a c v f)

add_all-Free : (a b : App) (ps : List Profile) → Free a → add_all a ps ≡ ok b → Free b
unfolding add_all
add_all-Free a b [] f h = ground arith
add_all-Free a b (p ∷ ps) f h =
    ground (arith, add_profile-Free a p f, add_all-Free (add_profile a p).0 b ps)

-- After any history of calls, one after the other, on a new object, if the object was not closed the
-- mutex of requests is free, and the next request begins, with the cancel function set.
pub run-Available :
    (w : World) (allow : Bool) (ps : List Profile) (a : App) (cs : List Call)
    → new allow ps ≡ ok a
    → (run w a cs).closed ≡ false
    → let b = run w a cs in (b.op_held ≡ false) × ((begin b).2 ≡ none) × ((begin b).0.cancel ≡ true)
unfolding new begin
run-Available w allow ps a cs e c =
    let free = run-Free w a cs (new-Inv allow ps a e) (add_all-Free (start allow) a ps refl e) in
    (free, rw (free, c, begin) refl, rw (free, c, begin) refl)
