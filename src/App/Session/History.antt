-- ===== src/App/Session/History.antt =====
-- Sequences of calls, and what holds after any of them.
pub mod Unapproved
mod Available
pub mod Small
mod Examples
use relvo.Base.{
  ◌≡◌, refl, inl, inr, Bool, Option, none, some, List, [], ◌∷◌, Option-cases, ok, Text,
}
use relvo.Data.{Profile, Action}
use relvo.App.State.{World, App, cancel, receive, add_profile, new, close, reject}
use relvo.App.Session.{dispatch, setup, approve}
use relvo.App.Session.Invariant.{
  Inv, add_profile-Inv, new-Inv, cancel-Inv, receive-Inv, close-Inv, reject-Inv, dispatch-Inv,
  setup-Inv, approve-Inv,
}

-- A call by the screen, by the control socket or by `main`.
pub data Call : Type 0 where
  adds : Profile → Call
  dispatches : Action → Call
  sets_up : Profile → Bool → Call
  approves rejects : Text → Call
  cancels receives closes : Call

-- A `Close` that waits for the mutex has only cancelled.
abbrev closed_or_waiting : App → Option (App × Option Text) → App
closed_or_waiting a none = cancel a
closed_or_waiting a (some (b, e)) = b

pub step : World → App → Call → App
step w a (adds p) = (add_profile a p).0
step w a (dispatches x) = (dispatch w a x).0
step w a (sets_up p test) = (setup w a p test).0
step w a (approves id) = (approve w a id).0
step w a (rejects id) = (reject a id).0
step w a cancels = cancel a
step w a receives = (receive a).1
step w a closes = closed_or_waiting a (close w a)

pub run : World → App → List Call → App
run w a [] = a
run w a (c ∷ cs) = run w (step w a c) cs

pub step-Inv : (w : World) (a : App) (c : Call) → Inv a → Inv (step w a c)
unfolding step
step-Inv w a (adds p) v = add_profile-Inv a p v
step-Inv w a (dispatches x) v = dispatch-Inv w a x v
step-Inv w a (sets_up p test) v = setup-Inv w a p test v
step-Inv w a (approves id) v = approve-Inv w a id v
step-Inv w a (rejects id) v = reject-Inv a id v
step-Inv w a cancels v = cancel-Inv a v
step-Inv w a receives v = receive-Inv a v
step-Inv w a closes v = elim (Option-cases (close w a)) [
  | inl e ↦ rw (e, step) (cancel-Inv a v)
  | inr ((b, x), e) ↦ rw (e, step) (close-Inv w a b x v e)
]

pub run-approve :
    (w : World) (a : App) (id : Text) → run w a (approves id ∷ []) ≡ (approve w a id).0
unfolding run step
run-approve w a id = refl

run-Inv : (w : World) (a : App) (cs : List Call) → Inv a → Inv (run w a cs)
unfolding run
run-Inv w a [] v = v
run-Inv w a (c ∷ cs) v = run-Inv w (step w a c) cs (step-Inv w a c v)

-- After any history of calls, one after the other, on a new object no call has panicked (a send on
-- the closed channel, a missing cancel function, a missing store), page requests are in range, a
-- staged write has the permission and a store, and profile names are unique and those listed.
pub run-new-Inv :
    (w : World) (allow : Bool) (ps : List Profile) (a : App) (cs : List Call)
    → new allow ps ≡ ok a
    → Inv (run w a cs)
run-new-Inv w allow ps a cs e = run-Inv w a cs (new-Inv allow ps a e)
