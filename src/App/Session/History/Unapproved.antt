-- ===== src/App/Session/History/Unapproved.antt =====
-- Histories without an approval.
use relvo.Base.{
  ◌≡◌, refl, ◌∙◌, inl, inr, Bool, Option, some, List, [], ◌∷◌, arith, Option-cases, ok, Text,
}
use relvo.Data.{Profile}
use relvo.App.State.{
  World, App, publish, cancel, receive, add_profile, start, add_all, new, close, reject,
}
use relvo.App.Perform.Frame.{writes}
use relvo.App.Session.Invariant.{Inv, new-Inv}
use relvo.App.Session.Writes.{cancel-writes, dispatch-writes, setup-writes}
use relvo.App.Session.History.{Call, step, run, step-Inv}

-- No call of the history approves a write.
abbrev pub Unapproved : List Call → Type 0
Unapproved [] = Unit
Unapproved (Call.adds p ∷ cs) = Unapproved cs
Unapproved (Call.dispatches x ∷ cs) = Unapproved cs
Unapproved (Call.sets_up p test ∷ cs) = Unapproved cs
Unapproved (Call.approves id ∷ cs) = ⊥
Unapproved (Call.rejects id ∷ cs) = Unapproved cs
Unapproved (Call.cancels ∷ cs) = Unapproved cs
Unapproved (Call.receives ∷ cs) = Unapproved cs
Unapproved (Call.closes ∷ cs) = Unapproved cs

add_profile-writes : (a : App) (p : Profile) → writes (add_profile a p).0.trace ≡ writes a.trace
unfolding add_profile publish
add_profile-writes a p = ground arith

reject-writes : (a : App) (id : Text) → writes (reject a id).0.trace ≡ writes a.trace
unfolding reject publish
reject-writes a id = ground arith

close-writes :
    (w : World) (a b : App) (e : Option Text)
    → close w a ≡ some (b, e)
    → writes b.trace ≡ writes a.trace
unfolding close cancel
close-writes w a b e h = ground arith

step-writes :
    (w : World) (a : App) (c : Call)
    → Unapproved (c ∷ [])
    → Inv a
    → writes (step w a c).trace ≡ writes a.trace
unfolding step receive
step-writes w a (Call.adds p) u v = add_profile-writes a p
step-writes w a (Call.dispatches x) u v = dispatch-writes w a x v
step-writes w a (Call.sets_up p test) u v = setup-writes w a p test v
step-writes w a (Call.approves id) u v = absurd u
step-writes w a (Call.rejects id) u v = reject-writes a id
step-writes w a Call.cancels u v = cancel-writes a
step-writes w a Call.receives u v = refl
step-writes w a Call.closes u v = elim (Option-cases (close w a)) [
  | inl e ↦ rw (e, step) (cancel-writes a)
  | inr ((b, x), e) ↦ rw (e, step) (close-writes w a b x e)
]

first : (c : Call) (cs : List Call) → Unapproved (c ∷ cs) → Unapproved (c ∷ []) × Unapproved cs
first c cs u = ground arith

pub Unapproved-writes :
    (w : World) (a : App) (cs : List Call)
    → Unapproved cs
    → Inv a
    → writes (run w a cs).trace ≡ writes a.trace
unfolding run
Unapproved-writes w a [] u v = refl
Unapproved-writes w a (c ∷ cs) u v =
    let s = first c cs u in
    Unapproved-writes w (step w a c) cs s.1 (step-Inv w a c v) ∙ step-writes w a c s.0 v

add_all-writes :
    (a b : App) (ps : List Profile) → add_all a ps ≡ ok b → writes b.trace ≡ writes a.trace
unfolding add_all
add_all-writes a b [] h = ground arith
add_all-writes a b (p ∷ ps) h =
    ground (arith, add_profile-writes a p, add_all-writes (add_profile a p).0 b ps)

-- On a new object, a history of calls in which nothing is approved executes no statement.
pub run-Unapproved :
    (w : World) (allow : Bool) (ps : List Profile) (a : App) (cs : List Call)
    → new allow ps ≡ ok a
    → Unapproved cs
    → writes (run w a cs).trace ≡ []
unfolding new
run-Unapproved w allow ps a cs e u =
    Unapproved-writes w a cs u (new-Inv allow ps a e) ∙ add_all-writes (start allow) a ps e
