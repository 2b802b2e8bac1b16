-- ===== src/Tui/Update/Enact.antt =====
-- What the effects of the screen do to the session: the commands that `Update` returns, each run to its
-- end on the object that the screen shares with the control socket.
use relvo.Base.{
  ℕ, ◌≡◌, refl, ap, ◌∙◌, ◌⊎◌, inl, inr, true, some, List, [], ◌∷◌, arith, Text, bytes, text_eq_iff,
}
use relvo.Data.{PendingWrite}
use relvo.App.State.{World, App}
use relvo.App.Perform.Frame.{writes}
use relvo.App.Session.{approve}
use relvo.App.Session.Invariant.{Inv}
use relvo.App.Session.Writes.{approve-writes}
use relvo.App.Session.History.{Call, run, run-approve}
use relvo.App.Session.History.Unapproved.{Unapproved, Unapproved-writes}
use relvo.Tui.Model.{
  Screen, Model, Effect, quits, cancels, focuses, dispatches, approves, rejects, sets_up,
  same_pending,
}
use relvo.Tui.Keys.Approval.{Approves}
use relvo.Tui.Dialog.{Typing, key_press}
use relvo.Tui.Update.{Message, input, update}
use relvo.Tui.Update.Approves.{update-Approves}

-- The calls that the effects make.
pub calls : List Effect → List Call
calls [] = []
calls (quits ∷ es) = calls es
calls (cancels ∷ es) = Call.cancels ∷ calls es
calls (focuses ∷ es) = calls es
calls (dispatches x ∷ es) = Call.dispatches x ∷ calls es
calls (approves id ∷ es) = Call.approves id ∷ calls es
calls (rejects id ∷ es) = Call.rejects id ∷ calls es
calls (sets_up p test form ∷ es) = Call.sets_up p test ∷ calls es

find_approval : (es : List Effect) → Unapproved (calls es) ⊎ ((id : Text) × Approves id es)
unfolding calls
find_approval [] = inl tt
find_approval (quits ∷ es) = find_approval es
find_approval (cancels ∷ es) = find_approval es
find_approval (focuses ∷ es) = find_approval es
find_approval (dispatches x ∷ es) = find_approval es
find_approval (rejects id ∷ es) = find_approval es
find_approval (sets_up p test form ∷ es) = find_approval es
find_approval (approves id ∷ es) = inr (id, inl refl)

same_pending-sql : (p q : PendingWrite) → same_pending q p ≡ true → q.sql ≡ p.sql
unfolding same_pending
same_pending-sql p q e = ground (arith, text_eq_iff q.sql p.sql)

approved_calls :
    (w : World) (a : App) (id : Text) → run w a (calls (approves id ∷ [])) ≡ (approve w a id).0
unfolding calls
approved_calls w a id = run-approve w a id

-- What a screen executes is what it shows: if the snapshot that the screen has shows the pending write
-- of the session, then a message executes nothing, or it is `enter` in the dialog that approves with
-- "approve" typed, and executes, once and on the store that is open, the statement on display.
pub update-writes :
    (safe : Text → Text) (screen : Screen) (now : ℕ) (typing : Typing) (msg : Message) (m : Model)
    (w : World) (a : App)
    → Inv a
    → m.snap.pending ≡ a.state.pending
    → let b = run w a (calls (update safe screen now typing msg m).1) in
      (writes b.trace ≡ writes a.trace)
      ⊎ ((p : PendingWrite) × (m.pending ≡ some p)
          × (m.modal ≡ bytes "approve")
          × (m.input ≡ bytes "approve")
          × (msg ≡ input (key_press (bytes "enter")))
          × ((h : ℕ) × (a.store ≡ some h) × (writes b.trace ≡ (h, p.sql) ∷ writes a.trace)))
update-writes safe screen now typing msg m w a v sync =
    let es = (update safe screen now typing msg m).1 in
    elim (find_approval es) [
      | inl u ↦ inl (Unapproved-writes w a (calls es) u v)
      | inr (id, h) ↦
          let (pressed, modal, typed, shown, alone) =
            update-Approves safe screen now typing msg m id h in
          let (p, q, displayed, pending, equal, fresh, named) = shown in
          let e : run w a (calls es) ≡ (approve w a id).0 =
            ap (λ x. run w a (calls x)) alone ∙ approved_calls w a id in
          elim (approve-writes w a id v) [
            | inl k ↦ inl (ap (λ x. writes x.trace) e ∙ k)
            | inr k ↦
                let staged : k.pending ≡ q = cc in
                inr (
                  p,
                  displayed,
                  modal,
                  typed,
                  pressed,
                  (
                    k.handle,
                    k.connected,
                    ap (λ x. writes x.trace) e
                        ∙ (k.once
                            ∙ ap (λ t. (k.handle, t) ∷ writes a.trace)
                                (ap (λ r. r.sql) staged ∙ same_pending-sql p q equal)),
                  ),
                )
          ]
    ]
