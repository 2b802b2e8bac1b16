-- ===== src/Tui/Keys/Approval.antt =====
-- Which keys can approve a write.
use relvo.Base.{
  text_eq, ℕ, ◌≤◌, ◌≡◌, ◌⊎◌, inl, inr, Bool, true, false, not, ◌&&◌, some, List, [], ◌∷◌, arith,
  Option-cases, Result-cases, Text, bytes, text_eq_iff, pos_part,
}
use relvo.Data.{Action, PendingWrite}
use relvo.Tui.Model.{
  Screen, Model, Effect, quits, cancels, focuses, dispatches, approves, rejects, sets_up, tables,
  plain, dispatch, same_pending,
}
use relvo.Tui.Follow.{target, follow_foreign_key}
use relvo.Tui.Keys.{
  element, open_table, sort, open_filter, submit_filter, Key, find_filter, inspect_row,
  primary_filter, follow, clear, sort_column, refresh, previous, next, more_rows, fewer_rows, enter,
  key_of, enter_key, press, key, approval_key, submit_profile,
}

-- No approval and no rejection among the effects.
abbrev pub Harmless : List Effect → Type 0
Harmless [] = Unit
Harmless (approves id ∷ es) = ⊥
Harmless (rejects id ∷ es) = ⊥
Harmless (quits ∷ es) = Harmless es
Harmless (cancels ∷ es) = Harmless es
Harmless (focuses ∷ es) = Harmless es
Harmless (dispatches a ∷ es) = Harmless es
Harmless (sets_up p t i ∷ es) = Harmless es

pub dispatch-Harmless : (a : Action) (m : Model) → Harmless (dispatch a m).1
unfolding dispatch
dispatch-Harmless a m = ground arith

pub open_table-Harmless : (screen : Screen) (m : Model) → Harmless (open_table screen m).1
unfolding open_table
open_table-Harmless screen m = elim (Option-cases (element (tables screen m) (pos_part m.table))) [
  | inl e ↦ rw (e, open_table) tt
  | inr (t, e) ↦ rw (e, open_table) (dispatch-Harmless _ _)
]

pub sort-Harmless : (m : Model) → Harmless (sort m).1
unfolding sort
sort-Harmless m = elim (Option-cases (element m.snap.result.columns (pos_part m.col))) [
  | inl e ↦ ground arith
  | inr (c, e) ↦ ground (
    arith,
    dispatch-Harmless
        (record (plain (bytes "sort")) {
          sort = c;
          desc = text_eq m.snap.browse.sort c && not m.snap.browse.desc;
        })
        m,
  )
]

open_filter-Harmless : (primary : Bool) (m : Model) → Harmless (open_filter primary m).1
unfolding open_filter
open_filter-Harmless primary m = ground arith

enter_key-Harmless : (screen : Screen) (m : Model) → Harmless (enter_key screen m).1
unfolding enter_key
enter_key-Harmless screen m = ground (arith, open_table-Harmless screen m)

follow-Harmless : (safe : Text → Text) (m : Model) → Harmless (follow_foreign_key safe m).1
unfolding follow_foreign_key
follow-Harmless safe m =
    elim (Result-cases (target safe m.snap (pos_part m.row) (pos_part m.col))) [
      | inr (e, h) ↦ rw (h, follow_foreign_key) tt
      | inl (a, h) ↦ rw (h, follow_foreign_key) (dispatch-Harmless a _)
    ]

press-Harmless :
    (safe : Text → Text) (screen : Screen) (gg : Bool) (k : Key) (m : Model)
    → Harmless (press safe screen gg k m).1
unfolding press
press-Harmless safe screen gg follow m = follow-Harmless safe m
press-Harmless safe screen gg sort_column m = sort-Harmless m
press-Harmless safe screen gg enter m = enter_key-Harmless screen m
press-Harmless safe screen gg inspect_row m = enter_key-Harmless screen _
press-Harmless safe screen gg clear m = ground (arith, dispatch-Harmless (plain (bytes "filter")) m)
press-Harmless safe screen gg refresh m = dispatch-Harmless _ m
press-Harmless safe screen gg previous m = dispatch-Harmless _ m
press-Harmless safe screen gg next m = dispatch-Harmless _ m
press-Harmless safe screen gg more_rows m = dispatch-Harmless _ m
press-Harmless safe screen gg fewer_rows m = dispatch-Harmless _ m
press-Harmless safe screen gg find_filter m = ground (arith, open_filter-Harmless false m)
press-Harmless safe screen gg primary_filter m = open_filter-Harmless true m
press-Harmless safe screen gg _ m = ground arith

pub submit_filter-Harmless : (m : Model) → Harmless (submit_filter m).1
unfolding submit_filter
submit_filter-Harmless m = dispatch-Harmless _ _

pub submit_profile-Harmless : (test : Bool) (m : Model) → Harmless (submit_profile test m).1
unfolding submit_profile
submit_profile-Harmless test m = ground arith

-- No key outside a dialog approves or rejects a write.
pub key-Harmless :
    (safe : Text → Text) (screen : Screen) (k : Text) (m : Model) → Harmless (key safe screen k m).1
unfolding key
key-Harmless safe screen k m = press-Harmless safe screen _ (key_of k) _

-- In the dialog a key approves a write only if it is `enter`, the word "approve" was typed, and the
-- write on display is the pending one, field by field, and not past its time.
pub approval_key_approves :
    (now : ℕ) (k : Text) (m : Model) (id : Text)
    → (approval_key now k m).1 ≡ approves id ∷ []
    → (k ≡ bytes "enter")
      × (m.input ≡ bytes "approve")
      × ((p : PendingWrite) × (q : PendingWrite) × (m.pending ≡ some p)
          × (m.snap.pending ≡ some q)
          × (same_pending q p ≡ true)
          × ((p.expires ≡ 0) ⊎ (now ≤ p.expires))
          × (p.id ≡ id))
unfolding approval_key
approval_key_approves now k m id h = elim (Option-cases m.pending) [
  | inl e ↦ absurd (ground arith)
  | inr (p, e) ↦ elim (Option-cases m.snap.pending) [
    | inl f ↦ absurd (ground arith)
    | inr (q, f) ↦ (
      ground (arith, text_eq_iff k (bytes "enter")),
      ground (arith, text_eq_iff m.input (bytes "approve")),
      (p, q, e, f, ground arith, ground arith, ground arith),
    )
  ]
]

-- Some effect approves this write.
abbrev pub Approves : Text → List Effect → Type 0
Approves id [] = ⊥
Approves id (approves i ∷ es) = (i ≡ id) ⊎ Approves id es
Approves id (e ∷ es) = Approves id es

pub Harmless-not-Approves : (id : Text) (es : List Effect) → Harmless es → ¬ Approves id es
Harmless-not-Approves id [] h a = a
Harmless-not-Approves id (quits ∷ es) h a = Harmless-not-Approves id es h a
Harmless-not-Approves id (cancels ∷ es) h a = Harmless-not-Approves id es h a
Harmless-not-Approves id (focuses ∷ es) h a = Harmless-not-Approves id es h a
Harmless-not-Approves id (dispatches d ∷ es) h a = Harmless-not-Approves id es h a
Harmless-not-Approves id (sets_up p t i ∷ es) h a = Harmless-not-Approves id es h a
Harmless-not-Approves id (approves i ∷ es) h a = h
Harmless-not-Approves id (rejects i ∷ es) h a = h

pub approval_key-Approves :
    (now : ℕ) (k : Text) (m : Model) (id : Text)
    → Approves id (approval_key now k m).1
    → (approval_key now k m).1 ≡ approves id ∷ []
unfolding approval_key
approval_key-Approves now k m id h = elim (Option-cases m.pending) [
  | inl e ↦ ground arith
  | inr (p, e) ↦ ground arith
]
