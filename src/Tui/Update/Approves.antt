-- ===== src/Tui/Update/Approves.antt =====
-- Which messages approve a write.
use relvo.Base.{
  ℕ, ◌+◌, ◌≤◌, ◌≡◌, refl, ap, subst, ◌∙◌, ◌⊎◌, inl, inr, true, some, [], ◌∷◌, arith, Bool-cases,
  Option-cases, Text, bytes, text_eq_iff, is_empty, ℤ, pos, pos_part, ◌-ℤ◌,
}
use relvo.Data.{PendingWrite}
use relvo.Tui.Viewport.{sidebar_width}
use relvo.Tui.Columns.{visible_columns, column_at}
use relvo.Tui.Model.{Screen, Model, approves, is_modal, plain, same_pending}
use relvo.Tui.Keys.{approval_key}
use relvo.Tui.Keys.Approval.{
  Harmless, dispatch-Harmless, open_table-Harmless, sort-Harmless, key-Harmless,
  approval_key_approves, Approves, Harmless-not-Approves, approval_key-Approves,
}
use relvo.Tui.Dialog.{
  Typing, Button, Input, key_press, mouse_click, mouse_wheel, paste, other_input,
}
use relvo.Tui.Dialog.Press.{edit_stage, dialog_key, update_modal}
use relvo.Tui.Dialog.Press.Only.{
  click_help-Harmless, click_panel-Harmless, edit_stage-Harmless, dialog_key-cases,
}
use relvo.Tui.Update.{
  Message, window_size, background_color, event, result, setup, input, tab_widths, tab_at,
  click_tabs, click_grid, click_tables, click, browse_input, is_interrupt, update,
}

click_tables-Harmless : (screen : Screen) (y : ℤ) (m : Model) → Harmless (click_tables screen y m).1
unfolding click_tables
click_tables-Harmless screen y m = ground (
  arith,
  open_table-Harmless screen (record m { table = pos (m.table_top + pos_part (y -ℤ pos 4)) }),
)

click_tabs-Harmless : (screen : Screen) (x : ℤ) (m : Model) → Harmless (click_tabs screen x m).1
unfolding click_tabs
click_tabs-Harmless screen x m = elim (Option-cases (tab_at x 0 0 tab_widths)) [
  | inl e ↦ rw (e, click_tabs) tt
  | inr (t, e) ↦ ground arith
]

click_grid-Harmless :
    (screen : Screen) (sidebar : ℕ) (x y : ℤ) (m : Model)
    → Harmless (click_grid screen sidebar x y m).1
unfolding click_grid
click_grid-Harmless screen sidebar x y m =
    elim (Option-cases (column_at x sidebar (visible_columns m))) [
      | inl e ↦ ground arith
      | inr (c, e) ↦ ground (arith, sort-Harmless (record m { col = pos c }))
    ]

click-Harmless :
    (screen : Screen) (b : Button) (x y : ℤ) (m : Model) → Harmless (click screen b x y m).1
unfolding click
click-Harmless screen b x y m = ground (
  arith,
  dispatch-Harmless (plain (bytes "prev")) m,
  dispatch-Harmless (plain (bytes "next")) m,
  click_tables-Harmless screen y (record m { focus = 0 }),
  click_tabs-Harmless screen (x -ℤ pos (sidebar_width m.width m.focus)) (record m { focus = 1 }),
  click_grid-Harmless screen (sidebar_width m.width m.focus) x y (record m { focus = 1 }),
)

browse_input-Harmless :
    (safe : Text → Text) (screen : Screen) (i : Input) (m : Model)
    → Harmless (browse_input safe screen i m).1
unfolding browse_input
browse_input-Harmless safe screen (key_press k) m = key-Harmless safe screen k m
browse_input-Harmless safe screen (mouse_click b x y) m = click-Harmless screen b x y m
browse_input-Harmless safe screen (mouse_wheel b x y) m = tt
browse_input-Harmless safe screen paste m = tt
browse_input-Harmless safe screen other_input m = tt

-- What approves a write in a dialog is a key of the dialog that approves.
update_modal-Approves :
    (safe : Text → Text) (screen : Screen) (now : ℕ) (typing : Typing) (i : Input) (m : Model)
    (id : Text)
    → Approves id (update_modal safe screen now typing i m).1
    → (k : Text) × (i ≡ key_press k)
      × (is_modal m "approve" ≡ true)
      × ((approval_key now k m).1 ≡ approves id ∷ [])
      × ((update_modal safe screen now typing i m).1 ≡ approves id ∷ [])
unfolding update_modal
update_modal-Approves safe screen now typing (key_press k) m id a =
    elim (dialog_key-cases safe screen now typing k m) [
      | inl h ↦ absurd (Harmless-not-Approves id (dialog_key safe screen now typing k m).1 h a)
      | inr (modal, e) ↦
          let one = approval_key-Approves now k m id (subst (λ r. Approves id r.1) e a) in
          (k, refl, modal, one, ap (λ r. r.1) e ∙ one)
    ]
update_modal-Approves safe screen now typing (mouse_click b x y) m id a = absurd (
    Harmless-not-Approves id (update_modal safe screen now typing (mouse_click b x y) m).1
      (ground (
        arith,
        edit_stage-Harmless typing m,
        click_help-Harmless screen x y m,
        click_panel-Harmless x y m,
      ))
      a)
update_modal-Approves safe screen now typing (mouse_wheel b x y) m id a = absurd a
update_modal-Approves safe screen now typing paste m id a = absurd (
    Harmless-not-Approves id (update_modal safe screen now typing paste m).1
      (ground (arith, edit_stage-Harmless typing m)) a)
update_modal-Approves safe screen now typing other_input m id a =
    absurd (Harmless-not-Approves id (edit_stage typing m).1 (edit_stage-Harmless typing m) a)

-- A message that approves a write is `enter` in the dialog that approves, with "approve" typed; the
-- write on display is the pending one, field by field, and not past its time; the message has no other
-- effect.
pub update-Approves :
    (safe : Text → Text) (screen : Screen) (now : ℕ) (typing : Typing) (msg : Message) (m : Model)
    (id : Text)
    → Approves id (update safe screen now typing msg m).1
    → (msg ≡ input (key_press (bytes "enter")))
      × (m.modal ≡ bytes "approve")
      × (m.input ≡ bytes "approve")
      × ((p : PendingWrite) × (q : PendingWrite) × (m.pending ≡ some p)
          × (m.snap.pending ≡ some q)
          × (same_pending q p ≡ true)
          × ((p.expires ≡ 0) ⊎ (now ≤ p.expires))
          × (p.id ≡ id))
      × ((update safe screen now typing msg m).1 ≡ approves id ∷ [])
unfolding update
update-Approves safe screen now typing (window_size w h) m id a = absurd a
update-Approves safe screen now typing background_color m id a = absurd a
update-Approves safe screen now typing (event s opened) m id a = absurd a
update-Approves safe screen now typing (result s error) m id a = absurd (ground arith)
update-Approves safe screen now typing (setup s error t test) m id a = absurd a
update-Approves safe screen now typing (input i) m id a = elim (Bool-cases (is_interrupt i)) [
  | inl e ↦ absurd (ground arith)
  | inr e ↦ elim (Bool-cases (is_empty m.modal)) [
    | inl f ↦ absurd (
        ground (
          arith,
          Harmless-not-Approves id (browse_input safe screen i m).1
              (browse_input-Harmless safe screen i m),
        ))
    | inr f ↦
        let (k, key_e, modal, one, alone) =
          update_modal-Approves safe screen now typing i m id (ground arith) in
        let (entered, typed, shown) = approval_key_approves now k m id one in
        (
          ap (λ t. input t) key_e ∙ ap (λ t. input (key_press t)) entered,
          (text_eq_iff m.modal (bytes "approve")).0 modal,
          typed,
          shown,
          rw (e, f, update) alone,
        )
  ]
]
