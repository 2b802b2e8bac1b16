-- ===== src/Tui/Update/Dropped.antt =====
-- The passwords that were typed into a form are gone once it is closed.
use relvo.Base.{
  text_eq, ℕ, ◌+◌, ◌-◌, ◌≡◌, refl, inl, inr, Bool, true, false, ◌||◌, Option, none, some, List, [],
  ◌∷◌, arith, Option-cases, Text, bytes, is_empty, ℤ, pos, pos_part, ◌+ℤ◌, ◌-ℤ◌,
}
use relvo.Data.{Snapshot}
use relvo.Tui.Viewport.{sidebar_width}
use relvo.Tui.Columns.{visible_columns, hidden_columns, last_visible, column_at}
use relvo.Tui.Model.{Screen, Model, is_form, plain, accept}
use relvo.Tui.Model.Dropped.{
  Bare, Dropped, close_modal-Bare, clamp-Dropped, clamp-Bare, open_sql-Bare, show_pending-Bare,
  dispatch-Bare, accept-Dropped,
}
use relvo.Tui.Keys.Dropped.{open_table-Bare, sort-Bare, key-Dropped}
use relvo.Tui.Dialog.{
  Typing, Button, left_button, wheel_up, wheel_left, wheel_right, other_button, Input, key_press,
  mouse_click, mouse_wheel, paste, other_input,
}
use relvo.Tui.Dialog.Press.Dropped.{update_modal-Dropped}
use relvo.Tui.Update.{
  Message, window_size, background_color, event, result, setup, input, start, new_model, tab_widths,
  tab_at, click_tabs, click_grid, click_tables, click, turn, browse_input, finish_setup, update,
}

click_tables-Bare :
    (screen : Screen) (y : ℤ) (m : Model) → Bare m → Bare (click_tables screen y m).0
unfolding click_tables
click_tables-Bare screen y m h = ground (
  arith,
  open_table-Bare screen (record m { table = pos (m.table_top + pos_part (y -ℤ pos 4)) }) h,
)

click_tabs-Bare : (screen : Screen) (x : ℤ) (m : Model) → Bare m → Bare (click_tabs screen x m).0
unfolding click_tabs
click_tabs-Bare screen x m h = elim (Option-cases (tab_at x 0 0 tab_widths)) [
  | inl e ↦ rw (e, click_tabs) h
  | inr (t, e) ↦
      ground (arith, open_sql-Bare false m (inr h), clamp-Bare screen (record m { tab = t }) h)
]

click_grid-Bare :
    (screen : Screen) (sidebar : ℕ) (x y : ℤ) (m : Model)
    → Bare m
    → Bare (click_grid screen sidebar x y m).0
unfolding click_grid
click_grid-Bare screen sidebar x y m h =
    let to = λ (n : Model) (k : Bare n). clamp-Bare screen n k in
    let scrolled = to (record m { col = pos ((hidden_columns m).0 - 1) }) h in
    let further = to (record m { col = pos (last_visible m + 1) }) h in
    elim (Option-cases (column_at x sidebar (visible_columns m))) [
      | inl e ↦ ground (arith, scrolled, further, to m h)
      | inr (c, e) ↦ ground (
        arith,
        scrolled,
        further,
        sort-Bare (record m { col = pos c }) h,
        to (record m { col = pos c }) h,
        to (record m { col = pos c; row = pos m.top +ℤ y -ℤ pos 4 }) h,
      )
    ]

click-Bare :
    (screen : Screen) (b : Button) (x y : ℤ) (m : Model) → Bare m → Bare (click screen b x y m).0
unfolding click
click-Bare screen b x y m h = ground (
  arith,
  dispatch-Bare (plain (bytes "prev")) m h,
  dispatch-Bare (plain (bytes "next")) m h,
  click_tables-Bare screen y (record m { focus = 0 }) h,
  click_tabs-Bare screen (x -ℤ pos (sidebar_width m.width m.focus)) (record m { focus = 1 }) h,
  click_grid-Bare screen (sidebar_width m.width m.focus) x y (record m { focus = 1 }) h,
)

turn-Bare : (b : Button) (x : ℤ) (m : Model) → Bare m → Bare (turn b x m)
unfolding turn
turn-Bare left_button x m h = ground arith
turn-Bare wheel_up x m h = ground arith
turn-Bare wheel_left x m h = h
turn-Bare wheel_right x m h = h
turn-Bare other_button x m h = ground arith

browse_input-Dropped :
    (safe : Text → Text) (screen : Screen) (i : Input) (m : Model)
    → Bare m
    → Dropped (browse_input safe screen i m).0
unfolding browse_input
browse_input-Dropped safe screen (key_press k) m h = key-Dropped safe screen k m h
browse_input-Dropped safe screen (mouse_click b x y) m h = inr (click-Bare screen b x y m h)
browse_input-Dropped safe screen (mouse_wheel b x y) m h =
    inr (clamp-Bare screen (turn b x m) (turn-Bare b x m h))
browse_input-Dropped safe screen paste m h = inr h
browse_input-Dropped safe screen other_input m h = inr h

finish_setup-Dropped :
    (safe : Text → Text) (screen : Screen) (s : Snapshot) (error : Option Text) (id : ℕ)
    (test : Bool) (m : Model)
    → Dropped m
    → Dropped (finish_setup safe screen s error id test m)
unfolding finish_setup
finish_setup-Dropped safe screen s (some e) id test m h =
    ground (arith, accept-Dropped screen s m h)
finish_setup-Dropped safe screen s none id test m h =
    let n : Model = record (accept screen s m) { setup_busy = false } in
    ground
      (arith, accept-Dropped screen s m h, (λ (f : is_form n ≡ true). close_modal-Bare n (inl f)))

empty_form :
    (t : Text)
    → is_empty t ≡ true
    → (text_eq t (bytes "profile") || text_eq t (bytes "env")) ≡ false
unfolding text_eq
empty_form [] e = refl
empty_form (c ∷ t) e = cc

no_dialog-Bare : (m : Model) → Dropped m → is_empty m.modal ≡ true → Bare m
no_dialog-Bare m (inr h) e = h
no_dialog-Bare m (inl h) e = ground (arith, empty_form m.modal e)

-- Whatever the message, a form is open after it, or no text of a form is left and the screen waits for
-- no setup, if this was so before.
pub update-Dropped :
    (safe : Text → Text) (screen : Screen) (now : ℕ) (typing : Typing) (msg : Message) (m : Model)
    → Dropped m
    → Dropped (update safe screen now typing msg m).0
unfolding update
update-Dropped safe screen now typing (window_size w h) m d = clamp-Dropped screen _ d
update-Dropped safe screen now typing background_color m d = d
update-Dropped safe screen now typing (event s true) m d = accept-Dropped screen s m d
update-Dropped safe screen now typing (event s false) m d = d
update-Dropped safe screen now typing (result s none) m d =
    ground (arith, accept-Dropped screen s m d)
update-Dropped safe screen now typing (result s (some e)) m d =
    ground (arith, accept-Dropped screen s m d)
update-Dropped safe screen now typing (setup s error t test) m d =
    finish_setup-Dropped safe screen s error t test m d
update-Dropped safe screen now typing (input i) m d = ground (
  arith,
  update_modal-Dropped safe screen now typing i m d,
  no_dialog-Bare m d,
  browse_input-Dropped safe screen i m,
)

-- The messages one after another, each with the time and what is typed by it.
pub session : (Text → Text) → Screen → List (ℕ × Typing × Message) → Model → Model
session safe screen [] m = m
session safe screen ((now, typing, msg) ∷ ms) m =
    session safe screen ms (update safe screen now typing msg m).0

session_kept :
    (safe : Text → Text) (screen : Screen) (ms : List (ℕ × Typing × Message)) (m : Model)
    → Dropped m
    → Dropped (session safe screen ms m)
unfolding session
session_kept safe screen [] m d = d
session_kept safe screen ((now, typing, msg) ∷ ms) m d =
    session_kept safe screen ms _ (update-Dropped safe screen now typing msg m d)

new_model-Dropped :
    (s : Snapshot) (events : Bool) (screen : Screen) → Dropped (new_model s events screen)
unfolding new_model
new_model-Dropped s events screen = elim (Option-cases s.pending) [
  | inl e ↦ rw (e, new_model) (inr (refl, refl))
  | inr (p, e) ↦
      rw (e, new_model) (inr (show_pending-Bare p (start s events screen) (inr (refl, refl))))
]

-- After any messages to a new screen a form is open, or no text that was typed into a form is left in
-- its fields and `setupBusy`, for which the screen waits, is false.
pub session-Dropped :
    (safe : Text → Text) (screen : Screen) (s : Snapshot) (events : Bool)
    (ms : List (ℕ × Typing × Message))
    → Dropped (session safe screen ms (new_model s events screen))
session-Dropped safe screen s events ms =
    session_kept safe screen ms _ (new_model-Dropped s events screen)
