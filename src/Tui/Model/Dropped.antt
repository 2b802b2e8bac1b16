-- ===== src/Tui/Model/Dropped.antt =====
-- The fields of a form, which have a password, are there only while the form is open.
use relvo.Base.{
  ◌≡◌, ◌⊎◌, inl, inr, Bool, true, false, none, [], arith, if◌then◌else◌, Option-cases, Text, pos,
}
use relvo.Data.{Action, PendingWrite, Snapshot}
use relvo.Tui.Model.{
  Screen, Model, is_form, fuzzy, tables, clamp, close_modal, open_input, open_sql, show_pending,
  dispatch, find_table, follow_table, reset_view, follow_pending, accept,
}

-- No field of a form, and the screen waits for no setup: `setupBusy` is false. A setup that was left by
-- `esc` may still be under way.
abbrev pub Bare : Model → Type 0
Bare m = (m.fields ≡ []) × (m.setup_busy ≡ false)

-- A form is open, or its fields are dropped and the screen waits for no setup.
abbrev pub Dropped : Model → Type 0
Dropped m = (is_form m ≡ true) ⊎ Bare m

pub close_modal-Bare : (m : Model) → Dropped m → Bare (close_modal m)
unfolding close_modal
close_modal-Bare m (inl h) = ground arith
close_modal-Bare m (inr h) = ground arith

pub clamp-Dropped : (screen : Screen) (m : Model) → Dropped m → Dropped (clamp screen m)
unfolding clamp
clamp-Dropped screen m h = h

pub clamp-Bare : (screen : Screen) (m : Model) → Bare m → Bare (clamp screen m)
unfolding clamp
clamp-Bare screen m h = h

pub open_input-Bare : (kind : Text) (m : Model) → Bare m → Bare (open_input kind m)
unfolding open_input
open_input-Bare kind m h = h

pub open_sql-Bare : (write : Bool) (m : Model) → Dropped m → Bare (open_sql write m)
unfolding open_sql close_modal
open_sql-Bare write m h = let c = close_modal-Bare m h in ground (arith, close_modal)

pub show_pending-Bare : (p : PendingWrite) (m : Model) → Dropped m → Bare (show_pending p m)
unfolding show_pending open_input
show_pending-Bare p m h = close_modal-Bare m h

pub dispatch-Bare : (a : Action) (m : Model) → Bare m → Bare (dispatch a m).0
unfolding dispatch
dispatch-Bare a m h = ground arith

follow_table-Dropped :
    (screen : Screen) (s : Snapshot) (m : Model) → Dropped m → Dropped (follow_table screen s m)
unfolding follow_table
follow_table-Dropped screen s m h =
    let n = (if fuzzy screen m.search s.browse.table then m else record m { search = [] }) in
    elim (Option-cases (find_table 0 s.browse.table (tables screen n))) [
      | inl e ↦ ground arith
      | inr (i, e) ↦ ground arith
    ]

reset_view-Dropped : (m : Model) → Dropped m → Dropped (reset_view m)
unfolding reset_view
reset_view-Dropped m h =
    let n : Model = record m {
      row = pos 0;
      col = pos 0;
      top = 0;
      left = 0;
      structure_top = pos 0;
    } in
    ground (arith, close_modal-Bare n h)

follow_pending-Dropped : (s : Snapshot) (m : Model) → Dropped m → Dropped (follow_pending s m)
unfolding follow_pending
follow_pending-Dropped s m h = elim (Option-cases s.pending) [
  | inr (p, e) ↦ ground (arith, show_pending-Bare p m h)
  | inl e ↦ elim (Option-cases m.pending) [
    | inl f ↦ ground arith
    | inr (q, f) ↦ ground (arith, close_modal-Bare (record m { pending = none }) h)
  ]
]

pub accept-Dropped :
    (screen : Screen) (s : Snapshot) (m : Model) → Dropped m → Dropped (accept screen s m)
unfolding accept
accept-Dropped screen s m h =
    let a : Model = record m { snap = s; desired_widths = screen.widths s } in
    let b = follow_table-Dropped screen s a h in
    let c = reset_view-Dropped a h in
    let d = reset_view-Dropped (follow_table screen s a) b in
    ground (
      arith,
      clamp-Dropped screen (follow_pending s a) (follow_pending-Dropped s a h),
      clamp-Dropped screen (follow_pending s (reset_view a)) (follow_pending-Dropped s _ c),
      clamp-Dropped screen (follow_pending s (follow_table screen s a))
          (follow_pending-Dropped s _ b),
      clamp-Dropped screen (follow_pending s (reset_view (follow_table screen s a)))
          (follow_pending-Dropped s _ d),
    )
