-- ===== src/Tui/Keys/Dropped.antt =====
-- Keys outside the dialogs open forms, and no other key fills in their fields.
use relvo.Base.{
  text_eq, ℕ, ◌-◌, ◌≡◌, refl, inl, inr, Bool, true, false, not, ◌&&◌, [], arith, Option-cases,
  Result-cases, length, Text, bytes, ℤ, pos, pos_part, min_ℤ,
}
use relvo.Data.{Filter}
use relvo.Tui.Model.{Screen, Model, is_form, tables, clamp, close_modal, plain}
use relvo.Tui.Model.Dropped.{
  Bare, Dropped, close_modal-Bare, clamp-Bare, open_input-Bare, open_sql-Bare, show_pending-Bare,
  dispatch-Bare,
}
use relvo.Tui.Follow.{target, follow_foreign_key}
use relvo.Tui.Keys.{
  move, minus, element, open_table, sort, open_profile, primary_column, open_filter, submit_filter,
  Key, quit, escape, switch, data_tab, structure_tab, query_box, write_box, connections,
  profile_form, env_form, palette, help, find_filter, find_table, inspect_row, primary_filter,
  follow, clear, sort_column, row_mode, refresh, previous, next, more_rows, fewer_rows, enter,
  approval, down, up, left, right, half_down, half_up, page_down, page_up, home, end, g, other,
  key_of, enter_key, press, key, approval_key, submit_profile,
}

pub open_table-Bare : (screen : Screen) (m : Model) → Bare m → Bare (open_table screen m).0
unfolding open_table
open_table-Bare screen m h = elim (Option-cases (element (tables screen m) (pos_part m.table))) [
  | inl e ↦ rw (e, open_table) h
  | inr (t, e) ↦ rw (e, open_table) (dispatch-Bare _ (record m { focus = 1; tab = 0 }) h)
]

pub sort-Bare : (m : Model) → Bare m → Bare (sort m).0
unfolding sort
sort-Bare m h = elim (Option-cases (element m.snap.result.columns (pos_part m.col))) [
  | inl e ↦ ground arith
  | inr (c, e) ↦ ground (
    arith,
    dispatch-Bare
        (record (plain (bytes "sort")) {
          sort = c;
          desc = text_eq m.snap.browse.sort c && not m.snap.browse.desc;
        })
        m h,
  )
]

open_profile_lem : (env : Bool) (m : Model) → is_form (open_profile env m) ≡ true
unfolding open_profile text_eq
open_profile_lem true m = refl
open_profile_lem false m = refl

open_filter-Bare : (primary : Bool) (m : Model) → Bare m → Bare (open_filter primary m).0
unfolding open_filter
open_filter-Bare primary m h =
    let columns = m.snap.schema.columns in
    let f : Filter = record { column = []; op = bytes "eq"; value = [] } in
    let n : Model = record m {
      step = 0;
      choice = min_ℤ m.col (pos (length columns - 1));
      filter = f;
    } in
    elim (Option-cases (primary_column columns)) [
      | inl e ↦ ground (arith, open_input-Bare (bytes "filter") n h)
      | inr (c, e) ↦ ground (
        arith,
        open_input-Bare (bytes "filter") n h,
        open_input-Bare (bytes "filter") (record n { filter = record f { column = c }; step = 2 })
            h,
      )
    ]

enter_key-Bare : (screen : Screen) (m : Model) → Bare m → Bare (enter_key screen m).0
unfolding enter_key
enter_key-Bare screen m h = ground (
  arith,
  open_table-Bare screen m h,
  clamp-Bare screen m h,
  clamp-Bare screen (record m { modal = bytes "inspect"; modal_top = 0 }) h,
)

follow-Bare : (safe : Text → Text) (m : Model) → Bare m → Bare (follow_foreign_key safe m).0
unfolding follow_foreign_key
follow-Bare safe m h = elim (Result-cases (target safe m.snap (pos_part m.row) (pos_part m.col))) [
  | inr (e, t) ↦ rw (t, follow_foreign_key) h
  | inl (a, t) ↦ rw (t, follow_foreign_key) (dispatch-Bare a (record m { focus = 1; tab = 0 }) h)
]

move-Bare : (n : ℤ) (m : Model) → Bare m → Bare (move n m)
unfolding move
move-Bare n m h = ground arith

press-Dropped :
    (safe : Text → Text) (screen : Screen) (gg : Bool) (k : Key) (m : Model)
    → Bare m
    → Dropped (press safe screen gg k m).0
unfolding press
press-Dropped safe screen gg quit m h = inr h
press-Dropped safe screen gg escape m h =
    inr (clamp-Bare screen _ (clamp-Bare screen (record m { search = [] }) h))
press-Dropped safe screen gg switch m h =
    inr (clamp-Bare screen _ (clamp-Bare screen (record m { focus = 1 - m.focus }) h))
press-Dropped safe screen gg data_tab m h =
    inr (clamp-Bare screen (record m { tab = 0; focus = 1 }) h)
press-Dropped safe screen gg structure_tab m h =
    inr (clamp-Bare screen (record m { tab = 1; focus = 1 }) h)
press-Dropped safe screen gg query_box m h = inr (open_sql-Bare false m (inr h))
press-Dropped safe screen gg write_box m h = ground (arith, open_sql-Bare true m (inr h))
press-Dropped safe screen gg connections m h =
    inr (open_input-Bare (bytes "connections") (record m { choice = pos 0 }) h)
press-Dropped safe screen gg profile_form m h = inl (open_profile_lem false m)
press-Dropped safe screen gg env_form m h = inl (open_profile_lem true m)
press-Dropped safe screen gg palette m h =
    inr (open_input-Bare (bytes "palette") (record m { choice = pos 0 }) h)
press-Dropped safe screen gg help m h = inr (clamp-Bare screen _ h)
press-Dropped safe screen gg find_filter m h =
    ground (arith, open_input-Bare (bytes "find") m h, open_filter-Bare false m h)
press-Dropped safe screen gg find_table m h =
    inr (open_input-Bare (bytes "find") (record m { focus = 0 }) h)
press-Dropped safe screen gg inspect_row m h =
    inr (enter_key-Bare screen (record m { g = false; focus = 1; tab = 0 }) h)
press-Dropped safe screen gg primary_filter m h = inr (open_filter-Bare true m h)
press-Dropped safe screen gg follow m h = inr (follow-Bare safe m h)
press-Dropped safe screen gg clear m h = ground (
  arith,
  dispatch-Bare (plain (bytes "filter")) m h,
  clamp-Bare screen (clamp screen (record m { search = [] }))
      (clamp-Bare screen (record m { search = [] }) h),
)
press-Dropped safe screen gg sort_column m h = inr (sort-Bare m h)
press-Dropped safe screen gg row_mode m h =
    inr (clamp-Bare screen (record m { row_mode = not m.row_mode }) h)
press-Dropped safe screen gg refresh m h = inr (dispatch-Bare _ m h)
press-Dropped safe screen gg previous m h = inr (dispatch-Bare _ m h)
press-Dropped safe screen gg next m h = inr (dispatch-Bare _ m h)
press-Dropped safe screen gg more_rows m h = inr (dispatch-Bare _ m h)
press-Dropped safe screen gg fewer_rows m h = inr (dispatch-Bare _ m h)
press-Dropped safe screen gg enter m h = inr (enter_key-Bare screen m h)
press-Dropped safe screen gg approval m h = elim (Option-cases m.snap.pending) [
  | inl e ↦ rw (e, press) (inr (clamp-Bare screen m h))
  | inr (p, e) ↦ rw (e, press) (inr (show_pending-Bare p m (inr h)))
]
press-Dropped safe screen gg down m h = inr (clamp-Bare screen _ (move-Bare (pos 1) m h))
press-Dropped safe screen gg up m h = inr (clamp-Bare screen _ (move-Bare (minus 1) m h))
press-Dropped safe screen gg left m h = inr (clamp-Bare screen _ (ground arith))
press-Dropped safe screen gg right m h = inr (clamp-Bare screen _ (ground arith))
press-Dropped safe screen gg half_down m h = inr (clamp-Bare screen _ (move-Bare _ m h))
press-Dropped safe screen gg half_up m h = inr (clamp-Bare screen _ (move-Bare _ m h))
press-Dropped safe screen gg page_down m h = inr (clamp-Bare screen _ (move-Bare _ m h))
press-Dropped safe screen gg page_up m h = inr (clamp-Bare screen _ (move-Bare _ m h))
press-Dropped safe screen gg home m h = inr (clamp-Bare screen _ (move-Bare _ m h))
press-Dropped safe screen gg end m h = inr (clamp-Bare screen _ (move-Bare _ m h))
press-Dropped safe screen true g m h = inr (clamp-Bare screen _ (move-Bare _ m h))
press-Dropped safe screen false g m h = inr (clamp-Bare screen m h)
press-Dropped safe screen gg other m h = inr (clamp-Bare screen m h)

pub key-Dropped :
    (safe : Text → Text) (screen : Screen) (k : Text) (m : Model)
    → Bare m
    → Dropped (key safe screen k m).0
unfolding key
key-Dropped safe screen k m h =
    let is_g = text_eq k (bytes "g") in
    press-Dropped safe screen (m.g && is_g) (key_of k) (record m { g = is_g && not (m.g && is_g) })
      h

pub submit_filter-Bare : (m : Model) → Dropped m → Bare (submit_filter m).0
unfolding submit_filter
submit_filter-Bare m h = dispatch-Bare _ (close_modal m) (close_modal-Bare m h)

pub submit_profile_lem :
    (test : Bool) (m : Model) → is_form m ≡ true → is_form (submit_profile test m).0 ≡ true
unfolding submit_profile
submit_profile_lem test m h = ground arith

pub approval_key-Dropped :
    (now : ℕ) (k : Text) (m : Model) → Dropped m → Dropped (approval_key now k m).0
unfolding approval_key
approval_key-Dropped now k m h =
    let c = close_modal-Bare m h in
    elim (Option-cases m.pending) [ inl e ↦ ground arith | inr (p, e) ↦ ground arith ]
