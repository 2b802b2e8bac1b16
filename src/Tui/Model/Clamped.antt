-- ===== src/Tui/Model/Clamped.antt =====
-- What `clamp` makes of a selection.
use relvo.Base.{ℕ, suc, ◌+◌, ◌-◌, ◌≤◌, ◌<◌, arith, length, pos_part}
use relvo.Tui.Viewport.{bound, span, body_height, grid_width}
use relvo.Tui.Viewport.Visible.{scroll_visible, body_height-positive, bound-lt, scroll_left_visible}
use relvo.Tui.Model.{Screen, Model, column_width, clamp}

-- The selected row and column are there, and on the screen.
pub record Shows (screen : Screen) (m : Model) : Type 0 where
  pub row_exists : pos_part m.row < length m.snap.result.rows
  pub row_above : m.top ≤ pos_part m.row
  pub row_below : pos_part m.row < m.top + body_height m.height
  pub col_exists : pos_part m.col < length m.snap.result.columns
  pub col_left : m.left ≤ pos_part m.col
  pub col_fits :
      span (column_width m) m.left (suc (pos_part m.col - m.left)) ≤ grid_width m.width m.focus

pub width_narrow : (m : Model) (c : ℕ) → column_width m c ≤ grid_width m.width m.focus
unfolding column_width
width_narrow m c = omega arith

-- Wherever the selection was, of a result with rows and columns `clamp` selects a cell, and scrolls
-- to where that cell is seen whole.
pub clamp-Shows :
    (screen : Screen) (m : Model)
    → 0 < length m.snap.result.rows
    → 0 < length m.snap.result.columns
    → Shows screen (clamp screen m)
unfolding clamp column_width
clamp-Shows screen m rows columns =
    let body = body_height-positive m.height in
    let r = bound-lt m.row (length m.snap.result.rows) rows in
    let c = bound-lt m.col (length m.snap.result.columns) columns in
    let v =
      scroll_visible m.top (bound m.row (length m.snap.result.rows)) _ (body_height m.height) r
        body in
    let h =
      scroll_left_visible (column_width m) (grid_width m.width m.focus) _ m.left _ (width_narrow m)
        c in
    record {
      row_exists = r;
      row_above = v.0;
      row_below = v.1;
      col_exists = c;
      col_left = h.0;
      col_fits = h.1;
    }
