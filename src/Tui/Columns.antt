-- ===== src/Tui/Columns.antt =====
-- internal/tui/view.go: `visibleColumns` and `hiddenColumns`, the columns of a grid that are drawn,
-- and of model.go the column that a click is in.

pub mod Fill
use relvo.Base.{
  ℕ, zero, suc, ◌+◌, ◌-◌, ◌/◌, ◌%◌, Bool, true, false, not, ◌&&◌, Option, none, some, List, [], ◌∷◌,
  ltb, ◌==◌, if◌then◌else◌, length, ℤ, pos, ltb_ℤ,
}
use relvo.Tui.Viewport.{grid_width}
use relvo.Tui.Model.{Model, column_width}

-- A column that is drawn: `visibleColumn`.
pub record Visible : Type 0 where
  pub index : ℕ
  pub width : ℕ

-- The first loop: `k` columns are left from `c`, `first` if none was taken.
unfoldable pub take_columns : (ℕ → ℕ) → ℕ → Bool → ℕ → ℕ → ℕ → List Visible
take_columns w available first used c zero = []
take_columns w available first used c (suc k) =
    let rest = take_columns w available false (used + w c) (suc c) k in
    if ltb available (used + w c) && not first then [] else record { index = c; width = w c } ∷ rest

unfoldable pub used_width : List Visible → ℕ
used_width [] = 0
used_width (v ∷ vs) = v.width + used_width vs

-- The second loop, from the `i`-th column: each gets its share, and the first ones one more.
unfoldable pub share : ℕ → ℕ → ℕ → List Visible → List Visible
share each extra i [] = []
share each extra i (v ∷ vs) =
    record v { width = v.width + each + (if ltb i extra then 1 else 0) }
    ∷ share each extra (suc i) vs

-- `visibleColumns`
unfoldable pub visible_columns : Model → List Visible
unfolding take_columns used_width share
visible_columns m =
    let available = grid_width m.width m.focus in
    let n = length m.snap.result.columns in
    let cols = take_columns (column_width m) available true 0 m.left (n - m.left) in
    let spare = available - used_width cols in
    if length cols == 0 then [] else share (spare / length cols) (spare % length cols) 0 cols

last_index : ℕ → List Visible → ℕ
last_index i [] = i
last_index i (v ∷ vs) = last_index v.index vs

-- `hiddenColumns`: how many are left of the first one drawn, and right of the last one.
pub hidden_columns : Model → ℕ × ℕ
unfolding visible_columns last_index
hidden_columns m = elim (visible_columns m) [
  | [] ↦ (0, 0)
  | v ∷ vs ↦ (v.index, length m.snap.result.columns - last_index v.index vs - 1)
]

-- The last column that is drawn.
pub last_visible : Model → ℕ
unfolding visible_columns last_index
last_visible m = last_index 0 (visible_columns m)

-- The last loop of `click`: the column drawn at `x`, the first one being at `start`.
pub column_at : ℤ → ℕ → List Visible → Option ℕ
column_at x start [] = none
column_at x start (v ∷ vs) =
    let rest = column_at x (start + v.width) vs in
    if not (ltb_ℤ x (pos start)) && ltb_ℤ x (pos (start + v.width)) then some v.index else rest
