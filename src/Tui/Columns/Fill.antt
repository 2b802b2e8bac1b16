-- ===== src/Tui/Columns/Fill.antt =====
-- The columns that are drawn fill the grid.
use native.Mathlib.Nat.{mod-lt, div-add-mod, mul_comm}
use relvo.Base.{
  ℕ, zero, suc, ◌+◌, ◌-◌, ◌*◌, ◌/◌, ◌%◌, ◌≤◌, ◌<◌, min, ◌≡◌, refl, ◌⊎◌, inl, inr, Bool, true, false,
  List, [], ◌∷◌, arith, length, pos_part,
}
use relvo.Tui.Viewport.{span, grid_width}
use relvo.Tui.Viewport.Visible.{span-suc, span_one}
use relvo.Tui.Model.{Screen, Model, column_width, clamp}
use relvo.Tui.Model.Clamped.{width_narrow, clamp-Shows}
use relvo.Tui.Columns.{Visible, take_columns, used_width, share, visible_columns}

take_columns-Fits :
    (w : ℕ → ℕ) (available : ℕ) (narrow : (c : ℕ) → w c ≤ available) (first : Bool) (used c k : ℕ)
    → used ≤ available
    → (first ≡ false) ⊎ (used ≡ 0)
    → used + used_width (take_columns w available first used c k) ≤ available
unfolding take_columns used_width
take_columns-Fits w available narrow first used c zero h f = omega arith
take_columns-Fits w available narrow first used c (suc k) h f =
    ground (arith, narrow c, take_columns-Fits w available narrow false (used + w c) (suc c) k)

mul_suc : (a b : ℕ) → a * suc b ≡ a * b + a
mul_suc a b = omega arith

share_width :
    (each extra i : ℕ) (vs : List Visible)
    → used_width (share each extra i vs)
      ≡ used_width vs + each * length vs + min (length vs) (extra - i)
unfolding share used_width
share_width each extra i [] = omega arith
share_width each extra i (v ∷ vs) =
    let h = share_width each extra (suc i) vs in ground (arith, h, mul_suc each (length vs))

taken_some :
    (w : ℕ → ℕ) (available c k : ℕ) → 0 < k → 0 < length (take_columns w available true 0 c k)
unfolding take_columns
taken_some w available c zero h = absurd (omega arith)
taken_some w available c (suc k) h = ground arith

-- If a column is left to draw, the columns that are drawn take up the whole width of the grid.
pub used_width-visible_columns :
    (m : Model)
    → m.left < length m.snap.result.columns
    → used_width (visible_columns m) ≡ grid_width m.width m.focus
unfolding visible_columns
used_width-visible_columns m h =
    let n = length m.snap.result.columns in
    let available = grid_width m.width m.focus in
    let cols = take_columns (column_width m) available true 0 m.left (n - m.left) in
    let spare = available - used_width cols in
    let some_taken : 0 < length cols = taken_some _ available m.left (n - m.left) (omega arith) in
    let fits : 0 + used_width cols ≤ available =
      take_columns-Fits (column_width m) available (width_narrow m) true 0 m.left (n - m.left)
        (omega arith) (inr refl) in
    let shared = share_width (spare / length cols) (spare % length cols) 0 cols in
    let whole : length cols * (spare / length cols) + spare % length cols ≡ spare =
      div-add-mod spare (length cols) in
    let less : spare % length cols < length cols = mod-lt spare some_taken in
    ground (arith, shared, mul_comm (length cols) (spare / length cols))

-- The column is among those drawn.
abbrev pub Drawn : ℕ → List Visible → Type 0
Drawn c [] = ⊥
Drawn c (v ∷ vs) = (v.index ≡ c) ⊎ Drawn c vs

share-Drawn :
    (c each extra i : ℕ) (vs : List Visible) → Drawn c vs → Drawn c (share each extra i vs)
unfolding share
share-Drawn c each extra i [] d = d
share-Drawn c each extra i (v ∷ vs) (inl e) = inl e
share-Drawn c each extra i (v ∷ vs) (inr d) = inr (share-Drawn c each extra (suc i) vs d)

take_columns-Drawn :
    (w : ℕ → ℕ) (available : ℕ) (first : Bool) (used c col k : ℕ)
    → c ≤ col
    → col < c + k
    → used + span w c (suc (col - c)) ≤ available
    → Drawn col (take_columns w available first used c k)
unfolding take_columns span
take_columns-Drawn w available first used c col zero h l f = absurd (omega arith)
take_columns-Drawn w available first used c col (suc k) h l f = ground (
  arith,
  span_one w c col,
  span-suc w c col,
  take_columns-Drawn w available false (used + w c) (suc c) col k,
)

-- Wherever the selection was, of a result with rows and columns `clamp` leaves a selected column that
-- is among those drawn.
pub clamp-Drawn :
    (screen : Screen) (m : Model)
    → 0 < length m.snap.result.rows
    → 0 < length m.snap.result.columns
    → let n = clamp screen m in Drawn (pos_part n.col) (visible_columns n)
unfolding visible_columns
clamp-Drawn screen m rows columns =
    let n = clamp screen m in
    let shown = clamp-Shows screen m rows columns in
    let c = pos_part n.col in
    let k = length n.snap.result.columns - n.left in
    let available = grid_width n.width n.focus in
    let cols = take_columns (column_width n) available true 0 n.left k in
    let some_taken : 0 < length cols =
      taken_some (column_width n) available n.left k
        (omega (arith, shown.col_exists, shown.col_left)) in
    let taken : Drawn c cols =
      take_columns-Drawn (column_width n) available true 0 n.left c k shown.col_left
        (omega (arith, shown.col_exists, shown.col_left)) (omega (arith, shown.col_fits)) in
    let spare = available - used_width cols in
    ground (arith, share-Drawn c (spare / length cols) (spare % length cols) 0 cols taken)
