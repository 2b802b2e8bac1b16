-- ===== src/Tui/Viewport.antt =====
-- internal/tui/model.go: the arithmetic of `clamp`, which keeps the selection on the screen.
mod Examples
pub mod Visible
use relvo.Base.{
  ℕ, zero, suc, ◌+◌, ◌-◌, ◌/◌, min, max, ltb, leb, ◌==◌, if◌then◌else◌, ℤ, pos, negsuc,
}

-- `bound`: a position in a list of `n` elements, 0 if it has none.
unfoldable pub bound : ℤ → ℕ → ℕ
bound (negsuc i) n = 0
bound (pos i) n = min i (n - 1)

-- The first line shown of `n`, so that line `r` is among the `body` lines on the screen.
pub scroll : ℕ → ℕ → ℕ → ℕ → ℕ
scroll top r n body =
    let t = min top (n - body) in
    let u = if ltb r t then r else t in if leb (u + body) r then r - body + 1 else u

-- The width of `k` columns from `start`.
unfoldable pub span : (ℕ → ℕ) → ℕ → ℕ → ℕ
span w start zero = 0
span w start (suc k) = w start + span w (suc start) k

-- `columnsWidth(start, end)` of `n` columns.
pub columns_width : (ℕ → ℕ) → ℕ → ℕ → ℕ → ℕ
unfolding span
columns_width w n start end = span w start (min (suc end) n - start)

-- The first loop of `clamp`, with the rounds that it can take: columns go out on the left.
shrink : (ℕ → ℕ) → ℕ → ℕ → ℕ → ℕ → ℕ × ℕ
shrink w grid zero left width = (left, width)
shrink w grid (suc k) left width =
    let rest = shrink w grid k (suc left) (width - w left) in
    if ltb grid width then rest else (left, width)

-- The second loop: columns come in on the left while there is room.
grow : (ℕ → ℕ) → ℕ → ℕ → ℕ → ℕ
grow w grid zero width = zero
grow w grid (suc left) width =
    let rest = grow w grid left (width + w left) in
    if leb (width + w left) grid then rest else suc left

-- The first column shown, so that `col` is among those on the screen.
pub scroll_left : (ℕ → ℕ) → ℕ → ℕ → ℕ → ℕ → ℕ
unfolding shrink grow columns_width
scroll_left w grid n left col =
    let l = min left col in
    let (left', width) = shrink w grid (col - l) l (columns_width w n l col) in
    grow w grid left' width

-- `sidebarWidth`; `focus` is 0 at the tables and 1 at the results.
pub sidebar_width : ℕ → ℕ → ℕ
sidebar_width width focus =
    if ltb width 64 then (if focus == 0 then width else 0) else min 28 (max 20 (width / 5))

-- `bodyHeight`
pub body_height : ℕ → ℕ
body_height height = max 1 (height - 6)

-- `gridWidth`
pub grid_width : ℕ → ℕ → ℕ
unfolding sidebar_width
grid_width width focus = max 1 (width - sidebar_width width focus)
