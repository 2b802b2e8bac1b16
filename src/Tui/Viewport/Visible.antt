-- ===== src/Tui/Viewport/Visible.antt =====
-- The selection is always on the screen.
use relvo.Base.{ℕ, zero, suc, ◌+◌, ◌-◌, ◌≤◌, ◌<◌, min, ◌≡◌, arith, ℤ, pos, negsuc}
use relvo.Tui.Viewport.{bound, scroll, span, columns_width, shrink, grow, scroll_left, body_height}

-- In a window that is not empty, a selected line that exists is shown, and the window does not reach
-- past the last line while lines above it are hidden.
pub scroll_visible :
    (top r n body : ℕ)
    → r < n
    → 0 < body
    → let t = scroll top r n body in (t ≤ r) × (r < t + body) × (t ≤ n - body)
unfolding scroll
scroll_visible top r n body h k = ground arith

pub body_height-positive : (height : ℕ) → 0 < body_height height
unfolding body_height
body_height-positive height = omega arith

pub bound-lt : (i : ℤ) (n : ℕ) → 0 < n → bound i n < n
unfolding bound
bound-lt (negsuc i) n h = omega arith
bound-lt (pos i) n h = omega arith

pub span-suc :
    (w : ℕ → ℕ) (l col : ℕ)
    → l < col
    → span w l (suc (col - l)) ≡ w l + span w (suc l) (suc (col - suc l))
unfolding span
span-suc w l col h = let e : col - l ≡ suc (col - suc l) = omega arith in rw e

pub span_one : (w : ℕ → ℕ) (l col : ℕ) → l ≡ col → span w l (suc (col - l)) ≡ w l
unfolding span
span_one w l col h = let e : col - l ≡ 0 = omega arith in rw e (omega arith)

shrink_shown :
    (w : ℕ → ℕ) (grid : ℕ) (narrow : (c : ℕ) → w c ≤ grid) (k left col width : ℕ)
    → left + k ≡ col
    → width ≡ span w left (suc (col - left))
    → let r = shrink w grid k left width in
      (r.0 ≤ col) × (r.1 ≡ span w r.0 (suc (col - r.0))) × (r.1 ≤ grid)
unfolding shrink
shrink_shown w grid narrow zero left col width e s =
    (omega arith, s, omega (arith, s, narrow left, span_one w left col (omega arith)))
shrink_shown w grid narrow (suc k) left col width e s = ground (
  arith,
  span-suc w left col (omega arith),
  shrink_shown w grid narrow k (suc left) col (width - w left) (omega arith),
)

grow_shown :
    (w : ℕ → ℕ) (grid left col width : ℕ)
    → left ≤ col
    → width ≡ span w left (suc (col - left))
    → width ≤ grid
    → let l = grow w grid left width in (l ≤ col) × (span w l (suc (col - l)) ≤ grid)
unfolding grow
grow_shown w grid zero col width b s f = (omega arith, ground arith)
grow_shown w grid (suc left) col width b s f = ground (
  arith,
  span-suc w left col (omega arith),
  grow_shown w grid left col (width + w left) (omega arith),
)

-- If no column is wider than the grid and the selected one exists, the columns from the first one shown
-- to the selected one fit into the grid.
pub scroll_left_visible :
    (w : ℕ → ℕ) (grid n left col : ℕ)
    → ((c : ℕ) → w c ≤ grid)
    → col < n
    → let l = scroll_left w grid n left col in (l ≤ col) × (span w l (suc (col - l)) ≤ grid)
unfolding scroll_left
scroll_left_visible w grid n left col narrow h =
    let l = min left col in
    let counted : min (suc col) n - l ≡ suc (col - l) = omega arith in
    let s =
      shrink_shown w grid narrow (col - l) l col (columns_width w n l col) (omega arith)
        (unfold columns_width in rw counted) in
    grow_shown w grid _ col _ s.0 s.1 s.2
