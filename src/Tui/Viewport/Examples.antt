-- ===== src/Tui/Viewport/Examples.antt =====
-- A list of ten lines in a window of three.
use relvo.Base.{◌+◌, ◌-◌, ◌≤◌, ◌<◌, ◌≡◌, refl, arith}
use relvo.Tui.Viewport.{scroll}
use relvo.Tui.Viewport.Visible.{scroll_visible}

scroll_test : scroll 0 7 10 3 ≡ 5
unfolding scroll
scroll_test = refl

scroll_visible_example : let t = scroll 0 7 10 3 in (t ≤ 7) × (7 < t + 3) × (t ≤ 10 - 3)
scroll_visible_example = scroll_visible 0 7 10 3 (omega arith) (omega arith)
