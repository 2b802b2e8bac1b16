-- ===== src/Tui/Dialog/Place.antt =====
-- Dialogs lie on the screen, are scrolled no further than to their end, and show the field that is
-- edited.
use relvo.Base.{
  ℕ, zero, suc, ◌+◌, ◌-◌, ◌≤◌, ◌<◌, ◌≡◌, refl, ◌⊎◌, inl, inr, Bool, true, false, Option, none, some,
  List, [], ◌∷◌, ◌++◌, arith, ltb, ◌==◌, if◌then◌else◌, Bool-cases, length,
}
use relvo.Tui.Model.{Screen, Model, is_modal}
use relvo.Tui.Help.{Bounds, centered, help_bounds}
use relvo.Tui.Panel.{
  panel_width, panel_bounds, panel_body_height, group_rows, own_rows, row_fields, form_rows, row_of,
  form_viewport_start,
}

-- A box that is not empty is on the screen.
abbrev pub OnScreen : Model → Bounds → Type 0
OnScreen m b = (b.x + b.width ≤ m.width) × (b.y + b.height ≤ m.height)

centered-OnScreen : (m : Model) (w h : ℕ) → w ≤ m.width → h ≤ m.height → OnScreen m (centered m w h)
centered-OnScreen m w h a b = (omega arith, omega arith)

help_bounds-OnScreen : (screen : Screen) (m : Model) → OnScreen m (help_bounds screen m)
unfolding help_bounds
help_bounds-OnScreen screen m = centered-OnScreen m _ _ (ground arith) (ground arith)

panel_width-le : (m : Model) → panel_width m ≤ m.width
unfolding panel_width
panel_width-le m = ground arith

panel_bounds-OnScreen : (m : Model) → OnScreen m (panel_bounds m)
unfolding panel_bounds
panel_bounds-OnScreen m = centered-OnScreen m _ _ (panel_width-le m) (ground arith)

-- The boxes of the guide, of the forms and of an inspected row are on the screen.
pub dialogs-OnScreen :
    (screen : Screen) (m : Model) → OnScreen m (help_bounds screen m) × OnScreen m (panel_bounds m)
dialogs-OnScreen screen m = (help_bounds-OnScreen screen m, panel_bounds-OnScreen m)

row_of-lt :
    (field i r : ℕ) (rows : List (Option ℕ))
    → row_of field i rows ≡ some r
    → (i ≤ r) × (r < i + length rows)
unfolding row_of
row_of-lt field i r [] h = absurd (ground arith)
row_of-lt field i r (none ∷ rs) h = ground (arith, row_of-lt field (suc i) r rs h)
row_of-lt field i r (some f ∷ rs) h = ground (arith, row_of-lt field (suc i) r rs)

viewport_shows :
    (m : Model) (rows : List (Option ℕ)) (r : ℕ)
    → row_of m.field 0 rows ≡ some r
    → 0 < panel_body_height m
    → let top = form_viewport_start m rows in
      (top ≤ r) × (r < top + panel_body_height m) × (top ≤ length rows - panel_body_height m)
unfolding form_viewport_start
viewport_shows m rows r h b = ground (arith, row_of-lt m.field 0 r rows h)

-- Some row has the field.
abbrev HasField : ℕ → List (Option ℕ) → Type 0
HasField f [] = ⊥
HasField f (none ∷ rs) = HasField f rs
HasField f (some g ∷ rs) = (g ≡ f) ⊎ HasField f rs

HasField-append : (f : ℕ) (xs ys : List (Option ℕ)) → HasField f ys → HasField f (xs ++ ys)
HasField-append f [] ys h = h
HasField-append f (none ∷ xs) ys h = HasField-append f xs ys h
HasField-append f (some g ∷ xs) ys h = inr (HasField-append f xs ys h)

row_of-some :
    (f i : ℕ) (rows : List (Option ℕ)) → HasField f rows → (r : ℕ) × (row_of f i rows ≡ some r)
unfolding row_of
row_of-some f i [] h = absurd h
row_of-some f i (none ∷ rs) h = row_of-some f (suc i) rs h
row_of-some f i (some g ∷ rs) h = elim (Bool-cases (g == f)) [
  | inl e ↦ (i, rw e refl)
  | inr e ↦
      let later : HasField f rs = ground arith in
      let (r, found) = row_of-some f (suc i) rs later in (r, rw e found)
]

own_rows-HasField :
    (compact : Bool) (i f : ℕ) (rs : List (Option ℕ))
    → (i ≡ f) ⊎ HasField f rs
    → HasField f (own_rows compact i ++ rs)
unfolding own_rows
own_rows-HasField true i f rs h = h
own_rows-HasField false i f rs h = h

row_fields-HasField :
    (env compact blank : Bool) (i k f : ℕ)
    → i ≤ f
    → f < i + k
    → HasField f (row_fields env compact blank i k)
unfolding row_fields
row_fields-HasField env compact blank i zero f h l = absurd (omega arith)
row_fields-HasField env compact blank i (suc k) f h l =
    let rest = row_fields env compact true (suc i) k in
    let here : (i ≡ f) ⊎ HasField f rest =
      ground (arith, row_fields-HasField env compact true (suc i) k f) in
    HasField-append f (group_rows env blank i) (own_rows compact i ++ rest)
      (own_rows-HasField compact i f rest here)

-- If a form's box has a body, the field that is edited has a row, that row is among those in the body,
-- and the body does not reach past the last row while rows above it are hidden.
pub form_viewport_start_shows :
    (m : Model) (width : ℕ)
    → m.field < (if is_modal m "env" then 8 else 7)
    → 0 < panel_body_height m
    → let rows = form_rows m width in
      let top = form_viewport_start m rows in
      (r : ℕ) × (row_of m.field 0 rows ≡ some r)
      × (top ≤ r)
      × (r < top + panel_body_height m)
      × (top ≤ length rows - panel_body_height m)
unfolding form_rows
form_viewport_start_shows m width f b =
    let env = is_modal m "env" in
    let has =
      row_fields-HasField env (ltb width 46) false 0 (if env then 8 else 7) m.field (omega arith)
        (omega (arith, f)) in
    let (r, found) = row_of-some m.field 0 (form_rows m width) has in
    let (above, below, filled) = viewport_shows m (form_rows m width) r found b in
    (r, found, above, below, filled)
