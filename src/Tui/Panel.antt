-- ===== src/Tui/Panel.antt =====
-- internal/tui/panel.go: the box of a form or of an inspected row, and the rows in it; of model.go
-- `selectedValue`. Of a row of a form only its field is modelled, of the other lines their number.
use relvo.Base.{
  ℕ, zero, suc, ◌+◌, ◌-◌, ◌*◌, ◌/◌, min, max, Bool, true, false, ◌||◌, Option, none, some, List, [],
  ◌∷◌, ◌++◌, ltb, leb, ◌==◌, if◌then◌else◌, length, get_elem?, Text, bytes, pos_part,
}
use relvo.Tui.Model.{Screen, Model, is_modal}
use relvo.Tui.Help.{Bounds, centered}
-- `selectedValue`. Of a row of a form only its field is modelled, of the other lines their number.
use relvo.Base.{}
use relvo.Tui.Model.{}
use relvo.Tui.Help.{}

at : {A : Type 0} → List A → ℕ → Option A
at [] i = none
at (x ∷ xs) zero = some x
at (x ∷ xs) (suc i) = at xs i

-- `selectedValue`
pub selected_value : Model → ℕ → ℕ → Text
selected_value m r c = elim (get_elem? m.snap.result.rows r) [
  | none ↦ []
  | some row ↦ elim (get_elem? row c) [
    | none ↦ []
    | some v ↦
        if v.null
        then bytes "NULL"
        else if v.binary
        then bytes "[binary] " ++ v.text
        else if v.truncated
        then bytes "[truncated] " ++ v.text
        else v.text
  ]
]

newlines : Text → ℕ
newlines [] = 0
newlines (c ∷ s) = (if c == 10 then 1 else 0) + newlines s

-- The loop of `panelBounds` over `k` columns from `c`: it stops at 24 lines.
count_lines : Model → ℕ → ℕ → ℕ → ℕ → ℕ
unfolding selected_value newlines
count_lines m value_width count c zero = count
count_lines m value_width count c (suc k) =
    let value = selected_value m (pos_part m.row) c in
    let rest =
      count_lines m value_width (count + length value / value_width + newlines value) (suc c) k in
    if leb 24 count then count else rest

unfoldable pub panel_width : Model → ℕ
panel_width m =
    if ltb m.width 48
    then m.width
    else min (if is_modal m "inspect" then 96 else 88) (max 1 (m.width - 4))

-- The height that the contents ask for.
unfoldable pub preferred_height : Model → ℕ → ℕ
unfolding count_lines
preferred_height m width =
    let columns = length m.snap.result.columns in
    let narrow = count_lines m (max 1 (width - 6)) (columns * 2) 0 columns in
    let wide = count_lines m (max 1 ((width - 2) * 2 / 3)) columns 0 columns in
    let lines = (if ltb (width - 2) 40 then narrow else wide) in
    let rows = length m.fields + (if is_modal m "env" then 5 else 7) in
    let folded = (if ltb (width - 2) 46 then rows + length m.fields else rows) in
    if is_modal m "inspect" then min 30 (max 10 (lines + 6)) else min 25 (max 14 (folded + 6))

-- `panelBounds`
unfoldable pub panel_bounds : Model → Bounds
unfolding panel_width preferred_height
panel_bounds m =
    let width = panel_width m in
    centered m width
      (if ltb m.height 16 then m.height else min (preferred_height m width) (max 1 (m.height - 4)))

-- `panelBodyHeight`
unfoldable pub panel_body_height : Model → ℕ
unfolding panel_bounds
panel_body_height m = (panel_bounds m).height - 6

-- Does a section start at the field? (`groups` in `formRows`)
starts_group : Bool → ℕ → Bool
starts_group true i = (i == 0) || (i == 1) || (i == 2)
starts_group false i = (i == 0) || (i == 1) || (i == 3) || (i == 5)

-- The rows before a field's own: the heading of a section, and an empty row if there are rows above.
unfoldable pub group_rows : Bool → Bool → ℕ → List (Option ℕ)
unfolding starts_group
group_rows env blank i =
    if starts_group env i then (if blank then none ∷ none ∷ [] else none ∷ []) else []

-- The rows of a field: in a narrow box its label has one of its own.
unfoldable pub own_rows : Bool → ℕ → List (Option ℕ)
own_rows compact i = if compact then none ∷ some i ∷ [] else some i ∷ []

-- The loop of `formRows` over `k` fields from `i`: the field of each row, if it has one. `blank` says
-- that there are rows above.
unfoldable pub row_fields : Bool → Bool → Bool → ℕ → ℕ → List (Option ℕ)
unfolding group_rows own_rows
row_fields env compact blank i zero = []
row_fields env compact blank i (suc k) =
    group_rows env blank i ++ (own_rows compact i ++ row_fields env compact true (suc i) k)

-- The fields of the rows of `formRows`.
unfoldable pub form_rows : Model → ℕ → List (Option ℕ)
unfolding row_fields
form_rows m width =
    row_fields (is_modal m "env") (ltb width 46) false 0 (if is_modal m "env" then 8 else 7)

-- The place of the field's row.
unfoldable pub row_of : ℕ → ℕ → List (Option ℕ) → Option ℕ
row_of field i [] = none
row_of field i (none ∷ rs) = row_of field (suc i) rs
row_of field i (some f ∷ rs) = if f == field then some i else row_of field (suc i) rs

-- `formViewportStart`
unfoldable pub form_viewport_start : Model → List (Option ℕ) → ℕ
unfolding row_of
form_viewport_start m rows =
    let body = panel_body_height m in
    elim (row_of m.field 0 rows) [ none ↦ 0 | some i ↦ min (i - body / 2) (length rows - body) ]

-- The field of the form whose row is `i` lines below the top of the body.
pub field_at_row : Model → ℕ → Option ℕ
unfolding form_rows
field_at_row m i =
    let rows = form_rows m (max 1 ((panel_bounds m).width - 2)) in
    elim (get_elem? rows (form_viewport_start m rows + i)) [ none ↦ none | some f ↦ f ]

-- The loop of `detailLines`, over `k` columns from `c`: the number of lines.
count_details : Screen → Model → ℕ → ℕ → ℕ → ℕ
unfolding selected_value
count_details screen m width c zero = 0
count_details screen m width c (suc k) =
    let value = selected_value m (pos_part m.row) c in
    let here =
      (if ltb width 40
        then 1 + screen.wrapped value (max 1 (width - 4))
        else max 1 (screen.wrapped value (max 1 (width - min 26 (max 14 (width / 3)))))) in
    here + count_details screen m width (suc c) k

-- The number of lines of `detailLines`
pub detail_lines : Screen → Model → ℕ → ℕ
unfolding count_details
detail_lines screen m width =
    if width == 0 then 0 else count_details screen m width 0 (length m.snap.result.columns)
