-- ===== src/Control/Validate.antt =====
-- internal/control/server.go: `validateAction`.
use relvo.Base.{
  is_blank, Bool, true, false, not, ◌||◌, Option, none, some, List, [], ◌∷◌, if◌then◌else◌, any,
  Text, bytes, is_empty, pos, ltb_ℤ,
}
use relvo.Data.{Filter, Action, Kind, kind_of}

abbrev pub is_nil {ℓ} : {A : Type ℓ} → List A → Bool
is_nil [] = true
is_nil (x ∷ xs) = false

abbrev named : List Filter → Bool
named fs = not (any (λ f. is_empty f.column || is_empty f.op) fs)

abbrev required : Bool → Text → Option Text
required present message = if present then none else some message

validate_kind : Action → Kind → Option Text
validate_kind a Kind.state = none
validate_kind a Kind.cancel = none
validate_kind a Kind.clear_filters = none
validate_kind a Kind.next = none
validate_kind a Kind.prev = none
validate_kind a Kind.refresh = none
validate_kind a Kind.connect =
    required (not (is_empty a.connection)) (bytes "connection is required")
validate_kind a Kind.open_table = required (not (is_empty a.table)) (bytes "table is required")
validate_kind a Kind.filter =
    if is_nil a.filters
    then some (bytes "at least one filter is required")
    else required (named a.filters) (bytes "filter column and op are required")
validate_kind a Kind.sort = required (not (is_empty a.sort)) (bytes "sort column is required")
validate_kind a Kind.page_size =
    required (not (ltb_ℤ a.page_size (pos 1))) (bytes "page size must be positive")
validate_kind a Kind.query = required (not (is_blank a.sql)) (bytes "SQL is required")
validate_kind a Kind.write = required (not (is_blank a.sql)) (bytes "SQL is required")
validate_kind a _ = some (bytes "unsupported action type")

-- `validateAction`; `none` is a nil error.
unfoldable pub validate_action : Action → Option Text
unfolding validate_kind
validate_action a = validate_kind a (kind_of a.type)
