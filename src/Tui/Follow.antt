-- ===== src/Tui/Follow.antt =====
-- internal/tui/model.go: `followForeignKey`, from a selected cell to the rows that it refers to.
-- `safe`, which makes a text printable, is an argument.
use relvo.Base.{
  text_eq, ℕ, zero, suc, not, ◌&&◌, ◌||◌, Option, none, some, List, [], ◌∷◌, ◌++◌, if◌then◌else◌,
  Result, ok, err, ◌>>=◌, any, Text, bytes, is_empty, pos_part,
}
use relvo.Data.{ForeignKey, Value, Filter, Action, Snapshot}
use relvo.Tui.Model.{Model, Effect, note, plain, dispatch}

get : {A : Type 0} → List A → ℕ → Option A
get [] i = none
get (x ∷ xs) zero = some x
get (x ∷ xs) (suc i) = get xs i

-- The first loop: the foreign key on the column, unless several of different names are.
select_key : Text → Option ForeignKey → List ForeignKey → Result Text (Option ForeignKey)
select_key column selected [] = ok selected
select_key column selected (k ∷ ks) =
    let other = select_key column selected ks in
    let mine = select_key column (some k) ks in
    if not (text_eq k.column column) then other else elim selected [
      | none ↦ mine
      | some s ↦
          if not (text_eq s.name k.name)
          then err
              (bytes "Multiple foreign keys on this column; inspect Structure to choose a target")
          else mine
    ]

column_index : ℕ → Text → List Text → Option ℕ
column_index i n [] = none
column_index i n (c ∷ cs) = if text_eq c n then some i else column_index (suc i) n cs

-- Why a value cannot be followed.
obstacle : Value → Option Text
obstacle v =
    if v.null
    then some (bytes "NULL")
    else if v.binary
    then some (bytes "binary")
    else if v.truncated
    then some (bytes "truncated")
    else none

module _ (safe : Text → Text) where
  -- The value of a part of the key, in the selected row.
  part_value : List Text → List Value → ForeignKey → Result Text Value
  unfolding column_index get
  part_value columns row k = elim (column_index 0 k.column columns) [
    | none ↦ err (bytes "Foreign-key value unavailable: " ++ safe k.column)
    | some c ↦ elim (get row c) [
      | none ↦ err (bytes "Foreign-key value unavailable: " ++ safe k.column)
      | some v ↦ elim (obstacle v) [
        | some reason ↦
            err (bytes "Cannot follow " ++ reason ++ bytes " foreign-key value: " ++ safe k.column)
        | none ↦ ok v
      ]
    ]
  ]

  -- The second loop: a filter for each part of the selected key.
  key_filters :
      Text → ForeignKey → List Text → List Value → List ForeignKey → Result Text (List Filter)
  unfolding part_value
  key_filters database selected columns row [] = ok []
  key_filters database selected columns row (k ∷ ks) =
      let rest = key_filters database selected columns row ks in
      if not (text_eq k.name selected.name)
      then rest
      else if not (is_empty k.database) && not (text_eq k.database database)
      then err (bytes "Cross-schema foreign-key navigation is not supported: " ++ safe k.database)
      else if not (text_eq k.table selected.table) || is_empty k.target
      then err (bytes "Foreign-key target metadata is unavailable or inconsistent")
      else (part_value columns row k >>= λ v.
          rest >>= λ fs. ok (record { column = k.target; op = bytes "eq"; value = v.text } ∷ fs))

  -- The action to take, or the notice to show.
  pub target : Snapshot → ℕ → ℕ → Result Text Action
  unfolding select_key key_filters get
  target s row col =
      let unselected = bytes "Foreign-key navigation requires a selected table row" in
      if s.query || is_empty s.browse.table
      then err unselected
      else elim (get s.result.columns col) [
        | none ↦ err unselected
        | some column ↦ elim (get s.result.rows row) [
          | none ↦ err unselected
          | some values ↦
              (select_key column none s.schema.foreign_keys >>= λ found. elim found [
                | none ↦ err (bytes "No foreign-key constraint available for this column")
                | some k ↦
                    if is_empty k.name
                    then err (bytes "No foreign-key constraint available for this column")
                    else (key_filters s.database k s.result.columns values s.schema.foreign_keys
                        >>= λ fs.
                            if any (λ t. text_eq t.name k.table) s.tables
                            then ok (record (plain (bytes "open-table")) {
                              table = k.table;
                              filters = fs;
                            })
                            else err (
                                bytes "Referenced table unavailable in the current database: "
                                ++ safe k.table))
              ])
        ]
      ]

  -- `followForeignKey`; the selection is not negative.
  unfoldable pub follow_foreign_key : Model → Model × List Effect
  follow_foreign_key m = elim (target m.snap (pos_part m.row) (pos_part m.col)) [
    | err e ↦ (note e m, [])
    | ok a ↦ dispatch a (record m { focus = 1; tab = 0 })
  ]
