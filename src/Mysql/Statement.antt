-- ===== src/Mysql/Statement.antt =====
-- internal/database/mysql/mysql.go: `quote` and `browseSQL`, the statement that shows a table.
mod Examples
pub mod Quoting
pub mod Injection
use relvo.Base.{
  text_eq, ℕ, Bool, true, false, not, ◌&&◌, ◌||◌, Option, none, some, List, [], ◌∷◌, ◌++◌, map, ltb,
  ◌==◌, if◌then◌else◌, Result, err, ok, ◌>>=◌, length, any, Text, bytes, is_empty, ℤ, pos, ◌+ℤ◌,
  ltb_ℤ,
}
use relvo.Data.{Column, Index, Schema, Filter, BrowseRequest}

-- Every backquote doubled.
double : Text → Text
double [] = []
double (c ∷ s) = if c == 96 then 96 ∷ 96 ∷ double s else c ∷ double s

pub quote : Text → Text
unfolding double
quote name = 96 ∷ double name ++ 96 ∷ []

-- An argument for a placeholder.
pub data Argument : Type 0 where
  text : Text → Argument
  number : ℤ → Argument

pub record Statement : Type 0 where
  pub sql : Text
  pub arguments : List Argument
  pub notice : Text

-- `columns[name]`: of columns with one name the last counts.
find_column : List Column → Text → Option Column
find_column [] n = none
find_column (c ∷ cs) n = elim (find_column cs n) [
  | some d ↦ some d
  | none ↦ if text_eq c.name n then some c else none
]

pub is_column : List Column → Text → Bool
unfolding find_column
is_column cs n = elim (find_column cs n) [ none ↦ false | some c ↦ true ]

join : Text → List Text → Text
join sep [] = []
join sep (s ∷ []) = s
join sep (s ∷ t ∷ ts) = s ++ sep ++ join sep (t ∷ ts)

-- Is every part of an index a column that is never NULL?
all_solid : List Column → List Text → Bool
all_solid cs [] = true
all_solid cs (n ∷ ns) = elim (find_column cs n) [
  | none ↦ false
  | some c ↦ not c.nullable && all_solid cs ns
]

abbrev has_any {ℓ} : {A : Type ℓ} → List A → Bool
has_any [] = false
has_any (x ∷ xs) = true

unique_key : List Column → Index → Bool
unfolding all_solid
unique_key cs i = i.unique && has_any i.columns && all_solid cs i.columns

-- The loop that looks for a key, with the `break` at the primary one.
choose_key : List Column → List Text → List Index → List Text
unfolding unique_key
choose_key cs key [] = key
choose_key cs key (i ∷ is) =
    let valid = unique_key cs i in
    let primary = text_eq i.name (bytes "PRIMARY") in
    let next = if valid && (not (has_any key) || primary) then i.columns else key in
    let rest = choose_key cs next is in if valid && primary then next else rest

-- The columns to order by, each once, without the empty name.
order_columns : List Text → List Text → List Text
order_columns seen [] = []
order_columns seen (n ∷ ns) =
    let skip = is_empty n || any (λ m. text_eq m n) seen in
    let rest = order_columns seen ns in
    let more = n ∷ order_columns (n ∷ seen) ns in if skip then rest else more

ordered : Bool → Text → Text
ordered desc n = quote n ++ (if desc then bytes " DESC" else bytes " ASC")

-- What `strings.NewReplacer` does to the value of `contains`.
escape_like : Text → Text
escape_like [] = []
escape_like (c ∷ s) =
    if (c == b'!') || (c == b'%') || (c == b'_')
    then b'!' ∷ c ∷ escape_like s
    else c ∷ escape_like s

pub data Op : Type 0 where
  is_null not_null contains : Op
  comparison : Text → Op
  unsupported : Op

op_of : Text → Op
op_of t =
    if text_eq t (bytes "is-null")
    then is_null
    else if text_eq t (bytes "not-null")
    then not_null
    else if text_eq t (bytes "contains")
    then contains
    else if text_eq t (bytes "eq")
    then comparison (bytes "=")
    else if text_eq t (bytes "ne")
    then comparison (bytes "<>")
    else if text_eq t (bytes "gt")
    then comparison (bytes ">")
    else if text_eq t (bytes "gte")
    then comparison (bytes ">=")
    else if text_eq t (bytes "lt")
    then comparison (bytes "<")
    else if text_eq t (bytes "lte")
    then comparison (bytes "<=")
    else unsupported

abbrev pub max_value_bytes : ℕ
max_value_bytes = 65536

-- The body of the loop over the filters: a condition and its arguments.
pub clause : List Column → Filter → Result Text (Text × List Argument)
unfolding op_of escape_like
clause cs f =
    if not (is_column cs f.column)
    then err (bytes "unknown filter column")
    else if ltb max_value_bytes (length f.value)
    then err (bytes "filter value too large")
    else elim (op_of f.op) [
      | is_null ↦ ok (quote f.column ++ bytes " IS NULL", [])
      | not_null ↦ ok (quote f.column ++ bytes " IS NOT NULL", [])
      | contains ↦ ok (
        quote f.column ++ bytes " LIKE ? ESCAPE '!'",
        text (b'%' ∷ escape_like f.value ++ b'%' ∷ []) ∷ [],
      )
      | comparison op ↦ ok (quote f.column ++ b' ' ∷ op ++ bytes " ?", text f.value ∷ [])
      | unsupported ↦ err (bytes "unsupported filter operator " ++ f.op)
    ]

pub clauses : List Column → List Filter → Result Text (List Text × List Argument)
clauses cs [] = ok ([], [])
clauses cs (f ∷ fs) = clause cs f >>= λ c. clauses cs fs >>= λ r. ok (c.0 ∷ r.0, c.1 ++ r.1)

abbrev shifting : Text
shifting = bytes "Offset pagination may shift when data changes."

abbrev unordered : Text
unordered = bytes " No non-null unique key; fallback ordering is not deterministic for ties."

first_name : List Column → Text
first_name [] = []
first_name (c ∷ cs) = c.name

-- `query`, from its parts.
pub select : Text → Text → List Column → List Text → List Text → Text
unfolding join
select schema table cs where_clauses order =
    bytes "SELECT "
    ++ join (bytes ", ") (map (λ c. quote c.name) cs)
    ++ bytes " FROM "
    ++ quote schema
    ++ b'.' ∷ quote table
    ++ (if has_any where_clauses then bytes " WHERE " ++ join (bytes " AND ") where_clauses else [])
    ++ bytes " ORDER BY "
    ++ join (bytes ", ") order
    ++ bytes " LIMIT ? OFFSET ?"

abbrev key_of : Schema → List Text
key_of meta = choose_key meta.columns [] meta.indexes

sort_key : Schema → List Text
unfolding choose_key first_name
sort_key meta = if has_any (key_of meta) then key_of meta else first_name meta.columns ∷ []

pub order_by : BrowseRequest → Schema → List Text
unfolding order_columns sort_key ordered
order_by req meta = map (ordered req.desc) (order_columns [] (req.sort ∷ sort_key meta))

pub browse_sql : Text → BrowseRequest → Schema → Result Text Statement
browse_sql schema req meta =
    if ltb_ℤ req.limit (pos 1) || ltb_ℤ (pos 1000) req.limit || ltb_ℤ req.offset (pos 0)
    then err (bytes "limit must be 1..1000 and offset nonnegative")
    else if ltb 100 (length req.filters)
    then err (bytes "too many filters")
    else if not (has_any meta.columns)
    then err (bytes "table has no accessible columns")
    else if not (is_empty req.sort) && not (is_column meta.columns req.sort)
    then err (bytes "unknown sort column")
    else (clauses meta.columns req.filters >>= λ w. ok (record {
      sql = select schema req.table meta.columns w.0 (order_by req meta);
      arguments = w.1 ++ number (req.limit +ℤ pos 1) ∷ number req.offset ∷ [];
      notice = if has_any (key_of meta) then shifting else shifting ++ unordered;
    }))
