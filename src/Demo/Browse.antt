-- ===== src/Demo/Browse.antt =====
-- internal/database/demo/demo.go: `check`, `Tables`, `Query`, `Execute` and `Browse`. The context is
-- what its `Err` answers to each question in turn.
mod Examples
mod Order
pub mod Total
pub mod Calm
pub mod Meaning
pub mod Operators
pub mod Names
pub mod Filters
mod Pages
use relvo.Base.{
  text_eq, ℕ, suc, ◌+◌, ◌-◌, min, ◌≡◌, refl, ◌⊎◌, inl, inr, Bool, true, false, not, ◌&&◌, ◌||◌,
  Option, none, some, List, [], ◌∷◌, ◌++◌, map, ltb, if◌then◌else◌, length, take, drop, Text, bytes,
  is_empty, contains, pos, pos_part, ltb_ℤ,
}
use relvo.Data.{Table, Column, Schema, Value, Filter, BrowseRequest, ResultSet, no_result}
use relvo.Demo.Outcome.{Outcome, fails, returns, ◌>>=◌, index}
use relvo.Demo.Compare.{Sign, below, same, above, Rationals, numeric, compare_values}

-- `table`
pub record DemoTable : Type 0 where
  pub schema : Schema
  pub rows : List (List Value)

-- `store`
pub record DemoStore : Type 0 where
  pub tables : List (Text × DemoTable)
  pub closed : Bool

abbrev pub Context : Type 0
Context = ℕ → Option Text

-- `check`
pub check : Context → DemoStore → Outcome (Unit {0})
check ctx s = elim (ctx 0) [
  | some e ↦ fails e
  | none ↦ if s.closed then fails (bytes "demo database is closed") else returns tt
]

-- `Close`
pub close_demo : DemoStore → DemoStore
close_demo s = record s { closed = true }

pub seeded_table : Text → List (Text × DemoTable) → Option DemoTable
seeded_table n [] = none
seeded_table n ((m, t) ∷ ts) = if text_eq m n then some t else seeded_table n ts

-- `Tables`
pub list_tables : Context → DemoStore → Outcome (List Table)
unfolding check
list_tables ctx s = check ctx s >>= λ u. returns (
    record { name = bytes "orders"; kind = bytes "BASE TABLE" }
    ∷ record { name = bytes "products"; kind = bytes "BASE TABLE" }
    ∷ record { name = bytes "users"; kind = bytes "BASE TABLE" }
    ∷ [])

-- `Schema`
pub describe_table : Context → DemoStore → Text → Outcome Schema
unfolding check seeded_table
describe_table ctx s n = check ctx s >>= λ u. elim (seeded_table n s.tables) [
  | none ↦ fails (bytes "unknown table " ++ n)
  | some t ↦ returns t.schema
]

-- `Query`, and `Execute`, which calls it.
pub query_demo : Context → DemoStore → Text → Outcome ResultSet
unfolding check
query_demo ctx s sql =
    check ctx s >>= λ u. fails (bytes "demo supports browsing only; connect MySQL to run SQL")

-- `columns[name]`: of columns with one name the last counts.
pub position : Text → List Column → Option ℕ
position n [] = none
position n (c ∷ cs) = elim (position n cs) [
  | some i ↦ some (suc i)
  | none ↦ if text_eq c.name n then some 0 else none
]

-- How an operator tests.
pub data Test : Type 0 where
  null_test filled_test part_test : Test
  sign_test : (Sign → Bool) → Test
  no_test : Test

pub Test-cases :
    (t : Test)
    → ((t ≡ null_test) ⊎ (t ≡ filled_test) ⊎ (t ≡ part_test))
      ⊎ ((holds : Sign → Bool) × (t ≡ sign_test holds))
      ⊎ (t ≡ no_test)
Test-cases null_test = inl (inl refl)
Test-cases filled_test = inl (inr (inl refl))
Test-cases part_test = inl (inr (inr refl))
Test-cases (sign_test holds) = inr (inl (holds, refl))
Test-cases no_test = inr (inr refl)

abbrev pub sign_of : Bool → Bool → Bool → Sign → Bool
sign_of b s a below = b
sign_of b s a same = s
sign_of b s a above = a

pub test_of : Text → Test
test_of op =
    if text_eq op (bytes "is-null")
    then null_test
    else if text_eq op (bytes "not-null")
    then filled_test
    else if text_eq op (bytes "contains")
    then part_test
    else if text_eq op (bytes "eq")
    then sign_test (sign_of false true false)
    else if text_eq op (bytes "ne")
    then sign_test (sign_of true false true)
    else if text_eq op (bytes "gt")
    then sign_test (sign_of false false true)
    else if text_eq op (bytes "gte")
    then sign_test (sign_of false true true)
    else if text_eq op (bytes "lt")
    then sign_test (sign_of true false false)
    else if text_eq op (bytes "lte")
    then sign_test (sign_of true true false)
    else no_test

abbrev pub typed : Text → Value
typed t = record { truncated = false; text = t; null = false; binary = false }

-- The column to sort by, 0 if none is named.
pub sort_position : Text → List Column → Outcome ℕ
unfolding position
sort_position n cs =
    if is_empty n
    then returns 0
    else elim (position n cs) [ none ↦ fails (bytes "unknown sort column") | some i ↦ returns i ]

-- `sort.SliceStable` as an insertion sort: a row goes before the first row that does not come
-- before it.
pub insert_row :
    (List Value → List Value → Outcome Bool)
    → List Value
    → List (List Value)
    → Outcome (List (List Value))
insert_row less r [] = returns (r ∷ [])
insert_row less r (s ∷ rs) = less s r >>= λ b. elim b [
  | true ↦ (insert_row less r rs >>= λ out. returns (s ∷ out))
  | false ↦ returns (r ∷ s ∷ rs)
]

pub sort_rows :
    (List Value → List Value → Outcome Bool) → List (List Value) → Outcome (List (List Value))
unfolding insert_row
sort_rows less [] = returns []
sort_rows less (r ∷ rs) = sort_rows less rs >>= λ out. insert_row less r out

abbrev pub demo_notice : Text
demo_notice =
    bytes "Read-only demo. Text filters are case-sensitive; contains matches literal text."

-- The slice of the page, after the rows were sorted.
pub page_of : List Column → BrowseRequest → List (List Value) → ResultSet
page_of cs req rows =
    let start = min (pos_part req.offset) (length rows) in
    let count = min (pos_part req.limit) (length rows - start) in
    record no_result {
      columns = map (λ c. c.name) cs;
      rows = take count (drop start rows);
      has_more = ltb (start + count) (length rows);
      notice = demo_notice;
    }

-- Does a row of this comparison come first, in this direction?
pub before : Bool → Sign → Bool
before true sign = sign_of false false true sign
before false sign = sign_of true false false sign

module _ {R : Type 0} (q : Rationals R) where
  -- The body of the loop that checks the filters.
  pub check_filter : List Column → Filter → Outcome (Unit {0})
  unfolding position test_of
  check_filter cs f = elim (position f.column cs) [
    | none ↦ fails (bytes "unknown filter column")
    | some i ↦
        if ltb 65536 (length f.value)
        then fails (bytes "filter value too large")
        else elim (test_of f.op) [
          | null_test ↦ returns tt
          | filled_test ↦ returns tt
          | part_test ↦ returns tt
          | sign_test holds ↦
              (index cs i >>= λ c.
              if numeric c
              then elim (q.set_string f.value) [
                | none ↦ fails (bytes "invalid numeric filter for " ++ f.column)
                | some x ↦ returns tt
              ]
              else returns tt)
          | no_test ↦ fails (bytes "unsupported filter operator " ++ f.op)
        ]
  ]

  pub check_filters : List Column → List Filter → Outcome (Unit {0})
  check_filters cs [] = returns tt
  check_filters cs (f ∷ fs) = check_filter cs f >>= λ u. check_filters cs fs

  -- Does the row pass the filter? A column that is missing has position 0, as in a map of Go.
  pub pass : List Column → Filter → List Value → Outcome Bool
  unfolding position test_of
  pass cs f row =
      let i : ℕ = elim (position f.column cs) [ none ↦ 0 | some i ↦ i ] in
      index row i >>= λ v. elim (test_of f.op) [
        | null_test ↦ returns v.null
        | filled_test ↦ returns (not v.null)
        | part_test ↦ returns (not v.null && contains v.text f.value)
        | sign_test holds ↦
            if v.null
            then returns false
            else (index cs i >>= λ c.
                compare_values q v (typed f.value) (numeric c) >>= λ s. returns (holds s))
        | no_test ↦
            if v.null
            then returns false
            else (index cs i >>= λ c.
                compare_values q v (typed f.value) (numeric c) >>= λ s. returns false)
      ]

  -- The loop over the filters, up to the first that the row does not pass.
  pub row_matches : List Column → List Filter → List Value → Outcome Bool
  unfolding pass
  row_matches cs [] row = returns true
  row_matches cs (f ∷ fs) row =
      pass cs f row >>= λ b. elim b [ false ↦ returns false | true ↦ row_matches cs fs row ]

  -- The loop over the rows; the number is of the next question to the context.
  pub keep_rows :
      Context → ℕ → List Column → List Filter → List (List Value) → Outcome (List (List Value))
  unfolding row_matches
  keep_rows ctx n cs fs [] = returns []
  keep_rows ctx n cs fs (r ∷ rs) = elim (ctx n) [
    | some e ↦ fails e
    | none ↦ row_matches cs fs r >>= λ b.
        keep_rows ctx (suc n) cs fs rs >>= λ rest. returns (if b then r ∷ rest else rest)
  ]

  -- Rows that are equal in the column are compared by the first column.
  pub by_first : List Value → List Value → Sign → Outcome Sign
  by_first r s below = returns below
  by_first r s same = index r 0 >>= λ a. index s 0 >>= λ b. compare_values q a b true
  by_first r s above = returns above

  -- The comparison of the sort.
  pub compare_rows : List Column → ℕ → List Value → List Value → Outcome Sign
  compare_rows cs i r s = index r i >>= λ a. index s i >>= λ b.
      index cs i >>= λ c. compare_values q a b (numeric c) >>= λ first. by_first r s first

  -- `less(r, s)`
  pub goes_before : List Column → ℕ → Bool → List Value → List Value → Outcome Bool
  goes_before cs i desc r s = compare_rows cs i r s >>= λ sign. returns (before desc sign)

  -- The rows that the pages are cut from: the filters, and the order.
  pub selected_rows : Context → DemoTable → BrowseRequest → Outcome (List (List Value))
  unfolding check_filters keep_rows goes_before sort_rows sort_position
  selected_rows ctx t req =
      let cs = t.schema.columns in
      sort_position req.sort cs >>= λ i. check_filters cs req.filters >>= λ u.
      keep_rows ctx 1 cs req.filters t.rows >>= λ rows. sort_rows (goes_before cs i req.desc) rows

  -- `Browse`
  pub browse_demo : Context → DemoStore → BrowseRequest → Outcome ResultSet
  unfolding check seeded_table selected_rows page_of
  browse_demo ctx s req = check ctx s >>= λ u. elim (seeded_table req.table s.tables) [
    | none ↦ fails (bytes "unknown table " ++ req.table)
    | some t ↦
        if ltb_ℤ req.limit (pos 1) || ltb_ℤ (pos 1000) req.limit || ltb_ℤ req.offset (pos 0)
        then fails (bytes "limit must be 1..1000 and offset nonnegative")
        else if ltb 100 (length req.filters)
        then fails (bytes "too many filters")
        else (selected_rows ctx t req >>= λ rows. elim (ctx (1 + length t.rows)) [
          | some e ↦ fails e
          | none ↦ returns (page_of t.schema.columns req rows)
        ])
  ]
