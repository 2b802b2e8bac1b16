-- ===== src/Demo/Browse/Pages.antt =====
-- What a page of the demo store is, without its loops and tests: a slice of the rows that match, in
-- order.
use relvo.Demo.Browse.Meaning.{Sorted, Ordered-Sorted}
use relvo.Demo.Browse.Filters.{Passes, row_matches-Passes}
use relvo.Demo.Browse.Operators.{not_both}
use relvo.Demo.Browse.Names.{place, Names, sort_position-Names, check_filters-Names}
use mathlib.Core.List.{Perm}
use relvo.Base.{
  ℕ, zero, suc, ◌+◌, ◌-◌, ◌<◌, min, ◌≡◌, ap, subst, ◌∙◌, ◌↔◌, inl, inr, Bool, true, false, some,
  List, [], ◌∷◌, arith, ◌⊎◌, All, ltb, Bool-cases, Option-cases, length, take, drop, pos_part,
}
use relvo.Data.{Column, Filter, BrowseRequest, ResultSet}
use relvo.Demo.Outcome.{returns, index, bind_returns, Outcome-cases}
use relvo.Demo.Compare.{
  Sign, below, same, above, flip, Rationals, numeric, compare_values, flips, compare_values-flip,
}
use relvo.Demo.Browse.{
  DemoTable, DemoStore, Context, check, seeded_table, sort_position, page_of, before, check_filters,
  row_matches, keep_rows, by_first, compare_rows, goes_before, selected_rows, browse_demo,
}
use relvo.Demo.Browse.Order.{Row, Asymmetric, sort_rows_lem}

length-drop : (n : ℕ) (rs : List Row) → length (drop n rs) ≡ length rs - n
length-drop zero rs = omega arith
length-drop (suc n) [] = omega arith
length-drop (suc n) (r ∷ rs) = omega (arith, length-drop n rs)

take-min : (n : ℕ) (rs : List Row) → take (min n (length rs)) rs ≡ take n rs
take-min zero rs = ground arith
take-min (suc n) [] = ground arith
take-min (suc n) (r ∷ rs) =
    let e : min (suc n) (suc (length rs)) ≡ suc (min n (length rs)) = omega arith in
    rw (e, take-min n rs)

drop-min : (n : ℕ) (rs : List Row) → drop (min n (length rs)) rs ≡ drop n rs
drop-min zero rs = ground arith
drop-min (suc n) [] = ground arith
drop-min (suc n) (r ∷ rs) =
    let e : min (suc n) (suc (length rs)) ≡ suc (min n (length rs)) = omega arith in
    rw (e, drop-min n rs)

page_rows :
    (o l : ℕ) (rs : List Row)
    → take (min l (length rs - min o (length rs))) (drop (min o (length rs)) rs)
      ≡ take l (drop o rs)
page_rows o l rs =
    let n : length rs - min o (length rs) ≡ length (drop o rs) = omega (arith, length-drop o rs) in
    rw (n, drop-min o rs) (take-min l (drop o rs))

-- The test for further rows, without the bounds of the slice.
more_iff : (o l n : ℕ) → (ltb (min o n + min l (n - min o n)) n ≡ true) ↔ (o + l < n)
more_iff o l n = ground arith

before-flip :
    (desc : Bool) (sign : Sign)
    → returns (before desc sign) ≡ returns true
    → returns (before desc (flip sign)) ≡ returns false
unfolding before
before-flip desc sign h = ground arith

module _ {R : Type 0} (q : Rationals R) where
  -- The rows of a table that pass all filters, in the order of the table.
  pub data Kept (cs : List Column) (fs : List Filter) : List Row → List Row → Type 0 where
    none_left : Kept cs fs [] []
    keeps :
        {r : Row} {rs out : List Row}
        → All (Passes q cs r) fs
        → Kept cs fs rs out
        → Kept cs fs (r ∷ rs) (r ∷ out)
    leaves :
        {r : Row} {rs out : List Row}
        → ¬ All (Passes q cs r) fs
        → Kept cs fs rs out
        → Kept cs fs (r ∷ rs) out

  keep_rows-Kept :
      (ctx : Context) (n : ℕ) (cs : List Column) (fs : List Filter) (rs out : List Row)
      → keep_rows q ctx n cs fs rs ≡ returns out
      → Kept cs fs rs out
  unfolding keep_rows
  keep_rows-Kept ctx n cs fs [] out h = let e : [] ≡ out = cc h in subst (Kept cs fs []) e none_left
  keep_rows-Kept ctx n cs fs (r ∷ rs) out h = elim (Option-cases (ctx n)) [
    | inr (e, f) ↦ absurd (ground arith)
    | inl f ↦
        let (b, m, k) = bind_returns (row_matches q cs fs r) _ (rw (f, keep_rows) at h) in
        let (rest, g, e) = bind_returns (keep_rows q ctx (suc n) cs fs rs) _ k in
        let ih = keep_rows-Kept ctx (suc n) cs fs rs rest g in
        let passes = row_matches-Passes q cs fs r in
        elim (Bool-cases b) [
          | inl t ↦
              let same : r ∷ rest ≡ out = ground arith in
              subst (Kept cs fs (r ∷ rs)) same (keeps ((passes b m).0 t) ih)
          | inr t ↦
              let same : rest ≡ out = ground arith in
              subst (Kept cs fs (r ∷ rs)) same (leaves (λ a. not_both b t ((passes b m).1 a)) ih)
        ]
  ]

  -- The part of `compare_rows` after the comparison of the column.
  tie-flip :
      (r s : Row) (first sign : Sign)
      → by_first q r s first ≡ returns sign
      → by_first q s r (flip first) ≡ returns (flip sign)
  unfolding by_first
  tie-flip r s below sign h = ground arith
  tie-flip r s above sign h = ground arith
  tie-flip r s same sign h =
      let (a, ea, h1) = bind_returns (index r 0) _ h in
      let (b, eb, h2) = bind_returns (index s 0) _ h1 in
      rw (eb, ea) (compare_values-flip q a b true ∙ ap flips h2)

  compare_rows-flip :
      (cs : List Column) (i : ℕ) (r s : Row) (sign : Sign)
      → compare_rows q cs i r s ≡ returns sign
      → compare_rows q cs i s r ≡ returns (flip sign)
  unfolding compare_rows
  compare_rows-flip cs i r s sign h =
      let (a, ea, h1) = bind_returns (index r i) _ h in
      let (b, eb, h2) = bind_returns (index s i) _ h1 in
      let (c, ec, h3) = bind_returns (index cs i) _ h2 in
      let (first, es, h4) = bind_returns (compare_values q a b (numeric c)) _ h3 in
      let f : compare_values q b a (numeric c) ≡ returns (flip first) =
        compare_values-flip q a b (numeric c) ∙ ap flips es in
      rw (eb, ea, ec, f) (tie-flip r s first sign h4)

  goes_before-Asymmetric :
      (cs : List Column) (i : ℕ) (desc : Bool) → Asymmetric (goes_before q cs i desc)
  unfolding goes_before
  goes_before-Asymmetric cs i desc r s h =
      let (sign, e, k) = bind_returns (compare_rows q cs i r s) _ h in
      let f = compare_rows-flip cs i r s sign e in rw (f, goes_before) (before-flip desc sign k)

  -- A result and where it is from: the table, its rows that match, these in order, and the slice.
  pub record Page (s : DemoStore) (req : BrowseRequest) (r : ResultSet) : Type 0 where
    pub table : DemoTable
    pub found : seeded_table req.table s.tables ≡ some table
    pub matching : List Row
    pub kept : Kept table.schema.columns req.filters table.rows matching
    pub filtered_by :
        All
          (λ f. Names table.schema.columns f.column (place table.schema.columns f.column))
          req.filters
    pub column : ℕ
    pub sorted_by : ((req.sort ≡ []) × (column ≡ 0)) ⊎ Names table.schema.columns req.sort column
    pub rows : List Row
    pub same_rows : Perm rows matching
    pub ordered : Sorted q table.schema.columns column req.desc rows
    pub slice : r.rows ≡ take (pos_part req.limit) (drop (pos_part req.offset) rows)
    pub more : (r.has_more ≡ true) ↔ (pos_part req.offset + pos_part req.limit < length rows)

  -- What the guards of `Browse` leave, where it returns.
  browse_stages :
      (ctx : Context) (s : DemoStore) (req : BrowseRequest) (r : ResultSet)
      → browse_demo q ctx s req ≡ returns r
      → (t : DemoTable) × (seeded_table req.table s.tables ≡ some t)
        × ((rows : List Row) × (selected_rows q ctx t req ≡ returns rows)
            × (page_of t.schema.columns req rows ≡ r))
  unfolding browse_demo
  browse_stages ctx s req r h =
      let (u, c, k) = bind_returns (check ctx s) _ h in
      elim (Option-cases (seeded_table req.table s.tables)) [
        | inl e ↦ absurd (ground arith)
        | inr (t, e) ↦ elim (Outcome-cases (selected_rows q ctx t req)) [
          | inl (rows, f) ↦ (t, e, (rows, f, ground arith))
          | inr (inl (x, f)) ↦ absurd (ground arith)
          | inr (inr f) ↦ absurd (ground arith)
        ]
      ]

  -- The page that the store returns is the slice, at the offset and of at most the limit, of all the
  -- rows that pass every filter in the sense of `Meets`, none else, where each row may stand behind the
  -- one before it in the direction that was asked for, by the named column and then by the first; and
  -- it says that there is more just if there is.
  pub browse_demo-Page :
      (ctx : Context) (s : DemoStore) (req : BrowseRequest) (r : ResultSet)
      → browse_demo q ctx s req ≡ returns r
      → Page s req r
  unfolding selected_rows page_of
  browse_demo-Page ctx s req r h =
      let (t, found, (rows, selected, page)) = browse_stages ctx s req r h in
      let cs = t.schema.columns in
      let (i, at_column, h1) = bind_returns (sort_position req.sort cs) _ selected in
      let (u, checked, h2) = bind_returns (check_filters q cs req.filters) _ h1 in
      let (matching, kept, h3) = bind_returns (keep_rows q ctx 1 cs req.filters t.rows) _ h2 in
      let (perm, order) =
        sort_rows_lem (goes_before q cs i req.desc) matching rows
          (goes_before-Asymmetric cs i req.desc) h3 in
      record {
        table = t;
        found = found;
        matching = matching;
        kept = keep_rows-Kept ctx 1 cs req.filters t.rows matching kept;
        filtered_by = check_filters-Names q cs req.filters checked;
        column = i;
        sorted_by = sort_position-Names req.sort cs i at_column;
        rows = rows;
        same_rows = perm;
        ordered = Ordered-Sorted q cs i req.desc rows order;
        slice = rw (← page) (page_rows (pos_part req.offset) (pos_part req.limit) rows);
        more = rw (← page) (more_iff (pos_part req.offset) (pos_part req.limit) (length rows));
      }
