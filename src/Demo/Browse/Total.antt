-- ===== src/Demo/Browse/Total.antt =====
-- Sorting and browsing of the demo store do not panic on tables such as `Open` seeds.
use relvo.Base.{
  text_eq, ℕ, ◌<◌, ◌≡◌, subst, ◌≢◌, ◌⊎◌, inl, inr, Bool, true, some, List, [], ◌∷◌, arith,
  Bool-cases, Option-cases, length, All, Text,
}
use relvo.Data.{Column, Filter, BrowseRequest}
use relvo.Demo.Outcome.{panics, returns, index, bind_calm, bind_returns}
use relvo.Demo.Compare.{
  Sign, below, same, above, Rationals, numeric, compare_values, compare_values_calm,
}
use relvo.Demo.Browse.{
  DemoTable, DemoStore, Context, check, seeded_table, position, sort_position, insert_row,
  sort_rows, check_filter, check_filters, keep_rows, by_first, compare_rows, goes_before,
  selected_rows, browse_demo,
}
use relvo.Demo.Browse.Order.{Row, Less, insert_row_cases}
use relvo.Demo.Browse.Calm.{
  index_in, position-lt, HasKey, Seeded, Fits-length, Fits-index, keep_rows_calm, keep_rows-All,
}

abbrev CalmOn : (Row → Type 0) → Less → Type 0
CalmOn P less = (r s : Row) → P r → P s → less r s ≢ panics

insert_row_calm :
    (P : Row → Type 0) (less : Less) (r : Row) (rs : List Row)
    → CalmOn P less
    → P r
    → All P rs
    → insert_row less r rs ≢ panics
unfolding insert_row
insert_row_calm P less r [] c p all = λ n. cc
insert_row_calm P less r (s ∷ rs) c p all =
    let ih = insert_row_calm P less r rs c p all.1 in
    bind_calm (less s r) _ (c s r all.0 p) λ b e. elim (Bool-cases b) [
      | inl t ↦ rw t (bind_calm (insert_row less r rs) _ ih λ out f. λ n. cc)
      | inr t ↦ rw t λ n. cc
    ]

insert_row-All :
    (P : Row → Type 0) (less : Less) (r : Row) (rs out : List Row)
    → P r
    → All P rs
    → insert_row less r rs ≡ returns out
    → All P out
unfolding insert_row
insert_row-All P less r [] out p all h = let e : r ∷ [] ≡ out = cc h in subst (All P) e (p, tt)
insert_row-All P less r (s ∷ rs) out p all h = elim (insert_row_cases less r s rs out h) [
  | inl (rest, e, f, g) ↦ subst (All P) g (all.0, insert_row-All P less r rs rest p all.1 f)
  | inr (e, k) ↦ subst (All P) k (p, all)
]

sort_rows-All :
    (P : Row → Type 0) (less : Less) (rs out : List Row)
    → All P rs
    → sort_rows less rs ≡ returns out
    → All P out
unfolding sort_rows
sort_rows-All P less [] out all h = let e : [] ≡ out = cc h in subst (All P) e tt
sort_rows-All P less (r ∷ rs) out all h =
    let (rest, f, g) = bind_returns (sort_rows less rs) _ h in
    insert_row-All P less r rest out all.0 (sort_rows-All P less rs rest all.1 f) g

sort_rows_calm :
    (P : Row → Type 0) (less : Less) (rs : List Row)
    → CalmOn P less
    → All P rs
    → sort_rows less rs ≢ panics
unfolding sort_rows
sort_rows_calm P less [] c all = λ n. cc
sort_rows_calm P less (r ∷ rs) c all =
    bind_calm (sort_rows less rs) _ (sort_rows_calm P less rs c all.1)
      λ out e. insert_row_calm P less r out c all.0 (sort_rows-All P less rs out all.1 e)

module _ {R : Type 0} (q : Rationals R) where
  by_first_calm :
      (r s : Row) (first : Sign) → HasKey q r → HasKey q s → by_first q r s first ≢ panics
  unfolding by_first index
  by_first_calm r s below h k = λ n. cc
  by_first_calm r s above h k = λ n. cc
  by_first_calm [] s same h k = absurd h
  by_first_calm (a ∷ r) [] same h k = absurd k
  by_first_calm (a ∷ r) (b ∷ s) same h k =
      compare_values_calm q a b true (λ e. λ n. h.1) (λ e. λ n. k.1)

  HasKey-length : (r : Row) → HasKey q r → 0 < length r
  HasKey-length [] h = absurd h
  HasKey-length (v ∷ r) h = omega arith

  goes_before_calm :
      (cs : List Column) (i : ℕ) (desc : Bool)
      → (i ≡ 0) ⊎ (i < length cs)
      → CalmOn (Seeded q cs) (goes_before q cs i desc)
  unfolding goes_before compare_rows
  goes_before_calm cs i desc at r s p k =
      let len = Fits-length q cs r p.0 in
      let lt : i < length cs = ground (arith, HasKey-length r p.1) in
      let (c, ec) = index_in cs i lt in
      let (a, ea) = index_in r i (omega arith) in
      let (b, eb) = index_in s i (omega (arith, Fits-length q cs s k.0)) in
      let calm =
        compare_values_calm q a b (numeric c) (Fits-index q cs r i c a p.0 ec ea)
          (Fits-index q cs s i c b k.0 ec eb) in
      let rows_calm : compare_rows q cs i r s ≢ panics =
        rw (ea, eb, ec)
          (bind_calm (compare_values q a b (numeric c)) _ calm
            λ first e. by_first_calm r s first p.1 k.1) in
      bind_calm (compare_rows q cs i r s) _ rows_calm λ sign e n. cc

  sort_position_lt :
      (n : Text) (cs : List Column) (i : ℕ)
      → sort_position n cs ≡ returns i
      → (i ≡ 0) ⊎ (i < length cs)
  unfolding sort_position
  sort_position_lt n cs i h = elim (Option-cases (position n cs)) [
    | inl e ↦ ground arith
    | inr (j, e) ↦ ground (arith, position-lt n cs j e)
  ]

  sort_position_calm : (n : Text) (cs : List Column) → sort_position n cs ≢ panics
  unfolding sort_position
  sort_position_calm n cs h = ground arith

  check_filter_calm : (cs : List Column) (f : Filter) → check_filter q cs f ≢ panics
  unfolding check_filter
  check_filter_calm cs f h = elim (Option-cases (position f.column cs)) [
    | inl e ↦ ground arith
    | inr (i, e) ↦
        let (c, ec) = index_in cs i (position-lt f.column cs i e) in
        elim (Option-cases (q.set_string f.value)) [
          | inl g ↦ ground arith
          | inr (x, g) ↦ ground arith
        ]
  ]

  check_filters_calm : (cs : List Column) (fs : List Filter) → check_filters q cs fs ≢ panics
  unfolding check_filters
  check_filters_calm cs [] = λ n. cc
  check_filters_calm cs (f ∷ fs) =
      bind_calm (check_filter q cs f) _ (check_filter_calm cs f) λ u e. check_filters_calm cs fs

  -- A table as `Open` seeds it: each row has a value for each column, the texts of numeric columns
  -- are numbers, and the first column has a number.
  abbrev pub SeededTable : DemoTable → Type 0
  SeededTable t = All (Seeded q t.schema.columns) t.rows

  seeded_table-All :
      (n : Text) (ts : List (Text × DemoTable)) (t : DemoTable)
      → All (λ e. SeededTable e.1) ts
      → seeded_table n ts ≡ some t
      → SeededTable t
  unfolding seeded_table
  seeded_table-All n [] t all h = cc
  seeded_table-All n ((m, u) ∷ ts) t all h = elim (Bool-cases (text_eq m n)) [
    | inl e ↦ let same_table : u ≡ t = ground arith in subst SeededTable same_table all.0
    | inr e ↦ seeded_table-All n ts t all.1 (ground arith)
  ]

  selected_rows_calm :
      (ctx : Context) (t : DemoTable) (req : BrowseRequest)
      → SeededTable t
      → selected_rows q ctx t req ≢ panics
  unfolding selected_rows sort_position
  selected_rows_calm ctx t req all =
      let cs = t.schema.columns in
      bind_calm (sort_position req.sort cs) _ (λ n. sort_position_calm req.sort cs n)
        λ i at.
          bind_calm (check_filters q cs req.filters) _ (check_filters_calm cs req.filters) λ u fine.
            bind_calm (keep_rows q ctx 1 cs req.filters t.rows) _
              (keep_rows_calm q ctx 1 cs req.filters t.rows (ground arith) all)
              λ rows e.
                sort_rows_calm (Seeded q cs) (goes_before q cs i req.desc) rows
                  (goes_before_calm cs i req.desc (sort_position_lt req.sort cs i at))
                  (keep_rows-All q (Seeded q cs) ctx 1 cs req.filters t.rows rows all e)

  -- On tables as they are seeded `Browse` does not panic, whatever is asked.
  pub browse_demo_calm :
      (ctx : Context) (s : DemoStore) (req : BrowseRequest)
      → All (λ e. SeededTable e.1) s.tables
      → browse_demo q ctx s req ≢ panics
  unfolding browse_demo check
  browse_demo_calm ctx s req all =
      bind_calm (check ctx s) _ (λ n. ground arith)
        λ u e. elim (Option-cases (seeded_table req.table s.tables)) [
          | inl f ↦ rw (f, browse_demo) λ n. cc
          | inr (t, f) ↦
              ground
                (arith, selected_rows_calm ctx t req (seeded_table-All req.table s.tables t all f))
        ]
