-- ===== src/Demo/Seed/Tables.antt =====
-- The store that `Open` makes.
use relvo.Base.{
  text_eq, ℕ, zero, suc, ◌+◌, ◌-◌, ◌*◌, ◌%◌, ◌^◌, ◌≡◌, subst, ◌≢◌, inl, inr, none, some, List, [],
  ◌∷◌, arith, Option-cases, All, Text, decimal,
}
use relvo.Data.{Value, BrowseRequest}
use relvo.Demo.Outcome.{returns, fails, panics, ◌>>=◌, bind_returns, bind_calm}
use relvo.Demo.Compare.{Rationals, numeric}
use relvo.Demo.Browse.{DemoStore, browse_demo, Context}
use relvo.Demo.Browse.Calm.{Seeded}
use relvo.Demo.Browse.Total.{SeededTable, browse_demo_calm}
use relvo.Demo.Seed.{
  fraction, values, users_schema, user_row, products_schema, product_id, product_price, product_row,
  orders_schema, status_of, rows_from, order_row, first_error, orders_from, seeded_store, open_demo,
}

-- What `math/big` reads: numbers in decimal, with a point or without, and what it prints itself.
pub record Reads {R : Type 0} (q : Rationals R) (times : R → ℕ → Text) : Type 0 where
  pub whole : (n : ℕ) → q.set_string (decimal n) ≢ none
  pub pointed : (n m : ℕ) → q.set_string (fraction n m) ≢ none
  pub printed : (x : R) (n : ℕ) → q.set_string (times x n) ≢ none

module _ {R : Type 0} (q : Rationals R) (times : R → ℕ → Text) (reads : Reads q times) where
  user_row-Seeded :
      (metadata : ℕ → Text) (i : ℕ) → Seeded q users_schema.columns (user_row metadata i)
  unfolding user_row users_schema numeric text_eq
  user_row-Seeded metadata i = ground (arith, reads.whole i, reads.pointed 9007199254740993 i)

  product_row-Seeded : (i : ℕ) → Seeded q products_schema.columns (product_row i)
  unfolding product_row products_schema product_id product_price numeric text_eq
  product_row-Seeded i = ground (
    arith,
    reads.whole ((18446744073709551000 + i) % 2 ^ 64),
    reads.pointed (i % 20 + 1) i,
    reads.whole (i * 3),
  )

  order_row-Seeded :
      (i : ℕ) (r : List Value) → order_row q times i ≡ returns r → Seeded q orders_schema.columns r
  unfolding order_row orders_schema product_id numeric text_eq
  order_row-Seeded i r h = elim (Option-cases (q.set_string (product_price ((i - 1) % 80 + 1)))) [
    | inl e ↦ absurd (ground arith)
    | inr (price, e) ↦ subst (Seeded q orders_schema.columns) (row_is price e) (
        ground (
          arith,
          reads.whole i,
          reads.whole ((i - 1) % 250 + 1),
          reads.whole ((18446744073709551000 + ((i - 1) % 80 + 1)) % 2 ^ 64),
          reads.whole (i % 4 + 1),
          reads.printed price (i % 4 + 1),
        ))
  ]
    where
      row_is :
          (price : R)
          → q.set_string (product_price ((i - 1) % 80 + 1)) ≡ some price
          → values (
              decimal i
              ∷ decimal ((i - 1) % 250 + 1)
              ∷ product_id ((i - 1) % 80 + 1)
              ∷ decimal (i % 4 + 1)
              ∷ times price (i % 4 + 1)
              ∷ status_of i
              ∷ [])
            ≡ r
      row_is price e = ground arith

  rows_from-All :
      (P : List Value → Type 0) (row : ℕ → List Value) (i k : ℕ)
      → ((n : ℕ) → P (row n))
      → All P (rows_from row i k)
  unfolding rows_from
  rows_from-All P row i zero h = tt
  rows_from-All P row i (suc k) h = (h i, rows_from-All P row (suc i) k h)

  orders_from-All :
      (ctx : Context) (n i k : ℕ) (rs : List (List Value))
      → orders_from q times ctx n i k ≡ returns rs
      → All (Seeded q orders_schema.columns) rs
  unfolding orders_from
  orders_from-All ctx n i zero [] h = tt
  orders_from-All ctx n i zero (r ∷ rs) h = cc
  orders_from-All ctx n i (suc k) rs h = elim (Option-cases (ctx n)) [
    | inr (e, c) ↦ absurd (ground arith)
    | inl c ↦
        let next : (order_row q times i >>= λ r.
        orders_from q times ctx (suc n) (suc i) k >>= λ more. returns (r ∷ more))
            ≡ returns rs =
          rw (c, orders_from) at h in
        let (r, one, h1) = bind_returns (order_row q times i) _ next in
        let (more, rest, h2) = bind_returns (orders_from q times ctx (suc n) (suc i) k) _ h1 in
        subst (All (Seeded q orders_schema.columns)) (list_is r more h2)
          (order_row-Seeded i r one, orders_from-All ctx (suc n) (suc i) k more rest)
  ]
    where
      list_is :
          (r : List Value) (more : List (List Value))
          → returns (r ∷ more) ≡ returns rs
          → r ∷ more ≡ rs
      list_is r more h = cc

  seeded_store-All :
      (metadata : ℕ → Text) (orders : List (List Value))
      → All (Seeded q orders_schema.columns) orders
      → All (λ e. SeededTable q e.1) (seeded_store metadata orders).tables
  unfolding seeded_store
  seeded_store-All metadata orders seeded = (
    rows_from-All (Seeded q users_schema.columns) (user_row metadata) 1 250
        (user_row-Seeded metadata),
    (
      rows_from-All (Seeded q products_schema.columns) product_row 1 80 product_row-Seeded,
      (seeded, tt),
    ),
  )

  -- Every table of the store that `Open` makes is one on which `Browse` is calm.
  open_demo-Seeded :
      (metadata : ℕ → Text) (ctx : Context) (s : DemoStore)
      → open_demo q times metadata ctx ≡ returns s
      → All (λ e. SeededTable q e.1) s.tables
  unfolding open_demo
  open_demo-Seeded metadata ctx s h = elim (Option-cases (first_error ctx 0 251)) [
    | inr (e, c) ↦ absurd (ground arith)
    | inl c ↦
        let next : (orders_from q times ctx 251 1 600 >>= λ orders. elim (ctx 851) [
          | some e ↦ fails e
          | none ↦ returns (seeded_store metadata orders)
        ])
            ≡ returns s =
          rw (c, open_demo) at h in
        let (orders, made, h1) = bind_returns (orders_from q times ctx 251 1 600) _ next in
        let store_is : seeded_store metadata orders ≡ s = ground arith in
        subst (λ (t : DemoStore). All (λ e. SeededTable q e.1) t.tables) store_is
          (seeded_store-All metadata orders (orders_from-All ctx 251 1 600 orders made))
  ]

  order_row_calm : (i : ℕ) → order_row q times i ≢ panics
  unfolding order_row product_price
  order_row_calm i = ground (arith, reads.pointed (((i - 1) % 80 + 1) % 20 + 1) ((i - 1) % 80 + 1))

  orders_from_calm : (ctx : Context) (n i k : ℕ) → orders_from q times ctx n i k ≢ panics
  unfolding orders_from
  orders_from_calm ctx n i zero = ground arith
  orders_from_calm ctx n i (suc k) = elim (Option-cases (ctx n)) [
    | inr (e, c) ↦ ground arith
    | inl c ↦
        let calm =
          bind_calm (order_row q times i)
            (λ r. orders_from q times ctx (suc n) (suc i) k >>= λ rs. returns (r ∷ rs))
            (order_row_calm i)
            (λ r one.
              bind_calm (orders_from q times ctx (suc n) (suc i) k) (λ rs. returns (r ∷ rs))
                (orders_from_calm ctx (suc n) (suc i) k) (λ rs rest. ground arith)) in
        rw (c, orders_from) calm
  ]

  open_demo_calm : (metadata : ℕ → Text) (ctx : Context) → open_demo q times metadata ctx ≢ panics
  unfolding open_demo
  open_demo_calm metadata ctx = elim (Option-cases (first_error ctx 0 251)) [
    | inr (e, c) ↦ ground arith
    | inl c ↦
        let last : (orders : List (List Value))
            → elim (ctx 851) [ some e ↦ fails e | none ↦ returns (seeded_store metadata orders) ]
              ≢ panics =
          λ orders. ground arith in
        let calm =
          bind_calm (orders_from q times ctx 251 1 600)
            (λ orders. elim (ctx 851) [
              | some e ↦ fails e
              | none ↦ returns (seeded_store metadata orders)
            ])
            (orders_from_calm ctx 251 1 600) (λ orders made. last orders) in
        rw (c, open_demo) calm
  ]

  -- Where math/big reads the numbers that Open writes, neither opening the demo store nor browsing
  -- what was opened panics, whatever is asked and whenever either context ends.
  pub open_demo-browse_demo_calm :
      (metadata : ℕ → Text) (opening ctx : Context) (req : BrowseRequest)
      → (open_demo q times metadata opening >>= λ s. browse_demo q ctx s req) ≢ panics
  open_demo-browse_demo_calm metadata opening ctx req =
      bind_calm (open_demo q times metadata opening) _ (open_demo_calm metadata opening)
        λ s h. browse_demo_calm q ctx s req (open_demo-Seeded metadata opening s h)
