-- ===== src/Demo/Seed.antt =====
-- internal/database/demo/demo.go: `Open`, the tables that the demo store is seeded with. The JSON of a
-- user and the arithmetic of `math/big` are arguments.
mod Examples
pub mod Tables
use relvo.Base.{
  ℕ, zero, suc, ◌+◌, ◌-◌, ◌*◌, ◌%◌, ◌^◌, String, Bool, true, false, Option, none, some, List, [],
  ◌∷◌, ◌++◌, map, ◌==◌, if◌then◌else◌, length, Text, bytes, decimal,
}
use relvo.Data.{Column, Index, ForeignKey, Schema, Value}
use relvo.Demo.Outcome.{Outcome, panics, fails, returns, ◌>>=◌}
use relvo.Demo.Compare.{Rationals}
use relvo.Demo.Browse.{DemoStore, Context, typed}

repeat : ℕ → Text → Text
repeat zero t = []
repeat (suc n) t = t ++ repeat n t

-- `%0wd`
unfoldable pub padded : ℕ → ℕ → Text
unfolding repeat
padded w n = let d = decimal n in repeat (w - length d) (b'0' ∷ []) ++ d

-- A number with eight digits after the point.
unfoldable pub fraction : ℕ → ℕ → Text
unfolding padded
fraction whole part = decimal whole ++ b'.' ∷ padded 8 part

-- `values`
abbrev pub values : List Text → List Value
values = map typed

abbrev pub seed_column : String → String → String → Column
seed_column name type key = record {
  name = bytes name;
  type = bytes type;
  nullable = false;
  default = none;
  key = bytes key;
  extra = [];
}

abbrev index_on : String → List Text → Bool → Index
index_on name cs unique = record { name = bytes name; columns = cs; unique = unique }

abbrev key_to : String → String → String → String → ForeignKey
key_to name column table target = record {
  database = [];
  name = bytes name;
  column = bytes column;
  table = bytes table;
  target = bytes target;
}

unfoldable pub users_schema : Schema
users_schema = record {
  columns =
      seed_column "id" "bigint unsigned" "PRI"
      ∷ seed_column "uuid" "char(36)" "UNI"
      ∷ seed_column "name" "varchar(255)" ""
      ∷ seed_column "email" "varchar(255)" "UNI"
      ∷ seed_column "balance" "decimal(30,8)" ""
      ∷ record (seed_column "notes" "text" "") { nullable = true }
      ∷ seed_column "metadata" "json" ""
      ∷ [];
  indexes =
      index_on "PRIMARY" (bytes "id" ∷ []) true
      ∷ index_on "users_uuid" (bytes "uuid" ∷ []) true
      ∷ index_on "users_email" (bytes "email" ∷ []) true
      ∷ [];
  foreign_keys = [];
}

-- The name of the first user, in UTF-8.
abbrev first_name : Text
first_name = 90 ∷ 111 ∷ 195 ∷ 171 ∷ 32 ∷ 230 ∷ 157 ∷ 177 ∷ 228 ∷ 186 ∷ 172 ∷ []

abbrev pub notes : ℕ → Value
notes i =
    if i % 3 == 0
    then record (typed []) { null = true }
    else if i % 3 == 2
    then typed []
    else typed (bytes "Prefers 100% cotton_ products")

unfoldable pub user_row : (ℕ → Text) → ℕ → List Value
unfolding padded fraction
user_row metadata i =
    typed (decimal i)
    ∷ typed (bytes "00000000-0000-4000-8000-" ++ padded 12 i)
    ∷ typed (if i == 1 then first_name else bytes "Customer " ++ padded 3 i)
    ∷ typed (bytes "customer" ++ padded 3 i ++ bytes "@example.test")
    ∷ typed (fraction 9007199254740993 i)
    ∷ notes i
    ∷ typed (metadata i)
    ∷ []

unfoldable pub products_schema : Schema
products_schema = record {
  columns =
      seed_column "id" "bigint unsigned" "PRI"
      ∷ seed_column "name" "varchar(255)" ""
      ∷ seed_column "price" "decimal(20,8)" ""
      ∷ seed_column "stock" "int" ""
      ∷ record (seed_column "description" "text" "") { nullable = true }
      ∷ [];
  indexes =
      index_on "PRIMARY" (bytes "id" ∷ []) true
      ∷ index_on "products_name" (bytes "name" ∷ []) false
      ∷ [];
  foreign_keys = [];
}

unfoldable pub product_id : ℕ → Text
product_id i = decimal ((18446744073709551000 + i) % 2 ^ 64)

unfoldable pub product_price : ℕ → Text
unfolding fraction
product_price i = fraction (i % 20 + 1) i

unfoldable pub product_row : ℕ → List Value
unfolding padded repeat product_id product_price
product_row i = values (
    product_id i
    ∷ (bytes "Product " ++ padded 3 i)
    ∷ product_price i
    ∷ decimal (i * 3)
    ∷ repeat 64 (bytes "Carefully made for everyday use. ")
    ∷ [])

unfoldable pub orders_schema : Schema
orders_schema = record {
  columns =
      seed_column "id" "bigint unsigned" "PRI"
      ∷ seed_column "user_id" "bigint unsigned" "MUL"
      ∷ seed_column "product_id" "bigint unsigned" "MUL"
      ∷ seed_column "quantity" "int" ""
      ∷ seed_column "total" "decimal(30,8)" ""
      ∷ seed_column "status" "varchar(32)" ""
      ∷ [];
  indexes =
      index_on "PRIMARY" (bytes "id" ∷ []) true
      ∷ index_on "orders_user" (bytes "user_id" ∷ []) false
      ∷ index_on "orders_product" (bytes "product_id" ∷ []) false
      ∷ index_on "orders_status_id" (bytes "status" ∷ bytes "id" ∷ []) false
      ∷ [];
  foreign_keys =
      key_to "orders_user_fk" "user_id" "users" "id"
      ∷ key_to "orders_product_fk" "product_id" "products" "id"
      ∷ [];
}

abbrev pub status_of : ℕ → Text
status_of i =
    if i % 4 == 0
    then bytes "pending"
    else if i % 4 == 1
    then bytes "paid"
    else if i % 4 == 2
    then bytes "shipped"
    else bytes "cancelled"

-- The rows from the `i`-th on, `k` of them.
unfoldable pub rows_from : (ℕ → List Value) → ℕ → ℕ → List (List Value)
rows_from row i zero = []
rows_from row i (suc k) = row i ∷ rows_from row (suc i) k

-- The first error that the context answers, in `k` questions from the `n`-th.
unfoldable pub first_error : Context → ℕ → ℕ → Option Text
first_error ctx n zero = none
first_error ctx n (suc k) =
    let later = first_error ctx (suc n) k in elim (ctx n) [ some e ↦ some e | none ↦ later ]

-- The store of the three tables.
unfoldable pub seeded_store : (ℕ → Text) → List (List Value) → DemoStore
unfolding users_schema products_schema orders_schema user_row product_row rows_from
seeded_store metadata orders = record {
  tables =
      (bytes "users", record { schema = users_schema; rows = rows_from (user_row metadata) 1 250 })
      ∷ (bytes "products", record { schema = products_schema; rows = rows_from product_row 1 80 })
      ∷ (bytes "orders", record { schema = orders_schema; rows = orders })
      ∷ [];
  closed = false;
}

module _ {R : Type 0} (q : Rationals R) (times : R → ℕ → Text) where
  -- An order is of the product at the place of its number, from the start again after the last.
  unfoldable pub order_row : ℕ → Outcome (List Value)
  unfolding product_price product_id
  order_row i =
      let product = (i - 1) % 80 + 1 in
      let quantity = i % 4 + 1 in
      elim (q.set_string (product_price product)) [
        | none ↦ panics
        | some price ↦ returns (
            values (
              decimal i
              ∷ decimal ((i - 1) % 250 + 1)
              ∷ product_id product
              ∷ decimal quantity
              ∷ times price quantity
              ∷ status_of i
              ∷ []))
      ]

  -- The loop over the orders; the number is of the next question to the context.
  unfoldable pub orders_from : Context → ℕ → ℕ → ℕ → Outcome (List (List Value))
  unfolding order_row
  orders_from ctx n i zero = returns []
  orders_from ctx n i (suc k) = elim (ctx n) [
    | some e ↦ fails e
    | none ↦ order_row i >>= λ r. orders_from ctx (suc n) (suc i) k >>= λ rs. returns (r ∷ rs)
  ]

  -- `Open`. The context is asked at first, before each user and order, and at last.
  unfoldable pub open_demo : (ℕ → Text) → Context → Outcome DemoStore
  unfolding first_error orders_from seeded_store
  open_demo metadata ctx = elim (first_error ctx 0 251) [
    | some e ↦ fails e
    | none ↦ orders_from ctx 251 1 600 >>= λ orders. elim (ctx 851) [
      | some e ↦ fails e
      | none ↦ returns (seeded_store metadata orders)
    ]
  ]
