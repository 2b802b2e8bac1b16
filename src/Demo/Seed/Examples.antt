-- ===== src/Demo/Seed/Examples.antt =====
-- The demo store opened over one concrete reading of numbers.
use relvo.Base.{
  true, ℕ, ◌+◌, ◌-◌, ◌*◌, ◌&&◌, if◌then◌else◌, pos, ltb, leb, ◌≡◌, ◌≢◌, none, some, [], ◌∷◌, arith,
  Text, bytes, decimal,
}
use relvo.Demo.Outcome.{panics, ◌>>=◌}
use relvo.Demo.Compare.{Rationals, Sign, below, same, above, flip}
use relvo.Demo.Browse.{Context, browse_demo}
use relvo.Demo.Seed.{open_demo}
use relvo.Demo.Seed.Tables.{Reads, open_demo-browse_demo_calm}
use relvo.Data.{BrowseRequest, fresh_browse}

-- The number of the digits of a text, whatever else it has: at one scale, an order of numbers.
abbrev digits_of : ℕ → Text → ℕ
digits_of n [] = n
digits_of n (c ∷ s) =
    if leb 48 c && leb c 57 then digits_of (n * 10 + (c - 48)) s else digits_of n s

abbrev order : ℕ → ℕ → Sign
order x y = if ltb x y then below else if ltb y x then above else same

order-flip : (x y : ℕ) → order y x ≡ flip (order x y)
order-flip x y = ground arith

abbrev scaled : Rationals ℕ
scaled = record { set_string = λ s. some (digits_of 0 s); cmp = order; cmp_flip = order-flip }

abbrev times_scaled : ℕ → ℕ → Text
times_scaled x n = decimal (x * n)

scaled-Reads : Reads scaled times_scaled
scaled-Reads = record {
  whole = λ n. ground arith;
  pointed = λ n m. ground arith;
  printed = λ x n. ground arith;
}

abbrev no_metadata : ℕ → Text
no_metadata n = bytes "{}"

abbrev running : Context
running n = none

abbrev dearest : BrowseRequest
dearest = record (fresh_browse (pos 50)) {
  table = bytes "orders";
  filters = record { column = bytes "quantity"; op = bytes "gt"; value = bytes "3" } ∷ [];
  sort = bytes "total";
  desc = true;
}

open_demo-browse_demo_calm_example :
    (open_demo scaled times_scaled no_metadata running >>= λ s.
    browse_demo scaled running s dearest)
    ≢ panics
open_demo-browse_demo_calm_example =
    open_demo-browse_demo_calm scaled times_scaled scaled-Reads no_metadata running running dearest
