-- ===== src/Demo/Browse/Meaning.antt =====
-- What the order of the demo store means, independently of the code: the sign of two values, where NULL
-- stands, and when a row may stand behind another.
use relvo.Base.{
  ℕ, ◌≡◌, refl, ◌≢◌, ◌⊎◌, inl, inr, Bool, true, false, some, List, [], ◌∷◌, arith, Bool-cases,
  Option-cases, get_elem?, Text,
}
use relvo.Data.{Column, Value}
use relvo.Demo.Outcome.{returns, index, bind_returns}
use relvo.Demo.Compare.{
  Sign, below, same, above, Rationals, numeric, compare_text, compare_numbers, compare_values,
}
use relvo.Demo.Browse.{before, by_first, compare_rows, goes_before}
use relvo.Demo.Browse.Order.{Row, Ordered}

pub index_is :
    {A : Type 0} (xs : List A) (i : ℕ) {a : A} → index xs i ≡ returns a → get_elem? xs i ≡ some a
unfolding index
index_is xs i {a} h = elim (Option-cases (get_elem? xs i)) [
  | inl e ↦ absurd (ground arith)
  | inr (x, e) ↦ ground arith
]

module _ {R : Type 0} (q : Rationals R) where
  -- The sign of two texts that are numbers, or are not.
  pub data Compared (number : Bool) (s t : Text) (sign : Sign) : Type 0 where
    numbers :
        (x y : R)
        → number ≡ true
        → q.set_string s ≡ some x
        → q.set_string t ≡ some y
        → q.cmp x y ≡ sign
        → Compared number s t sign
    texts : number ≡ false → compare_text s t ≡ sign → Compared number s t sign

  -- NULL is below all else.
  pub data Signed (number : Bool) (a b : Value) (sign : Sign) : Type 0 where
    both_null : a.null ≡ true → b.null ≡ true → sign ≡ same → Signed number a b sign
    null_below : a.null ≡ true → b.null ≡ false → sign ≡ below → Signed number a b sign
    null_above : a.null ≡ false → b.null ≡ true → sign ≡ above → Signed number a b sign
    filled :
        a.null ≡ false
        → b.null ≡ false
        → Compared number a.text b.text sign
        → Signed number a b sign

  compare_numbers-Compared :
      (s t : Text) (sign : Sign)
      → compare_numbers q s t ≡ returns sign
      → (x : R) × (y : R) × (q.set_string s ≡ some x)
        × (q.set_string t ≡ some y)
        × (q.cmp x y ≡ sign)
  unfolding compare_numbers
  compare_numbers-Compared s t sign h = elim (Option-cases (q.set_string s)) [
    | inl e ↦ absurd (ground arith)
    | inr (x, e) ↦ elim (Option-cases (q.set_string t)) [
      | inl f ↦ absurd (ground arith)
      | inr (y, f) ↦ (x, y, e, f, ground arith)
    ]
  ]

  pub compare_filled :
      (a b : Value) (number : Bool) (sign : Sign)
      → a.null ≡ false
      → b.null ≡ false
      → compare_values q a b number ≡ returns sign
      → Compared number a.text b.text sign
  unfolding compare_values
  compare_filled a b number sign ea eb h = elim (Bool-cases number) [
    | inl n ↦
        let (x, y, ex, ey, c) = compare_numbers-Compared a.text b.text sign (ground arith) in
        numbers x y n ex ey c
    | inr n ↦ texts n (ground arith)
  ]

  compare_values-Signed :
      (a b : Value) (number : Bool) (sign : Sign)
      → compare_values q a b number ≡ returns sign
      → Signed number a b sign
  unfolding compare_values
  compare_values-Signed a b number sign h = elim (Bool-cases a.null) [
    | inl ea ↦ elim (Bool-cases b.null) [
      | inl eb ↦ both_null ea eb (ground arith)
      | inr eb ↦ null_below ea eb (ground arith)
    ]
    | inr ea ↦ elim (Bool-cases b.null) [
      | inl eb ↦ null_above ea eb (ground arith)
      | inr eb ↦ filled ea eb (compare_filled a b number sign ea eb h)
    ]
  ]

  -- The sign of two rows: that of their values in the column, or in the first where these are equal.
  pub record RowsSigned (cs : List Column) (i : ℕ) (r s : Row) (sign : Sign) : Type 0 where
    pub left : Value
    pub right : Value
    pub column : Column
    pub at_left : get_elem? r i ≡ some left
    pub at_right : get_elem? s i ≡ some right
    pub at_column : get_elem? cs i ≡ some column
    pub first : Sign
    pub by_column : Signed (numeric column) left right first
    pub tie :
        ((first ≢ same) × (sign ≡ first))
        ⊎ ((first ≡ same)
            × ((a : Value) × (b : Value) × (get_elem? r 0 ≡ some a)
                × (get_elem? s 0 ≡ some b)
                × Signed true a b sign))

  by_first-tie :
      (r s : Row) (first sign : Sign)
      → by_first q r s first ≡ returns sign
      → ((first ≢ same) × (sign ≡ first))
        ⊎ ((first ≡ same)
            × ((a : Value) × (b : Value) × (get_elem? r 0 ≡ some a)
                × (get_elem? s 0 ≡ some b)
                × Signed true a b sign))
  unfolding by_first
  by_first-tie r s below sign h = inl (λ n. cc, ground arith)
  by_first-tie r s above sign h = inl (λ n. cc, ground arith)
  by_first-tie r s same sign h =
      let (a, ea, h1) = bind_returns (index r 0) _ h in
      let (b, eb, h2) = bind_returns (index s 0) _ h1 in
      inr (refl, (a, b, index_is r 0 ea, index_is s 0 eb, compare_values-Signed a b true sign h2))

  compare_rows-Signed :
      (cs : List Column) (i : ℕ) (r s : Row) (sign : Sign)
      → compare_rows q cs i r s ≡ returns sign
      → RowsSigned cs i r s sign
  unfolding compare_rows
  compare_rows-Signed cs i r s sign h =
      let (a, ea, h1) = bind_returns (index r i) _ h in
      let (b, eb, h2) = bind_returns (index s i) _ h1 in
      let (c, ec, h3) = bind_returns (index cs i) _ h2 in
      let (first, es, h4) = bind_returns (compare_values q a b (numeric c)) _ h3 in
      record {
        left = a;
        right = b;
        column = c;
        at_left = index_is r i ea;
        at_right = index_is s i eb;
        at_column = index_is cs i ec;
        first = first;
        by_column = compare_values-Signed a b (numeric c) first es;
        tie = by_first-tie r s first sign h4;
      }

  -- `s` may stand behind `r`: it is not below `r` where the order rises, and not above where it falls.
  pub record Follows (cs : List Column) (i : ℕ) (desc : Bool) (r s : Row) : Type 0 where
    pub sign : Sign
    pub signed : RowsSigned cs i s r sign
    pub rising : desc ≡ false → sign ≢ below
    pub falling : desc ≡ true → sign ≢ above

  -- Each row and the next one.
  abbrev pub Sorted : List Column → ℕ → Bool → List Row → Type 0
  Sorted cs i desc [] = Unit
  Sorted cs i desc (r ∷ []) = Unit
  Sorted cs i desc (r ∷ s ∷ rs) = Follows cs i desc r s × Sorted cs i desc (s ∷ rs)

  goes_before-Follows :
      (cs : List Column) (i : ℕ) (desc : Bool) (r s : Row)
      → goes_before q cs i desc s r ≡ returns false
      → Follows cs i desc r s
  unfolding goes_before before
  goes_before-Follows cs i desc r s h =
      let (sign, e, k) = bind_returns (compare_rows q cs i s r) _ h in
      record {
        sign = sign;
        signed = compare_rows-Signed cs i s r sign e;
        rising = λ d. ground arith;
        falling = λ d. ground arith;
      }

  pub Ordered-Sorted :
      (cs : List Column) (i : ℕ) (desc : Bool) (rs : List Row)
      → Ordered (goes_before q cs i desc) rs
      → Sorted cs i desc rs
  Ordered-Sorted cs i desc [] h = tt
  Ordered-Sorted cs i desc (r ∷ []) h = tt
  Ordered-Sorted cs i desc (r ∷ s ∷ rs) h =
      (goes_before-Follows cs i desc r s h.0, Ordered-Sorted cs i desc (s ∷ rs) h.1)
