-- ===== src/Demo/Compare.antt =====
-- internal/database/demo/demo.go: `numeric` and `compare`.
use relvo.Base.{
  text_eq, ◌≡◌, refl, ◌≢◌, inl, inr, Bool, true, false, ◌&&◌, ◌||◌, Option, none, some, [], ◌∷◌,
  arith, ltb, if◌then◌else◌, Option-cases, Text, bytes, has_prefix,
}
use relvo.Data.{Column, Value}
use relvo.Demo.Outcome.{Outcome, panics, returns, ◌>>=◌}

-- The sign of a comparison: -1, 0 and +1.
pub data Sign : Type 0 where
  below same above : Sign

abbrev pub flip : Sign → Sign
flip below = above
flip same = same
flip above = below

-- What the store uses of `*big.Rat` (math/big): `SetString`, where a nil number is `none`, and `Cmp`,
-- of which the documentation says that it orders the numbers.
pub record Rationals (R : Type 0) : Type 0 where
  pub set_string : Text → Option R
  pub cmp : R → R → Sign
  pub cmp_flip : (x y : R) → cmp y x ≡ flip (cmp x y)

-- `numeric`
unfoldable pub numeric : Column → Bool
unfolding text_eq
numeric c =
    has_prefix c.type (bytes "bigint")
    || text_eq c.type (bytes "int")
    || has_prefix c.type (bytes "decimal")

-- `strings.Compare`
unfoldable pub compare_text : Text → Text → Sign
compare_text [] [] = same
compare_text [] (y ∷ ys) = below
compare_text (x ∷ xs) [] = above
compare_text (x ∷ xs) (y ∷ ys) =
    let rest = compare_text xs ys in if ltb x y then below else if ltb y x then above else rest

module _ {R : Type 0} (q : Rationals R) where
  -- `x.Cmp(y)` after both were set.
  unfoldable pub compare_numbers : Text → Text → Outcome Sign
  compare_numbers s t = elim (q.set_string s) [
    | none ↦ panics
    | some x ↦ elim (q.set_string t) [ none ↦ panics | some y ↦ returns (q.cmp x y) ]
  ]

  -- `compare`
  unfoldable pub compare_values : Value → Value → Bool → Outcome Sign
  unfolding compare_numbers compare_text
  compare_values a b number =
      if a.null && b.null
      then returns same
      else if a.null
      then returns below
      else if b.null
      then returns above
      else if number
      then compare_numbers a.text b.text
      else returns (compare_text a.text b.text)

compare_text-flip : (s t : Text) → compare_text t s ≡ flip (compare_text s t)
unfolding compare_text
compare_text-flip [] [] = refl
compare_text-flip [] (y ∷ ys) = refl
compare_text-flip (x ∷ xs) [] = refl
compare_text-flip (x ∷ xs) (y ∷ ys) = ground (arith, compare_text-flip xs ys)

abbrev pub flips : Outcome Sign → Outcome Sign
flips m = m >>= λ s. returns (flip s)

module _ {R : Type 0} (q : Rationals R) where
  compare_numbers-flip : (s t : Text) → compare_numbers q t s ≡ flips (compare_numbers q s t)
  unfolding compare_numbers
  compare_numbers-flip s t = elim (Option-cases (q.set_string s)) [
    | inl e ↦ elim (Option-cases (q.set_string t)) [
      | inl f ↦ ground arith
      | inr (y, f) ↦ ground arith
    ]
    | inr (x, e) ↦ elim (Option-cases (q.set_string t)) [
      | inl f ↦ ground arith
      | inr (y, f) ↦ ground (arith, q.cmp_flip x y)
    ]
  ]

  pub compare_values-flip :
      (a b : Value) (number : Bool)
      → compare_values q b a number ≡ flips (compare_values q a b number)
  unfolding compare_values
  compare_values-flip a b number =
      ground (arith, compare_numbers-flip a.text b.text, compare_text-flip a.text b.text)

  abbrev pub Readable : Value → Type 0
  Readable v = v.null ≡ false → q.set_string v.text ≢ none

  -- Numbers that can be read are compared.
  pub compare_values_calm :
      (a b : Value) (number : Bool)
      → (number ≡ true → Readable a)
      → (number ≡ true → Readable b)
      → compare_values q a b number ≢ panics
  unfolding compare_values
  compare_values_calm a b number ha hb n = elim (Option-cases (q.set_string a.text)) [
    | inl e ↦ ground arith
    | inr (x, e) ↦ elim (Option-cases (q.set_string b.text)) [
      | inl f ↦ ground arith
      | inr (y, f) ↦ ground arith
    ]
  ]
