-- ===== src/Demo/Browse/Order.antt =====
-- The sort of the demo store: a permutation, in order.
use mathlib.Core.List.{Perm}
use mathlib.Core.List.Perm
use relvo.Base.{◌≡◌, subst, ◌⊎◌, inl, inr, Bool, true, false, List, [], ◌∷◌, Bool-cases}
use relvo.Data.{Value}
use relvo.Demo.Outcome.{Outcome, returns, bind_returns}
use relvo.Demo.Browse.{insert_row, sort_rows}

abbrev pub Row : Type 0
Row = List Value

abbrev pub Less : Type 0
Less = Row → Row → Outcome Bool

-- No row goes before the one above it.
abbrev pub Ordered : Less → List Row → Type 0
Ordered less [] = Unit
Ordered less (r ∷ []) = Unit
Ordered less (r ∷ s ∷ rs) = (less s r ≡ returns false) × Ordered less (s ∷ rs)

abbrev First : (Row → Type 0) → List Row → Type 0
First P [] = Unit
First P (r ∷ rs) = P r

-- Of two rows at most one goes before the other.
abbrev pub Asymmetric : Less → Type 0
Asymmetric less = (r s : Row) → less r s ≡ returns true → less s r ≡ returns false

-- How an insertion into a list that is not empty returned.
pub insert_row_cases :
    (less : Less) (r s : Row) (rs out : List Row)
    → insert_row less r (s ∷ rs) ≡ returns out
    → ((rest : List Row) × (less s r ≡ returns true)
        × (insert_row less r rs ≡ returns rest)
        × (s ∷ rest ≡ out))
      ⊎ ((less s r ≡ returns false) × (r ∷ s ∷ rs ≡ out))
unfolding insert_row
insert_row_cases less r s rs out h =
    let (b, e, k) = bind_returns (less s r) _ h in
    elim (Bool-cases b) [
      | inl t ↦
          let (rest, f, g) = bind_returns (insert_row less r rs) _ (rw t at k) in
          inl (rest, rw t at e, f, cc g)
      | inr t ↦ inr (rw t at e, cc (rw t at k))
    ]

insert_row-perm :
    (less : Less) (r : Row) (rs out : List Row)
    → insert_row less r rs ≡ returns out
    → Perm out (r ∷ rs)
unfolding insert_row
insert_row-perm less r [] out h = subst (λ o. Perm o (r ∷ [])) (cc h) (Perm.refl (r ∷ []))
insert_row-perm less r (s ∷ rs) out h = elim (insert_row_cases less r s rs out h) [
  | inl (rest, e, f, g) ↦
      subst (λ o. Perm o (r ∷ s ∷ rs)) g
        (Perm.trans (Perm.cons s (insert_row-perm less r rs rest f)) (Perm.swap r s rs))
  | inr (e, k) ↦ subst (λ o. Perm o (r ∷ s ∷ rs)) k (Perm.refl (r ∷ s ∷ rs))
]

insert_row-First :
    (P : Row → Type 0) (less : Less) (r : Row) (rs out : List Row)
    → P r
    → First P rs
    → insert_row less r rs ≡ returns out
    → First P out
unfolding insert_row
insert_row-First P less r [] out p f h = let e : r ∷ [] ≡ out = cc h in subst (First P) e p
insert_row-First P less r (s ∷ rs) out p f h = elim (insert_row_cases less r s rs out h) [
  | inl (rest, e, _, g) ↦ subst (First P) g f
  | inr (e, k) ↦ subst (First P) k p
]

Ordered-cons :
    (less : Less) (s : Row) (rs : List Row)
    → First (λ t. less t s ≡ returns false) rs
    → Ordered less rs
    → Ordered less (s ∷ rs)
Ordered-cons less s [] f o = tt
Ordered-cons less s (t ∷ rs) f o = (f, o)

Ordered-First :
    (less : Less) (s : Row) (rs : List Row)
    → Ordered less (s ∷ rs)
    → First (λ t. less t s ≡ returns false) rs × Ordered less rs
Ordered-First less s [] o = (tt, tt)
Ordered-First less s (t ∷ rs) o = o

insert_row-Ordered :
    (less : Less) (r : Row) (rs out : List Row)
    → Asymmetric less
    → Ordered less rs
    → insert_row less r rs ≡ returns out
    → Ordered less out
unfolding insert_row
insert_row-Ordered less r [] out a o h = let e : r ∷ [] ≡ out = cc h in subst (Ordered less) e tt
insert_row-Ordered less r (s ∷ rs) out a o h = elim (insert_row_cases less r s rs out h) [
  | inl (rest, e, f, g) ↦
      let p = Ordered-First less s rs o in
      subst (Ordered less) g (
        Ordered-cons less s rest
          (insert_row-First (λ t. less t s ≡ returns false) less r rs rest (a s r e) p.0 f)
          (insert_row-Ordered less r rs rest a p.1 f))
  | inr (e, k) ↦ subst (Ordered less) k (e, o)
]

-- What is sorted are the same rows, in order.
pub sort_rows_lem :
    (less : Less) (rs out : List Row)
    → Asymmetric less
    → sort_rows less rs ≡ returns out
    → Perm out rs × Ordered less out
unfolding sort_rows
sort_rows_lem less [] out a h = subst (λ o. Perm o [] × Ordered less o) (cc h) (Perm.refl [], tt)
sort_rows_lem less (r ∷ rs) out a h =
    let (rest, f, g) = bind_returns (sort_rows less rs) _ h in
    let (p, o) = sort_rows_lem less rs rest a f in
    (
      Perm.trans (insert_row-perm less r rest out g) (Perm.cons r p),
      insert_row-Ordered less r rest out a o g,
    )
