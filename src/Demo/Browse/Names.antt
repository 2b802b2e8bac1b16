-- ===== src/Demo/Browse/Names.antt =====
-- Which columns the filters and the order of the demo store are about.
use relvo.Base.{
  text_eq, text_eq_iff, ℕ, suc, ◌≡◌, refl, subst, ◌⊎◌, inl, inr, none, some, List, [], ◌∷◌, arith,
  Bool-cases, Option-cases, All, get_elem?, Text,
}
use relvo.Data.{Column, Filter}
use relvo.Demo.Outcome.{returns, bind_returns}
use relvo.Demo.Compare.{Rationals}
use relvo.Demo.Browse.{check_filter, check_filters, sort_position, position}

-- The column of a filter: of columns with one name the last, and the first for an unknown name.
abbrev pub place : List Column → Text → ℕ
place cs n = elim (position n cs) [ none ↦ 0 | some i ↦ i ]

-- The `i`-th column has the name `n`.
abbrev pub Names : List Column → Text → ℕ → Type 0
Names cs n i = (c : Column) × (get_elem? cs i ≡ some c) × (c.name ≡ n)

position-Names : (n : Text) (cs : List Column) (i : ℕ) → position n cs ≡ some i → Names cs n i
unfolding position
position-Names n [] i h = cc
position-Names n (c ∷ cs) i h = elim (Option-cases (position n cs)) [
  | inl e ↦ elim (Bool-cases (text_eq c.name n)) [
    | inl t ↦
        let first : 0 ≡ i = ground arith in
        subst (Names (c ∷ cs) n) first (c, refl, (text_eq_iff c.name n).0 t)
    | inr f ↦ absurd (ground arith)
  ]
  | inr (j, e) ↦
      let later : suc j ≡ i = ground arith in
      subst (Names (c ∷ cs) n) later (position-Names n cs j e)
]

-- Rows are sorted by the column that was named, and by the first where none was.
pub sort_position-Names :
    (n : Text) (cs : List Column) (i : ℕ)
    → sort_position n cs ≡ returns i
    → ((n ≡ []) × (i ≡ 0)) ⊎ Names cs n i
unfolding sort_position
sort_position-Names [] cs i h = inl (refl, ground arith)
sort_position-Names (x ∷ n) cs i h = elim (Option-cases (position (x ∷ n) cs)) [
  | inl e ↦ absurd (ground arith)
  | inr (j, e) ↦
      let at : j ≡ i = ground arith in
      inr (subst (Names cs (x ∷ n)) at (position-Names (x ∷ n) cs j e))
]

module _ {R : Type 0} (q : Rationals R) where
  check_filter-Names :
      (cs : List Column) (f : Filter)
      → check_filter q cs f ≡ returns tt
      → Names cs f.column (place cs f.column)
  unfolding check_filter
  check_filter-Names cs f h = elim (Option-cases (position f.column cs)) [
    | inl e ↦ absurd (ground arith)
    | inr (i, e) ↦ rw (e, place) (position-Names f.column cs i e)
  ]

  pub check_filters-Names :
      (cs : List Column) (fs : List Filter)
      → check_filters q cs fs ≡ returns tt
      → All (λ f. Names cs f.column (place cs f.column)) fs
  unfolding check_filters
  check_filters-Names cs [] h = tt
  check_filters-Names cs (f ∷ fs) h =
      let (u, e, k) = bind_returns (check_filter q cs f) _ h in
      (check_filter-Names cs f e, check_filters-Names cs fs k)
