-- ===== src/Demo/Browse/Calm.antt =====
-- The demo store does not panic on tables such as `Open` seeds.
use relvo.Base.{
  ℕ, zero, suc, ◌<◌, ◌≡◌, refl, subst, ◌≢◌, inl, inr, true, false, none, some, List, [], ◌∷◌, arith,
  Bool-cases, Option-cases, length, All, Text,
}
use relvo.Data.{Column, Value, Filter}
use relvo.Demo.Outcome.{panics, returns, index, bind_calm, bind_returns}
use relvo.Demo.Compare.{Rationals, numeric, Readable, compare_values_calm}
use relvo.Demo.Browse.{
  Context, position, Test-cases, test_of, typed, check_filter, check_filters, pass, row_matches,
  keep_rows,
}
use relvo.Demo.Browse.Order.{Row}

pub index_in :
    {A : Type 0} (xs : List A) (i : ℕ) → i < length xs → (x : A) × (index xs i ≡ returns x)
unfolding index
index_in [] i h = absurd (omega arith)
index_in (x ∷ xs) zero h = (x, refl)
index_in (x ∷ xs) (suc i) h = index_in xs i (omega arith)

pub position-lt : (n : Text) (cs : List Column) (i : ℕ) → position n cs ≡ some i → i < length cs
unfolding position
position-lt n [] i h = cc
position-lt n (c ∷ cs) i h = elim (Option-cases (position n cs)) [
  | inl e ↦ ground arith
  | inr (j, e) ↦ ground (arith, position-lt n cs j e)
]

module _ {R : Type 0} (q : Rationals R) where
  -- A row has a value for each column, and its numbers can be read.
  abbrev pub Fits : List Column → Row → Type 0
  Fits [] [] = Unit
  Fits [] (v ∷ row) = ⊥
  Fits (c ∷ cs) [] = ⊥
  Fits (c ∷ cs) (v ∷ row) = (numeric c ≡ true → Readable q v) × Fits cs row

  -- The first column has a number.
  abbrev pub HasKey : Row → Type 0
  HasKey [] = ⊥
  HasKey (v ∷ row) = (v.null ≡ false) × (q.set_string v.text ≢ none)

  abbrev pub Seeded : List Column → Row → Type 0
  Seeded cs row = Fits cs row × HasKey row

  pub Fits-length : (cs : List Column) (row : Row) → Fits cs row → length row ≡ length cs
  Fits-length [] [] f = refl
  Fits-length [] (v ∷ row) f = absurd f
  Fits-length (c ∷ cs) [] f = absurd f
  Fits-length (c ∷ cs) (v ∷ row) f = omega (arith, Fits-length cs row f.1)

  pub Fits-index :
      (cs : List Column) (row : Row) (i : ℕ) (c : Column) (v : Value)
      → Fits cs row
      → index cs i ≡ returns c
      → index row i ≡ returns v
      → numeric c ≡ true
      → Readable q v
  unfolding index
  Fits-index [] row i c v f h k = cc
  Fits-index (d ∷ cs) [] i c v f h k = absurd f
  Fits-index (d ∷ cs) (w ∷ row) zero c v f h k = ground (arith, f.0)
  Fits-index (d ∷ cs) (w ∷ row) (suc i) c v f h k = Fits-index cs row i c v f.1 h k

  -- A filter that was checked can be tested on any row of the table.
  pass_calm :
      (cs : List Column) (f : Filter) (row : Row)
      → check_filter q cs f ≡ returns tt
      → Fits cs row
      → pass q cs f row ≢ panics
  unfolding check_filter pass
  pass_calm cs f row h fit = elim (Option-cases (position f.column cs)) [
    | inl e ↦ absurd (ground arith)
    | inr (i, e) ↦
        let lt = position-lt f.column cs i e in
        let (c, ec) = index_in cs i lt in
        let (v, ev) = index_in row i (omega (arith, Fits-length cs row fit)) in
        let readable = Fits-index cs row i c v fit ec ev in
        elim (Test-cases (test_of f.op)) [
          | inl (inl t) ↦ ground arith
          | inl (inr (inl t)) ↦ ground arith
          | inl (inr (inr t)) ↦ ground arith
          | inr (inl (holds, t)) ↦
              let typed_readable : numeric c ≡ true → Readable q (typed f.value) =
                λ k. ground arith in
              let calm =
                compare_values_calm q v (typed f.value) (numeric c) readable typed_readable in
              ground (arith, calm)
          | inr (inr t) ↦ absurd (ground arith)
        ]
  ]

  row_matches_calm :
      (cs : List Column) (fs : List Filter) (row : Row)
      → check_filters q cs fs ≡ returns tt
      → Fits cs row
      → row_matches q cs fs row ≢ panics
  unfolding row_matches check_filters
  row_matches_calm cs [] row h fit = λ n. cc
  row_matches_calm cs (f ∷ fs) row h fit =
      let (u, one, rest) = bind_returns (check_filter q cs f) _ h in
      bind_calm (pass q cs f row) _ (pass_calm cs f row (ground arith) fit)
        λ b e. ground (arith, row_matches_calm cs fs row rest fit)

  pub keep_rows_calm :
      (ctx : Context) (n : ℕ) (cs : List Column) (fs : List Filter) (rs : List Row)
      → check_filters q cs fs ≡ returns tt
      → All (Seeded cs) rs
      → keep_rows q ctx n cs fs rs ≢ panics
  unfolding keep_rows
  keep_rows_calm ctx n cs fs [] h all = λ k. cc
  keep_rows_calm ctx n cs fs (r ∷ rs) h all = elim (Option-cases (ctx n)) [
    | inr (e, f) ↦ rw (f, keep_rows) λ k. cc
    | inl f ↦
        rw (f, keep_rows)
          (bind_calm (row_matches q cs fs r) _ (row_matches_calm cs fs r h all.0.0) λ b e.
            bind_calm (keep_rows q ctx (suc n) cs fs rs) _
              (keep_rows_calm ctx (suc n) cs fs rs h all.1) λ out g. λ k. cc)
  ]

  pub keep_rows-All :
      (P : Row → Type 0) (ctx : Context) (n : ℕ) (cs : List Column) (fs : List Filter)
      (rs out : List Row)
      → All P rs
      → keep_rows q ctx n cs fs rs ≡ returns out
      → All P out
  unfolding keep_rows
  keep_rows-All P ctx n cs fs [] out all h = let e : [] ≡ out = cc h in subst (All P) e tt
  keep_rows-All P ctx n cs fs (r ∷ rs) out all h = elim (Option-cases (ctx n)) [
    | inr (e, f) ↦ absurd (ground arith)
    | inl f ↦
        let (b, m, k) = bind_returns (row_matches q cs fs r) _ (rw (f, keep_rows) at h) in
        let (rest, g, e) = bind_returns (keep_rows q ctx (suc n) cs fs rs) _ k in
        let ih = keep_rows-All P ctx (suc n) cs fs rs rest all.1 g in
        elim (Bool-cases b) [
          | inl t ↦
              let same_out : r ∷ rest ≡ out = ground arith in subst (All P) same_out (all.0, ih)
          | inr t ↦ let same_out : rest ≡ out = ground arith in subst (All P) same_out ih
        ]
  ]
