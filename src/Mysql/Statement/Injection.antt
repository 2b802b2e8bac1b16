-- ===== src/Mysql/Statement/Injection.antt =====
-- What the text of the statement depends on, and what its arguments are.
use relvo.Base.{
  ◌≡◌, inl, inr, List, [], ◌∷◌, ◌++◌, arith, ok, >>=-eq-ok, Result-cases, Text, pos, ◌+ℤ◌, ◌≤ℤ◌,
}
use relvo.Data.{Column, Schema, Filter, BrowseRequest}
use relvo.Mysql.Statement.{
  Argument, number, Statement, clause, clauses, select, order_by, browse_sql,
}

-- Two filters that ask the same of the same column, of any values.
abbrev SameShape : Filter → Filter → Type 0
SameShape f g = (f.column ≡ g.column) × (f.op ≡ g.op)

abbrev pub SameShapes : List Filter → List Filter → Type 0
SameShapes [] [] = Unit
SameShapes [] (g ∷ gs) = ⊥
SameShapes (f ∷ fs) [] = ⊥
SameShapes (f ∷ fs) (g ∷ gs) = SameShape f g × SameShapes fs gs

clause-shape :
    (cs : List Column) (f g : Filter) (c d : Text × List Argument)
    → SameShape f g
    → clause cs f ≡ ok c
    → clause cs g ≡ ok d
    → c.0 ≡ d.0
unfolding clause
clause-shape cs f g c d s p q = ground (arith, s.0, s.1)

clauses-shape :
    (cs : List Column) (fs gs : List Filter) (c d : List Text × List Argument)
    → SameShapes fs gs
    → clauses cs fs ≡ ok c
    → clauses cs gs ≡ ok d
    → c.0 ≡ d.0
unfolding clauses
clauses-shape cs [] [] c d s p q = ground arith
clauses-shape cs [] (g ∷ gs) c d s p q = absurd s
clauses-shape cs (f ∷ fs) [] c d s p q = absurd s
clauses-shape cs (f ∷ fs) (g ∷ gs) c d s p q =
    let (x, x_ok, p') = >>=-eq-ok (clause cs f) _ p in
    let (xs, xs_ok, p'') = >>=-eq-ok (clauses cs fs) _ p' in
    let (y, y_ok, q') = >>=-eq-ok (clause cs g) _ q in
    let (ys, ys_ok, q'') = >>=-eq-ok (clauses cs gs) _ q' in
    ground
      (arith, clause-shape cs f g x y s.0 x_ok y_ok, clauses-shape cs fs gs xs ys s.1 xs_ok ys_ok)

-- A statement that was built: its filters were, and this is its text.
record Built (schema : Text) (req : BrowseRequest) (meta : Schema) (s : Statement) : Type 0 where
  where_clauses : List Text × List Argument
  filtered : clauses meta.columns req.filters ≡ ok where_clauses
  text_is : s.sql ≡ select schema req.table meta.columns where_clauses.0 (order_by req meta)
  arguments_are :
      s.arguments ≡ where_clauses.1 ++ number (req.limit +ℤ pos 1) ∷ number req.offset ∷ []
  lower : pos 1 ≤ℤ req.limit
  upper : req.limit ≤ℤ pos 1000
  start : pos 0 ≤ℤ req.offset

browse_sql-Built :
    (schema : Text) (req : BrowseRequest) (meta : Schema) (s : Statement)
    → browse_sql schema req meta ≡ ok s
    → Built schema req meta s
unfolding browse_sql
browse_sql-Built schema req meta s h = elim (Result-cases (clauses meta.columns req.filters)) [
  | inr (e, q) ↦ absurd (ground arith)
  | inl (w, q) ↦ record {
    where_clauses = w;
    filtered = q;
    text_is = ground arith;
    arguments_are = ground arith;
    lower = ground arith;
    upper = ground arith;
    start = ground arith;
  }
]

-- Two accepted requests for one table, with one sort and direction and with filters on the same
-- columns by the same operators, give one text of the statement: the values of the filters, the limit
-- and the offset are not in it.
pub browse_sql_text :
    (schema : Text) (p q : BrowseRequest) (meta : Schema) (s t : Statement)
    → p.table ≡ q.table
    → p.sort ≡ q.sort
    → p.desc ≡ q.desc
    → SameShapes p.filters q.filters
    → browse_sql schema p meta ≡ ok s
    → browse_sql schema q meta ≡ ok t
    → s.sql ≡ t.sql
unfolding order_by
browse_sql_text schema p q meta s t e f g sh hp hq =
    let b = browse_sql-Built schema p meta s hp in
    let c = browse_sql-Built schema q meta t hq in
    let same = clauses-shape meta.columns p.filters q.filters _ _ sh b.filtered c.filtered in
    rw (b.text_is, c.text_is, e, f, g, same)
