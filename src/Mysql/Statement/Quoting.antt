-- ===== src/Mysql/Statement/Quoting.antt =====
-- A quoted name is read back whole, whatever it holds.
use mathlib.Core.Option
use mathlib.Core.List.{append_assoc}
use relvo.Base.{
  ℕ, ◌≡◌, refl, ◌≢◌, inl, inr, Option, none, some, [], ◌∷◌, ◌++◌, arith, ◌==◌, if◌then◌else◌,
  ==_iff, Bool-cases, Text,
}
use relvo.Mysql.Statement.{double, quote}

-- How the server reads a quoted name: up to the first backquote that is not doubled.
read_body : Text → Option (Text × Text)
read_body [] = none
read_body (c ∷ []) = if c == 96 then some ([], []) else none
read_body (c ∷ d ∷ s) =
    let pair = Option.map (λ r. (96 ∷ r.0, r.1)) (read_body s) in
    let next = Option.map (λ r. (c ∷ r.0, r.1)) (read_body (d ∷ s)) in
    if c == 96 then (if d == 96 then pair else some ([], d ∷ s)) else next

pub read_name : Text → Option (Text × Text)
read_name [] = none
read_name (c ∷ s) = if c == 96 then read_body s else none

-- Nothing, or a byte that is no backquote.
abbrev pub Breaks : Text → Type 0
Breaks [] = Unit
Breaks (c ∷ s) = c ≢ 96

read_body_next :
    (c : ℕ) (s : Text) (r : Text × Text)
    → c ≢ 96
    → read_body s ≡ some r
    → read_body (c ∷ s) ≡ some (c ∷ r.0, r.1)
unfolding read_body
read_body_next c [] r n h = cc
read_body_next c (d ∷ s) r n h = rw h (ground arith)

read_body-double :
    (n rest : Text) → Breaks rest → read_body (double n ++ 96 ∷ rest) ≡ some (n, rest)
unfolding read_body double
read_body-double [] [] b = refl
read_body-double [] (c ∷ rest) b = ground arith
read_body-double (c ∷ n) rest b = elim (Bool-cases (c == 96)) [
  | inl e ↦ let same : c ≡ 96 = (==_iff c 96).0 e in rw (e, read_body-double n rest b) (rw same)
  | inr e ↦ rw e (read_body_next c _ (n, rest) (ground arith) (read_body-double n rest b))
]

-- A quoted name with anything behind it but a backquote is read as that name, and the reading ends
-- where the quotes do.
pub read_name-quote :
    (name rest : Text) → Breaks rest → read_name (quote name ++ rest) ≡ some (name, rest)
unfolding read_name quote
read_name-quote name rest b =
    ground (arith, append_assoc (double name) (96 ∷ []) rest, read_body-double name rest b)
