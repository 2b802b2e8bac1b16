-- ===== src/Demo/Browse/Filters.antt =====
-- What it means that a row passes the filters of the demo store, and that the code tests this.
use relvo.Base.{
  ℕ, ◌≡◌, ◌∙◌, refl, ap, sym, subst, ◌≢◌, ◌↔◌, inl, inr, Bool, true, false, not, ◌&&◌, Option, some,
  List, [], ◌∷◌, arith, Bool-cases, All, get_elem?, contains, Text, bytes, if◌then◌else◌,
}
use relvo.Data.{Column, Value, Filter}
use relvo.Demo.Outcome.{Outcome, returns, ◌>>=◌, index, bind_returns}
use relvo.Demo.Compare.{Sign, Rationals, numeric, compare_values}
use relvo.Demo.Browse.{
  Test, null_test, filled_test, part_test, sign_test, no_test, test_of, typed, pass, row_matches,
}
use relvo.Demo.Browse.Order.{Row}
use relvo.Demo.Browse.Meaning.{Compared, index_is, compare_filled}
use relvo.Demo.Browse.Operators.{Accepts, Stands, not_both, test_of-Stands}
use relvo.Demo.Browse.Names.{place}

module _ {R : Type 0} (q : Rationals R) (cs : List Column) where
  -- A value passes a filter on the `i`-th column.
  pub data Meets (i : ℕ) (op : Text) (v : Value) (t : Text) : Type 0 where
    is_null : op ≡ bytes "is-null" → v.null ≡ true → Meets i op v t
    not_null : op ≡ bytes "not-null" → v.null ≡ false → Meets i op v t
    has_part : op ≡ bytes "contains" → v.null ≡ false → contains v.text t ≡ true → Meets i op v t
    compares :
        (c : Column) (sign : Sign)
        → v.null ≡ false
        → get_elem? cs i ≡ some c
        → Compared q (numeric c) v.text t sign
        → Accepts op sign
        → Meets i op v t

  pub record Passes (r : Row) (f : Filter) : Type 0 where
    pub value : Value
    pub at_value : get_elem? r (place cs f.column) ≡ some value
    pub meets : Meets (place cs f.column) f.op value f.value

  -- What `pass` finds.
  record Tested (r : Row) (f : Filter) (b : Bool) : Type 0 where
    value : Value
    at_value : get_elem? r (place cs f.column) ≡ some value
    fits : (b ≡ true) ↔ Meets (place cs f.column) f.op value f.value

  Compared-unique :
      (number : Bool) (s t : Text) (x y : Sign)
      → Compared q number s t x
      → Compared q number s t y
      → x ≡ y
  Compared-unique number s t x y (Compared.numbers a b n ea eb c)
        (Compared.numbers a' b' n' ea' eb' c') =
      ground arith
  Compared-unique number s t x y (Compared.numbers a b n ea eb c) (Compared.texts n' c') =
      absurd (ground arith)
  Compared-unique number s t x y (Compared.texts n c) (Compared.numbers a' b' n' ea' eb' c') =
      absurd (ground arith)
  Compared-unique number s t x y (Compared.texts n c) (Compared.texts n' c') = ground arith

  -- The body of the loop over the filters.
  abbrev by_test : ℕ → Value → Text → Test → Outcome Bool
  by_test i v t test = elim test [
    | null_test ↦ returns v.null
    | filled_test ↦ returns (not v.null)
    | part_test ↦ returns (not v.null && contains v.text t)
    | sign_test holds ↦
        if v.null
        then returns false
        else (index cs i >>= λ c.
            compare_values q v (typed t) (numeric c) >>= λ s. returns (holds s))
    | no_test ↦
        if v.null
        then returns false
        else (index cs i >>= λ c. compare_values q v (typed t) (numeric c) >>= λ s. returns false)
  ]

  Meets-null :
      (i : ℕ) (op : Text) (v : Value) (t : Text)
      → op ≡ bytes "is-null"
      → Meets i op v t
      → v.null ≡ true
  Meets-null i op v t s (is_null e n) = n
  Meets-null i op v t s (not_null e n) = absurd (ground arith)
  Meets-null i op v t s (has_part e n c) = absurd (ground arith)
  Meets-null i op v t s (compares c x n at h a) = absurd (ground arith)

  Meets-filled :
      (i : ℕ) (op : Text) (v : Value) (t : Text)
      → op ≡ bytes "not-null"
      → Meets i op v t
      → v.null ≡ false
  Meets-filled i op v t s (is_null e n) = absurd (ground arith)
  Meets-filled i op v t s (not_null e n) = n
  Meets-filled i op v t s (has_part e n c) = absurd (ground arith)
  Meets-filled i op v t s (compares c x n at h a) = absurd (ground arith)

  Meets-part :
      (i : ℕ) (op : Text) (v : Value) (t : Text)
      → op ≡ bytes "contains"
      → Meets i op v t
      → (v.null ≡ false) × (contains v.text t ≡ true)
  Meets-part i op v t s (is_null e n) = absurd (ground arith)
  Meets-part i op v t s (not_null e n) = absurd (ground arith)
  Meets-part i op v t s (has_part e n c) = (n, c)
  Meets-part i op v t s (compares c x n at h a) = absurd (ground arith)

  -- How a value meets a filter whose operator compares.
  Meets-signed :
      (i : ℕ) (op : Text) (v : Value) (t : Text)
      → op ≢ bytes "is-null"
      → op ≢ bytes "not-null"
      → op ≢ bytes "contains"
      → Meets i op v t
      → (c : Column) × (sign : Sign) × (v.null ≡ false)
        × (get_elem? cs i ≡ some c)
        × Compared q (numeric c) v.text t sign
        × Accepts op sign
  Meets-signed i op v t a b d (is_null e n) = absurd (a e)
  Meets-signed i op v t a b d (not_null e n) = absurd (b e)
  Meets-signed i op v t a b d (has_part e n c) = absurd (d e)
  Meets-signed i op v t a b d (compares c x n at h acc) = (c, x, n, at, h, acc)

  -- A value that is not NULL is compared, and under an operator that is unknown to no avail.
  after_null :
      (n : Bool) (m : Outcome Bool) (b : Bool)
      → n ≡ false
      → (if n then returns false else m) ≡ returns b
      → m ≡ returns b
  after_null true m b e h = cc
  after_null false m b e h = h

  never :
      (n : Bool) (m : Outcome Column) (k : Column → Outcome Sign) (b : Bool)
      → (if n then returns false else (m >>= λ c. k c >>= λ s. returns false)) ≡ returns b
      → b ≡ false
  never true m k b h = cc
  never false m k b h =
      let (c, ec, h1) = bind_returns m _ h in let (sign, es, h2) = bind_returns (k c) _ h1 in cc

  by_test-Meets :
      (i : ℕ) (op : Text) (v : Value) (t : Text) (test : Test) (b : Bool)
      → Stands op test
      → by_test i v t test ≡ returns b
      → (b ≡ true) ↔ Meets i op v t
  by_test-Meets i op v t null_test b s h =
      (λ e. is_null s (ground arith), λ m. ground (arith, Meets-null i op v t s m))
  by_test-Meets i op v t filled_test b s h =
      (λ e. not_null s (ground arith), λ m. ground (arith, Meets-filled i op v t s m))
  by_test-Meets i op v t part_test b s h =
      (λ e. has_part s (ground arith) (ground arith), λ m. ground (arith, Meets-part i op v t s m))
  by_test-Meets i op v t (sign_test holds) b (x, y, z, s) h = elim (Bool-cases v.null) [
    | inl n ↦ (
      λ e. absurd (ground arith),
      λ m.
          let (c, sign, filled, at, cmp, acc) = Meets-signed i op v t x y z m in
          absurd (ground arith),
    )
    | inr n ↦
        let h0 : (index cs i >>= λ c.
        compare_values q v (typed t) (numeric c) >>= λ s. returns (holds s))
            ≡ returns b =
          after_null v.null _ b n h in
        let (c, ec, h1) = bind_returns (index cs i) _ h0 in
        let (sign, es, h2) = bind_returns (compare_values q v (typed t) (numeric c)) _ h1 in
        let cmp = compare_filled q v (typed t) (numeric c) sign n refl es in
        let at = index_is cs i ec in
        let accepted : holds sign ≡ b = ground arith in
        (
          λ e. compares c sign n at cmp ((s sign).0 (accepted ∙ e)),
          λ m.
              let (c', sign', filled, at', cmp', acc) = Meets-signed i op v t x y z m in
              let same_column : c' ≡ c = ground arith in
              let cmp1 = subst (λ d. Compared q (numeric d) v.text t sign') same_column cmp' in
              let same_sign = Compared-unique (numeric c) v.text t sign' sign cmp1 cmp in
              sym accepted ∙ (ap holds (sym same_sign) ∙ (s sign').1 acc),
        )
  ]
  by_test-Meets i op v t no_test b (x, y, z, s) h = (
    λ e. absurd (not_both b (never v.null (index cs i) _ b h) e),
    λ m. let (c, sign, filled, at, cmp, acc) = Meets-signed i op v t x y z m in absurd (s sign acc),
  )

  pass-Tested : (f : Filter) (r : Row) (b : Bool) → pass q cs f r ≡ returns b → Tested r f b
  unfolding pass
  pass-Tested f r b h =
      let (v, ev, k) = bind_returns (index r (place cs f.column)) _ h in
      record {
        value = v;
        at_value = index_is r (place cs f.column) ev;
        fits =
            by_test-Meets (place cs f.column) f.op v f.value (test_of f.op) b (test_of-Stands f.op)
              k;
      }

  pub row_matches-Passes :
      (fs : List Filter) (r : Row) (b : Bool)
      → row_matches q cs fs r ≡ returns b
      → (b ≡ true) ↔ All (Passes r) fs
  unfolding row_matches
  row_matches-Passes [] r b h = (λ e. tt, λ a. ground arith)
  row_matches-Passes (f ∷ fs) r b h =
      let (p, e, k) = bind_returns (pass q cs f r) _ h in
      let t = pass-Tested f r p e in
      let same_value = λ (m : Passes r f).
        subst (λ v. Meets (place cs f.column) f.op v f.value) (same_some (m.at_value) t.at_value)
          m.meets in
      elim (Bool-cases p) [
        | inl y ↦
            let rest : row_matches q cs fs r ≡ returns b = rw y at k in
            let (to, from) = row_matches-Passes fs r b rest in
            let met : Passes r f = record {
              value = t.value;
              at_value = t.at_value;
              meets = t.fits.0 y;
            } in
            (λ g. (met, to g), λ a. from a.1)
        | inr n ↦
            let stopped : b ≡ false = failed p k n in
            (
              λ g. absurd (not_both b stopped g),
              λ a. absurd (not_both p n (t.fits.1 (same_value a.0))),
            )
      ]
    where
      same_some : {v w : Value} {o : Option Value} → o ≡ some v → o ≡ some w → v ≡ w
      same_some h k = cc

      failed :
          (p : Bool)
          → (elim p [ false ↦ returns false | true ↦ row_matches q cs fs r ]) ≡ returns b
          → p ≡ false
          → b ≡ false
      failed true k n = cc
      failed false k n = cc
