-- ===== src/Demo/Outcome.antt =====
-- What a method of the demo store ends with: a result, an error, or a panic of the Go runtime (the
-- use of a nil `*big.Rat`, or an index out of range).
use relvo.Base.{ℕ, ◌≡◌, refl, ◌≢◌, ◌⊎◌, inl, inr, none, some, List, get_elem?, Text}

pub data Outcome (A : Type 0) : Type 0 where
  panics : Outcome A
  fails : Text → Outcome A
  returns : A → Outcome A

infixl 5 ◌>>=◌
abbrev pub ◌>>=◌ : {A B : Type 0} → Outcome A → (A → Outcome B) → Outcome B
panics >>= k = panics
fails e >>= k = fails e
returns a >>= k = k a

-- `xs[i]`
unfoldable pub index : {A : Type 0} → List A → ℕ → Outcome A
index xs i = elim (get_elem? xs i) [ none ↦ panics | some x ↦ returns x ]

pub bind_calm :
    {A B : Type 0} (m : Outcome A) (k : A → Outcome B)
    → m ≢ panics
    → ((a : A) → m ≡ returns a → k a ≢ panics)
    → (m >>= k) ≢ panics
bind_calm panics k h f = absurd (h refl)
bind_calm (fails e) k h f = λ n. cc
bind_calm (returns a) k h f = f a refl

-- Inversion of a bind that returns.
pub bind_returns :
    {A B : Type 0} (m : Outcome A) (k : A → Outcome B) {b : B}
    → (m >>= k) ≡ returns b
    → (a : A) × (m ≡ returns a) × (k a ≡ returns b)
bind_returns panics k h = cc
bind_returns (fails e) k h = cc
bind_returns (returns a) k h = (a, refl, h)

pub Outcome-cases :
    {A : Type 0} (m : Outcome A)
    → ((a : A) × (m ≡ returns a)) ⊎ ((e : Text) × (m ≡ fails e)) ⊎ (m ≡ panics)
Outcome-cases panics = inr (inr refl)
Outcome-cases (fails e) = inr (inl (e, refl))
Outcome-cases (returns a) = inl (a, refl)
