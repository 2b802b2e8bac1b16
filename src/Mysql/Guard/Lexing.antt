-- ===== src/Mysql/Guard/Lexing.antt =====
-- The words of a query, described by a grammar, and the query guard against it.
use mathlib.Core.List.{append-nil, append_assoc}
use relvo.Base.{
  is_blank, ℕ, zero, suc, ◌≡◌, ◌∙◌, ◌≢◌, ◌⊎◌, inl, inr, true, false, List, [], ◌∷◌, ◌++◌, arith,
  ◌==◌, ==_iff, Bool-cases, ok, Result-cases, Text, to_upper,
}
use relvo.Mysql.Guard.{
  is_letter, is_word, is_quote, opens_comment, Class, class_of, skip_quoted, take_word, tokens,
}

-- `Quoted q s r`: after an opening `q`, the text `s` runs to the closing `q` that `r` follows; a
-- doubled `q` stands for itself, and neither a backslash nor a NUL stands inside.
pub data Quoted (q : ℕ) : Text → Text → Type 0 where
  last : {c : ℕ} → c ≡ q → Quoted q (c ∷ []) []
  closing : {c d : ℕ} {s : Text} → c ≡ q → d ≢ q → Quoted q (c ∷ d ∷ s) (d ∷ s)
  doubled : {c d : ℕ} {s r : Text} → c ≡ q → d ≡ q → Quoted q s r → Quoted q (c ∷ d ∷ s) r
  inside :
      {c d : ℕ} {s r : Text} → c ≢ 92 → c ≢ 0 → c ≢ q → Quoted q (d ∷ s) r → Quoted q (c ∷ d ∷ s) r

-- `Word s w r`: `w` is the longest run of word bytes at the head of `s`, and `r` the rest.
pub data Word : Text → Text → Text → Type 0 where
  end : Word [] [] []
  stop : {c : ℕ} {s : Text} → is_word c ≡ false → Word (c ∷ s) [] (c ∷ s)
  more : {c : ℕ} {s w r : Text} → is_word c ≡ true → Word s w r → Word (c ∷ s) (c ∷ w) r

-- `Lexed s ts`: the query `s` has the words `ts` outside its quotes, and no comment, backslash, NUL
-- or second statement.
pub data Lexed : Text → List Text → Type 0 where
  done : Lexed [] []
  ending : {c : ℕ} {s : Text} → c ≡ 59 → is_blank s ≡ true → Lexed (c ∷ s) []
  quoted :
      {c : ℕ} {s r : Text} {ts : List Text}
      → is_quote c ≡ true
      → Quoted c s r
      → Lexed r ts
      → Lexed (c ∷ s) ts
  word :
      {c : ℕ} {s w r : Text} {ts : List Text}
      → is_letter c ≡ true
      → Word (c ∷ s) w r
      → Lexed r ts
      → Lexed (c ∷ s) (to_upper w ∷ ts)
  passed :
      {c : ℕ} {s : Text} {ts : List Text}
      → c ≢ 0
      → c ≢ 92
      → c ≢ 35
      → c ≢ 59
      → opens_comment c s ≡ false
      → is_quote c ≡ false
      → is_letter c ≡ false
      → Lexed s ts
      → Lexed (c ∷ s) ts

pub skip_quoted-Quoted :
    (q : ℕ) (s r : Text) → is_quote q ≡ true → skip_quoted q s ≡ ok r → Quoted q s r
unfolding skip_quoted
skip_quoted-Quoted q [] r k h = cc
skip_quoted-Quoted q (c ∷ []) r k h = elim (Bool-cases (c == q)) [
  | inl e ↦ let same : r ≡ [] = ground arith in rw same (last ((==_iff c q).0 e))
  | inr e ↦ absurd (ground arith)
]
skip_quoted-Quoted q (c ∷ d ∷ s) r k h = elim (Bool-cases (c == q)) [
  | inl e ↦ elim (Bool-cases (d == q)) [
    | inl f ↦ doubled (ground arith) (ground arith) (skip_quoted-Quoted q s r k (ground arith))
    | inr f ↦ let same : r ≡ d ∷ s = ground arith in rw same (closing (ground arith) (ground arith))
  ]
  | inr e ↦
      inside (ground arith) (ground arith) (ground arith)
        (skip_quoted-Quoted q (d ∷ s) r k (ground arith))
]

pub take_word-Word : (s : Text) → Word s (take_word s).0 (take_word s).1
unfolding take_word
take_word-Word [] = end
take_word-Word (c ∷ s) = elim (Bool-cases (is_word c)) [
  | inl e ↦ rw e (more e (take_word-Word s))
  | inr e ↦ rw e (stop e)
]

-- The class of a byte, by what the grammar asks.
pub class-quote : (c : ℕ) (s : Text) → class_of c s ≡ Class.quote → is_quote c ≡ true
unfolding class_of
class-quote c s h = ground arith

pub class-letter : (c : ℕ) (s : Text) → class_of c s ≡ Class.letter → is_letter c ≡ true
unfolding class_of
class-letter c s h = ground arith

class-semicolon : (c : ℕ) (s : Text) → class_of c s ≡ Class.semicolon → c ≡ 59
unfolding class_of
class-semicolon c s h = ground arith

class-other :
    (c : ℕ) (s : Text)
    → class_of c s ≡ Class.other
    → (c ≢ 0)
      × (c ≢ 92)
      × (c ≢ 35)
      × (c ≢ 59)
      × (opens_comment c s ≡ false)
      × (is_quote c ≡ false)
      × (is_letter c ≡ false)
unfolding class_of
class-other c s h = ground arith

pub Class-cases :
    (k : Class)
    → (k ≡ Class.refused)
      ⊎ (k ≡ Class.semicolon)
      ⊎ (k ≡ Class.quote)
      ⊎ (k ≡ Class.letter)
      ⊎ (k ≡ Class.other)
Class-cases k = ground arith

-- Every text that the loop accepts follows the grammar, and the words found are those of the text.
pub tokens-Lexed :
    (f : ℕ) (s : Text) (found out : List Text)
    → tokens f s found ≡ ok out
    → (ts : List Text) × (out ≡ found ++ ts) × Lexed s ts
unfolding tokens
tokens-Lexed zero s found out h = cc
tokens-Lexed (suc f) [] found out h = ([], ground (arith, append-nil found), done)
tokens-Lexed (suc f) (c ∷ s) found out h = elim (Class-cases (class_of c s)) [
  | inl k ↦ cc
  | inr (inl k) ↦
      let blank : is_blank s ≡ true = ground arith in
      ([], ground (arith, append-nil found), ending (class-semicolon c s k) blank)
  | inr (inr (inl k)) ↦ elim (Result-cases (skip_quoted c s)) [
    | inr (e, q) ↦ cc
    | inl (r, q) ↦
        let (ts, o, l) = tokens-Lexed f r found out (ground arith) in
        let opened = class-quote c s k in
        (ts, o, quoted opened (skip_quoted-Quoted c s r opened q) l)
  ]
  | inr (inr (inr (inl k))) ↦
      let t = take_word (c ∷ s) in
      let (ts, o, l) = tokens-Lexed f t.1 (found ++ to_upper t.0 ∷ []) out (ground arith) in
      (
        to_upper t.0 ∷ ts,
        o ∙ append_assoc found (to_upper t.0 ∷ []) ts,
        word (class-letter c s k) (take_word-Word (c ∷ s)) l,
      )
  | inr (inr (inr (inr k))) ↦
      let (ts, o, l) = tokens-Lexed f s found out (ground arith) in
      let (a, b, d, e, g, i, j) = class-other c s k in (ts, o, passed a b d e g i j l)
]
