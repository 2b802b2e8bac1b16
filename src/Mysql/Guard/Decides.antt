-- ===== src/Mysql/Guard/Decides.antt =====
-- The query guard accepts exactly the queries that the grammar and the lists of words allow.
use mathlib.Core.List.{append-nil, append_assoc}
use relvo.Base.{
  ℕ, zero, suc, ◌+◌, ◌≤◌, ◌<◌, ◌≡◌, refl, ap, ◌∙◌, ◌≢◌, ◌↔◌, inl, inr, true, false, List, [], ◌∷◌,
  ◌++◌, arith, Bool-cases, ok, err, ◌>>=◌, >>=-eq-ok, Result-cases, length, All, Text, to_upper,
}
use relvo.Mysql.Guard.{
  forbidden, out_of_fuel, is_letter, is_quote, opens_comment, Class, class_of, skip_quoted,
  take_word, tokens, is_one_of, read_words, forbidden_words, no_forbidden, check_words,
  max_result_bytes, validate_query,
}
use relvo.Mysql.Guard.Lexing.{
  Quoted, last, closing, doubled, inside, Word, end, stop, more, Lexed, done, ending, quoted, word,
  passed, skip_quoted-Quoted, take_word-Word, class-quote, class-letter, Class-cases, tokens-Lexed,
}

Quoted-skip_quoted :
    {q : ℕ} {s r : Text}
    → q ≢ 92
    → q ≢ 0
    → Quoted q s r
    → (skip_quoted q s ≡ ok r) × (length r < length s)
unfolding skip_quoted
Quoted-skip_quoted a b (last e) = ground arith
Quoted-skip_quoted a b (closing e n) = ground arith
Quoted-skip_quoted a b (doubled e f d) = let h = Quoted-skip_quoted a b d in ground arith
Quoted-skip_quoted a b (inside x y n d) = let h = Quoted-skip_quoted a b d in ground arith

quote_plain : (c : ℕ) → is_quote c ≡ true → (c ≢ 92) × (c ≢ 0)
quote_plain c h = ground arith

Word-take_word :
    {s w r : Text} → Word s w r → (take_word s ≡ (w, r)) × (length r + length w ≡ length s)
unfolding take_word
Word-take_word end = ground arith
Word-take_word (stop e) = ground arith
Word-take_word (more e d) = let h = Word-take_word d in ground arith

class_quote : (c : ℕ) (s : Text) → is_quote c ≡ true → class_of c s ≡ Class.quote
unfolding class_of
class_quote c [] h = ground arith
class_quote c (d ∷ s) h = ground arith

class_letter : (c : ℕ) (s : Text) → is_letter c ≡ true → class_of c s ≡ Class.letter
unfolding class_of
class_letter c [] h = ground arith
class_letter c (d ∷ s) h = ground arith

class_other :
    (c : ℕ) (s : Text)
    → c ≢ 0
    → c ≢ 92
    → c ≢ 35
    → c ≢ 59
    → opens_comment c s ≡ false
    → is_quote c ≡ false
    → is_letter c ≡ false
    → class_of c s ≡ Class.other
unfolding class_of
class_other c s n1 n2 n3 n4 o q l = ground arith

class_semicolon : (s : Text) → class_of 59 s ≡ Class.semicolon
unfolding class_of
class_semicolon [] = refl
class_semicolon (d ∷ s) = refl

-- The rest after a word that begins with a letter is shorter than the text.
Word-shorter :
    {c : ℕ} {s w r : Text} → is_letter c ≡ true → Word (c ∷ s) w r → length r < suc (length s)
Word-shorter k d = let h = Word-take_word d in nonempty k d h.1
  where
    nonempty :
        {c : ℕ} {s w r : Text}
        → is_letter c ≡ true
        → Word (c ∷ s) w r
        → length r + length w ≡ suc (length s)
        → length r < suc (length s)
    nonempty k (stop e) h = absurd (ground arith)
    nonempty k (more e d) h = omega arith

Lexed-tokens :
    (f : ℕ) (found : List Text) {s : Text} {ts : List Text}
    → length s < f
    → Lexed s ts
    → tokens f s found ≡ ok (found ++ ts)
unfolding tokens
Lexed-tokens zero found b l = absurd (omega arith)
Lexed-tokens (suc f) found b done = ground (arith, append-nil found)
Lexed-tokens (suc f) found b (ending {s} e k) =
    rw e (rw (class_semicolon s, tokens) (ground (arith, append-nil found)))
Lexed-tokens (suc f) found b (quoted {c} {s} k q l) =
    let n = quote_plain c k in
    let h = Quoted-skip_quoted n.0 n.1 q in
    rw (class_quote c s k, tokens) (rw (h.0) (Lexed-tokens f found (omega arith) l))
Lexed-tokens (suc f) found b (word {c} {s} {w} {r} {ts} k d l) =
    let h = Word-take_word d in
    let shorter = Word-shorter k d in
    rw (class_letter c s k, tokens)
      (rw (h.0) (
        Lexed-tokens f (found ++ to_upper w ∷ []) (omega arith) l
        ∙ ap ok (append_assoc found (to_upper w ∷ []) ts)))
Lexed-tokens (suc f) found b (passed {c} {s} n1 n2 n3 n4 o q l k) =
    rw (class_other c s n1 n2 n3 n4 o q l, tokens) (Lexed-tokens f found (omega arith) k)

-- The words begin with one that reads, and none is forbidden.
abbrev pub Reads : List Text → Type 0
Reads [] = ⊥
Reads (t ∷ ts) =
    (is_one_of read_words t ≡ true) × All (λ u. is_one_of forbidden_words u ≡ false) (t ∷ ts)

no_forbidden-All :
    (ts : List Text) → no_forbidden ts ≡ ok tt → All (λ u. is_one_of forbidden_words u ≡ false) ts
unfolding no_forbidden
no_forbidden-All [] h = tt
no_forbidden-All (t ∷ ts) h = elim (Bool-cases (is_one_of forbidden_words t)) [
  | inl e ↦ absurd (clash (rw (e, no_forbidden) at h))
  | inr e ↦ (e, no_forbidden-All ts (rw (e, no_forbidden) at h))
]
  where
    clash : {u : Text} → err (forbidden u) ≡ ok tt → ⊥
    clash p = cc

All-no_forbidden :
    (ts : List Text) → All (λ u. is_one_of forbidden_words u ≡ false) ts → no_forbidden ts ≡ ok tt
unfolding no_forbidden
All-no_forbidden [] h = refl
All-no_forbidden (t ∷ ts) h = rw (h.0) (All-no_forbidden ts h.1)

check_words_iff : (ts : List Text) → (check_words ts ≡ ok tt) ↔ Reads ts
unfolding check_words
check_words_iff [] = (λ h. cc, λ h. absurd h)
check_words_iff (t ∷ ts) = elim (Bool-cases (is_one_of read_words t)) [
  | inl e ↦ rw e (λ h. (refl, no_forbidden-All (t ∷ ts) h), λ h. All-no_forbidden (t ∷ ts) h.1)
  | inr e ↦ rw e (λ h. cc, λ h. cc)
]

ok_short :
    (q : Text)
    → validate_query q ≡ ok tt
    → (length q ≤ max_result_bytes) × ((tokens (suc (length q)) q [] >>= check_words) ≡ ok tt)
unfolding validate_query
ok_short q h = ground arith

short_ok :
    (q : Text)
    → length q ≤ max_result_bytes
    → (tokens (suc (length q)) q [] >>= check_words) ≡ ok tt
    → validate_query q ≡ ok tt
unfolding validate_query
short_ok q b h = ground arith

-- A query is accepted exactly if it is at most 8 MiB long, its text follows the grammar, and its
-- words outside quotes begin with one that reads and hold none of the forbidden ones.
pub validate_query_iff :
    (q : Text)
    → (validate_query q ≡ ok tt)
      ↔ ((length q ≤ max_result_bytes) × ((ts : List Text) × Lexed q ts × Reads ts))
validate_query_iff q = (accepted, allowed)
  where
    accepted :
        validate_query q ≡ ok tt
        → (length q ≤ max_result_bytes) × ((ts : List Text) × Lexed q ts × Reads ts)
    accepted h =
        let long = ok_short q h in
        let (ts, e, c) = >>=-eq-ok (tokens (suc (length q)) q []) check_words long.1 in
        let (us, o, l) = tokens-Lexed (suc (length q)) q [] ts e in
        (long.0, (us, l, (check_words_iff us).0 (rw o at c)))

    allowed :
        (length q ≤ max_result_bytes) × ((ts : List Text) × Lexed q ts × Reads ts)
        → validate_query q ≡ ok tt
    allowed (b, (ts, l, r)) =
        short_ok q b
          (rw (Lexed-tokens (suc (length q)) [] (omega arith) l) ((check_words_iff ts).1 r))

skip_quoted_fueled : (q : ℕ) (s : Text) → skip_quoted q s ≢ err out_of_fuel
unfolding skip_quoted
skip_quoted_fueled q [] h = cc
skip_quoted_fueled q (c ∷ []) h = ground arith
skip_quoted_fueled q (c ∷ d ∷ s) h =
    ground (arith, skip_quoted_fueled q (d ∷ s), skip_quoted_fueled q s)

tokens_fueled :
    (f : ℕ) (s : Text) (found : List Text) → length s < f → tokens f s found ≢ err out_of_fuel
unfolding tokens
tokens_fueled zero s found b h = absurd (omega arith)
tokens_fueled (suc f) [] found b h = cc
tokens_fueled (suc f) (c ∷ s) found b h = elim (Class-cases (class_of c s)) [
  | inl k ↦ cc
  | inr (inl k) ↦ ground arith
  | inr (inr (inl k)) ↦ elim (Result-cases (skip_quoted c s)) [
    | inr (e, q) ↦ skip_quoted_fueled c s (ground arith)
    | inl (r, q) ↦
        let o = class-quote c s k in
        let n = quote_plain c o in
        let shorter = Quoted-skip_quoted n.0 n.1 (skip_quoted-Quoted c s r o q) in
        tokens_fueled f r found (omega arith) (ground arith)
  ]
  | inr (inr (inr (inl k))) ↦
      let t = take_word (c ∷ s) in
      let shorter = Word-shorter (class-letter c s k) (take_word-Word (c ∷ s)) in
      tokens_fueled f t.1 (found ++ to_upper t.0 ∷ []) (omega arith) (ground arith)
  | inr (inr (inr (inr k))) ↦ tokens_fueled f s found (omega arith) (ground arith)
]

no_forbidden_fueled : (us : List Text) → no_forbidden us ≢ err out_of_fuel
unfolding no_forbidden
no_forbidden_fueled [] h = cc
no_forbidden_fueled (u ∷ us) h = ground (arith, no_forbidden_fueled us)

check_words_fueled : (ts : List Text) → check_words ts ≢ err out_of_fuel
unfolding check_words
check_words_fueled [] h = cc
check_words_fueled (t ∷ ts) h = ground (arith, no_forbidden_fueled (t ∷ ts))

-- The fuel given is enough: the loop always ends by itself.
pub validate_query_total : (q : Text) → validate_query q ≢ err out_of_fuel
unfolding validate_query
validate_query_total q h = elim (Result-cases (tokens (suc (length q)) q [])) [
  | inr (e, k) ↦ tokens_fueled (suc (length q)) q [] (omega arith) (ground arith)
  | inl (ts, k) ↦ check_words_fueled ts (ground arith)
]
