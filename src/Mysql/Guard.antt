-- ===== src/Mysql/Guard.antt =====
-- internal/database/mysql/mysql.go: `validateQuery`. An index into the query is what is left of it.
-- The loop takes fuel; one more than the length of the query is enough (`validate_query_total`).
mod Examples
pub mod Lexing
pub mod Decides
use relvo.Base.{
  text_eq, is_blank, ℕ, zero, suc, ◌≡◌, refl, Bool, false, ◌&&◌, ◌||◌, List, [], ◌∷◌, ◌++◌, ltb,
  leb, ◌==◌, if◌then◌else◌, Result, ok, err, ◌>>=◌, length, any, Text, bytes, to_upper,
}

-- The errors of `validateQuery`; the last one stands for a loop that ran out of fuel.
pub data QueryError : Type 0 where
  too_large comment_or_escape several quoted_escape unterminated empty not_read : QueryError
  forbidden : Text → QueryError
  out_of_fuel : QueryError

abbrev pub is_letter : ℕ → Bool
is_letter c = (leb 97 c && leb c 122) || (leb 65 c && leb c 90) || (c == 95)

abbrev pub is_word : ℕ → Bool
is_word c = is_letter c || (leb 48 c && leb c 57)

abbrev pub is_quote : ℕ → Bool
is_quote c = (c == 39) || (c == 34) || (c == 96)

-- Does a comment begin with `c`, before `s`?
abbrev pub opens_comment : ℕ → Text → Bool
opens_comment c [] = false
opens_comment c (d ∷ s) = ((c == 47) && (d == 42)) || ((c == 45) && (d == 45))

-- The branches of the loop.
pub data Class : Type 0 where
  refused semicolon quote letter other : Class

pub class_of : ℕ → Text → Class
class_of c s =
    if (c == 0) || (c == 92) || (c == 35) || opens_comment c s
    then Class.refused
    else if c == 59
    then Class.semicolon
    else if is_quote c
    then Class.quote
    else if is_letter c
    then Class.letter
    else Class.other

-- What follows the closing quote.
pub skip_quoted : ℕ → Text → Result QueryError Text
skip_quoted q [] = err unterminated
skip_quoted q (c ∷ []) =
    if (c == 92) || (c == 0) then err quoted_escape else if c == q then ok [] else err unterminated
skip_quoted q (c ∷ d ∷ s) =
    let more = skip_quoted q (d ∷ s) in
    let doubled = skip_quoted q s in
    if (c == 92) || (c == 0)
    then err quoted_escape
    else if c == q
    then (if d == q then doubled else ok (d ∷ s))
    else more

-- A word and what follows it.
pub take_word : Text → Text × Text
take_word [] = ([], [])
take_word (c ∷ s) = let (w, r) = take_word s in if is_word c then (c ∷ w, r) else ([], c ∷ s)

pub tokens : ℕ → Text → List Text → Result QueryError (List Text)
tokens zero s found = err out_of_fuel
tokens (suc f) [] found = ok found
tokens (suc f) (c ∷ s) found = elim (class_of c s) [
  | Class.refused ↦ err comment_or_escape
  | Class.semicolon ↦ if is_blank s then ok found else err several
  | Class.quote ↦ skip_quoted c s >>= λ r. tokens f r found
  | Class.letter ↦ let t = take_word (c ∷ s) in tokens f t.1 (found ++ to_upper t.0 ∷ [])
  | Class.other ↦ tokens f s found
]

abbrev pub is_one_of : List Text → Text → Bool
is_one_of ws t = any (λ w. text_eq w t) ws

abbrev pub read_words : List Text
read_words =
    bytes "SELECT"
    ∷ bytes "WITH"
    ∷ bytes "SHOW"
    ∷ bytes "DESCRIBE"
    ∷ bytes "DESC"
    ∷ bytes "EXPLAIN"
    ∷ []

abbrev pub forbidden_words : List Text
forbidden_words =
    bytes "INSERT"
    ∷ bytes "UPDATE"
    ∷ bytes "DELETE"
    ∷ bytes "REPLACE"
    ∷ bytes "CREATE"
    ∷ bytes "ALTER"
    ∷ bytes "DROP"
    ∷ bytes "TRUNCATE"
    ∷ bytes "CALL"
    ∷ bytes "DO"
    ∷ bytes "SET"
    ∷ bytes "COMMIT"
    ∷ bytes "ROLLBACK"
    ∷ bytes "START"
    ∷ bytes "BEGIN"
    ∷ bytes "GRANT"
    ∷ bytes "REVOKE"
    ∷ bytes "INTO"
    ∷ bytes "LOAD"
    ∷ bytes "LOCK"
    ∷ bytes "UNLOCK"
    ∷ bytes "FLUSH"
    ∷ bytes "RESET"
    ∷ bytes "RENAME"
    ∷ bytes "ANALYZE"
    ∷ bytes "OPTIMIZE"
    ∷ bytes "REPAIR"
    ∷ []

pub no_forbidden : List Text → Result QueryError (Unit {0})
no_forbidden [] = ok tt
no_forbidden (t ∷ ts) = if is_one_of forbidden_words t then err (forbidden t) else no_forbidden ts

pub check_words : List Text → Result QueryError (Unit {0})
unfolding no_forbidden
check_words [] = err empty
check_words (t ∷ ts) = if is_one_of read_words t then no_forbidden (t ∷ ts) else err not_read

abbrev pub max_result_bytes : ℕ
max_result_bytes = 8388608

pub validate_query : Text → Result QueryError (Unit {0})
validate_query query =
    if ltb max_result_bytes (length query)
    then err too_large
    else (tokens (suc (length query)) query [] >>= check_words)
