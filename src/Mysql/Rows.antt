-- ===== src/Mysql/Rows.antt =====
-- internal/database/mysql/mysql.go: `value` and `collect`, from the rows of the driver to a result.
-- The rows are an argument: what `Columns`, `ColumnTypes`, each `Next` with its `Scan`, `Err` and
-- `NextResultSet` answer. A NULL is `none`.
mod Examples
pub mod Bounds
use relvo.Base.{
  text_eq, ℕ, zero, suc, ◌+◌, ◌/◌, ◌%◌, Bool, true, false, not, ◌&&◌, ◌||◌, Option, none, some,
  List, [], ◌∷◌, ◌++◌, ltb, leb, ◌==◌, if◌then◌else◌, Result, err, ok, length, take, any, Text,
  bytes, to_upper,
}
use relvo.Data.{Value, ResultSet, no_result}
use relvo.Mysql.Statement.{text, max_value_bytes}
use relvo.Mysql.Guard.{max_result_bytes}

-- After a first byte of UTF-8: the bytes that must follow, and the range of the next one.
lead : ℕ → Option (ℕ × ℕ × ℕ)
lead c =
    if leb 194 c && leb c 223
    then some (1, 128, 191)
    else if c == 224
    then some (2, 160, 191)
    else if c == 237
    then some (2, 128, 159)
    else if leb 225 c && leb c 239
    then some (2, 128, 191)
    else if c == 240
    then some (3, 144, 191)
    else if leb 241 c && leb c 243
    then some (3, 128, 191)
    else if c == 244
    then some (3, 128, 143)
    else none

valid_from : ℕ → ℕ → ℕ → Text → Bool
valid_from n lo hi [] = n == 0
valid_from zero lo hi (c ∷ s) =
    if ltb c 128
    then valid_from zero 0 0 s
    else elim (lead c) [ none ↦ false | some (n, a, b) ↦ valid_from n a b s ]
valid_from (suc n) lo hi (c ∷ s) = (leb lo c && leb c hi) && valid_from n 128 191 s

-- `utf8.Valid`
pub is_valid : Text → Bool
unfolding valid_from lead
is_valid s = valid_from 0 0 0 s

-- The loop that shortens a text, of `n` bytes, to one that is valid.
shorten : ℕ → Text → Text
shorten zero s = []
shorten (suc n) s = let rest = shorten n (take n s) in if is_valid s then s else rest

hex_digit : ℕ → ℕ
hex_digit n = if ltb n 10 then 48 + n else 87 + n

hex : Text → Text
unfolding hex_digit
hex [] = []
hex (c ∷ s) = hex_digit (c / 16) ∷ hex_digit (c % 16) ∷ hex s

pub is_binary_type : Text → Bool
is_binary_type t =
    any (λ b. text_eq b (to_upper t))
      (bytes "BINARY"
        ∷ bytes "VARBINARY"
        ∷ bytes "TINYBLOB"
        ∷ bytes "BLOB"
        ∷ bytes "MEDIUMBLOB"
        ∷ bytes "LONGBLOB"
        ∷ bytes "BIT"
        ∷ bytes "GEOMETRY"
        ∷ [])

-- The bytes that are kept of a value.
pub cut : Bool → Text → Text
unfolding shorten is_valid
cut binary b =
    if ltb max_value_bytes (length b)
    then (if binary
        then take max_value_bytes b
        else shorten max_value_bytes (take max_value_bytes b))
    else b

pub value : Option Text → Text → Value × Bool
value none typ = (record { truncated = false; text = []; null = true; binary = false }, false)
value (some b) typ =
    let binary = is_binary_type typ || not (is_valid b) in
    let truncated = ltb max_value_bytes (length b) in
    let kept = cut binary b in
    (
      record {
        truncated = truncated;
        text = if binary then b'0' ∷ b'x' ∷ hex kept else kept;
        null = false;
        binary = binary;
      },
      truncated,
    )

pub record Rows : Type 0 where
  pub columns : Result Text (List Text)
  pub types : Result Text (List Text)
  pub scans : List (Result Text (List (Option Text)))
  pub error : Option Text
  pub more_results : Bool
  pub last_error : Option Text

abbrev pub max_columns : ℕ
max_columns = 1024

abbrev truncation_notice : Text
truncation_notice = bytes "Values truncated to 64 KiB of source bytes."

abbrev too_big : Text
too_big = bytes "result exceeds 8 MiB; reduce page size or select fewer/smaller values"

-- The loop over the values of a row: the values, whether one was truncated, and the total so far;
-- `none` if the total passes the limit.
pub row_values : ℕ → List (Option Text) → List Text → Option (List Value × Bool × ℕ)
row_values total (b ∷ bs) (t ∷ ts) =
    let (v, truncated) = value b t in
    let sum = total + length v.text in
    let rest = row_values sum bs ts in
    if ltb max_result_bytes sum then none else elim rest [
      | none ↦ none
      | some (vs, cut_any, all) ↦ some (v ∷ vs, truncated || cut_any, all)
    ]
row_values total _ _ = some ([], false, total)

-- What the loop over the rows ends with: a result and an error, as the function returns them, or
-- the rows all read.
pub data Loop : Type 0 where
  returned : ResultSet → Option Text → Loop
  ended : ResultSet → Loop

pub read_rows : ℕ → List Text → ℕ → ℕ → ResultSet → List (Result Text (List (Option Text))) → Loop
read_rows limit types total count r [] = ended r
read_rows limit types total count r (scan ∷ scans) =
    if count == limit then returned (record r { has_more = true }) none else elim scan [
      | err e ↦ returned r (some e)
      | ok raw ↦ elim (row_values total raw types) [
        | none ↦ returned no_result (some too_big)
        | some (vs, cut_any, sum) ↦
            read_rows limit types sum (count + 1)
              (record r {
                rows = r.rows ++ vs ∷ [];
                notice = if cut_any then truncation_notice else r.notice;
              })
              scans
      ]
    ]

pub finish_rows : Rows → Loop → ResultSet × Option Text
finish_rows rows (returned r e) = (r, e)
finish_rows rows (ended r) = elim rows.error [
  | some e ↦ (r, some e)
  | none ↦
      if rows.more_results
      then (no_result, some (bytes "multiple result sets are not supported"))
      else (r, rows.last_error)
]

-- `collect`
pub collect : Rows → ℕ → ResultSet × Option Text
collect rows limit = elim rows.columns [
  | err e ↦ (no_result, some e)
  | ok columns ↦
      let r = record no_result { columns = columns } in
      if ltb max_columns (length columns)
      then (r, some (bytes "too many result columns"))
      else elim rows.types [
        | err e ↦ (r, some e)
        | ok types ↦ finish_rows rows (read_rows limit types 0 0 r rows.scans)
      ]
]
