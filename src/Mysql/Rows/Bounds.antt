-- ===== src/Mysql/Rows/Bounds.antt =====
-- What a collected result is bounded by.
use relvo.Base.{
  ℕ, ◌+◌, ◌≤◌, ◌≡◌, refl, inl, inr, Bool, true, false, Option, some, List, [], ◌∷◌, ◌++◌, arith,
  if◌then◌else◌, Option-cases, Result, ok, err, Result-cases, length, length-append, Text,
}
use relvo.Data.{Value, ResultSet, no_result}
use relvo.Mysql.Guard.{max_result_bytes}
use relvo.Mysql.Rows.{
  value, Rows, truncation_notice, row_values, Loop, returned, ended, read_rows, finish_rows,
  collect,
}

abbrev text_bytes : List Value → ℕ
text_bytes [] = 0
text_bytes (v ∷ vs) = length v.text + text_bytes vs

abbrev pub result_bytes : List (List Value) → ℕ
result_bytes [] = 0
result_bytes (r ∷ rs) = text_bytes r + result_bytes rs

result_bytes-append :
    (rs : List (List Value)) (r : List Value)
    → result_bytes (rs ++ r ∷ []) ≡ result_bytes rs + text_bytes r
result_bytes-append [] r = omega arith
result_bytes-append (q ∷ rs) r = omega (arith, result_bytes-append rs r)

row_values_total :
    (total : ℕ) (bs : List (Option Text)) (ts : List Text) (vs : List Value) (c : Bool) (sum : ℕ)
    → total ≤ max_result_bytes
    → row_values total bs ts ≡ some (vs, c, sum)
    → (sum ≡ total + text_bytes vs) × (sum ≤ max_result_bytes)
unfolding row_values
row_values_total total [] ts vs c sum b h = ground arith
row_values_total total (x ∷ bs) [] vs c sum b h = ground arith
row_values_total total (x ∷ bs) (t ∷ ts) vs c sum b h =
    let next = total + length (value x t).0.text in
    elim (Option-cases (row_values next bs ts)) [
      | inl e ↦ absurd (ground arith)
      | inr ((us, d, all), e) ↦ ground (arith, row_values_total next bs ts us d all)
    ]

abbrev result_of : Loop → ResultSet
result_of (returned r e) = r
result_of (ended r) = r

pub record IsBounded (limit : ℕ) (r : ResultSet) : Type 0 where
  pub few : length r.rows ≤ limit
  pub small : result_bytes r.rows ≤ max_result_bytes
  pub full : r.has_more ≡ true → length r.rows ≡ limit

read_rows-IsBounded :
    (limit : ℕ) (types : List Text) (total count : ℕ) (r : ResultSet)
    (scans : List (Result Text (List (Option Text))))
    → count ≡ length r.rows
    → count ≤ limit
    → total ≡ result_bytes r.rows
    → total ≤ max_result_bytes
    → r.has_more ≡ false
    → IsBounded limit (result_of (read_rows limit types total count r scans))
unfolding read_rows
read_rows-IsBounded limit types total count r [] c l t m n = ground arith
read_rows-IsBounded limit types total count r (err e ∷ scans) c l t m n = ground arith
read_rows-IsBounded limit types total count r (ok raw ∷ scans) c l t m n =
    elim (Option-cases (row_values total raw types)) [
      | inl e ↦ ground arith
      | inr ((vs, d, sum), e) ↦
          let next = record r {
            rows = r.rows ++ vs ∷ [];
            notice = if d then truncation_notice else r.notice;
          } in
          ground (
            arith,
            row_values_total total raw types vs d sum m e,
            length-append r.rows (vs ∷ []),
            result_bytes-append r.rows vs,
            read_rows-IsBounded limit types sum (count + 1) next scans,
          )
    ]

finish_rows-IsBounded :
    (limit : ℕ) (rows : Rows) (k : Loop)
    → IsBounded limit (result_of k)
    → IsBounded limit (finish_rows rows k).0
unfolding finish_rows
finish_rows-IsBounded limit rows (returned r e) b = b
finish_rows-IsBounded limit rows (ended r) b = ground arith

-- Whatever the driver answers, a result has at most `limit` rows and at most 8 MiB of text, and it
-- says that there is more only if it has exactly `limit` rows.
pub collect-IsBounded : (rows : Rows) (limit : ℕ) → IsBounded limit (collect rows limit).0
unfolding collect
collect-IsBounded rows limit = elim (Result-cases rows.columns) [
  | inr (e, q) ↦ ground arith
  | inl (columns, q) ↦ elim (Result-cases rows.types) [
    | inr (e, p) ↦ ground arith
    | inl (types, p) ↦
        let r = record no_result { columns = columns } in
        let loop = read_rows limit types 0 0 r rows.scans in
        let b =
          read_rows-IsBounded limit types 0 0 r rows.scans refl (omega arith) refl (omega arith)
            refl in
        ground (arith, finish_rows-IsBounded limit rows loop b)
  ]
]
