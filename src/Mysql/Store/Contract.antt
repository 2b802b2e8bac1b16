-- ===== src/Mysql/Store/Contract.antt =====
-- What `Browse` and `Query` of the store promise of the size of a result.
use relvo.Base.{inl, inr, arith, Option-cases, Result-cases, Text, pos_part}
use relvo.Data.{BrowseRequest}
use relvo.Mysql.Rows.{collect}
use relvo.Mysql.Rows.Bounds.{IsBounded, collect-IsBounded}
use relvo.Mysql.Guard.{validate_query}
use relvo.Mysql.Statement.{browse_sql}
use relvo.Mysql.Catalog.{mysql_schema}
use relvo.Mysql.Store.{Server, mysql_browse, max_rows, mysql_query}

-- A page has at most the rows that were asked for and at most 8 MiB of text, and says that there is
-- more only if it is full, also next to an error.
pub mysql_browse-IsBounded :
    (s : Server) (schema : Text) (req : BrowseRequest)
    → IsBounded (pos_part req.limit) (mysql_browse s schema req).0
unfolding mysql_browse
mysql_browse-IsBounded s schema req =
    elim (Option-cases (mysql_schema s.metadata schema req.table).1) [
      | inr (e, m) ↦ ground arith
      | inl m ↦
          elim (Result-cases (browse_sql schema req (mysql_schema s.metadata schema req.table).0)) [
            | inr (e, b) ↦ ground arith
            | inl (st, b) ↦ elim (Result-cases (s.select_rows st.sql st.arguments)) [
              | inr (e, q) ↦ ground arith
              | inl (rows, q) ↦
                  let c = collect-IsBounded rows (pos_part req.limit) in
                  elim (Option-cases (collect rows (pos_part req.limit)).1) [
                    | inr (e, f) ↦ ground arith
                    | inl f ↦ ground (arith, c)
                  ]
            ]
          ]
    ]

-- A result of `Query` has at most 1000 rows and at most 8 MiB of text, also next to an error.
pub mysql_query-IsBounded : (s : Server) (sql : Text) → IsBounded max_rows (mysql_query s sql).1.0
unfolding mysql_query
mysql_query-IsBounded s sql = elim (Result-cases (validate_query sql)) [
  | inr (e, v) ↦ ground arith
  | inl (u, v) ↦ elim (Result-cases (s.query_rows sql)) [
    | inr (e, q) ↦ ground arith
    | inl (rows, q) ↦ ground (arith, collect-IsBounded rows max_rows)
  ]
]
