-- ===== src/Mysql/Store.antt =====
-- internal/database/mysql/mysql.go: `Open`, `Browse`, `Query` and `Execute`. What the server and the
-- driver answer is the argument `Server`; the events are what is asked of them, the first one first.
-- Timeouts are answers like any other, and the deferred calls run at the end of each path.
mod Examples
pub mod Sessions
pub mod Contract
use relvo.Base.{
  is_blank, trim_space, ℕ, Bool, ◌||◌, Option, none, some, List, [], ◌∷◌, ◌++◌, ltb, if◌then◌else◌,
  Result, err, ok, length, Text, bytes, ℤ, pos_part,
}
use relvo.Data.{Config, BrowseRequest, ResultSet, no_result}
use relvo.Mysql.Guard.{
  QueryError, too_large, comment_or_escape, several, quoted_escape, unterminated, empty, not_read,
  forbidden, out_of_fuel, max_result_bytes, validate_query,
}
use relvo.Mysql.Statement.{Argument, browse_sql}
use relvo.Mysql.Rows.{Rows, collect}
use relvo.Mysql.Settings.{Settings, connection_config}
use relvo.Mysql.Catalog.{Metadata, mysql_schema}

-- The calls of database/sql: on the pool, and on a connection of its own.
pub data DbEvent : Type 0 where
  pinged pool_closed : DbEvent
  acquired begun_read_only rolled_back discarded released : DbEvent
  selected executed_raw : Text → DbEvent

pub record Server : Type 0 where
  pub metadata : Metadata
  pub connector_error : Settings → Option Text
  pub ping_error : Option Text
  pub select_rows : Text → List Argument → Result Text Rows
  pub conn_error : Option Text
  pub begin_error : Option Text
  pub query_rows : Text → Result Text Rows
  pub exec : Text → Result Text (ℤ × Option Text)

-- What a method returns, after these events.
abbrev pub Answer : Type 0 → Type 0
Answer A = List DbEvent × A

-- `Open`; the store is its schema.
pub mysql_open : (Text → Bool) → Server → Config → Answer (Result Text Text)
mysql_open is_ip s cfg = elim (connection_config is_ip cfg) [
  | err e ↦ ([], err e)
  | ok settings ↦ elim (s.connector_error settings) [
    | some e ↦ ([], err e)
    | none ↦ elim s.ping_error [
      | some e ↦ (pinged ∷ pool_closed ∷ [], err (bytes "mysql connect: " ++ e))
      | none ↦ (pinged ∷ [], ok cfg.database)
    ]
  ]
]

-- `Browse`; the queries of `Schema` are no events here.
pub mysql_browse : Server → Text → BrowseRequest → ResultSet × Option Text
mysql_browse s schema req =
    let (meta, error) = mysql_schema s.metadata schema req.table in
    elim error [
      | some e ↦ (no_result, some e)
      | none ↦ elim (browse_sql schema req meta) [
        | err e ↦ (no_result, some e)
        | ok statement ↦ elim (s.select_rows statement.sql statement.arguments) [
          | err e ↦ (no_result, some e)
          | ok rows ↦
              let (result, failure) = collect rows (pos_part req.limit) in
              elim failure [
                | some e ↦ (no_result, some e)
                | none ↦ (
                  record result { notice = trim_space (statement.notice ++ b' ' ∷ result.notice) },
                  none,
                )
              ]
        ]
      ]
    ]

-- The texts of the errors of `validateQuery`.
pub query_error_text : QueryError → Text
query_error_text too_large = bytes "SQL too large"
query_error_text comment_or_escape =
    bytes "Query does not support comments, NUL, or backslash escapes"
query_error_text several = bytes "multiple statements are not supported"
query_error_text quoted_escape = bytes "Query does not support backslash escapes or NUL"
query_error_text unterminated = bytes "unterminated quoted value"
query_error_text empty = bytes "empty query"
query_error_text not_read =
    bytes "Query only supports read statements; use explicitly authorized Execute for writes"
query_error_text (forbidden t) = bytes "Query does not support " ++ t
query_error_text out_of_fuel = []

-- The deferred calls of `Query` and `Execute`: the session is never used again.
abbrev pub give_back : List DbEvent
give_back = discarded ∷ released ∷ []

abbrev pub max_rows : ℕ
max_rows = 1000

-- `Query`
pub mysql_query : Server → Text → Answer (ResultSet × Option Text)
unfolding query_error_text
mysql_query s sql = elim (validate_query sql) [
  | err e ↦ ([], (no_result, some (query_error_text e)))
  | ok u ↦ elim s.conn_error [
    | some e ↦ ([], (no_result, some e))
    | none ↦ elim s.begin_error [
      | some e ↦ (acquired ∷ give_back, (no_result, some e))
      | none ↦ (
        acquired ∷ begun_read_only ∷ selected sql ∷ rolled_back ∷ give_back,
        elim (s.query_rows sql) [ err e ↦ (no_result, some e) | ok rows ↦ collect rows max_rows ],
      )
    ]
  ]
]

-- `Execute`
pub mysql_execute : Server → Text → Answer (ResultSet × Option Text)
mysql_execute s sql =
    if is_blank sql || ltb max_result_bytes (length sql)
    then ([], (no_result, some (bytes "SQL is empty or too large")))
    else elim s.conn_error [
      | some e ↦ ([], (no_result, some e))
      | none ↦ (
        acquired ∷ executed_raw sql ∷ give_back,
        elim (s.exec sql) [
          | err e ↦ (no_result, some e)
          | ok (affected, failure) ↦ (record no_result { affected = affected }, failure)
        ],
      )
    ]
