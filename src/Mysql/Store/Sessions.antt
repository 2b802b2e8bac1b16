-- ===== src/Mysql/Store/Sessions.antt =====
-- Connections of their own are given back on every path, and `Query` sends what was validated, in a
-- transaction that reads.
use relvo.Base.{◌≡◌, refl, inl, inr, List, [], ◌∷◌, Option-cases, ok, Result-cases, Text}
use relvo.Mysql.Guard.{validate_query}
use relvo.Mysql.Store.{
  DbEvent, acquired, begun_read_only, rolled_back, discarded, released, selected, executed_raw,
  Server, mysql_query,
}

-- The states that a protocol of events goes through: no connection, one that is idle, one in a
-- transaction that reads, one that has executed a statement, and one that was discarded.
pub data Phase : Type 0 where
  outside idle reading written spent : Phase

-- What may follow in a phase, under a test of the statements that are read and of those executed.
pub data Obeys (reads writes : Text → Type 0) : Phase → List DbEvent → Type 0 where
  over : Obeys reads writes outside []
  acquire :
      {es : List DbEvent} → Obeys reads writes idle es → Obeys reads writes outside (acquired ∷ es)
  begin_read :
      {es : List DbEvent}
      → Obeys reads writes reading es
      → Obeys reads writes idle (begun_read_only ∷ es)
  read_one :
      {sql : Text} {es : List DbEvent}
      → reads sql
      → Obeys reads writes reading es
      → Obeys reads writes reading (selected sql ∷ es)
  write_one :
      {sql : Text} {es : List DbEvent}
      → writes sql
      → Obeys reads writes written es
      → Obeys reads writes idle (executed_raw sql ∷ es)
  roll_back :
      {es : List DbEvent}
      → Obeys reads writes idle es
      → Obeys reads writes reading (rolled_back ∷ es)
  discard :
      {es : List DbEvent} → Obeys reads writes spent es → Obeys reads writes idle (discarded ∷ es)
  discard_written :
      {es : List DbEvent}
      → Obeys reads writes spent es
      → Obeys reads writes written (discarded ∷ es)
  release :
      {es : List DbEvent} → Obeys reads writes outside es → Obeys reads writes spent (released ∷ es)

abbrev pub Never : Text → Type 0
Never sql = ⊥

-- On every path `Query` executes nothing outside a transaction that reads, sends in it only a
-- statement that `validateQuery` accepts, rolls it back, and discards and releases the connection.
pub mysql_query-Obeys :
    (s : Server) (sql : Text)
    → Obeys (λ t. (t ≡ sql) × (validate_query t ≡ ok tt)) Never outside (mysql_query s sql).0
unfolding mysql_query
mysql_query-Obeys s sql = elim (Result-cases (validate_query sql)) [
  | inr (e, v) ↦ rw (v, mysql_query) over
  | inl (u, v) ↦ elim (Option-cases s.conn_error) [
    | inr (e, c) ↦ rw (v, c, mysql_query) over
    | inl c ↦ elim (Option-cases s.begin_error) [
      | inr (e, b) ↦ rw (v, c, b, mysql_query) (acquire (discard (release over)))
      | inl b ↦
          let accepted : validate_query sql ≡ ok tt = v in
          let sent =
            acquire (begin_read (read_one (refl, accepted) (roll_back (discard (release over))))) in
          rw (v, c, b, mysql_query) sent
    ]
  ]
]
