-- ===== src/Stores.antt =====
-- cmd/relvo/main.go: the stores that `run` gives the session, here those of MySQL. Which server
-- answers, when, and how stores are named is the argument `Pool`.
mod Examples
use relvo.Base.{
  ℕ, ◌≤◌, ◌≡◌, subst, Bool, Option, none, some, List, Result, err, ok, length, Text, pos_part,
}
use relvo.Data.{Config, ResultSet, Profile}
use relvo.App.State.{Trace, World, App, new}
use relvo.App.Perform.Small.{most_rows, Contract, Small}
use relvo.App.Session.History.{Call, run}
use relvo.App.Session.History.Small.{run-Small}
use relvo.Mysql.Catalog.{mysql_tables, mysql_schema}
use relvo.Mysql.Store.{Server, mysql_open, mysql_browse, mysql_query, mysql_execute}
use relvo.Mysql.Store.Contract.{mysql_browse-IsBounded, mysql_query-IsBounded}

-- The server that a configuration reaches, the name of a store that is opened, and of a store the
-- server and the schema.
pub record Pool : Type 0 where
  pub is_ip : Text → Bool
  pub reach : Trace → Config → Server
  pub name : Trace → ℕ
  pub server : Trace → ℕ → Server
  pub database : ℕ → Text

-- A value with Go's `error`, which callers test first.
abbrev answer_of : {A : Type 0} → A × Option Text → Result Text A
answer_of (a, none) = ok a
answer_of (a, some e) = err e

-- The open function of `run` without `--demo`, and the methods of the stores that it opens.
pub mysql_world : Pool → World → World
mysql_world p w = record w {
  open_store = λ t cfg. elim (mysql_open p.is_ip (p.reach t cfg) cfg).1 [
    | err e ↦ err e
    | ok schema ↦ ok (p.name t)
  ];
  tables = λ t h. answer_of (mysql_tables (p.server t h).metadata (p.database h));
  schema = λ t h n. answer_of (mysql_schema (p.server t h).metadata (p.database h) n);
  browse = λ t h req. answer_of (mysql_browse (p.server t h) (p.database h) req);
  query = λ t h sql. answer_of (mysql_query (p.server t h) sql).1;
  execute = λ t h sql. answer_of (mysql_execute (p.server t h) sql).1;
}

answer_of-ok : (x : ResultSet × Option Text) (r : ResultSet) → answer_of x ≡ ok r → x.0 ≡ r
answer_of-ok (a, none) r e = cc
answer_of-ok (a, some x) r e = cc

mysql_world-Contract : (p : Pool) (w : World) → Contract (mysql_world p w)
unfolding mysql_world
mysql_world-Contract p w = record {
  browse_small = λ t h req r e.
      subst (λ x. length x.rows ≤ pos_part req.limit)
        (answer_of-ok (mysql_browse (p.server t h) (p.database h) req) r e)
        (mysql_browse-IsBounded (p.server t h) (p.database h) req).few;
  query_small = λ t h sql r e.
      subst (λ x. length x.rows ≤ most_rows) (answer_of-ok (mysql_query (p.server t h) sql).1 r e)
        (mysql_query-IsBounded (p.server t h) sql).few;
}

-- Over stores of MySQL, whatever servers and drivers answer, after any history of calls, one after the
-- other, on a new object, the result that the session shows has at most 1000 rows.
pub mysql_world-Small :
    (p : Pool) (w : World) (allow : Bool) (ps : List Profile) (a : App) (cs : List Call)
    → new allow ps ≡ ok a
    → Small (run (mysql_world p w) a cs).state
mysql_world-Small p w allow ps a cs e =
    run-Small (mysql_world p w) (mysql_world-Contract p w) allow ps a cs e
