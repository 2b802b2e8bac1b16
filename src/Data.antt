-- ===== src/Data.antt =====
-- internal/database/database.go and internal/app/types.go: the data that the packages exchange. A
-- Go string is its bytes, an `int` an integer, a nil pointer or map `none` or the empty list, and a
-- time a number of nanoseconds.
use relvo.Base.{text_eq, ℕ, Bool, false, Option, List, [], if◌then◌else◌, Text, bytes, ℤ, pos}

pub record Config : Type 0 where
  pub name : Text
  pub host : Text
  pub port : Text
  pub user : Text
  pub password : Text
  pub database : Text
  pub socket : Text
  pub tls : Text

pub record Table : Type 0 where
  pub name : Text
  pub kind : Text

pub record Column : Type 0 where
  pub name : Text
  pub type : Text
  pub nullable : Bool
  pub default : Option Text
  pub key : Text
  pub extra : Text

pub record Index : Type 0 where
  pub name : Text
  pub columns : List Text
  pub unique : Bool

pub record ForeignKey : Type 0 where
  pub database : Text
  pub name : Text
  pub column : Text
  pub table : Text
  pub target : Text

pub record Schema : Type 0 where
  pub columns : List Column
  pub indexes : List Index
  pub foreign_keys : List ForeignKey

pub record Value : Type 0 where
  pub truncated : Bool
  pub text : Text
  pub null : Bool
  pub binary : Bool

pub record Filter : Type 0 where
  pub column : Text
  pub op : Text
  pub value : Text

pub record BrowseRequest : Type 0 where
  pub table : Text
  pub filters : List Filter
  pub sort : Text
  pub desc : Bool
  pub limit : ℤ
  pub offset : ℤ

-- `database.Result`
pub record ResultSet : Type 0 where
  pub columns : List Text
  pub rows : List (List Value)
  pub has_more : Bool
  pub affected : ℤ
  pub notice : Text

pub record Endpoint : Type 0 where
  pub host : Text
  pub port : Text

pub record Profile : Type 0 where
  pub name : Text
  pub env_file : Text
  pub mapping : List (Text × Text)
  pub config : Config
  pub password_env : Text
  pub endpoint : Option Endpoint

pub record Action : Type 0 where
  pub type : Text
  pub connection : Text
  pub table : Text
  pub filters : List Filter
  pub sort : Text
  pub desc : Bool
  pub page_size : ℤ
  pub sql : Text

pub record PendingWrite : Type 0 where
  pub id : Text
  pub connection : Text
  pub database : Text
  pub sql : Text
  pub expires : ℕ

pub record Snapshot : Type 0 where
  pub revision : ℕ  -- uint64
  pub connection : Text
  pub database : Text
  pub connections : List Text
  pub tables : List Table
  pub schema : Schema
  pub browse : BrowseRequest
  pub result : ResultSet
  pub busy : Bool
  pub error : Text
  pub status : Text
  pub query : Bool
  pub pending : Option PendingWrite
  pub writes_enabled : Bool

-- The zero values of Go.
abbrev pub no_schema : Schema
no_schema = record { columns = []; indexes = []; foreign_keys = [] }

abbrev pub no_result : ResultSet
no_result = record { columns = []; rows = []; has_more = false; affected = pos 0; notice = [] }

-- `database.BrowseRequest{Limit: limit}`
abbrev pub fresh_browse : ℤ → BrowseRequest
fresh_browse l = record {
  table = [];
  filters = [];
  sort = [];
  desc = false;
  limit = l;
  offset = pos 0;
}

-- The strings that `Action.Type` is compared with. Any other string is `unknown`.
pub data Kind : Type 0 where
  state cancel connect test open_table filter clear_filters sort page_size next prev refresh : Kind
  query write : Kind
  unknown : Text → Kind

unfoldable pub kind_of : Text → Kind
kind_of t =
    if text_eq t (bytes "state")
    then Kind.state
    else if text_eq t (bytes "cancel")
    then Kind.cancel
    else if text_eq t (bytes "connect")
    then Kind.connect
    else if text_eq t (bytes "test")
    then Kind.test
    else if text_eq t (bytes "open-table")
    then Kind.open_table
    else if text_eq t (bytes "filter")
    then Kind.filter
    else if text_eq t (bytes "clear-filters")
    then Kind.clear_filters
    else if text_eq t (bytes "sort")
    then Kind.sort
    else if text_eq t (bytes "page-size")
    then Kind.page_size
    else if text_eq t (bytes "next")
    then Kind.next
    else if text_eq t (bytes "prev")
    then Kind.prev
    else if text_eq t (bytes "refresh")
    then Kind.refresh
    else if text_eq t (bytes "query")
    then Kind.query
    else if text_eq t (bytes "write")
    then Kind.write
    else Kind.unknown t
