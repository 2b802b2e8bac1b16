-- ===== src/Lib.antt =====
-- Relvo, a terminal program that browses MySQL databases and stages writes for approval.
--
-- The program has one application object, which serves one request at a time, and three parts that
-- call it or that it calls: the screen, the control socket and the stores, of which there are two,
-- MySQL and a demo. `cmd/relvo/main.go` makes them.
--
-- Data: the records of `internal/database/database.go` and `internal/app/types.go`, and the kinds
-- of an action. A Go string is the list of its bytes, an `int` an integer, a pointer an option, a
-- time a number of nanoseconds, and `Expires` is zero where the time is the zero time.
--
-- App: `internal/app/app.go`. App/State has the object and its critical sections (`publishLocked`,
-- `Cancel`, `AddProfile`, `New`, `begin`, `finish`, `Close`, `Reject`), App/Perform the body of a
-- request (`perform`, `connectProfile`, `browse`), App/Session the requests (`Dispatch`, `Setup`,
-- `Approve`). Opening and calling a store, the clock, the random text, the files and the
-- environment are the argument `World`: each call is an event of a trace, and each answer is any
-- function of the trace. The lock `op` is a field; a request that finds it held fails as `TryLock`
-- does, and a `Close` that waits is a `Close` that only cancels. A request is one step of
-- App/Session/History; a history does not interleave another call with a request that is under way.
-- `clone` is the identity, since values here are not shared; the text of an error stands for the
-- error.
--
-- Connections: `internal/connections`. Connections/Resolve is `Resolve`, Connections/Add is `Add`
-- under its lock, with what `Save` leaves in the file: all of a profile but its password,
-- Connections/Docker is `parseDocker`. The parsed environment file, the environment, the file
-- system and the decoded JSON are arguments. `Discover`, `readEnv` and `DiscoverDocker` are input
-- and are not modelled. The loop over the map of fields takes one order; each field has a variable
-- of its own, so that the order decides only which error is returned.
--
-- Mysql: `internal/database/mysql/mysql.go`. Mysql/Guard is `validateQuery`, Mysql/Statement
-- `quote` and `browseSQL`, Mysql/Rows `collect` and `value`, Mysql/Settings `connectionConfig`.
-- Mysql/Catalog is `Tables` and `Schema`, Mysql/Store `Open`, `Browse`, `Query` and `Execute`. What
-- `database/sql` and the driver answer is the records `Rows`, `Metadata` and `Server`; the calls on
-- a connection of its own are events. A time that ran out is an answer like any other, and the
-- deferred calls stand at the end of each path. `Close` only calls the pool and is not modelled.
-- Upper case is that of ASCII, which is all that the compared words have.
--
-- Demo: `internal/database/demo/demo.go`. Demo/Outcome is what a method ends with, a panic
-- included, Demo/Compare is `numeric` and `compare`, Demo/Browse `check`, `Tables`, `Schema`,
-- `Query`, `Execute`, `Close` and `Browse`. The numbers of `math/big` are the argument `Rationals`,
-- with the one law that comparing the other way round gives the other sign; a context is what it
-- answers to each question in turn. The stable sort is an insertion sort. What a page means is said
-- without the code: Demo/Browse/Operators and Demo/Browse/Filters for the filters,
-- Demo/Browse/Names for the columns, Demo/Browse/Meaning for the order. Demo/Seed is `Open` with
-- the tables it seeds: the JSON of a user and `Mul` with `FloatString` are arguments, and what is
-- assumed of `SetString` is `Reads`, that it reads what is written in decimal and what
-- `FloatString` prints.
--
-- Control: `internal/control`. Control/Serve is `serve` in `server.go`, from the line that was read
-- to the demand and the answer, with the decoding of JSON as the argument `Json`; Control/Validate
-- is `validateAction`; Control/Command is `parseAction` in `cli.go` with what it uses of the
-- package `flag`. Sockets and directories are not modelled.
--
-- Tui: `internal/tui`. Tui/Viewport is the scrolling of `clamp`, Tui/Columns the columns that are
-- drawn, Tui/Model the state of the screen with `accept`, `dispatch` and the dialogs' opening and
-- closing, Tui/Keys the keys outside dialogs, the keys that approve and the forms' submission,
-- Tui/Follow is `followForeignKey`, Tui/Help and Tui/Panel the rows and the boxes of dialogs,
-- Tui/Dialog and Tui/Dialog/Press are `updateModal`, stage by stage, and Tui/Update is `newModel`,
-- `click` and `Update`. Tui/Update/Enact ties the effects of the screen to the calls of
-- App/Session/History, each of which runs to its end. The drawing is not modelled; the widths, the
-- wrapped lines, the lower case and the format of times that it uses are the argument `Screen`. A
-- text field is the text in it; what it makes of a message depends on its cursor and is the
-- argument `Typing`.
--
-- Entry and Stores: `cmd/relvo/main.go`. Entry has the mappings of the command line, `explicit`,
-- the command `connections` and the profiles that `run` gathers, Stores the stores of MySQL as the
-- `World` of the session. The package flag, signals, the terminal program and the start of the
-- socket are not modelled.
--
-- Base: numbers, integers, bytes and what is used of the package `strings`.
--
-- Fuel: the loop of `validateQuery` has one more than the length of the text, and each round takes
-- at least one byte; `decimal` has one more than the number, and a number has fewer digits than
-- that; `shorten` has the bytes that a value is cut to and drops one a round. All other loops are
-- by recursion on a list, on a number of bytes or on a distance.
pub mod Base
pub mod Data
pub mod Connections
pub mod App
pub mod Mysql
pub mod Demo
pub mod Control
pub mod Tui
pub mod Stores
pub mod Entry
