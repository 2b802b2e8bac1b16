-- ===== src/Control/Serve.antt =====
-- internal/control/server.go: `serve`, from the line that was read to what is done and answered. The
-- decoding of JSON (encoding/json) is the argument `Json`.
mod Examples
pub mod Answers
use relvo.Base.{
  text_eq, ℕ, ◌-◌, Bool, false, not, ◌||◌, Option, none, some, [], ltb, if◌then◌else◌, Result, ok,
  err, length, Text, bytes, is_empty, trim_space, ℤ, pos, negsuc,
}
use relvo.Data.{Action, Snapshot, Kind, kind_of}
use relvo.Control.Validate.{validate_action}

-- `request`: an `id` that is empty is none. `Params` stay text until the method is known.
pub record Request : Type 0 where
  pub version : Text
  pub id : Text
  pub method : Text
  pub params : Text

-- What the package asks of encoding/json.
pub record Json : Type 0 where
  pub is_json : Text → Bool
  pub decode_request : Text → Option Request  -- `strictJSON(line, &req)`
  pub decode_action : Text → Option Action  -- `strictJSON(params, &action)`
  pub is_scalar : Text → Bool  -- null, a string or a number

-- How the line was read: `ReadSlice` with its error.
pub data ReadError : Type 0 where
  none_read eof buffer_full failed : ReadError

pub record RpcError : Type 0 where
  pub code : ℤ
  pub message : Text

pub data Outcome : Type 0 where
  result : Snapshot → Outcome
  error : RpcError → Outcome

-- `response`
pub record Response : Type 0 where
  pub id : Text
  pub outcome : Outcome

-- What is asked of the application.
pub data Demand : Type 0 where
  snapshot cancel_then_snapshot : Demand
  dispatch : Action → Demand

abbrev pub max_input : ℕ
max_input = 1048576

-- Codes are negative: `negsuc n` is -(n + 1).
abbrev failure : ℕ → Text → RpcError
failure n m = record { code = negsuc (n - 1); message = m }

abbrev null_id : Text
null_id = bytes "null"

abbrev refusal : ℕ → Text → Response
refusal n m = record { id = null_id; outcome = error (failure n m) }

-- `validID`
valid_id : Json → Text → Bool
valid_id j id = is_empty id || j.is_scalar id

no_params : Text → Bool
no_params p =
    let t = trim_space p in is_empty t || text_eq t (bytes "{}") || text_eq t (bytes "null")

empty_action : Text → Action
empty_action k = record {
  type = k;
  connection = [];
  table = [];
  filters = [];
  sort = [];
  desc = false;
  page_size = pos 0;
  sql = [];
}

-- The `switch` on the method: the action, or the error of the response.
pub action_of : Json → Request → Result RpcError Action
unfolding no_params empty_action
action_of j req =
    if text_eq req.method (bytes "state") || text_eq req.method (bytes "cancel")
    then (if no_params req.params
        then ok (empty_action req.method)
        else err (failure 32602 (bytes "method takes no params")))
    else if text_eq req.method (bytes "action")
    then elim (j.decode_action req.params) [
      | none ↦ err (failure 32602 (bytes "invalid action params"))
      | some a ↦ elim (validate_action a) [ some e ↦ err (failure 32602 e) | none ↦ ok a ]
    ]
    else err (failure 32601 (bytes "method not found"))

-- The `switch` on the action's type.
pub demand_of : Action → Demand
demand_of a = elim (kind_of a.type) [
  | Kind.state ↦ snapshot
  | Kind.cancel ↦ cancel_then_snapshot
  | _ ↦ dispatch a
]

abbrev action_failed : Text
action_failed = bytes "action failed; inspect the application"

-- A request without an identifier is answered by nothing.
answer : Request → Outcome → Option Response
answer req o = if is_empty req.id then none else some (record { id = req.id; outcome = o })

-- What the application answers to a demand, with its error, and the application after it.
pub perform_demand :
    {S : Type 0}
    → (Demand → S → (Snapshot × Option Text) × S)
    → Request
    → Action
    → S
    → Option Response × S
unfolding answer demand_of
perform_demand app req a s =
    let (r, s') = app (demand_of a) s in
    (answer req (elim r.1 [ some e ↦ error (failure 32000 action_failed) | none ↦ result r.0 ]), s')

-- `serve`
pub serve :
    {S : Type 0}
    → Json
    → (Demand → S → (Snapshot × Option Text) × S)
    → Text
    → ReadError
    → S
    → Option Response × S
serve j app line read s =
    if ltb max_input (length line)
    then (some (refusal 32600 (bytes "request exceeds 1 MiB")), s)
    else elim read [
      | buffer_full ↦ (some (refusal 32600 (bytes "request exceeds 1 MiB")), s)
      | failed ↦ (none, s)
      | _ ↦
          if not (j.is_json line)
          then (some (refusal 32700 (bytes "invalid JSON")), s)
          else elim (j.decode_request line) [
            | none ↦ (some (refusal 32600 (bytes "invalid request")), s)
            | some req ↦
                if not (text_eq req.version (bytes "2.0"))
                  || is_empty req.method
                  || not (valid_id j req.id)
                then (some (refusal 32600 (bytes "invalid request")), s)
                else elim (action_of j req) [
                  | err e ↦ (answer req (error e), s)
                  | ok a ↦ perform_demand app req a s
                ]
          ]
    ]
