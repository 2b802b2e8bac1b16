-- ===== src/Control/Serve/Examples.antt =====
-- A line that asks for the state.
use relvo.Base.{
  text_eq, trim_space, ℕ, suc, ◌≡◌, refl, ◌⊎◌, true, false, Option, none, some, [], ◌∷◌, Text,
  bytes, pos,
}
use relvo.Data.{Snapshot, no_schema, no_result, fresh_browse}
use relvo.Control.Serve.{
  Request, Json, ReadError, Demand, valid_id, action_of, perform_demand, serve,
}
use relvo.Control.Serve.Answers.{Reached, serve_reaches, renamed, serve-renamed}

abbrev snapshot_request : Request
snapshot_request = record {
  version = bytes "2.0";
  id = b'1' ∷ [];
  method = bytes "state";
  params = [];
}

abbrev json : Json
json = record {
  is_json = λ t. true;
  decode_request = λ t. some snapshot_request;
  decode_action = λ t. none;
  is_scalar = λ t. true;
}

abbrev shown : Snapshot
shown = record {
  revision = 3;
  connection = [];
  database = [];
  connections = [];
  tables = [];
  schema = no_schema;
  browse = fresh_browse (pos 100);
  result = no_result;
  busy = false;
  error = [];
  status = [];
  query = false;
  pending = none;
  writes_enabled = false;
}

-- An application that fails with a text of its own.
abbrev failing : Demand → ℕ → (Snapshot × Option Text) × ℕ
failing d n = ((shown, some (bytes "dial tcp 10.0.0.7: refused")), suc n)

-- An application that counts what it is asked.
abbrev counter : Demand → ℕ → (Snapshot × Option Text) × ℕ
counter d n = ((shown, none), suc n)

abbrev line : Text
line = bytes "{}"

serve_test : (serve json counter line ReadError.none_read 0).1 ≡ 1
unfolding serve text_eq valid_id action_of trim_space perform_demand
serve_test = refl

serve_reaches_example :
    let t = (serve json counter line ReadError.none_read 0).1 in (t ≡ 0) ⊎ Reached counter line 0 t
serve_reaches_example = serve_reaches json counter line ReadError.none_read 0

serve-renamed_example :
    serve json
      (renamed (λ e. bytes "other") (λ r. record r { revision = 9 }) failing)
      line
      ReadError.none_read
      0
    ≡ serve json failing line ReadError.none_read 0
serve-renamed_example =
    serve-renamed (λ e. bytes "other") (λ r. record r { revision = 9 }) json failing line
      ReadError.none_read 0
