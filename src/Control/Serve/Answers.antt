-- ===== src/Control/Serve/Answers.antt =====
-- What a request can reach, and what its answer can tell.
use relvo.Base.{
  text_eq, ◌≤◌, ◌≡◌, ◌≢◌, ◌⊎◌, inl, inr, Bool, true, ◌||◌, Option, none, some, arith, Bool-cases,
  Option-cases, ok, Result-cases, length, Text, bytes,
}
use relvo.Data.{Action, Snapshot, Kind, kind_of}
use relvo.Control.Validate.{validate_action}
use relvo.Control.Serve.{
  Request, Json, ReadError, Demand, max_input, empty_action, action_of, demand_of, perform_demand,
  serve,
}

-- `serve` asked nothing of the application, or put one demand to it, that of a valid action.
pub record Reached {S : Type 0} (app : Demand → S → (Snapshot × Option Text) × S) (line : Text)
    (s t : S) : Type 0 where
  pub action : Action
  pub valid : validate_action action ≡ none
  pub not_test : kind_of action.type ≢ Kind.test
  pub demanded : t ≡ (app (demand_of action) s).1
  pub short : length line ≤ max_input

abbrev is_plain : Request → Bool
is_plain req = text_eq req.method (bytes "state") || text_eq req.method (bytes "cancel")

plain-valid :
    (req : Request) → is_plain req ≡ true → validate_action (empty_action req.method) ≡ none
unfolding validate_action empty_action kind_of
plain-valid req h = ground arith

action_of-valid :
    (j : Json) (req : Request) (a : Action) → action_of j req ≡ ok a → validate_action a ≡ none
unfolding action_of
action_of-valid j req a h = elim (Bool-cases (is_plain req)) [
  | inl p ↦ ground (arith, plain-valid req p)
  | inr p ↦ elim (Option-cases (j.decode_action req.params)) [
    | inl e ↦ absurd (ground arith)
    | inr (b, e) ↦ ground arith
  ]
]

valid-not_test : (a : Action) → validate_action a ≡ none → kind_of a.type ≢ Kind.test
unfolding validate_action
valid-not_test a h k = ground arith

-- Every line, however it was read and decoded, leads to at most one demand, and that is the demand
-- of an action that passed the validation, from a line of at most 1 MiB.
pub serve_reaches :
    {S : Type 0} (j : Json) (app : Demand → S → (Snapshot × Option Text) × S) (line : Text)
    (read : ReadError) (s : S)
    → let t = (serve j app line read s).1 in (t ≡ s) ⊎ Reached app line s t
unfolding serve perform_demand
serve_reaches j app line read s = elim (Option-cases (j.decode_request line)) [
  | inl e ↦ inl (ground arith)
  | inr (req, q) ↦ elim (Result-cases (action_of j req)) [
    | inr (e, v) ↦ inl (ground arith)
    | inl (a, v) ↦ reached a (action_of-valid j req a v) (ground arith)
  ]
]
  where
    reached :
        (a : Action)
        → validate_action a ≡ none
        → ((serve j app line read s).1 ≡ s)
          ⊎ (((serve j app line read s).1 ≡ (app (demand_of a) s).1) × (length line ≤ max_input))
        → ((serve j app line read s).1 ≡ s) ⊎ Reached app line s (serve j app line read s).1
    reached a v (inl e) = inl e
    reached a v (inr (e, b)) =
        inr
          (record { action = a; valid = v; not_test = valid-not_test a v; demanded = e; short = b })

-- The same application, but that what it returns where it fails has another text and snapshot.
abbrev pub renamed :
    {S : Type 0}
    → (Text → Text)
    → (Snapshot → Snapshot)
    → (Demand → S → (Snapshot × Option Text) × S)
    → Demand
    → S
    → (Snapshot × Option Text) × S
renamed f g app d s =
    let (r, t) = app d s in (elim r.1 [ none ↦ (r.0, none) | some e ↦ (g r.0, some (f e)) ], t)

-- No answer, and nothing that is done, depends on the text of an error that the application returns,
-- nor on the snapshot that it returns with an error.
pub serve-renamed :
    {S : Type 0} (f : Text → Text) (g : Snapshot → Snapshot) (j : Json)
    (app : Demand → S → (Snapshot × Option Text) × S) (line : Text) (read : ReadError) (s : S)
    → serve j (renamed f g app) line read s ≡ serve j app line read s
unfolding serve perform_demand
serve-renamed f g j app line read s = ground arith
