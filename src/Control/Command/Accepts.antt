-- ===== src/Control/Command/Accepts.antt =====
-- What a command line that is accepted asks.
use relvo.Base.{
  ◌≡◌, refl, ◌≢◌, ◌⊎◌, inl, inr, Bool, true, Option, none, List, [], ◌∷◌, arith, Option-cases,
  Result, ok, >>=-eq-ok, Text, bytes, pos,
}
use relvo.Data.{Filter, Action, Kind, kind_of}
use relvo.Control.Validate.{validate_action}
use relvo.Mysql.Settings.{atoi}
use relvo.Control.Command.{
  parse_flags, flag_value, is_true_text, seen_flags, blank_action, checked, all_flags, one_argument,
  no_argument, parse_sort, parse_sql, filter_action, parse_filter, parse_kind, parse_action,
}

-- A page is asked for at most one row below what is counted, and the action is what was written.
checked-valid : (a b : Action) → checked a ≡ ok b → (validate_action b ≡ none) × (a ≡ b)
checked-valid a b h = elim (Option-cases (validate_action a)) [
  | inl e ↦ ground arith
  | inr (x, e) ↦ absurd (ground arith)
]

-- The action is one that the validation takes, and fields that its command does not set are blank.
pub record IsFocused (command : Text) (a : Action) : Type 0 where
  pub same_type : a.type ≡ command
  pub valid : validate_action a ≡ none
  pub no_sql : (a.sql ≢ []) → (kind_of command ≡ Kind.query) ⊎ (kind_of command ≡ Kind.write)
  pub no_filters : (a.filters ≢ []) → kind_of command ≡ Kind.filter
  pub no_table : (a.table ≢ []) → kind_of command ≡ Kind.open_table
  pub no_connection : (a.connection ≢ []) → kind_of command ≡ Kind.connect
  pub no_page : (a.page_size ≢ pos 0) → kind_of command ≡ Kind.page_size
  pub no_sort : (a.sort ≢ []) ⊎ (a.desc ≡ true) → kind_of command ≡ Kind.sort

abbrev Ensures : Text → Result Text Action → Type 0
Ensures command r = (a : Action) → r ≡ ok a → IsFocused command a

all_flags-Ensures :
    (command : Text) (fs : List (Text × Bool)) (extra : Text) (rest : List Text)
    (k : List (Text × Text) → Result Text Action)
    → ((given : List (Text × Text)) → Ensures command (k given))
    → Ensures command (all_flags fs extra rest k)
unfolding all_flags
all_flags-Ensures command fs extra rest k e a h = elim (Option-cases (parse_flags fs [] rest)) [
  | inl q ↦ absurd (ground arith)
  | inr ((given, []), q) ↦ e given a (ground arith)
  | inr ((given, x ∷ xs), q) ↦ absurd (ground arith)
]

no_argument-Ensures :
    (command : Text) (r : Result Text Action) (rest : List Text)
    → Ensures command r
    → Ensures command (no_argument r rest)
unfolding no_argument
no_argument-Ensures command r [] e a h = e a h
no_argument-Ensures command r (x ∷ xs) e a h = cc

one_argument-Ensures :
    (command : Text) (k : Text → Result Text Action) (rest : List Text)
    → ((x : Text) → Ensures command (k x))
    → Ensures command (one_argument k rest)
unfolding one_argument
one_argument-Ensures command k [] e a h = cc
one_argument-Ensures command k (x ∷ []) e a h = e x a h
one_argument-Ensures command k (x ∷ y ∷ xs) e a h = cc

filter_action-Ensures :
    (d : Text → Option (List Filter)) (command : Text) (seen : List Text)
    (given : List (Text × Text))
    → kind_of command ≡ Kind.filter
    → Ensures command (filter_action d (blank_action command) seen given)
unfolding filter_action
filter_action-Ensures d command seen given k a h =
    elim (Option-cases (d (flag_value (bytes "json") given))) [
      | inl e ↦ ground (
        arith,
        checked-valid
            (record (blank_action command) {
              filters =
                  record {
                    column = flag_value (bytes "column") given;
                    op = flag_value (bytes "op") given;
                    value = flag_value (bytes "value") given;
                  }
                  ∷ [];
            })
            a,
      )
      | inr (fs, e) ↦ ground (
        arith,
        checked-valid (record (blank_action command) { filters = fs }) a,
        checked-valid
            (record (blank_action command) {
              filters =
                  record {
                    column = flag_value (bytes "column") given;
                    op = flag_value (bytes "op") given;
                    value = flag_value (bytes "value") given;
                  }
                  ∷ [];
            })
            a,
      )
    ]

parse_filter-Ensures :
    (d : Text → Option (List Filter)) (command : Text) (rest : List Text)
    → kind_of command ≡ Kind.filter
    → Ensures command (parse_filter d (blank_action command) rest)
unfolding parse_filter
parse_filter-Ensures d command rest k a h =
    let (seen, s, h') = >>=-eq-ok (seen_flags [] rest) _ h in
    all_flags-Ensures command _ _ rest _ (λ given. filter_action-Ensures d command seen given k) a
      h'

plain-Ensures : (command : Text) → Ensures command (checked (blank_action command))
plain-Ensures command a h = ground (arith, checked-valid (blank_action command) a h)

parse_kind-Ensures :
    (d : Text → Option (List Filter)) (command : Text) (rest : List Text) (k : Kind)
    → kind_of command ≡ k
    → Ensures command (parse_kind d (blank_action command) rest k)
unfolding parse_kind parse_sort parse_sql
parse_kind-Ensures d command rest Kind.state k a h =
    no_argument-Ensures command _ rest (plain-Ensures command) a h
parse_kind-Ensures d command rest Kind.cancel k a h =
    no_argument-Ensures command _ rest (plain-Ensures command) a h
parse_kind-Ensures d command rest Kind.clear_filters k a h =
    no_argument-Ensures command _ rest (plain-Ensures command) a h
parse_kind-Ensures d command rest Kind.next k a h =
    no_argument-Ensures command _ rest (plain-Ensures command) a h
parse_kind-Ensures d command rest Kind.prev k a h =
    no_argument-Ensures command _ rest (plain-Ensures command) a h
parse_kind-Ensures d command rest Kind.refresh k a h =
    no_argument-Ensures command _ rest (plain-Ensures command) a h
parse_kind-Ensures d command rest Kind.open_table k a h =
    one_argument-Ensures command _ rest
      (λ x a h. ground (arith, checked-valid (record (blank_action command) { table = x }) a h)) a h
parse_kind-Ensures d command rest Kind.connect k a h =
    one_argument-Ensures command _ rest
      (λ x a h.
        ground (arith, checked-valid (record (blank_action command) { connection = x }) a h))
      a h
parse_kind-Ensures d command rest Kind.page_size k a h =
    one_argument-Ensures command _ rest
      (λ x a h. elim (Option-cases (atoi x)) [
        | inl e ↦ absurd (ground arith)
        | inr (n, e) ↦
            ground (arith, checked-valid (record (blank_action command) { page_size = n }) a)
      ])
      a h
parse_kind-Ensures d command [] Kind.sort k a h = cc
parse_kind-Ensures d command (c ∷ rest) Kind.sort k a h =
    all_flags-Ensures command _ _ rest _
      (λ given b q. ground (
        arith,
        checked-valid
            (record (blank_action command) {
              sort = c;
              desc = is_true_text (flag_value (bytes "desc") given);
            })
            b q,
      ))
      a h
parse_kind-Ensures d command rest Kind.query k a h =
    all_flags-Ensures command _ _ rest _
      (λ given a h. ground (
        arith,
        checked-valid (record (blank_action command) { sql = flag_value (bytes "sql") given }) a h,
      ))
      a h
parse_kind-Ensures d command rest Kind.write k a h =
    all_flags-Ensures command _ _ rest _
      (λ given a h. ground (
        arith,
        checked-valid (record (blank_action command) { sql = flag_value (bytes "sql") given }) a h,
      ))
      a h
parse_kind-Ensures d command rest Kind.filter k a h = parse_filter-Ensures d command rest k a h
parse_kind-Ensures d command rest _ k a h = cc

-- A command line that is accepted gives an action of the command that it names, which the validation
-- takes, and which sets no field of another command.
pub parse_action-IsFocused :
    (d : Text → Option (List Filter)) (command : Text) (rest : List Text) (a : Action)
    → parse_action d command rest ≡ ok a
    → IsFocused command a
unfolding parse_action
parse_action-IsFocused d command rest a h =
    parse_kind-Ensures d command rest (kind_of command) refl a h
