-- ===== src/Control/Command/Examples.antt =====
-- The command line `filter --column id --op eq --value 7`.
use relvo.Base.{text_eq, ◌≡◌, refl, none, List, [], ◌∷◌, ok, Text, bytes}
use relvo.Data.{Action, kind_of}
use relvo.Control.Validate.{validate_action}
use relvo.Control.Command.{
  trim_dashes, cut_equal, is_boolean, token_of, parse_flags, flag_value, seen_flags, blank_action,
  all_flags, filter_action, parse_filter, parse_action,
}
use relvo.Control.Command.Accepts.{IsFocused, parse_action-IsFocused}

abbrev arguments : List Text
arguments =
    bytes "--column" ∷ bytes "id" ∷ bytes "--op" ∷ bytes "eq" ∷ bytes "--value" ∷ bytes "7" ∷ []

abbrev filtering : Action
filtering = record (blank_action (bytes "filter")) {
  filters = record { column = bytes "id"; op = bytes "eq"; value = bytes "7" } ∷ [];
}

filter_parsed : parse_action (λ t. none) (bytes "filter") arguments ≡ ok filtering
unfolding parse_action kind_of text_eq parse_filter seen_flags cut_equal trim_dashes all_flags
    parse_flags token_of is_boolean filter_action validate_action flag_value
filter_parsed = refl

parse_action-IsFocused_example : IsFocused (bytes "filter") filtering
parse_action-IsFocused_example =
    parse_action-IsFocused (λ t. none) (bytes "filter") arguments filtering filter_parsed
