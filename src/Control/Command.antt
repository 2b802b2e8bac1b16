-- ===== src/Control/Command.antt =====
-- internal/control/cli.go: `parseAction`, from the arguments of `relvo ctl` to an action. The flags
-- of the package `flag` are read as that package documents; the decoding of `--json` is an argument.
mod Examples
pub mod Accepts
use relvo.Base.{
  text_eq, Bool, true, false, not, ◌||◌, Option, none, some, List, [], ◌∷◌, ◌++◌, ◌==◌,
  if◌then◌else◌, Result, ok, err, ◌>>=◌, length, any, Text, bytes, is_empty, pos,
}
use relvo.Data.{Filter, Action, Kind, kind_of}
use relvo.Control.Validate.{validate_action}
use relvo.Mysql.Settings.{atoi}

-- `strings.TrimLeft(s, "-")`
trim_dashes : Text → Text
trim_dashes [] = []
trim_dashes (c ∷ s) = if c == b'-' then trim_dashes s else c ∷ s

-- `strings.Cut(s, "=")`: what is before, what is after, and whether there is one.
cut_equal : Text → Text × Text × Bool
cut_equal [] = ([], [], false)
cut_equal (c ∷ s) =
    let (before, after, found) = cut_equal s in
    if c == b'=' then ([], s, true) else (c ∷ before, after, found)

-- A flag of a flag set: its name, and whether it is Boolean.
abbrev Flags : Type 0
Flags = List (Text × Bool)

is_boolean : Flags → Text → Option Bool
is_boolean [] n = none
is_boolean ((m, b) ∷ fs) n = if text_eq m n then some b else is_boolean fs n

-- The parts of an argument that is a flag: its name, its value, and whether it has one. An argument
-- that does not begin with a dash, or is a dash alone, ends the flags, as `--` does.
data Token : Type 0 where
  plain terminator bad : Token
  flag : Text → Text → Bool → Token

flag_body : Text → Token
unfolding cut_equal
flag_body [] = bad
flag_body (c ∷ s) =
    if (c == b'-') || (c == b'=') then bad else let (n, v, has) = cut_equal (c ∷ s) in flag n v has

token_of : Text → Token
unfolding flag_body
token_of [] = plain
token_of (c ∷ []) = plain
token_of (c ∷ d ∷ s) =
    if not (c == b'-')
    then plain
    else if not (d == b'-')
    then flag_body (d ∷ s)
    else if is_empty s
    then terminator
    else flag_body s

-- The values of the flags that were given, the last first, and the arguments behind them. `none` is
-- an error of `Parse`; the value of a Boolean flag must be one that `strconv.ParseBool` takes.
abbrev Parsed : Type 0
Parsed = Option (List (Text × Text) × List Text)

is_bool_text : Text → Bool
is_bool_text v =
    any (λ w. text_eq w v)
      (bytes "1"
        ∷ bytes "0"
        ∷ bytes "t"
        ∷ bytes "f"
        ∷ bytes "T"
        ∷ bytes "F"
        ∷ bytes "true"
        ∷ bytes "false"
        ∷ bytes "TRUE"
        ∷ bytes "FALSE"
        ∷ bytes "True"
        ∷ bytes "False"
        ∷ [])

parse_flags : Flags → List (Text × Text) → List Text → Parsed
parse_flags fs given [] = some (given, [])
parse_flags fs given (x ∷ []) = elim (token_of x) [
  | plain ↦ some (given, x ∷ [])
  | terminator ↦ some (given, [])
  | bad ↦ none
  | flag n v has ↦ elim (is_boolean fs n) [
    | none ↦ none
    | some true ↦
        if has
        then (if is_bool_text v then some ((n, v) ∷ given, []) else none)
        else some ((n, bytes "true") ∷ given, [])
    | some false ↦ if has then some ((n, v) ∷ given, []) else none
  ]
]
parse_flags fs given (x ∷ y ∷ ys) = elim (token_of x) [
  | plain ↦ some (given, x ∷ y ∷ ys)
  | terminator ↦ some (given, y ∷ ys)
  | bad ↦ none
  | flag n v has ↦ elim (is_boolean fs n) [
    | none ↦ none
    | some true ↦ elim has [
      | true ↦ elim (is_bool_text v) [
        | true ↦ parse_flags fs ((n, v) ∷ given) (y ∷ ys)
        | false ↦ none
      ]
      | false ↦ parse_flags fs ((n, bytes "true") ∷ given) (y ∷ ys)
    ]
    | some false ↦ elim has [
      | true ↦ parse_flags fs ((n, v) ∷ given) (y ∷ ys)
      | false ↦ parse_flags fs ((n, y) ∷ given) ys
    ]
  ]
]

flag_value : Text → List (Text × Text) → Text
flag_value n [] = []
flag_value n ((m, v) ∷ given) = if text_eq m n then v else flag_value n given

is_true_text : Text → Bool
is_true_text v =
    any (λ w. text_eq w v)
      (bytes "1" ∷ bytes "t" ∷ bytes "T" ∷ bytes "true" ∷ bytes "TRUE" ∷ bytes "True" ∷ [])

-- The loop that refuses a repeated flag: the names seen, or the name that is repeated.
seen_flags : List Text → List Text → Result Text (List Text)
seen_flags seen [] = ok seen
seen_flags seen (x ∷ []) =
    let n = (cut_equal (trim_dashes x)).0 in
    if any (λ m. text_eq m n) seen then err n else ok (n ∷ seen)
seen_flags seen (x ∷ y ∷ ys) =
    let (n, v, has) = cut_equal (trim_dashes x) in
    if any (λ m. text_eq m n) seen
    then err n
    else elim has [ true ↦ seen_flags (n ∷ seen) (y ∷ ys) | false ↦ seen_flags (n ∷ seen) ys ]

abbrev pub blank_action : Text → Action
blank_action k = record {
  type = k;
  connection = [];
  table = [];
  filters = [];
  sort = [];
  desc = false;
  page_size = pos 0;
  sql = [];
}

-- An action, or the text of an error.
abbrev Parse : Type 0
Parse = Result Text Action

abbrev checked : Action → Parse
checked a = elim (validate_action a) [ none ↦ ok a | some e ↦ err e ]

-- `flags.Parse(rest)` where nothing may follow the flags.
all_flags : Flags → Text → List Text → (List (Text × Text) → Parse) → Parse
all_flags fs extra rest k = elim (parse_flags fs [] rest) [
  | none ↦ err (bytes "flag error")
  | some (given, []) ↦ k given
  | some (given, x ∷ xs) ↦ err extra
]

one_argument : (Text → Parse) → List Text → Parse
one_argument k [] = err (bytes "command requires exactly one argument")
one_argument k (x ∷ []) = k x
one_argument k (x ∷ y ∷ xs) = err (bytes "command requires exactly one argument")

no_argument : Parse → List Text → Parse
no_argument r [] = r
no_argument r (x ∷ xs) = err (bytes "command takes no arguments")

parse_sort : Action → List Text → Parse
parse_sort a [] = err (bytes "sort requires a column")
parse_sort a (c ∷ rest) =
    all_flags ((bytes "desc", true) ∷ []) (bytes "unexpected sort arguments") rest λ given.
      checked (record a { sort = c; desc = is_true_text (flag_value (bytes "desc") given) })

parse_sql : Action → List Text → Parse
parse_sql a rest =
    all_flags ((bytes "sql", false) ∷ []) (bytes "unexpected SQL arguments") rest
      λ given. checked (record a { sql = flag_value (bytes "sql") given })

abbrev filter_flags : Flags
filter_flags =
    (bytes "column", false)
    ∷ (bytes "op", false)
    ∷ (bytes "value", false)
    ∷ (bytes "json", false)
    ∷ []

abbrev has_flag : Text → List Text → Bool
has_flag n seen = any (λ m. text_eq m n) seen

-- `decode_filters` is `strictJSON([]byte(raw), &a.Filters)`.
filter_action : (Text → Option (List Filter)) → Action → List Text → List (Text × Text) → Parse
filter_action decode_filters a seen given =
    if has_flag (bytes "json") seen
    then (if not (length seen == 1)
        then err (bytes "--json cannot be combined with filter flags")
        else elim (decode_filters (flag_value (bytes "json") given)) [
          | none ↦ err (bytes "--json must be an array of filters")
          | some fs ↦ checked (record a { filters = fs })
        ])
    else if not (has_flag (bytes "column") seen)
        || not (has_flag (bytes "op") seen)
        || not (has_flag (bytes "value") seen)
    then err (bytes "filter requires --column, --op, and --value")
    else checked (record a {
      filters =
          record {
            column = flag_value (bytes "column") given;
            op = flag_value (bytes "op") given;
            value = flag_value (bytes "value") given;
          }
          ∷ [];
    })

parse_filter : (Text → Option (List Filter)) → Action → List Text → Parse
parse_filter decode_filters a rest = seen_flags [] rest >>= λ seen.
    all_flags filter_flags (bytes "unexpected filter arguments") rest
      (filter_action decode_filters a seen)

parse_kind : (Text → Option (List Filter)) → Action → List Text → Kind → Parse
parse_kind d a rest Kind.state = no_argument (checked a) rest
parse_kind d a rest Kind.cancel = no_argument (checked a) rest
parse_kind d a rest Kind.clear_filters = no_argument (checked a) rest
parse_kind d a rest Kind.next = no_argument (checked a) rest
parse_kind d a rest Kind.prev = no_argument (checked a) rest
parse_kind d a rest Kind.refresh = no_argument (checked a) rest
parse_kind d a rest Kind.open_table = one_argument (λ x. checked (record a { table = x })) rest
parse_kind d a rest Kind.connect = one_argument (λ x. checked (record a { connection = x })) rest
parse_kind d a rest Kind.page_size =
    one_argument
      (λ x. elim (atoi x) [
        | none ↦ err (bytes "invalid page size")
        | some n ↦ checked (record a { page_size = n })
      ])
      rest
parse_kind d a rest Kind.sort = parse_sort a rest
parse_kind d a rest Kind.query = parse_sql a rest
parse_kind d a rest Kind.write = parse_sql a rest
parse_kind d a rest Kind.filter = parse_filter d a rest
parse_kind d a rest _ = err (bytes "unknown control command " ++ a.type)

-- `parseAction`, for at least one argument.
pub parse_action : (Text → Option (List Filter)) → Text → List Text → Parse
unfolding parse_kind
parse_action d command rest = parse_kind d (blank_action command) rest (kind_of command)
