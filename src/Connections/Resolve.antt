-- ===== src/Connections/Resolve.antt =====
-- internal/connections/connections.go: `Resolve`. The parsed environment file (godotenv) is the
-- argument `read_env`, and the environment of the process the argument `lookup_env`. The loop over
-- the map of fields runs in the order of `all_fields`.
mod Examples
mod Laws
mod Sources
use relvo.Base.{
  text_eq, Bool, true, false, not, ◌&&◌, Option, none, some, List, [], ◌∷◌, ◌++◌, if◌then◌else◌,
  Result, ok, err, ◌>>=◌, Text, bytes, is_empty,
}
use relvo.Data.{Config, Profile}

pub data Field : Type 0 where
  host port user password database socket tls : Field

abbrev pub all_fields : List Field
all_fields =
    Field.host ∷ Field.port ∷ Field.user ∷ Field.password ∷ Field.database ∷ Field.socket
    ∷ Field.tls ∷ []

abbrev pub field_name : Field → Text
field_name Field.host = bytes "host"
field_name Field.port = bytes "port"
field_name Field.user = bytes "user"
field_name Field.password = bytes "password"
field_name Field.database = bytes "database"
field_name Field.socket = bytes "socket"
field_name Field.tls = bytes "tls"

-- `fields[name]`, the pointer to a field of the configuration; nil for any other name.
pub field_of : Text → Option Field
unfolding text_eq
field_of t =
    if text_eq t (bytes "host")
    then some Field.host
    else if text_eq t (bytes "port")
    then some Field.port
    else if text_eq t (bytes "user")
    then some Field.user
    else if text_eq t (bytes "password")
    then some Field.password
    else if text_eq t (bytes "database")
    then some Field.database
    else if text_eq t (bytes "socket")
    then some Field.socket
    else if text_eq t (bytes "tls")
    then some Field.tls
    else none

abbrev default_variable : Field → Text
default_variable Field.host = bytes "DB_HOST"
default_variable Field.port = bytes "DB_PORT"
default_variable Field.user = bytes "DB_USERNAME"
default_variable Field.password = bytes "DB_PASSWORD"
default_variable Field.database = bytes "DB_DATABASE"
default_variable Field.socket = bytes "DB_SOCKET"
default_variable Field.tls = bytes "DB_TLS"

abbrev pub get_field : Field → Config → Text
get_field Field.host c = c.host
get_field Field.port c = c.port
get_field Field.user c = c.user
get_field Field.password c = c.password
get_field Field.database c = c.database
get_field Field.socket c = c.socket
get_field Field.tls c = c.tls

abbrev pub set_field : Field → Text → Config → Config
set_field Field.host v c = record c { host = v }
set_field Field.port v c = record c { port = v }
set_field Field.user v c = record c { user = v }
set_field Field.password v c = record c { password = v }
set_field Field.database v c = record c { database = v }
set_field Field.socket v c = record c { socket = v }
set_field Field.tls v c = record c { tls = v }

-- A map of Go: the pairs in the order of the iteration, each key once.
pub lookup : Text → List (Text × Text) → Option Text
lookup k [] = none
lookup k ((j, v) ∷ m) = if text_eq j k then some v else lookup k m

-- The first loop: does every entry name a field and a variable?
valid_mapping : List (Text × Text) → Bool
valid_mapping [] = true
valid_mapping ((name, variable) ∷ m) = elim (field_of name) [
  | none ↦ false
  | some f ↦ if is_empty variable then false else valid_mapping m
]

-- `mapping[field]` after that loop.
pub variable_of : List (Text × Text) → Field → Text
unfolding lookup
variable_of m f = elim (lookup (field_name f) m) [ none ↦ default_variable f | some v ↦ v ]

-- The second loop.
pub read_fields : List (Text × Text) → List (Text × Text) → List Field → Config → Result Text Config
unfolding variable_of
read_fields m values [] c = ok c
read_fields m values (f ∷ fs) c = elim (lookup (variable_of m f) values) [
  | none ↦ elim (lookup (field_name f) m) [
    | some _ ↦
        err (bytes "environment file is missing mapped " ++ field_name f ++ bytes " variable")
    | none ↦ read_fields m values fs c
  ]
  | some v ↦ read_fields m values fs (set_field f v c)
]

module _ (read_env : Text → Result Text (List (Text × Text)))
    (lookup_env : Text → Option Text) where
  pub from_file : Profile → Config → Result Text Config
  unfolding read_fields
  from_file p c =
      if is_empty p.env_file
      then ok c
      else (read_env p.env_file >>= λ values. read_fields p.mapping values all_fields c)

  pub with_password : Profile → Config → Result Text Config
  with_password p c = if is_empty p.password_env then ok c else elim (lookup_env p.password_env) [
    | none ↦ err (bytes "password environment variable is not set")
    | some v ↦ ok (record c { password = v })
  ]

abbrev pub with_endpoint : Profile → Config → Config
with_endpoint p c = elim p.endpoint [
  | none ↦ c
  | some e ↦ record c { host = e.host; port = e.port; socket = [] }
]

-- The checks at the end, and the default port.
pub complete : Config → Result Text Config
complete c =
    if is_empty c.host && is_empty c.socket
    then err (bytes "connection requires host or socket (DB_HOST or DB_SOCKET)")
    else if is_empty c.user
    then err (bytes "connection requires user (DB_USERNAME)")
    else if is_empty c.database
    then err (bytes "connection requires database (DB_DATABASE)")
    else if is_empty c.port
    then ok (record c { port = bytes "3306" })
    else ok c

abbrev is_nil {ℓ} : {A : Type ℓ} → List A → Bool
is_nil [] = true
is_nil (x ∷ xs) = false

module _ (read_env : Text → Result Text (List (Text × Text)))
    (lookup_env : Text → Option Text) where
  unfoldable pub resolve : Profile → Result Text Config
  unfolding from_file with_password complete valid_mapping
  resolve p =
      if not (valid_mapping p.mapping)
      then err (bytes "invalid connection environment mapping")
      else if not (is_nil p.mapping) && is_empty p.env_file
      then err (bytes "environment mapping requires an environment file")
      else (from_file read_env lookup_env p (record (p.config) { name = p.name }) >>= λ c.
          with_password read_env lookup_env p c >>= λ d. complete (with_endpoint p d))
