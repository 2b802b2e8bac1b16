-- ===== src/Connections/Resolve/Examples.antt =====
-- A profile with an environment file, a password of the process and an endpoint.
use relvo.Base.{text_eq, ◌≡◌, refl, Option, some, List, [], ◌∷◌, Result, ok, Text, bytes}
use relvo.Data.{Config, Profile}
use relvo.Connections.Resolve.{field_of, valid_mapping, from_file, with_password, complete, resolve}
use relvo.Connections.Resolve.Laws.{IsComplete, resolve-IsComplete}
use relvo.Connections.Resolve.Sources.{IsSourced, resolve-IsSourced}

abbrev blank : Config
blank = record {
  name = [];
  host = [];
  port = [];
  user = bytes "reader";
  password = [];
  database = [];
  socket = [];
  tls = [];
}

abbrev profile : Profile
profile = record {
  name = bytes "shop";
  env_file = bytes ".env";
  mapping = (bytes "database", bytes "DB_NAME") ∷ [];
  config = blank;
  password_env = bytes "SECRET";
  endpoint = some (record { host = bytes "127.0.0.1"; port = bytes "3307" });
}

abbrev values : List (Text × Text)
values = (bytes "DB_NAME", bytes "shop") ∷ (bytes "DB_HOST", bytes "db") ∷ []

abbrev read : Text → Result Text (List (Text × Text))
read f = ok values

abbrev environment : Text → Option Text
environment n = some (bytes "pw")

abbrev resolved : Config
resolved = record {
  name = bytes "shop";
  host = bytes "127.0.0.1";
  port = bytes "3307";
  user = bytes "reader";
  password = bytes "pw";
  database = bytes "shop";
  socket = [];
  tls = [];
}

profile-resolved : resolve read environment profile ≡ ok resolved
unfolding resolve from_file with_password complete valid_mapping field_of text_eq
profile-resolved = refl

resolve-IsComplete_example : IsComplete resolved
resolve-IsComplete_example = resolve-IsComplete read environment profile resolved profile-resolved

resolve-IsSourced_example : IsSourced environment profile values resolved
resolve-IsSourced_example =
    resolve-IsSourced read environment profile values resolved (λ e. cc) refl profile-resolved
