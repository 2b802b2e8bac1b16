-- ===== src/Entry/Examples.antt =====
-- A saved profile, two environment files that were found, of which one is the saved one's, a container
-- and the demo.
use relvo.Base.{
  text_eq, String, ◌≡◌, refl, true, false, none, List, [], ◌∷◌, map, Result, ok, Text, bytes,
}
use relvo.Data.{Config, Profile}
use relvo.Entry.{Options, set_mapping, explicit, merge_found, base_profiles, gather}
use relvo.Entry.Origins.{Gathered, gather-Gathered}

abbrev nowhere : Config
nowhere = record {
  name = [];
  host = [];
  port = [];
  user = [];
  password = [];
  database = [];
  socket = [];
  tls = [];
}

abbrev on_disk : String → String → Profile
on_disk name file = record {
  name = bytes name;
  env_file = bytes file;
  mapping = [];
  config = nowhere;
  password_env = [];
  endpoint = none;
}

abbrev options : Options
options = record {
  profile = record (on_disk "" "") { config = record nowhere { tls = bytes "off" } };
  profiles = [];
  connect = [];
  session = [];
  demo = false;
  docker = true;
  allow_writes = false;
  no_control = false;
  show_version = false;
}

abbrev variables : Text → Result Text (List (Text × Text))
variables file = ok (
    (bytes "DB_HOST", bytes "db")
    ∷ (bytes "DB_USERNAME", bytes "u")
    ∷ (bytes "DB_DATABASE", bytes "d")
    ∷ [])

abbrev containers : Config → Result Text (List Config)
containers c = ok (record c { host = bytes "127.0.0.1" } ∷ [])

abbrev kept_profiles : List Profile
kept_profiles = on_disk "shop" "/shop/.env" ∷ []

abbrev found : Result Text (List Profile)
found = ok (on_disk "shop" "/shop/.env" ∷ on_disk "admin" "/admin/.env" ∷ [])

found_test :
    map (λ p. p.name) (base_profiles options found kept_profiles)
    ≡ bytes "shop" ∷ bytes "admin" ∷ []
unfolding base_profiles explicit merge_found text_eq
found_test = refl

set_mapping_test :
    set_mapping (bytes "user=MYSQL_USER") [] ≡ ok ((bytes "user", bytes "MYSQL_USER") ∷ [])
unfolding set_mapping text_eq
set_mapping_test = refl

gather-Gathered_example :
    Gathered variables
      (λ n. none)
      containers
      options
      found
      kept_profiles
      (gather variables (λ n. none) containers options found kept_profiles)
gather-Gathered_example =
    gather-Gathered variables (λ n. none) containers options found kept_profiles
