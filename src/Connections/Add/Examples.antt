-- ===== src/Connections/Add/Examples.antt =====
-- A profile that is added to a file of one.
use relvo.Base.{text_eq, is_blank, String, ◌≡◌, refl, none, List, [], ◌∷◌, ok, err, bytes}
use relvo.Data.{Config, Profile}
use relvo.Connections.Resolve.{resolve}
use relvo.Connections.Add.{Disk, add}

abbrev config : Config
config = record {
  name = [];
  host = bytes "db";
  port = [];
  user = bytes "reader";
  password = [];
  database = bytes "shop";
  socket = [];
  tls = [];
}

abbrev named : String → Profile
named n = record {
  name = bytes n;
  env_file = [];
  mapping = [];
  config = config;
  password_env = [];
  endpoint = none;
}

abbrev file : List Profile
file = named "shop" ∷ []

-- A profile with a password.
abbrev new_profile : Profile
new_profile = record (named "stock") { config = record config { password = bytes "secret" } }

abbrev disk : Disk
disk = record {
  lock_error = none;
  loaded = ok file;
  save_error = none;
  read_env = λ f. err (bytes "no such file");
  lookup_env = λ n. none;
}

added_test : add disk file (new_profile) ≡ (named "shop" ∷ named "stock" ∷ [], none)
unfolding add resolve is_blank text_eq
added_test = refl
