-- ===== src/Entry.antt =====
-- cmd/relvo/main.go: the options, the command `connections`, and of `run` the profiles that the session
-- starts with. What the package flag makes of the arguments, paths, the search for files and for
-- containers, and the file of profiles are arguments.
mod Examples
pub mod Origins
use relvo.Base.{
  text_eq, Bool, true, false, not, ◌&&◌, ◌||◌, Option, none, some, List, [], ◌∷◌, ◌++◌, map, ◌==◌,
  if◌then◌else◌, Result, err, ok, any, Text, bytes, is_empty,
}
use relvo.Data.{Config, Profile}
use relvo.Connections.Add.{Disk, add}
use relvo.Connections.Resolve.{resolve}

-- `options`
pub record Options : Type 0 where
  pub profile : Profile
  pub profiles : Text
  pub connect : Text
  pub session : Text
  pub demo : Bool
  pub docker : Bool
  pub allow_writes : Bool
  pub no_control : Bool
  pub show_version : Bool

-- `strings.Cut(value, "=")`
cut : Text → Option (Text × Text)
cut [] = none
cut (c ∷ s) =
    if c == 61 then some ([], s) else elim (cut s) [ none ↦ none | some (k, v) ↦ some (c ∷ k, v) ]

abbrev mapping_fields : List Text
mapping_fields =
    bytes "host"
    ∷ bytes "port"
    ∷ bytes "user"
    ∷ bytes "password"
    ∷ bytes "database"
    ∷ bytes "socket"
    ∷ bytes "tls"
    ∷ []

put : Text → Text → List (Text × Text) → List (Text × Text)
put k v [] = (k, v) ∷ []
put k v ((j, u) ∷ m) = if text_eq j k then (k, v) ∷ m else (j, u) ∷ put k v m

-- `mappings.Set`
pub set_mapping : Text → List (Text × Text) → Result Text (List (Text × Text))
unfolding cut put
set_mapping value m = elim (cut value) [
  | none ↦ err (bytes "mapping must be field=VARIABLE")
  | some (k, v) ↦
      if is_empty v
      then err (bytes "mapping must be field=VARIABLE")
      else if any (λ f. text_eq f k) mapping_fields
      then ok (put k v m)
      else err (bytes "unknown mapping field " ++ k)
]

-- `parse`, after `flag.Parse` gave the options and the arguments that are left.
pub parse :
    (List Text → Result Text (Options × List Text))
    → (Text → Result Text Text)
    → List Text
    → Result Text Options
parse flags abs args = elim (flags args) [
  | err e ↦ err e
  | ok (o, arg ∷ rest) ↦ err (bytes "unexpected argument " ++ arg)
  | ok (o, []) ↦ if is_empty o.profile.env_file then ok o else elim (abs o.profile.env_file) [
    | err e ↦ err e
    | ok path ↦ ok (record o { profile = record o.profile { env_file = path } })
  ]
]

-- `explicit`
pub explicit : Options → Bool
explicit o =
    not (is_empty o.profile.env_file)
    || not (is_empty o.profile.config.host)
    || not (is_empty o.profile.config.socket)
    || not (is_empty o.profile.config.database)

-- What the command `connections` prints.
pub data Printed : Type 0 where
  listing : List Profile → Printed
  added : Text → Printed

abbrev usage : Text
usage = bytes "usage: relvo connections list|add [options]"

-- `profileCommand`: the profiles in the file afterwards, and what is printed. `load` is the file as it
-- is read first, `disk` as `Add` finds it.
pub profile_command :
    (List Text → Result Text Options)
    → Result Text (List Profile)
    → Disk
    → List Profile
    → List Text
    → List Profile × Result Text Printed
profile_command parsed load disk file [] = (file, err usage)
profile_command parsed load disk file (command ∷ args) = elim (parsed args) [
  | err e ↦ (file, err e)
  | ok o ↦ elim load [
    | err e ↦ (file, err e)
    | ok ps ↦
        if text_eq command (bytes "list")
        then (file, ok (listing ps))
        else if not (text_eq command (bytes "add"))
        then (file, err usage)
        else if is_empty o.profile.name || not (explicit o)
        then (
          file,
          err (bytes "add requires --name and --env, --host, or --socket with database details"),
        )
        else let (after, error) = add disk file o.profile in
          elim error [ some e ↦ (after, err e) | none ↦ (after, ok (added o.profile.name)) ]
  ]
]

-- The profile of the options.
abbrev pub given_profile : Options → Profile
given_profile o =
    if is_empty o.profile.name then record o.profile { name = bytes "project" } else o.profile

abbrev pub has_env : List Profile → Text → Bool
has_env ps file = any (λ p. text_eq p.env_file file) ps

abbrev pub with_tls : Text → Profile → Profile
with_tls tls p = record p { config = record p.config { tls = tls } }

-- The loop over the profiles that were found in the directory.
pub merge_found : Text → List Profile → List Profile → List Profile
merge_found tls ps [] = ps
merge_found tls ps (f ∷ fs) =
    let skipped = merge_found tls ps fs in
    let longer = merge_found tls (ps ++ with_tls tls f ∷ []) fs in
    if has_env ps f.env_file then skipped else longer

abbrev pub docker_profile : Profile → Config → Profile
docker_profile p c = record p {
  name = c.name;
  endpoint = some (record { host = c.host; port = c.port });
}

abbrev pub demo_profile : Profile
demo_profile = record {
  name = bytes "demo";
  env_file = [];
  mapping = [];
  config = record {
    name = [];
    host = bytes "demo";
    port = [];
    user = bytes "demo";
    password = [];
    database = bytes "relvo_demo";
    socket = [];
    tls = [];
  };
  password_env = [];
  endpoint = none;
}

-- The profiles given, saved and found, before the containers.
pub base_profiles : Options → Result Text (List Profile) → List Profile → List Profile
unfolding merge_found
base_profiles o found ps =
    if explicit o
    then ps ++ given_profile o ∷ []
    else if o.demo
    then ps
    else elim found [ err e ↦ ps | ok fs ↦ merge_found o.profile.config.tls ps fs ]

-- The demo, with `--demo`.
pub with_demo : Bool → List Profile → List Profile
with_demo true ps = ps ++ demo_profile ∷ []
with_demo false ps = ps

module _ (read_env : Text → Result Text (List (Text × Text))) (lookup_env : Text → Option Text)
    (discover_docker : Config → Result Text (List Config)) where
  -- The profiles of the containers for one profile; what fails is passed over.
  pub docker_profiles : Profile → List Profile
  docker_profiles p = elim (resolve read_env lookup_env p) [
    | err e ↦ []
    | ok cfg ↦ elim (discover_docker cfg) [ err e ↦ [] | ok cs ↦ map (docker_profile p) cs ]
  ]

  pub all_docker : List Profile → List Profile
  unfolding docker_profiles
  all_docker [] = []
  all_docker (p ∷ ps) = docker_profiles p ++ all_docker ps

  -- The containers, with `--docker`.
  pub with_docker : Bool → List Profile → List Profile
  unfolding all_docker
  with_docker true ps = ps ++ all_docker ps
  with_docker false ps = ps

  -- The profiles that `run` gives the session, from those that are saved.
  pub gather : Options → Result Text (List Profile) → List Profile → List Profile
  unfolding base_profiles with_docker with_demo
  gather o found ps = with_demo o.demo (with_docker o.docker (base_profiles o found ps))

-- The connection to open first, empty if there is none.
pub first_connection : Options → Text
first_connection o = if o.demo && is_empty o.connect then bytes "demo" else o.connect

-- The open function of `run`: does it open the demo store?
pub opens_demo : Options → Config → Bool
opens_demo o cfg = o.demo && text_eq cfg.name (bytes "demo")
