-- ===== src/Connections/Add.antt =====
-- internal/connections/add.go: `Add` under the lock, and of connections.go `Load` and `Save` of the
-- profile file. The file system is the argument `Disk`; the lock is held throughout, so that the file
-- is the same at `Load` and at `Save`.
mod Examples
use relvo.Base.{
  text_eq, is_blank, ◌≡◌, ap, Bool, false, Option, none, some, List, [], ◌∷◌, ◌++◌, if◌then◌else◌,
  Result, ok, err, any, Text, bytes, map,
}
use relvo.Data.{Profile}
use relvo.Connections.Resolve.{resolve}

-- What the file system and encoding/json answer. A file that is not there has no profiles, and a file
-- that is there is given as the profiles that decoding it yields.
pub record Disk : Type 0 where
  pub lock_error : Option Text  -- of the steps up to `Flock`
  pub loaded : Result Text (List Profile)  -- `Load`
  pub save_error : Option Text  -- of the steps of `Save` up to `Rename`
  pub read_env : Text → Result Text (List (Text × Text))
  pub lookup_env : Text → Option Text

abbrev pub taken : List Profile → Text → Bool
taken ps n = any (λ p. text_eq p.name n) ps

-- A profile as it is in the file, where `Config.Password` is never encoded (`json:"-"`).
abbrev pub stored : Profile → Profile
stored p = record p { config = record (p.config) { password = [] } }

-- What `Save` leaves in the file.
abbrev pub saved : List Profile → List Profile
saved = map stored

-- `Add`: the profiles that the file holds afterwards, and the error.
pub add : Disk → List Profile → Profile → List Profile × Option Text
add d file p = elim d.lock_error [
  | some e ↦ (file, some e)
  | none ↦ elim d.loaded [
    | err e ↦ (file, some e)
    | ok ps ↦
        if is_blank p.name
        then (file, some (bytes "connection profile requires a name"))
        else if taken ps p.name
        then (file, some (bytes "connection profile name already exists"))
        else elim (resolve d.read_env d.lookup_env p) [
          | err e ↦ (file, some (bytes "invalid connection profile: " ++ e))
          | ok c ↦ elim d.save_error [
            | some e ↦ (file, some e)
            | none ↦ (saved (ps ++ p ∷ []), none)
          ]
        ]
  ]
]

-- Names of profiles in a file are unique.
abbrev pub Unique : List Profile → Type 0
Unique [] = Unit
Unique (p ∷ ps) = (taken ps p.name ≡ false) × Unique ps

-- `r` is `p` without its password.
pub record Encodes (p r : Profile) : Type 0 where
  pub hidden : r.config.password ≡ []
  pub rest : record r { config = record (r.config) { password = p.config.password } } ≡ p

-- One profile for each, in order.
abbrev pub Written : List Profile → List Profile → Type 0
Written [] [] = Unit
Written [] (r ∷ rs) = ⊥
Written (p ∷ ps) [] = ⊥
Written (p ∷ ps) (r ∷ rs) = Encodes p r × Written ps rs
