-- ===== src/Connections/Resolve/Sources.antt =====
-- Where the fields of a resolved configuration come from.
use relvo.Base.{
  ℕ, ◌≡◌, refl, ◌∙◌, is_empty, bytes, ◌≢◌, inl, inr, Bool, true, Option, none, some, List, [], ◌∷◌,
  arith, ◌==◌, if◌then◌else◌, Bool-cases, Option-cases, Result, ok, any, Text,
}
use relvo.Connections.Resolve.Laws.{resolve-Stages}
use relvo.Data.{Config, Endpoint, Profile}
use relvo.Connections.Resolve.{
  Field, all_fields, field_name, get_field, set_field, lookup, variable_of, read_fields, from_file,
  with_password, with_endpoint, complete, resolve,
}

abbrev index : Field → ℕ
index Field.host = 0
index Field.port = 1
index Field.user = 2
index Field.password = 3
index Field.database = 4
index Field.socket = 5
index Field.tls = 6

abbrev same : Field → Field → Bool
same f g = index f == index g

get_field-set_field :
    (f g : Field) (v : Text) (c : Config)
    → get_field g (set_field f v c) ≡ (if same f g then v else get_field g c)
get_field-set_field f g v c = ground arith

set_field-name : (f : Field) (v : Text) (c : Config) → (set_field f v c).name ≡ c.name
set_field-name f v c = ground arith

same→eq : (f g : Field) → same f g ≡ true → f ≡ g
same→eq f g h = ground arith

-- The value that a field has after the file was read: that of its variable, if the file has it.
abbrev from_variable : List (Text × Text) → List (Text × Text) → Field → Config → Text
from_variable m values f c = elim (lookup (variable_of m f) values) [
  | none ↦ get_field f c
  | some v ↦ v
]

record Step (m values : List (Text × Text)) (f : Field) (fs : List Field) (c d : Config)
    : Type 0 where
  next : Config
  rest : read_fields m values fs next ≡ ok d
  value :
      (g : Field)
      → get_field g next ≡ (if same f g then from_variable m values f c else get_field g c)
  found : lookup (field_name f) m ≢ none → lookup (variable_of m f) values ≢ none
  named : next.name ≡ c.name

read_fields-Step :
    (m values : List (Text × Text)) (f : Field) (fs : List Field) (c d : Config)
    → read_fields m values (f ∷ fs) c ≡ ok d
    → Step m values f fs c d
unfolding read_fields
read_fields-Step m values f fs c d h = elim (Option-cases (lookup (variable_of m f) values)) [
  | inl e ↦ elim (Option-cases (lookup (field_name f) m)) [
    | inl k ↦ record {
      next = c;
      rest = ground arith;
      value = λ g. ground (arith, same→eq f g);
      found = λ n. absurd (n k);
      named = refl;
    }
    | inr (x, k) ↦ absurd (ground arith)
  ]
  | inr (v, e) ↦ record {
    next = set_field f v c;
    rest = ground arith;
    value = λ g. ground (arith, get_field-set_field f g v c);
    found = λ _. ground arith;
    named = set_field-name f v c;
  }
]

read_fields-get_field :
    (m values : List (Text × Text)) (fs : List Field) (c d : Config) (g : Field)
    → read_fields m values fs c ≡ ok d
    → get_field g d ≡ (if any (λ f. same f g) fs then from_variable m values g c else get_field g c)
unfolding read_fields
read_fields-get_field m values [] c d g h = ground arith
read_fields-get_field m values (f ∷ fs) c d g h =
    let s = read_fields-Step m values f fs c d h in
    ground (arith, same→eq f g, s.value g, read_fields-get_field m values fs s.next d g s.rest)

read_fields-name :
    (m values : List (Text × Text)) (fs : List Field) (c d : Config)
    → read_fields m values fs c ≡ ok d
    → d.name ≡ c.name
unfolding read_fields
read_fields-name m values [] c d h = ground arith
read_fields-name m values (f ∷ fs) c d h =
    let s = read_fields-Step m values f fs c d h in
    read_fields-name m values fs s.next d s.rest ∙ s.named

-- Every field that was mapped by the profile was found in the file.
read_fields_found :
    (m values : List (Text × Text)) (fs : List Field) (c d : Config) (g : Field)
    → read_fields m values fs c ≡ ok d
    → any (λ f. same f g) fs ≡ true
    → lookup (field_name g) m ≢ none
    → lookup (variable_of m g) values ≢ none
read_fields_found m values [] c d g h i k = cc
read_fields_found m values (f ∷ fs) c d g h i k =
    let s = read_fields-Step m values f fs c d h in
    elim (Bool-cases (same f g)) [
      | inl e ↦ rw (← same→eq f g e) (s.found (rw (same→eq f g e) k))
      | inr e ↦ read_fields_found m values fs s.next d g s.rest (ground arith) k
    ]

-- The port that a connection has where none is given.
abbrev pub or_default : Text → Text
or_default port = if is_empty port then bytes "3306" else port

-- Only the port can change in the checks at the end.
complete_keeps :
    (c d : Config)
    → complete c ≡ ok d
    → (d.name ≡ c.name)
      × (d.host ≡ c.host)
      × (d.port ≡ or_default c.port)
      × (d.user ≡ c.user)
      × (d.password ≡ c.password)
      × (d.database ≡ c.database)
      × (d.socket ≡ c.socket)
      × (d.tls ≡ c.tls)
unfolding complete
complete_keeps c d h = ground arith

pub record IsSourced (lookup_env : Text → Option Text) (p : Profile) (values : List (Text × Text))
    (c : Config) : Type 0 where
  pub name : c.name ≡ p.name
  pub database : c.database ≡ from_variable p.mapping values Field.database p.config
  pub user : c.user ≡ from_variable p.mapping values Field.user p.config
  pub tls : c.tls ≡ from_variable p.mapping values Field.tls p.config
  pub password :
      p.password_env ≡ [] → c.password ≡ from_variable p.mapping values Field.password p.config
  pub secret : p.password_env ≢ [] → lookup_env p.password_env ≡ some c.password
  pub host : p.endpoint ≡ none → c.host ≡ from_variable p.mapping values Field.host p.config
  pub port :
      p.endpoint ≡ none → c.port ≡ or_default (from_variable p.mapping values Field.port p.config)
  pub socket : p.endpoint ≡ none → c.socket ≡ from_variable p.mapping values Field.socket p.config
  pub endpoint :
      (e : Endpoint)
      → p.endpoint ≡ some e
      → (c.host ≡ e.host) × (c.port ≡ or_default e.port) × (c.socket ≡ [])
  pub mapped :
      (f : Field)
      → lookup (field_name f) p.mapping ≢ none
      → lookup (variable_of p.mapping f) values ≢ none

module _ (read_env : Text → Result Text (List (Text × Text)))
    (lookup_env : Text → Option Text) where
  from_file_read :
      (p : Profile) (values : List (Text × Text)) (c d : Config)
      → p.env_file ≢ []
      → read_env p.env_file ≡ ok values
      → from_file read_env lookup_env p c ≡ ok d
      → read_fields p.mapping values all_fields c ≡ ok d
  unfolding from_file
  from_file_read p values c d n r h = ground arith

  with_password_keeps :
      (p : Profile) (c d : Config)
      → with_password read_env lookup_env p c ≡ ok d
      → (d.name ≡ c.name)
        × (d.host ≡ c.host)
        × (d.port ≡ c.port)
        × (d.user ≡ c.user)
        × (d.database ≡ c.database)
        × (d.socket ≡ c.socket)
        × (d.tls ≡ c.tls)
        × (p.password_env ≡ [] → d.password ≡ c.password)
        × (p.password_env ≢ [] → lookup_env p.password_env ≡ some d.password)
  unfolding with_password
  with_password_keeps p c d h = ground arith

  -- Of a profile whose environment file was read and that resolves: the name is that of the profile; a
  -- field comes from its variable where the environment file has that variable and from the profile
  -- otherwise; the environment of the process decides the password if the profile names a variable of
  -- it, an endpoint replaces the host and the port and leaves no socket, and where the port is empty it
  -- is 3306. No mapped variable is missing.
  pub resolve-IsSourced :
      (p : Profile) (values : List (Text × Text)) (c : Config)
      → p.env_file ≢ []
      → read_env p.env_file ≡ ok values
      → resolve read_env lookup_env p ≡ ok c
      → IsSourced lookup_env p values c
  resolve-IsSourced p values c n r h =
      let s = resolve-Stages read_env lookup_env p c h in
      let start : Config = record (p.config) { name = p.name } in
      let q = from_file_read p values start s.loaded n r s.from_loaded in
      let w = with_password_keeps p s.loaded s.secured s.from_secured in
      let k = complete_keeps (with_endpoint p s.secured) c s.completed in
      let g = λ (f : Field). read_fields-get_field p.mapping values all_fields start s.loaded f q in
      record {
        name = ground (arith, w, k, read_fields-name p.mapping values all_fields start s.loaded q);
        database = ground (arith, w, k, g Field.database);
        user = ground (arith, w, k, g Field.user);
        tls = ground (arith, w, k, g Field.tls);
        password = ground (arith, w, k, g Field.password);
        secret = ground (arith, w, k);
        host = ground (arith, w, k, g Field.host);
        port = ground (arith, w, k, g Field.port);
        socket = ground (arith, w, k, g Field.socket);
        endpoint = λ e x. ground (arith, w, k);
        mapped = λ f x.
            read_fields_found p.mapping values all_fields start s.loaded f q (ground arith) x;
      }
