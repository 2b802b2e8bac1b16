-- ===== src/Connections/Resolve/Laws.antt =====
-- What a profile that resolves has.
use relvo.Base.{◌≡◌, ◌≢◌, ◌⊎◌, Option, List, [], arith, Result, ok, ◌>>=◌, >>=-eq-ok, Text}
use relvo.Data.{Config, Profile}
use relvo.Connections.Resolve.{from_file, with_password, with_endpoint, complete, resolve}

-- What the checks at the end of `Resolve` ask of a configuration.
pub record IsComplete (c : Config) : Type 0 where
  pub address : (c.host ≢ []) ⊎ (c.socket ≢ [])
  pub has_user : c.user ≢ []
  pub has_database : c.database ≢ []
  pub has_port : c.port ≢ []

complete-IsComplete : (c d : Config) → complete c ≡ ok d → IsComplete d
unfolding complete
complete-IsComplete c d h = ground arith

-- The two stages before the last checks, each of which succeeded.
pub record Stages (read_env : Text → Result Text (List (Text × Text)))
    (lookup_env : Text → Option Text) (p : Profile) (c : Config) : Type 0 where
  pub loaded : Config
  pub secured : Config
  pub from_loaded :
      from_file read_env lookup_env p (record (p.config) { name = p.name }) ≡ ok loaded
  pub from_secured : with_password read_env lookup_env p loaded ≡ ok secured
  pub completed : complete (with_endpoint p secured) ≡ ok c
  pub mapped_file : (p.mapping ≢ []) → p.env_file ≢ []

module _ (read_env : Text → Result Text (List (Text × Text)))
    (lookup_env : Text → Option Text) where
  -- The part of `Resolve` after the checks of the mapping.
  chain : Profile → Result Text Config
  chain p = from_file read_env lookup_env p (record (p.config) { name = p.name }) >>= λ c.
      with_password read_env lookup_env p c >>= λ d. complete (with_endpoint p d)

  resolve-chain :
      (p : Profile) (c : Config)
      → resolve read_env lookup_env p ≡ ok c
      → (chain p ≡ ok c) × (p.mapping ≢ [] → p.env_file ≢ [])
  unfolding resolve chain
  resolve-chain p c h = ground arith

  pub resolve-Stages :
      (p : Profile) (c : Config)
      → resolve read_env lookup_env p ≡ ok c
      → Stages read_env lookup_env p c
  unfolding chain
  resolve-Stages p c h =
      let r = resolve-chain p c h in
      let (loaded, e, rest) = >>=-eq-ok _ _ r.0 in
      let (secured, f, last) = >>=-eq-ok _ _ rest in
      record {
        loaded = loaded;
        secured = secured;
        from_loaded = e;
        from_secured = f;
        completed = last;
        mapped_file = r.1;
      }

  -- A profile that resolves has an address, a user, a database and a port.
  pub resolve-IsComplete :
      (p : Profile) (c : Config) → resolve read_env lookup_env p ≡ ok c → IsComplete c
  resolve-IsComplete p c h =
      let s = resolve-Stages p c h in complete-IsComplete (with_endpoint p s.secured) c s.completed
