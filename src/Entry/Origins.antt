-- ===== src/Entry/Origins.antt =====
-- Where the profiles of a session come from.
use mathlib.Core.List.{append_assoc, append-nil}
use relvo.Base.{
  ◌≡◌, refl, sym, ap, ◌∙◌, ◌⊎◌, inl, inr, Bool, true, false, ◌||◌, Option, List, [], ◌∷◌, ◌++◌, map,
  arith, Bool-cases, Result, err, ok, Result-cases, All, All-append, Text,
}
use relvo.Data.{Config, Profile}
use relvo.Connections.Resolve.{resolve}
use relvo.Entry.{
  Options, explicit, given_profile, has_env, with_tls, merge_found, docker_profile, demo_profile,
  base_profiles, with_demo, docker_profiles, all_docker, with_docker, gather,
}

abbrev pub Among : {A : Type 0} → A → List A → Type 0
Among x [] = ⊥
Among x (y ∷ ys) = (y ≡ x) ⊎ Among x ys

has_env-append :
    (ps qs : List Profile) (file : Text)
    → has_env (ps ++ qs) file ≡ (has_env ps file || has_env qs file)
has_env-append [] qs file = refl
has_env-append (p ∷ ps) qs file = ground (arith, has_env-append ps qs file)

module _ (read_env : Text → Result Text (List (Text × Text))) (lookup_env : Text → Option Text)
    (discover_docker : Config → Result Text (List Config)) where
  -- Why a profile is offered that is not saved.
  pub data Origin (o : Options) (found : Result Text (List Profile)) (saved : List Profile)
      : Profile → Type 0 where
    given : explicit o ≡ true → Origin o found saved (given_profile o)
    discovered :
        (fs : List Profile) (f : Profile)
        → explicit o ≡ false
        → o.demo ≡ false
        → found ≡ ok fs
        → Among f fs
        → has_env saved f.env_file ≡ false
        → Origin o found saved (with_tls o.profile.config.tls f)
    published :
        (p : Profile) (cfg c : Config) (cs : List Config)
        → o.docker ≡ true
        → Among p (base_profiles o found saved)
        → resolve read_env lookup_env p ≡ ok cfg
        → discover_docker cfg ≡ ok cs
        → Among c cs
        → Origin o found saved (docker_profile p c)
    demo : o.demo ≡ true → Origin o found saved demo_profile

  -- The profiles are the saved ones, in order, and others that have an origin.
  pub record Gathered (o : Options) (found : Result Text (List Profile)) (saved out : List Profile)
      : Type 0 where
    pub others : List Profile
    pub kept : out ≡ saved ++ others
    pub origins : All (Origin o found saved) others

  All-map :
      {A B : Type 0} (P : B → Type 0) (f : A → B) (xs : List A)
      → ((x : A) → Among x xs → P (f x))
      → All P (map f xs)
  All-map P f [] h = tt
  All-map P f (x ∷ xs) h = (h x (inl refl), All-map P f xs (λ y m. h y (inr m)))

  merge_found-origins :
      (o : Options) (fs : List Profile) (saved others gs : List Profile)
      → explicit o ≡ false
      → o.demo ≡ false
      → All (Origin o (ok fs) saved) others
      → ((g : Profile) → Among g gs → Among g fs)
      → (rest : List Profile) × (merge_found o.profile.config.tls (saved ++ others) gs
          ≡ saved ++ rest)
        × All (Origin o (ok fs) saved) rest
  unfolding merge_found
  merge_found-origins o fs saved others [] x d all sub = (others, refl, all)
  merge_found-origins o fs saved others (g ∷ gs) x d all sub =
      let tls = o.profile.config.tls in
      let later = λ (y : Profile) (m : Among y gs). sub y (inr m) in
      elim (Bool-cases (has_env (saved ++ others) g.env_file)) [
        | inl e ↦ rw (e, merge_found) (merge_found-origins o fs saved others gs x d all later)
        | inr e ↦
            let fresh : has_env saved g.env_file ≡ false =
              ground (arith, has_env-append saved others g.env_file) in
            let origin : Origin o (ok fs) saved (with_tls tls g) =
              discovered fs g x d refl (sub g (inl refl)) fresh in
            let (rest, kept, origins) =
              merge_found-origins o fs saved (others ++ with_tls tls g ∷ []) gs x d
                (All-append (Origin o (ok fs) saved) others (with_tls tls g ∷ []) all (origin, tt))
                later in
            let same_list : (saved ++ others) ++ with_tls tls g ∷ []
                ≡ saved ++ (others ++ with_tls tls g ∷ []) =
              append_assoc saved others _ in
            (rest, rw (e, merge_found, same_list) kept, origins)
      ]

  found_origins :
      (o : Options) (found : Result Text (List Profile)) (saved : List Profile)
      → explicit o ≡ false
      → o.demo ≡ false
      → Gathered o found saved (base_profiles o found saved)
  unfolding base_profiles
  found_origins o (err e) saved x d = record {
    others = [];
    kept = rw (x, d, base_profiles) (sym (append-nil saved));
    origins = tt;
  }
  found_origins o (ok fs) saved x d =
      let (rest, kept, origins) = merge_found-origins o fs saved [] fs x d tt (λ g m. m) in
      let start : saved ++ [] ≡ saved = append-nil saved in
      record {
        others = rest;
        kept = rw (x, d, base_profiles) (rw start at kept);
        origins = origins;
      }

  base_profiles-origins :
      (o : Options) (found : Result Text (List Profile)) (saved : List Profile)
      → Gathered o found saved (base_profiles o found saved)
  unfolding base_profiles
  base_profiles-origins o found saved = elim (Bool-cases (explicit o)) [
    | inl x ↦ record {
      others = given_profile o ∷ [];
      kept = rw (x, base_profiles) refl;
      origins = (given x, tt);
    }
    | inr x ↦ elim (Bool-cases o.demo) [
      | inl d ↦ record {
        others = [];
        kept = rw (x, d, base_profiles) (sym (append-nil saved));
        origins = tt;
      }
      | inr d ↦ found_origins o found saved x d
    ]
  ]

  docker_profiles-origins :
      (o : Options) (found : Result Text (List Profile)) (saved : List Profile) (p : Profile)
      → o.docker ≡ true
      → Among p (base_profiles o found saved)
      → All (Origin o found saved) (docker_profiles read_env lookup_env discover_docker p)
  unfolding docker_profiles
  docker_profiles-origins o found saved p d among =
      elim (Result-cases (resolve read_env lookup_env p)) [
        | inr (e, q) ↦ rw (q, docker_profiles) tt
        | inl (cfg, q) ↦ elim (Result-cases (discover_docker cfg)) [
          | inr (e, r) ↦ rw (q, r, docker_profiles) tt
          | inl (cs, r) ↦
              rw (q, r, docker_profiles)
                (All-map (Origin o found saved) (docker_profile p) cs
                  (λ c m. published p cfg c cs d among q r m))
        ]
      ]

  all_docker-origins :
      (o : Options) (found : Result Text (List Profile)) (saved ps : List Profile)
      → o.docker ≡ true
      → ((p : Profile) → Among p ps → Among p (base_profiles o found saved))
      → All (Origin o found saved) (all_docker read_env lookup_env discover_docker ps)
  unfolding all_docker
  all_docker-origins o found saved [] d sub = tt
  all_docker-origins o found saved (p ∷ ps) d sub =
      let rest = all_docker-origins o found saved ps d (λ q m. sub q (inr m)) in
      All-append (Origin o found saved) (docker_profiles read_env lookup_env discover_docker p) _
        (docker_profiles-origins o found saved p d (sub p (inl refl))) rest

  more :
      (o : Options) (found : Result Text (List Profile)) (saved out ps : List Profile)
      → Gathered o found saved out
      → All (Origin o found saved) ps
      → Gathered o found saved (out ++ ps)
  more o found saved out ps g h = record {
    others = g.others ++ ps;
    kept = ap (λ x. x ++ ps) g.kept ∙ append_assoc saved g.others ps;
    origins = All-append (Origin o found saved) g.others ps g.origins h;
  }

  docker-Gathered :
      (o : Options) (found : Result Text (List Profile)) (saved : List Profile) (docker : Bool)
      → o.docker ≡ docker
      → Gathered o found saved
          (with_docker read_env lookup_env discover_docker docker (base_profiles o found saved))
  unfolding with_docker
  docker-Gathered o found saved false e = base_profiles-origins o found saved
  docker-Gathered o found saved true e =
      more o found saved (base_profiles o found saved) _ (base_profiles-origins o found saved)
        (all_docker-origins o found saved (base_profiles o found saved) e (λ p m. m))

  demo-Gathered :
      (o : Options) (found : Result Text (List Profile)) (saved ps : List Profile) (shown : Bool)
      → o.demo ≡ shown
      → Gathered o found saved ps
      → Gathered o found saved (with_demo shown ps)
  unfolding with_demo
  demo-Gathered o found saved ps false e g = g
  demo-Gathered o found saved ps true e g = more o found saved ps (demo_profile ∷ []) g (demo e, tt)

  -- The profiles that the session starts with are those that are saved, in order, and then only: the
  -- one of the options, if it is given; where none is and there is no demo, profiles that were found in
  -- the directory, whose environment files no saved profile has; with `--docker`, addresses of
  -- containers of a profile that resolves; and with `--demo` the demo.
  pub gather-Gathered :
      (o : Options) (found : Result Text (List Profile)) (saved : List Profile)
      → Gathered o found saved (gather read_env lookup_env discover_docker o found saved)
  unfolding gather
  gather-Gathered o found saved =
      demo-Gathered o found saved _ o.demo refl (docker-Gathered o found saved o.docker refl)
