-- ===== src/Connections/Docker.antt =====
-- internal/connections/docker.go: `parseDocker`, after the JSON of Docker Compose was decoded.
mod Examples
use relvo.Base.{
  text_eq, ◌≡◌, refl, sym, ◌∙◌, inl, inr, Bool, false, not, ◌&&◌, ◌||◌, none, some, List, [], ◌∷◌,
  ◌++◌, map, arith, if◌then◌else◌, Bool-cases, Option-cases, Result, ok, err, any, All, All-append,
  Text, bytes, text_eq_iff, is_empty, ℤ, pos, ltb_ℤ, decimal_ℤ,
}
use relvo.Data.{Config}
use relvo.Mysql.Settings.{atoi, join_host_port}

pub record Publisher : Type 0 where
  pub url : Text
  pub target_port : ℤ
  pub published_port : ℤ
  pub protocol : Text

pub record Container : Type 0 where
  pub service : Text
  pub publishers : List Publisher

abbrev is_port : ℤ → Bool
is_port n = not (ltb_ℤ n (pos 1)) && not (ltb_ℤ (pos 65535) n)

abbrev eq_ℤ : ℤ → ℤ → Bool
eq_ℤ a b = not (ltb_ℤ a b) && not (ltb_ℤ b a)

-- The test of the inner loop, without its negation.
usable : ℤ → Publisher → Bool
usable target p =
    eq_ℤ p.target_port target
    && is_port p.published_port
    && (is_empty p.protocol || text_eq p.protocol (bytes "tcp"))

reachable : Text → Text
reachable url =
    if text_eq url (bytes "0.0.0.0") || text_eq url (bytes "::") || is_empty url
    then bytes "127.0.0.1"
    else url

candidate : Config → Container → Publisher → Config
candidate cfg c p =
    let host = reachable p.url in
    let port = decimal_ℤ p.published_port in
    record cfg {
      name =
          cfg.name
          ++ bytes " (Docker "
          ++ c.service
          ++ b' ' ∷ join_host_port host port
          ++ bytes ")";
      host = host;
      port = port;
      socket = [];
    }

abbrev address_of : Config → Text
address_of c = join_host_port c.host c.port

-- The addresses seen, and the candidates, in order.
abbrev Found : Type 0
Found = List Text × List Config

add_publisher : Config → Container → ℤ → Publisher → Found → Found
unfolding usable candidate
add_publisher cfg c target p (seen, out) =
    let new = candidate cfg c p in
    if not (usable target p)
    then (seen, out)
    else if any (λ a. text_eq a (address_of new)) seen
    then (seen, out)
    else (address_of new ∷ seen, out ++ new ∷ [])

add_publishers : Config → Container → ℤ → List Publisher → Found → Found
add_publishers cfg c target [] f = f
add_publishers cfg c target (p ∷ ps) f =
    add_publishers cfg c target ps (add_publisher cfg c target p f)

add_containers : Config → ℤ → List Container → Found → Found
unfolding add_publishers
add_containers cfg target [] f = f
add_containers cfg target (c ∷ cs) f = add_containers cfg target cs (
    if is_empty cfg.host || not (text_eq c.service cfg.host)
    then f
    else add_publishers cfg c target c.publishers f)

pub parse_docker : Config → List Container → Result Text (List Config)
unfolding add_containers
parse_docker cfg cs = elim (atoi (if is_empty cfg.port then bytes "3306" else cfg.port)) [
  | none ↦ err (bytes "Docker discovery requires a valid connection port")
  | some target ↦
      if not (is_port target)
      then err (bytes "Docker discovery requires a valid connection port")
      else ok (add_containers cfg target cs ([], [])).1
]

-- A candidate of the configuration: only the address and the name differ.
pub record Derived (cfg c : Config) : Type 0 where
  pub user : c.user ≡ cfg.user
  pub password : c.password ≡ cfg.password
  pub database : c.database ≡ cfg.database
  pub tls : c.tls ≡ cfg.tls
  pub no_socket : c.socket ≡ []

abbrev seen_address : List Text → Text → Bool
seen_address seen a = any (λ b. text_eq b a) seen

-- Addresses are distinct.
abbrev pub Distinct : List Config → Type 0
Distinct [] = Unit
Distinct (c ∷ cs) = (seen_address (map (λ d. address_of d) cs) (address_of c) ≡ false) × Distinct cs

record Good (cfg : Config) (f : Found) : Type 0 where
  distinct : Distinct f.1
  derived : All (Derived cfg) f.1
  tracked : (a : Text) → seen_address f.0 a ≡ seen_address (map (λ d. address_of d) f.1) a

seen-append :
    (cs : List Config) (c : Config) (a : Text)
    → seen_address (map (λ d. address_of d) (cs ++ c ∷ [])) a
      ≡ (seen_address (map (λ d. address_of d) cs) a || text_eq (address_of c) a)
seen-append [] c a = ground arith
seen-append (d ∷ cs) c a = ground (arith, seen-append cs c a)

Distinct-append :
    (cs : List Config) (c : Config)
    → Distinct cs
    → seen_address (map (λ d. address_of d) cs) (address_of c) ≡ false
    → Distinct (cs ++ c ∷ [])
Distinct-append [] c u t = (refl, tt)
Distinct-append (d ∷ cs) c u t = ground (
  arith,
  seen-append cs c (address_of d),
  text_eq_iff (address_of c) (address_of d),
  text_eq_iff (address_of d) (address_of c),
  Distinct-append cs c u.1,
)

candidate-Derived : (cfg : Config) (c : Container) (p : Publisher) → Derived cfg (candidate cfg c p)
unfolding candidate
candidate-Derived cfg c p = ground arith

add_publisher-Good :
    (cfg : Config) (c : Container) (target : ℤ) (p : Publisher) (f : Found)
    → Good cfg f
    → Good cfg (add_publisher cfg c target p f)
unfolding add_publisher
add_publisher-Good cfg c target p (seen, out) g =
    let new = candidate cfg c p in
    elim (Bool-cases (usable target p)) [
      | inr u ↦ rw u g
      | inl u ↦ elim (Bool-cases (seen_address seen (address_of new))) [
        | inl s ↦ rw (u, s) g
        | inr s ↦
            rw (u, s)
              (record {
                distinct =
                    Distinct-append out new g.distinct (sym (g.tracked (address_of new)) ∙ s);
                derived =
                    All-append (Derived cfg) out (new ∷ []) g.derived
                      (candidate-Derived cfg c p, tt);
                tracked = λ a. ground (arith, seen-append out new a, g.tracked a);
              })
      ]
    ]

add_publishers-Good :
    (cfg : Config) (c : Container) (target : ℤ) (ps : List Publisher) (f : Found)
    → Good cfg f
    → Good cfg (add_publishers cfg c target ps f)
unfolding add_publishers
add_publishers-Good cfg c target [] f g = g
add_publishers-Good cfg c target (p ∷ ps) f g =
    add_publishers-Good cfg c target ps _ (add_publisher-Good cfg c target p f g)

add_containers-Good :
    (cfg : Config) (target : ℤ) (cs : List Container) (f : Found)
    → Good cfg f
    → Good cfg (add_containers cfg target cs f)
unfolding add_containers
add_containers-Good cfg target [] f g = g
add_containers-Good cfg target (c ∷ cs) f g =
    add_containers-Good cfg target cs _
      (elim (Bool-cases (is_empty cfg.host || not (text_eq c.service cfg.host))) [
        | inl e ↦ rw e g
        | inr e ↦ rw e (add_publishers-Good cfg c target c.publishers f g)
      ])

-- Of what Docker publishes, each address is offered once, and a candidate differs from the
-- configuration only in its address and name: user, password, database and TLS stay.
pub parse_docker_lem :
    (cfg : Config) (cs : List Container) (out : List Config)
    → parse_docker cfg cs ≡ ok out
    → Distinct out × All (Derived cfg) out
unfolding parse_docker
parse_docker_lem cfg cs out h =
    elim (Option-cases (atoi (if is_empty cfg.port then bytes "3306" else cfg.port))) [
      | inl e ↦ absurd (ground arith)
      | inr (target, e) ↦
          let g =
            add_containers-Good cfg target cs ([], [])
              (record { distinct = tt; derived = tt; tracked = λ a. refl }) in
          let same : out ≡ (add_containers cfg target cs ([], [])).1 = ground arith in
          rw same (g.distinct, g.derived)
    ]
