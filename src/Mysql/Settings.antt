-- ===== src/Mysql/Settings.antt =====
-- internal/database/mysql/mysql.go: `connectionConfig`. Whether a text is an IP address
-- (`net.ParseIP`) is an argument.
mod Examples
use mathlib.Core.Option
use relvo.Base.{
  text_eq, is_blank, ℕ, ◌+◌, ◌-◌, ◌*◌, ◌≡◌, ◌≢◌, inl, inr, Bool, false, not, ◌&&◌, ◌||◌, Option,
  none, some, [], ◌∷◌, ◌++◌, map, arith, ltb, leb, ◌==◌, if◌then◌else◌, Option-cases, Result, ok,
  err, any, Text, bytes, text_eq_iff, is_empty, has_prefix, decimal, ℤ, pos, negsuc, ◌-ℤ◌,
}
use relvo.Data.{Config}
use relvo.Mysql.Guard.{max_result_bytes}

-- What the driver is given.
pub record Settings : Type 0 where
  pub user : Text
  pub password : Text
  pub database : Text
  pub tls_config : Text
  pub net : Text
  pub address : Text
  pub multi_statements : Bool
  pub interpolate_params : Bool
  pub parse_time : Bool
  pub max_allowed_packet : ℕ

abbrev has_byte : ℕ → Text → Bool
has_byte b s = any (λ c. c == b) s

digits_value : ℕ → Text → Option ℕ
digits_value n [] = some n
digits_value n (c ∷ s) = if leb 48 c && leb c 57 then digits_value (n * 10 + (c - 48)) s else none

-- `strconv.Atoi` of a text without a sign, of a value that an `int` holds.
unsigned : Text → Option ℕ
unfolding digits_value
unsigned [] = none
unsigned (c ∷ s) = elim (digits_value 0 (c ∷ s)) [
  | none ↦ none
  | some n ↦ if ltb 9223372036854775807 n then none else some n
]

-- `strconv.Atoi`
unfoldable pub atoi : Text → Option ℤ
unfolding unsigned
atoi [] = none
atoi (c ∷ s) =
    if c == b'+'
    then Option.map pos (unsigned s)
    else if c == b'-'
    then elim (unsigned s) [ none ↦ none | some n ↦ some (pos 0 -ℤ pos n) ]
    else Option.map pos (unsigned (c ∷ s))

pub valid_port : Text → Option ℕ
unfolding atoi
valid_port t = elim (atoi t) [
  | none ↦ none
  | some (negsuc n) ↦ none
  | some (pos n) ↦ if ltb n 1 || ltb 65535 n then none else some n
]

-- `net.JoinHostPort`
unfoldable pub join_host_port : Text → Text → Text
join_host_port host port =
    if has_byte b':' host then b'[' ∷ host ++ b']' ∷ b':' ∷ port else host ++ b':' ∷ port

abbrev or_default : Text → Text → Text
or_default d t = if is_empty t then d else t

pub tls_of : Text → Option Text
tls_of t =
    if is_empty t || text_eq t (bytes "true")
    then some (bytes "true")
    else if text_eq t (bytes "off")
    then some (bytes "false")
    else none

bad_host_byte : ℕ → Bool
bad_host_byte c =
    (c == 32) || (c == 47) || (c == 92) || (c == 9) || (c == 13) || (c == 10) || (c == 0)

module _ (is_ip : Text → Bool) where
  pub valid_host : Text → Bool
  valid_host h = not (any bad_host_byte h) && (not (has_byte b':' h) || is_ip h)

  -- A path is absolute if it begins with a slash (`filepath.IsAbs`).
  pub valid_socket : Text → Bool
  valid_socket s = has_prefix s (b'/' ∷ []) && not (has_byte 0 s)

  pub connection_config : Config → Result Text Settings
  connection_config cfg =
      if is_blank cfg.database || has_byte 0 cfg.database
      then err (bytes "database is required and must not contain NUL")
      else elim (tls_of cfg.tls) [
        | none ↦ err (bytes "TLS must be empty, true (verified TLS), or off")
        | some tls ↦ elim (valid_port (or_default (bytes "3306") cfg.port)) [
          | none ↦ err (bytes "port must be between 1 and 65535")
          | some p ↦
              let host = or_default (bytes "localhost") cfg.host in
              let tcp : Settings = record {
                user = cfg.user;
                password = cfg.password;
                database = cfg.database;
                tls_config = tls;
                net = bytes "tcp";
                address = join_host_port host (decimal p);
                multi_statements = false;
                interpolate_params = false;
                parse_time = false;
                max_allowed_packet = max_result_bytes;
              } in
              if not (valid_host host)
              then err (bytes "host must be a hostname or an unbracketed IP address without a port")
              else if is_empty cfg.socket
              then ok tcp
              else if not (valid_socket cfg.socket)
              then err (bytes "socket must be an absolute path without NUL")
              else ok (record tcp { net = bytes "unix"; address = cfg.socket })
        ]
      ]

-- What the settings of an accepted configuration are.
pub record IsSafe (cfg : Config) (s : Settings) : Type 0 where
  pub one_statement : s.multi_statements ≡ false
  pub no_interpolation : s.interpolate_params ≡ false
  pub verified : cfg.tls ≢ bytes "off" → s.tls_config ≡ bytes "true"
  pub unix : cfg.socket ≢ [] → (s.net ≡ bytes "unix") × (s.address ≡ cfg.socket)
  pub tcp : cfg.socket ≡ [] → s.net ≡ bytes "tcp"
  pub same_user : (s.user ≡ cfg.user) × (s.password ≡ cfg.password) × (s.database ≡ cfg.database)

tls_verified : (t u : Text) → tls_of t ≡ some u → t ≢ bytes "off" → u ≡ bytes "true"
unfolding tls_of
tls_verified t u h n = ground (arith, text_eq_iff t (bytes "off"))

-- Any accepted configuration keeps to one statement at a time with placeholders on the server, and
-- verifies TLS unless it is turned off by name; a socket takes the place of the network address.
pub connection_config-IsSafe :
    (is_ip : Text → Bool) (cfg : Config) (s : Settings)
    → connection_config is_ip cfg ≡ ok s
    → IsSafe cfg s
unfolding connection_config
connection_config-IsSafe is_ip cfg s h = elim (Option-cases (tls_of cfg.tls)) [
  | inl e ↦ absurd (ground arith)
  | inr (tls, e) ↦ elim (Option-cases (valid_port (or_default (bytes "3306") cfg.port))) [
    | inl q ↦ absurd (ground arith)
    | inr (p, q) ↦ ground (arith, tls_verified cfg.tls tls e)
  ]
]
