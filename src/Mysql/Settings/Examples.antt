-- ===== src/Mysql/Settings/Examples.antt =====
-- A configuration with a socket.
use relvo.Base.{is_blank, ◌≡◌, refl, false, [], ok, bytes}
use relvo.Data.{Config}
use relvo.Mysql.Settings.{
  Settings, valid_port, tls_of, bad_host_byte, valid_host, valid_socket, connection_config, IsSafe,
  connection_config-IsSafe,
}

abbrev local : Config
local = record {
  name = bytes "local";
  host = [];
  port = [];
  user = bytes "reader";
  password = [];
  database = bytes "shop";
  socket = bytes "/run/mysql.sock";
  tls = [];
}

abbrev settings : Settings
settings = record {
  user = bytes "reader";
  password = [];
  database = bytes "shop";
  tls_config = bytes "true";
  net = bytes "unix";
  address = bytes "/run/mysql.sock";
  multi_statements = false;
  interpolate_params = false;
  parse_time = false;
  max_allowed_packet = 8388608;
}

local-settings : connection_config (λ h. false) local ≡ ok settings
unfolding connection_config valid_host valid_socket valid_port tls_of is_blank bad_host_byte
local-settings = refl

connection_config-IsSafe_example : IsSafe local settings
connection_config-IsSafe_example =
    connection_config-IsSafe (λ h. false) local settings local-settings
