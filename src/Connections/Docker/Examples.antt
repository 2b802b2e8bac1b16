-- ===== src/Connections/Docker/Examples.antt =====
-- A container that publishes its port on both address families.
use relvo.Base.{text_eq, decimal_ℤ, String, ◌≡◌, refl, List, [], ◌∷◌, ok, All, bytes, pos}
use relvo.Data.{Config}
use relvo.Mysql.Settings.{atoi, join_host_port}
use relvo.Connections.Docker.{
  Publisher, Container, reachable, add_publisher, parse_docker, Derived, Distinct, parse_docker_lem,
}

abbrev config : Config
config = record {
  name = bytes "shop";
  host = bytes "mysql";
  port = [];
  user = bytes "reader";
  password = [];
  database = bytes "shop";
  socket = [];
  tls = [];
}

abbrev published : String → Publisher
published u = record {
  url = bytes u;
  target_port = pos 3306;
  published_port = pos 3307;
  protocol = bytes "tcp";
}

abbrev containers : List Container
containers =
    record { service = bytes "mysql"; publishers = published "0.0.0.0" ∷ published "::" ∷ [] } ∷ []

abbrev found : List Config
found =
    record config {
      name = bytes "shop (Docker mysql 127.0.0.1:3307)";
      host = bytes "127.0.0.1";
      port = bytes "3307";
    }
    ∷ []

containers_found : parse_docker config containers ≡ ok found
unfolding parse_docker atoi text_eq add_publisher join_host_port reachable decimal_ℤ
containers_found = refl

parse_docker_lem_example : Distinct found × All (Derived config) found
parse_docker_lem_example = parse_docker_lem config containers found containers_found
