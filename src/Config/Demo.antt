-- ===== src/Config/Demo.antt =====
-- A stand-in for viper that keeps its defaults, and whose file and environment set nothing.
use btrfs_snapah_pow.Base.{
  ◌≡◌, refl, String, ◌==◌, false, sym, Option, none, some, ok, if◌then◌else◌,
}
use btrfs_snapah_pow.Config.{Config, Value, text, Viper}
use btrfs_snapah_pow.Config.Defaults.{number_of, ViperLaws}

abbrev text_of : Option Value → String
text_of (some (text s)) = s
text_of _ = ""

-- The state of the stand-in is its defaults.
abbrev pub Defaulted : Type 0
Defaulted = String → Option Value

abbrev pub config_of : Defaulted → Config
config_of v = record {
  server = record {
    host = text_of (v "server.host");
    port = number_of (v "server.port");
    grpc_port = number_of (v "server.grpc_port");
    tls_enabled = false;
    tls_cert = "";
    tls_key = "";
    tls_ca_cert = "";
  };
  database = record {
    driver = text_of (v "database.driver");
    host = "";
    port = 0;
    user = "";
    password = "";
    database = "";
  };
  auth = record {
    jwt_secret = "k";
    token_expiry = number_of (v "auth.token_expiry_hours");
    mtls_enabled = false;
  };
  btrfs = record {
    default_snapshot_dir = text_of (v "btrfs.default_snapshot_dir");
    max_snapshot_size_gb = 0;
  };
  agent = record {
    server_address = "";
    node_id = "";
    token = "";
    heartbeat_sec = number_of (v "agent.heartbeat_seconds");
    tls_cert = "";
    tls_key = "";
    tls_ca_cert = "";
  };
}

abbrev pub toy_viper : Viper Defaulted
toy_viper = record {
  set_config_file = λ path v. v;
  set_env_prefix = λ p v. v;
  automatic_env = λ v. v;
  set_default = λ k x v k'. if k == k' then some x else v k';
  read_in_config = λ v. (v, none);
  unmarshal = λ v. ok (config_of v);
}

unfoldable pub toy_laws : ViperLaws toy_viper
toy_laws = record {
  set_value = λ k v. none;
  default_value = λ k v. v k;
  default_file = λ path k v. refl;
  default_prefix = λ p k v. refl;
  default_env = λ k v. refl;
  default_set = λ k k' x v. refl;
  default_read = λ k v. refl;
  unmarshal_heartbeat = λ v cfg h. let same : config_of v ≡ cfg = cc in rw (sym same) refl;
  unmarshal_expiry = λ v cfg h. let same : config_of v ≡ cfg = cc in rw (sym same) refl;
}

abbrev pub nothing_set : Defaulted
nothing_set k = none
