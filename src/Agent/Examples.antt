-- ===== src/Agent/Examples.antt =====
-- The agent at concrete inputs.
use btrfs_snapah_pow.Base.{
  ℕ, ◌+◌, ◌≡◌, refl, Bool, true, false, none, some, List, [], ◌∷◌, ok, err, length, nat_eq,
  if◌then◌else◌, arith,
}
use btrfs_snapah_pow.Base.Int.{is_positive}
use btrfs_snapah_pow.Alerts.{Env}
use btrfs_snapah_pow.Config.{Config}
use btrfs_snapah_pow.Tls.{Files}
use btrfs_snapah_pow.Server.Types.{PbNode}
use btrfs_snapah_pow.Agent.{
  Client, insecure, tick, signal, server_addr, token, heartbeat_sec, interval, loop, run,
}
use btrfs_snapah_pow.Agent.Heartbeats.{run-ticks}
use btrfs_snapah_pow.Agent.Settings.{Chosen, settings-Chosen, interval_positive}

abbrev nothing_set : Env
nothing_set name = ""

abbrev config : Config
config = record {
  server = record {
    host = "0.0.0.0";
    port = 8080;
    grpc_port = 9090;
    tls_enabled = true;
    tls_cert = "";
    tls_key = "";
    tls_ca_cert = "";
  };
  database = record {
    driver = "sqlite";
    host = "";
    port = 0;
    user = "";
    password = "";
    database = "";
  };
  auth = record { jwt_secret = "k"; token_expiry = 24; mtls_enabled = false };
  btrfs = record { default_snapshot_dir = ".snapshots"; max_snapshot_size_gb = 0 };
  agent = record {
    server_address = "nas:9090";
    node_id = "";
    token = "";
    heartbeat_sec = 15;
    tls_cert = "agent.crt";
    tls_key = "agent.key";
    tls_ca_cert = "ca.crt";
  };
}

settings-Chosen_run :
    Chosen "" (some "nas:9090") "localhost:9090" (server_addr nothing_set (some config))
    × Chosen "" (some "") "demo-token" (token nothing_set (some config))
settings-Chosen_run = settings-Chosen nothing_set (some config)

interval_positive_run : is_positive (interval (some config)) ≡ true
unfolding heartbeat_sec
interval_positive_run = interval_positive (some config) (omega arith)

-- files that all exist
abbrev files : Files ℕ ℕ ℕ ℕ
files = record {
  load_x509_key_pair = λ cert key fs. ok 1;
  read_file = λ f fs. ok 2;
  append_certs_from_pem = λ bytes. some 3;
  is_not_exist = λ f fs. false;
}

abbrev nas : PbNode
nas = record {
  id = "n1";
  hostname = "nas";
  address = "nas:9090";
  status = "online";
  last_seen = "";
}

-- a server that answers the first heartbeat and then is gone; its state counts the calls
abbrev gone_soon : Client ℕ ℕ ℕ
gone_soon = record {
  new_client = λ address creds. ok 7;
  register_node = λ conn hostname address token n. (n, ok nas);
  list_snapshots = λ conn id n. (n + 1, if nat_eq n 0 then ok [] else err "unavailable");
}

run-ticks_run :
    (answers : List Bool) × ((run gone_soon nothing_set
        (ok "nas")
        none
        insecure
        (tick ∷ tick ∷ tick ∷ signal ∷ [])
        0).1
      ≡ ok answers)
    × (length answers ≡ 3)
run-ticks_run =
    run-ticks gone_soon nothing_set (ok "nas") none insecure (tick ∷ tick ∷ tick ∷ signal ∷ []) 0 7
      nas refl refl

two_failures :
    run gone_soon nothing_set (ok "nas") none insecure (tick ∷ tick ∷ tick ∷ signal ∷ []) 0
    ≡ (3, ok (true ∷ false ∷ false ∷ []))
unfolding run loop
two_failures = refl
