-- ===== src/Server/Start.antt =====
-- `newServer` of cmd/server/main.go, and what its `main` starts: the limiters, the gauges of
-- internal/metrics/metrics.go, and the credentials of gRPC.
use btrfs_snapah_pow.Base.{
  ℕ, ◌+◌, String, ◌==◌, Bool, ◌&&◌, List, [], ◌∷◌, Result, ok, err, ◌>>=◌, length, if◌then◌else◌,
}
use btrfs_snapah_pow.Base.Int.{minute}
use btrfs_snapah_pow.Alerts.{config_from_env}
use btrfs_snapah_pow.Auth.{new_manager}
use btrfs_snapah_pow.Auth.Users.{UserStore, new_user_store, add}
use btrfs_snapah_pow.Config.{Viper, load}
use btrfs_snapah_pow.Hub
use btrfs_snapah_pow.RateLimit
use btrfs_snapah_pow.Replication
use btrfs_snapah_pow.Replication.{Job}
use btrfs_snapah_pow.Scheduler.{new_scheduler}
use btrfs_snapah_pow.Storage.Models.{Node}
use btrfs_snapah_pow.Storage.Gorm.{Gorm}
use btrfs_snapah_pow.Storage.Db.{new_db, db_from_env, list_nodes, list_snapshots, list_policies}
use btrfs_snapah_pow.Tls
use btrfs_snapah_pow.Tls.{Files, server_tls, certs_exist}
use btrfs_snapah_pow.Server.Types.{Libraries, Server, db}
use btrfs_snapah_pow.Server.Admin.{or_default}
use btrfs_snapah_pow.Server.Routes.{System}

-- The ids and salts of the two users.
pub record Seeds : Type 0 where
  pub admin_id : String
  pub admin_salt : ℕ
  pub operator_id : String
  pub operator_salt : ℕ

-- The gauges that `main` sets.
pub record Gauges : Type 0 where
  pub nodes_online : ℕ
  pub snapshots_total : ℕ
  pub policies_active : ℕ

module _ (g : Gorm) {C W B : Type 0} (lib : Libraries C W B) where
  open g use {Conn}

  unfoldable pub seeded_users : Seeds → UserStore
  seeded_users seeds =
      let admin_pass = or_default (lib.env "SNAPAH_ADMIN_PASSWORD") "admin123" in
      let users =
        (add lib.bcrypt new_user_store seeds.admin_salt seeds.admin_id "admin" admin_pass
          "admin").0 in
      (add lib.bcrypt users seeds.operator_salt seeds.operator_id "operator" "operator123"
        "operator").0

  -- `newServer`, given the secret and the expiry of the configuration, over a database. `memory` and
  -- `world` are what there is before.
  unfoldable pub new_server : Seeds → String → ℕ → Conn → (ℕ → Job) → W → Server Conn C W
  new_server seeds jwt_secret token_expiry conn memory world = record {
    scheduler = new_scheduler lib.cron;
    auth_mgr = new_manager jwt_secret token_expiry;
    users = seeded_users seeds;
    repl = Replication.new_manager conn world memory;
    alerts_cfg = config_from_env lib.env;
    hub = Hub.new;
    tasks = [];
    snapshots_created = 0;
    snapshots_deleted = 0;
  }

  -- The server and the limiters of `main`, or the error of the database.
  unfoldable pub start_system : Seeds → String → ℕ → (ℕ → Job) → W → Result (System Conn C W)
  start_system seeds jwt_secret token_expiry memory world = do
    conn ← new_db g (db_from_env (lib.env "DATABASE_URL") "data/snapah.db")
    ok record {
      login_limiter = RateLimit.new 10 minute;
      api_limiter = RateLimit.new 200 minute;
      server = new_server seeds jwt_secret token_expiry conn memory world;
    }

  -- `main` up to the server: without a configuration or a database it does not start.
  unfoldable pub start_main :
      {V : Type 0} → Viper V → V → Seeds → (ℕ → Job) → W → Result (System Conn C W)
  start_main viper v seeds memory world = do
    cfg ← (load viper "config.yaml" v).1
    start_system seeds cfg.auth.jwt_secret cfg.auth.token_expiry memory world

  -- the loop that counts the nodes online
  unfoldable pub count_online : List Node → ℕ
  count_online [] = 0
  count_online (n ∷ ns) =
      let rest = count_online ns in if n.status == "online" then rest + 1 else rest

  abbrev or_kept : {A : Type 0} → ℕ → (List A → ℕ) → Result (List A) → ℕ
  or_kept old f (ok xs) = f xs
  or_kept old f (err e) = old

  -- One round of the goroutine: a list that cannot be read leaves its gauge as it is.
  unfoldable pub refresh_gauges : Server Conn C W → Gauges → Gauges
  refresh_gauges s m = record {
    nodes_online = or_kept m.nodes_online count_online (list_nodes g (db s));
    snapshots_total = or_kept m.snapshots_total length (list_snapshots g "" (db s));
    policies_active = or_kept m.policies_active length (list_policies g "" (db s));
  }

-- How gRPC is served: without TLS, with a configuration, or not at all, with an error.
pub data Credentials (T : Type 0) : Type 0 where
  insecure : Credentials T
  with_tls : T → Credentials T
  fatal : String → Credentials T

abbrev credentials_of : {T : Type 0} → Result T → Credentials T
credentials_of (ok t) = with_tls t
credentials_of (err e) = fatal e

unfoldable pub grpc_credentials :
    {W K X P : Type 0}
    → Files W K X P
    → Bool
    → String
    → String
    → String
    → W
    → Credentials (Tls.Config K P)
grpc_credentials files tls_enabled cert key ca w =
    if tls_enabled && certs_exist files cert key ca w
    then credentials_of (server_tls files cert key ca w)
    else insecure
