-- ===== src/Server/Demo.antt =====
-- A server over the stand-ins of the parts, with decoders that know one request of each kind.
use btrfs_snapah_pow.Base.{ℕ, suc, ◌+◌, ◌*◌, String, true, false, none, [], ◌∷◌, ok, err}
use btrfs_snapah_pow.Http.{Json, Request}
use btrfs_snapah_pow.Auth.Demo.{demo_jwt, plain_bcrypt, manager}
use btrfs_snapah_pow.Scheduler.Listed.{Entries, toy_cron}
use btrfs_snapah_pow.Storage.Models.{Snapshot, Policy}
use btrfs_snapah_pow.Storage.Memory.{Memory, empty_memory}
use btrfs_snapah_pow.Alerts.{config_from_env}
use btrfs_snapah_pow.Hub
use btrfs_snapah_pow.Replication.{Job}
use btrfs_snapah_pow.Server.Types.{SnapshotRequest, Decoders, Encoders, Libraries, Readings, Server}
use btrfs_snapah_pow.Server.Start.{Seeds}

abbrev pub snapshot : Snapshot
snapshot = record {
  id = "s1";
  node_id = "n1";
  subvolume_path = "/data";
  snapshot_path = "/data/.snapshots/s1";
  uuid = "";
  parent_uuid = "";
  is_read_only = true;
  size_bytes = 0;
  status = "active";
  error_message = "";
  created_at = 0;
  expires_at = none;
  deleted_at = none;
}

-- enabled, and without a schedule
abbrev pub nightly : Policy
nightly = record {
  id = "";
  name = "nightly";
  node_id = "n1";
  subvolume_path = "/data";
  schedule = "";
  retention_hourly = 0;
  retention_daily = 1;
  retention_weekly = 0;
  retention_monthly = 0;
  read_only = true;
  replicate = false;
  replicate_target = "";
  enabled = true;
  created_at = 0;
  updated_at = 0;
  deleted_at = none;
}

abbrev pub wanted : SnapshotRequest
wanted = record { node_id = "n1"; subvolume_path = "/data"; snapshot_name = "s"; readonly = true }

abbrev decoders : Decoders String
decoders = record {
  login = λ b. ok (record { username = "ana"; password = b });
  snapshot = λ b. ok wanted;
  delete = λ b. ok (record { snapshot_id = b; force = false });
  restore = λ b. ok (record { snapshot_id = b; restore_path = "/restore" });
  policy = λ b. ok nightly;
  key = λ b. err "EOF";
  revoke = λ b. ok b;
  alert = λ b. err "EOF";
  replicate = λ b. ok (record {
    snapshot_id = b;
    target_node_id = "n2";
    target_address = "n2:50051";
    target_dest_path = "/backup";
    parent_path = "";
  });
}

abbrev encoders : Encoders
encoders = record {
  node = λ n. Json.str n.id;
  snapshot = λ s. Json.str s.id;
  policy = λ p. Json.str p.id;
  event = λ e. Json.str e.id;
  job = λ j. Json.str j.id;
  time = λ t. Json.str "";
  pb_snapshot = λ s. Json.str s.id;
  delete_response = λ a. Json.bool a.success;
}

-- The world counts the commands; every command succeeds.
abbrev pub lib : Libraries Entries ℕ String
lib = record {
  jwt = demo_jwt;
  bcrypt = plain_bcrypt;
  crypto = record { sha256 = λ s. []; add_days = λ t days. t + days * 86400000000000 };
  exec = record {
    run = λ args input w. (suc w, record { stdout = ""; stderr = ""; combined = ""; error = none });
  };
  cron = toy_cron;
  target = record {
    new_client = λ address w. (w, ok tt);
    create_snapshot = λ address request w. (suc w, ok "/backup/.snapshots/replica");
  };
  decode = decoders;
  encode = encoders;
  format = λ t. "2026-01-01T12:00:00Z";
  env = λ name. "";
  app_version = "dev";
}

abbrev pub readings : Readings
readings = record {
  clock = record { since = 0; now = 0 };
  token_time = 7;
  now = 5;
  later = 6;
  stamp = "20260101_120000";
  id = "r1";
  short_id = "r1";
  raw = err "no entropy";
  address = 3;
}

-- a request with the token that the stand-in signs for an operator
abbrev pub sent : String → String → Request String
sent method body = record {
  method = method;
  remote_addr = "10.0.0.9:4000";
  header = ("Authorization", "Bearer t") ∷ [];
  query = [];
  body = body;
}

abbrev pub seeds : Seeds
seeds = record { admin_id = "u0"; admin_salt = 0; operator_id = "u2"; operator_salt = 1 }

abbrev pub no_job : ℕ → Job
no_job a = record {
  id = "";
  snapshot_id = "";
  snapshot_path = "";
  parent_path = "";
  target_node_id = "";
  target_address = "";
  target_dest_path = "";
  status = "";
  error = "";
  started_at = 0;
  finished_at = 0;
}

-- a server with one user and one snapshot
abbrev pub server : Server Memory Entries ℕ
server = record {
  scheduler = record { policies = []; entry_ids = []; cron = [] };
  auth_mgr = manager;
  users =
      ("ana", record { id = "u1"; username = "ana"; password_hash = "pw"; role = "operator" }) ∷ [];
  repl = record {
    jobs = [];
    memory = no_job;
    db = record empty_memory { snapshots = snapshot ∷ [] };
    world = 0;
  };
  alerts_cfg = config_from_env lib.env;
  hub = Hub.new;
  tasks = [];
  snapshots_created = 0;
  snapshots_deleted = 0;
}
