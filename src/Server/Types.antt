-- ===== src/Server/Types.antt =====
-- The state of cmd/server/main.go, the requests that its handlers decode, and what it calls of code
-- that is not in the repository.
use btrfs_snapah_pow.Base.{ℕ, String, Bool, List, Result}
use btrfs_snapah_pow.Http.{Json}
use btrfs_snapah_pow.Storage.Models.{Node, Snapshot, Policy, Event}
use btrfs_snapah_pow.Auth.{Jwt, Manager}
use btrfs_snapah_pow.Auth.Users.{Bcrypt, UserStore}
use btrfs_snapah_pow.ApiKeys.{Crypto}
use btrfs_snapah_pow.Alerts
use btrfs_snapah_pow.Alerts.{Env}
use btrfs_snapah_pow.Btrfs.{Exec}
use btrfs_snapah_pow.Scheduler.{Cron, Scheduler}
use btrfs_snapah_pow.Replication
use btrfs_snapah_pow.Replication.{Job, Times, Target}
use btrfs_snapah_pow.RateLimit.{Clock}
use btrfs_snapah_pow.Hub.{Hub}

-- The request bodies of the handlers.
pub record LoginRequest : Type 0 where
  pub username : String
  pub password : String

pub record SnapshotRequest : Type 0 where
  pub node_id : String
  pub subvolume_path : String
  pub snapshot_name : String
  pub readonly : Bool

pub record DeleteRequest : Type 0 where
  pub snapshot_id : String
  pub force : Bool

pub record RestoreRequest : Type 0 where
  pub snapshot_id : String
  pub restore_path : String

pub record KeyRequest : Type 0 where
  pub name : String
  pub role : String
  pub expires_days : ℕ

pub record AlertRequest : Type 0 where
  pub level : String
  pub title : String
  pub message : String

pub record ReplicateRequest : Type 0 where
  pub snapshot_id : String
  pub target_node_id : String
  pub target_address : String
  pub target_dest_path : String
  pub parent_path : String

-- `json.NewDecoder(r.Body).Decode(&req)` of a body, for each type of `req`.
pub record Decoders (B : Type 0) : Type 0 where
  pub login : B → Result LoginRequest
  pub snapshot : B → Result SnapshotRequest
  pub delete : B → Result DeleteRequest
  pub restore : B → Result RestoreRequest
  pub policy : B → Result Policy
  pub key : B → Result KeyRequest
  pub revoke : B → Result String
  pub alert : B → Result AlertRequest
  pub replicate : B → Result ReplicateRequest

-- `pb.Node`
pub record PbNode : Type 0 where
  pub id : String
  pub hostname : String
  pub address : String
  pub status : String
  pub last_seen : String

-- `pb.Snapshot`
pub record PbSnapshot : Type 0 where
  pub id : String
  pub node_id : String
  pub snapshot_path : String
  pub subvolume_path : String
  pub created_at : String
  pub is_readonly : Bool
  pub status : String

-- `pb.DeleteSnapshotResponse`
pub record DeleteResponse : Type 0 where
  pub success : Bool
  pub message : String

-- `pb.Event`, as `StreamEvents` sends it
pub record PbEvent : Type 0 where
  pub id : String
  pub event_type : String
  pub node_id : String
  pub message : String
  pub timestamp : String
  pub severity : String

-- What the JSON encoder makes of a model, of a job, of a time and of the generated messages.
pub record Encoders : Type 0 where
  pub node : Node → Json
  pub snapshot : Snapshot → Json
  pub policy : Policy → Json
  pub event : Event → Json
  pub job : Job → Json
  pub time : ℕ → Json
  pub pb_snapshot : PbSnapshot → Json
  pub delete_response : DeleteResponse → Json

-- The libraries. `format` is `Format(time.RFC3339)`; `env` is the environment.
pub record Libraries (C W B : Type 0) : Type 0 where
  pub jwt : Jwt
  pub bcrypt : Bcrypt
  pub crypto : Crypto
  pub exec : Exec W
  pub cron : Cron C
  pub target : Target W
  pub decode : Decoders B
  pub encode : Encoders
  pub format : ℕ → String
  pub env : Env
  pub app_version : String

-- What one request reads of the clock and of chance: the limiter's clock, the time at which the
-- token is checked, two readings for the handler, the formatted time of a snapshot's path, the id
-- that `generateID` makes with its first six characters, and the random bytes of a key.
pub record Readings : Type 0 where
  pub clock : Clock
  pub token_time : ℕ
  pub now : ℕ
  pub later : ℕ
  pub stamp : String
  pub id : String
  pub short_id : String
  pub raw : Result (List ℕ)
  pub address : ℕ

-- A goroutine that waits to run: an alert on its way, or the replication of the job at an address.
pub data Task : Type 0 where
  alerting : Alerts.Task → Task
  replicating : ℕ → Task

pub record Server (D C W : Type 0) : Type 0 where
  pub scheduler : Scheduler C
  pub auth_mgr : Manager
  pub users : UserStore
  pub repl : Replication.Manager D W
  pub alerts_cfg : Alerts.Config
  pub hub : Hub Json
  pub tasks : List Task
  pub snapshots_created : ℕ
  pub snapshots_deleted : ℕ

module _ {D C W : Type 0} where
  -- the shared database and world
  abbrev pub db : Server D C W → D
  db s = s.repl.db

  abbrev pub with_db : D → Server D C W → Server D C W
  with_db d s = record s { repl = record s.repl { db = d } }

  abbrev pub with_world : W → Server D C W → Server D C W
  with_world w s = record s { repl = record s.repl { world = w } }
