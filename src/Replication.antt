-- ===== src/Replication.antt =====
-- internal/replication/replication.go. A `*Job` is an address: the map and the caller share the job
-- that stands there. The remote manager that gRPC reaches is the parameter `Target`.
pub mod Keys
pub mod Outcomes
pub mod Payload
mod Examples
use btrfs_snapah_pow.Base.{
  ℕ, String, ◌++◌, Bool, true, Option, none, some, List, [], map, GoMap, lookup, insert, Result, ok,
  err, nat_eq, if◌then◌else◌,
}
use mathlib.Core.Option
use btrfs_snapah_pow.Btrfs.{Exec, send_snapshot}
use btrfs_snapah_pow.Storage.Models.{Event}
use btrfs_snapah_pow.Storage.Gorm.{Gorm}
use btrfs_snapah_pow.Storage.Db.{create_event}

pub record Job : Type 0 where
  pub id : String
  pub snapshot_id : String
  pub snapshot_path : String
  pub parent_path : String
  pub target_node_id : String
  pub target_address : String
  pub target_dest_path : String
  pub status : String
  pub error : String
  pub started_at : ℕ
  pub finished_at : ℕ

-- `pb.CreateSnapshotRequest`
pub record Request : Type 0 where
  pub node_id : String
  pub subvolume_path : String
  pub snapshot_name : String
  pub readonly : Bool

-- `grpc.NewClient` of an address, and the call of the client's `CreateSnapshot`, which answers a path.
pub record Target (W : Type 0) : Type 0 where
  pub new_client : String → W → W × Result (Unit {0})
  pub create_snapshot : String → Request → W → W × Result String

-- The clock readings of one run, and its event's id, which is made of one.
pub record Times : Type 0 where
  pub started : ℕ
  pub snap_stamp : String
  pub event_id : String
  pub finished : ℕ

-- The manager, with the jobs at their addresses, its database, and the world of its commands.
pub record Manager (D W : Type 0) : Type 0 where
  pub jobs : GoMap ℕ
  pub memory : ℕ → Job
  pub db : D
  pub world : W

-- a store to one address
abbrev pub set : ℕ → Job → (ℕ → Job) → ℕ → Job
set a job memory b = if nat_eq a b then job else memory b

abbrev pub job_event : String → String → String → String → Job → Event
job_event id event_type message severity job = record {
  id = id;
  event_type = event_type;
  node_id = job.target_node_id;
  snapshot_id = "";
  message = message;
  severity = severity;
  metadata = "";
  created_at = 0;
  deleted_at = none;
}

-- what is asked of the target
abbrev pub request_of : Times → Job → Request
request_of t job = record {
  node_id = job.target_node_id;
  subvolume_path = job.target_dest_path;
  snapshot_name = "replica_" ++ t.snap_stamp;
  readonly = true;
}

unfoldable pub new_manager : {D W : Type 0} → D → W → (ℕ → Job) → Manager D W
new_manager db world memory = record { jobs = []; memory = memory; db = db; world = world }

-- The jobs of the map, in some order.
unfoldable pub list_jobs : {D W : Type 0} → Manager D W → List Job
list_jobs m = map (λ e. m.memory e.1) m.jobs

unfoldable pub get_job : {D W : Type 0} → String → Manager D W → Option Job
get_job id m = Option.map m.memory (lookup id m.jobs)

module _ (g : Gorm) {W : Type 0} where
  open g use {Conn}

  -- the first lines of `Replicate`, under the lock
  unfoldable pub start : ℕ → Times → Manager Conn W → Manager Conn W
  start a t m =
      let job = record (m.memory a) { status = "running"; started_at = t.started } in
      record m { memory = set a job m.memory; jobs = insert job.id a m.jobs }

  -- `fail`: the event is written after the lock is released, and its error is dropped.
  unfoldable pub fail : ℕ → Times → String → Manager Conn W → Manager Conn W × Result (Unit {0})
  fail a t message m =
      let job = record (m.memory a) {
        status = "failed";
        error = message;
        finished_at = t.finished;
      } in
      let event =
        job_event t.event_id "replication_failed" ("Fallo replicación: " ++ message) "error" job in
      (record m { memory = set a job m.memory; db = (create_event g event m.db).0 }, err message)

  -- the last lines of `Replicate`, where the target answered a path
  unfoldable pub complete : ℕ → Times → String → Manager Conn W → Manager Conn W × Result (Unit {0})
  complete a t path m =
      let job = m.memory a in
      let event =
        job_event t.event_id "replication_completed"
          ("Snapshot replicado: " ++ (job.snapshot_path ++ (" -> " ++ path))) "info" job in
      (
        record m {
          memory = set a (record job { status = "done"; finished_at = t.finished }) m.memory;
          db = (create_event g event m.db).0;
        },
        ok tt,
      )

  -- The rest of `Replicate` after each call: what it does with the call's answer.
  unfoldable pub created :
      ℕ → Times → Manager Conn W → W × Result String → Manager Conn W × Result (Unit {0})
  created a t m (w, ok path) = complete a t path (record m { world = w })
  created a t m (w, err e) = fail a t ("crear snapshot destino: " ++ e) (record m { world = w })

  module _ (exec : Exec W) (target : Target W) where
    unfoldable pub connected :
        ℕ → Times → Manager Conn W → W × Result (Unit {0}) → Manager Conn W × Result (Unit {0})
    connected a t m (w, ok _) =
        created a t m
          (target.create_snapshot (m.memory a).target_address (request_of t (m.memory a)) w)
    connected a t m (w, err e) =
        fail a t ("conectar a " ++ ((m.memory a).target_address ++ (": " ++ e)))
          (record m { world = w })

    unfoldable pub sent_on :
        ℕ → Times → Manager Conn W → W × Result String → Manager Conn W × Result (Unit {0})
    sent_on a t m (w, ok stream) = connected a t m (target.new_client (m.memory a).target_address w)
    sent_on a t m (w, err e) = fail a t ("btrfs send: " ++ e) (record m { world = w })

    unfoldable pub replicate : ℕ → Times → Manager Conn W → Manager Conn W × Result (Unit {0})
    replicate a t m =
        let m' = start a t m in
        let job = m'.memory a in
        sent_on a t m' (send_snapshot exec job.snapshot_path job.parent_path m'.world)
