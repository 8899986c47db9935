-- ===== src/Server/Runs.antt =====
-- The runs of the server of cmd/server/main.go: requests, calls, replications, policies that fire and
-- sweeps, in any order. What is between two of its locks is one step; a replication is two, its start
-- and the rest.
use btrfs_snapah_pow.Base.{ℕ, ◌≡◌, ◌≢◌, String, Bool, List, ◌∷◌, none, some, lookup}
use mathlib.Core.List
use btrfs_snapah_pow.Btrfs.{send_snapshot}
use btrfs_snapah_pow.Http.{Writer, Request, fresh}
use btrfs_snapah_pow.RateLimit.{sweep}
use btrfs_snapah_pow.Replication.{Times, start, sent_on}
use btrfs_snapah_pow.Scheduler
use btrfs_snapah_pow.Scheduler.{Scheduler, add_policy, execute}
use btrfs_snapah_pow.Scheduler.Policies.{CronLaws}
use btrfs_snapah_pow.Storage.Gorm.{Gorm}
use btrfs_snapah_pow.Server.Types.{
  SnapshotRequest, Libraries, Readings, Server, Task, replicating, with_db, with_world,
}
use btrfs_snapah_pow.Server.Grpc.{
  register_node, rpc_create_snapshot, rpc_delete_snapshot, start_stream,
}
use btrfs_snapah_pow.Server.Routes.{System, serve}

module _ (g : Gorm) {C W B : Type 0} (lib : Libraries C W B) (laws : CronLaws lib.cron)
    (files : Writer → Request B → Writer) (accept : Writer → Request B → Writer × Bool) where
  open g use {Conn}

  abbrev State : Type 0
  State = System Conn C W

  abbrev with_server : Server Conn C W → State → State
  with_server s sys = record sys { server = s }

  -- The id of a request is new to the scheduler, and its address is not that of a registered job.
  abbrev pub IsNew : Readings → Server Conn C W → Type 0
  IsNew rd s =
      (lookup rd.id s.scheduler.entry_ids ≡ none)
      × ((id : String) → lookup id s.repl.jobs ≢ some rd.address)

  pub data Step : State → State → Type 0 where
    request :
        (path : String) (rd : Readings) (r : Request B) (sys : State)
        → IsNew rd sys.server
        → Step sys (serve g lib files accept path rd fresh r sys).1
    register :
        (rd : Readings) (hostname address token : String) (sys : State)
        → Step sys (with_server (register_node g lib rd hostname address token sys.server).0 sys)
    create :
        (rd : Readings) (req : SnapshotRequest) (sys : State)
        → Step sys (with_server (rpc_create_snapshot g lib rd req sys.server).0 sys)
    delete :
        (id : String) (sys : State)
        → Step sys (with_server (rpc_delete_snapshot g lib id sys.server).0 sys)
    stream :
        (rd : Readings) (node_id : String) (sys : State)
        → Step sys (with_server (start_stream g lib rd node_id sys.server).0 sys)
    begin_replication :
        (a : ℕ) (t : Times) (before after : List Task) (sys : State)
        → sys.server.tasks ≡ List.◌++◌ before (replicating a ∷ after)
        → Step sys (
            with_server
              (record sys.server {
                repl = start g a t sys.server.repl;
                tasks = List.◌++◌ before after;
              })
              sys)
    end_replication :
        (a : ℕ) (t : Times) (sys : State)
        → (sys.server.repl.memory a).status ≡ "running"
        → Step sys (
            with_server
              (record sys.server {
                repl =
                    (sent_on g lib.exec lib.target a t sys.server.repl (
                      send_snapshot lib.exec
                        (sys.server.repl.memory a).snapshot_path
                        (sys.server.repl.memory a).parent_path
                        sys.server.repl.world)).0;
              })
              sys)
    fire :
        (e : ℕ) (p : Scheduler.Policy) (ts : String) (sys : State)
        → laws.live e sys.server.scheduler.cron ≡ some p
        → Step sys
            (with_server (with_world (execute lib.exec ts p sys.server.repl.world) sys.server) sys)
    sweep_limiters :
        (t u : ℕ) (sys : State)
        → Step sys (record sys {
          login_limiter = sweep t sys.login_limiter;
          api_limiter = sweep u sys.api_limiter;
        })
    -- what the watchdog, the alerts and other programs do to the database and to the world
    outside :
        (d : Conn) (w : W) (sys : State)
        → Step sys (with_server (with_db d (with_world w sys.server)) sys)

  pub data Reach (sys : State) : State → Type 0 where
    here : Reach sys sys
    next : {sys' sys'' : State} → Reach sys sys' → Step sys' sys'' → Reach sys sys''
