-- ===== src/Server/Handlers.antt =====
-- The HTTP handlers of cmd/server/main.go for logins, nodes, snapshots, restores, events and
-- replications. A handler runs behind the middlewares, which have put the role into the header.
use btrfs_snapah_pow.Base.{
  ℕ, String, ◌++◌, ◌==◌, Bool, true, false, not, ◌&&◌, ◌||◌, List, [], ◌∷◌, none, Result, ok, err,
  is_empty, if◌then◌else◌,
}
use mathlib.Core.List
use btrfs_snapah_pow.Http.{Handler, Writer, Request, Json, end, field, get, write_header}
use btrfs_snapah_pow.Auth.{generate}
use btrfs_snapah_pow.Auth.Users.{User, authenticate}
use btrfs_snapah_pow.Storage.Models.{Snapshot, Event}
use btrfs_snapah_pow.Storage.Gorm.{Gorm}
use btrfs_snapah_pow.Storage.Db.{
  list_nodes, get_snapshot, list_snapshots, list_events, create_event,
}
use btrfs_snapah_pow.Btrfs
use btrfs_snapah_pow.Replication.{Job, set, list_jobs}
use btrfs_snapah_pow.Server.Types.{
  PbSnapshot, LoginRequest, SnapshotRequest, DeleteRequest, RestoreRequest, ReplicateRequest,
  Libraries, Readings, replicating, Server, db, with_db, with_world,
}
use btrfs_snapah_pow.Server.Answers.{json_resp, http_err, forbidden, counted}
use btrfs_snapah_pow.Server.Grpc.{rpc_create_snapshot, rpc_delete_snapshot}

-- `r.Header.Get("X-User-Role")`
abbrev pub role_of : {B : Type 0} → Request B → String
role_of r = get "X-User-Role" r.header

-- `role != "admin" && role != "operator"`
abbrev pub unprivileged : String → Bool
unprivileged role = not (role == "admin") && not (role == "operator")

module _ (g : Gorm) {C W B : Type 0} (lib : Libraries C W B) where
  open g use {Conn}

  abbrev State : Type 0
  State = Server Conn C W

  token_answer : User → Result String → Writer → State → Writer × State
  token_answer user (err e) w s = (http_err e 500 w, s)
  token_answer user (ok token) w s = (
    json_resp
        (Json.obj (
          field "token" (Json.str token)
            (field "username" (Json.str user.username) (field "role" (Json.str user.role) end))))
        w,
    s,
  )

  logged_in : Readings → Result User → Writer → State → Writer × State
  logged_in rd (err e) w s = (http_err "credenciales invalidas" 401 w, s)
  logged_in rd (ok user) w s =
      token_answer user
        (generate lib.jwt s.auth_mgr rd.now rd.later user.id user.username user.role) w s

  log_in : Readings → Result LoginRequest → Writer → State → Writer × State
  log_in rd (err e) w s = (http_err e 400 w, s)
  log_in rd (ok req) w s =
      logged_in rd (authenticate lib.bcrypt s.users req.username req.password) w s

  unfoldable pub handle_login : Readings → Handler B State
  unfolding log_in logged_in token_answer
  handle_login rd w r s =
      if not (r.method == "POST")
      then (write_header 405 w, s)
      else log_in rd (lib.decode.login r.body) w s

  -- the answer to a list, or to its error
  abbrev pub listing : {A : Type 0} → String → (A → Json) → Result (List A) → Writer → Writer
  listing key f (err e) w = http_err e 500 w
  listing key f (ok xs) w = json_resp (counted key f xs) w

  unfoldable pub handle_nodes : Handler B State
  handle_nodes w r s = (listing "nodes" lib.encode.node (list_nodes g (db s)) w, s)

  unfoldable pub handle_events : Handler B State
  handle_events w r s = (listing "events" lib.encode.event (list_events g 50 (db s)) w, s)

  made : State × Result PbSnapshot → Writer → Writer × State
  made (s, err e) w = (http_err e 500 w, s)
  made (s, ok snap) w = (json_resp (lib.encode.pb_snapshot snap) (write_header 201 w), s)

  post_snapshot : Readings → Result SnapshotRequest → Writer → State → Writer × State
  post_snapshot rd (err e) w s = (http_err e 400 w, s)
  post_snapshot rd (ok req) w s = made (rpc_create_snapshot g lib rd req s) w

  -- No role is asked for.
  unfoldable pub handle_snapshots : Readings → Handler B State
  unfolding post_snapshot made
  handle_snapshots rd w r s =
      if r.method == "GET"
      then (
        listing "snapshots" lib.encode.snapshot (list_snapshots g (get "node_id" r.query) (db s)) w,
        s,
      )
      else if r.method == "POST"
      then post_snapshot rd (lib.decode.snapshot r.body) w s
      else (write_header 405 w, s)

  deleted : Result DeleteRequest → Writer → State → Writer × State
  deleted (err e) w s = (http_err e 400 w, s)
  deleted (ok req) w s =
      let (s', answer) = rpc_delete_snapshot g lib req.snapshot_id s in
      (json_resp (lib.encode.delete_response answer) w, s')

  unfoldable pub handle_delete_snapshot : Handler B State
  unfolding deleted
  handle_delete_snapshot w r s =
      if not (r.method == "POST")
      then (write_header 405 w, s)
      else if unprivileged (role_of r)
      then (forbidden "permisos insuficientes para eliminar snapshots" w, s)
      else deleted (lib.decode.delete r.body) w s

  abbrev pub restored_event : String → Snapshot → String → Event
  restored_event id snap restore_path = record {
    id = id;
    event_type = "snapshot_restored";
    node_id = snap.node_id;
    snapshot_id = "";
    message = "Snapshot restaurado: " ++ (snap.snapshot_path ++ (" -> " ++ restore_path));
    severity = "info";
    metadata = "";
    created_at = 0;
    deleted_at = none;
  }

  -- the answer of `btrfs`, and the event, whose error is dropped
  restored : Readings → Snapshot → String → W × Result (Unit {0}) → Writer → State → Writer × State
  restored rd snap restore_path (world, err e) w s =
      (http_err ("error restaurando: " ++ e) 500 w, with_world world s)
  restored rd snap restore_path (world, ok _) w s = (
    json_resp
        (Json.obj (
          field "success" (Json.bool true) (
            field "snapshot_path" (Json.str snap.snapshot_path) (
              field "restore_path" (Json.str restore_path) (
                field "message" (Json.str ("Snapshot restaurado exitosamente en " ++ restore_path))
                  end)))))
        w,
    with_db (create_event g (restored_event rd.id snap restore_path) (db s)).0 (with_world world s),
  )

  restore_found : Readings → String → Result Snapshot → Writer → State → Writer × State
  restore_found rd restore_path (err e) w s = (http_err ("snapshot no encontrado: " ++ e) 404 w, s)
  restore_found rd restore_path (ok snap) w s =
      restored rd snap restore_path
        (Btrfs.create_snapshot lib.exec snap.snapshot_path restore_path false s.repl.world) w s

  restore : Readings → Result RestoreRequest → Writer → State → Writer × State
  restore rd (err e) w s = (http_err e 400 w, s)
  restore rd (ok req) w s =
      if is_empty req.snapshot_id || is_empty req.restore_path
      then (http_err "snapshot_id y restore_path son requeridos" 400 w, s)
      else restore_found rd req.restore_path (get_snapshot g req.snapshot_id (db s)) w s

  unfoldable pub handle_restore : Readings → Handler B State
  unfolding restore restore_found restored
  handle_restore rd w r s =
      if not (r.method == "POST")
      then (write_header 405 w, s)
      else if unprivileged (role_of r)
      then (forbidden "solo admin u operator puede restaurar snapshots" w, s)
      else restore rd (lib.decode.restore r.body) w s

  abbrev pub new_job : String → Snapshot → ReplicateRequest → Job
  new_job id snap req = record {
    id = id;
    snapshot_id = snap.id;
    snapshot_path = snap.snapshot_path;
    parent_path = req.parent_path;
    target_node_id = req.target_node_id;
    target_address = req.target_address;
    target_dest_path = req.target_dest_path;
    status = "pending";
    error = "";
    started_at = 0;
    finished_at = 0;
  }

  -- `job := &Job{…}` at a new address, and `ReplicateAsync`
  abbrev pub enqueue : ℕ → Job → State → State
  enqueue a job s = record s {
    repl = record s.repl { memory = set a job s.repl.memory };
    tasks = List.◌++◌ s.tasks (replicating a ∷ []);
  }

  unfoldable pub replicate_found :
      Readings → ReplicateRequest → Result Snapshot → Writer → State → Writer × State
  replicate_found rd req (err e) w s = (http_err ("snapshot no encontrado: " ++ e) 404 w, s)
  replicate_found rd req (ok snap) w s = (
    json_resp (Json.obj (field "job_id" (Json.str rd.id) (field "status" (Json.str "started") end)))
        (write_header 202 w),
    enqueue rd.address (new_job rd.id snap req) s,
  )

  unfoldable pub start_replication :
      Readings → Result ReplicateRequest → Writer → State → Writer × State
  start_replication rd (err e) w s = (http_err e 400 w, s)
  start_replication rd (ok req) w s =
      replicate_found rd req (get_snapshot g req.snapshot_id (db s)) w s

  unfoldable pub handle_replicate : Readings → Handler B State
  unfolding start_replication replicate_found
  handle_replicate rd w r s =
      if not (r.method == "POST")
      then (write_header 405 w, s)
      else if unprivileged (role_of r)
      then (forbidden "permisos insuficientes" w, s)
      else start_replication rd (lib.decode.replicate r.body) w s

  unfoldable pub handle_replication_jobs : Handler B State
  handle_replication_jobs w r s =
      (json_resp (counted "jobs" lib.encode.job (list_jobs s.repl)) w, s)
