-- ===== src/Server/Steps.antt =====
-- What the handlers of cmd/server/main.go leave of the scheduler and of the replication's jobs.
use btrfs_snapah_pow.Base.{
  ℕ, ◌≡◌, refl, ◌⊎◌, inl, inr, String, ◌==◌, Result, ok, err, Bool-cases, arith,
}
use btrfs_snapah_pow.Http.{Writer, Request}
use btrfs_snapah_pow.Replication.{Job, set}
use btrfs_snapah_pow.Scheduler
use btrfs_snapah_pow.Scheduler.{Scheduler, add_policy}
use btrfs_snapah_pow.Storage.Models.{Policy, Snapshot}
use btrfs_snapah_pow.Storage.Gorm.{Gorm}
use btrfs_snapah_pow.Server.Types.{SnapshotRequest, ReplicateRequest, Libraries, Readings, Server}
use btrfs_snapah_pow.Server.Grpc.{
  register_node, rpc_create_snapshot, rpc_delete_snapshot, start_stream,
}
use btrfs_snapah_pow.Server.Handlers.{
  role_of, unprivileged, replicate_found, start_replication, handle_nodes, handle_events,
  handle_snapshots, handle_delete_snapshot, handle_restore, handle_replicate,
  handle_replication_jobs,
}
use btrfs_snapah_pow.Server.Admin.{
  created, post_policy, not_admin, handle_policies, handle_api_keys, handle_revoke_api_key,
  handle_alert_test, handle_alert_config, scheduled,
}
use btrfs_snapah_pow.Server.Routes.{
  Page, nodes, snapshots, snapshots_delete, events, policies, restore, keys, keys_revoke,
  alerts_test, alerts_config, replicate, replication_jobs, handle,
}

module _ (g : Gorm) {C W B : Type 0} (lib : Libraries C W B) where
  open g use {Conn}

  -- The scheduler and the jobs are as they were.
  abbrev pub Kept : Server Conn C W → Server Conn C W → Type 0
  Kept s s' =
      (s'.scheduler ≡ s.scheduler) × (s'.repl.jobs ≡ s.repl.jobs) × (s'.repl.memory ≡ s.repl.memory)

  pub create_snapshot-Kept :
      (rd : Readings) (req : SnapshotRequest) (s : Server Conn C W)
      → Kept s (rpc_create_snapshot g lib rd req s).0
  unfolding rpc_create_snapshot
  create_snapshot-Kept rd req s = (ground arith, ground arith, ground arith)

  pub delete_snapshot-Kept :
      (id : String) (s : Server Conn C W) → Kept s (rpc_delete_snapshot g lib id s).0
  unfolding rpc_delete_snapshot
  delete_snapshot-Kept id s = (ground arith, ground arith, ground arith)

  pub register_node-Kept :
      (rd : Readings) (hostname address token : String) (s : Server Conn C W)
      → Kept s (register_node g lib rd hostname address token s).0
  unfolding register_node
  register_node-Kept rd hostname address token s = (ground arith, ground arith, ground arith)

  pub start_stream-Kept :
      (rd : Readings) (node_id : String) (s : Server Conn C W)
      → Kept s (start_stream g lib rd node_id s).0
  unfolding start_stream
  start_stream-Kept rd node_id s = (ground arith, ground arith, ground arith)

  snapshots-Kept :
      (rd : Readings) (w : Writer) (r : Request B) (s : Server Conn C W)
      → Kept s (handle_snapshots g lib rd w r s).1
  unfolding handle_snapshots rpc_create_snapshot
  snapshots-Kept rd w r s = (ground arith, ground arith, ground arith)

  snapshots_delete-Kept :
      (w : Writer) (r : Request B) (s : Server Conn C W)
      → Kept s (handle_delete_snapshot g lib w r s).1
  unfolding handle_delete_snapshot rpc_delete_snapshot
  snapshots_delete-Kept w r s = (ground arith, ground arith, ground arith)

  restore-Kept :
      (rd : Readings) (w : Writer) (r : Request B) (s : Server Conn C W)
      → Kept s (handle_restore g lib rd w r s).1
  unfolding handle_restore
  restore-Kept rd w r s = (ground arith, ground arith, ground arith)

  keys-Kept :
      (rd : Readings) (w : Writer) (r : Request B) (s : Server Conn C W)
      → Kept s (handle_api_keys g lib rd w r s).1
  unfolding handle_api_keys
  keys-Kept rd w r s = (ground arith, ground arith, ground arith)

  keys_revoke-Kept :
      (w : Writer) (r : Request B) (s : Server Conn C W)
      → Kept s (handle_revoke_api_key g lib w r s).1
  unfolding handle_revoke_api_key
  keys_revoke-Kept w r s = (ground arith, ground arith, ground arith)

  alerts_test-Kept :
      (rd : Readings) (w : Writer) (r : Request B) (s : Server Conn C W)
      → Kept s (handle_alert_test g lib rd w r s).1
  unfolding handle_alert_test
  alerts_test-Kept rd w r s = (ground arith, ground arith, ground arith)

  alerts_config-Kept :
      (w : Writer) (r : Request B) (s : Server Conn C W)
      → Kept s (handle_alert_config g lib w r s).1
  unfolding handle_alert_config
  alerts_config-Kept w r s = (ground arith, ground arith, ground arith)

  policies_keep_jobs :
      (rd : Readings) (w : Writer) (r : Request B) (s : Server Conn C W)
      → ((handle_policies g lib rd w r s).1.repl.jobs ≡ s.repl.jobs)
        × ((handle_policies g lib rd w r s).1.repl.memory ≡ s.repl.memory)
  unfolding handle_policies
  policies_keep_jobs rd w r s = (ground arith, ground arith)

  -- The scheduler is as it was, or a policy with the request's id was added to it.
  abbrev pub Scheduled : Readings → Scheduler C → Scheduler C → Type 0
  Scheduled rd s s' =
      (s' ≡ s) ⊎ ((p : Scheduler.Policy) × (p.id ≡ rd.id) × (s' ≡ (add_policy lib.cron p s).0))

  created-Scheduled :
      (rd : Readings) (p : Policy) (x : Conn × Result (Unit {0})) (w : Writer) (s : Server Conn C W)
      → p.id ≡ rd.id
      → Scheduled rd s.scheduler (created g lib p x w s).1.scheduler
  unfolding created
  created-Scheduled rd p (d, err e) w s h = inl refl
  created-Scheduled rd p (d, ok _) w s h = inr (scheduled p, h, refl)

  post_policy-Scheduled :
      (rd : Readings) (x : Result Policy) (w : Writer) (s : Server Conn C W)
      → Scheduled rd s.scheduler (post_policy g lib rd x w s).1.scheduler
  unfolding post_policy
  post_policy-Scheduled rd (err e) w s = inl refl
  post_policy-Scheduled rd (ok p) w s = created-Scheduled rd (record p { id = rd.id }) _ w s refl

  pub policies-Scheduled :
      (rd : Readings) (w : Writer) (r : Request B) (s : Server Conn C W)
      → Scheduled rd s.scheduler (handle_policies g lib rd w r s).1.scheduler
  unfolding handle_policies
  policies-Scheduled rd w r s = elim (Bool-cases (r.method == "GET")) [
    | inl read ↦ rw read (inl refl)
    | inr other ↦ elim (Bool-cases (r.method == "POST")) [
      | inr neither ↦ rw (other, neither) (inl refl)
      | inl post ↦ elim (Bool-cases (not_admin r)) [
        | inl stranger ↦ rw (other, post, stranger) (inl refl)
        | inr admin ↦
            rw (other, post, admin) (post_policy-Scheduled rd (lib.decode.policy r.body) w s)
      ]
    ]
  ]

  -- The map of jobs is as it was, and at most one address was stored to.
  abbrev pub StoredAt : ℕ → Server Conn C W → Server Conn C W → Type 0
  StoredAt a s s' =
      (s'.scheduler ≡ s.scheduler)
      × (s'.repl.jobs ≡ s.repl.jobs)
      × ((s'.repl.memory ≡ s.repl.memory)
          ⊎ ((job : Job) × (s'.repl.memory ≡ set a job s.repl.memory)))

  replicate_found-StoredAt :
      (rd : Readings) (req : ReplicateRequest) (x : Result Snapshot) (w : Writer)
      (s : Server Conn C W)
      → StoredAt rd.address s (replicate_found g lib rd req x w s).1
  unfolding replicate_found
  replicate_found-StoredAt rd req (err e) w s = (refl, refl, inl refl)
  replicate_found-StoredAt rd req (ok snap) w s = (refl, refl, inr (_, refl))

  start_replication-StoredAt :
      (rd : Readings) (x : Result ReplicateRequest) (w : Writer) (s : Server Conn C W)
      → StoredAt rd.address s (start_replication g lib rd x w s).1
  unfolding start_replication
  start_replication-StoredAt rd (err e) w s = (refl, refl, inl refl)
  start_replication-StoredAt rd (ok req) w s = replicate_found-StoredAt rd req _ w s

  pub replicate-StoredAt :
      (rd : Readings) (w : Writer) (r : Request B) (s : Server Conn C W)
      → StoredAt rd.address s (handle_replicate g lib rd w r s).1
  unfolding handle_replicate
  replicate-StoredAt rd w r s = elim (Bool-cases (r.method == "POST")) [
    | inr other ↦ rw other (refl, refl, inl refl)
    | inl post ↦ elim (Bool-cases (unprivileged (role_of r))) [
      | inl stranger ↦ rw (post, stranger) (refl, refl, inl refl)
      | inr may ↦ rw (post, may) (start_replication-StoredAt rd (lib.decode.replicate r.body) w s)
    ]
  ]

  -- What any page leaves of the two.
  pub handle_parts :
      (page : Page) (rd : Readings) (w : Writer) (r : Request B) (s : Server Conn C W)
      → let s' = (handle g lib page rd w r s).1 in
        Scheduled rd s.scheduler s'.scheduler
        × (s'.repl.jobs ≡ s.repl.jobs)
        × ((s'.repl.memory ≡ s.repl.memory)
            ⊎ ((job : Job) × (s'.repl.memory ≡ set rd.address job s.repl.memory)))
  unfolding handle handle_nodes handle_events handle_replication_jobs
  handle_parts nodes rd w r s = (inl refl, refl, inl refl)
  handle_parts events rd w r s = (inl refl, refl, inl refl)
  handle_parts replication_jobs rd w r s = (inl refl, refl, inl refl)
  handle_parts alerts_config rd w r s =
      let (scheduler, jobs, memory) = alerts_config-Kept w r s in (inl scheduler, jobs, inl memory)
  handle_parts snapshots rd w r s =
      let (scheduler, jobs, memory) = snapshots-Kept rd w r s in (inl scheduler, jobs, inl memory)
  handle_parts snapshots_delete rd w r s =
      let (scheduler, jobs, memory) = snapshots_delete-Kept w r s in
      (inl scheduler, jobs, inl memory)
  handle_parts restore rd w r s =
      let (scheduler, jobs, memory) = restore-Kept rd w r s in (inl scheduler, jobs, inl memory)
  handle_parts keys rd w r s =
      let (scheduler, jobs, memory) = keys-Kept rd w r s in (inl scheduler, jobs, inl memory)
  handle_parts keys_revoke rd w r s =
      let (scheduler, jobs, memory) = keys_revoke-Kept w r s in (inl scheduler, jobs, inl memory)
  handle_parts alerts_test rd w r s =
      let (scheduler, jobs, memory) = alerts_test-Kept rd w r s in (inl scheduler, jobs, inl memory)
  handle_parts policies rd w r s =
      let (jobs, memory) = policies_keep_jobs rd w r s in
      (policies-Scheduled rd w r s, jobs, inl memory)
  handle_parts replicate rd w r s =
      let (scheduler, jobs, memory) = replicate-StoredAt rd w r s in (inl scheduler, jobs, memory)
