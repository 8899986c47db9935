-- ===== src/Replication/Examples.antt =====
-- Two replications: one that the target takes, and one that it refuses.
use btrfs_snapah_pow.Base.{
  ℕ, suc, lookup, ◌≡◌, refl, String, ◌==◌, none, some, ok, err, nat_eq, if◌then◌else◌, strip,
}
use btrfs_snapah_pow.Btrfs.{Exec, send_snapshot}
use btrfs_snapah_pow.Storage.Memory.{Memory, memory, empty_memory}
use btrfs_snapah_pow.Replication.{
  Job, Target, Times, Manager, new_manager, get_job, start, replicate, sent_on, connected, created,
  complete,
}
use btrfs_snapah_pow.Replication.Outcomes.{
  Closed, replicate-Closed, Settled, replicate-Settled, get_job-replicate,
}
use btrfs_snapah_pow.Replication.Payload.{replicate-stream}

abbrev job : String → String → Job
job id address = record {
  id = id;
  snapshot_id = "s1";
  snapshot_path = "/data/.snapshots/s1";
  parent_path = "";
  target_node_id = "n2";
  target_address = address;
  target_dest_path = "/backup";
  status = "pending";
  error = "";
  started_at = 0;
  finished_at = 0;
}

-- The world counts the calls.
abbrev toy_exec : String → Exec ℕ
toy_exec stream = record {
  run = λ args input w.
      (suc w, record { stdout = stream; stderr = ""; combined = stream; error = none });
}

-- a target that answers at one address
abbrev toy_target : Target ℕ
toy_target = record {
  new_client = λ address w. (w, ok tt);
  create_snapshot = λ address request w.
      if address == "n2:50051"
      then (suc w, ok "/backup/.snapshots/replica")
      else (suc w, err "connection refused");
}

abbrev times : Times
times = record { started = 100; snap_stamp = "20260101_120000"; event_id = "e1"; finished = 160 }

abbrev jobs : ℕ → Job
jobs a = if nat_eq a 0 then job "j1" "n2:50051" else job "j2" "n3:50051"

abbrev fresh : Manager Memory ℕ
fresh = new_manager empty_memory 0 jobs

fresh-Settled : Settled memory fresh
unfolding new_manager lookup
fresh-Settled = record { each = λ id a found. let clash : none ≡ some a = found in absurd cc }

replicate-Closed_example :
    Closed memory 1 times
      (start memory 1 times fresh)
      (replicate memory (toy_exec "stream") toy_target 1 times fresh)
replicate-Closed_example = replicate-Closed memory (toy_exec "stream") toy_target 1 times fresh

replicate-Settled_run :
    Settled memory (replicate memory (toy_exec "stream") toy_target 1 times fresh).0
replicate-Settled_run =
    replicate-Settled memory (toy_exec "stream") toy_target 1 times fresh fresh-Settled

finished_job :
    get_job "j1" (replicate memory (toy_exec "stream") toy_target 0 times fresh).0
    ≡ some (record (job "j1" "n2:50051") { status = "done"; started_at = 100; finished_at = 160 })
unfolding new_manager send_snapshot replicate start sent_on connected created complete strip
finished_job = get_job-replicate memory (toy_exec "stream") toy_target 0 times fresh

replicate-stream_example :
    replicate memory (toy_exec "stream") toy_target 0 times fresh
    ≡ replicate memory (toy_exec "") toy_target 0 times fresh
replicate-stream_example =
    replicate-stream memory toy_target (toy_exec "stream") (toy_exec "") 0 times fresh
      (λ args input w. (refl, (refl, refl)))
