-- ===== src/Scheduler.antt =====
-- internal/scheduler/scheduler.go. The cron library is the parameter `Cron`: the function that
-- `AddFunc` registers is `execute` of a policy, so an entry holds that policy.
pub mod Defaults
pub mod Policies
pub mod Retention
pub mod Listed
mod Examples
use btrfs_snapah_pow.Base.{
  ℕ, String, ◌++◌, Bool, true, false, not, Option, none, some, List, [], ◌∷◌, GoMap, lookup, insert,
  erase, map, Result, ok, err, is_empty, leb, drop, length, if◌then◌else◌,
}
use mathlib.Core.Option
use btrfs_snapah_pow.Base.Int.{is_positive}
use btrfs_snapah_pow.Btrfs.{
  Exec, SnapshotInfo, snapshot_path, create_snapshot, delete_snapshot, list_snapshots,
}

pub record Policy : Type 0 where
  pub id : String
  pub name : String
  pub node_id : String
  pub subvolume_path : String
  pub schedule : String
  pub retention_hourly : ℕ
  pub retention_daily : ℕ
  pub retention_weekly : ℕ
  pub retention_monthly : ℕ
  pub read_only : Bool
  pub replicate : Bool
  pub enabled : Bool

-- A cron with seconds. `next` is the time of an entry's next run.
pub record Cron (C : Type 0) : Type 0 where
  pub start : C
  pub add_func : String → Policy → C → C × Result ℕ
  pub remove : ℕ → C → C
  pub next : ℕ → C → ℕ

-- The scheduler, over the state of the cron.
pub record Scheduler (C : Type 0) : Type 0 where
  pub policies : GoMap Policy
  pub entry_ids : GoMap ℕ
  pub cron : C

-- the schedule of `AddPolicy`
abbrev pub schedule_of : Policy → String
schedule_of p = if is_empty p.schedule then "0 * * * *" else p.schedule

-- the entries of a map, without their keys
abbrev values : {V : Type 0} → GoMap V → List V
values m = map (λ e. e.1) m

module _ {C : Type 0} (cron : Cron C) where
  unfoldable pub new_scheduler : Scheduler C
  new_scheduler = record { policies = []; entry_ids = []; cron = cron.start }

  -- what `AddPolicy` does with the cron's answer
  abbrev registered : Policy → Scheduler C → C × Result ℕ → Scheduler C × Result (Unit {0})
  registered p s (c, r) = elim r [
    | err e ↦
        (record s { cron = c }, err ("schedule inválido '" ++ (schedule_of p ++ ("': " ++ e))))
    | ok id ↦ (record s { entry_ids = insert p.id id s.entry_ids; cron = c }, ok tt)
  ]

  unfoldable pub add_policy : Policy → Scheduler C → Scheduler C × Result (Unit {0})
  add_policy p s =
      let s' = record s { policies = insert p.id p s.policies } in
      if not p.enabled
      then (s', ok tt)
      else registered p s' (cron.add_func (schedule_of p) p s.cron)

  remove_entry : String → Scheduler C → Option ℕ → Scheduler C
  remove_entry id s none = s
  remove_entry id s (some entry) = record s {
    entry_ids = erase id s.entry_ids;
    cron = cron.remove entry s.cron;
  }

  unfoldable pub remove_policy : String → Scheduler C → Scheduler C
  unfolding remove_entry
  remove_policy id s =
      let s' = remove_entry id s (lookup id s.entry_ids) in
      record s' { policies = erase id s.policies }

  unfoldable pub update_policy : Policy → Scheduler C → Scheduler C × Result (Unit {0})
  update_policy p s = add_policy p (remove_policy p.id s)

  unfoldable pub list_policies : Scheduler C → List Policy
  list_policies s = values s.policies

  unfoldable pub next_run : String → Scheduler C → Option ℕ
  next_run id s = Option.map (λ entry. cron.next entry s.cron) (lookup id s.entry_ids)

-- `maxToKeep`: a daily retention that is not positive stands for seven.
abbrev pub max_to_keep : Policy → ℕ
max_to_keep p = if is_positive p.retention_daily then p.retention_daily else 7

module _ {W : Type 0} (exec : Exec W) where
  -- the loop over `toDelete`: a failure is logged, and the loop goes on
  unfoldable pub delete_all : List SnapshotInfo → W → W
  delete_all [] w = w
  delete_all (snap ∷ snaps) w = delete_all snaps (delete_snapshot exec snap.path w).0

  abbrev retained : Policy → W × Result (List SnapshotInfo) → W
  retained p (w, r) = elim r [
    | err e ↦ w
    | ok snapshots ↦
        if leb (length snapshots) (max_to_keep p)
        then w
        else delete_all (drop (max_to_keep p) snapshots) w
  ]

  unfoldable pub apply_retention : Policy → W → W
  apply_retention p w = retained p (list_snapshots exec p.subvolume_path w)

  abbrev executed : Policy → W × Result (Unit {0}) → W
  executed p (w, r) = elim r [ err e ↦ w | ok _ ↦ apply_retention p w ]

  -- `execute`; `ts` is the formatted time of the call.
  unfoldable pub execute : String → Policy → W → W
  execute ts p w = executed p (
      create_snapshot exec p.subvolume_path (snapshot_path ts p.subvolume_path p.name) p.read_only
        w)
