-- ===== src/Scheduler/Examples.antt =====
-- Runs of the scheduler over the cron of Listed.
use btrfs_snapah_pow.Base.{
  ℕ, ◌<◌, ◌≡◌, refl, String, Bool, true, false, none, some, List, [], ◌∷◌, ok, err, inl, inr, arith,
  strip, lookup, insert, erase,
}
use btrfs_snapah_pow.Strings.{fields, split, trim_space, index, parse_uint}
use btrfs_snapah_pow.Btrfs.{Exec, SnapshotInfo, parse_list, parse_lines, parse_line, list_snapshots}
use btrfs_snapah_pow.FilePath.{join_path, clean}
use btrfs_snapah_pow.Scheduler.{
  Policy, Scheduler, delete_all, apply_retention, new_scheduler, add_policy, remove_policy,
  remove_entry, update_policy,
}
use btrfs_snapah_pow.Scheduler.Policies.{
  InStep, remove_policy-InStep, add_policy-InStep, update_policy-InStep, new_scheduler-InStep,
}
use btrfs_snapah_pow.Scheduler.Defaults.{default_schedule_rejected}
use btrfs_snapah_pow.Scheduler.Retention.{apply_retention-suffix, retention_inert}
use btrfs_snapah_pow.Scheduler.Listed.{Entries, taken_out, appended, toy_cron, toy_laws, toy_six}

abbrev policy : String → String → Bool → Policy
policy id schedule enabled = record {
  id = id;
  name = "nightly";
  node_id = "n1";
  subvolume_path = "/data";
  schedule = schedule;
  retention_hourly = 0;
  retention_daily = 1;
  retention_weekly = 0;
  retention_monthly = 0;
  read_only = true;
  replicate = false;
  enabled = enabled;
}

abbrev empty : Scheduler Entries
empty = record { policies = []; entry_ids = []; cron = [] }

empty-InStep : InStep toy_cron toy_laws empty
unfolding new_scheduler
empty-InStep = new_scheduler-InStep toy_cron toy_laws

abbrev busy : Scheduler Entries
busy = record {
  policies = ("p1", policy "p1" "0 0 3 * * *" true) ∷ [];
  entry_ids = ("p1", 0) ∷ [];
  cron = some (policy "p1" "0 0 3 * * *" true) ∷ [];
}

add_policy-InStep_run : InStep toy_cron toy_laws busy
unfolding add_policy appended insert lookup fields strip
add_policy-InStep_run =
    add_policy-InStep toy_cron toy_laws (policy "p1" "0 0 3 * * *" true) empty empty-InStep refl

busy-InStep : InStep toy_cron toy_laws busy
unfolding add_policy appended insert lookup fields strip
busy-InStep =
    add_policy-InStep toy_cron toy_laws (policy "p1" "0 0 3 * * *" true) empty empty-InStep refl

remove_policy-InStep_run : InStep toy_cron toy_laws (record empty { cron = none ∷ [] })
unfolding remove_policy remove_entry taken_out lookup erase
remove_policy-InStep_run = remove_policy-InStep toy_cron toy_laws "p1" busy busy-InStep

-- the new entry has number 1
abbrev moved : Scheduler Entries
moved = record {
  policies = ("p1", policy "p1" "0 30 4 * * *" true) ∷ [];
  entry_ids = ("p1", 1) ∷ [];
  cron = some (policy "p1" "0 30 4 * * *" true) ∷ none ∷ [];
}

update_policy-InStep_example : InStep toy_cron toy_laws moved
unfolding update_policy remove_policy remove_entry taken_out add_policy appended insert lookup erase
    fields strip
update_policy-InStep_example =
    update_policy-InStep toy_cron toy_laws (policy "p1" "0 30 4 * * *" true) busy busy-InStep

default_schedule_rejected_run :
    (text : String) × ((add_policy toy_cron (policy "p2" "" true) busy).1 ≡ err text)
    × ((add_policy toy_cron (policy "p2" "" true) busy).0.entry_ids ≡ busy.entry_ids)
    × (lookup "p2" (add_policy toy_cron (policy "p2" "" true) busy).0.policies
        ≡ some (policy "p2" "" true))
default_schedule_rejected_run =
    default_schedule_rejected toy_cron (policy "p2" "" true) busy toy_six refl refl

-- A `btrfs` whose state is the commands it ran. A listing answers with the text it is made for.
abbrev toy_exec : String → Exec (List (List String))
toy_exec listing = record {
  run = λ args input w.
      (args ∷ w, record { stdout = ""; stderr = ""; combined = listing; error = none });
}

abbrev table : String
table = "ID\tgen\tpath\n--\t---\t----\n257\t10\tsnap1\n258\t11\tsnap2"

abbrev asked : List String
asked = "subvolume" ∷ "list" ∷ "-t" ∷ "-u" ∷ "/data" ∷ []

retention_inert_example : apply_retention (toy_exec table) (policy "p1" "" true) [] ≡ asked ∷ []
unfolding split trim_space fields strip
retention_inert_example =
    retention_inert (toy_exec table) (policy "p1" "" true) [] refl
      (inl refl, (inl refl, (inr (omega arith), (inr (omega arith), tt))))

-- lines that the parser reads
abbrev readable : String
readable = "n 257 g 10 t 5 u 1b path s1\nn 258 g 11 t 5 u 2c path s2\nn 259 g 12 t 5 u 3d path s3"

abbrev snap : ℕ → String → SnapshotInfo
snap id path = record {
  id = id;
  uuid = "";
  parent_uuid = "";
  path = path;
  created_at = 0;
  is_read_only = false;
}

abbrev later : List SnapshotInfo
later = snap 258 "/data/s2" ∷ snap 259 "/data/s3" ∷ []

readable_list : (list_snapshots (toy_exec readable) "/data" []).1 ≡ ok (snap 257 "/data/s1" ∷ later)
unfolding list_snapshots parse_list parse_lines parse_line parse_uint join_path clean split
    trim_space fields index strip
readable_list = refl

apply_retention-suffix_run :
    (apply_retention (toy_exec readable) (policy "p1" "" true) []
      ≡ delete_all (toy_exec readable) later (list_snapshots (toy_exec readable) "/data" []).0)
    × (2 < 3)
apply_retention-suffix_run =
    apply_retention-suffix (toy_exec readable) (policy "p1" "" true) [] (snap 257 "/data/s1") later
      readable_list
