-- ===== src/Storage/Examples.antt =====
-- The database functions over the ORM in memory.
use btrfs_snapah_pow.Base.{◌≡◌, ◌≢◌, refl, String, true, none, [], ◌∷◌, ok, Member, strip}
use btrfs_snapah_pow.Storage.Models.{Snapshot}
use btrfs_snapah_pow.Storage.Gorm.{postgres, sqlite}
use btrfs_snapah_pow.Storage.Db.{get_snapshot, delete_snapshot, list_snapshots, dialector}
use btrfs_snapah_pow.Storage.Memory.{Memory, memory, memory_snapshots-laws, empty_memory}
use btrfs_snapah_pow.Storage.Deletion.{get_snapshot-delete_snapshot}

abbrev snap : String → String → Snapshot
snap id node_id = record {
  id = id;
  node_id = node_id;
  subvolume_path = "/data";
  snapshot_path = "/data/.snapshots/1";
  uuid = "";
  parent_uuid = "";
  is_read_only = true;
  size_bytes = 0;
  status = "active";
  error_message = "";
  created_at = 0;
  expires_at = none;
  deleted_at = none;
}

abbrev two : Memory
two = record empty_memory { snapshots = snap "a" "n1" ∷ snap "b" "n2" ∷ [] }

listed : list_snapshots memory "n2" two ≡ ok (snap "b" "n2" ∷ [])
unfolding list_snapshots
listed = refl

postgres_url : dialector "postgres://u@h/db" ≡ postgres "postgres://u@h/db"
unfolding dialector strip
postgres_url = refl

sqlite_path : dialector "data/snapah.db" ≡ sqlite "data/snapah.db"
unfolding dialector strip
sqlite_path = refl

get_snapshot-delete_snapshot_example :
    ((snap "b" "n2").id ≢ "a") × ((snap "b" "n2").id ≡ "b") × Member (snap "b" "n2") (two.snapshots)
unfolding get_snapshot delete_snapshot memory_snapshots-laws
get_snapshot-delete_snapshot_example =
    get_snapshot-delete_snapshot memory memory_snapshots-laws "a" "b" two (snap "b" "n2") refl refl
