-- ===== src/Storage/Models.antt =====
-- internal/storage/models.go. A `time.Time` is a number of nanoseconds, a nil pointer or an unset
-- deletion time is `none`, an `int` or `int64` is a bit pattern.
use btrfs_snapah_pow.Base.{ℕ, String, Bool, Option}

pub record Node : Type 0 where
  pub id : String
  pub hostname : String
  pub address : String
  pub status : String
  pub last_seen : ℕ
  pub created_at : ℕ
  pub updated_at : ℕ
  pub deleted_at : Option ℕ

pub record Snapshot : Type 0 where
  pub id : String
  pub node_id : String
  pub subvolume_path : String
  pub snapshot_path : String
  pub uuid : String
  pub parent_uuid : String
  pub is_read_only : Bool
  pub size_bytes : ℕ
  pub status : String
  pub error_message : String
  pub created_at : ℕ
  pub expires_at : Option ℕ
  pub deleted_at : Option ℕ

pub record Policy : Type 0 where
  pub id : String
  pub name : String
  pub node_id : String
  pub subvolume_path : String
  pub schedule : String
  pub retention_hourly : ℕ
  pub retention_daily : ℕ
  pub retention_weekly : ℕ
  pub retention_monthly : ℕ
  pub read_only : Bool
  pub replicate : Bool
  pub replicate_target : String
  pub enabled : Bool
  pub created_at : ℕ
  pub updated_at : ℕ
  pub deleted_at : Option ℕ

-- `event_type` is the field `Type`.
pub record Event : Type 0 where
  pub id : String
  pub event_type : String
  pub node_id : String
  pub snapshot_id : String
  pub message : String
  pub severity : String
  pub metadata : String
  pub created_at : ℕ
  pub deleted_at : Option ℕ

pub record ApiKeyRecord : Type 0 where
  pub id : String
  pub name : String
  pub key_hash : String
  pub prefix : String
  pub role : String
  pub active : Bool
  pub created_at : ℕ
  pub expires_at : Option ℕ
  pub last_used_at : Option ℕ
