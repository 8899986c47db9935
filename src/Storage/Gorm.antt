-- ===== src/Storage/Gorm.antt =====
-- What internal/storage/db.go calls of the ORM, which is not part of the repository: for each model
-- a table, over a connection whose state the calls read and change. `Error` of a call is a Result.
use btrfs_snapah_pow.Base.{ℕ, String, Bool, Option, List, Result}
use btrfs_snapah_pow.Storage.Models.{Node, Snapshot, Policy, Event, ApiKeyRecord}

-- A value that is bound to a `?`, or assigned to a column.
pub data Value : Type 0 where
  text : String → Value
  flag : Bool → Value
  time : ℕ → Value

-- `column = ?`; a list of conditions is their conjunction.
abbrev pub Cond : Type 0
Cond = String × Value

-- `Order(…)`, `Where(…)` and `Limit(…)` before a `Find`. `order` is sorted by, descending.
pub record Query : Type 0 where
  pub order : String
  pub conds : List Cond
  pub limit : Option ℕ

pub record Table (C R : Type 0) : Type 0 where
  pub create : R → C → C × Result (Unit {0})
  pub save : R → C → C × Result (Unit {0})
  pub first : List Cond → C → Result R
  pub find : Query → C → Result (List R)
  pub updates : List Cond → List Cond → C → C × Result (Unit {0})
  pub remove : List Cond → C → C × Result (Unit {0})

-- `open dsn` is `gorm.Open` of a dialector, and `auto_migrate` brings up the tables.
pub data Dialector : Type 0 where
  postgres : String → Dialector
  sqlite : String → Dialector

pub record Gorm : Type 1 where
  pub Conn : Type 0
  pub connect : Dialector → Result Conn
  pub auto_migrate : Conn → Result Conn
  pub nodes : Table Conn Node
  pub snapshots : Table Conn Snapshot
  pub policies : Table Conn Policy
  pub events : Table Conn Event
  pub api_keys : Table Conn ApiKeyRecord
