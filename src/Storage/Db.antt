-- ===== src/Storage/Db.antt =====
-- internal/storage/db.go. A `*DB` is the connection's state: a method that writes returns the new one.
use btrfs_snapah_pow.Base.{
  ℕ, String, ◌++◌, true, false, not, ◌||◌, none, some, List, [], ◌∷◌, Result, ok, err, ◌>>=◌,
  is_empty, has_prefix, if◌then◌else◌,
}
use btrfs_snapah_pow.Storage.Models.{Node, Snapshot, Policy, Event, ApiKeyRecord}
use btrfs_snapah_pow.Storage.Gorm.{text, flag, time, Cond, Query, Dialector, postgres, sqlite, Gorm}

-- `fmt.Errorf("…: %w", err)`
abbrev pub wrap : {A : Type 0} → String → Result A → Result A
wrap message (ok a) = ok a
wrap message (err e) = err (message ++ e)

-- the condition that a list of one node asks for; an empty id asks for all
abbrev pub node_conds : String → List Cond
node_conds node_id = if not (is_empty node_id) then ("node_id", text node_id) ∷ [] else []

-- `Order("created_at desc")` with conditions
abbrev pub newest_first : List Cond → Query
newest_first conds = record { order = "created_at"; conds = conds; limit = none }

-- the dialector that `NewDB` chooses
unfoldable pub dialector : String → Dialector
dialector dsn =
    if has_prefix dsn "postgres://" || has_prefix dsn "postgresql://"
    then postgres dsn
    else sqlite dsn

-- `DBFromEnv`, given the value of `DATABASE_URL`
unfoldable pub db_from_env : String → String → String
db_from_env database_url fallback = if not (is_empty database_url) then database_url else fallback

module _ (g : Gorm) where
  open g use {Conn, nodes, snapshots, policies, events, api_keys}

  unfoldable pub new_db : String → Result Conn
  new_db dsn = do
    db ← wrap "conectar DB: " (g.connect (dialector dsn))
    wrap "migrar schema: " (g.auto_migrate db)

  unfoldable pub create_node : Node → Conn → Conn × Result (Unit {0})
  create_node n db = nodes.create n db

  unfoldable pub get_node : String → Conn → Result Node
  get_node id db = nodes.first (("id", text id) ∷ []) db

  unfoldable pub list_nodes : Conn → Result (List Node)
  list_nodes db = nodes.find (record { order = "last_seen"; conds = []; limit = none }) db

  -- `now` is the clock reading that goes into `last_seen`.
  unfoldable pub update_node_status : ℕ → String → String → Conn → Conn × Result (Unit {0})
  update_node_status now id status db =
      nodes.updates (("id", text id) ∷ []) (("status", text status) ∷ ("last_seen", time now) ∷ [])
        db

  unfoldable pub create_snapshot : Snapshot → Conn → Conn × Result (Unit {0})
  create_snapshot s db = snapshots.create s db

  unfoldable pub get_snapshot : String → Conn → Result Snapshot
  get_snapshot id db = snapshots.first (("id", text id) ∷ []) db

  unfoldable pub list_snapshots : String → Conn → Result (List Snapshot)
  list_snapshots node_id db = snapshots.find (newest_first (node_conds node_id)) db

  unfoldable pub delete_snapshot : String → Conn → Conn × Result (Unit {0})
  delete_snapshot id db = snapshots.remove (("id", text id) ∷ []) db

  unfoldable pub create_policy : Policy → Conn → Conn × Result (Unit {0})
  create_policy p db = policies.create p db

  unfoldable pub list_policies : String → Conn → Result (List Policy)
  list_policies node_id db = policies.find (newest_first (node_conds node_id)) db

  unfoldable pub create_event : Event → Conn → Conn × Result (Unit {0})
  create_event e db = events.create e db

  unfoldable pub list_events : ℕ → Conn → Result (List Event)
  list_events limit db =
      events.find (record { order = "created_at"; conds = []; limit = some limit }) db

  unfoldable pub save_api_key : ApiKeyRecord → Conn → Conn × Result (Unit {0})
  save_api_key k db = api_keys.save k db

  unfoldable pub list_api_keys : Conn → Result (List ApiKeyRecord)
  list_api_keys db = api_keys.find (newest_first []) db

  unfoldable pub get_api_key_by_hash : String → Conn → Result ApiKeyRecord
  get_api_key_by_hash hash db =
      api_keys.first (("key_hash", text hash) ∷ ("active", flag true) ∷ []) db

  unfoldable pub revoke_api_key : String → Conn → Conn × Result (Unit {0})
  revoke_api_key id db = api_keys.updates (("id", text id) ∷ []) (("active", flag false) ∷ []) db

  unfoldable pub update_api_key_last_used : String → ℕ → Conn → Conn × Result (Unit {0})
  update_api_key_last_used id t db =
      api_keys.updates (("id", text id) ∷ []) (("last_used_at", time t) ∷ []) db
