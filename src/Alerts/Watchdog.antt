-- ===== src/Alerts/Watchdog.antt =====
-- internal/alerts/watchdog.go. The goroutine of `Start` calls `check` at each tick; what changes
-- the database between two checks is arbitrary. `last_status` outlives a check.
pub mod Alternation
pub mod Recovery
use btrfs_snapah_pow.Base.{
  ℕ, ◌+◌, String, ◌++◌, ◌==◌, Bool, true, false, not, ◌&&◌, Option, none, some, List, [], ◌∷◌,
  GoMap, lookup, insert, Result, ok, err, is_empty, ltb, if◌then◌else◌,
}
use mathlib.Core.List
use btrfs_snapah_pow.Base.Int.{minute}
use btrfs_snapah_pow.Http.{or_empty}
use btrfs_snapah_pow.Storage.Models.{Node}
use btrfs_snapah_pow.Storage.Gorm.{Gorm}
use btrfs_snapah_pow.Storage.Db.{list_nodes, update_node_status}
use btrfs_snapah_pow.Alerts.Message.{Alert}

-- The clock readings of a check: those in the tests, and those that go into the database.
pub record Clock : Type 0 where
  pub since : ℕ
  pub now : ℕ

abbrev pub offline_threshold : ℕ
offline_threshold = 120000000000

-- `time.Since(n.LastSeen) > offlineThreshold`
abbrev pub is_offline : Clock → Node → Bool
is_offline t n = ltb (n.last_seen + offline_threshold) t.since

abbrev pub alert_offline : Node → Alert
alert_offline n = record {
  level = "critical";
  title = "Nodo offline: " ++ n.hostname;
  message =
      "El nodo "
      ++ (n.hostname ++ (" (" ++ (n.address ++ ") no responde desde hace más de 2 minutos.")));
  node_id = n.id;
  time = none;
}

abbrev pub alert_recovered : Node → Alert
alert_recovered n = record {
  level = "info";
  title = "Nodo recuperado: " ++ n.hostname;
  message = "El nodo " ++ (n.hostname ++ " está online nuevamente.");
  node_id = n.id;
  time = none;
}

-- `NotifySnapshotFailed` and `NotifyReplicationFailed`: the alerts that they send.
unfoldable pub notify_snapshot_failed : String → String → String → Alert
notify_snapshot_failed node_id policy error = record {
  level = "error";
  title = "Snapshot fallido: " ++ policy;
  message = "La política '" ++ (policy ++ ("' falló al crear snapshot. Error: " ++ error));
  node_id = node_id;
  time = none;
}

unfoldable pub notify_replication_failed : String → String → String → Alert
notify_replication_failed node_id snap_path error = record {
  level = "error";
  title = "Replicación fallida";
  message = "No se pudo replicar " ++ (snap_path ++ (". Error: " ++ error));
  node_id = node_id;
  time = none;
}

module _ (g : Gorm) where
  -- The watchdog and the database that it shares with the server.
  pub record Watch : Type 0 where
    pub last_status : GoMap String
    pub db : g.Conn

  abbrev pub prev_status : String → Watch → String
  prev_status id w = or_empty (lookup id w.last_status)

  abbrev mark : Clock → Node → String → Watch → Watch
  mark t n status w = record {
    last_status = insert n.id status w.last_status;
    db = (update_node_status g t.now n.id status w.db).0;
  }

  -- one round of the loop of `check`, with the alerts that it sends
  unfoldable pub check_node : Clock → Node → Watch → Watch × List Alert
  check_node t n w =
      let prev = prev_status n.id w in
      if is_offline t n && not (prev == "offline")
      then (mark t n "offline" w, alert_offline n ∷ [])
      else if not (is_offline t n) && prev == "offline"
      then (mark t n "online" w, alert_recovered n ∷ [])
      else if not (is_offline t n) && is_empty prev
      then (record w { last_status = insert n.id "online" w.last_status }, [])
      else (w, [])

  unfoldable pub check_nodes : Clock → List Node → Watch → Watch × List Alert
  check_nodes t [] w = (w, [])
  check_nodes t (n ∷ ns) w =
      let (w', sent) = check_node t n w in
      let (w'', more) = check_nodes t ns w' in (w'', List.◌++◌ sent more)

  checked : Clock → Watch → Result (List Node) → Watch × List Alert
  checked t w (err e) = (w, [])
  checked t w (ok nodes) = check_nodes t nodes w

  unfoldable pub check : Clock → Watch → Watch × List Alert
  unfolding checked
  check t w = checked t w (list_nodes g w.db)

  -- A run of the watchdog: each round has the database that the check finds.
  unfoldable pub watch : List (Clock × g.Conn) → Watch → Watch × List Alert
  watch [] w = (w, [])
  watch ((t, db) ∷ rounds) w =
      let (w', sent) = check t (record w { db = db }) in
      let (w'', more) = watch rounds w' in (w'', List.◌++◌ sent more)
