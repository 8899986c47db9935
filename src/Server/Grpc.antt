-- ===== src/Server/Grpc.antt =====
-- The gRPC methods of cmd/server/main.go. The server that gRPC registers asks for no token.
use btrfs_snapah_pow.Base.{
  ◌+◌, String, true, false, not, List, map, none, Result, ok, err, is_empty, if◌then◌else◌,
}
use btrfs_snapah_pow.Storage.Models.{Node, Snapshot}
use btrfs_snapah_pow.Storage.Gorm.{Gorm}
use btrfs_snapah_pow.Storage.Db.{
  create_node, list_nodes, update_node_status, create_snapshot, get_snapshot, list_snapshots,
  delete_snapshot,
}
use btrfs_snapah_pow.Btrfs
use btrfs_snapah_pow.Btrfs.{snapshot_path}
use btrfs_snapah_pow.Server.Types.{
  PbNode, PbSnapshot, DeleteResponse, PbEvent, SnapshotRequest, Libraries, Readings, Server, db,
  with_db, with_world,
}

module _ (g : Gorm) {C W B : Type 0} (lib : Libraries C W B) where
  open g use {Conn}

  abbrev State : Type 0
  State = Server Conn C W

  -- the row of `RegisterNode`
  unfoldable pub new_node : Readings → String → String → Node
  new_node rd hostname address = record {
    id = rd.id;
    hostname = hostname;
    address = address;
    status = "online";
    last_seen = rd.now;
    created_at = 0;
    updated_at = 0;
    deleted_at = none;
  }

  abbrev pub pb_node : Node → PbNode
  pb_node n = record {
    id = n.id;
    hostname = n.hostname;
    address = n.address;
    status = n.status;
    last_seen = lib.format n.last_seen;
  }

  registered : Node → State → Conn × Result (Unit {0}) → State × Result PbNode
  registered n s (d, err e) = (with_db d s, err e)
  registered n s (d, ok _) = (with_db d s, ok (pb_node n))

  -- The token of the request is not looked at.
  unfoldable pub register_node : Readings → String → String → String → State → State × Result PbNode
  unfolding registered
  register_node rd hostname address token s =
      registered (new_node rd hostname address) s
        (create_node g (new_node rd hostname address) (db s))

  pb_nodes : Result (List Node) → Result (List PbNode)
  pb_nodes (err e) = err e
  pb_nodes (ok nodes) = ok (map pb_node nodes)

  unfoldable pub rpc_list_nodes : State → Result (List PbNode)
  unfolding pb_nodes
  rpc_list_nodes s = pb_nodes (list_nodes g (db s))

  -- the row of `CreateSnapshot`
  abbrev pub new_snapshot : Readings → SnapshotRequest → Snapshot
  new_snapshot rd req = record {
    id = rd.id;
    node_id = req.node_id;
    subvolume_path = req.subvolume_path;
    snapshot_path = snapshot_path rd.stamp req.subvolume_path req.snapshot_name;
    uuid = "";
    parent_uuid = "";
    is_read_only = req.readonly;
    size_bytes = 0;
    status = "active";
    error_message = "";
    created_at = 0;
    expires_at = none;
    deleted_at = none;
  }

  abbrev pub pb_snapshot : String → Snapshot → PbSnapshot
  pb_snapshot created_at snap = record {
    id = snap.id;
    node_id = snap.node_id;
    snapshot_path = snap.snapshot_path;
    subvolume_path = snap.subvolume_path;
    created_at = created_at;
    is_readonly = snap.is_read_only;
    status = snap.status;
  }

  -- the row is written: what is left of `CreateSnapshot`
  recorded : Readings → Snapshot → State → Conn × Result (Unit {0}) → State × Result PbSnapshot
  recorded rd snap s (d, err e) = (with_db d s, err e)
  recorded rd snap s (d, ok _) = (
    record (with_db d s) { snapshots_created = s.snapshots_created + 1 },
    ok (pb_snapshot (lib.format rd.now) snap),
  )

  taken : Readings → SnapshotRequest → State → W × Result (Unit {0}) → State × Result PbSnapshot
  taken rd req s (w, err e) = (with_world w s, err e)
  taken rd req s (w, ok _) =
      recorded rd (new_snapshot rd req) (with_world w s)
        (create_snapshot g (new_snapshot rd req) (db s))

  unfoldable pub rpc_create_snapshot :
      Readings → SnapshotRequest → State → State × Result PbSnapshot
  unfolding taken recorded
  rpc_create_snapshot rd req s = taken rd req s (
      Btrfs.create_snapshot lib.exec req.subvolume_path
        (snapshot_path rd.stamp req.subvolume_path req.snapshot_name) req.readonly s.repl.world)

  pb_snapshots : Result (List Snapshot) → Result (List PbSnapshot)
  pb_snapshots (err e) = err e
  pb_snapshots (ok snaps) = ok (map (λ snap. pb_snapshot (lib.format snap.created_at) snap) snaps)

  unfoldable pub rpc_list_snapshots : String → State → Result (List PbSnapshot)
  unfolding pb_snapshots
  rpc_list_snapshots node_id s = pb_snapshots (list_snapshots g node_id (db s))

  -- The subvolume is gone: the row goes too, whatever the database says to that.
  removed : String → State → W × Result (Unit {0}) → State × DeleteResponse
  removed id s (w, err e) = (with_world w s, record { success = false; message = e })
  removed id s (w, ok _) = (
    record (with_db (delete_snapshot g id (db s)).0 (with_world w s)) {
      snapshots_deleted = s.snapshots_deleted + 1;
    },
    record { success = true; message = "deleted" },
  )

  found : String → State → Result Snapshot → State × DeleteResponse
  found id s (err e) = (s, record { success = false; message = "snapshot not found" })
  found id s (ok snap) =
      removed id s (Btrfs.delete_snapshot lib.exec snap.snapshot_path s.repl.world)

  -- It never answers an error; `force` is not looked at.
  unfoldable pub rpc_delete_snapshot : String → State → State × DeleteResponse
  unfolding found removed
  rpc_delete_snapshot id s = found id s (get_snapshot g id (db s))

  abbrev pub stream_event : String → String → String → String → String → PbEvent
  stream_event id event_type node_id message timestamp = record {
    id = id;
    event_type = event_type;
    node_id = node_id;
    message = message;
    timestamp = timestamp;
    severity = "info";
  }

  -- `StreamEvents` up to its loop, with the first event; then a heartbeat every ten seconds.
  unfoldable pub start_stream : Readings → String → State → State × PbEvent
  start_stream rd node_id s =
      let hello = stream_event rd.id "connection" node_id "Stream iniciado" (lib.format rd.now) in
      if not (is_empty node_id)
      then (with_db (update_node_status g rd.later node_id "online" (db s)).0 s, hello)
      else (s, hello)

  unfoldable pub heartbeat : Readings → String → PbEvent
  heartbeat rd node_id = stream_event rd.id "heartbeat" node_id "ping" (lib.format rd.now)
