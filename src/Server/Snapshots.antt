-- ===== src/Server/Snapshots.antt =====
-- What the snapshot calls of cmd/server/main.go do to the file system and to the database, which
-- can fail one by one.
use btrfs_snapah_pow.Base.{◌≡◌, refl, inl, inr, String, true, false, Result, ok, err, Result-cases}
use btrfs_snapah_pow.Btrfs
use btrfs_snapah_pow.Btrfs.{snapshot_path}
use btrfs_snapah_pow.Storage.Models.{Snapshot}
use btrfs_snapah_pow.Storage.Gorm.{Gorm}
use btrfs_snapah_pow.Storage.Db.{get_snapshot, create_snapshot, delete_snapshot}
use btrfs_snapah_pow.Server.Types.{
  PbSnapshot, SnapshotRequest, DeleteResponse, Libraries, Readings, Server, db,
}
use btrfs_snapah_pow.Server.Grpc.{
  new_snapshot, pb_snapshot, rpc_create_snapshot, rpc_delete_snapshot,
}

module _ (g : Gorm) {C W B : Type 0} (lib : Libraries C W B) where
  open g use {Conn}

  -- How a deletion ends: without the row; with the command's error; or with the subvolume gone, and
  -- then it answers a success whatever the database says.
  pub data Deleted (id : String) (s : Server Conn C W)
      : Server Conn C W × DeleteResponse → Type 0 where
    not_found :
        {o : Server Conn C W × DeleteResponse} (e : String)
        → get_snapshot g id (db s) ≡ err e
        → o ≡ (s, record { success = false; message = "snapshot not found" })
        → Deleted id s o
    kept :
        {o : Server Conn C W × DeleteResponse} (snap : Snapshot) (e : String)
        → get_snapshot g id (db s) ≡ ok snap
        → (Btrfs.delete_snapshot lib.exec snap.snapshot_path s.repl.world).1 ≡ err e
        → o.1 ≡ record { success = false; message = e }
        → db o.0 ≡ db s
        → Deleted id s o
    gone :
        {o : Server Conn C W × DeleteResponse} (snap : Snapshot)
        → get_snapshot g id (db s) ≡ ok snap
        → (Btrfs.delete_snapshot lib.exec snap.snapshot_path s.repl.world).1 ≡ ok tt
        → o.1 ≡ record { success = true; message = "deleted" }
        → db o.0 ≡ (delete_snapshot g id (db s)).0
        → o.0.repl.world ≡ (Btrfs.delete_snapshot lib.exec snap.snapshot_path s.repl.world).0
        → Deleted id s o

  -- Every deletion ends in one of the three ways: the row is touched only after the command has
  -- deleted the subvolume of that row, and only then the answer is a success.
  pub rpc_delete_snapshot-Deleted :
      (id : String) (s : Server Conn C W) → Deleted id s (rpc_delete_snapshot g lib id s)
  unfolding rpc_delete_snapshot
  rpc_delete_snapshot-Deleted id s = elim (Result-cases (get_snapshot g id (db s))) [
    | inr (e, missing) ↦ rw missing (not_found e missing refl)
    | inl (snap, there) ↦
        elim (Result-cases (Btrfs.delete_snapshot lib.exec snap.snapshot_path s.repl.world).1) [
          | inr (e, refused) ↦ rw (there, refused) (kept snap e there refused refl refl)
          | inl (_, done) ↦ rw (there, done) (gone snap there done refl refl refl)
        ]
  ]

  -- the command of `CreateSnapshot`
  abbrev pub command : Readings → SnapshotRequest → Server Conn C W → W × Result (Unit {0})
  command rd req s =
      Btrfs.create_snapshot lib.exec req.subvolume_path
        (snapshot_path rd.stamp req.subvolume_path req.snapshot_name) req.readonly s.repl.world

  -- The row of a request that was read at `rd`, and the message that shows it.
  pub record IsRow (rd : Readings) (req : SnapshotRequest) (snap : Snapshot) : Type 0 where
    pub id : snap.id ≡ rd.id
    pub node_id : snap.node_id ≡ req.node_id
    pub subvolume_path : snap.subvolume_path ≡ req.subvolume_path
    pub snapshot_path :
        snap.snapshot_path ≡ Btrfs.snapshot_path rd.stamp req.subvolume_path req.snapshot_name
    pub is_read_only : snap.is_read_only ≡ req.readonly
    pub status : snap.status ≡ "active"

  pub record Shows (rd : Readings) (snap : Snapshot) (message : PbSnapshot) : Type 0 where
    pub id : message.id ≡ snap.id
    pub node_id : message.node_id ≡ snap.node_id
    pub subvolume_path : message.subvolume_path ≡ snap.subvolume_path
    pub snapshot_path : message.snapshot_path ≡ snap.snapshot_path
    pub created_at : message.created_at ≡ lib.format rd.now
    pub is_readonly : message.is_readonly ≡ snap.is_read_only
    pub status : message.status ≡ snap.status

  -- How the taking of a snapshot ends: with the command's error; with the database's, and then the
  -- subvolume stays without a row; or with both.
  pub data Taken (rd : Readings) (req : SnapshotRequest) (s : Server Conn C W)
      : Server Conn C W × Result PbSnapshot → Type 0 where
    no_subvolume :
        {o : Server Conn C W × Result PbSnapshot} (e : String)
        → (command rd req s).1 ≡ err e
        → o.1 ≡ err e
        → db o.0 ≡ db s
        → Taken rd req s o
    orphan :
        {o : Server Conn C W × Result PbSnapshot} (snap : Snapshot) (e : String)
        → IsRow rd req snap
        → (command rd req s).1 ≡ ok tt
        → (create_snapshot g snap (db s)).1 ≡ err e
        → o.1 ≡ err e
        → db o.0 ≡ (create_snapshot g snap (db s)).0
        → o.0.repl.world ≡ (command rd req s).0
        → Taken rd req s o
    taken :
        {o : Server Conn C W × Result PbSnapshot} (snap : Snapshot) (message : PbSnapshot)
        → IsRow rd req snap
        → (command rd req s).1 ≡ ok tt
        → (create_snapshot g snap (db s)).1 ≡ ok tt
        → o.1 ≡ ok message
        → Shows rd snap message
        → db o.0 ≡ (create_snapshot g snap (db s)).0
        → o.0.repl.world ≡ (command rd req s).0
        → Taken rd req s o

  new_snapshot-IsRow :
      (rd : Readings) (req : SnapshotRequest) → IsRow rd req (new_snapshot g lib rd req)
  new_snapshot-IsRow rd req = record {
    id = refl;
    node_id = refl;
    subvolume_path = refl;
    snapshot_path = refl;
    is_read_only = refl;
    status = refl;
  }

  pb_snapshot-Shows :
      (rd : Readings) (snap : Snapshot) → Shows rd snap (pb_snapshot g lib (lib.format rd.now) snap)
  pb_snapshot-Shows rd snap = record {
    id = refl;
    node_id = refl;
    subvolume_path = refl;
    snapshot_path = refl;
    created_at = refl;
    is_readonly = refl;
    status = refl;
  }

  -- Every taking ends in one of the three ways: the command runs first, the row is written only after
  -- its success, and what is answered shows that row, field by field. A row that cannot be written
  -- leaves the new subvolume behind.
  pub rpc_create_snapshot-Taken :
      (rd : Readings) (req : SnapshotRequest) (s : Server Conn C W)
      → Taken rd req s (rpc_create_snapshot g lib rd req s)
  unfolding rpc_create_snapshot
  rpc_create_snapshot-Taken rd req s = elim (Result-cases (command rd req s).1) [
    | inr (e, refused) ↦ rw refused (no_subvolume e refused refl refl)
    | inl (_, done) ↦ elim (Result-cases (create_snapshot g (new_snapshot g lib rd req) (db s)).1) [
      | inr (e, failed) ↦
          rw (done, failed)
            (orphan (new_snapshot g lib rd req) e (new_snapshot-IsRow rd req) done failed refl refl
              refl)
      | inl (_, written) ↦
          rw (done, written)
            (taken (new_snapshot g lib rd req) _ (new_snapshot-IsRow rd req) done written refl
              (pb_snapshot-Shows rd (new_snapshot g lib rd req)) refl refl)
    ]
  ]
