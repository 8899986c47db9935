-- ===== src/Storage/Deletion.antt =====
-- What stays of a row that `DeleteSnapshot` of internal/storage/db.go has removed.
use btrfs_snapah_pow.Base.{
  ◌≡◌, ◌≢◌, String, true, not, [], ◌∷◌, ok, Member, Member-keep, arith, eq_iff,
}
use mathlib.Core.Path.{subst}
use btrfs_snapah_pow.Storage.Models.{Snapshot}
use btrfs_snapah_pow.Storage.Gorm.{Gorm, text}
use btrfs_snapah_pow.Storage.Db.{get_snapshot, delete_snapshot}
use btrfs_snapah_pow.Storage.Laws.{TableLaws, snapshot_model, satisfies}

satisfies_id :
    (id : String) (s : Snapshot)
    → satisfies snapshot_model (("id", text id) ∷ []) s ≡ true
    → s.id ≡ id
satisfies_id id s h = ground (arith, eq_iff s.id id)

module _ (g : Gorm) (laws : TableLaws g.snapshots snapshot_model) where
  -- After a successful `DeleteSnapshot` the id is not found any more; whatever else is found by its
  -- id was there before, under that id.
  pub get_snapshot-delete_snapshot :
      (id other : String) (db : g.Conn) (s : Snapshot)
      → (delete_snapshot g id db).1 ≡ ok tt
      → get_snapshot g other (delete_snapshot g id db).0 ≡ ok s
      → (s.id ≢ id) × (s.id ≡ other) × Member s (laws.rows db)
  unfolding get_snapshot delete_snapshot
  get_snapshot-delete_snapshot id other db s done found =
      let (fits, mem) =
        laws.first_row (("id", text other) ∷ []) (g.snapshots.remove (("id", text id) ∷ []) db).0 s
          found in
      let (kept, before) =
        Member-keep (λ r. not (satisfies snapshot_model (("id", text id) ∷ []) r)) s (laws.rows db)
          (subst (Member s) (laws.remove_rows (("id", text id) ∷ []) db done) mem) in
      (ground (arith, eq_iff s.id id), satisfies_id other s fits, before)
