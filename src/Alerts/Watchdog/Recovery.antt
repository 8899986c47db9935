-- ===== src/Alerts/Watchdog/Recovery.antt =====
-- How `check` of internal/alerts/watchdog.go and `UpdateNodeStatus` of internal/storage/db.go work
-- together: marking a node offline renews its `last_seen`, by which the next check judges it.
use btrfs_snapah_pow.Base.{
  ℕ, ◌+◌, ◌≤◌, ◌≡◌, refl, ap, String, ◌==◌, true, false, [], ◌∷◌, insert, lookup-insert_self, ok,
  Member, Member-map, eq_iff, arith, if◌then◌else◌,
}
use mathlib.Core.Path.{subst}
use btrfs_snapah_pow.Http.{or_empty}
use btrfs_snapah_pow.Storage.Models.{Node}
use btrfs_snapah_pow.Storage.Gorm.{Gorm, text, time}
use btrfs_snapah_pow.Storage.Db.{update_node_status}
use btrfs_snapah_pow.Storage.Laws.{TableLaws, node_model, satisfies, assign_all}
use btrfs_snapah_pow.Alerts.Watchdog.{
  Clock, Watch, offline_threshold, is_offline, alert_recovered, prev_status, check_node,
}

-- What the update makes of one row.
marked_row : ℕ → ℕ → String → String → Node → Node
marked_row touched now id status r =
    if satisfies node_model (("id", text id) ∷ []) r
    then node_model.touch touched
        (assign_all node_model (("status", text status) ∷ ("last_seen", time now) ∷ []) r)
    else r

marked_row_seen :
    (touched now : ℕ) (id status : String) (r row : Node)
    → marked_row touched now id status r ≡ row
    → row.id ≡ id
    → row.last_seen ≡ now
unfolding marked_row
marked_row_seen touched now id status r row e same =
    ground (arith, eq_iff r.id id, eq_iff row.id id)

module _ (g : Gorm) (laws : TableLaws g.nodes node_model) where
  -- After a successful status update every row of the node was last seen at the update.
  update_node_status-last_seen :
      (now : ℕ) (id status : String) (db : g.Conn) (row : Node)
      → (update_node_status g now id status db).1 ≡ ok tt
      → Member row (laws.rows (update_node_status g now id status db).0)
      → row.id ≡ id
      → row.last_seen ≡ now
  unfolding update_node_status marked_row
  update_node_status-last_seen now id status db row done mem same =
      let (touched, stored) =
        laws.updates_rows (("id", text id) ∷ [])
          (("status", text status) ∷ ("last_seen", time now) ∷ []) db done in
      let (r, e, _) =
        Member-map (marked_row touched now id status) row (laws.rows db)
          (subst (Member row) stored mem) in
      marked_row_seen touched now id status r row e same

  check_node_down :
      (t : Clock) (n : Node) (w : Watch g)
      → is_offline t n ≡ true
      → (prev_status g n.id w == "offline") ≡ false
      → (check_node g t n w).0 ≡ record {
        last_status = insert n.id "offline" w.last_status;
        db = (update_node_status g t.now n.id "offline" w.db).0;
      }
  unfolding check_node
  check_node_down t n w off up = rw (off, up) refl

  check_node_up :
      (t : Clock) (n : Node) (w : Watch g)
      → is_offline t n ≡ false
      → prev_status g n.id w ≡ "offline"
      → (check_node g t n w).1 ≡ alert_recovered n ∷ []
  unfolding check_node
  check_node_up t n w on down = rw (on, down) refl

  -- A node that has just been found offline, and marked so by an update that succeeded, is announced
  -- as recovered by any check of its row at most the threshold later, though nothing was heard of
  -- it: the mark itself renewed `last_seen`.
  pub offline_mark_recovers :
      (t u : Clock) (n row : Node) (w : Watch g)
      → is_offline t n ≡ true
      → (prev_status g n.id w == "offline") ≡ false
      → (update_node_status g t.now n.id "offline" w.db).1 ≡ ok tt
      → Member row (laws.rows (check_node g t n w).0.db)
      → row.id ≡ n.id
      → u.since ≤ t.now + offline_threshold
      → (check_node g u row (check_node g t n w).0).1 ≡ alert_recovered row ∷ []
  offline_mark_recovers t u n row w off up done mem same soon =
      let w' : Watch g = record {
        last_status = insert n.id "offline" w.last_status;
        db = (update_node_status g t.now n.id "offline" w.db).0;
      } in
      let state : (check_node g t n w).0 ≡ w' = check_node_down t n w off up in
      let seen : row.last_seen ≡ t.now =
        update_node_status-last_seen t.now n.id "offline" w.db row done
          (subst (λ v. Member row (laws.rows v.db)) state mem) same in
      let fresh : is_offline u row ≡ false = rw seen (ground arith) in
      rw state (
        check_node_up u row w' fresh
          (rw same (ap or_empty (lookup-insert_self n.id "offline" w.last_status))))
