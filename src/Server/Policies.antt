-- ===== src/Server/Policies.antt =====
-- `handlePolicies` of cmd/server/main.go against the scheduler.
use btrfs_snapah_pow.Base.{◌≡◌, refl, true, some, ok, lookup}
use btrfs_snapah_pow.Http.{Request, fresh, status, write_header}
use btrfs_snapah_pow.Scheduler.{add_policy}
use btrfs_snapah_pow.Scheduler.Defaults.{WantsSixFields, default_schedule_rejected}
use btrfs_snapah_pow.Storage.Models.{Policy}
use btrfs_snapah_pow.Storage.Gorm.{Gorm}
use btrfs_snapah_pow.Storage.Db.{create_policy}
use btrfs_snapah_pow.Server.Types.{Libraries, Readings, Server, db, with_db}
use btrfs_snapah_pow.Server.Answers.{json_resp}
use btrfs_snapah_pow.Server.Handlers.{role_of}
use btrfs_snapah_pow.Server.Admin.{handle_policies, post_policy, scheduled}

module _ (g : Gorm) {C W B : Type 0} (lib : Libraries C W B) where
  open g use {Conn}

  -- An enabled policy without a schedule, posted by an admin and written to the database, is answered
  -- 201, although the scheduler has refused it: where the cron wants six fields of a schedule that is no
  -- descriptor, no entry is made, and the policy stands in the scheduler's map without one.
  pub unscheduled_created :
      (rd : Readings) (r : Request B) (s : Server Conn C W) (p : Policy)
      → WantsSixFields lib.cron
      → r.method ≡ "POST"
      → role_of r ≡ "admin"
      → lib.decode.policy r.body ≡ ok p
      → (create_policy g (record p { id = rd.id }) (db s)).1 ≡ ok tt
      → p.enabled ≡ true
      → p.schedule ≡ ""
      → let (w', s') = handle_policies g lib rd fresh r s in
        (status w' ≡ 201)
        × (s'.repl.db ≡ (create_policy g (record p { id = rd.id }) (db s)).0)
        × (s'.scheduler.entry_ids ≡ s.scheduler.entry_ids)
        × (lookup rd.id s'.scheduler.policies ≡ some (scheduled (record p { id = rd.id })))
  unfolding handle_policies post_policy
  unscheduled_created rd r s p wants post admin decoded written on empty =
      let (text, refused, entries, known) =
        default_schedule_rejected lib.cron (scheduled (record p { id = rd.id })) s.scheduler wants
          on empty in
      let same : handle_policies g lib rd fresh r s ≡ (
        json_resp (lib.encode.policy (record p { id = rd.id })) (write_header 201 fresh),
        record (with_db (create_policy g (record p { id = rd.id }) (db s)).0 s) {
          scheduler = (add_policy lib.cron (scheduled (record p { id = rd.id })) s.scheduler).0;
        },
      ) =
        rw (post, admin, decoded, written) refl in
      (rw (same) refl, rw (same) refl, rw (same) entries, rw (same) known)
