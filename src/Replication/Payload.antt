-- ===== src/Replication/Payload.antt =====
-- What becomes of the stream that `Replicate` of internal/replication/replication.go reads.
use btrfs_snapah_pow.Base.{ℕ, ◌≡◌, refl, String, Result, ok, err}
use btrfs_snapah_pow.Btrfs.{Exec}
use btrfs_snapah_pow.Btrfs.Stream.{Alike, SameVerdict, send_snapshot-SameVerdict}
use btrfs_snapah_pow.Storage.Gorm.{Gorm}
use btrfs_snapah_pow.Replication.{Target, Times, Manager, start, connected, sent_on, replicate}

module _ (g : Gorm) {W : Type 0} (target : Target W) where
  open g use {Conn}

  sent_on-SameVerdict :
      (exec exec' : Exec W) (a : ℕ) (t : Times) (m : Manager Conn W) (x y : W × Result String)
      → x.0 ≡ y.0
      → SameVerdict x.1 y.1
      → sent_on g exec target a t m x ≡ sent_on g exec' target a t m y
  unfolding sent_on connected
  sent_on-SameVerdict exec exec' a t m (w, ok x) (w', ok y) h v = rw h refl
  sent_on-SameVerdict exec exec' a t m (w, err x) (w', err y) h v = rw (h, v) refl
  sent_on-SameVerdict exec exec' a t m (w, ok x) (w', err y) h v = absurd v
  sent_on-SameVerdict exec exec' a t m (w, err x) (w', ok y) h v = absurd v

  -- The stream is never sent on: with two `btrfs` commands that differ in nothing but what they
  -- write to the standard output, a run does the same, asks the same of the target, and answers
  -- the same.
  pub replicate-stream :
      (exec exec' : Exec W) (a : ℕ) (t : Times) (m : Manager Conn W)
      → Alike exec exec'
      → replicate g exec target a t m ≡ replicate g exec' target a t m
  unfolding replicate
  replicate-stream exec exec' a t m alike =
      let m' = start g a t m in
      let job = m'.memory a in
      let (same, verdict) =
        send_snapshot-SameVerdict exec exec' job.snapshot_path job.parent_path m'.world alike in
      sent_on-SameVerdict exec exec' a t m' _ _ same verdict
