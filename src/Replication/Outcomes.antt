-- ===== src/Replication/Outcomes.antt =====
-- How a run of `Replicate` of internal/replication/replication.go ends.
use btrfs_snapah_pow.Base.{
  ℕ, ◌≡◌, refl, ◌⊎◌, inl, inr, String, some, lookup, insert, lookup-insert, lookup-insert_self,
  eq_iff, ◌≢◌, ◌==◌, Result, ok, err, nat_eq, if◌then◌else◌, Bool-cases, arith, sym, ◌∙◌, ap,
}
use mathlib.Core.Option
use mathlib.Core.Path.{subst}
use btrfs_snapah_pow.Btrfs.{Exec}
use btrfs_snapah_pow.Storage.Gorm.{Gorm}
use btrfs_snapah_pow.Replication.{
  Job, Target, Times, Manager, start, fail, complete, created, connected, sent_on, replicate,
  get_job,
}

-- The status and the error that a result leaves in a job that had a status and an error before.
abbrev pub Ended : Job → Result (Unit {0}) → Job → Type 0
Ended before (ok _) job = (job.status ≡ "done") × (job.error ≡ before.error)
Ended before (err e) job = (job.status ≡ "failed") × (job.error ≡ e)

pub Ended-status :
    (before job : Job) (r : Result (Unit {0}))
    → Ended before r job
    → (job.status ≡ "done") ⊎ (job.status ≡ "failed")
Ended-status before job (ok _) h = inl h.0
Ended-status before job (err e) h = inr h.0

module _ (g : Gorm) {W : Type 0} where
  open g use {Conn}

  -- What a run that started in `m` leaves: the job at `a` has ended as the result says, at the
  -- given time; the map is as it was, and the jobs at other addresses are.
  pub record Closed (a : ℕ) (t : Times) (m : Manager Conn W)
      (out : Manager Conn W × Result (Unit {0})) : Type 0 where
    pub ended : Ended (m.memory a) out.1 (out.0.memory a)
    pub same_id : (out.0.memory a).id ≡ (m.memory a).id
    pub started_at : (out.0.memory a).started_at ≡ (m.memory a).started_at
    pub finished_at : (out.0.memory a).finished_at ≡ t.finished
    pub jobs : out.0.jobs ≡ m.jobs
    pub others : (b : ℕ) → a ≢ b → out.0.memory b ≡ m.memory b

  -- Every job of the map stands under its own id, and its run has ended.
  pub record Settled (m : Manager Conn W) : Type 0 where
    pub each :
        (id : String) (a : ℕ)
        → lookup id m.jobs ≡ some a
        → ((m.memory a).id ≡ id)
          × (((m.memory a).status ≡ "done") ⊎ ((m.memory a).status ≡ "failed"))

  fail-Closed :
      (a : ℕ) (t : Times) (e : String) (w : W) (m : Manager Conn W)
      → Closed a t m (fail g a t e (record m { world = w }))
  unfolding fail
  fail-Closed a t e w m = record {
    ended = (ground arith, ground arith);
    same_id = ground arith;
    started_at = ground arith;
    finished_at = ground arith;
    jobs = refl;
    others = λ b h. ground arith;
  }

  complete-Closed :
      (a : ℕ) (t : Times) (path : String) (w : W) (m : Manager Conn W)
      → Closed a t m (complete g a t path (record m { world = w }))
  unfolding complete
  complete-Closed a t path w m = record {
    ended = (ground arith, ground arith);
    same_id = ground arith;
    started_at = ground arith;
    finished_at = ground arith;
    jobs = refl;
    others = λ b h. ground arith;
  }

  created-Closed :
      (a : ℕ) (t : Times) (m : Manager Conn W) (answer : W × Result String)
      → Closed a t m (created g a t m answer)
  unfolding created
  created-Closed a t m (w, ok path) = complete-Closed a t path w m
  created-Closed a t m (w, err e) = fail-Closed a t _ w m

  pub start_jobs :
      (a : ℕ) (t : Times) (m : Manager Conn W)
      → (start g a t m).jobs ≡ insert (m.memory a).id a m.jobs
  unfolding start
  start_jobs a t m = refl

  pub start_id :
      (a : ℕ) (t : Times) (m : Manager Conn W) → ((start g a t m).memory a).id ≡ (m.memory a).id
  unfolding start
  start_id a t m = ground arith

  pub start_others :
      (a b : ℕ) (t : Times) (m : Manager Conn W) → a ≢ b → (start g a t m).memory b ≡ m.memory b
  unfolding start
  start_others a b t m h = ground arith

  module _ (exec : Exec W) (target : Target W) where
    connected-Closed :
        (a : ℕ) (t : Times) (m : Manager Conn W) (answer : W × Result (Unit {0}))
        → Closed a t m (connected g exec target a t m answer)
    unfolding connected
    connected-Closed a t m (w, ok _) = created-Closed a t m _
    connected-Closed a t m (w, err e) = fail-Closed a t _ w m

    pub sent_on-Closed :
        (a : ℕ) (t : Times) (m : Manager Conn W) (answer : W × Result String)
        → Closed a t m (sent_on g exec target a t m answer)
    unfolding sent_on
    sent_on-Closed a t m (w, ok _) = connected-Closed a t m _
    sent_on-Closed a t m (w, err e) = fail-Closed a t _ w m

    -- Whatever the commands and the target answer, a run of `Replicate` ends with its job "done" if
    -- it succeeds, and "failed" with the returned error if it does not; the finish is stamped, the
    -- map is as after the start, and the jobs at other addresses stay as they were.
    pub replicate-Closed :
        (a : ℕ) (t : Times) (m : Manager Conn W)
        → Closed a t (start g a t m) (replicate g exec target a t m)
    unfolding replicate
    replicate-Closed a t m = sent_on-Closed a t (start g a t m) _

    own_id :
        (m : Manager Conn W)
        → Settled m
        → (id : String) (a b : ℕ) → a ≡ b
        → (if (m.memory a).id == id then some a else lookup id m.jobs) ≡ some b
        → (m.memory a).id ≡ id
    own_id m h id a b e found = elim (Bool-cases ((m.memory a).id == id)) [
      | inl same ↦ ground (arith, eq_iff (m.memory a).id id)
      | inr other ↦ (h.each id a (ground arith)).0
    ]

    replicate_each :
        (a : ℕ) (t : Times) (m : Manager Conn W)
        → Settled m
        → (id : String) (b : ℕ) → lookup id (replicate g exec target a t m).0.jobs ≡ some b
        → (((replicate g exec target a t m).0.memory b).id ≡ id)
          × ((((replicate g exec target a t m).0.memory b).status ≡ "done")
              ⊎ (((replicate g exec target a t m).0.memory b).status ≡ "failed"))
    replicate_each a t m h id b found =
        let c = replicate-Closed a t m in
        let out = (replicate g exec target a t m).0 in
        let place : lookup id (insert (m.memory a).id a m.jobs) ≡ some b =
          ap (lookup id) (sym (c.jobs ∙ start_jobs a t m)) ∙ found in
        let before = lookup-insert (m.memory a).id id a m.jobs in
        elim (Bool-cases (nat_eq a b)) [
          | inl same ↦
              let e : a ≡ b = ground arith in
              (
                subst (λ x. (out.memory x).id ≡ id) e
                    (c.same_id ∙ start_id a t m ∙ own_id m h id a b e (sym before ∙ place)),
                subst (λ x. ((out.memory x).status ≡ "done") ⊎ ((out.memory x).status ≡ "failed")) e
                    (Ended-status ((start g a t m).memory a) (out.memory a)
                      (replicate g exec target a t m).1 c.ended),
              )
          | inr other ↦
              let apart : a ≢ b = λ e. ground arith in
              let still : out.memory b ≡ m.memory b =
                c.others b apart ∙ start_others a b t m apart in
              subst (λ j. (j.id ≡ id) × ((j.status ≡ "done") ⊎ (j.status ≡ "failed"))) (sym still)
                (h.each id b (ground arith))
        ]

    -- If every job of the map stands under its own id and is "done" or "failed", then so it is after a
    -- run, the job of the run included: none is left pending or running.
    pub replicate-Settled :
        (a : ℕ) (t : Times) (m : Manager Conn W)
        → Settled m
        → Settled (replicate g exec target a t m).0
    replicate-Settled a t m h = record { each = λ id b found. replicate_each a t m h id b found }

    -- After a run, whatever its result, its job is found under its id, as the run left it.
    pub get_job-replicate :
        (a : ℕ) (t : Times) (m : Manager Conn W)
        → get_job (m.memory a).id (replicate g exec target a t m).0
          ≡ some ((replicate g exec target a t m).0.memory a)
    unfolding get_job
    get_job-replicate a t m =
        let out = (replicate g exec target a t m).0 in
        ap (λ js. Option.map out.memory (lookup (m.memory a).id js))
          ((replicate-Closed a t m).jobs ∙ start_jobs a t m)
        ∙ ap (Option.map out.memory) (lookup-insert_self (m.memory a).id a m.jobs)
