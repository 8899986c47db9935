-- ===== src/Replication/Keys.antt =====
-- The jobs of internal/replication/replication.go while runs overlap: a run is its start, and later
-- the rest of it.
use btrfs_snapah_pow.Base.{
  ℕ, ◌≡◌, ◌≢◌, sym, ◌∙◌, ap, ◌⊎◌, inl, inr, String, ◌==◌, some, lookup, lookup-insert, eq_iff,
  Result, nat_eq, if◌then◌else◌, Bool-cases, arith,
}
use mathlib.Core.Path.{subst}
use btrfs_snapah_pow.Btrfs.{Exec}
use btrfs_snapah_pow.Storage.Gorm.{Gorm}
use btrfs_snapah_pow.Replication.{Job, Target, Times, Manager, set, start, sent_on}
use btrfs_snapah_pow.Replication.Outcomes.{
  sent_on-Closed, start_jobs, start_id, start_others, Ended-status,
}

-- "running", "done" or "failed"
abbrev pub Begun : Job → Type 0
Begun job = (job.status ≡ "running") ⊎ (job.status ≡ "done") ⊎ (job.status ≡ "failed")

module _ (g : Gorm) {W : Type 0} where
  open g use {Conn}

  -- Every job of the map stands under its own id, and its run has begun.
  pub record Keyed (m : Manager Conn W) : Type 0 where
    pub each :
        (id : String) (a : ℕ)
        → lookup id m.jobs ≡ some a
        → ((m.memory a).id ≡ id) × Begun (m.memory a)

  start_running :
      (a : ℕ) (t : Times) (m : Manager Conn W) → ((start g a t m).memory a).status ≡ "running"
  unfolding start
  start_running a t m = ground arith

  started_each :
      (a : ℕ) (t : Times) (m : Manager Conn W) (id : String) (b : ℕ)
      → Keyed m
      → lookup id (start g a t m).jobs ≡ some b
      → (((start g a t m).memory b).id ≡ id) × Begun ((start g a t m).memory b)
  started_each a t m id b h found =
      let place : (if (m.memory a).id == id then some a else lookup id m.jobs) ≡ some b =
        sym (lookup-insert (m.memory a).id id a m.jobs)
        ∙ ap (lookup id) (sym (start_jobs g a t m))
        ∙ found in
      elim (Bool-cases (nat_eq a b)) [
        | inl same ↦
            let e : a ≡ b = ground arith in
            subst (λ x. (((start g a t m).memory x).id ≡ id) × Begun ((start g a t m).memory x)) e
              (start_id g a t m ∙ own_id m h id a b e place, inl (start_running a t m))
        | inr other ↦
            subst (λ j. (j.id ≡ id) × Begun j) (sym (start_others g a b t m (λ e. ground arith)))
              (h.each id b (ground arith))
      ]
    where
      own_id :
          (n : Manager Conn W)
          → Keyed n
          → (k : String) (x y : ℕ) → x ≡ y
          → (if (n.memory x).id == k then some x else lookup k n.jobs) ≡ some y
          → (n.memory x).id ≡ k
      own_id n hn k x y same place' = elim (Bool-cases ((n.memory x).id == k)) [
        | inl eq ↦ ground (arith, eq_iff (n.memory x).id k)
        | inr ne ↦ (hn.each k x (ground arith)).0
      ]

  pub start-Keyed : (a : ℕ) (t : Times) (m : Manager Conn W) → Keyed m → Keyed (start g a t m)
  start-Keyed a t m h = record { each = λ id b found. started_each a t m id b h found }

  module _ (exec : Exec W) (target : Target W) where
    ended_each :
        (a : ℕ) (t : Times) (m : Manager Conn W) (x : W × Result String) (id : String) (b : ℕ)
        → Keyed m
        → lookup id (sent_on g exec target a t m x).0.jobs ≡ some b
        → (((sent_on g exec target a t m x).0.memory b).id ≡ id)
          × Begun ((sent_on g exec target a t m x).0.memory b)
    ended_each a t m x id b h found =
        let out = (sent_on g exec target a t m x).0 in
        let c = sent_on-Closed g exec target a t m x in
        let place : lookup id m.jobs ≡ some b = ap (lookup id) (sym c.jobs) ∙ found in
        let (key, begun) = h.each id b place in
        elim (Bool-cases (nat_eq a b)) [
          | inl same ↦
              let e : a ≡ b = ground arith in
              subst (λ y. ((out.memory y).id ≡ id) × Begun (out.memory y)) e
                (
                  c.same_id ∙ subst (λ y. (m.memory y).id ≡ id) (sym e) key,
                  inr (
                      Ended-status (m.memory a) (out.memory a) (sent_on g exec target a t m x).1
                        c.ended),
                )
          | inr other ↦
              subst (λ j. (j.id ≡ id) × Begun j) (sym (c.others b (λ e. ground arith))) (key, begun)
        ]

    pub sent_on-Keyed :
        (a : ℕ) (t : Times) (m : Manager Conn W) (x : W × Result String)
        → Keyed m
        → Keyed (sent_on g exec target a t m x).0
    sent_on-Keyed a t m x h = record { each = λ id b found. ended_each a t m x id b h found }

  -- A store to an address that the map does not have is not seen through the map.
  pub set-Keyed :
      (a : ℕ) (job : Job) (m : Manager Conn W)
      → ((id : String) → lookup id m.jobs ≢ some a)
      → Keyed m
      → Keyed (record m { memory = set a job m.memory })
  set-Keyed a job m free h = record {
    each = λ id b found. elim (Bool-cases (nat_eq a b)) [
      | inl same ↦ let e : a ≡ b = ground arith in absurd (free id (found ∙ ap some (sym e)))
      | inr other ↦ ground (arith, h.each id b found)
    ];
  }
