-- ===== src/Scheduler/Policies.antt =====
-- The maps of internal/scheduler/scheduler.go against the entries of the cron: which policies run.
use btrfs_snapah_pow.Base.{
  ℕ, ◌≡◌, refl, sym, ◌∙◌, inl, inr, String, ◌==◌, Bool, true, false, not, Option, none, some,
  lookup, insert, erase, lookup-insert, lookup-erase, Result, ok, err, Bool-cases, eq_iff, eq_refl,
  nat_eq, if◌then◌else◌, arith,
}
use btrfs_snapah_pow.Scheduler.{
  Policy, Cron, Scheduler, new_scheduler, schedule_of, registered, add_policy, remove_policy,
  remove_entry, update_policy,
}

-- What the cron library documents: `live` tells the policy that an entry runs. An added entry has a
-- new number, and an error adds none; `Remove` takes one entry out.
pub record CronLaws {C : Type 0} (cron : Cron C) : Type 0 where
  pub live : ℕ → C → Option Policy
  pub start_live : (e : ℕ) → live e cron.start ≡ none
  pub add_live :
      (spec : String) (p : Policy) (c : C) (id e : ℕ)
      → (cron.add_func spec p c).1 ≡ ok id
      → live e (cron.add_func spec p c).0 ≡ (if nat_eq id e then some p else live e c)
  pub add_new :
      (spec : String) (p : Policy) (c : C) (id : ℕ)
      → (cron.add_func spec p c).1 ≡ ok id
      → live id c ≡ none
  pub add_failed :
      (spec : String) (p : Policy) (c : C) (e : ℕ) (message : String)
      → (cron.add_func spec p c).1 ≡ err message
      → live e (cron.add_func spec p c).0 ≡ live e c
  pub remove_live :
      (id e : ℕ) (c : C) → live e (cron.remove id c) ≡ (if nat_eq id e then none else live e c)

module _ {C : Type 0} (cron : Cron C) (laws : CronLaws cron) where
  -- The scheduler knows what runs: an entry runs a policy exactly if it is recorded under the
  -- policy's id, and that policy is the one in the map and enabled.
  pub record InStep (s : Scheduler C) : Type 0 where
    pub recorded :
        (e : ℕ) (p : Policy) → laws.live e s.cron ≡ some p → lookup p.id s.entry_ids ≡ some e
    pub running :
        (id : String) (e : ℕ)
        → lookup id s.entry_ids ≡ some e
        → (p : Policy) × (laws.live e s.cron ≡ some p)
          × (p.id ≡ id)
          × (lookup id s.policies ≡ some p)
          × (p.enabled ≡ true)

  remove_entry-InStep :
      (id : String) (s : Scheduler C) (o : Option ℕ)
      → lookup id s.entry_ids ≡ o
      → InStep s
      → InStep (record (remove_entry cron id s o) { policies = erase id s.policies })
  unfolding remove_entry
  remove_entry-InStep id s none absent h = record {
    recorded = h.recorded;
    running = λ key e found.
        let (q, l, i, m, en) = h.running key e found in
        (q, l, i, ground (arith, lookup-erase id key s.policies, eq_iff id key), en);
  }
  remove_entry-InStep id s (some entry) present h = record {
    recorded = λ e q l. ground (
      arith,
      laws.remove_live entry e s.cron,
      lookup-erase id q.id s.entry_ids,
      h.recorded e q,
      eq_iff id q.id,
    );
    running = λ key e found.
        let before : lookup key s.entry_ids ≡ some e =
          ground (arith, lookup-erase id key s.entry_ids) in
        let apart : (id == key) ≡ false = ground (arith, lookup-erase id key s.entry_ids) in
        let (q, l, i, m, en) = h.running key e before in
        let (r, l', i', _, _) = h.running id entry present in
        (
          q,
          ground (arith, laws.remove_live entry e s.cron, eq_iff id key),
          i,
          ground (arith, lookup-erase id key s.policies),
          en,
        );
  }

  -- Removing a policy keeps the scheduler in step: a cron entry runs a policy exactly if it is recorded
  -- under the policy's id, and that policy is in the map and enabled.
  pub remove_policy-InStep :
      (id : String) (s : Scheduler C) → InStep s → InStep (remove_policy cron id s)
  unfolding remove_policy
  remove_policy-InStep id s h = remove_entry-InStep id s (lookup id s.entry_ids) refl h

  add_disabled-InStep :
      (p : Policy) (s : Scheduler C)
      → InStep s
      → lookup p.id s.entry_ids ≡ none
      → InStep (record s { policies = insert p.id p s.policies })
  add_disabled-InStep p s h new = record {
    recorded = h.recorded;
    running = λ key e found.
        let (q, l, i, m, en) = h.running key e found in
        (q, l, i, ground (arith, lookup-insert p.id key p s.policies, eq_iff p.id key), en);
  }

  registered-InStep :
      (p : Policy) (s : Scheduler C) (r : Result ℕ)
      → (cron.add_func (schedule_of p) p s.cron).1 ≡ r
      → p.enabled ≡ true
      → InStep s
      → lookup p.id s.entry_ids ≡ none
      → InStep
          (registered cron p
            (record s { policies = insert p.id p s.policies })
            ((cron.add_func (schedule_of p) p s.cron).0, r)).0
  registered-InStep p s (err message) refused on h new = record {
    recorded = λ e q l.
        h.recorded e q (sym (laws.add_failed (schedule_of p) p s.cron e message refused) ∙ l);
    running = λ key e found.
        let (q, l, i, m, en) = h.running key e found in
        (
          q,
          laws.add_failed (schedule_of p) p s.cron e message refused ∙ l,
          i,
          ground (arith, lookup-insert p.id key p s.policies, eq_iff p.id key),
          en,
        );
  }
  registered-InStep p s (ok id) added on h new = record {
    recorded = λ e q l. ground (
      arith,
      laws.add_live (schedule_of p) p s.cron id e added,
      lookup-insert p.id q.id id s.entry_ids,
      h.recorded e q,
      eq_iff p.id q.id,
    );
    running = λ key e found. elim (Bool-cases (p.id == key)) [
      | inl same ↦
          let number : id ≡ e = ground (arith, lookup-insert p.id key id s.entry_ids) in
          (
            p,
            ground (arith, laws.add_live (schedule_of p) p s.cron id e added, number),
            ground (arith, eq_iff p.id key),
            ground (arith, lookup-insert p.id key p s.policies),
            on,
          )
      | inr other ↦
          let before : lookup key s.entry_ids ≡ some e =
            ground (arith, lookup-insert p.id key id s.entry_ids) in
          let (q, l, i, m, en) = h.running key e before in
          (
            q,
            ground (
              arith,
              laws.add_live (schedule_of p) p s.cron id e added,
              laws.add_new (schedule_of p) p s.cron id added,
            ),
            i,
            ground (arith, lookup-insert p.id key p s.policies),
            en,
          )
    ];
  }

  chosen-InStep :
      (b : Bool) (p : Policy) (s : Scheduler C)
      → p.enabled ≡ b
      → InStep s
      → lookup p.id s.entry_ids ≡ none
      → InStep
          (if not b
            then (record s { policies = insert p.id p s.policies }, ok tt)
            else registered cron p
                (record s { policies = insert p.id p s.policies })
                (cron.add_func (schedule_of p) p s.cron)).0
  chosen-InStep true p s on h new =
      registered-InStep p s (cron.add_func (schedule_of p) p s.cron).1 refl on h new
  chosen-InStep false p s off h new = add_disabled-InStep p s h new

  -- Adding a policy whose id has no entry keeps the cron's entries in step with the map, also where the policy is
  -- disabled and where the cron refuses its schedule.
  pub add_policy-InStep :
      (p : Policy) (s : Scheduler C)
      → InStep s
      → lookup p.id s.entry_ids ≡ none
      → InStep (add_policy cron p s).0
  unfolding add_policy
  add_policy-InStep p s h new = chosen-InStep p.enabled p s refl h new

  remove_entry-absent :
      (id : String) (s : Scheduler C) (o : Option ℕ)
      → lookup id s.entry_ids ≡ o
      → lookup id (remove_entry cron id s o).entry_ids ≡ none
  unfolding remove_entry
  remove_entry-absent id s none absent = absent
  remove_entry-absent id s (some e) present = rw (lookup-erase id id s.entry_ids, eq_refl id) refl

  -- Updating a policy keeps the scheduler in step, whether or not the policy was known and whether or
  -- not the cron takes the new schedule: each cron entry is recorded under its policy's id, and each
  -- recorded entry runs the enabled policy that the map has under that id. None is left behind.
  pub update_policy-InStep :
      (p : Policy) (s : Scheduler C) → InStep s → InStep (update_policy cron p s).0
  unfolding update_policy remove_policy
  update_policy-InStep p s h =
      add_policy-InStep p (remove_policy cron p.id s) (remove_policy-InStep p.id s h)
        (remove_entry-absent p.id s (lookup p.id s.entry_ids) refl)

  pub new_scheduler-InStep : InStep (new_scheduler cron)
  unfolding new_scheduler lookup
  new_scheduler-InStep = record {
    recorded = λ e p l. let clash : none ≡ some p = sym (laws.start_live e) ∙ l in absurd cc;
    running = λ id e found. let clash : none ≡ some e = found in absurd cc;
  }
