-- ===== src/Scheduler/Defaults.antt =====
-- The default schedule of `AddPolicy` of internal/scheduler/scheduler.go.
use btrfs_snapah_pow.Base.{
  ℕ, ◌≡◌, refl, ap, sym, ◌∙◌, ◌≢◌, String, Bool, true, false, not, some, lookup, insert,
  lookup-insert_self, Result, ok, err, length, is_empty, has_prefix, strip, if◌then◌else◌, arith,
}
use mathlib.Core.Path.{subst}
use btrfs_snapah_pow.Strings.{fields}
use btrfs_snapah_pow.Scheduler.{Policy, Cron, Scheduler, schedule_of, registered, add_policy}

module _ {C : Type 0} (cron : Cron C) where
  -- The cron of `NewScheduler` is made with `WithSeconds`: a schedule that is no descriptor, such as
  -- "@hourly", and names no time zone is an error unless it has six fields.
  abbrev pub WantsSixFields : Type 0
  WantsSixFields =
      (spec : String) (p : Policy) (c : C)
      → has_prefix spec "@" ≡ false
      → has_prefix spec "TZ=" ≡ false
      → has_prefix spec "CRON_TZ=" ≡ false
      → length (fields spec) ≢ 6
      → (message : String) × ((cron.add_func spec p c).1 ≡ err message)

  refused_registered :
      (p : Policy) (s : Scheduler C) (answer : C × Result ℕ) (message : String)
      → answer.1 ≡ err message
      → (text : String) × ((registered cron p s answer).1 ≡ err text)
        × ((registered cron p s answer).0.entry_ids ≡ s.entry_ids)
        × ((registered cron p s answer).0.policies ≡ s.policies)
  refused_registered p s (c, err _) message h = (_, refl, refl, refl)
  refused_registered p s (c, ok id) message h = absurd cc

  default_of :
      (spec : String) → spec ≡ "" → (if is_empty spec then "0 * * * *" else spec) ≡ "0 * * * *"
  default_of spec h = rw h refl

  five_fields : length (fields "0 * * * *") ≢ 6
  unfolding fields
  five_fields h = absurd (omega arith)

  default_refused :
      WantsSixFields
      → (p : Policy) (c : C)
      → (message : String) × ((cron.add_func "0 * * * *" p c).1 ≡ err message)
  unfolding strip
  default_refused wants p c = wants "0 * * * *" p c refl refl refl five_fields

  chosen_refused :
      (b : Bool) (p : Policy) (s : Scheduler C) (message : String)
      → b ≡ true
      → (cron.add_func (schedule_of p) p s.cron).1 ≡ err message
      → (text : String) × ((if not b
            then (s, ok tt)
            else registered cron p s (cron.add_func (schedule_of p) p s.cron)).1
          ≡ err text)
        × ((if not b
              then (s, ok tt)
              else registered cron p s (cron.add_func (schedule_of p) p s.cron)).0.entry_ids
            ≡ s.entry_ids)
        × ((if not b
              then (s, ok tt)
              else registered cron p s (cron.add_func (schedule_of p) p s.cron)).0.policies
            ≡ s.policies)
  chosen_refused true p s message on h =
      refused_registered p s (cron.add_func (schedule_of p) p s.cron) message h
  chosen_refused false p s message on h = absurd cc

  -- Where the cron wants six fields, an enabled policy without a schedule is refused, since the
  -- default has five: no entry is made, though the policy is in the map from then on.
  pub default_schedule_rejected :
      (p : Policy) (s : Scheduler C)
      → WantsSixFields
      → p.enabled ≡ true
      → p.schedule ≡ ""
      → (text : String) × ((add_policy cron p s).1 ≡ err text)
        × ((add_policy cron p s).0.entry_ids ≡ s.entry_ids)
        × (lookup p.id (add_policy cron p s).0.policies ≡ some p)
  unfolding add_policy
  default_schedule_rejected p s wants on empty =
      let (message, refused) =
        subst (λ x. (m : String) × ((cron.add_func x p s.cron).1 ≡ err m))
          (sym (default_of p.schedule empty)) (default_refused wants p s.cron) in
      let (text, failed, entries, known) =
        chosen_refused p.enabled p (record s { policies = insert p.id p s.policies }) message on
          refused in
      (text, failed, entries, ap (lookup p.id) known ∙ lookup-insert_self p.id p s.policies)
